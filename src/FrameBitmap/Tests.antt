-- ===== src/FrameBitmap/Tests.antt =====
-- A bitmap of four frames, of which the first is in use.
use yggdrasil.FrameBitmap.{
  frame_size, FrameBitmap, addr_of, alloc, alloc_contig, free_frames, mark_free_range,
}
use yggdrasil.FrameBitmap.{new, storage_words}
use yggdrasil.FrameBitmap.Fresh.{new_lem}
use yggdrasil.FrameBitmap.View.{used, count_free, IsValid}
use yggdrasil.FrameBitmap.Alloc.{Took, alloc_lem}
use yggdrasil.FrameBitmap.Ranges.{
  in_range, RangeSet, free_frames_lem, free_frames-double, mark_free_range_lem,
}
use yggdrasil.FrameBitmap.Contig.{Found, alloc_contig_lem}
use yggdrasil.Prelude.{
  ℕ, zero, suc, ◌+◌, ◌^◌, ◌/◌, ◌<◌, ◌≤◌, ◌≡◌, refl, ◌⊎◌, true, false, none, some, [], ◌∷◌, arith,
  replicate, ok, panic, ◌&&◌, ltb, false, if◌then◌else◌,
}

abbrev four : FrameBitmap
four = record {
  bits = (true ∷ false ∷ false ∷ false ∷ replicate 60 true) ∷ [];
  base = 2 ^ 20;
  nframes = 4;
  cursor = 0;
  free = 3;
}

four-IsValid : IsValid four
unfolding used count_free
four-IsValid = record {
  covered = omega arith;
  sized = (refl, tt);
  counted = refl;
  cursor_in = λ p. omega arith;
  aligned = refl;
  fits = omega arith;
}

first_used : (j : ℕ) → 0 ≤ j → j < 0 + 1 → used four j ≡ true
unfolding used
first_used zero lo hi = refl
first_used (suc j) lo hi = absurd (omega arith)

second_free : used four 1 ≡ false
unfolding used
second_free = refl

alloc_lem_example :
    ((four.free ≡ 0) × (alloc four ≡ ok (none, four)))
    ⊎ ((0 < four.free)
        × (i : ℕ) × (b' : FrameBitmap) × (alloc four ≡ ok (some (addr_of four i), b'))
        × Took four i b')
alloc_lem_example = alloc_lem four-IsValid

alloc_contig_lem_example : Found four 2 2 0 (alloc_contig four 2 2)
alloc_contig_lem_example = alloc_contig_lem four 2 2 four-IsValid (omega arith) refl

free_frames_lem_example :
    (b' : FrameBitmap) × (free_frames four (addr_of four 0) 1 ≡ ok b') × RangeSet four 0 1 false b'
free_frames_lem_example = free_frames_lem four-IsValid 0 1 (omega arith) (omega arith) first_used

free_frames-double_example : free_frames four (addr_of four 1) 1 ≡ panic
free_frames-double_example = free_frames-double four-IsValid 1 0 (omega arith) second_free

mark_free_range_lem_example :
    (b' : FrameBitmap) × (mark_free_range four (addr_of four 2) 12288 ≡ ok b')
    × IsValid b'
    × (b'.base ≡ four.base)
    × (b'.nframes ≡ 4)
    × ((j : ℕ)
        → used b' j ≡ (if in_range 2 (12288 / frame_size) j && ltb j 4 then false else used four j))
mark_free_range_lem_example = mark_free_range_lem four-IsValid 2 12288 (omega arith)

enough_words : storage_words 100 ≤ 2
unfolding storage_words
enough_words = omega arith

new_lem_example :
    (b : FrameBitmap) × (new (2 ^ 20) 100 2 ≡ ok b)
    × IsValid b
    × (b.nframes ≡ 100)
    × (b.free ≡ 0)
    × ((j : ℕ) → used b j ≡ true)
new_lem_example = new_lem (2 ^ 20) 100 2 enough_words refl (omega arith)
