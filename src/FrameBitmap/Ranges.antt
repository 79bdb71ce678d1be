-- ===== src/FrameBitmap/Ranges.antt =====
-- Changes of a range of frames (crates/ygg-alloc/src/lib.rs): the marks and `free_frames`.
use yggdrasil.FrameBitmap.{
  frame_size, FrameBitmap, index_of, addr_of, set_range, free_loop, free_frames, mark_free_range,
  clipped,
}
use yggdrasil.FrameBitmap.View.{
  used, IsValid, is_used-eq, set_bit, set_used-eq, used-set_bit, set_bit-IsValid,
}
use yggdrasil.Prelude.{
  ℕ, zero, suc, ◌+◌, ◌/◌, ◌≤◌, ◌<◌, ◌≡◌, refl, ap, ◌∙◌, Bool, true, false, ◌&&◌, arith, ltb, leb,
  if◌then◌else◌, ok, panic,
}

abbrev pub in_range : (first n j : ℕ) → Bool
in_range first n j = leb first j && ltb j (first + n)

-- What is so after the frames `first..first + n` have been set to `v`.
pub record RangeSet (b : FrameBitmap) (first n : ℕ) (v : Bool) (b' : FrameBitmap) : Type 0 where
  pub view : (j : ℕ) → used b' j ≡ (if in_range first n j then v else used b j)
  pub valid : IsValid b'
  pub same_base : b'.base ≡ b.base
  pub same_size : b'.nframes ≡ b.nframes

RangeSet-none : (b : FrameBitmap) (first : ℕ) (v : Bool) → IsValid b → RangeSet b first 0 v b
RangeSet-none b first v valid = record {
  view = λ j. ground arith;
  valid = valid;
  same_base = refl;
  same_size = refl;
}

RangeSet-cons :
    (b b' : FrameBitmap) (first n : ℕ) (v : Bool) (valid : IsValid b) (h : first < b.nframes)
    → RangeSet (set_bit b first v) (first + 1) n v b'
    → RangeSet b first (suc n) v b'
RangeSet-cons b b' first n v valid h r = record {
  view = λ j. ground (arith, r.view j, used-set_bit valid first v h j);
  valid = r.valid;
  same_base = r.same_base;
  same_size = r.same_size;
}

-- Setting a range within the frames does not panic.
pub set_range-RangeSet :
    (b : FrameBitmap) (first n : ℕ) (v : Bool)
    → IsValid b
    → first + n ≤ b.nframes
    → (b' : FrameBitmap) × (set_range b first n v ≡ ok b') × RangeSet b first n v b'
unfolding set_range
set_range-RangeSet b first zero v valid h = (b, refl, RangeSet-none b first v valid)
set_range-RangeSet b first (suc n) v valid h =
    let lt : first < b.nframes = omega arith in
    let (b', e, r) =
      set_range-RangeSet (set_bit b first v) (first + 1) n v (set_bit-IsValid valid first v lt)
        (omega arith) in
    (b', rw (set_used-eq valid first v lt) e, RangeSet-cons b b' first n v valid lt r)

-- The index of the address of a frame is the frame.
pub index_of-addr_of :
    {b : FrameBitmap} → IsValid b → (i : ℕ) → i < b.nframes → index_of b (addr_of b i) ≡ i
unfolding index_of addr_of
index_of-addr_of {b} valid i h = omega (arith, valid.fits)

-- Freeing frames that are in use does not panic, and frees those frames and no others.
free_loop-RangeSet :
    (b : FrameBitmap) (first n : ℕ)
    → IsValid b
    → first + n ≤ b.nframes
    → ((j : ℕ) → first ≤ j → j < first + n → used b j ≡ true)
    → (b' : FrameBitmap) × (free_loop b first n ≡ ok b') × RangeSet b first n false b'
unfolding free_loop
free_loop-RangeSet b first zero valid h all = (b, refl, RangeSet-none b first false valid)
free_loop-RangeSet b first (suc n) valid h all =
    let lt : first < b.nframes = omega arith in
    let (b', e, r) =
      free_loop-RangeSet (set_bit b first false) (first + 1) n
        (set_bit-IsValid valid first false lt) (omega arith)
        (λ j lo hi. ground (arith, used-set_bit valid first false lt j, all j)) in
    (
      b',
      rw
          (
            is_used-eq valid first lt,
            all first (omega arith) (omega arith),
            set_used-eq valid first false lt,
          )
          e,
      RangeSet-cons b b' first n false valid lt r,
    )

-- The clipped range is what of the range lies within the bitmap.
in_range-clipped :
    (b : FrameBitmap) (i j n : ℕ)
    → in_range i (clipped b i n) j ≡ (in_range i n j && ltb j b.nframes)
in_range-clipped b i j n = ground arith

module _ {b : FrameBitmap} (valid : IsValid b) where
  -- `free_frames` on a valid bitmap, at the address of a frame, frees the `n` frames from there and
  -- no others and keeps the invariant, if all of them were in use and lie within the bitmap.
  pub free_frames_lem :
      (i n : ℕ)
      → i < b.nframes
      → i + n ≤ b.nframes
      → ((j : ℕ) → i ≤ j → j < i + n → used b j ≡ true)
      → (b' : FrameBitmap) × (free_frames b (addr_of b i) n ≡ ok b') × RangeSet b i n false b'
  unfolding free_frames
  free_frames_lem i n lt h all =
      rw (index_of-addr_of valid i lt) (free_loop-RangeSet b i n valid h all)

  -- A double free panics: `free_frames` on a valid bitmap, of a range whose first frame is free.
  pub free_frames-double :
      (i n : ℕ) → i < b.nframes → used b i ≡ false → free_frames b (addr_of b i) (suc n) ≡ panic
  unfolding free_frames free_loop
  free_frames-double i n lt f = rw (index_of-addr_of valid i lt, is_used-eq valid i lt, f)

  -- `mark_free_range` on a valid bitmap, from the address of a frame, does not panic: as many
  -- frames from there on as the length holds whole ones are free, those beyond the bitmap excepted,
  -- all others are as they were, and the invariant, the base and the number of frames are kept.
  pub mark_free_range_lem :
      (i len : ℕ)
      → i < b.nframes
      → (b' : FrameBitmap) × (mark_free_range b (addr_of b i) len ≡ ok b')
        × IsValid b'
        × (b'.base ≡ b.base)
        × (b'.nframes ≡ b.nframes)
        × ((j : ℕ)
            → used b' j
              ≡ (if in_range i (len / frame_size) j && ltb j b.nframes then false else used b j))
  unfolding mark_free_range
  mark_free_range_lem i len lt =
      let (b', e, r) =
        set_range-RangeSet b i (clipped b i (len / frame_size)) false valid (omega arith) in
      (
        b',
        rw (index_of-addr_of valid i lt) e,
        r.valid,
        r.same_base,
        r.same_size,
        λ j.
            r.view j
            ∙ ap (λ t. if t then false else used b j) (in_range-clipped b i j (len / frame_size)),
      )
