-- ===== src/FrameBitmap/Fresh.antt =====
-- About `FrameBitmap::new` (crates/ygg-alloc/src/lib.rs).
use yggdrasil.FrameBitmap.{frame_size, FrameBitmap, new, storage_words}
use yggdrasil.FrameBitmap.View.{used, count_free, IsValid, Sized}
use yggdrasil.Prelude.{
  ℕ, zero, suc, ◌+◌, ◌*◌, ◌/◌, ◌%◌, ◌^◌, ◌≤◌, ◌≡◌, refl, sym, Bool, true, [], arith, get_or,
  replicate, length-replicate, le→leb, ok,
}

full_word : (k i : ℕ) → get_or (replicate k true) i true ≡ true
full_word zero i = refl
full_word (suc k) zero = refl
full_word (suc k) (suc i) = full_word k i

full_words : (n q i : ℕ) → get_or (get_or (replicate n (replicate 64 true)) q []) i true ≡ true
full_words zero q i = refl
full_words (suc n) zero i = full_word 64 i
full_words (suc n) (suc q) i = full_words n q i

Sized-full : (n : ℕ) → Sized (replicate n (replicate 64 true))
Sized-full zero = tt
Sized-full (suc n) = (refl, Sized-full n)

none_free : (p : ℕ → Bool) (n : ℕ) → ((j : ℕ) → p j ≡ true) → 0 ≡ count_free p n
unfolding count_free
none_free p zero h = refl
none_free p (suc n) h = rw (h n, sym (none_free p n h))

-- `new` gives a valid bitmap of frames that are all in use, if the storage has enough words, the
-- base is the address of a frame and the last frame ends within 64 bits.
pub new_lem :
    (base nframes storage_len : ℕ)
    → storage_words nframes ≤ storage_len
    → base % frame_size ≡ 0
    → base + nframes * frame_size ≤ 2 ^ 64
    → (b : FrameBitmap) × (new base nframes storage_len ≡ ok b)
      × IsValid b
      × (b.nframes ≡ nframes)
      × (b.free ≡ 0)
      × ((j : ℕ) → used b j ≡ true)
unfolding new storage_words used
new_lem base nframes storage_len words aligned fits =
    let b : FrameBitmap = record {
      bits = replicate storage_len (replicate 64 true);
      base = base;
      nframes = nframes;
      cursor = 0;
      free = 0;
    } in
    let all : (j : ℕ) → used b j ≡ true = λ j. full_words storage_len (j / 64) (j % 64) in
    (
      b,
      rw (le→leb ((nframes + 63) / 64) storage_len words, aligned),
      record {
        covered = omega (arith, length-replicate storage_len (replicate 64 true));
        sized = Sized-full storage_len;
        counted = none_free (used b) nframes all;
        cursor_in = λ some_frame. some_frame;
        aligned = aligned;
        fits = fits;
      },
      refl,
      refl,
      all,
    )
