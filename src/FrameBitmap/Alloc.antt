-- ===== src/FrameBitmap/Alloc.antt =====
-- `FrameBitmap::alloc` (crates/ygg-alloc/src/lib.rs): next-fit allocation of one frame.
use native.Mathlib.Decide.{ℕ_discrete}
use mathlib.Core.Path.{subst}
use native.Mathlib.Nat.{mod-lt, mod-add-mod, add-mod-mod, add-mod_right, mod-eq_of_lt}
use yggdrasil.FrameBitmap.{Run, FrameBitmap, addr_of, alloc_loop, alloc}
use yggdrasil.FrameBitmap.View.{
  used, IsValid, update, count_free-pos, count_free-update, count_free-congr, count_free-le,
  is_used-eq, set_bit, set_used-eq, used-set_bit, set_bit-IsValid,
}
use yggdrasil.Prelude.{
  ℕ, zero, suc, ◌+◌, ◌-◌, ◌%◌, ◌<◌, ◌≡◌, refl, sym, ap, ◌∙◌, ◌≢◌, ◌⊎◌, inl, inr, true, false,
  Option, none, some, arith, ==_iff, Bool-cases, below_ne, ok,
}

-- What an allocation of frame `i` has done.
pub record Took (b : FrameBitmap) (i : ℕ) (b' : FrameBitmap) : Type 0 where
  pub in_range : i < b.nframes
  pub was_free : used b i ≡ false
  pub view : (j : ℕ) → used b' j ≡ update (used b) i true j
  pub valid : IsValid b'
  pub one_less : b'.free + 1 ≡ b.free
  pub same_base : b'.base ≡ b.base
  pub same_size : b'.nframes ≡ b.nframes

module _ {b : FrameBitmap} (valid : IsValid b) where
  abbrev pub taken : ℕ → FrameBitmap
  taken i = record (set_bit b i true) { cursor = (i + 1) % b.nframes }

  used-taken : (i j : ℕ) → used (taken i) j ≡ used (set_bit b i true) j
  unfolding used
  used-taken i j = refl

  taken-Took : (i : ℕ) → i < b.nframes → used b i ≡ false → Took b i (taken i)
  taken-Took i h f =
      let w = set_bit-IsValid valid i true h in
      record {
        in_range = h;
        was_free = f;
        view = λ j. used-taken i j ∙ used-set_bit valid i true h j;
        valid = record {
          covered = w.covered;
          sized = w.sized;
          counted =
              w.counted
              ∙ count_free-congr (used (taken i)) (used (set_bit b i true)) b.nframes
                  (λ j. sym (used-taken i j));
          cursor_in = λ p. mod-lt (i + 1) p;
          aligned = w.aligned;
          fits = w.fits;
        };
        one_less = ground (
          arith,
          valid.counted,
          valid.fits,
          w.counted,
          count_free-congr (update (used b) i true) (used (set_bit b i true)) b.nframes
              (used-set_bit valid i true h),
          count_free-update (used b) i true b.nframes h,
          count_free-le (used b) b.nframes,
        );
        same_base = refl;
        same_size = refl;
      }

  loop-free :
      (fuel start i : ℕ)
      → i < b.nframes
      → used b i ≡ false
      → alloc_loop (suc fuel) b start i ≡ ok (some (addr_of b i), taken i)
  unfolding alloc_loop
  loop-free fuel start i h f = ground (arith, is_used-eq valid i h, set_used-eq valid i true h)

  loop-used :
      (fuel start i : ℕ)
      → i < b.nframes
      → used b i ≡ true
      → (i + 1) % b.nframes ≢ start
      → alloc_loop (suc fuel) b start i ≡ alloc_loop fuel b start ((i + 1) % b.nframes)
  unfolding alloc_loop
  loop-used fuel start i h f ne = ground (arith, is_used-eq valid i h)

  -- The loop has come `k` frames from `start`, and a free frame is `t` frames further on.
  loop-finds :
      (fuel start k t : ℕ)
      → t < fuel
      → k + t < b.nframes
      → start < b.nframes
      → used b ((start + k + t) % b.nframes) ≡ false
      → (i : ℕ) × (alloc_loop fuel b start ((start + k) % b.nframes)
          ≡ ok (some (addr_of b i), taken i))
        × (i < b.nframes)
        × (used b i ≡ false)
  loop-finds zero start k t h hk hs f = elim h [ ]
  loop-finds (suc fuel) start k t h hk hs f =
      let i : ℕ = (start + k) % b.nframes in
      let lt : i < b.nframes = mod-lt (start + k) (omega arith) in
      elim (Bool-cases (used b i)) [
        | inr free ↦ (i, loop-free fuel start i lt free, lt, free)
        | inl taken_ ↦
            let further : t ≢ 0 = λ e. cc (
              sym taken_
              ∙ subst (λ z. used b (z % b.nframes) ≡ false)
                  (let q : start + k + t ≡ start + k = omega arith in q) f) in
            let next : (i + 1) % b.nframes ≡ (start + (k + 1)) % b.nframes =
              mod-add-mod (start + k) b.nframes 1
              ∙ ap (λ z. z % b.nframes)
                  (let q : start + k + 1 ≡ start + (k + 1) = omega arith in q) in
            let (j, ej, jl, jf) =
              loop-finds fuel start (k + 1) (t - 1) (omega arith) (omega arith) hs (
                subst (λ z. used b (z % b.nframes) ≡ false)
                  (let q : start + k + t ≡ start + (k + 1) + (t - 1) = omega arith in q) f) in
            (
              j,
              loop-used fuel start i lt taken_ (λ e.
                    below_ne b.nframes start (k + 1) hs (omega arith) (omega arith) (sym next ∙ e))
                  ∙ ap (alloc_loop fuel b start) next
                  ∙ ej,
              jl,
              jf,
            )
      ]

  -- the frame `j`, as steps from the cursor
  round_to :
      (j : ℕ)
      → j < b.nframes
      → b.cursor < b.nframes
      → (b.cursor + 0 + (j + b.nframes - b.cursor) % b.nframes) % b.nframes ≡ j
  round_to j lt start =
      add-mod-mod (b.cursor + 0) (j + b.nframes - b.cursor) b.nframes
      ∙ ap (λ z. z % b.nframes)
          (let q : b.cursor + 0 + (j + b.nframes - b.cursor) ≡ j + b.nframes = omega arith in q)
      ∙ add-mod_right j b.nframes
      ∙ mod-eq_of_lt lt

  search_runs :
      {r : Run (Option ℕ × FrameBitmap)}
      → 0 < b.free
      → alloc_loop (b.nframes + 1) b b.cursor b.cursor ≡ r
      → alloc b ≡ r
  unfolding alloc
  search_runs pos e = ground arith

  alloc_cases :
      (b.free ≡ 0 → alloc b ≡ ok (none, b))
      × (0 < b.free
          → (i : ℕ) × (b' : FrameBitmap) × (alloc b ≡ ok (some (addr_of b i), b')) × Took b i b')
  unfolding alloc
  alloc_cases = (
    (λ e. rw ((==_iff b.free 0).1 e)),
    (λ pos.
        let (j, lt, free) = count_free-pos (used b) b.nframes (omega (arith, valid.counted)) in
        let start : b.cursor < b.nframes = valid.cursor_in (omega arith) in
        let t : ℕ = (j + b.nframes - b.cursor) % b.nframes in
        let lt' : t < b.nframes = mod-lt (j + b.nframes - b.cursor) (omega arith) in
        let (i, e, li, fi) =
          loop-finds (b.nframes + 1) b.cursor 0 t (omega arith) (omega arith) start
            (subst (λ z. used b z ≡ false) (sym (round_to j lt start)) free) in
        (
          i,
          taken i,
          search_runs (omega arith) (
              ap (alloc_loop (b.nframes + 1) b b.cursor) (
                let q : b.cursor ≡ (b.cursor + 0) % b.nframes =
                  omega (arith, mod-eq_of_lt {n = b.cursor + 0} {m = b.nframes} (omega arith)) in
                q)
              ∙ e),
          taken-Took i li fi,
        )),
  )

  -- On a valid bitmap, `alloc` returns nothing if no frame is free, and then changes nothing;
  -- otherwise it returns the address of a frame that was free, which is in use afterwards while all
  -- others stay as they are, and it counts one free frame less. It does not panic, and its loop
  -- ends.
  pub alloc_lem :
      ((b.free ≡ 0) × (alloc b ≡ ok (none, b)))
      ⊎ ((0 < b.free)
          × (i : ℕ) × (b' : FrameBitmap) × (alloc b ≡ ok (some (addr_of b i), b'))
          × Took b i b')
  alloc_lem = elim (ℕ_discrete b.free 0) [
    | yes e ↦ inl (e, alloc_cases.0 e)
    | no ne ↦
        (let pos : 0 < b.free = omega arith in
          let (i, b', e, took) = alloc_cases.1 pos in inr (pos, i, b', e, took))
  ]
