-- ===== src/FrameBitmap/Contig.antt =====
-- `FrameBitmap::alloc_contig` (crates/ygg-alloc/src/lib.rs): first-fit allocation of a run of frames.
use mathlib.Core.Path.{subst}
use native.Mathlib.Decide.{dec_lt, dec_le, ℕ_discrete}
use native.Mathlib.Nat.{mod-lt, mod-add-mod, mod-eq_of_lt, pow-le-pow_right}
use yggdrasil.FrameBitmap.{
  frame_size, Run, FrameBitmap, addr_of, set_range, first_used, contig_loop, alloc_contig,
  is_power_of_two,
}
use yggdrasil.FrameBitmap.View.{used, count_free, IsValid, is_used-eq}
use yggdrasil.FrameBitmap.Ranges.{RangeSet, set_range-RangeSet}
use yggdrasil.Prelude.{
  ℕ, zero, suc, ◌+◌, ◌-◌, ◌/◌, ◌%◌, ◌^◌, ◌≤◌, ◌<◌, ◌≡◌, refl, sym, ap, ◌∙◌, ◌≢◌, ◌⊎◌, inl, inr,
  Bool, true, false, Option, none, some, arith, ltb, ◌==◌, lt→ltb, ==_iff, Bool-cases, ok,
}

module _ (b : FrameBitmap) (n align : ℕ) where
  -- an aligned run of `n` free frames from `s` on
  pub record FreeRun (s : ℕ) : Type 0 where
    pub within : s + n ≤ b.nframes
    pub aligned : (b.base / frame_size + s) % align ≡ 0
    pub free : (j : ℕ) → s ≤ j → j < s + n → used b j ≡ false

  -- What a search from `i` on comes to: the first run, which is then in use, or no run at all.
  pub data Found (i : ℕ) : Run (Option ℕ × FrameBitmap) → Type 0 where
    found :
        (s : ℕ) (b' : FrameBitmap)
        → i ≤ s
        → FreeRun s
        → ((t : ℕ) → i ≤ t → t < s → ¬ FreeRun t)
        → RangeSet b s n true b'
        → Found i (ok (some (addr_of b s), b'))
    missing : ((t : ℕ) → i ≤ t → ¬ FreeRun t) → Found i (ok (none, b))

  -- Skipping candidates that start no run.
  Found-skip :
      {r : Run (Option ℕ × FrameBitmap)} (i k : ℕ)
      → i ≤ k
      → ((t : ℕ) → i ≤ t → t < k → ¬ FreeRun t)
      → Found k r
      → Found i r
  Found-skip i k le none_ (found s b' ls run before set_) =
      found s b' (omega arith) run
        (λ t lo hi. elim (dec_lt t k) [
          | yes lt ↦ none_ t lo lt
          | no ge ↦ before t (omega arith) hi
        ])
        set_
  Found-skip i k le none_ (missing before) =
      missing
        (λ t lo. elim (dec_lt t k) [ yes lt ↦ none_ t lo lt | no ge ↦ before t (omega arith) ])

  -- Frames from `i` on that are misaligned start no run.
  misaligned :
      (i t : ℕ)
      → 0 < align
      → (b.base / frame_size + i) % align ≢ 0
      → i ≤ t
      → t < i + (align - (b.base / frame_size + i) % align)
      → ¬ FreeRun t
  misaligned i t pa mis lo hi run =
      let r : ℕ = (b.base / frame_size + i) % align in
      let e : (b.base / frame_size + t) % align ≡ r + (t - i) =
        ap (λ z. z % align)
          (let q : b.base / frame_size + t ≡ b.base / frame_size + i + (t - i) = omega arith in q)
        ∙ sym (mod-add-mod (b.base / frame_size + i) align (t - i))
        ∙ mod-eq_of_lt (let q : r + (t - i) < align = omega arith in q) in
      omega (arith, run.aligned, e)

  module _ (valid : IsValid b) where
    search_stops :
        (i k : ℕ) → i < b.nframes → used b i ≡ true → first_used b i (suc k) ≡ ok (some i)
    unfolding first_used
    search_stops i k h e = ground (arith, is_used-eq valid i h)

    search_goes_on :
        (i k : ℕ)
        → i < b.nframes
        → used b i ≡ false
        → first_used b i (suc k) ≡ first_used b (i + 1) k
    unfolding first_used
    search_goes_on i k h e = ground (arith, is_used-eq valid i h)

    search_ends : (i : ℕ) → first_used b i 0 ≡ ok none
    unfolding first_used
    search_ends i = refl

    -- The inner loop finds no frame in use, or the first one.
    first_used-Search :
        (i k : ℕ)
        → i + k ≤ b.nframes
        → ((first_used b i k ≡ ok none) × ((j : ℕ) → i ≤ j → j < i + k → used b j ≡ false))
          ⊎ ((j : ℕ) × (first_used b i k ≡ ok (some j)) × (i ≤ j) × (j < i + k) × (used b j ≡ true))
    first_used-Search i zero h = inl (search_ends i, λ j lo hi. absurd (omega arith))
    first_used-Search i (suc k) h = elim (Bool-cases (used b i)) [
      | inl e ↦ inr (i, search_stops i k (omega arith) e, omega arith, omega arith, e)
      | inr e ↦ elim (first_used-Search (i + 1) k (omega arith)) [
        | inl (e₁, free) ↦ inl (
          search_goes_on i k (omega arith) e ∙ e₁,
          λ j lo hi. elim (ℕ_discrete i j) [
            | yes same ↦ subst (λ z. used b z ≡ false) same e
            | no ne ↦ free j (omega arith) (omega arith)
          ],
        )
        | inr (j, e₁, lo, hi, u) ↦
            inr (j, search_goes_on i k (omega arith) e ∙ e₁, omega arith, omega arith, u)
      ]
    ]

    loop_exits :
        (fuel i : ℕ) → b.nframes < i + n → contig_loop (suc fuel) b n align i ≡ ok (none, b)
    unfolding contig_loop
    loop_exits fuel i h = ground arith

    loop_aligns :
        (fuel i : ℕ)
        → i + n ≤ b.nframes
        → (b.base / frame_size + i) % align ≢ 0
        → contig_loop (suc fuel) b n align i
          ≡ contig_loop fuel b n align (i + (align - (b.base / frame_size + i) % align))
    unfolding contig_loop
    loop_aligns fuel i h ne = ground arith

    loop_skips :
        (fuel i j : ℕ)
        → i + n ≤ b.nframes
        → (b.base / frame_size + i) % align ≡ 0
        → first_used b i n ≡ ok (some j)
        → contig_loop (suc fuel) b n align i ≡ contig_loop fuel b n align (j + 1)
    unfolding contig_loop
    loop_skips fuel i j h e f = ground arith

    loop_takes :
        (fuel i : ℕ) (b' : FrameBitmap)
        → i + n ≤ b.nframes
        → (b.base / frame_size + i) % align ≡ 0
        → first_used b i n ≡ ok none
        → set_range b i n true ≡ ok b'
        → contig_loop (suc fuel) b n align i ≡ ok (some (addr_of b i), b')
    unfolding contig_loop
    loop_takes fuel i b' h e f g = ground arith

    -- The search from `i` on, with fuel for the frames that are left and for the last test.
    contig_loop-Found :
        (fuel i : ℕ)
        → 0 < align
        → 0 < n
        → b.nframes < fuel + i
        → 0 < fuel
        → Found i (contig_loop fuel b n align i)
    contig_loop-Found zero i pa pn h p = elim p [ ]
    contig_loop-Found (suc fuel) i pa pn h p = elim (dec_le (i + n) b.nframes) [
      | no gt ↦
          rw (loop_exits fuel i (omega arith))
            (missing (λ t lo run. absurd (omega (arith, run.within))))
      | yes le ↦ elim (ℕ_discrete ((b.base / frame_size + i) % align) 0) [
        | no mis ↦
            let next : ℕ = i + (align - (b.base / frame_size + i) % align) in
            let r : (b.base / frame_size + i) % align < align =
              mod-lt (b.base / frame_size + i) pa in
            rw (loop_aligns fuel i le mis) (
              Found-skip i next (omega arith) (λ t lo hi. misaligned i t pa mis lo hi)
                (contig_loop-Found fuel next pa pn (omega arith) (omega arith)))
        | yes al ↦ elim (first_used-Search i n le) [
          | inl (e, free) ↦
              let (b', es, set_) = set_range-RangeSet b i n true valid le in
              rw (loop_takes fuel i b' le al e es) (
                found i b' (omega arith) (record { within = le; aligned = al; free = free })
                  (λ t lo hi. absurd (omega arith)) set_)
          | inr (j, e, lo, hi, u) ↦ rw (loop_skips fuel i j le al e) (
              Found-skip i (j + 1) (omega arith)
                (λ t lo' hi' run. cc (sym u ∙ run.free j (omega arith) (omega arith)))
                (contig_loop-Found fuel (j + 1) pa pn (omega arith) (omega arith)))
        ]
      ]
    ]

-- A run of free frames is counted.
FreeRun-count :
    (p : ℕ → Bool) (s n N : ℕ)
    → s + n ≤ N
    → ((j : ℕ) → s ≤ j → j < s + n → p j ≡ false)
    → n ≤ count_free p N
unfolding count_free
FreeRun-count p s n zero h free = omega arith
FreeRun-count p s zero (suc N) h free = omega arith
FreeRun-count p s (suc n) (suc N) h free = elim (ℕ_discrete (s + suc n) (suc N)) [
  | yes e ↦
      let ih = FreeRun-count p s n N (omega arith) (λ j lo hi. free j lo (omega arith)) in
      let last : p N ≡ false = free N (omega arith) (omega arith) in ground arith
  | no ne ↦ let ih = FreeRun-count p s (suc n) N (omega arith) free in ground arith
]

ge→ltb : (a b : ℕ) → ¬ (a < b) → ltb a b ≡ false
ge→ltb a b h = ground arith

is_power_of_two-pos : (k a : ℕ) → is_power_of_two k a ≡ true → 0 < a
is_power_of_two-pos zero a h = cc
is_power_of_two-pos (suc k) a h = elim (Bool-cases (2 ^ k == a)) [
  | inl e ↦
      rw (← (==_iff (2 ^ k) a).0 e)
        (pow-le-pow_right {n = 2} (omega arith) {i = 0} {j = k} (omega arith))
  | inr e ↦ is_power_of_two-pos k a (ground arith)
]

-- On a valid bitmap, for a count above 0 and a power of two, `alloc_contig` returns the lowest
-- aligned run of free frames, which is then in use while all other frames stay as they are, or
-- nothing if there is no such run, and then nothing has changed. It does not panic, and its loop
-- ends.
pub alloc_contig_lem :
    (b : FrameBitmap) (n align : ℕ)
    → IsValid b
    → 0 < n
    → is_power_of_two 64 align ≡ true
    → Found b n align 0 (alloc_contig b n align)
unfolding alloc_contig
alloc_contig_lem b n align valid pn pa =
    let pos : 0 < align = is_power_of_two-pos 64 align pa in
    elim (dec_lt b.free n) [
      | yes few ↦
          rw (pa, lt→ltb 0 n pn, lt→ltb b.free n few)
            (missing (λ t lo run.
              omega
                (arith, valid.counted, FreeRun-count (used b) t n b.nframes run.within run.free)))
      | no enough ↦
          rw (pa, lt→ltb 0 n pn, ge→ltb b.free n enough)
            (contig_loop-Found b n align valid (b.nframes + 1) 0 pos pn (omega arith) (omega arith))
    ]
