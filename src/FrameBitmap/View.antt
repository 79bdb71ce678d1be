-- ===== src/FrameBitmap/View.antt =====
-- A bitmap as the set of the frames in use: what the tests and the changes of one bit do to it.
use mathlib.Core.Path.{subst}
use native.Mathlib.Decide.{ℕ_discrete}
use yggdrasil.FrameBitmap.{frame_size, Word, FrameBitmap, is_used, set_used}
use yggdrasil.Prelude.{
  ℕ, zero, suc, ◌+◌, ◌-◌, ◌*◌, ◌/◌, ◌%◌, ◌^◌, ◌≤◌, ◌<◌, ◌≡◌, refl, sym, ap, ◌∙◌, ◌≢◌, inl, inr,
  Bool, true, false, List, [], ◌∷◌, arith, ◌==◌, if◌then◌else◌, Bool-cases, length, set, get_or,
  length-set, ok, index-eq-get_or, get_or-set_self, get_or-set_ne,
}

-- whether frame `j` is in use
unfoldable pub used : FrameBitmap → ℕ → Bool
used b j = get_or (get_or b.bits (j / 64) []) (j % 64) true

-- the number of the frames below `n` that are not in use
unfoldable pub count_free : (ℕ → Bool) → ℕ → ℕ
count_free p zero = 0
count_free p (suc n) = (if p n then 0 else 1) + count_free p n

abbrev pub Sized : List Word → Type 0
Sized [] = Unit
Sized (w ∷ ws) = (length w ≡ 64) × Sized ws

-- The invariant: the words cover the frames, and `free` counts the frames not in use.
pub record IsValid (b : FrameBitmap) : Type 0 where
  pub covered : b.nframes ≤ 64 * length b.bits
  pub sized : Sized b.bits
  pub counted : b.free ≡ count_free (used b) b.nframes
  pub cursor_in : 0 < b.nframes → b.cursor < b.nframes
  pub aligned : b.base % frame_size ≡ 0
  pub fits : b.base + b.nframes * frame_size ≤ 2 ^ 64

-- `p` with the value `v` at `i`
abbrev pub update : (ℕ → Bool) → ℕ → Bool → ℕ → Bool
update p i v j = if i == j then v else p j

update_ne : (p : ℕ → Bool) (i j : ℕ) (v : Bool) → i ≢ j → update p i v j ≡ p j
update_ne p i j v ne = ground arith

Sized-word : (ws : List Word) (k : ℕ) → Sized ws → k < length ws → length (get_or ws k []) ≡ 64
Sized-word [] k h lt = elim lt [ ]
Sized-word (w ∷ ws) zero h lt = h.0
Sized-word (w ∷ ws) (suc k) h lt = Sized-word ws k h.1 (omega arith)

Sized-set : (ws : List Word) (k : ℕ) (w : Word) → Sized ws → length w ≡ 64 → Sized (set ws k w)
Sized-set [] k w h e = tt
Sized-set (x ∷ ws) zero w h e = (e, h.1)
Sized-set (x ∷ ws) (suc k) w h e = (h.0, Sized-set ws k w h.1 e)

pub count_free-le : (p : ℕ → Bool) (n : ℕ) → count_free p n ≤ n
unfolding count_free
count_free-le p zero = omega arith
count_free-le p (suc n) = ground (arith, count_free-le p n)

pub count_free-congr :
    (p q : ℕ → Bool) (n : ℕ) → ((j : ℕ) → q j ≡ p j) → count_free q n ≡ count_free p n
unfolding count_free
count_free-congr p q zero h = refl
count_free-congr p q (suc n) h = rw (h n, count_free-congr p q n h)

count_free-update_ge :
    (p : ℕ → Bool) (i : ℕ) (v : Bool) (n : ℕ) → n ≤ i → count_free (update p i v) n ≡ count_free p n
unfolding count_free
count_free-update_ge p i v zero h = refl
count_free-update_ge p i v (suc n) h = ground (arith, count_free-update_ge p i v n)

-- Changing one frame changes the count by that frame.
pub count_free-update :
    (p : ℕ → Bool) (i : ℕ) (v : Bool) (n : ℕ)
    → i < n
    → count_free (update p i v) n + (if p i then 0 else 1) ≡ count_free p n + (if v then 0 else 1)
unfolding count_free
count_free-update p i v zero h = elim h [ ]
count_free-update p i v (suc n) h = elim (Bool-cases (i == n)) [
  | inl e ↦ ground (arith, count_free-update_ge p i v n)
  | inr e ↦ ground (arith, count_free-update p i v n)
]

-- Where some frame is free, one can be named.
pub count_free-pos : (p : ℕ → Bool) (n : ℕ) → 0 < count_free p n → (j : ℕ) × (j < n) × (p j ≡ false)
unfolding count_free
count_free-pos p zero h = absurd (omega arith)
count_free-pos p (suc n) h = elim (Bool-cases (p n)) [
  | inl e ↦ let (j, lt, free) = count_free-pos p n (ground arith) in (j, omega arith, free)
  | inr e ↦ (n, omega arith, e)
]

module _ {b : FrameBitmap} (valid : IsValid b) where
  word_in : (i : ℕ) → i < b.nframes → i / 64 < length b.bits
  word_in i h = omega (arith, valid.covered)

  bit_in : (i : ℕ) → i < b.nframes → i % 64 < length (get_or b.bits (i / 64) [])
  bit_in i h = omega (arith, Sized-word b.bits (i / 64) valid.sized (word_in i h))

  -- The test of a frame does not panic.
  pub is_used-eq : (i : ℕ) → i < b.nframes → is_used b i ≡ ok (used b i)
  unfolding is_used used
  is_used-eq i h =
      rw (index-eq-get_or {E = ⊥} b.bits (i / 64) [] (word_in i h))
        (index-eq-get_or {E = ⊥} (get_or b.bits (i / 64) []) (i % 64) true (bit_in i h))

-- The bitmap after a change of one bit.
abbrev pub set_bit : FrameBitmap → ℕ → Bool → FrameBitmap
set_bit b i v = record b {
  bits = set b.bits (i / 64) (set (get_or b.bits (i / 64) []) (i % 64) v);
  free =
      if v
      then (if used b i then b.free else (b.free + 2 ^ 64 - 1) % 2 ^ 64)
      else (if used b i then b.free + 1 else b.free);
}

module _ {b : FrameBitmap} (valid : IsValid b) (i : ℕ) (v : Bool) (h : i < b.nframes) where
  -- The change of a frame does not panic.
  pub set_used-eq : set_used b i v ≡ ok (set_bit b i v)
  unfolding set_used used
  set_used-eq = rw (index-eq-get_or {E = ⊥} b.bits (i / 64) [] (word_in valid i h)) (
      rw (index-eq-get_or {E = ⊥} (get_or b.bits (i / 64) []) (i % 64) true (bit_in valid i h))
        (ground arith))

  -- It changes that frame and no other.
  pub used-set_bit : (j : ℕ) → used (set_bit b i v) j ≡ update (used b) i v j
  unfolding used
  used-set_bit j = elim (ℕ_discrete (i / 64) (j / 64)) [
    | yes e ↦ elim (ℕ_discrete (i % 64) (j % 64)) [
      | yes e' ↦
          let same : i ≡ j = omega arith in
          subst (λ k. used (set_bit b i v) k ≡ update (used b) i v k) same
            (rw
              (get_or-set_self b.bits (i / 64) (set (get_or b.bits (i / 64) []) (i % 64) v) []
                (word_in valid i h))
              (rw (get_or-set_self (get_or b.bits (i / 64) []) (i % 64) v true (bit_in valid i h))
                (ground arith)))
      | no ne ↦
          ap (λ w. get_or w (j % 64) true)
            (ap
                (λ k.
                  get_or (set b.bits (i / 64) (set (get_or b.bits (i / 64) []) (i % 64) v)) k [])
                (sym e)
              ∙ get_or-set_self b.bits (i / 64) (set (get_or b.bits (i / 64) []) (i % 64) v) []
                  (word_in valid i h))
          ∙ get_or-set_ne (get_or b.bits (i / 64) []) (i % 64) (j % 64) v true ne
          ∙ ap (λ k. get_or (get_or b.bits k []) (j % 64) true) e
          ∙ sym (update_ne (used b) i j v (λ same. ne (ap (λ k. k % 64) same)))
    ]
    | no ne ↦
        rw
          (get_or-set_ne b.bits (i / 64) (j / 64) (set (get_or b.bits (i / 64) []) (i % 64) v) []
            ne)
          (sym (update_ne (used b) i j v (λ e. ne (ap (λ k. k / 64) e))))
  ]

  set_bit-free : (set_bit b i v).free ≡ count_free (used (set_bit b i v)) b.nframes
  set_bit-free = ground (
    arith,
    valid,
    count_free-update (used b) i v b.nframes h,
    count_free-congr (update (used b) i v) (used (set_bit b i v)) b.nframes used-set_bit,
    count_free-le (used b) b.nframes,
  )

  -- It keeps the invariant.
  pub set_bit-IsValid : IsValid (set_bit b i v)
  set_bit-IsValid = record {
    covered = rw length-set valid.covered;
    sized = Sized-set b.bits (i / 64) (set (get_or b.bits (i / 64) []) (i % 64) v) valid.sized (
        length-set (get_or b.bits (i / 64) []) (i % 64) v
        ∙ Sized-word b.bits (i / 64) valid.sized (word_in valid i h));
    counted = set_bit-free;
    cursor_in = valid.cursor_in;
    aligned = valid.aligned;
    fits = valid.fits;
  }
