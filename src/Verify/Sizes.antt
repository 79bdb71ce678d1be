-- ===== src/Verify/Sizes.antt =====
-- The sizes of well-formed operands, against the table of layouts.
use yggdrasil.Prelude.Int.{ℤ}
use yggdrasil.Bytecode.{Function, Module}
use yggdrasil.Bytecode.Layout.{Field}
use yggdrasil.Verify.Fits.{RegsFit, PairsFit, FieldFits, FieldsFit}
use yggdrasil.Prelude.{
  ℕ, zero, suc, ◌+◌, ◌*◌, ◌≤◌, ◌<◌, ◌≡◌, inl, inr, Option, none, some, List, [], ◌∷◌, arith,
  Option-cases, length, get_elem?, slice,
}

pub get_elem?-lt {ℓ} :
    {A : Type ℓ} (xs : List A) (i : ℕ) {a : A} → get_elem? xs i ≡ some a → i < length xs
get_elem?-lt [] i h = cc
get_elem?-lt (x ∷ xs) zero h = omega arith
get_elem?-lt (x ∷ xs) (suc i) h = omega (arith, get_elem?-lt xs i h)

pub slice-le {ℓ} :
    {A : Type ℓ} (xs : List A) (at n : ℕ) {s : List A} → slice xs at n ≡ some s → at + n ≤ length xs
slice-le xs at n h = ground arith

-- the size of an operand that always has the same
unfoldable pub fixed_size : Field → Option ℕ
fixed_size Field.reg = some 1
fixed_size (Field.bytes n) = some n
fixed_size Field.atom = some 4
fixed_size Field.offset = some 4
fixed_size Field.entry = some 4
fixed_size _ = none

unfoldable pub total_size : List Field → Option ℕ
unfolding fixed_size
total_size [] = some 0
total_size (x ∷ xs) = elim (fixed_size x) [
  | none ↦ none
  | some a ↦ elim (total_size xs) [ none ↦ none | some b ↦ some (a + b) ]
]

module _ (m : Module) (f : Function) where
  pub RegsFit-step :
      (n at next : ℕ)
      → RegsFit m f n at next
      → at ≤ length f.code
      → (next ≡ at + n) × (next ≤ length f.code)
  RegsFit-step zero at next h le = omega arith
  RegsFit-step (suc n) at next (mid, (r, e, lt, e'), h) le =
      let ih = RegsFit-step n mid next h (omega (arith, get_elem?-lt f.code at e)) in omega arith

  pub PairsFit-step :
      (n at next : ℕ)
      → PairsFit m f n at next
      → at ≤ length f.code
      → (next ≡ at + 2 * n) × (next ≤ length f.code)
  PairsFit-step zero at next h le = omega arith
  PairsFit-step (suc n) at next (mid, mid', (r, e, lt, e'), (r₂, e₂, lt₂, e₃), h) le =
      let ih = PairsFit-step n mid' next h (omega (arith, get_elem?-lt f.code mid e₂)) in
      omega arith

  -- A well-formed operand stands within the code.
  pub FieldFits-le :
      (x : Field) (at next : ℕ) (t : Option ℤ)
      → FieldFits m f x at next t
      → at ≤ length f.code
      → (at ≤ next) × (next ≤ length f.code)
  FieldFits-le Field.reg at next t ((r, e, lt, e'), _) le = omega (arith, get_elem?-lt f.code at e)
  FieldFits-le (Field.bytes n) at next t h le = omega arith
  FieldFits-le Field.atom at next t (a, s, (_, e, _, e'), _, _) le =
      omega (arith, slice-le f.code at 4 e)
  FieldFits-le Field.offset at next t (w, (_, e, _, e'), _) le =
      omega (arith, slice-le f.code at 4 e)
  FieldFits-le Field.entry at next t (c, (_, e, _, e'), _, _) le =
      omega (arith, slice-le f.code at 4 e)
  FieldFits-le Field.regs at next t (n, mid, (e, e'), h, _) le =
      omega (arith, RegsFit-step n mid next h (omega (arith, get_elem?-lt f.code at e)))
  FieldFits-le Field.pairs at next t (n, mid, (e, e'), h, _) le =
      omega (arith, PairsFit-step n mid next h (omega (arith, get_elem?-lt f.code at e)))
  FieldFits-le Field.blob at next t (n, mid, (_, e, _, e'), h, h', _) le = omega arith
  FieldFits-le Field.callee at next t (c, n, mid, mid', (_, e, _, e'), (e₁, e₂), _, h, _) le =
      omega (arith, RegsFit-step n mid' next h (omega (arith, get_elem?-lt f.code mid e₁)))

  pub FieldsFit-le :
      (xs : List Field) (t : Option ℤ) (at next : ℕ) (u : Option ℤ)
      → FieldsFit m f xs t at next u
      → at ≤ length f.code
      → (at ≤ next) × (next ≤ length f.code)
  FieldsFit-le [] t at next u h le = omega arith
  FieldsFit-le (x ∷ xs) t at next u (mid, v, h, h') le =
      let a = FieldFits-le x at mid v h le in
      let b = FieldsFit-le xs v mid next u h' a.1 in omega arith

  pub FieldFits-size :
      (x : Field) (at next : ℕ) (t : Option ℤ) {n : ℕ}
      → fixed_size x ≡ some n
      → FieldFits m f x at next t
      → next ≡ at + n
  unfolding fixed_size
  FieldFits-size Field.reg at next t e h = ground arith
  FieldFits-size (Field.bytes n) at next t e h = ground arith
  FieldFits-size Field.atom at next t e h = ground arith
  FieldFits-size Field.offset at next t e (w, (_, _, _, e'), _) = ground arith
  FieldFits-size Field.entry at next t e (w, (_, _, _, e'), _, _) = ground arith
  FieldFits-size _ at next t e h = cc

  pub FieldsFit-size :
      (xs : List Field) (t : Option ℤ) (at next : ℕ) (u : Option ℤ) {n : ℕ}
      → total_size xs ≡ some n
      → FieldsFit m f xs t at next u
      → next ≡ at + n
  unfolding total_size
  FieldsFit-size [] t at next u e h = ground arith
  FieldsFit-size (x ∷ xs) t at next u {n} e (mid, v, h, h') = elim (Option-cases (fixed_size x)) [
    | inl e₁ ↦ cc
    | inr (a, e₁) ↦ elim (Option-cases (total_size xs)) [
      | inl e₂ ↦ ground arith
      | inr (b, e₂) ↦
          let ex = FieldFits-size x at mid v e₁ h in
          let exs = FieldsFit-size xs v mid next u e₂ h' in
          let sum : a + b ≡ n = ground arith in omega arith
    ]
  ]
