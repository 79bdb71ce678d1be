-- ===== src/Verify/Fits.antt =====
-- What it takes for the operands of an instruction to be well formed, stated on the bytes: the
-- meaning of the verifier's tests.
use yggdrasil.Prelude.Int.{ℤ, pos, ◌+ℤ◌}
use yggdrasil.Bytecode.{Function, Module}
use yggdrasil.Bytecode.Layout.{Field}
use yggdrasil.Verify
use yggdrasil.Verify.Cursor.{
  VerifyError, bad_atom, bad_call_target, bad_call_arity, Scan, pure, fail, ◌>>>◌, read_u8,
  read_u32, skip,
}
use yggdrasil.Verify.{
  as_i32, contains, Effect, State, verify_op, verify_instr, verify_loop, lands, check_targets,
  initial, verify_fn, verify_from, verify,
}
use yggdrasil.Verify.Table.{check_field, check_fields}
use yggdrasil.Prelude.{
  ℕ, zero, suc, ◌+◌, ◌≤◌, ◌<◌, ◌≡◌, refl, Option, none, some, List, [], ◌∷◌, arith, ◌==◌,
  if◌then◌else◌, length, get_elem?, slice, from_le_bytes, Outcome, ok, >>=-eq-ok,
}

module _ (m : Module) (f : Function) where
  -- a byte at `at` that numbers a register of the frame
  abbrev pub RegFits : ℕ → ℕ → Type 0
  RegFits at next = (r : ℕ) × (get_elem? f.code at ≡ some r) × (r < f.nregs) × (next ≡ at + 1)

  abbrev pub RegsFit : ℕ → ℕ → ℕ → Type 0
  RegsFit zero at next = next ≡ at
  RegsFit (suc n) at next = (mid : ℕ) × RegFits at mid × RegsFit n mid next

  abbrev pub PairsFit : ℕ → ℕ → ℕ → Type 0
  PairsFit zero at next = next ≡ at
  PairsFit (suc n) at next =
      (mid : ℕ) × (mid' : ℕ) × RegFits at mid × RegFits mid mid' × PairsFit n mid' next

  -- the word of four bytes at `at`
  abbrev pub WordAt : ℕ → ℕ → ℕ → Type 0
  WordAt at w next =
      (s : List ℕ) × (slice f.code at 4 ≡ some s) × (w ≡ from_le_bytes s) × (next ≡ at + 4)

  abbrev pub ByteAt : ℕ → ℕ → ℕ → Type 0
  ByteAt at b next = (get_elem? f.code at ≡ some b) × (next ≡ at + 1)

  -- a word that numbers a function of `n` parameters
  abbrev pub CalleeFits : ℕ → ℕ → Type 0
  CalleeFits c n = (g : Function) × (get_elem? m.functions c ≡ some g) × (g.arity ≡ n)

  -- The operand stands in the code from `at` to `next`; a jump has the target `t`.
  abbrev pub FieldFits : Field → ℕ → ℕ → Option ℤ → Type 0
  FieldFits Field.reg at next t = RegFits at next × (t ≡ none)
  FieldFits (Field.bytes n) at next t = (at + n ≤ length f.code) × (next ≡ at + n) × (t ≡ none)
  FieldFits Field.atom at next t =
      (a : ℕ) × (s : List ℕ) × WordAt at a next × (get_elem? m.atoms a ≡ some s) × (t ≡ none)
  FieldFits Field.offset at next t = (w : ℕ) × WordAt at w next × (t ≡ some (pos next +ℤ as_i32 w))
  FieldFits Field.entry at next t = (c : ℕ) × WordAt at c next × CalleeFits c 1 × (t ≡ none)
  FieldFits Field.regs at next t =
      (n : ℕ) × (mid : ℕ) × ByteAt at n mid × RegsFit n mid next × (t ≡ none)
  FieldFits Field.pairs at next t =
      (n : ℕ) × (mid : ℕ) × ByteAt at n mid × PairsFit n mid next × (t ≡ none)
  FieldFits Field.blob at next t =
      (n : ℕ) × (mid : ℕ) × WordAt at n mid
      × (mid + n ≤ length f.code)
      × (next ≡ mid + n)
      × (t ≡ none)
  FieldFits Field.callee at next t =
      (c : ℕ) × (n : ℕ) × (mid : ℕ) × (mid' : ℕ) × WordAt at c mid
      × ByteAt mid n mid'
      × CalleeFits c n
      × RegsFit n mid' next
      × (t ≡ none)

  -- The operands stand one behind the other; the target is that of the last.
  abbrev pub FieldsFit : List Field → Option ℤ → ℕ → ℕ → Option ℤ → Type 0
  FieldsFit [] t at next u = (next ≡ at) × (u ≡ t)
  FieldsFit (x ∷ xs) t at next u =
      (mid : ℕ) × (v : Option ℤ) × FieldFits x at mid v × FieldsFit xs v mid next u

module _ (m : Module) (fn_idx : ℕ) (f : Function) (start : ℕ) where
  reg-Fits :
      (at next : ℕ) (u : Unit {0})
      → Verify.reg m fn_idx f start at ≡ ok (u, next)
      → RegFits m f at next
  unfolding Verify.reg read_u8
  reg-Fits at next u h = ground arith

  regs-Fit :
      (n at next : ℕ) (u : Unit {0})
      → Verify.regs m fn_idx f start n at ≡ ok (u, next)
      → RegsFit m f n at next
  unfolding Verify.regs
  regs-Fit zero at next u h = ground arith
  regs-Fit (suc n) at next u h =
      let ((_, mid), e, h') = >>=-eq-ok (Verify.reg m fn_idx f start at) _ h in
      (mid, reg-Fits at mid tt e, regs-Fit n mid next u h')

  word-At : (at next w : ℕ) → Verify.u32 m fn_idx f start at ≡ ok (w, next) → WordAt m f at w next
  unfolding read_u32
  word-At at next w h = ground arith

  byte-At : (at next b : ℕ) → Verify.u8 m fn_idx f start at ≡ ok (b, next) → ByteAt m f at b next
  unfolding read_u8
  byte-At at next b h = ground arith

  pairs-Fit :
      (n at next : ℕ) (u : Unit {0})
      → Verify.reg_pairs m fn_idx f start n at ≡ ok (u, next)
      → PairsFit m f n at next
  unfolding Verify.reg_pairs
  pairs-Fit zero at next u h = ground arith
  pairs-Fit (suc n) at next u h =
      let (two, e, h') =
        >>=-eq-ok ((Verify.reg m fn_idx f start >>> Verify.reg m fn_idx f start) at) _ h in
      let ((_, mid), e₁, e₂) = >>=-eq-ok (Verify.reg m fn_idx f start at) _ e in
      (mid, two.1, reg-Fits at mid tt e₁, reg-Fits mid two.1 two.0 e₂, pairs-Fit n two.1 next u h')

  then_none :
      (a : Scan (Unit {0})) (at next : ℕ) (t : Option ℤ)
      → (a >>> pure none) at ≡ ok (t, next)
      → (a at ≡ ok (tt, next)) × (t ≡ none)
  then_none a at next t h = let ((u, mid), e, h') = >>=-eq-ok (a at) _ h in ground arith

  then_regs :
      (c n mid : ℕ) (g : Option Function) (next : ℕ) (u : Unit {0})
      → (let k : Scan (Unit {0}) = elim g [
        | none ↦ fail (bad_call_target fn_idx start c)
        | some target ↦
            (if target.arity == n
              then Verify.regs m fn_idx f start n
              else fail (bad_call_arity fn_idx start))
      ] in
          k mid ≡ ok (u, next))
      → (h : Function) × (g ≡ some h)
        × (h.arity ≡ n)
        × (Verify.regs m fn_idx f start n mid ≡ ok (u, next))
  then_regs c n mid none next u h = cc
  then_regs c n mid (some g) next u h = (g, refl, ground arith, ground arith)

  then_entry :
      (c mid : ℕ) (g : Option Function) (next : ℕ) (u : Unit {0})
      → (let k : Scan (Unit {0}) = elim g [
        | none ↦ fail (bad_call_target fn_idx start c)
        | some target ↦ (if target.arity == 1 then pure tt else fail (bad_call_arity fn_idx start))
      ] in
          k mid ≡ ok (u, next))
      → (h : Function) × (g ≡ some h) × (h.arity ≡ 1) × (next ≡ mid)
  then_entry c mid none next u h = cc
  then_entry c mid (some g) next u h = (g, refl, ground arith, ground arith)

  then_atom :
      (c mid : ℕ) (g : Option (List ℕ)) (next : ℕ) (u : Unit {0})
      → (let k : Scan (Unit {0}) = elim g [
        | none ↦ fail (bad_atom fn_idx start c)
        | some _ ↦ pure tt
      ] in
          k mid ≡ ok (u, next))
      → (s : List ℕ) × (g ≡ some s) × (next ≡ mid)
  then_atom c mid none next u h = cc
  then_atom c mid (some s) next u h = (s, refl, ground arith)

  callee-Fits :
      (at next : ℕ) (u : Unit {0})
      → Verify.callee m fn_idx f start at ≡ ok (u, next)
      → FieldFits m f Field.callee at next none
  unfolding Verify.callee
  callee-Fits at next u h =
      let (two, e, h') = >>=-eq-ok (Verify.u32 m fn_idx f start at) _ h in
      let (three, e', h'') = >>=-eq-ok (Verify.u8 m fn_idx f start two.1) _ h' in
      let (g, e₁, e₂, h₃) =
        then_regs two.0 three.0 three.1 (get_elem? m.functions two.0) next u h'' in
      (
        two.0,
        three.0,
        two.1,
        three.1,
        word-At at two.1 two.0 e,
        byte-At two.1 three.1 three.0 e',
        (g, e₁, e₂),
        regs-Fit three.0 three.1 next u h₃,
        refl,
      )

  entry-Fits :
      (at next : ℕ) (u : Unit {0})
      → Verify.entry m fn_idx f start at ≡ ok (u, next)
      → FieldFits m f Field.entry at next none
  unfolding Verify.entry
  entry-Fits at next u h =
      let (w, e, h') = >>=-eq-ok (Verify.u32 m fn_idx f start at) _ h in
      let (g, e₁, e₂, e₃) = then_entry w.0 w.1 (get_elem? m.functions w.0) next u h' in
      (w.0, rw e₃ (word-At at w.1 w.0 e), (g, e₁, e₂), refl)

  atom-Fits :
      (at next : ℕ) (u : Unit {0})
      → Verify.atom m fn_idx f start at ≡ ok (u, next)
      → FieldFits m f Field.atom at next none
  unfolding Verify.atom
  atom-Fits at next u h =
      let (w, e, h') = >>=-eq-ok (Verify.u32 m fn_idx f start at) _ h in
      let (s, e₁, e₃) = then_atom w.0 w.1 (get_elem? m.atoms w.0) next u h' in
      (w.0, s, rw e₃ (word-At at w.1 w.0 e), e₁, refl)

  skip-Fits :
      (n at next : ℕ) (u : Unit {0})
      → Verify.skip_bytes m fn_idx f start n at ≡ ok (u, next)
      → (at + n ≤ length f.code) × (next ≡ at + n)
  unfolding skip
  skip-Fits n at next u h = ground arith

  jump-parts :
      (w i : ℕ) {b : ℤ} {j k : ℕ} {t : Option ℤ}
      → ◌≡◌ {A = Outcome VerifyError (ℤ × ℕ)} (ok (pos i +ℤ as_i32 w, i)) (ok (b, j))
      → ◌≡◌ {A = Outcome VerifyError (Option ℤ × ℕ)} (ok (some b, j)) (ok (t, k))
      → (i ≡ k) × (t ≡ some (pos k +ℤ as_i32 w))
  jump-parts w i {b} {j} {k} {t} p q =
      let e : i ≡ k = cc in let e' : t ≡ some (pos i +ℤ as_i32 w) = cc in (e, rw (← e) e')

  -- An operand that passes the verifier's tests is well formed.
  pub check_field-Fits :
      (x : Field) (at next : ℕ) (t : Option ℤ)
      → check_field m fn_idx f start x at ≡ ok (t, next)
      → FieldFits m f x at next t
  unfolding check_field Verify.jump
  check_field-Fits Field.reg at next t h =
      let (h', e) = then_none (Verify.reg m fn_idx f start) at next t h in
      (reg-Fits at next tt h', e)
  check_field-Fits (Field.bytes n) at next t h =
      let (h', e) = then_none (Verify.skip_bytes m fn_idx f start n) at next t h in
      let (le, eq) = skip-Fits n at next tt h' in (le, eq, e)
  check_field-Fits Field.atom at next t h =
      let (h', e) = then_none (Verify.atom m fn_idx f start) at next t h in
      rw e (atom-Fits at next tt h')
  check_field-Fits Field.offset at next t h =
      let (r, e, h') = >>=-eq-ok (Verify.jump m fn_idx f start at) _ h in
      let (w, e₁, h'') = >>=-eq-ok (Verify.u32 m fn_idx f start at) _ e in
      let (en, et) = jump-parts w.0 w.1 h'' h' in (w.0, rw (← en) (word-At at w.1 w.0 e₁), et)
  check_field-Fits Field.entry at next t h =
      let (h', e) = then_none (Verify.entry m fn_idx f start) at next t h in
      rw e (entry-Fits at next tt h')
  check_field-Fits Field.regs at next t h =
      let (n, e, h') = >>=-eq-ok (Verify.u8 m fn_idx f start at) _ h in
      let (h'', e') = then_none (Verify.regs m fn_idx f start n.0) n.1 next t h' in
      (n.0, n.1, byte-At at n.1 n.0 e, regs-Fit n.0 n.1 next tt h'', e')
  check_field-Fits Field.pairs at next t h =
      let (n, e, h') = >>=-eq-ok (Verify.u8 m fn_idx f start at) _ h in
      let (h'', e') = then_none (Verify.reg_pairs m fn_idx f start n.0) n.1 next t h' in
      (n.0, n.1, byte-At at n.1 n.0 e, pairs-Fit n.0 n.1 next tt h'', e')
  check_field-Fits Field.blob at next t h =
      let (n, e, h') = >>=-eq-ok (Verify.u32 m fn_idx f start at) _ h in
      let (h'', e') = then_none (Verify.skip_bytes m fn_idx f start n.0) n.1 next t h' in
      let (le, eq) = skip-Fits n.0 n.1 next tt h'' in (n.0, n.1, word-At at n.1 n.0 e, le, eq, e')
  check_field-Fits Field.callee at next t h =
      let (h', e) = then_none (Verify.callee m fn_idx f start) at next t h in
      rw e (callee-Fits at next tt h')

  -- So are operands that pass one behind the other.
  pub check_fields-Fit :
      (xs : List Field) (t : Option ℤ) (at next : ℕ) (u : Option ℤ)
      → check_fields m fn_idx f start xs t at ≡ ok (u, next)
      → FieldsFit m f xs t at next u
  unfolding check_fields
  check_fields-Fit [] t at next u h = ground arith
  check_fields-Fit (x ∷ xs) t at next u h =
      let (r, e, h') = >>=-eq-ok (check_field m fn_idx f start x at) _ h in
      (r.1, r.0, check_field-Fits x at r.1 r.0 e, check_fields-Fit xs r.0 r.1 next u h')
