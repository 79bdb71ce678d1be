-- ===== src/Verify/Flow.antt =====
-- Where control can go from an instruction: the meaning of the bytes, with no reference to the
-- verifier.
use yggdrasil.Prelude.Int.{ℤ, pos, ◌+ℤ◌}
use yggdrasil.Bytecode.{Function, Module}
use yggdrasil.Bytecode.Layout
use yggdrasil.Bytecode.Layout.{Field, layout}
use yggdrasil.Verify.{as_i32}
use yggdrasil.Bytecode.Op.{Op, of_opcode, jmp, jmp_if}
use yggdrasil.Bytecode.Skip.{skip_operands}
use yggdrasil.Verify.Fits.{FieldFits, FieldsFit, WordAt}
use yggdrasil.Prelude.{
  ℕ, ◌+◌, ◌≡◌, refl, sym, ap, ◌∙◌, ◌≢◌, Bool, true, false, Option, none, some, List, [], ◌∷◌, arith,
  get_elem?, slice, from_le_bytes,
}

module _ (code : List ℕ) where
  -- the instruction at `pc`
  abbrev pub OpAt : ℕ → Op → Type 0
  OpAt pc o = (k : ℕ) × (get_elem? code pc ≡ some k) × (of_opcode k ≡ some o)

  offset_at : ℕ → Option ℤ
  offset_at at = elim (slice code at 4) [
    | none ↦ none
    | some s ↦ some (pos (at + 4) +ℤ as_i32 (from_le_bytes s))
  ]

  -- the target of the jump at `pc`: the offset counts from the next instruction
  unfoldable pub target_of : Op → ℕ → Option ℤ
  unfolding offset_at
  target_of jmp pc = offset_at (pc + 1)
  target_of jmp_if pc = offset_at (pc + 2)
  target_of _ pc = none

  -- One step of control within the function, without the calls that it makes.
  pub data Flow (pc next : ℕ) : Type 0 where
    fall :
        (o : Op) (k : ℕ)
        → get_elem? code pc ≡ some k
        → of_opcode k ≡ some o
        → Layout.falls_through o ≡ true
        → skip_operands k code (pc + 1) ≡ some next
        → Flow pc next
    jump : (o : Op) → OpAt pc o → target_of o pc ≡ some (pos next) → Flow pc next

  pub data Reach : ℕ → Type 0 where
    entry : Reach 0
    step : {pc next : ℕ} → Reach pc → Flow pc next → Reach next

has_offset : List Field → Bool
has_offset [] = false
has_offset (Field.offset ∷ xs) = true
has_offset (_ ∷ xs) = has_offset xs

module _ (m : Module) (f : Function) where
  FieldFits-none :
      (x : Field) (at next : ℕ) (t : Option ℤ)
      → (x ≡ Field.offset → ⊥)
      → FieldFits m f x at next t
      → t ≡ none
  FieldFits-none Field.reg at next t ne h = h.1
  FieldFits-none (Field.bytes n) at next t ne h = h.2
  FieldFits-none Field.atom at next t ne h = h.4
  FieldFits-none Field.offset at next t ne h = absurd (ne refl)
  FieldFits-none Field.entry at next t ne h = h.3
  FieldFits-none Field.regs at next t ne h = h.4
  FieldFits-none Field.pairs at next t ne h = h.4
  FieldFits-none Field.blob at next t ne h = h.5
  FieldFits-none Field.callee at next t ne h = h.8

  has_offset-tail :
      (x : Field) (xs : List Field)
      → has_offset (x ∷ xs) ≡ false
      → (x ≢ Field.offset) × (has_offset xs ≡ false)
  unfolding has_offset
  has_offset-tail Field.offset xs e = cc
  has_offset-tail _ xs e = ((λ same. cc), e)

  FieldsFit-none :
      (xs : List Field) (t : Option ℤ) (at next : ℕ) (u : Option ℤ)
      → has_offset xs ≡ false
      → t ≡ none
      → FieldsFit m f xs t at next u
      → u ≡ none
  unfolding has_offset
  FieldsFit-none [] t at next u e et h = h.1 ∙ et
  FieldsFit-none (x ∷ xs) t at next u e et (mid, v, h, h') =
      let (ne, e') = has_offset-tail x xs e in
      FieldsFit-none xs v mid next u e' (FieldFits-none x at mid v ne h) h'

  offset_at-Word :
      (at w next : ℕ) → WordAt m f at w next → offset_at f.code at ≡ some (pos next +ℤ as_i32 w)
  unfolding offset_at
  offset_at-Word at w next (s, e, ew, en) =
      ap
        (λ (o : Option (List ℕ)).
          let r : Option ℤ = elim o [
            | none ↦ none
            | some k ↦ some (pos (at + 4) +ℤ as_i32 (from_le_bytes k))
          ] in
          r)
        e
      ∙ rw (en, ew)

  -- The target that the operands hold is the one that the bytes have.
  pub target_of-Fits :
      (o : Op) (pc next : ℕ) (t : Option ℤ)
      → FieldsFit m f (layout o) none (pc + 1) next t
      → target_of f.code o pc ≡ t
  unfolding target_of layout has_offset
  target_of-Fits jmp pc next t h =
      let (a, v, (w, word, ev), (_, eu)) = h in offset_at-Word (pc + 1) w a word ∙ sym ev ∙ sym eu
  target_of-Fits jmp_if pc next t h =
      let (a, _, ((_, _, _, ea), _), (b, v, (w, word, ev), (_, eu))) = h in
      ap (offset_at f.code) (let e : pc + 2 ≡ a = omega arith in e)
      ∙ offset_at-Word a w b word
      ∙ sym ev
      ∙ sym eu
  target_of-Fits o pc next t h = sym (FieldsFit-none (layout o) none (pc + 1) next t refl refl h)
