-- ===== src/Verify/Total.antt =====
-- About the termination of `verify` (crates/ygg-bytecode/src/verify.rs).
use yggdrasil.Prelude.Int.{ℤ}
use yggdrasil.Bytecode.{Function, Module}
use yggdrasil.Bytecode.Layout.{Field, layout}
use yggdrasil.Verify
use yggdrasil.Verify.Cursor.{
  VerifyError, bad_function_name, arity_exceeds_regs, falls_off_end, Scan, pure, ◌>>>◌, read_u8,
  read_u32, skip,
}
use yggdrasil.Verify.{
  as_i32, contains, Effect, State, verify_op, verify_instr, verify_loop, lands, check_targets,
  initial, verify_fn, verify_from, verify,
}
use yggdrasil.Bytecode.Op.{Op, of_opcode}
use yggdrasil.Verify.Table.{check_field, check_fields, verify_op-layout}
use yggdrasil.Verify.Round.{
  LoopInv, verify_instr-Round, LoopInv-initial, LoopInv-round, Round-within,
}
use yggdrasil.Verify.Safety.{verify_loop-more, verify_loop-done}
use yggdrasil.Prelude.{
  ℕ, zero, suc, ◌+◌, ◌<◌, inl, inr, Bool, true, false, not, Option, none, some, List, [], ◌∷◌,
  arith, ltb, leb, Bool-cases, length, get_elem?, guard, ok_or, Returns, bind-Returns,
}

then-Returns :
    (a : Scan (Unit {0})) (at : ℕ) → Returns (a at) → Returns ((a >>> pure {A = Option ℤ} none) at)
then-Returns a at h = bind-Returns (a at) _ h λ r _. tt

ok_or-Returns {ℓ} : {A : Type ℓ} (o : Option A) (e : VerifyError) → Returns (ok_or o e)
ok_or-Returns none e = tt
ok_or-Returns (some a) e = tt

guard-Returns : (b : Bool) (e : VerifyError) → Returns (guard b e)
guard-Returns true e = tt
guard-Returns false e = tt

module _ (m : Module) (fn_idx : ℕ) (f : Function) where
  module _ (start : ℕ) where
    u8-Returns : (at : ℕ) → Returns (Verify.u8 m fn_idx f start at)
    unfolding read_u8
    u8-Returns at = ground arith

    u32-Returns : (at : ℕ) → Returns (Verify.u32 m fn_idx f start at)
    unfolding read_u32
    u32-Returns at = ground arith

    skip-Returns : (n at : ℕ) → Returns (Verify.skip_bytes m fn_idx f start n at)
    unfolding skip
    skip-Returns n at = ground arith

    reg-Returns : (at : ℕ) → Returns (Verify.reg m fn_idx f start at)
    unfolding Verify.reg read_u8
    reg-Returns at = ground arith

    regs-Returns : (n at : ℕ) → Returns (Verify.regs m fn_idx f start n at)
    unfolding Verify.regs
    regs-Returns zero at = tt
    regs-Returns (suc n) at =
        bind-Returns (Verify.reg m fn_idx f start at) _ (reg-Returns at) λ r _. regs-Returns n r.1

    reg_pairs-Returns : (n at : ℕ) → Returns (Verify.reg_pairs m fn_idx f start n at)
    unfolding Verify.reg_pairs
    reg_pairs-Returns zero at = tt
    reg_pairs-Returns (suc n) at =
        bind-Returns ((Verify.reg m fn_idx f start >>> Verify.reg m fn_idx f start) at) _
          (bind-Returns (Verify.reg m fn_idx f start at) _ (reg-Returns at) λ r _. reg-Returns r.1)
          λ r _. reg_pairs-Returns n r.1

    atom-Returns : (at : ℕ) → Returns (Verify.atom m fn_idx f start at)
    unfolding Verify.atom
    atom-Returns at =
        bind-Returns (Verify.u32 m fn_idx f start at) _ (u32-Returns at) λ r _. ground arith

    entry-Returns : (at : ℕ) → Returns (Verify.entry m fn_idx f start at)
    unfolding Verify.entry
    entry-Returns at =
        bind-Returns (Verify.u32 m fn_idx f start at) _ (u32-Returns at) λ r _. ground arith

    callee-Returns : (at : ℕ) → Returns (Verify.callee m fn_idx f start at)
    unfolding Verify.callee
    callee-Returns at = bind-Returns (Verify.u32 m fn_idx f start at) _ (u32-Returns at) λ c _.
        bind-Returns (Verify.u8 m fn_idx f start c.1) _ (u8-Returns c.1)
          λ n _. ground (arith, regs-Returns n.0 n.1)

    check_field-Returns : (x : Field) (at : ℕ) → Returns (check_field m fn_idx f start x at)
    unfolding check_field Verify.jump
    check_field-Returns Field.reg at =
        then-Returns (Verify.reg m fn_idx f start) at (reg-Returns at)
    check_field-Returns (Field.bytes n) at =
        then-Returns (Verify.skip_bytes m fn_idx f start n) at (skip-Returns n at)
    check_field-Returns Field.atom at =
        then-Returns (Verify.atom m fn_idx f start) at (atom-Returns at)
    check_field-Returns Field.offset at =
        bind-Returns (Verify.jump m fn_idx f start at) _
          (bind-Returns (Verify.u32 m fn_idx f start at) _ (u32-Returns at) λ r _. tt) λ r _. tt
    check_field-Returns Field.entry at =
        then-Returns (Verify.entry m fn_idx f start) at (entry-Returns at)
    check_field-Returns Field.regs at =
        bind-Returns (Verify.u8 m fn_idx f start at) _ (u8-Returns at)
          λ n _. then-Returns (Verify.regs m fn_idx f start n.0) n.1 (regs-Returns n.0 n.1)
    check_field-Returns Field.pairs at =
        bind-Returns (Verify.u8 m fn_idx f start at) _ (u8-Returns at) λ n _.
          then-Returns (Verify.reg_pairs m fn_idx f start n.0) n.1 (reg_pairs-Returns n.0 n.1)
    check_field-Returns Field.blob at =
        bind-Returns (Verify.u32 m fn_idx f start at) _ (u32-Returns at)
          λ n _. then-Returns (Verify.skip_bytes m fn_idx f start n.0) n.1 (skip-Returns n.0 n.1)
    check_field-Returns Field.callee at =
        then-Returns (Verify.callee m fn_idx f start) at (callee-Returns at)

    check_fields-Returns :
        (xs : List Field) (t : Option ℤ) (at : ℕ) → Returns (check_fields m fn_idx f start xs t at)
    unfolding check_fields
    check_fields-Returns [] t at = tt
    check_fields-Returns (x ∷ xs) t at =
        bind-Returns (check_field m fn_idx f start x at) _ (check_field-Returns x at)
          λ r _. check_fields-Returns xs r.0 r.1

    verify_op-Returns : (o : Op) (now : ℕ) → Returns (verify_op m fn_idx f start o now)
    verify_op-Returns o now = rw verify_op-layout (
        bind-Returns (check_fields m fn_idx f start (layout o) none now) _
          (check_fields-Returns (layout o) none now) λ r _. tt)

    verify_known-Returns :
        (b : ℕ) (o : Option Op) (now : ℕ) → Returns (Verify.verify_known m fn_idx f start b o now)
    verify_known-Returns b none now = tt
    verify_known-Returns b (some o) now = verify_op-Returns o now

  verify_instr-Returns : (s : State) → Returns (verify_instr m fn_idx f s)
  unfolding verify_instr Verify.verify_match
  verify_instr-Returns s =
      bind-Returns (Verify.u8 m fn_idx f s.at s.at) _ (u8-Returns s.at s.at) λ b _.
        bind-Returns (Verify.verify_match m fn_idx f s.at b.0 b.1) _
          (verify_known-Returns s.at b.0 (of_opcode b.0) b.1) λ e _. tt

  -- As much fuel as there are bytes left is enough: every round moves the cursor.
  verify_loop-Returns :
      (fuel : ℕ) (s : State)
      → length f.code < s.at + fuel
      → LoopInv m f s
      → Returns (verify_loop m fn_idx f fuel s)
  verify_loop-Returns zero s h inv = absurd (omega (arith, inv.within))
  verify_loop-Returns (suc fuel) s h inv = elim (Bool-cases (ltb s.at (length f.code))) [
    | inl e ↦ rw (verify_loop-more m fn_idx f fuel s e) (
        bind-Returns (verify_instr m fn_idx f s) (verify_loop m fn_idx f fuel)
          (verify_instr-Returns s)
          λ s' es.
            let r = verify_instr-Round m fn_idx f s s' es in
            verify_loop-Returns fuel s' (omega (arith, Round-within m fn_idx f r inv.within))
              (LoopInv-round m fn_idx f r inv))
    | inr e ↦ rw (verify_loop-done m fn_idx f fuel s e) tt
  ]

  check_targets-Returns :
      (bs : List ℕ) (js : List (ℕ × ℤ)) → Returns (check_targets m fn_idx f bs js)
  unfolding check_targets
  check_targets-Returns bs [] = tt
  check_targets-Returns bs ((at, y) ∷ js) = ground (arith, check_targets-Returns bs js)

  verify_fn-Returns : Returns (verify_fn m fn_idx f)
  unfolding verify_fn
  verify_fn-Returns =
      bind-Returns (ok_or (get_elem? m.atoms f.name_atom) (bad_function_name fn_idx)) _
        (ok_or-Returns (get_elem? m.atoms f.name_atom) (bad_function_name fn_idx))
        λ a _.
          bind-Returns (guard (leb f.arity f.nregs) (arity_exceeds_regs fn_idx)) _
            (guard-Returns (leb f.arity f.nregs) (arity_exceeds_regs fn_idx))
            λ b _.
              bind-Returns (verify_loop m fn_idx f (length f.code + 1) (initial m fn_idx f)) _
                (verify_loop-Returns (length f.code + 1) (initial m fn_idx f) (omega arith)
                  (LoopInv-initial m fn_idx f))
                λ s _.
                  bind-Returns (guard (not s.fell_through) (falls_off_end fn_idx)) _
                    (guard-Returns (not s.fell_through) (falls_off_end fn_idx))
                    λ c _. check_targets-Returns s.boundaries s.jump_targets

verify_from-Returns :
    (m : Module) (fn_idx : ℕ) (fs : List Function) → Returns (verify_from m fn_idx fs)
unfolding verify_from
verify_from-Returns m fn_idx [] = tt
verify_from-Returns m fn_idx (f ∷ fs) =
    bind-Returns (verify_fn m fn_idx f) _ (verify_fn-Returns m fn_idx f)
      λ r _. verify_from-Returns m (fn_idx + 1) fs

-- The verifier returns a verdict, acceptance or an error, on every module: it does not panic, and
-- its fuel, one more than the bytes of the function, does not run out.
pub verify-Returns : (m : Module) → Returns (verify m)
unfolding verify
verify-Returns m = verify_from-Returns m 0 m.functions
