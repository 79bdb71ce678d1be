-- ===== src/Verify/Safety.antt =====
-- About `verify_fn` (crates/ygg-bytecode/src/verify.rs), against the control flow of the code.
use mathlib.Core.Path.{subst}
use yggdrasil.Prelude.Int.{ℤ, pos, negsuc}
use yggdrasil.Bytecode.{Function, Module}
use yggdrasil.Bytecode.Layout
use yggdrasil.Bytecode.Layout.{Field, layout}
use yggdrasil.Verify.Cursor.{VerifyError, bad_function_name, arity_exceeds_regs, falls_off_end}
use yggdrasil.Verify.{
  contains, State, verify_instr, verify_loop, lands, check_targets, initial, verify_fn, verify_from,
  verify,
}
use yggdrasil.Bytecode.Op.{Op, of_opcode}
use yggdrasil.Bytecode.Skip.{skip_operands, skip_known}
use yggdrasil.Verify.Sizes.{get_elem?-lt}
use yggdrasil.Verify.Walk.{skip_known-Fits, skip_operands-known}
use yggdrasil.Verify.Flow.{OpAt, target_of, target_of-Fits, Flow, fall, jump, Reach, entry, step}
use yggdrasil.Verify.Round.{
  Instr, HasTarget, Placed, LoopInv, verify_instr-Round, LoopInv-initial, LoopInv-round,
}
use yggdrasil.Prelude.{
  ℕ, zero, suc, ◌+◌, ◌^◌, ◌≤◌, ◌<◌, ◌≡◌, refl, sym, ap, ◌∙◌, inl, inr, Bool, true, false, not,
  Option, some, List, [], ◌∷◌, arith, ltb, leb, Bool-cases, length, get_elem?, Outcome, ok, ◌>>=◌,
  guard, ok_or, >>=-eq-ok, guard-eq-ok,
}

not-true : (b : Bool) → not b ≡ true → b ≡ false
not-true true h = cc
not-true false h = refl

bound_suc : {a b : ℕ} → a < b → a + 1 ≤ b
bound_suc h = omega arith

not-ltb : (a b : ℕ) → ltb a b ≡ false → b ≤ a
not-ltb a b h = ground arith

module _ (m : Module) (fn_idx : ℕ) (f : Function) where
  -- The two cases of a round's test.
  pub verify_loop-more :
      (fuel : ℕ) (s : State)
      → ltb s.at (length f.code) ≡ true
      → verify_loop m fn_idx f (suc fuel) s
        ≡ (verify_instr m fn_idx f s >>= verify_loop m fn_idx f fuel)
  unfolding verify_loop
  verify_loop-more fuel s e =
      ap
        (λ b.
          let r : Outcome VerifyError State = elim b [
            | true ↦ verify_instr m fn_idx f s >>= verify_loop m fn_idx f fuel
            | false ↦ ok s
          ] in
          r)
        e

  pub verify_loop-done :
      (fuel : ℕ) (s : State)
      → ltb s.at (length f.code) ≡ false
      → verify_loop m fn_idx f (suc fuel) s ≡ ok s
  unfolding verify_loop
  verify_loop-done fuel s e =
      ap
        (λ b.
          let r : Outcome VerifyError State = elim b [
            | true ↦ verify_instr m fn_idx f s >>= verify_loop m fn_idx f fuel
            | false ↦ ok s
          ] in
          r)
        e

  verify_loop-zero : (s s' : State) → verify_loop m fn_idx f 0 s ≡ ok s' → ⊥
  unfolding verify_loop
  verify_loop-zero s s' h = cc

  -- The loop ends with its invariant, and its cursor at the end of the code.
  verify_loop-Inv :
      (fuel : ℕ) (s s' : State)
      → verify_loop m fn_idx f fuel s ≡ ok s'
      → LoopInv m f s
      → LoopInv m f s' × (length f.code ≤ s'.at)
  verify_loop-Inv zero s s' h inv = absurd (verify_loop-zero s s' h)
  verify_loop-Inv (suc fuel) s s' h inv = elim (Bool-cases (ltb s.at (length f.code))) [
    | inl e ↦
        let (t, et, h') =
          >>=-eq-ok (verify_instr m fn_idx f s) (verify_loop m fn_idx f fuel)
            (sym (verify_loop-more fuel s e) ∙ h) in
        verify_loop-Inv fuel t s' h'
          (LoopInv-round m fn_idx f (verify_instr-Round m fn_idx f s t et) inv)
    | inr e ↦
        let same : s ≡ s' = cc (sym (verify_loop-done fuel s e) ∙ h) in
        (
          subst (LoopInv m f) same inv,
          subst (λ k. length f.code ≤ k) (ap (λ k. k.at) same) (not-ltb s.at (length f.code) e),
        )
  ]

  lands-pos :
      (bs : List ℕ) (x : ℤ)
      → lands m fn_idx f bs x ≡ true
      → (c : ℕ) × (x ≡ pos c) × (contains bs c ≡ true)
  unfolding lands
  lands-pos bs (pos c) h = (c, refl, h)
  lands-pos bs (negsuc c) h = cc

  check_targets-cons :
      (bs : List ℕ) (at : ℕ) (y : ℤ) (js : List (ℕ × ℤ)) (u : Unit {0})
      → check_targets m fn_idx f bs ((at, y) ∷ js) ≡ ok u
      → (lands m fn_idx f bs y ≡ true) × (check_targets m fn_idx f bs js ≡ ok u)
  unfolding check_targets
  check_targets-cons bs at y js u h = elim (Bool-cases (lands m fn_idx f bs y)) [
    | inl e ↦ (e, ground arith)
    | inr e ↦ ground arith
  ]

  check_targets-Lands :
      (bs : List ℕ) (js : List (ℕ × ℤ)) (u : Unit {0})
      → check_targets m fn_idx f bs js ≡ ok u
      → (pc : ℕ) (x : ℤ) → HasTarget m f js pc x
      → (c : ℕ) × (x ≡ pos c) × (contains bs c ≡ true)
  check_targets-Lands bs [] u h pc x t = elim t [ ]
  check_targets-Lands bs ((at, y) ∷ js) u h pc x (inl (_, e)) =
      rw (← e) (lands-pos bs y (check_targets-cons bs at y js u h).0)
  check_targets-Lands bs ((at, y) ∷ js) u h pc x (inr t) =
      check_targets-Lands bs js u (check_targets-cons bs at y js u h).1 pc x t

  -- What is known of the loop's last state when the function is accepted.
  record Accepted (s : State) : Type 0 where
    inv : LoopInv m f s
    closed : s.fell_through ≡ false
    landed :
        (pc : ℕ) (x : ℤ)
        → HasTarget m f s.jump_targets pc x
        → (c : ℕ) × (x ≡ pos c) × (contains s.boundaries c ≡ true)

  verify_fn-Accepted : verify_fn m fn_idx f ≡ ok tt → (s : State) × Accepted s
  unfolding verify_fn
  verify_fn-Accepted h =
      let (a, ea, h₁) =
        >>=-eq-ok (ok_or (get_elem? m.atoms f.name_atom) (bad_function_name fn_idx)) _ h in
      let (b, eb, h₂) = >>=-eq-ok (guard (leb f.arity f.nregs) (arity_exceeds_regs fn_idx)) _ h₁ in
      let (s, es, h₃) =
        >>=-eq-ok (verify_loop m fn_idx f (length f.code + 1) (initial m fn_idx f)) _ h₂ in
      let (c, ec, h₄) = >>=-eq-ok (guard (not s.fell_through) (falls_off_end fn_idx)) _ h₃ in
      (
        s,
        record {
          inv =
              (verify_loop-Inv (length f.code + 1) (initial m fn_idx f) s es
                (LoopInv-initial m fn_idx f)).0;
          closed =
              not-true s.fell_through (guard-eq-ok (not s.fell_through) (falls_off_end fn_idx) ec);
          landed = check_targets-Lands s.boundaries s.jump_targets tt h₄;
        },
      )

-- Control is at a well-formed instruction of the function, and so is every successor.
pub record SafeAt (m : Module) (f : Function) (pc : ℕ) : Type 0 where
  pub op : Op
  pub next : ℕ
  pub target : Option ℤ
  pub instr : Instr m f pc next op target
  pub falls_in : Layout.falls_through op ≡ true → next < length f.code
  pub jumps_in :
      (x : ℤ) → target_of f.code op pc ≡ some x → (c : ℕ) × (x ≡ pos c) × (c < length f.code)

module _ (m : Module) (fn_idx : ℕ) (f : Function) (small : length f.code < 2 ^ 64) where
  module _ {s : State} (a : Accepted m fn_idx f s) where
    boundary-lt : (pc : ℕ) → contains s.boundaries pc ≡ true → pc < length f.code
    boundary-lt pc h = let p = a.inv.placed pc h in get_elem?-lt f.code pc p.instr.fetched

    falls-boundary :
        (pc : ℕ) (p : Placed m f s pc)
        → Layout.falls_through p.op ≡ true
        → contains s.boundaries p.next ≡ true
    falls-boundary pc p h = elim p.follows [ inl c ↦ c | inr (_, e) ↦ cc (sym a.closed ∙ e ∙ h) ]

    target-boundary :
        (pc : ℕ) (p : Placed m f s pc) (x : ℤ)
        → target_of f.code p.op pc ≡ some x
        → (c : ℕ) × (x ≡ pos c) × (contains s.boundaries c ≡ true)
    target-boundary pc p x e =
        a.landed pc x
          (p.recorded x (sym (target_of-Fits m f p.op pc p.next p.target p.instr.operands) ∙ e))

    entry-boundary : contains s.boundaries 0 ≡ true
    entry-boundary = elim a.inv.entered [ inl c ↦ c | inr e ↦ cc (sym a.closed ∙ a.inv.fresh e) ]

    -- A boundary holds one instruction.
    same-op : (pc : ℕ) (p : Placed m f s pc) (o : Op) → OpAt f.code pc o → p.op ≡ o
    same-op pc p o (k, ek, eo) =
        let i = p.instr in let same : i.byte ≡ k = cc in cc (sym i.known ∙ ap of_opcode same ∙ eo)

    step-boundary :
        {pc next : ℕ}
        → contains s.boundaries pc ≡ true
        → Flow f.code pc next
        → contains s.boundaries next ≡ true
    step-boundary {pc} {next} b (fall o k ek eo falls sk) =
        let p = a.inv.placed pc b in
        let same = same-op pc p o (k, ek, eo) in
        let walked : skip_operands k f.code (pc + 1) ≡ some p.next =
          skip_operands-known k o f.code (pc + 1) eo
          ∙ ap (λ w. skip_known w f.code (pc + 1)) (sym same)
          ∙ skip_known-Fits m f small p.op (pc + 1) p.next p.target p.instr.operands
              (bound_suc (get_elem?-lt f.code pc p.instr.fetched)) in
        let e : p.next ≡ next = cc in
        subst (λ n. contains s.boundaries n ≡ true) e
          (falls-boundary pc p (ap Layout.falls_through same ∙ falls))
    step-boundary {pc} {next} b (jump o at t) =
        let p = a.inv.placed pc b in
        let (c, e, h) =
          target-boundary pc p (pos next)
            (ap (λ k. target_of f.code k pc) (same-op pc p o at) ∙ t) in
        let same : next ≡ c = cc in rw same h

    Reach-boundary : {pc : ℕ} → Reach f.code pc → contains s.boundaries pc ≡ true
    Reach-boundary entry = entry-boundary
    Reach-boundary (step r fl) = step-boundary (Reach-boundary r) fl

    Placed-SafeAt : (pc : ℕ) → contains s.boundaries pc ≡ true → SafeAt m f pc
    Placed-SafeAt pc b =
        let p = a.inv.placed pc b in
        record {
          op = p.op;
          next = p.next;
          target = p.target;
          instr = p.instr;
          falls_in = λ h. boundary-lt p.next (falls-boundary pc p h);
          jumps_in = λ x e. let (c, ec, h) = target-boundary pc p x e in (c, ec, boundary-lt c h);
        }

  -- If the verifier accepts a function whose code is shorter than 2^64 bytes, then wherever control
  -- can come from its entry, by falling through and by jumps, it is at an instruction whose opcode
  -- is known, whose operands stand within the code, name registers of the frame, atoms of the
  -- table and functions of the right arity; the next instruction, where control can fall through,
  -- and the target of a jump lie within the code.
  pub verify_fn-SafeAt : verify_fn m fn_idx f ≡ ok tt → {pc : ℕ} → Reach f.code pc → SafeAt m f pc
  verify_fn-SafeAt h {pc} r =
      let (s, a) = verify_fn-Accepted m fn_idx f h in Placed-SafeAt a pc (Reach-boundary a r)

verify_from-each :
    (m : Module) (start : ℕ) (fs : List Function) (i : ℕ) (f : Function)
    → verify_from m start fs ≡ ok tt
    → get_elem? fs i ≡ some f
    → (k : ℕ) × (verify_fn m k f ≡ ok tt)
unfolding verify_from
verify_from-each m start [] i f h e = cc
verify_from-each m start (g ∷ fs) zero f h e =
    let (u, hu, _) = >>=-eq-ok (verify_fn m start g) _ h in
    let same : g ≡ f = cc in (start, subst (λ x. verify_fn m start x ≡ ok tt) same hu)
verify_from-each m start (g ∷ fs) (suc i) f h e =
    let (u, _, rest) = >>=-eq-ok (verify_fn m start g) _ h in
    verify_from-each m (start + 1) fs i f rest e

-- If the verifier accepts a module, then in each of its functions, if its code is shorter than 2^64
-- bytes, wherever control can come from the entry by falling through and by jumps, it is at an
-- instruction whose opcode is known and whose operands stand within the code, name registers of the
-- frame, atoms of the table and functions of the right arity; the next instruction, where control
-- can fall through, and the target of a jump lie within the code.
pub verify-SafeAt :
    (m : Module) (i : ℕ) (f : Function)
    → verify m ≡ ok tt
    → get_elem? m.functions i ≡ some f
    → length f.code < 2 ^ 64
    → {pc : ℕ} → Reach f.code pc
    → SafeAt m f pc
unfolding verify
verify-SafeAt m i f h e small r =
    let (k, hk) = verify_from-each m 0 m.functions i f h e in verify_fn-SafeAt m k f small hk r
