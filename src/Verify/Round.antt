-- ===== src/Verify/Round.antt =====
-- The invariant of the loop of `verify_fn` (crates/ygg-bytecode/src/verify.rs).
use mathlib.Core.Path.{subst}
use yggdrasil.Prelude.Int.{ℤ}
use yggdrasil.Bytecode.{Function, Module}
use yggdrasil.Bytecode.Layout
use yggdrasil.Bytecode.Layout.{Field, layout}
use yggdrasil.Verify
use yggdrasil.Verify.Cursor.{VerifyError, read_u8}
use yggdrasil.Verify.{
  as_i32, contains, Effect, State, verify_op, verify_instr, verify_loop, lands, check_targets,
  initial, verify_fn, verify_from, verify,
}
use yggdrasil.Bytecode.Op.{Op, of_opcode}
use yggdrasil.Verify.{push_target}
use yggdrasil.Verify.Table.{check_fields, verify_op-layout}
use yggdrasil.Verify.Fits.{FieldsFit, check_fields-Fit}
use yggdrasil.Verify.Sizes.{get_elem?-lt, FieldsFit-le}
use yggdrasil.Prelude.{
  ℕ, ◌+◌, ◌≤◌, ◌<◌, ◌≡◌, refl, sym, ap, ◌∙◌, ◌⊎◌, inl, inr, Bool, true, Option, none, some, List,
  [], ◌∷◌, arith, ◌==◌, ==_iff, Bool-cases, Option-cases, length, get_elem?, Outcome, ok, >>=-eq-ok,
}

contains-head : (x : ℕ) (xs : List ℕ) → contains (x ∷ xs) x ≡ true
contains-head x xs = ground arith

contains-tail : (y x : ℕ) (xs : List ℕ) → contains xs x ≡ true → contains (y ∷ xs) x ≡ true
contains-tail y x xs h = ground arith

contains-cons :
    (y x : ℕ) (xs : List ℕ) → contains (y ∷ xs) x ≡ true → (y ≡ x) ⊎ (contains xs x ≡ true)
contains-cons y x xs h = elim (Bool-cases (y == x)) [
  | inl e ↦ inl ((==_iff y x).0 e)
  | inr e ↦ inr (ground arith)
]

module _ (m : Module) (f : Function) where
  -- A well-formed instruction at `pc`, with the next one at `next`.
  pub record Instr (pc next : ℕ) (o : Op) (t : Option ℤ) : Type 0 where
    pub byte : ℕ
    pub fetched : get_elem? f.code pc ≡ some byte
    pub known : of_opcode byte ≡ some o
    pub operands : FieldsFit m f (layout o) none (pc + 1) next t

  abbrev pub HasTarget : List (ℕ × ℤ) → ℕ → ℤ → Type 0
  HasTarget [] pc x = ⊥
  HasTarget ((a, y) ∷ js) pc x = ((a ≡ pc) × (y ≡ x)) ⊎ HasTarget js pc x

  HasTarget-push :
      (js : List (ℕ × ℤ)) (at : ℕ) (t : Option ℤ) (pc : ℕ) (x : ℤ)
      → HasTarget js pc x
      → HasTarget (push_target at t js) pc x
  HasTarget-push js at none pc x h = h
  HasTarget-push (j ∷ js) at (some t) pc x (inl h) = inl h
  HasTarget-push (j ∷ js) at (some t) pc x (inr h) = inr (HasTarget-push js at (some t) pc x h)
  HasTarget-push [] at (some t) pc x h = elim h [ ]

  HasTarget-self :
      (js : List (ℕ × ℤ)) (at : ℕ) (x : ℤ) → HasTarget (push_target at (some x) js) at x
  HasTarget-self [] at x = inl (refl, refl)
  HasTarget-self (j ∷ js) at x = inr (HasTarget-self js at x)

  -- A boundary of the loop's state: an instruction whose successor is a boundary or comes next.
  pub record Placed (s : State) (pc : ℕ) : Type 0 where
    pub op : Op
    pub next : ℕ
    pub target : Option ℤ
    pub instr : Instr pc next op target
    pub follows :
        (contains s.boundaries next ≡ true)
        ⊎ ((next ≡ s.at) × (s.fell_through ≡ Layout.falls_through op))
    pub recorded : (x : ℤ) → target ≡ some x → HasTarget s.jump_targets pc x

  pub record LoopInv (s : State) : Type 0 where
    pub placed : (pc : ℕ) → contains s.boundaries pc ≡ true → Placed s pc
    pub entered : (contains s.boundaries 0 ≡ true) ⊎ (s.at ≡ 0)
    pub within : s.at ≤ length f.code
    pub fresh : s.at ≡ 0 → s.fell_through ≡ true

-- What one round of the loop does with the instruction at the cursor.
module _ (m : Module) (fn_idx : ℕ) (f : Function) where
  pub record Round (s s' : State) : Type 0 where
    pub op : Op
    pub target : Option ℤ
    pub instr : Instr m f s.at s'.at op target
    pub bounds : s'.boundaries ≡ s.at ∷ s.boundaries
    pub targets : s'.jump_targets ≡ push_target s.at target s.jump_targets
    pub falls : s'.fell_through ≡ Layout.falls_through op

  verify_match-Op :
      (at b now next : ℕ) (e : Effect)
      → Verify.verify_match m fn_idx f at b now ≡ ok (e, next)
      → (o : Op) × (of_opcode b ≡ some o) × (verify_op m fn_idx f at o now ≡ ok (e, next))
  unfolding Verify.verify_match
  verify_match-Op at b now next e h = elim (Option-cases (of_opcode b)) [
    | inl e₀ ↦ cc (sym h ∙ ap (λ o. Verify.verify_known m fn_idx f at b o now) e₀)
    | inr (o, e₀) ↦ (o, e₀, sym (ap (λ o. Verify.verify_known m fn_idx f at b o now) e₀) ∙ h)
  ]

  effect-parts :
      (t : Option ℤ) (b : Bool) (i j : ℕ) (e : Effect)
      → ◌≡◌ {A = Outcome VerifyError (Effect × ℕ)}
          (ok (record { target = t; falls_through = b }, i))
          (ok (e, j))
      → (t ≡ e.target) × (b ≡ e.falls_through) × (i ≡ j)
  effect-parts t b i j e h = ground arith

  state-parts :
      (n : ℕ) (bs : List ℕ) (js : List (ℕ × ℤ)) (b : Bool) (s : State)
      → ◌≡◌ {A = Outcome VerifyError State}
          (ok (record { at = n; boundaries = bs; jump_targets = js; fell_through = b }))
          (ok s)
      → (n ≡ s.at) × (bs ≡ s.boundaries) × (js ≡ s.jump_targets) × (b ≡ s.fell_through)
  state-parts n bs js b s h = ground arith

  fetched-parts :
      (at : ℕ) (b : ℕ × ℕ)
      → Verify.u8 m fn_idx f at at ≡ ok b
      → (get_elem? f.code at ≡ some b.0) × (b.1 ≡ at + 1)
  unfolding read_u8
  fetched-parts at b h = ground arith

  verify_op-Fits :
      (at now next : ℕ) (o : Op) (e : Effect)
      → verify_op m fn_idx f at o now ≡ ok (e, next)
      → FieldsFit m f (layout o) none now next e.target × (e.falls_through ≡ Layout.falls_through o)
  verify_op-Fits at now next o e h =
      let ((t, mid), e₁, e₂) =
        >>=-eq-ok (check_fields m fn_idx f at (layout o) none now) _
          (sym (verify_op-layout m fn_idx f at o now) ∙ h) in
      let (et, ef, en) = effect-parts t (Layout.falls_through o) mid next e e₂ in
      (
        subst (λ u. FieldsFit m f (layout o) none now next u) et
            (subst (λ n. FieldsFit m f (layout o) none now n t) en
              (check_fields-Fit m fn_idx f at (layout o) none now mid t e₁)),
        sym ef,
      )

  pub verify_instr-Round : (s s' : State) → verify_instr m fn_idx f s ≡ ok s' → Round s s'
  unfolding verify_instr
  verify_instr-Round s s' h =
      let (b, eb, h₁) = >>=-eq-ok (Verify.u8 m fn_idx f s.at s.at) _ h in
      let (e, ee, h₂) = >>=-eq-ok (Verify.verify_match m fn_idx f s.at b.0 b.1) _ h₁ in
      let (o, eo, h₃) = verify_match-Op s.at b.0 b.1 e.1 e.0 ee in
      let (fit, falls) = verify_op-Fits s.at b.1 e.1 o e.0 h₃ in
      let (eb', en) = fetched-parts s.at b eb in
      let (e₁, e₂, e₃, e₄) = state-parts e.1 _ _ _ s' h₂ in
      record {
        op = o;
        target = e.0.target;
        instr = record {
          byte = b.0;
          fetched = eb';
          known = eo;
          operands =
              subst (λ n. FieldsFit m f (layout o) none n s'.at e.0.target) en
                (subst (λ n. FieldsFit m f (layout o) none b.1 n e.0.target) e₁ fit);
        };
        bounds = sym e₂;
        targets = sym e₃;
        falls = sym e₄ ∙ falls;
      }

  -- The invariant holds at the start and is kept by every round.
  pub LoopInv-initial : LoopInv m f (initial m fn_idx f)
  LoopInv-initial = record {
    placed = λ pc h. cc;
    entered = inr refl;
    within = omega arith;
    fresh = λ e. refl;
  }

  module _ {s s' : State} (r : Round s s') where
    contains-old : (pc : ℕ) → contains s.boundaries pc ≡ true → contains s'.boundaries pc ≡ true
    contains-old pc h = rw r.bounds (contains-tail s.at pc s.boundaries h)

    contains-at : contains s'.boundaries s.at ≡ true
    contains-at = rw r.bounds (contains-head s.at s.boundaries)

    Placed-new : Placed m f s' s.at
    Placed-new = record {
      op = r.op;
      next = s'.at;
      target = r.target;
      instr = r.instr;
      follows = inr (refl, r.falls);
      recorded = λ x e. rw (r.targets, e) (HasTarget-self m f s.jump_targets s.at x);
    }

    Placed-old : (pc : ℕ) → Placed m f s pc → Placed m f s' pc
    Placed-old pc p = record {
      op = p.op;
      next = p.next;
      target = p.target;
      instr = p.instr;
      follows =
          inl (elim p.follows [ inl h ↦ contains-old p.next h | inr (e, _) ↦ rw e contains-at ]);
      recorded = λ x e.
          rw r.targets (HasTarget-push m f s.jump_targets s.at r.target pc x (p.recorded x e));
    }

    pub Round-within : s.at ≤ length f.code → (s.at < s'.at) × (s'.at ≤ length f.code)
    Round-within le =
        let i = r.instr in
        let (a, b) =
          FieldsFit-le m f (layout r.op) none (s.at + 1) s'.at r.target i.operands
            (omega (arith, get_elem?-lt f.code s.at i.fetched)) in
        omega arith

    pub LoopInv-round : LoopInv m f s → LoopInv m f s'
    LoopInv-round inv = record {
      placed = λ pc h.
          elim (contains-cons s.at pc s.boundaries
            (subst (λ bs. contains bs pc ≡ true) r.bounds h)) [
              | inl e ↦ subst (Placed m f s') e Placed-new
              | inr old ↦ Placed-old pc (inv.placed pc old)
            ];
      entered = inl (elim inv.entered [
        | inl h ↦ contains-old 0 h
        | inr e ↦ subst (λ n. contains s'.boundaries n ≡ true) e contains-at
      ]);
      within = (Round-within inv.within).1;
      fresh = λ e. absurd (omega (arith, Round-within inv.within));
    }
