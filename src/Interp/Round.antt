-- ===== src/Interp/Round.antt =====
-- One round of the interpreter's loop (crates/ygg-interp/src/lib.rs), at a verified instruction.
use mathlib.Core.Path.{subst}
use yggdrasil.Prelude.Int.{ℤ, pos}
use yggdrasil.Bytecode.{Function, Module}
use yggdrasil.Bytecode.Op.{Op}
use yggdrasil.Bytecode.Layout
use yggdrasil.Bytecode.Layout.{layout}
use yggdrasil.Term.{Term, as_atom, is_boxed, pid}
use yggdrasil.Verify.Fits.{RegFits, FieldsFit}
use yggdrasil.Verify.Sizes.{FieldsFit-le, FieldsFit-size, total_size, fixed_size}
use yggdrasil.Interp.Api.{SystemApi, State, Act, ◌>>=◌, ◌>>◌, pure}
use yggdrasil.Interp.System.{run_port}
use yggdrasil.Interp.Run.{
  Group, data_ops, number_ops, binary_ops, system_ops, control_ops, group, run_group,
}
use yggdrasil.Interp.Hoare.{Post, Post-after, At, Reads}
use yggdrasil.Interp.Reads.{get_reg-Reads, ok_or-Reads, check-Reads, call-Reads, set_reg-Reads}
use yggdrasil.Interp.Arms.{NeverBadCode, data-Reads, number-Reads, binary-Reads, system-Reads}
use yggdrasil.Interp.Takes.{
  Takes, then-Takes, u32_then, Reads-Takes, Takes-still, reg-le, reg-Takes,
}
use yggdrasil.Interp.Variable.{make_tuple-Takes, map_new-Takes, bin_new-Takes}
use yggdrasil.Interp.Control.{
  Continues, then-Continues, falls_on, RunsCallees, jmp-Goes, jmp_if-Goes, call-Goes, ret-Goes,
  tail_call-Goes, tail_call_ext-Goes, call_ext-Goes,
}
use yggdrasil.Prelude.{
  ℕ, ◌+◌, ◌≤◌, ◌<◌, ◌≡◌, refl, sym, ◌≢◌, true, Option, none, some, List, arith, length, not,
  get_elem?, from_le_bytes,
}

-- From `at`, the run ends in a trap other than `bad_code`.
record Never {W A : Type 0} (code : List ℕ) (at : ℕ) (m : Act W A) : Type 0 where
  runs : (s : State W) → At code at s → Post (λ _ _. ⊥) (m s)

then-Never :
    {W A B : Type 0} {code : List ℕ} {at mid : ℕ} {m : Act W A} {next : A → Act W B}
    → Takes code at mid m
    → ((a : A) → Never code mid (next a))
    → Never code at (m >>= next)
then-Never {code} {mid} {m} {next} first rest = record {
  runs = λ s e.
      Post-after (m s) next (λ _ t. At code mid t) (λ _ _. ⊥) (first.runs s e)
        (λ a t h. (rest a).runs t h);
}

Never-Continues :
    {W B : Type 0} {code : List ℕ} {Q : ℕ → Type 0} {at : ℕ} {m : Act W (Unit {0})}
    → Never code at m
    → Continues code Q at (m >> pure {A = Option B} none)
Never-Continues {code} {Q} {m} h = record {
  runs = λ s e.
      Post-after (m s) (λ _. pure none) (λ _ _. ⊥)
        (λ r t. r ≡ none → (next : ℕ) × Q next × At code next t) (h.runs s e) (λ a t x. absurd x);
}

module _ {W : Type 0} (m : Module) (f : Function) (api : SystemApi W) (good : NeverBadCode m api)
    (run : ℕ → List Term → Act W Term) (runs_callees : RunsCallees m run) (fuel : ℕ)
    (Q : ℕ → Type 0) where
  module _ (o : Op) (at next : ℕ) (u : Option ℤ) (fit : FieldsFit m f (layout o) none at next u)
      (inside : at ≤ length f.code) where
    moves :
        {A : Type 0} {n : ℕ} {a : Act W A}
        → total_size (layout o) ≡ some n
        → Reads f.code n a
        → Takes f.code at next a
    moves {n = n} {a = a} e r =
        let size : next ≡ at + n = FieldsFit-size m f (layout o) none at next u e fit in
        let end = (FieldsFit-le m f (layout o) none at next u fit inside).1 in
        subst (λ k. Takes f.code at k a) (sym size) (Reads-Takes at r (omega arith))

    -- an instruction with operands of a fixed size, which does nothing to the cursor but read them
    fixed_goes :
        {n : ℕ}
        → total_size (layout o) ≡ some n
        → Q next
        → (g : Group) → group o ≡ g
        → g ≢ control_ops
        → o ≢ Op.spawn
        → Continues f.code Q at (run_group api fuel run o g)
    unfolding run_group
    fixed_goes e q data_ops g ne ns =
        then-Continues (moves e (data-Reads api fuel o g e)) λ _. falls_on q
    fixed_goes e q number_ops g ne ns =
        then-Continues (moves e (number-Reads api fuel o g e)) λ _. falls_on q
    fixed_goes e q binary_ops g ne ns =
        then-Continues (moves e (binary-Reads api fuel o g e)) λ _. falls_on q
    fixed_goes e q system_ops g ne ns =
        then-Continues (moves e (system-Reads m api good o ns g e)) λ _. falls_on q
    fixed_goes e q control_ops g ne ns = absurd (ne refl)

  -- `EXIT_ATOM` does not go on.
  exit-Goes :
      (at next : ℕ)
      → RegFits m f at next
      → Continues f.code Q at (run_group api fuel run Op.exit_atom system_ops)
  unfolding run_group run_port
  exit-Goes at next r = Never-Continues (
      then-Never (reg-Takes m f r) λ rs.
        then-Never (Takes-still next (get_reg-Reads rs) (reg-le m f at next r)) λ t.
          then-Never (Takes-still next (ok_or-Reads (as_atom t)) (reg-le m f at next r))
            λ a. record { runs = λ s e h. cc })

  -- `SPAWN` names a function of the module, with one parameter.
  spawn-Takes :
      (at next : ℕ) (u : Option ℤ)
      → FieldsFit m f (layout Op.spawn) none at next u
      → Takes f.code at next (run_port api Op.spawn)
  unfolding run_port layout
  spawn-Takes at next u fit =
      let (
        a₀,
        _,
        (r, _),
        (a₁, _, (c, (w, ew, ec, em), (g, eg, one), _), (a₂, _, (r', _), (en, eu))),
      ) =
        fit in
      let le : a₂ ≤ length f.code = reg-le m f a₁ a₂ r' in
      let callee : get_elem? m.functions (from_le_bytes w) ≡ some g = rw (← ec) eg in
      rw en (
        then-Takes (reg-Takes m f r) λ rd. u32_then _ ew (
          rw (← em) (
            then-Takes (reg-Takes m f r') λ ra.
              then-Takes (Takes-still a₂ (get_reg-Reads ra) le) λ arg.
                then-Takes (Takes-still a₂ (check-Reads (not (is_boxed arg))) le) λ _.
                  then-Takes
                    (Takes-still a₂
                      (call-Reads (api.spawn (from_le_bytes w) arg)
                        (good.spawn (from_le_bytes w) g callee one arg))
                      le)
                    λ p. Takes-still a₂ (set_reg-Reads rd (pid p)) le)))

  pub group-Goes :
      (o : Op) (at next : ℕ) (u : Option ℤ)
      → FieldsFit m f (layout o) none at next u
      → at ≤ length f.code
      → next ≤ length f.code
      → (Layout.falls_through o ≡ true → Q next)
      → ((x : ℤ) → u ≡ some x → (c : ℕ) × (x ≡ pos c) × (c < length f.code) × Q c)
      → Continues f.code Q at (run_group api fuel run o (group o))
  unfolding group layout total_size fixed_size Layout.falls_through run_group
  group-Goes Op.nop at next u fit la le falls land =
      let (en, eu) = fit in falls_on (subst Q en (falls refl))
  group-Goes Op.jmp at next u fit la le falls land =
      jmp-Goes m f api good run runs_callees Q at next u fit land
  group-Goes Op.jmp_if at next u fit la le falls land =
      jmp_if-Goes m f api good run runs_callees Q at next u fit land le (falls refl)
  group-Goes Op.call at next u fit la le falls land =
      call-Goes m f api good run runs_callees Q at next u fit le (falls refl)
  group-Goes Op.ret at next u fit la le falls land =
      ret-Goes m f api good run runs_callees Q at next u fit le
  group-Goes Op.tail_call at next u fit la le falls land =
      tail_call-Goes m f api good run runs_callees Q at next u fit le
  group-Goes Op.tail_call_ext at next u fit la le falls land =
      tail_call_ext-Goes m f api good run runs_callees Q at next u fit la le
  group-Goes Op.call_ext at next u fit la le falls land =
      call_ext-Goes m f api good run runs_callees Q at next u fit la le (falls refl)
  group-Goes Op.make_tuple at next u fit la le falls land =
      then-Continues (make_tuple-Takes m f api fuel at next u fit la) λ _. falls_on (falls refl)
  group-Goes Op.map_new at next u fit la le falls land =
      then-Continues (map_new-Takes m f api fuel at next u fit la) λ _. falls_on (falls refl)
  group-Goes Op.bin_new at next u fit la le falls land =
      then-Continues (bin_new-Takes m f api fuel at next u fit la) λ _. falls_on (falls refl)
  group-Goes Op.spawn at next u fit la le falls land =
      then-Continues (spawn-Takes at next u fit) λ _. falls_on (falls refl)
  group-Goes Op.exit_atom at next u fit la le falls land =
      (let (next', v, (r, _), _) = fit in exit-Goes at next' r)
  group-Goes o at next u fit la le falls land =
      fixed_goes o at next u fit la refl (falls refl) (group o) refl (λ h. cc) (λ h. cc)
