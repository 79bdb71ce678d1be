-- ===== src/Interp/Safety.antt =====
-- What the verifier of crates/ygg-bytecode means to the interpreter of crates/ygg-interp.
use mathlib.Core.Path.{subst}
use yggdrasil.Bytecode.{Function, Module}
use yggdrasil.Bytecode.Layout
use yggdrasil.Bytecode.Op.{Op}
use yggdrasil.Bytecode.Skip.{skip_operands}
use yggdrasil.Term.{Term, nil_term}
use yggdrasil.Verify.{verify}
use yggdrasil.Verify.Flow.{Flow, fall, jump, target_of, target_of-Fits, Reach, entry}
use yggdrasil.Verify.Flow
use yggdrasil.Verify.Safety.{SafeAt, verify-SafeAt}
use yggdrasil.Verify.Sizes.{get_elem?-lt, FieldsFit-le}
use yggdrasil.Verify.Walk.{skip_known-Fits, skip_operands-known}
use yggdrasil.Interp.Api.{Trap, badarg, bad_code, SystemApi, State, Act, pure, fail}
use yggdrasil.Interp.Run.{group, run_group, step, enter, run_loop, run_function}
use yggdrasil.Interp.Hoare.{Post, Post-after, At}
use yggdrasil.Interp.Reads.{Clean, ok-Clean, err-Clean, panic-Clean, timeout-Clean, badarg_ne}
use yggdrasil.Interp.Arms.{NeverBadCode}
use yggdrasil.Interp.Control.{Continues, byte-Continues, RunsCallees}
use yggdrasil.Interp.Round.{group-Goes}
use yggdrasil.Prelude.{
  ℕ, zero, suc, ◌-◌, ◌+◌, ◌≤◌, ◌<◌, ◌^◌, ◌≡◌, refl, sym, ap, ◌∙◌, Bool, true, false, ◌&&◌, Option,
  none, some, List, ◌++◌, arith, leb, ◌==◌, length, get_elem?, replicate, Outcome, ok, err, panic,
  timeout,
}

module _ {W : Type 0} (m : Module) (api : SystemApi W) (good : NeverBadCode m api) where
  -- At an instruction that is safe in the verifier's sense, in code shorter than 2^64 bytes, with
  -- callees that keep the caller's frame and a kernel in whose states neither a spawn at a function
  -- of the module with one parameter nor any other method reports `bad_code`, one round of the
  -- interpreter's loop does not trap with `bad_code`; if it neither traps otherwise, nor panics,
  -- nor runs out of the fuel of its walks, then it returns or goes on within the same code to a
  -- place where control can flow from there.
  pub step-Goes :
      (f : Function) (pc : ℕ)
      → length f.code < 2 ^ 64
      → SafeAt m f pc
      → (fuel : ℕ) (run : ℕ → List Term → Act W Term) → RunsCallees m run
      → Continues f.code (λ n. Flow f.code pc n) pc (step api fuel run)
  unfolding step
  step-Goes f pc small at fuel run runs_callees =
      let i = at.instr in
      let here : pc < length f.code = get_elem?-lt f.code pc i.fetched in
      let start : pc + 1 ≤ length f.code = omega arith in
      let end : at.next ≤ length f.code =
        (FieldsFit-le m f (Layout.layout at.op) none (pc + 1) at.next at.target i.operands
          start).1 in
      let walked : skip_operands i.byte f.code (pc + 1) ≡ some at.next =
        skip_operands-known i.byte at.op f.code (pc + 1) i.known
        ∙ skip_known-Fits m f small at.op (pc + 1) at.next at.target i.operands start in
      let target : target_of f.code at.op pc ≡ at.target =
        target_of-Fits m f at.op pc at.next at.target i.operands in
      byte-Continues _ i.fetched (
        subst
          (λ (o : Option Op).
            let k : Act W (Option Term) = elim o [
              | none ↦ fail bad_code
              | some o ↦ run_group api fuel run o (group o)
            ] in
            Continues f.code (λ n. Flow f.code pc n) (pc + 1) k)
          (sym i.known)
          (group-Goes m f api good run runs_callees fuel (λ n. Flow f.code pc n) at.op (pc + 1)
            at.next at.target i.operands start end
            (λ falls. fall at.op i.byte i.fetched i.known falls walked)
            (λ x e.
              let (c, ec, lc) = at.jumps_in x (target ∙ e) in
              (c, ec, lc, jump at.op (i.byte, i.fetched, i.known) (target ∙ e ∙ ap some ec)))))

  -- A run of a function leaves the caller's frame as it was.
  abbrev Same : {A : Type 0} → State W → A → State W → Type 0
  Same s _ s' = (s'.frame.code ≡ s.frame.code) × (s'.frame.pc ≡ s.frame.pc)

  abbrev begin : Function → List Term → State W → State W
  begin g args s = record s {
    frame = record {
      code = g.code;
      pc = 0;
      regs = args ++ replicate (g.nregs - length args) nil_term;
    };
  }

  left :
      (r : Outcome Trap Term × State W) (s : State W)
      → Post (λ _ _. Unit) r
      → Post (Same s) (r.0, record r.1 { frame = s.frame })
  left (ok v, s') s h = (refl, refl)
  left (err e, s') s h = h
  left (panic, s') s h = tt
  left (timeout, s') s h = tt

  entered :
      (body : Act W Term) (g : Function) (args : List Term) (s : State W)
      → Post (λ _ _. Unit) (body (begin g args s))
      → (b : Bool)
      → Post (Same s) (
          let r : Outcome Trap Term × State W = elim b [
            | false ↦ (err badarg, s)
            | true ↦ (let (o, s') = body (begin g args s) in (o, record s' { frame = s.frame }))
          ] in
          r)
  entered body g args s h true = left (body (begin g args s)) s h
  entered body g args s h false = badarg_ne

  enter-Same :
      (body : Act W Term) (c : ℕ) (g : Function) (args : List Term)
      → get_elem? m.functions c ≡ some g
      → ((s : State W) → At g.code 0 s → Post (λ _ _. Unit) (body s))
      → (s : State W) → Post (Same s) (enter api m body c args s)
  unfolding enter
  enter-Same body c g args e runs s =
      rw (e, enter)
        (entered body g args s (runs (begin g args s) (refl, refl))
          (length args == g.arity && leb (length args) g.nregs))

  goes_on :
      (fuel : ℕ) (f : Function) (pc : ℕ)
      → Reach f.code pc
      → ((next : ℕ)
          → Reach f.code next
          → (t : State W) → At f.code next t
          → Post (λ _ _. Unit) (run_loop api m fuel t))
      → (v : Option Term) (t : State W)
      → (v ≡ none → (next : ℕ) × Flow f.code pc next × At f.code next t)
      → Post
          (λ _ _. Unit)
          ((let k : Act W Term = elim v [ some x ↦ pure x | none ↦ run_loop api m fuel ] in k) t)
  goes_on fuel f pc r loop none t h = let (next, fl, at) = h refl in loop next (Flow.step r fl) t at
  goes_on fuel f pc r loop (some v) t h = tt

  -- The loop, from a place that control can reach.
  run_loop-Post :
      verify m ≡ ok tt
      → ((i : ℕ) (f : Function) → get_elem? m.functions i ≡ some f → length f.code < 2 ^ 64)
      → (fuel i : ℕ) (f : Function) → get_elem? m.functions i ≡ some f
      → (pc : ℕ) → Reach f.code pc
      → (s : State W) → At f.code pc s
      → Post (λ _ _. Unit) (run_loop api m fuel s)
  unfolding run_loop
  run_loop-Post ok_m small zero i f e pc r s a = tt
  run_loop-Post ok_m small (suc fuel) i f e pc r s a =
      let round =
        step-Goes f pc (small i f e) (verify-SafeAt m i f ok_m e (small i f e) r) fuel
          (enter api m (run_loop api m fuel))
          (λ c g args eg t.
            enter-Same (run_loop api m fuel) c g args eg
              (λ t' at. run_loop-Post ok_m small fuel c g eg 0 entry t' at) t) in
      Post-after (step api fuel (enter api m (run_loop api m fuel)) s) _
        (λ v t. v ≡ none → (next : ℕ) × Flow f.code pc next × At f.code next t) (λ _ _. Unit)
        (round.runs s a)
        (goes_on fuel f pc r (λ next' r' t at. run_loop-Post ok_m small fuel i f e next' r' t at))

  Post-Clean :
      {A : Type 0} (r : Outcome Trap A × State W) (Q : A → State W → Type 0) → Post Q r → Clean r.0
  Post-Clean (ok v, s') Q h = ok-Clean v
  Post-Clean (err e, s') Q h = err-Clean e h
  Post-Clean (panic, s') Q h = panic-Clean
  Post-Clean (timeout, s') Q h = timeout-Clean

  -- If the verifier accepts a module, the code of each of its functions is shorter than 2^64 bytes,
  -- and in the states of the kernel a spawn at a function of the module with one parameter does not
  -- report `bad_code`, nor does any other method, then a run of a function of the module does not
  -- trap with `bad_code`, whatever the arguments, the state of the kernel and the fuel are; it may
  -- trap otherwise, panic or run out of fuel.
  pub run_function-Clean :
      verify m ≡ ok tt
      → ((i : ℕ) (f : Function) → get_elem? m.functions i ≡ some f → length f.code < 2 ^ 64)
      → (fuel c : ℕ) (g : Function) (args : List Term) (s : State W)
      → get_elem? m.functions c ≡ some g
      → Clean (run_function api m fuel c args s).0
  unfolding run_function
  run_function-Clean ok_m small fuel c g args s e =
      Post-Clean (enter api m (run_loop api m fuel) c args s) (Same s) (
        enter-Same (run_loop api m fuel) c g args e
          (λ t at. run_loop-Post ok_m small fuel c g e 0 entry t at) s)
