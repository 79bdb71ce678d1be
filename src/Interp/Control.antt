-- ===== src/Interp/Control.antt =====
-- One round of the interpreter's loop, at an instruction that the verifier has passed.
use mathlib.Core.Path.{subst}
use yggdrasil.Prelude.Int.{ℤ, pos, ◌+ℤ◌, ltb_ℤ}
use yggdrasil.Bytecode.{Function, Module}
use yggdrasil.Bytecode.Op.{Op}
use yggdrasil.Bytecode.Layout.{layout}
use yggdrasil.Term.{Term}
use yggdrasil.Verify.{as_i32}
use yggdrasil.Verify.Fits.{FieldsFit}
use yggdrasil.Interp.Api.{SystemApi, State, Act, ◌>>=◌, ◌>>◌, pure, tell}
use yggdrasil.Interp.Fetch.{u8, u32, i32, set_reg, jump, jump_to}
use yggdrasil.Interp.Run.{tail_sentinel, run_control}
use yggdrasil.Interp.Hoare.{Post, Post-after, Post-mono, At}
use yggdrasil.Interp.Reads.{
  u8-eq, bytes-eq, moved, set_reg-Reads, get_reg-Reads, get_int-Reads, tell-Reads, call-Reads,
  pure-Reads,
}
use yggdrasil.Interp.Arms.{NeverBadCode}
use yggdrasil.Interp.Takes.{Takes, Takes-still, reg-le, reg-Takes, get_regs-Takes}
use yggdrasil.Interp.Variable.{external-Takes}
use yggdrasil.Prelude.{
  ℕ, ◌+◌, ◌≤◌, ◌<◌, ◌≡◌, refl, sym, ap, ◌∙◌, Bool, true, false, ◌||◌, Option, none, some, List,
  arith, ltb, ◌==◌, if◌then◌else◌, length, get_elem?, slice, from_le_bytes,
}

-- From `at`, a run that does not return leaves the cursor at a place that `Q` holds of.
pub record Continues {W A : Type 0} (code : List ℕ) (Q : ℕ → Type 0) (at : ℕ) (m : Act W (Option A))
    : Type 0 where
  pub runs :
      (s : State W)
      → At code at s
      → Post (λ r s'. r ≡ none → (next : ℕ) × Q next × At code next s') (m s)

module _ {W B : Type 0} {code : List ℕ} {Q : ℕ → Type 0} {at : ℕ} where
  pub then-Continues :
      {A : Type 0} {mid : ℕ} {m : Act W A} {f : A → Act W (Option B)}
      → Takes code at mid m
      → ((a : A) → Continues code Q mid (f a))
      → Continues code Q at (m >>= f)
  then-Continues {mid} {m} {f} first rest = record {
    runs = λ s e.
        Post-after (m s) f (λ _ t. At code mid t)
          (λ r t. r ≡ none → (next : ℕ) × Q next × At code next t) (first.runs s e)
          (λ a t h. (rest a).runs t h);
  }

  pub byte-Continues :
      {x : ℕ} (f : ℕ → Act W (Option B))
      → get_elem? code at ≡ some x
      → Continues code Q (at + 1) (f x)
      → Continues code Q at (u8 >>= f)
  byte-Continues {x} f e h = record {
    runs = λ s a. rw (u8-eq code at x s a e) (h.runs (moved 1 s) (a.0, ap (λ n. n + 1) a.1));
  }

  word-Continues :
      {w : List ℕ} (f : ℕ → Act W (Option B))
      → slice code at 4 ≡ some w
      → Continues code Q (at + 4) (f (from_le_bytes w))
      → Continues code Q at (u32 >>= f)
  unfolding u32
  word-Continues {w} f e h = record {
    runs = λ s a. rw (bytes-eq code at 4 w s a e) (h.runs (moved 4 s) (a.0, ap (λ n. n + 4) a.1));
  }

  offset-Continues :
      {w : List ℕ} (f : ℤ → Act W (Option B))
      → slice code at 4 ≡ some w
      → Continues code Q (at + 4) (f (as_i32 (from_le_bytes w)))
      → Continues code Q at (i32 >>= f)
  unfolding i32 u32
  offset-Continues {w} f e h = record {
    runs = λ s a. rw (bytes-eq code at 4 w s a e) (h.runs (moved 4 s) (a.0, ap (λ n. n + 4) a.1));
  }

  pub falls_on : Q at → Continues code Q at (pure {W = W} {A = Option B} none)
  falls_on q = record { runs = λ s e r. (at, q, e) }

  returns : (v : B) → Continues code Q at (pure {W = W} (some v))
  returns v = record { runs = λ s e r. cc }

module _ {W : Type 0} {code : List ℕ} (api : SystemApi W) where
  lands_on :
      (at c : ℕ) (t : State W)
      → At code at t
      → c ≤ length code
      → Post (λ _ s'. At code c s') (jump_to (pos c) t)
  lands_on at c t h le =
      let inside : ltb (length t.frame.code) c ≡ false = rw h.0 (ground arith) in
      rw inside (h.0, refl)

  polls :
      (b : Bool) (at : ℕ) (s : State W)
      → At code at s
      → Post (λ _ t. At code at t) ((if b then tell api.safepoint else pure tt) s)
  polls true at s h = h
  polls false at s h = h

  -- A jump to a place within the code moves the cursor there.
  jump-Takes :
      (at c : ℕ) (off : ℤ)
      → pos at +ℤ off ≡ pos c
      → c ≤ length code
      → Takes code at c (jump api off)
  unfolding jump
  jump-Takes at c off e le = record {
    runs = λ s a.
        let to : pos s.frame.pc +ℤ off ≡ pos c = ap (λ k. pos k +ℤ off) a.1 ∙ e in
        Post-after ((if ltb_ℤ off (pos 0) then tell api.safepoint else pure tt) s)
          (λ _. jump_to (pos s.frame.pc +ℤ off)) (λ _ t. At code at t) (λ _ t. At code c t)
          (polls (ltb_ℤ off (pos 0)) at s a)
          (λ _ t h.
            subst (λ x. Post (λ _ s'. At code c s') (jump_to x t)) (sym to) (lands_on at c t h le));
  }

-- What the run of a callee comes to, when there is one.
abbrev pub RunsCallees : {W : Type 0} → Module → (ℕ → List Term → Act W Term) → Type 0
RunsCallees {W} m run =
    (c : ℕ) (g : Function) (args : List Term)
    → get_elem? m.functions c ≡ some g
    → (s : State W)
    → Post (λ _ s'. (s'.frame.code ≡ s.frame.code) × (s'.frame.pc ≡ s.frame.pc)) (run c args s)

module _ {W : Type 0} (m : Module) (f : Function) (api : SystemApi W) (good : NeverBadCode m api)
    (run : ℕ → List Term → Act W Term) (runs_callees : RunsCallees m run) where
  abbrev Goes : (Q : ℕ → Type 0) → ℕ → Act W (Option Term) → Type 0
  Goes Q at a = Continues f.code Q at a

  pub jmp-Goes :
      (Q : ℕ → Type 0) (at next : ℕ) (u : Option ℤ)
      → FieldsFit m f (layout Op.jmp) none at next u
      → ((x : ℤ) → u ≡ some x → (c : ℕ) × (x ≡ pos c) × (c < length f.code) × Q c)
      → Goes Q at (run_control api run Op.jmp)
  unfolding run_control layout
  jmp-Goes Q at next u fit land =
      let (a, v, (w, (b, eb, ew, ea), ev), (en, eu)) = fit in
      let (c, ec, lc, q) = land (pos a +ℤ as_i32 w) (eu ∙ ev) in
      let to : pos (at + 4) +ℤ as_i32 (from_le_bytes b) ≡ pos c = rw (← ea, ← ew) ec in
      offset-Continues _ eb (
        then-Continues (jump-Takes api (at + 4) c (as_i32 (from_le_bytes b)) to (omega arith))
          λ _. falls_on q)

  -- the two ways on from a conditional jump
  branch :
      (Q : ℕ → Type 0) (b : Bool) (at c : ℕ) (off : ℤ)
      → pos at +ℤ off ≡ pos c
      → c ≤ length f.code
      → at ≤ length f.code
      → Q c
      → Q at
      → Goes Q at (
          (let k : Act W (Unit {0}) = elim b [ true ↦ jump api off | false ↦ pure tt ] in k)
          >> pure none)
  branch Q true at c off e lc la qc qa =
      then-Continues (jump-Takes api at c off e lc) λ _. falls_on qc
  branch Q false at c off e lc la qc qa =
      then-Continues (Takes-still at (pure-Reads tt) la) λ _. falls_on qa

  pub jmp_if-Goes :
      (Q : ℕ → Type 0) (at next : ℕ) (u : Option ℤ)
      → FieldsFit m f (layout Op.jmp_if) none at next u
      → ((x : ℤ) → u ≡ some x → (c : ℕ) × (x ≡ pos c) × (c < length f.code) × Q c)
      → next ≤ length f.code
      → Q next
      → Goes Q at (run_control api run Op.jmp_if)
  unfolding run_control layout
  jmp_if-Goes Q at next u fit land le qn =
      let (a₀, _, (r, _), (a, v, (w, (b, eb, ew, ea), ev), (en, eu))) = fit in
      let (c, ec, lc, q) = land (pos a +ℤ as_i32 w) (eu ∙ ev) in
      let here : next ≡ a₀ + 4 = en ∙ ea in
      let to : pos (a₀ + 4) +ℤ as_i32 (from_le_bytes b) ≡ pos c = rw (← ea, ← ew) ec in
      then-Continues (reg-Takes m f r) λ rc. offset-Continues _ eb (
        then-Continues (Takes-still (a₀ + 4) (get_int-Reads rc) (omega arith)) λ i.
          branch Q (ltb_ℤ i (pos 0) || ltb_ℤ (pos 0) i) (a₀ + 4) c (as_i32 (from_le_bytes b)) to
            (omega arith) (omega arith) q (subst Q here qn))

  -- what follows the call of a function
  called :
      (Q : ℕ → Type 0) (b : Bool) (at rd : ℕ) (v : Term)
      → at ≤ length f.code
      → Q at
      → Goes Q at (
          let k : Act W (Option Term) = elim b [
            | true ↦ pure (some tail_sentinel)
            | false ↦ set_reg rd v >> pure none
          ] in
          k)
  called Q true at rd v le q = returns tail_sentinel
  called Q false at rd v le q =
      then-Continues (Takes-still at (set_reg-Reads rd v) le) λ _. falls_on q

  callee-Takes :
      (at c : ℕ) (g : Function) (args : List Term)
      → get_elem? m.functions c ≡ some g
      → Takes f.code at at (run c args)
  callee-Takes at c g args e = record {
    runs = λ s a.
        Post-mono (run c args s)
          (λ _ s'. (s'.frame.code ≡ s.frame.code) × (s'.frame.pc ≡ s.frame.pc))
          (λ _ s'. At f.code at s') (runs_callees c g args e s) (λ _ s' p. (p.0 ∙ a.0, p.1 ∙ a.1));
  }

  pub call-Goes :
      (Q : ℕ → Type 0) (at next : ℕ) (u : Option ℤ)
      → FieldsFit m f (layout Op.call) none at next u
      → next ≤ length f.code
      → Q next
      → Goes Q at (run_control api run Op.call)
  unfolding run_control layout
  call-Goes Q at next u fit le q =
      let (
        a₀,
        _,
        (r, _),
        (a, v, (c, n, mid, mid', (w, ew, ec, em), (en, em'), (g, eg, eg'), fr, _), (ea, eu)),
      ) =
        fit in
      let callee : get_elem? m.functions (from_le_bytes w) ≡ some g = rw (← ec) eg in
      then-Continues (reg-Takes m f r) λ rd. word-Continues _ ew (
        rw (← em) (
          byte-Continues _ en (
            rw (← em') (
              then-Continues (get_regs-Takes m f n mid' next (rw ea fr)) λ args.
                then-Continues (Takes-still next (tell-Reads api.safepoint) le) λ _.
                  then-Continues (callee-Takes next (from_le_bytes w) g args callee)
                    λ v. called Q (v == tail_sentinel) next rd v le q))))

  pub ret-Goes :
      (Q : ℕ → Type 0) (at next : ℕ) (u : Option ℤ)
      → FieldsFit m f (layout Op.ret) none at next u
      → next ≤ length f.code
      → Goes Q at (run_control api run Op.ret)
  unfolding run_control layout
  ret-Goes Q at next u fit le =
      let (a, _, (r, _), (ea, eu)) = fit in
      let la : a ≤ length f.code = omega arith in
      then-Continues (reg-Takes m f r)
        λ rs. then-Continues (Takes-still a (get_reg-Reads rs) la) λ v. returns v

  pub tail_call-Goes :
      (Q : ℕ → Type 0) (at next : ℕ) (u : Option ℤ)
      → FieldsFit m f (layout Op.tail_call) none at next u
      → next ≤ length f.code
      → Goes Q at (run_control api run Op.tail_call)
  unfolding run_control layout
  tail_call-Goes Q at next u fit le =
      let (a, v, (c, n, mid, mid', (w, ew, ec, em), (en, em'), _, fr, _), (ea, eu)) = fit in
      word-Continues _ ew (
        rw (← em) (
          byte-Continues _ en (
            rw (← em') (
              then-Continues (get_regs-Takes m f n mid' next (rw ea fr)) λ args.
                then-Continues (Takes-still next (tell-Reads api.safepoint) le) λ _.
                  then-Continues
                    (Takes-still next (tell-Reads (api.tail_call_local (from_le_bytes w) args)) le)
                    λ _. returns tail_sentinel))))

  pub tail_call_ext-Goes :
      (Q : ℕ → Type 0) (at next : ℕ) (u : Option ℤ)
      → FieldsFit m f (layout Op.tail_call_ext) none at next u
      → at ≤ length f.code
      → next ≤ length f.code
      → Goes Q at (run_control api run Op.tail_call_ext)
  unfolding run_control
  tail_call_ext-Goes Q at next u fit la le =
      then-Continues (external-Takes m f api 0 at next u fit la) λ p.
        then-Continues (Takes-still next (tell-Reads (api.tail_call p.0 p.1 p.2)) le)
          λ _. returns tail_sentinel

  pub call_ext-Goes :
      (Q : ℕ → Type 0) (at next : ℕ) (u : Option ℤ)
      → FieldsFit m f (layout Op.call_ext) none at next u
      → at ≤ length f.code
      → next ≤ length f.code
      → Q next
      → Goes Q at (run_control api run Op.call_ext)
  unfolding run_control layout
  call_ext-Goes Q at next u fit la le q =
      let (a₀, _, (r, _), rest) = fit in
      let inside : a₀ ≤ length f.code = reg-le m f at a₀ r in
      then-Continues (reg-Takes m f r) λ rd.
        then-Continues (external-Takes m f api 0 a₀ next u rest inside) λ p.
          then-Continues
            (Takes-still next (call-Reads (api.call_ext p.0 p.1 p.2) (good.call_ext p.0 p.1 p.2))
              le)
            λ v. then-Continues (Takes-still next (set_reg-Reads rd v) le) λ _. falls_on q
