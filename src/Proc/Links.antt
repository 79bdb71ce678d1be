-- ===== src/Proc/Links.antt =====
-- About `reap` (kernel/src/proc.rs) and the processes that are linked to one that is gone.
use mathlib.Core.Path.{subst}
use yggdrasil.Atoms.{Text, intern}
use yggdrasil.Term.Store.{Memory}
use yggdrasil.FrameBitmap.{Run}
use yggdrasil.Proc.Span.{take_spans}
use yggdrasil.Proc.Signals.{
  is_normal, build, down, down_text, deliver_down, down_all, mark_all, Finalize, reap,
}
use yggdrasil.Proc.{
  Pid, State, Process, Kernel, put, insert, mark_process, mark_dead, deliver_fragment,
}
use yggdrasil.Proc.Inv.{put_self, put-ne}
use yggdrasil.Proc.Gone.{
  Untouched, Untouched-refl, Untouched-trans, enqueue-table, mark_dead-Untouched,
  deliver_fragment-Untouched,
}
use yggdrasil.Proc.Reaps.{build-down}
use yggdrasil.Prelude.{
  ℕ, zero, suc, ◌≡◌, refl, sym, ap, ◌∙◌, ◌≢◌, ◌⊎◌, inl, inr, Bool, true, false, Option, none, some,
  List, [], ◌∷◌, ◌==◌, ==_iff, if◌then◌else◌, Bool-cases, Option-cases, get_elem?, ok, ◌>>=◌,
  >>=-eq-ok,
}

-- Gone, dead, or dead at its next safepoint.
abbrev pub Doomed : Option Process → Type 0
Doomed none = Unit
Doomed (some p) = (p.state ≡ State.dead) ⊎ ((p.state ≡ State.running) × (p.kill_pending ≡ true))

module _ (me : ℕ) where
  mark_process-Doomed :
      (y : Pid) (reason : Text) (p : Process) (s : State) (k : Kernel)
      → k.table y ≡ some p
      → p.state ≡ s
      → Doomed ((mark_process me y reason p s k).table y)
  unfolding mark_process
  mark_process-Doomed y reason p State.dead k e es = rw e (inl es)
  mark_process-Doomed y reason p State.running k e es = elim (Bool-cases p.kill_pending) [
    | inl b ↦ rw (b, mark_process, e) (inr (es, b))
    | inr b ↦
        rw
          (
            b,
            mark_process,
            put_self y (some (record p { kill_pending = true; exit_reason = reason })) k,
          )
          (inr (es, refl))
  ]
  mark_process-Doomed y reason p State.runnable k e es =
      let q : Process = record p { state = State.dead; exit_reason = reason } in
      rw (enqueue-table me y y (insert y q k) ∙ put_self y (some q) k) (inl refl)
  mark_process-Doomed y reason p State.waiting k e es =
      let q : Process = record p { state = State.dead; exit_reason = reason } in
      rw (enqueue-table me y y (insert y q k) ∙ put_self y (some q) k) (inl refl)

  mark_dead-Doomed :
      (y : Pid) (reason : Text) (k : Kernel) → Doomed ((mark_dead me y reason k).table y)
  unfolding mark_dead
  mark_dead-Doomed y reason k = elim (Option-cases (k.table y)) [
    | inl e ↦ let same : mark_dead me y reason k ≡ k = rw (e, mark_dead) refl in rw (same, e) tt
    | inr (p, e) ↦ rw (e, mark_dead) (mark_process-Doomed y reason p p.state k e refl)
  ]

  mark_process-other :
      (y x : Pid) (reason : Text) (p : Process) (s : State) (k : Kernel)
      → x ≢ y
      → (mark_process me y reason p s k).table x ≡ k.table x
  unfolding mark_process
  mark_process-other y x reason p State.dead k n = refl
  mark_process-other y x reason p State.running k n = elim (Bool-cases p.kill_pending) [
    | inl b ↦ rw (b, mark_process) refl
    | inr b ↦
        rw (b, mark_process)
          (put-ne y x (some (record p { kill_pending = true; exit_reason = reason })) k n)
  ]
  mark_process-other y x reason p State.runnable k n =
      let q : Process = record p { state = State.dead; exit_reason = reason } in
      enqueue-table me y x (insert y q k) ∙ put-ne y x (some q) k n
  mark_process-other y x reason p State.waiting k n =
      let q : Process = record p { state = State.dead; exit_reason = reason } in
      enqueue-table me y x (insert y q k) ∙ put-ne y x (some q) k n

  mark_dead-other :
      (y x : Pid) (reason : Text) (k : Kernel)
      → x ≢ y
      → (mark_dead me y reason k).table x ≡ k.table x
  unfolding mark_dead
  mark_dead-other y x reason k n = elim (Option-cases (k.table y)) [
    | inl e ↦ rw (e, mark_dead) refl
    | inr (p, e) ↦ rw (e, mark_dead) (mark_process-other y x reason p p.state k n)
  ]

  mark_dead-keeps_Doomed :
      (y x : Pid) (reason : Text) (k : Kernel)
      → Doomed (k.table x)
      → Doomed ((mark_dead me y reason k).table x)
  mark_dead-keeps_Doomed y x reason k h = elim (Bool-cases (x == y)) [
    | inl b ↦
        let same : x ≡ y = (==_iff x y).0 b in
        subst (λ z. Doomed ((mark_dead me y reason k).table z)) (sym same)
          (mark_dead-Doomed y reason k)
    | inr b ↦ rw (mark_dead-other y x reason k (λ s. cc (sym b ∙ (==_iff x y).1 s))) h
  ]

  mark_all-keeps_Doomed :
      (reason : Text) (ls : List Pid) (x : Pid) (k : Kernel)
      → Doomed (k.table x)
      → Doomed ((mark_all me reason ls k).table x)
  unfolding mark_all
  mark_all-keeps_Doomed reason [] x k h = h
  mark_all-keeps_Doomed reason (l ∷ ls) x k h =
      mark_all-keeps_Doomed reason ls x (mark_dead me l reason k)
        (mark_dead-keeps_Doomed l x reason k h)

  mark_all-Doomed :
      (reason : Text) (ls : List Pid) (i : ℕ) (l : Pid) (k : Kernel)
      → get_elem? ls i ≡ some l
      → Doomed ((mark_all me reason ls k).table l)
  unfolding mark_all
  mark_all-Doomed reason [] i l k e = cc
  mark_all-Doomed reason (y ∷ ls) zero l k e =
      let same : y ≡ l = cc in
      rw (← same)
        (mark_all-keeps_Doomed reason ls y (mark_dead me y reason k) (mark_dead-Doomed y reason k))
  mark_all-Doomed reason (y ∷ ls) (suc i) l k e =
      mark_all-Doomed reason ls i l (mark_dead me y reason k) e

  mark_all-Untouched :
      (reason : Text) (ls : List Pid) (k : Kernel) → Untouched k (mark_all me reason ls k)
  unfolding mark_all
  mark_all-Untouched reason [] k = Untouched-refl (λ x. refl)
  mark_all-Untouched reason (l ∷ ls) k =
      Untouched-trans (mark_dead-Untouched me l reason k)
        (mark_all-Untouched reason ls (mark_dead me l reason k))

module _ (place : ℕ → Memory → ℕ) (me : ℕ) where
  deliver_down-Untouched :
      (w : Pid) (r : ℕ) (gone : Pid) (reason : Text) (k k' : Kernel)
      → deliver_down place me w r gone reason k ≡ ok k'
      → Untouched k k'
  unfolding deliver_down
  deliver_down-Untouched w r gone reason k k' h =
      let ((frag, m), _, e) =
        >>=-eq-ok
          (build place
            (down (intern down_text k.atoms).0 r gone
              (intern reason (intern down_text k.atoms).1).0)
            1 32 k.mem)
          _ h in
      let stored : Kernel = record k {
        mem = m;
        atoms = (intern reason (intern down_text k.atoms).1).1;
      } in
      let same : (deliver_fragment me w frag stored).1 ≡ k' = cc in
      subst (Untouched k) same (
        Untouched-trans (Untouched-refl {k' = stored} (λ x. refl))
          (deliver_fragment-Untouched me w frag stored))

  down_all-Untouched :
      (gone : Pid) (reason : Text) (ms : List (ℕ × Pid)) (k k' : Kernel)
      → down_all place me gone reason ms k ≡ ok k'
      → Untouched k k'
  unfolding down_all
  down_all-Untouched gone reason [] k k' h =
      let same : k ≡ k' = cc in subst (Untouched k) same (Untouched-refl (λ x. refl))
  down_all-Untouched gone reason ((r, w) ∷ ms) k k' h =
      let (k₁, e, h') = >>=-eq-ok (deliver_down place me w r gone reason k) _ h in
      Untouched-trans (deliver_down-Untouched w r gone reason k k₁ e)
        (down_all-Untouched gone reason ms k₁ k' h')

  -- what `reap` has done
  pub record Cleared (x : Pid) (p : Process) (k k' : Kernel) : Type 0 where
    pub gone : k'.table x ≡ none
    pub untouched : Untouched (put x none k) k'
    pub links_doomed :
        is_normal p.exit_reason ≡ false
        → (i : ℕ) (l : Pid) → get_elem? p.links i ≡ some l
        → Doomed (k'.table l)

  finish :
      (x : Pid) (p : Process) (k k₁ : Kernel) (b : Bool)
      → is_normal p.exit_reason ≡ b
      → Untouched (put x none k) k₁
      → Cleared x p k (let r : Kernel = if b then k₁ else mark_all me p.exit_reason p.links k₁ in r)
  finish x p k k₁ true e u = record {
    gone = u.gone_stays x (put_self x none k);
    untouched = u;
    links_doomed = λ q. cc (sym e ∙ q);
  }
  finish x p k k₁ false e u =
      let u' = Untouched-trans u (mark_all-Untouched me p.exit_reason p.links k₁) in
      record {
        gone = u'.gone_stays x (put_self x none k);
        untouched = u';
        links_doomed = λ q i l at. mark_all-Doomed me p.exit_reason p.links i l k₁ at;
      }

  -- what `reap` does with a process that is in the table
  abbrev reaping : Pid → Process → Kernel → Run (Finalize × Kernel)
  reaping x p k = do
    k₁ ← down_all place me x p.exit_reason p.monitors (put x none k)
    let k₂ : Kernel = if is_normal p.exit_reason then k₁ else mark_all me p.exit_reason p.links k₁
    ok (record { pid = x; stack_slot = p.stack_slot; heap_spans = (take_spans p.heap).0 }, k₂)

  reap-some :
      (x : Pid) (p : Process) (k : Kernel) → k.table x ≡ some p → reap place me x k ≡ reaping x p k
  unfolding reap
  reap-some x p k e = rw (e, reap) refl

  reap-Cleared :
      (x : Pid) (p : Process) (k k' : Kernel) (fin : Finalize)
      → k.table x ≡ some p
      → reap place me x k ≡ ok (fin, k')
      → Cleared x p k k'
  reap-Cleared x p k k' fin at h =
      let (k₁, e, h') =
        >>=-eq-ok (down_all place me x p.exit_reason p.monitors (put x none k)) _
          (sym (reap-some x p k at) ∙ h) in
      let u = down_all-Untouched x p.exit_reason p.monitors (put x none k) k₁ e in
      let same : (if is_normal p.exit_reason then k₁ else mark_all me p.exit_reason p.links k₁)
          ≡ k' =
        cc in
      subst (Cleared x p k) same (finish x p k k₁ (is_normal p.exit_reason) refl u)

  deliver_down-ok :
      (w : Pid) (r : ℕ) (gone : Pid) (reason : Text) (k : Kernel)
      → (k' : Kernel) × (deliver_down place me w r gone reason k ≡ ok k')
  unfolding deliver_down
  deliver_down-ok w r gone reason k =
      let (x, e) =
        build-down place me (intern down_text k.atoms).0 r gone
          (intern reason (intern down_text k.atoms).1).0 k.mem in
      let stored : Kernel = record k {
        mem = x.1;
        atoms = (intern reason (intern down_text k.atoms).1).1;
      } in
      ((deliver_fragment me w x.0 stored).1, rw (e, deliver_down) refl)

  down_all-ok :
      (gone : Pid) (reason : Text) (ms : List (ℕ × Pid)) (k : Kernel)
      → (k' : Kernel) × (down_all place me gone reason ms k ≡ ok k')
  unfolding down_all
  down_all-ok gone reason [] k = (k, refl)
  down_all-ok gone reason ((r, w) ∷ ms) k =
      let (k₁, e) = deliver_down-ok w r gone reason k in
      let (k₂, e') = down_all-ok gone reason ms k₁ in
      (k₂, ap (λ o. o >>= down_all place me gone reason ms) e ∙ e')

  -- `reap` of a process that is in the table returns, without a panic; the process is gone, dead
  -- processes are as they were and nobody who was gone is back, and if its exit reason is not
  -- `normal`, every process that it is linked to is gone, dead, or running with a pending kill.
  pub reap_lem :
      (x : Pid) (p : Process) (k : Kernel)
      → k.table x ≡ some p
      → (fin : Finalize) × (k' : Kernel) × (reap place me x k ≡ ok (fin, k')) × Cleared x p k k'
  reap_lem x p k at =
      let (k₁, e) = down_all-ok x p.exit_reason p.monitors (put x none k) in
      let fin : Finalize = record {
        pid = x;
        stack_slot = p.stack_slot;
        heap_spans = (take_spans p.heap).0;
      } in
      let k₂ : Kernel =
        (if is_normal p.exit_reason then k₁ else mark_all me p.exit_reason p.links k₁) in
      let returned : reap place me x k ≡ ok (fin, k₂) = reap-some x p k at ∙ rw e refl in
      (fin, k₂, returned, reap-Cleared x p k k₂ fin at returned)
