-- ===== src/Proc/Gone.antt =====
-- Lemmas on signals (kernel/src/proc.rs) and processes that are dead or gone.
use yggdrasil.Atoms.{Text}
use yggdrasil.Proc.{
  Pid, State, Fragment, Process, Kernel, insert, enqueue, mark_process, mark_dead, deliver_process,
  deliver_fragment,
}
use yggdrasil.Proc.Count.{enqueue-eq}
use yggdrasil.Proc.Inv.{put-ne}
use yggdrasil.Prelude.{
  ℕ, ◌≡◌, refl, sym, ap, ◌∙◌, ◌≢◌, inl, inr, true, none, some, [], ◌∷◌, ◌++◌, Bool-cases,
  Option-cases,
}

-- Dead processes stay as they are, and who is gone stays gone.
pub record Untouched (k k' : Kernel) : Type 0 where
  pub dead_stays :
      (x : Pid) (p : Process) → k.table x ≡ some p → p.state ≡ State.dead → k'.table x ≡ some p
  pub gone_stays : (x : Pid) → k.table x ≡ none → k'.table x ≡ none

pub Untouched-refl : {k k' : Kernel} → ((x : Pid) → k'.table x ≡ k.table x) → Untouched k k'
Untouched-refl h = record { dead_stays = λ x p e d. h x ∙ e; gone_stays = λ x e. h x ∙ e }

pub Untouched-trans : {k k' k'' : Kernel} → Untouched k k' → Untouched k' k'' → Untouched k k''
Untouched-trans a b = record {
  dead_stays = λ x p e d. b.dead_stays x p (a.dead_stays x p e d) d;
  gone_stays = λ x e. b.gone_stays x (a.gone_stays x e);
}

pub enqueue-table : (me : ℕ) (y x : Pid) (k : Kernel) → (enqueue me y k).table x ≡ k.table x
enqueue-table me y x k = let (is, e) = enqueue-eq me y k in ap (λ k. k.table x) e

insert-Untouched :
    (y : Pid) (p p' : Process) (k : Kernel)
    → k.table y ≡ some p
    → p.state ≢ State.dead
    → Untouched k (insert y p' k)
insert-Untouched y p p' k e alive = record {
  dead_stays = λ x q at d.
      put-ne y x (some p') k (λ s.
        let same : q ≡ p = cc (sym at ∙ ap k.table s ∙ e) in
        alive (ap (λ q. q.state) (sym same) ∙ d))
      ∙ at;
  gone_stays = λ x at. put-ne y x (some p') k (λ s. cc (sym at ∙ ap k.table s ∙ e)) ∙ at;
}

enqueue-Untouched :
    (me : ℕ) (y : Pid) (p p' : Process) (k : Kernel)
    → k.table y ≡ some p
    → p.state ≢ State.dead
    → Untouched k (enqueue me y (insert y p' k))
enqueue-Untouched me y p p' k e alive =
    Untouched-trans (insert-Untouched y p p' k e alive)
      (Untouched-refl (λ x. enqueue-table me y x (insert y p' k)))

module _ (me : ℕ) where
  mark_process-Untouched :
      (y : Pid) (reason : Text) (p : Process) (s : State) (k : Kernel)
      → k.table y ≡ some p
      → p.state ≡ s
      → Untouched k (mark_process me y reason p s k)
  unfolding mark_process
  mark_process-Untouched y reason p State.dead k e es = Untouched-refl (λ x. refl)
  mark_process-Untouched y reason p State.running k e es = elim (Bool-cases p.kill_pending) [
    | inl b ↦ rw (b, mark_process) (Untouched-refl (λ x. refl))
    | inr b ↦
        rw (b, mark_process)
          (insert-Untouched y p (record p { kill_pending = true; exit_reason = reason }) k e
            (λ d. cc))
  ]
  mark_process-Untouched y reason p State.runnable k e es =
      enqueue-Untouched me y p (record p { state = State.dead; exit_reason = reason }) k e (λ d. cc)
  mark_process-Untouched y reason p State.waiting k e es =
      enqueue-Untouched me y p (record p { state = State.dead; exit_reason = reason }) k e (λ d. cc)

  pub mark_dead-Untouched :
      (y : Pid) (reason : Text) (k : Kernel) → Untouched k (mark_dead me y reason k)
  unfolding mark_dead
  mark_dead-Untouched y reason k = elim (Option-cases (k.table y)) [
    | inl e ↦ rw (e, mark_dead) (Untouched-refl (λ x. refl))
    | inr (p, e) ↦ rw (e, mark_dead) (mark_process-Untouched y reason p p.state k e refl)
  ]

  deliver_process-Untouched :
      (to : Pid) (frag : Fragment) (p : Process) (s : State) (k : Kernel)
      → k.table to ≡ some p
      → p.state ≡ s
      → Untouched k (deliver_process me to frag p s k).1
  unfolding deliver_process
  deliver_process-Untouched to frag p State.dead k e es = Untouched-refl (λ x. refl)
  deliver_process-Untouched to frag p State.waiting k e es =
      enqueue-Untouched me to p
        (record p { state = State.runnable; mailbox = p.mailbox ++ frag ∷ [] }) k e (λ d. cc)
  deliver_process-Untouched to frag p State.runnable k e es =
      insert-Untouched to p (record p { mailbox = p.mailbox ++ frag ∷ [] }) k e (λ d. cc)
  deliver_process-Untouched to frag p State.running k e es =
      insert-Untouched to p (record p { mailbox = p.mailbox ++ frag ∷ [] }) k e (λ d. cc)

  pub deliver_fragment-Untouched :
      (to : Pid) (frag : Fragment) (k : Kernel) → Untouched k (deliver_fragment me to frag k).1
  unfolding deliver_fragment
  deliver_fragment-Untouched to frag k = elim (Option-cases (k.table to)) [
    | inl e ↦ rw (e, deliver_fragment) (Untouched-refl (λ x. refl))
    | inr (p, e) ↦ rw (e, deliver_fragment) (deliver_process-Untouched to frag p p.state k e refl)
  ]
