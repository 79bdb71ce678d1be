-- ===== src/Proc/Keeps.antt =====
-- Lemmas on the operations on a table entry (kernel/src/proc.rs), against the scheduler's invariant.
use mathlib.Core.Path.{subst}
use yggdrasil.Proc.{
  Pid, State, Fragment, Process, Kernel, insert, enqueue, mark_process, mark_dead, deliver_process,
  deliver_fragment,
}
use yggdrasil.Proc.Sched.{park, wake_process, wake_due, check_wheel, pop_due}
use yggdrasil.Proc.Count.{queued, on}
use yggdrasil.Proc.Inv.{
  StateFits, Fits, Inv, Moves-trans, put_self, put-Moves, Enqueued, enqueue_lem, Moves-Inv,
}
use yggdrasil.Prelude.{
  ℕ, ◌+◌, ◌<◌, ◌≡◌, refl, sym, ap, ◌∙◌, ◌≢◌, inl, inr, true, Option, none, some, List, [], ◌∷◌,
  ◌++◌, arith, Bool-cases, Option-cases, length,
}

-- An operation that keeps the invariant and the number of the cores.
pub record Keeps (k k' : Kernel) : Type 0 where
  pub inv : Inv k'
  pub cores : length k'.cpus ≡ length k.cpus
  pub next : k'.next_pid ≡ k.next_pid

pub Keeps-refl : {k : Kernel} → Inv k → Keeps k k
Keeps-refl inv = record { inv = inv; cores = refl; next = refl }

pub Keeps-trans : {k k' k'' : Kernel} → Keeps k k' → Keeps k' k'' → Keeps k k''
Keeps-trans a b = record { inv = b.inv; cores = b.cores ∙ a.cores; next = b.next ∙ a.next }

-- the invariant at a process that is there
pub at-process :
    {k : Kernel} (x : Pid) (p : Process)
    → Inv k
    → k.table x ≡ some p
    → x ≢ 0
    → StateFits p.state p.mailbox (queued x k.cpus) (on x k.cpus)
at-process {k} x p inv e nz = subst (λ o. Fits o (queued x k.cpus) (on x k.cpus)) e (inv.fits x nz)

pub as_state :
    {s : State} (p : Process)
    → p.state ≡ s
    → (q r : ℕ) → StateFits p.state p.mailbox q r
    → StateFits s p.mailbox q r
as_state p e q r h = subst (λ t. StateFits t p.mailbox q r) e h

-- A change to what the invariant does not speak of.
pub quiet-Keeps :
    (k k' : Kernel)
    → ((x : Pid) → k'.table x ≡ k.table x)
    → k'.cpus ≡ k.cpus
    → k'.next_pid ≡ k.next_pid
    → Inv k
    → Keeps k k'
quiet-Keeps k k' t c n inv = record {
  inv = record {
    fits = λ x nz. rw (t x, c) (inv.fits x nz);
    fresh = λ x le. rw (t x, c) (inv.fresh x (omega arith));
    started = (let s = inv.started in omega arith);
    small = (let s = inv.small in omega arith);
  };
  cores = ap length c;
  next = n;
}

module _ (x : Pid) (p p' : Process) (k : Kernel) (e : k.table x ≡ some p) (inv : Inv k) where
  pub insert-Keeps :
      ((q r : ℕ) → StateFits p.state p.mailbox q r → StateFits p'.state p'.mailbox q r)
      → Keeps k (insert x p' k)
  insert-Keeps h = record {
    inv =
        Moves-Inv x k (insert x p' k) p (put-Moves x (some p') k) e
          (λ nz.
            rw (put_self x (some p') k)
              (h (queued x k.cpus) (on x k.cpus) (at-process x p inv e nz)))
          inv;
    cores = refl;
    next = refl;
  }

  pub enqueue-Keeps :
      (me : ℕ)
      → me < length k.cpus
      → ((q r : ℕ) → StateFits p.state p.mailbox q r → StateFits p'.state p'.mailbox (q + 1) r)
      → Keeps k (enqueue me x (insert x p' k))
  enqueue-Keeps me lt h =
      let en : Enqueued x (insert x p' k) (enqueue me x (insert x p' k)) =
        enqueue_lem me x (insert x p' k) lt in
      let there : (enqueue me x (insert x p' k)).table x ≡ some p' =
        en.table ∙ put_self x (some p') k in
      record {
        inv =
            Moves-Inv x k (enqueue me x (insert x p' k)) p
              (Moves-trans (put-Moves x (some p') k) en.moves) e
              (λ nz.
                rw (there, en.queued_more, en.on_same)
                  (h (queued x k.cpus) (on x k.cpus) (at-process x p inv e nz)))
              inv;
        cores = en.moves.cores;
        next = en.moves.next;
      }

module _ (me : ℕ) where
  mark_process-Keeps :
      (x : Pid) (reason : List ℕ) (p : Process) (s : State) (k : Kernel)
      → me < length k.cpus
      → k.table x ≡ some p
      → p.state ≡ s
      → Inv k
      → Keeps k (mark_process me x reason p s k)
  unfolding mark_process
  mark_process-Keeps x reason p State.dead k lt e es inv = Keeps-refl inv
  mark_process-Keeps x reason p State.running k lt e es inv = elim (Bool-cases p.kill_pending) [
    | inl b ↦ rw (b, mark_process) (Keeps-refl inv)
    | inr b ↦
        rw (b, mark_process)
          (insert-Keeps x p (record p { kill_pending = true; exit_reason = reason }) k e inv
            (λ q r h. h))
  ]
  mark_process-Keeps x reason p State.runnable k lt e es inv =
      enqueue-Keeps x p (record p { state = State.dead; exit_reason = reason }) k e inv me lt
        (λ q r h. let (a, b) = as_state p es q r h in inl (omega arith, b))
  mark_process-Keeps x reason p State.waiting k lt e es inv =
      enqueue-Keeps x p (record p { state = State.dead; exit_reason = reason }) k e inv me lt
        (λ q r h. let (a, b, c) = as_state p es q r h in inl (omega arith, b))

  pub mark_dead-Keeps :
      (x : Pid) (reason : List ℕ) (k : Kernel)
      → me < length k.cpus
      → Inv k
      → Keeps k (mark_dead me x reason k)
  unfolding mark_dead
  mark_dead-Keeps x reason k lt inv = elim (Option-cases (k.table x)) [
    | inl e ↦ rw (e, mark_dead) (Keeps-refl inv)
    | inr (p, e) ↦ rw (e, mark_dead) (mark_process-Keeps x reason p p.state k lt e refl inv)
  ]

  deliver_process-Keeps :
      (to : Pid) (frag : Fragment) (p : Process) (s : State) (k : Kernel)
      → me < length k.cpus
      → k.table to ≡ some p
      → p.state ≡ s
      → Inv k
      → Keeps k (deliver_process me to frag p s k).1
  unfolding deliver_process
  deliver_process-Keeps to frag p State.dead k lt e es inv = Keeps-refl inv
  deliver_process-Keeps to frag p State.waiting k lt e es inv =
      enqueue-Keeps to p (record p { state = State.runnable; mailbox = p.mailbox ++ frag ∷ [] }) k e
        inv me lt (λ q r h. let (a, b, c) = as_state p es q r h in (omega arith, b))
  deliver_process-Keeps to frag p State.runnable k lt e es inv =
      insert-Keeps to p (record p { mailbox = p.mailbox ++ frag ∷ [] }) k e inv
        (λ q r h.
          subst (λ t. StateFits t (p.mailbox ++ frag ∷ []) q r) (sym es) (as_state p es q r h))
  deliver_process-Keeps to frag p State.running k lt e es inv =
      insert-Keeps to p (record p { mailbox = p.mailbox ++ frag ∷ [] }) k e inv
        (λ q r h.
          subst (λ t. StateFits t (p.mailbox ++ frag ∷ []) q r) (sym es) (as_state p es q r h))

  pub deliver_fragment-Keeps :
      (to : Pid) (frag : Fragment) (k : Kernel)
      → me < length k.cpus
      → Inv k
      → Keeps k (deliver_fragment me to frag k).1
  unfolding deliver_fragment
  deliver_fragment-Keeps to frag k lt inv = elim (Option-cases (k.table to)) [
    | inl e ↦ rw (e, deliver_fragment) (Keeps-refl inv)
    | inr (p, e) ↦
        rw (e, deliver_fragment) (deliver_process-Keeps to frag p p.state k lt e refl inv)
  ]

  wake_process-Keeps :
      (now : ℕ) (x : Pid) (p : Process) (s : State) (k : Kernel)
      → me < length k.cpus
      → k.table x ≡ some p
      → p.state ≡ s
      → Inv k
      → Keeps k (wake_process me now x p s k)
  unfolding wake_process
  wake_process-Keeps now x p State.waiting k lt e es inv =
      enqueue-Keeps x p (record p { state = State.runnable }) k e inv me lt
        (λ q r h. let (a, b, c) = as_state p es q r h in (omega arith, b))
  wake_process-Keeps now x p State.running k lt e es inv =
      quiet-Keeps k (record k { wheel = park (now + 1) x k.wheel }) (λ y. refl) refl refl inv
  wake_process-Keeps now x p State.runnable k lt e es inv = Keeps-refl inv
  wake_process-Keeps now x p State.dead k lt e es inv = Keeps-refl inv

  -- one process that is due
  abbrev woken : ℕ → Pid → Kernel → Option Process → Kernel
  woken now x k none = k
  woken now x k (some p) = wake_process me now x p p.state k

  woken-Keeps :
      (now : ℕ) (x : Pid) (k : Kernel) (o : Option Process)
      → me < length k.cpus
      → k.table x ≡ o
      → Inv k
      → Keeps k (woken now x k o)
  woken-Keeps now x k none lt e inv = Keeps-refl inv
  woken-Keeps now x k (some p) lt e inv = wake_process-Keeps now x p p.state k lt e refl inv

  wake_due-Keeps :
      (now : ℕ) (due : List Pid) (k : Kernel)
      → me < length k.cpus
      → Inv k
      → Keeps k (wake_due me now due k)
  unfolding wake_due
  wake_due-Keeps now [] k lt inv = Keeps-refl inv
  wake_due-Keeps now (x ∷ due) k lt inv =
      let first = woken-Keeps now x k (k.table x) lt refl inv in
      Keeps-trans first (
        wake_due-Keeps now due (woken now x k (k.table x)) (let c = first.cores in omega arith)
          first.inv)

  pub check_wheel-Keeps : (k : Kernel) → me < length k.cpus → Inv k → Keeps k (check_wheel me k)
  unfolding check_wheel
  check_wheel-Keeps k lt inv =
      let k' : Kernel = record k { wheel = (pop_due k.ticks k.wheel).1 } in
      Keeps-trans (quiet-Keeps k k' (λ y. refl) refl refl inv) (
        wake_due-Keeps k.ticks (pop_due k.ticks k.wheel).0 k' lt
          (quiet-Keeps k k' (λ y. refl) refl refl inv).inv)
