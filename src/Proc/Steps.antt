-- ===== src/Proc/Steps.antt =====
-- The steps of the cores (kernel/src/proc.rs), each at a hold of the table lock, in any order.
use mathlib.Core.Path.{subst}
use yggdrasil.Atoms.{Text, AtomTable}
use yggdrasil.Term.Store.{Memory}
use yggdrasil.FrameBitmap.{Run}
use yggdrasil.Proc.Span.{ProcHeap}
use yggdrasil.Proc.Signals.{Finalize, monitor}
use yggdrasil.Proc.Spawn.{spawn_inner}
use yggdrasil.Proc.Sched.{
  Picked, check_wheel, take_next, dispatch, after_switch, yields, blocks, exit, honour_kill,
}
use yggdrasil.Proc.{
  Pid, State, Fragment, Process, Cpu, Kernel, insert, at_cpu, kill, deliver_fragment,
}
use yggdrasil.Proc.Count.{holds, runs, total-same}
use yggdrasil.Proc.Inv.{Inv, length-at_cpu}
use yggdrasil.Proc.Keeps.{quiet-Keeps, mark_dead-Keeps, deliver_fragment-Keeps, check_wheel-Keeps}
use yggdrasil.Proc.Steal.{cpus-Keeps, take_next-Keeps}
use yggdrasil.Proc.Dispatch.{Done, dispatch-Done}
use yggdrasil.Proc.OnCore.{on_core}
use yggdrasil.Proc.Leave.{after_switch-Done}
use yggdrasil.Proc.Starts.{
  spawn_inner-Inv, monitor-Done, current-Keeps, exit-Kept, honour_kill-Kept,
}
use yggdrasil.Prelude.{
  ℕ, ◌+◌, ◌^◌, ◌<◌, ◌≡◌, refl, sym, ◌∙◌, ◌≢◌, ◌⊎◌, Bool, Option, none, some, List, length,
  get_elem?, ok,
}

-- The core `me` is `c`.
abbrev pub Core : Kernel → (me : ℕ) → Cpu → Type 0
Core k me c = (me < length k.cpus) × (get_elem? k.cpus me ≡ some c)

-- The core `me` runs the process `x`.
abbrev pub RunsAt : Kernel → (me : ℕ) → Cpu → Pid → Type 0
RunsAt k me c x = Core k me c × (c.current ≡ x) × (x ≢ 0)

module _ (place : ℕ → Memory → ℕ) where
  pub data Step (k k' : Kernel) : Type 0 where
    -- what concerns neither the table nor the queues: the clock, the wheel, memory, names, references and the
    -- monitor that waits for a `spawn_inner`
    quiet :
        (n r : ℕ) (m : Memory) (a : AtomTable) (w : Option (ℕ × Pid)) (d : List (ℕ × List Pid))
        → k' ≡ record k {
          ticks = n;
          next_ref = r;
          mem = m;
          atoms = a;
          monitor_at_spawn = w;
          wheel = d;
        }
        → Step k k'
    parked :
        (me : ℕ) (idle : Bool)
        → k' ≡ record k { cpus = at_cpu me (λ c. record c { idle = idle }) k.cpus }
        → Step k k'
    wheel : (me : ℕ) → me < length k.cpus → k' ≡ check_wheel me k → Step k k'
    take : (me : ℕ) (c : Cpu) → Core k me c → c.next ≡ none → k' ≡ take_next me k → Step k k'
    look_up :
        (me : ℕ) (c : Cpu) (x : Pid) (r : Picked)
        → Core k me c
        → c.next ≡ some x
        → c.current ≡ 0
        → dispatch place me x k ≡ ok (r, k')
        → Step k k'
    -- a message from a process or from the kernel
    deliver :
        (me : ℕ) (to : Pid) (frag : Fragment)
        → me < length k.cpus
        → k' ≡ (deliver_fragment me to frag k).1
        → Step k k'
    kills :
        (me : ℕ) (x : Pid) (reason : Text)
        → me < length k.cpus
        → k' ≡ kill me x reason k
        → Step k k'
    monitors :
        (me : ℕ) (c : Cpu) (x target : Pid) (r : ℕ)
        → RunsAt k me c x
        → monitor place me x target k ≡ ok (r, k')
        → Step k k'
    spawn :
        (me trampoline slot top : ℕ) (heap : ProcHeap) (entry arg : ℕ) (l : Option Pid)
        → me < length k.cpus
        → k.next_pid + 1 < 2 ^ 62
        → k' ≡ (spawn_inner me trampoline slot top heap entry arg l k).1
        → Step k k'
    -- a process takes messages out of its mailbox, allocates and saves its stack pointer
    works :
        (me : ℕ) (c : Cpu) (x : Pid) (p : Process) (mail : List Fragment) (heap : ProcHeap)
        (rsp : ℕ)
        → RunsAt k me c x
        → k.table x ≡ some p
        → k' ≡ insert x (record p { mailbox = mail; heap = heap; rsp = rsp }) k
        → Step k k'
    exits :
        (me : ℕ) (c : Cpu) (x : Pid) (reason : Text)
        → RunsAt k me c x
        → exit x reason k ≡ ok k'
        → Step k k'
    honours : (me : ℕ) (c : Cpu) (x : Pid) → RunsAt k me c x → honour_kill x k ≡ ok k' → Step k k'
    leave :
        (me : ℕ) (c : Cpu) (x : Pid) (a : ℕ) (fin : Option Finalize)
        → RunsAt k me c x
        → (a ≡ yields x)
          ⊎ ((a ≡ blocks x)
              ⊎ ((a ≡ 0) × ((p : Process) → k.table x ≡ some p → p.state ≡ State.dead)))
        → after_switch place me x a k ≡ ok (fin, k')
        → Step k k'

  Done-Inv :
      {A : Type 0} (k k' : Kernel) (o : Run (A × Kernel)) (a : A)
      → Done k o
      → o ≡ ok (a, k')
      → Inv k'
  Done-Inv k k' o a d e = subst Inv (let h = sym d.returned ∙ e in cc) d.keeps.inv

  -- Every step keeps the invariant.
  pub Step-Inv : {k k' : Kernel} → Step k k' → Inv k → Inv k'
  Step-Inv {k} {k'} (quiet n r m a w d e) inv =
      rw e
        (quiet-Keeps k
          (record k {
            ticks = n;
            next_ref = r;
            mem = m;
            atoms = a;
            monitor_at_spawn = w;
            wheel = d;
          })
          (λ y. refl) refl refl inv).inv
  Step-Inv {k} {k'} (parked me idle e) inv =
      rw e
        (cpus-Keeps k (at_cpu me (λ c. record c { idle = idle }) k.cpus)
          (λ x. total-same (holds x) (λ c. record c { idle = idle }) k.cpus me (λ c. refl))
          (λ x. total-same (runs x) (λ c. record c { idle = idle }) k.cpus me (λ c. refl))
          (length-at_cpu me (λ c. record c { idle = idle }) k.cpus) inv).inv
  Step-Inv {k} {k'} (wheel me lt e) inv = rw e (check_wheel-Keeps me k lt inv).inv
  Step-Inv {k} {k'} (take me c (lt, at) n e) inv = rw e (take_next-Keeps me k c at n inv).inv
  Step-Inv {k} {k'} (look_up me c x r (lt, at) n idle e) inv =
      Done-Inv k k' (dispatch place me x k) r (dispatch-Done place me x k c lt at n idle inv) e
  Step-Inv {k} {k'} (deliver me to frag lt e) inv =
      rw e (deliver_fragment-Keeps me to frag k lt inv).inv
  Step-Inv {k} {k'} (kills me x reason lt e) inv = rw e (mark_dead-Keeps me x reason k lt inv).inv
  Step-Inv {k} {k'} (monitors me c x target r ((lt, at), mine, nz) e) inv =
      Done-Inv k k' (monitor place me x target k) r (monitor-Done place me x target k lt inv) e
  Step-Inv {k} {k'} (spawn me tr slot top heap entry arg l lt small e) inv =
      rw e (spawn_inner-Inv me tr slot top heap entry arg l k lt small inv)
  Step-Inv {k} {k'} (works me c x p mail heap rsp ((lt, at), mine, nz) there e) inv =
      let h = on_core me x k c at mine nz inv in
      let same : h.process ≡ p = cc (sym h.there ∙ there) in
      rw e
        (current-Keeps x k h (record p { mailbox = mail; heap = heap; rsp = rsp })
          (subst (λ p. (p.state ≡ State.running) ⊎ (p.state ≡ State.dead)) same h.going) inv).inv
  Step-Inv {k} {k'} (exits me c x reason ((lt, at), mine, nz) e) inv =
      let (k'', r, kept) = exit-Kept x reason k (on_core me x k c at mine nz inv) inv in
      let same : k'' ≡ k' = cc (sym r ∙ e) in subst Inv same kept.inv
  Step-Inv {k} {k'} (honours me c x ((lt, at), mine, nz) e) inv =
      let (k'', r, kept) = honour_kill-Kept x k (on_core me x k c at mine nz inv) inv in
      let same : k'' ≡ k' = cc (sym r ∙ e) in subst Inv same kept.inv
  Step-Inv {k} {k'} (leave me c x a fin ((lt, at), mine, nz) l e) inv =
      Done-Inv k k' (after_switch place me x a k) fin
        (after_switch-Done me x k c lt at mine nz inv place a l) e

  -- The kernel after any sequence of steps from `k₀`.
  pub data Reach (k₀ : Kernel) : Kernel → Type 0 where
    here : Reach k₀ k₀
    next : {k k' : Kernel} → Reach k₀ k → Step k k' → Reach k₀ k'

  pub Reach-Inv : {k₀ k : Kernel} → Inv k₀ → Reach k₀ k → Inv k
  Reach-Inv inv here = inv
  Reach-Inv inv (next r s) = Step-Inv s (Reach-Inv inv r)
