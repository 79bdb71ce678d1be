-- ===== src/Proc/Sched.antt =====
-- kernel/src/proc.rs: the timer wheel and the scheduler's loop. What a core takes off a run queue
-- stands in its field `next` until it looks it up under the table lock.
use mathlib.Core.List.{reverse}
use yggdrasil.Atoms.{Text}
use yggdrasil.Term.Store.{Memory}
use yggdrasil.FrameBitmap.{Run}
use yggdrasil.Proc.Signals.{Finalize, reap}
use yggdrasil.Proc.{Pid, State, Process, Cpu, Kernel, insert, at_cpu, is_dead, enqueue}
use yggdrasil.Prelude.{
  ℕ, ◌+◌, ◌*◌, ◌/◌, ◌%◌, ◌^◌, Option, none, some, List, [], ◌∷◌, ◌++◌, ltb, ◌==◌, if◌then◌else◌,
  get_elem?, ok, panic, ◌>>=◌,
}

abbrev pub Wheel : Type 0
Wheel = List (ℕ × List Pid)

-- `w.entry(d).or_default().push(pid)`, on the map as a list with increasing keys
unfoldable pub park : (d : ℕ) → Pid → Wheel → Wheel
park d pid [] = (d, pid ∷ []) ∷ []
park d pid ((e, pids) ∷ w) =
    if d == e
    then (e, pids ++ pid ∷ []) ∷ w
    else (if ltb d e then (d, pid ∷ []) ∷ (e, pids) ∷ w else (e, pids) ∷ park d pid w)

-- the processes that are due, and the wheel without them
unfoldable pub pop_due : (now : ℕ) → Wheel → List Pid × Wheel
pop_due now [] = ([], [])
pop_due now ((d, pids) ∷ w) =
    if ltb now d
    then ([], (d, pids) ∷ w)
    else (let (due, rest) = pop_due now w in (pids ++ due, rest))

-- A sleeper is woken; one that is caught on its way out of a core is looked at again a tick later.
unfoldable pub wake_process : (me now : ℕ) → Pid → Process → State → Kernel → Kernel
unfolding enqueue park
wake_process me now pid p State.waiting k =
    enqueue me pid (insert pid (record p { state = State.runnable }) k)
wake_process me now pid p State.running k = record k { wheel = park (now + 1) pid k.wheel }
wake_process me now pid p _ k = k

unfoldable pub wake_due : (me now : ℕ) → List Pid → Kernel → Kernel
unfolding wake_process
wake_due me now [] k = k
wake_due me now (pid ∷ due) k = wake_due me now due (
    let r : Kernel = elim (k.table pid) [
      | none ↦ k
      | some p ↦ wake_process me now pid p p.state k
    ] in
    r)

unfoldable pub check_wheel : (me : ℕ) → Kernel → Kernel
unfolding pop_due wake_due
check_wheel me k =
    let (due, w) = pop_due k.ticks k.wheel in wake_due me k.ticks due (record k { wheel = w })

-- `pop_back`
abbrev pub last_of : List Pid → Option (Pid × List Pid)
last_of [] = none
last_of (p ∷ rest) = some (p, reverse rest)

abbrev pub pop_back : List Pid → Option (Pid × List Pid)
pop_back q = last_of (reverse q)

-- Steal from the back of the first other core's queue that has an entry.
abbrev pub robbed :
    Cpu → List Cpu → Option Pid × List Cpu → Option (Pid × List Pid) → Option Pid × List Cpu
robbed c cs (found, cs') none = (found, c ∷ cs')
robbed c cs later (some (pid, rest)) = (some pid, record c { runq = rest } ∷ cs)

unfoldable pub steal : (me : ℕ) → List Cpu → Option Pid × List Cpu
steal me [] = (none, [])
steal me (c ∷ cs) =
    let later = steal me cs in
    if c.id == me then (later.0, c ∷ later.1) else robbed c cs later (pop_back c.runq)

-- The loop's `next`: the front of this core's queue, or else what it steals.
unfoldable pub take_from : (me : ℕ) → Kernel → List Pid → Kernel
unfolding steal
take_from me k [] =
    let (found, cs) = steal me k.cpus in
    record k { cpus = at_cpu me (λ c. record c { next = found }) cs }
take_from me k (pid ∷ rest) = record k {
  cpus = at_cpu me (λ c. record c { runq = rest; next = some pid }) k.cpus;
}

unfoldable pub take_next : (me : ℕ) → Kernel → Kernel
unfolding take_from
take_next me k = elim (get_elem? k.cpus me) [ none ↦ k | some c ↦ take_from me k c.runq ]

-- what the look-up of `next` comes to
pub data Picked : Type 0 where
  switched : (rsp : ℕ) → Picked
  reaped : Finalize → Picked
  skipped : Picked

-- `kill_pending` is honoured once the context is saved.
abbrev pub settled : Process → Process
settled p = if p.kill_pending then record p { state = State.dead } else p

-- a process that yields: requeued if it is still running
unfoldable pub requeue : (me : ℕ) → Pid → Process → State → Kernel → Kernel
unfolding enqueue
requeue me pid p State.running k =
    enqueue me pid (insert pid (record p { state = State.runnable }) k)
requeue me pid p _ k = insert pid p k

-- a process that blocks: it waits unless it has a message
unfoldable pub block : (me : ℕ) → Pid → Process → State → Kernel → Kernel
unfolding enqueue
block me pid p State.running k = elim p.mailbox [
  | [] ↦ insert pid (record p { state = State.waiting }) k
  | _ ∷ _ ↦ enqueue me pid (insert pid (record p { state = State.runnable }) k)
]
block me pid p _ k = insert pid p k

-- the deferred transition: the low two bits of the action say which, the others of whom
unfoldable pub post_switch : (me action : ℕ) → Kernel → Kernel
unfolding requeue block
post_switch me action k =
    let apid : Pid = action / 4 in
    elim (k.table apid) [
      | none ↦ k
      | some p ↦
          (let q : Process = settled p in
            if action % 4 == 1
            then requeue me apid q q.state k
            else (if action % 4 == 2 then block me apid q q.state k else k))
    ]

module _ (place : ℕ → Memory → ℕ) where
  -- The process goes on, by its state; `next` is used up.
  unfoldable pub dispatch_process :
      (me : ℕ) → Pid → Process → State → Kernel → Run (Picked × Kernel)
  unfolding reap
  dispatch_process me pid p State.runnable k = ok (
    switched p.rsp,
    insert pid (record p { state = State.running })
        (record k {
          cpus =
              at_cpu me (λ c. record c { current = pid; switches = (c.switches + 1) % 2 ^ 64 })
                k.cpus;
        }),
  )
  dispatch_process me pid p State.dead k = reap place me pid k >>= λ (fin, k'). ok (reaped fin, k')
  dispatch_process me pid p _ k = ok (skipped, k)

  unfoldable pub dispatch : (me : ℕ) → Pid → Kernel → Run (Picked × Kernel)
  unfolding dispatch_process
  dispatch me pid k =
      let k' : Kernel = record k { cpus = at_cpu me (λ c. record c { next = none }) k.cpus } in
      elim (k.table pid) [ none ↦ ok (skipped, k') | some p ↦ dispatch_process me pid p p.state k' ]

  -- What the scheduler does when the process `pid` has switched back to it: the transition that it
  -- left, and the end of the process if it is dead.
  unfoldable pub after_switch :
      (me : ℕ) → Pid → (action : ℕ) → Kernel → Run (Option Finalize × Kernel)
  unfolding post_switch reap
  after_switch me pid action k =
      let k₁ : Kernel = record k { cpus = at_cpu me (λ c. record c { current = 0 }) k.cpus } in
      let k₂ : Kernel = post_switch me action k₁ in
      elim (k₂.table pid) [
        | none ↦ ok (none, k₂)
        | some p ↦
            if is_dead p.state
            then (reap place me pid k₂ >>= λ (fin, k₃). ok (some fin, k₃))
            else ok (none, k₂)
      ]

-- `pid << 2 | kind`, in 64 bits
abbrev pub yields : Pid → ℕ
yields pid = pid * 4 % 2 ^ 64 + 1

abbrev pub blocks : Pid → ℕ
blocks pid = pid * 4 % 2 ^ 64 + 2

-- `exit` and `fatal_current`: the process is dead and leaves the core.
unfoldable pub exit : Pid → (reason : Text) → Kernel → Run Kernel
exit pid reason k = elim (k.table pid) [
  | none ↦ panic
  | some p ↦ ok (insert pid (record p { state = State.dead; exit_reason = reason }) k)
]

-- `if p.kill_pending { p.state = State::Dead; }`
unfoldable pub honour_kill : Pid → Kernel → Run Kernel
honour_kill pid k = elim (k.table pid) [
  | none ↦ panic
  | some p ↦ ok (if p.kill_pending then insert pid (record p { state = State.dead }) k else k)
]
