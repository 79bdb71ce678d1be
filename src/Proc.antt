-- ===== src/Proc.antt =====
-- kernel/src/proc.rs and kernel/src/percpu.rs: processes and the scheduler. The table lock makes the
-- operations on the table atomic; `me` is the index of the core that runs the operation.
pub mod Span
pub mod Quota
pub mod Signals
pub mod Spawn
pub mod Sched
pub mod Count
pub mod Inv
pub mod Keeps
pub mod Reaps
pub mod Steal
pub mod Dispatch
pub mod OnCore
pub mod Leave
pub mod Starts
pub mod Steps
pub mod Gone
pub mod Links
pub mod Receive
pub mod Scan
pub mod Pass
pub mod Boot
mod Tests
use yggdrasil.Atoms.{AtomTable}
use yggdrasil.Term.{Term}
use yggdrasil.Term.Store.{Memory}
use yggdrasil.Proc.Span.{ProcHeap}
use yggdrasil.Prelude.{
  ℕ, zero, suc, ◌+◌, ◌*◌, ◌%◌, ◌^◌, Bool, true, false, not, ◌&&◌, Option, none, some, List, [], ◌∷◌,
  ◌++◌, ◌==◌, ◌-◌, if◌then◌else◌, get_elem?, set, replicate,
}

abbrev pub Pid : Type 0
Pid = ℕ

pub data State : Type 0 where
  runnable running waiting dead : State

-- A message in flight: where its backing store is, and the term in it.
pub record Fragment : Type 0 where
  pub backing : ℕ
  pub words : ℕ
  pub root : Term

pub record Process : Type 0 where
  pub state : State
  pub rsp : ℕ
  pub stack_slot : ℕ
  pub heap : ProcHeap
  pub mailbox : List Fragment
  pub kill_pending : Bool
  pub links : List Pid
  pub monitors : List (ℕ × Pid)
  pub exit_reason : List ℕ

-- A core. `next` is the local variable of the scheduler's loop: the process that has been taken off
-- a run queue and not yet been looked up in the table.
pub record Cpu : Type 0 where
  pub id : ℕ
  pub lapic_id : ℕ
  pub current : Pid
  pub runq : List Pid
  pub next : Option Pid
  pub switches : ℕ
  pub idle : Bool

-- The statics behind the locks, the clock, the memory, and the interrupts sent to other cores.
pub record Kernel : Type 0 where
  pub table : Pid → Option Process
  pub wheel : List (ℕ × List Pid)
  pub next_pid : ℕ
  pub next_ref : ℕ
  pub monitor_at_spawn : Option (ℕ × Pid)
  pub cpus : List Cpu
  pub ipis : List (ℕ × ℕ)
  pub ticks : ℕ
  pub atoms : AtomTable
  pub mem : Memory

abbrev pub wake_vector : ℕ
wake_vector = 0x41

abbrev pub u32_max : ℕ
u32_max = 2 ^ 32 - 1

-- `t.insert(pid, p)` and `t.remove(&pid)`
abbrev pub put : Pid → Option Process → Kernel → Kernel
put pid p k = record k { table = λ q. if q == pid then p else k.table q }

abbrev pub insert : Pid → Process → Kernel → Kernel
insert pid p k = put pid (some p) k

-- a change to the core `i`
abbrev pub at_cpu : ℕ → (Cpu → Cpu) → List Cpu → List Cpu
at_cpu i f [] = []
at_cpu zero f (c ∷ cs) = f c ∷ cs
at_cpu (suc i) f (c ∷ cs) = c ∷ at_cpu i f cs

-- the first other core that is idle
unfoldable pub idle_core : ℕ → List Cpu → Option Cpu
idle_core me [] = none
idle_core me (c ∷ cs) = if not (c.id == me) && c.idle then some c else idle_core me cs

-- Queue a process on this core, and wake one idle core.
unfoldable pub enqueue : ℕ → Pid → Kernel → Kernel
unfolding idle_core
enqueue me pid k =
    let queued : List Cpu = at_cpu me (λ c. record c { runq = c.runq ++ pid ∷ [] }) k.cpus in
    elim (idle_core me k.cpus) [
      | none ↦ record k { cpus = queued }
      | some c ↦
          if c.lapic_id == u32_max
          then record k { cpus = queued }
          else record k { cpus = queued; ipis = (c.lapic_id, wake_vector) ∷ k.ipis }
    ]

abbrev pub is_dead : State → Bool
is_dead State.dead = true
is_dead _ = false

unfoldable pub is_alive : Pid → Kernel → Bool
is_alive pid k = elim (k.table pid) [ none ↦ false | some p ↦ not (is_dead p.state) ]

-- `mark_dead`, by the state of the process
unfoldable pub mark_process : ℕ → Pid → (reason : List ℕ) → Process → State → Kernel → Kernel
unfolding enqueue
mark_process me pid reason p State.dead k = k
mark_process me pid reason p State.running k =
    if p.kill_pending
    then k
    else insert pid (record p { kill_pending = true; exit_reason = reason }) k
mark_process me pid reason p _ k =
    enqueue me pid (insert pid (record p { state = State.dead; exit_reason = reason }) k)

unfoldable pub mark_dead : ℕ → Pid → (reason : List ℕ) → Kernel → Kernel
unfolding mark_process
mark_dead me pid reason k = elim (k.table pid) [
  | none ↦ k
  | some p ↦ mark_process me pid reason p p.state k
]

abbrev pub kill : ℕ → Pid → (reason : List ℕ) → Kernel → Kernel
kill me pid reason k = mark_dead me pid reason k

-- `deliver_fragment`, by the state of the receiver
unfoldable pub deliver_process :
    ℕ → (to : Pid) → Fragment → Process → State → Kernel → Bool × Kernel
unfolding enqueue
deliver_process me to frag p State.dead k = (false, k)
deliver_process me to frag p State.waiting k = (
  true,
  enqueue me to
      (insert to (record p { state = State.runnable; mailbox = p.mailbox ++ frag ∷ [] }) k),
)
deliver_process me to frag p _ k =
    (true, insert to (record p { mailbox = p.mailbox ++ frag ∷ [] }) k)

unfoldable pub deliver_fragment : ℕ → (to : Pid) → Fragment → Kernel → Bool × Kernel
unfolding deliver_process
deliver_fragment me to frag k = elim (k.table to) [
  | none ↦ (false, k)
  | some p ↦ deliver_process me to frag p p.state k
]
