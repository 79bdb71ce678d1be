-- ===== src/Proc/Spawn.antt =====
-- kernel/src/proc.rs: the start of a process. `entry`, `trampoline` are addresses of code; the slot
-- and the top of the stack come from `map_stack`, the heap from `ProcHeap::new`.
use yggdrasil.Term.Store.{write_words}
use yggdrasil.Proc.Span.{ProcHeap}
use yggdrasil.Proc.Signals.{normal}
use yggdrasil.Proc.{Pid, State, Process, Kernel, insert, enqueue}
use yggdrasil.Prelude.{ℕ, ◌+◌, ◌-◌, ◌*◌, ◌%◌, ◌^◌, false, Option, none, some, List, [], ◌∷◌, ◌++◌}

-- the seven words that a fresh stack holds: r15, r14, r13, r12, rbx, rbp and the return address
abbrev seed : (entry arg trampoline : ℕ) → List ℕ
seed entry arg trampoline = 0 ∷ 0 ∷ 0 ∷ arg ∷ entry ∷ 0 ∷ trampoline ∷ []

abbrev pub monitors_of : Option (ℕ × Pid) → List (ℕ × Pid)
monitors_of none = []
monitors_of (some m) = m ∷ []

-- The child's links, and the table in which the parent, if it is there, has the link.
abbrev pub linked : Option Pid → (child : Pid) → Kernel → List Pid × Kernel
linked none child k = ([], k)
linked (some parent) child k = elim (k.table parent) [
  | none ↦ ([], k)
  | some p ↦ (parent ∷ [], insert parent (record p { links = p.links ++ child ∷ [] }) k)
]

-- the kernel with the stack seeded, the number of the child taken and the waiting monitor consumed
abbrev pub numbered : (rsp entry arg trampoline : ℕ) → Kernel → Kernel
numbered rsp entry arg trampoline k = record k {
  mem = write_words k.mem rsp (seed entry arg trampoline);
  next_pid = (k.next_pid + 1) % 2 ^ 64;
  monitor_at_spawn = none;
}

-- `spawn_inner`, once the stack and the heap are there
unfoldable pub spawn_inner :
    (me trampoline : ℕ) (slot top : ℕ)
    → ProcHeap
    → (entry arg : ℕ) → (link_to : Option Pid) → Kernel
    → Pid × Kernel
unfolding enqueue
spawn_inner me trampoline slot top heap entry arg link_to k =
    let rsp : ℕ = top - 7 * 8 in
    let pid : Pid = k.next_pid in
    let r = linked link_to pid (numbered rsp entry arg trampoline k) in
    let p : Process = record {
      state = State.runnable;
      rsp = rsp;
      stack_slot = slot;
      heap = heap;
      mailbox = [];
      kill_pending = false;
      links = r.0;
      monitors = monitors_of k.monitor_at_spawn;
      exit_reason = normal;
    } in
    (pid, enqueue me pid (insert pid p r.1))

-- `spawn_monitor`: the monitor waits in a static until the next `spawn_inner`, of any core.
unfoldable pub spawn_monitor_start : (current : Pid) → Kernel → ℕ × Kernel
spawn_monitor_start current k = (
  k.next_ref,
  record k { next_ref = (k.next_ref + 1) % 2 ^ 64; monitor_at_spawn = some (k.next_ref, current) },
)
