-- ===== src/Proc/Receive.antt =====
-- `recv_where` (kernel/src/proc.rs): one pass of its loop, under the table lock.
use yggdrasil.Term.{Term}
use yggdrasil.Term.Store.{Memory}
use yggdrasil.Term.Heap.{Heap, truncate_to, used_bytes}
use yggdrasil.Term.Copy.{copy_term}
use yggdrasil.FrameBitmap.{FrameBitmap, Run}
use yggdrasil.Proc.Span.{Bump, ProcHeap, grow}
use yggdrasil.Proc.Sched.{park}
use yggdrasil.Proc.{Pid, State, Fragment, Process, Kernel, insert, is_dead}
use yggdrasil.Prelude.{
  ℕ, zero, suc, ◌+◌, Bool, true, false, Option, none, some, List, [], ◌∷◌, leb, ok, err, panic,
  timeout, ◌>>=◌,
}

-- the newest span as the heap that `copy_term` allocates from, and back
abbrev pub heap_of : Bump → Memory → Heap
heap_of b m = record { mem = m; base = b.base; cap_words = b.cap_words; top = b.top }

abbrev pub bump_of : Heap → Bump
bump_of h = record { base = h.base; cap_words = h.cap_words; top = h.top }

pub data Scan : Type 0 where
  matched : (i : ℕ) → Term → Scan
  no_match : Scan
  quota_death : Scan

-- what a scan changes: the heap of the process, the memory and the frames
pub record Arena : Type 0 where
  pub heap : ProcHeap
  pub mem : Memory
  pub pmm : FrameBitmap

abbrev pub with_heap : Arena → Heap → Arena
with_heap a h = record a { heap = record a.heap { cur = bump_of h }; mem = h.mem }

module _ (hhdm fuel : ℕ) (pred : Memory → Term → Bool) where
  -- The messages from `i` on. A message is copied on trial, and the copy is dropped if the predicate
  -- does not hold; where the copy does not fit, the heap grows and the scan goes on with the next one.
  unfoldable pub scan : (i : ℕ) → List Fragment → Arena → Run (Scan × Arena)
  unfolding copy_term truncate_to used_bytes grow
  scan i [] a = ok (no_match, a)
  scan i (frag ∷ rest) a =
      let heap : Heap = heap_of a.heap.cur a.mem in
      elim (copy_term fuel frag.root heap) [
        | ok (c, heap') ↦ elim (pred heap'.mem c) [
          | true ↦ ok (matched i c, with_heap a heap')
          | false ↦ scan (i + 1) rest (with_heap a (truncate_to (used_bytes heap) heap'))
        ]
        | err _ ↦ do
          (b, h, pmm) ← grow hhdm a.heap a.pmm
          elim b [
            | true ↦ scan (i + 1) rest (record a { heap = h; pmm = pmm })
            | false ↦ ok (quota_death, record a { heap = h; pmm = pmm })
          ]
        | panic ↦ panic
        | timeout ↦ timeout
      ]

-- `p.mailbox.remove(i)`
abbrev pub remove_at {ℓ} : {A : Type ℓ} → ℕ → List A → List A
remove_at i [] = []
remove_at zero (x ∷ xs) = xs
remove_at (suc i) (x ∷ xs) = x ∷ remove_at i xs

-- what a pass of the loop comes to
pub data Received : Type 0 where
  killed : Received
  over_quota : Received
  got : Term → Received
  timed_out : Received
  blocked : Received

-- The process blocks, or gives up when its deadline has passed.
unfoldable pub wait : Pid → (deadline : Option ℕ) → Kernel → Received × Kernel
unfolding park
wait pid none k = (blocked, k)
wait pid (some d) k = elim (leb d k.ticks) [
  | true ↦ (timed_out, k)
  | false ↦ (blocked, record k { wheel = park d pid k.wheel })
]

-- After the scan: the message leaves the mailbox; a process over its quota exits.
unfoldable pub conclude : Pid → Process → (deadline : Option ℕ) → Scan → Kernel → Received × Kernel
unfolding wait
conclude pid p deadline (matched i c) k =
    (got c, insert pid (record p { mailbox = remove_at i p.mailbox }) k)
conclude pid p deadline quota_death k = (over_quota, insert pid p k)
conclude pid p deadline no_match k = wait pid deadline (insert pid p k)

-- a process that has no pending kill
unfoldable pub receive_alive :
    (hhdm fuel : ℕ) (pred : Memory → Term → Bool)
    → Pid
    → Process
    → (deadline : Option ℕ) → Kernel
    → FrameBitmap
    → Run ((Received × Kernel) × FrameBitmap)
unfolding scan conclude
receive_alive hhdm fuel pred pid p deadline k pmm = do
  (r, a) ← scan hhdm fuel pred 0 p.mailbox (record { heap = p.heap; mem = k.mem; pmm = pmm })
  ok (conclude pid (record p { heap = a.heap }) deadline r (record k { mem = a.mem }), a.pmm)

-- by whether the process has a pending kill, and whether it is dead
unfoldable pub receive_by :
    (hhdm fuel : ℕ) (pred : Memory → Term → Bool)
    → Pid
    → Process
    → (pending gone : Bool) → (deadline : Option ℕ) → Kernel
    → FrameBitmap
    → Run ((Received × Kernel) × FrameBitmap)
unfolding receive_alive
receive_by hhdm fuel pred pid p true gone deadline k pmm =
    ok ((killed, insert pid (record p { state = State.dead }) k), pmm)
receive_by hhdm fuel pred pid p false true deadline k pmm = ok ((killed, k), pmm)
receive_by hhdm fuel pred pid p false false deadline k pmm =
    receive_alive hhdm fuel pred pid p deadline k pmm

unfoldable pub recv_pass :
    (hhdm fuel : ℕ) (pred : Memory → Term → Bool)
    → Pid
    → (deadline : Option ℕ) → Kernel
    → FrameBitmap
    → Run ((Received × Kernel) × FrameBitmap)
unfolding receive_by
recv_pass hhdm fuel pred pid deadline k pmm = elim (k.table pid) [
  | none ↦ panic
  | some p ↦ receive_by hhdm fuel pred pid p p.kill_pending (is_dead p.state) deadline k pmm
]
