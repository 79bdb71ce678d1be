-- ===== src/Proc/Tests.antt =====
-- The scheduler with one core and one process, and a process with mail.
use yggdrasil.Term.Store.{Memory}
use yggdrasil.FrameBitmap.{FrameBitmap}
use yggdrasil.FrameBitmap.View.{used, count_free, IsValid}
use yggdrasil.Proc.Quota.{IsWithin, Grown, grow_lem}
use yggdrasil.Proc.Span.{grow}
use yggdrasil.Proc.Span.{ProcHeap}
use yggdrasil.Proc.Signals.{reap, Finalize}
use yggdrasil.Proc.Spawn.{spawn_inner}
use yggdrasil.Proc.Sched.{switched, take_next, dispatch, after_switch, yields}
use yggdrasil.Proc.{State, Process, Cpu, Kernel, put, insert, mark_dead}
use yggdrasil.Proc.Count.{queued, on}
use yggdrasil.Proc.Inv.{Fits, Inv}
use yggdrasil.Proc.Steps.{Reach, here, next, spawn, take, look_up, Reach-Inv}
use yggdrasil.Proc.Boot.{init, boot, boot-Inv, reachable-Fits}
use yggdrasil.Proc.Dispatch.{Done, dispatch-Done}
use yggdrasil.Proc.Leave.{after_switch-Done}
use yggdrasil.Proc.Links.{Cleared, reap_lem}
use yggdrasil.FrameBitmap.{Run}
use yggdrasil.Term.{tuple_arity, kind, box_kind}
use yggdrasil.Term.Tags.{Kind}
use yggdrasil.Term.Shapes
use yggdrasil.Term.Shapes.{Data}
use yggdrasil.Proc.Scan.{FreeApart}
use yggdrasil.FrameBitmap.{addr_of}
use yggdrasil.Term.Store.{write_word, read_word}
use yggdrasil.Proc.Receive.{Received, got, recv_pass}
use yggdrasil.Proc.Pass.{Passed, recv_pass_lem}
use yggdrasil.Proc.{Fragment}
use yggdrasil.Prelude.{
  ◌⊎◌, inr, suc, zero, ℕ, ◌==◌, if◌then◌else◌, Option, List, ℕ, ◌<◌, ◌^◌, replicate, false, true,
  ◌≡◌, refl, inl, some, none, [], ◌∷◌, arith, ok, length, get_elem?,
}

place : ℕ → Memory → ℕ
place words m = 4096

abbrev heap : ProcHeap
heap = record {
  cur = record { base = 8192; cap_words = 512; top = 0 };
  spans = (8192, 1) ∷ [];
  max_pages = 4;
  total_pages = 1;
}

abbrev booted : Kernel
booted = boot 1 0 (λ a. 0)

abbrev spawned : Kernel
spawned = (spawn_inner 0 100 0 65536 heap 200 7 none booted).1

core_there : 0 < length booted.cpus
unfolding init
core_there = omega arith

with_process : Reach place booted spawned
with_process = next here (spawn 0 100 0 65536 heap 200 7 none core_there (omega arith) refl)

reachable-Fits_example : Fits (spawned.table 1) (queued 1 spawned.cpus) (on 1 spawned.cpus)
reachable-Fits_example = reachable-Fits place 1 0 (λ a. 0) spawned with_process 1 (λ e. cc)

abbrev waiting_core : Cpu
waiting_core = record {
  id = 0;
  lapic_id = 0;
  current = 0;
  runq = 1 ∷ [];
  next = none;
  switches = 0;
  idle = false;
}

spawned_core : get_elem? spawned.cpus 0 ≡ some waiting_core
unfolding init spawn_inner
spawned_core = refl

abbrev taken : Kernel
taken = take_next 0 spawned

abbrev holding_core : Cpu
holding_core = record waiting_core { runq = []; next = some 1 }

taken_core : get_elem? taken.cpus 0 ≡ some holding_core
unfolding init spawn_inner take_next
taken_core = refl

spawned_length : 0 < length spawned.cpus
unfolding init spawn_inner
spawned_length = omega arith

taken_length : 0 < length taken.cpus
unfolding init spawn_inner take_next
taken_length = omega arith

with_hand : Reach place booted taken
with_hand = next with_process (take 0 waiting_core (spawned_length, spawned_core) refl refl)

taken-Inv : Inv taken
taken-Inv = Reach-Inv place (boot-Inv 1 0 (λ a. 0)) with_hand

dispatch-Done_example : Done taken (dispatch place 0 1 taken)
dispatch-Done_example =
    dispatch-Done place 0 1 taken holding_core taken_length taken_core refl refl taken-Inv

abbrev process : Process
process = record {
  state = State.running;
  rsp = 65480;
  stack_slot = 0;
  heap = heap;
  mailbox = [];
  kill_pending = false;
  links = [];
  monitors = [];
  exit_reason = 110 ∷ [];
}

abbrev busy_core : Cpu
busy_core = record holding_core { current = 1; next = none; switches = 1 }

abbrev running : Kernel
running =
    insert 1 (record process { exit_reason = 110 ∷ 111 ∷ 114 ∷ 109 ∷ 97 ∷ 108 ∷ [] })
      (record taken { cpus = busy_core ∷ [] })

dispatched : dispatch place 0 1 taken ≡ ok (switched 65480, running)
unfolding init spawn_inner take_next dispatch
dispatched = refl

running-Inv : Inv running
running-Inv = Reach-Inv place (boot-Inv 1 0 (λ a. 0)) (
    next with_hand
      (look_up 0 holding_core 1 (switched 65480) (taken_length, taken_core) refl refl dispatched))

after_switch-Done_example : Done running (after_switch place 0 1 (yields 1) running)
after_switch-Done_example =
    after_switch-Done 0 1 running busy_core (omega arith) refl refl (λ e. cc) running-Inv place
      (yields 1) (inl refl)

-- a dead process that is linked to one that waits
abbrev pair : Kernel
pair =
    insert 1 (record process { state = State.dead; links = 2 ∷ [] })
      (insert 2 (record process { state = State.waiting }) booted)

pair_reaped :
    reap place 0 1 pair
    ≡ ok (
      record { pid = 1; stack_slot = 0; heap_spans = (8192, 1) ∷ [] },
      mark_dead 0 2 (110 ∷ []) (put 1 none pair),
    )
unfolding reap
pair_reaped = refl

reap_lem_example :
    (fin : Finalize) × (k' : Kernel) × (reap place 0 1 pair ≡ ok (fin, k'))
    × Cleared place 0 1 (record process { state = State.dead; links = 2 ∷ [] }) pair k'
reap_lem_example =
    reap_lem place 0 1 (record process { state = State.dead; links = 2 ∷ [] }) pair refl

abbrev four : FrameBitmap
four = record {
  bits = (true ∷ false ∷ false ∷ false ∷ replicate 60 true) ∷ [];
  base = 2 ^ 20;
  nframes = 4;
  cursor = 0;
  free = 3;
}

four-IsValid : IsValid four
unfolding used count_free
four-IsValid = record {
  covered = omega arith;
  sized = (refl, tt);
  counted = refl;
  cursor_in = λ p. omega arith;
  aligned = refl;
  fits = omega arith;
}

heap-IsWithin : IsWithin heap
heap-IsWithin = record { counted = refl; some_pages = omega arith; quota = omega arith }

grow_lem_example : Grown 0 heap four (grow 0 heap four)
grow_lem_example = grow_lem 0 heap four heap-IsWithin four-IsValid

-- a message of a tuple of one element, and one of an immediate
abbrev boxed : Fragment
boxed = record { backing = 0; words = 2; root = 64 }

abbrev immediate : Fragment
immediate = record { backing = 0; words = 1; root = 5 }

abbrev with_tuple : Memory
with_tuple a = if a == 64 then 8 else if a == 72 then 5 else 0

abbrev reader : ProcHeap → Process
reader h = record process { heap = h; mailbox = boxed ∷ immediate ∷ [] }

abbrev with_mail : ProcHeap → Kernel
with_mail h = insert 1 (reader h) (record booted { mem = with_tuple })

-- no room is left for the copy of the tuple, and the heap grows
abbrev full_heap : ProcHeap
full_heap = record heap { cur = record heap.cur { top = 512 } }

full_heap-IsWithin : IsWithin full_heap
full_heap-IsWithin = record { counted = refl; some_pages = omega arith; quota = omega arith }

-- the words of the tuple
abbrev Mine : ℕ → Type 0
Mine q = (q ≡ 64) ⊎ (q ≡ 72)

five : (n d : ℕ) → n ≡ 5 → Data with_tuple Mine (suc d) n
unfolding kind
five n d e = rw e (Shapes.immediate Kind.nil (inl (λ m. refl)) refl)

boxed_whole : Data with_tuple Mine 3 64
unfolding kind box_kind tuple_arity read_word
boxed_whole = Shapes.tuple (inr (refl, inl refl, refl)) (inl refl) (inr refl, five _ 1 refl, tt)

mail_whole :
    (j : ℕ) (frag : Fragment)
    → get_elem? (boxed ∷ immediate ∷ []) j ≡ some frag
    → Data with_tuple Mine 3 frag.root
mail_whole zero frag e = let same : boxed ≡ frag = cc in rw (← same) boxed_whole
mail_whole (suc zero) frag e = let same : immediate ≡ frag = cc in rw (← same) (five 5 2 refl)
mail_whole (suc (suc j)) frag e = cc

four_apart : FreeApart 0 Mine four
unfolding addr_of
four_apart n s run q mine = let within = run.within in omega (arith, mine)

recv_pass_lem_example :
    Passed 3
      (λ m t. true)
      1
      (reader full_heap)
      (recv_pass 0 3 (λ m t. true) 1 none (with_mail full_heap) four)
recv_pass_lem_example =
    recv_pass_lem 0 3 (λ m t. true) 1 (reader full_heap) none (with_mail full_heap) four Mine refl
      full_heap-IsWithin four-IsValid mail_whole (λ q mine. omega (arith, mine)) four_apart

abbrev mail_left : Run ((Received × Kernel) × FrameBitmap) → Option (Received × List Fragment)
mail_left (ok ((r, k), b)) = elim (k.table 1) [ none ↦ none | some p ↦ some (r, p.mailbox) ]
mail_left _ = none

-- the copy of the tuple is given
first_given :
    mail_left (recv_pass 0 3 (λ m t. true) 1 none (with_mail heap) four)
    ≡ some (got 8192, immediate ∷ [])
unfolding recv_pass tuple_arity write_word
first_given = refl

-- the heap grows, and the scan goes on with the second message
second_given :
    mail_left (recv_pass 0 3 (λ m t. true) 1 none (with_mail full_heap) four)
    ≡ some (got 5, boxed ∷ [])
unfolding recv_pass tuple_arity
second_given = refl
