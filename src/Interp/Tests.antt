-- ===== src/Interp/Tests.antt =====
-- The interpreter at a function that spawns another of its module, and a kernel with no other module
-- and no ports, whose `spawn` refuses a number that is no function of the module, as that of
-- kernel/src/modload.rs does.
use yggdrasil.Bytecode.{Function, Module}
use yggdrasil.Bytecode.Op.{of_opcode, load_nil}
use yggdrasil.Bytecode.Layout
use yggdrasil.Bytecode.Skip.{skip_operands}
use yggdrasil.Term.{Term, nil_term, pid}
use yggdrasil.Term.Heap.{Heap}
use yggdrasil.Verify.{verify, verify_instr}
use yggdrasil.Verify.Cursor.{read_u8, read_u32}
use yggdrasil.Interp.Api.{Trap, badarg, bad_code, SystemApi, State, Act}
use yggdrasil.Interp.Run.{run_function, step, group}
use yggdrasil.Interp.Reads.{Clean, ok-Clean, err-Clean, badarg_ne}
use yggdrasil.Interp.Arms.{NeverBadCode}
use yggdrasil.Interp.Control.{Continues}
use yggdrasil.Verify.Flow.{Flow, fall, Reach, entry}
use yggdrasil.Verify.Flow
use yggdrasil.Verify.Safety.{SafeAt, verify-SafeAt}
use yggdrasil.Interp.Safety.{step-Goes, run_function-Clean}
use yggdrasil.Prelude.{
  List, ℕ, Option, none, Outcome, err, ◌+◌, zero, suc, ◌<◌, ◌^◌, ◌≡◌, refl, some, [], ◌∷◌, arith,
  false, length, get_elem?, ok,
}

abbrev child : Function
child = record { name_atom = 0; arity = 1; nregs = 1; code = 19 ∷ 0 ∷ [] }

-- load_nil r0; spawn r0, function 1, r0; ret r0
abbrev parent : Function
parent = record {
  name_atom = 0;
  arity = 0;
  nregs = 1;
  code = 3 ∷ 0 ∷ 20 ∷ 0 ∷ 1 ∷ 0 ∷ 0 ∷ 0 ∷ 0 ∷ 19 ∷ 0 ∷ [];
}

abbrev family : Module
family = record { atoms = (109 ∷ []) ∷ []; functions = parent ∷ child ∷ [] }

record Machine : Type 0 where
  heap : Heap
  next_pid : ℕ
  stash : Option (ℕ × List Term)

abbrev spawn_at : Option Function → Machine → Outcome Trap ℕ × Machine
spawn_at none w = (err bad_code, w)
spawn_at (some g) w = (ok w.next_pid, record w { next_pid = w.next_pid + 1 })

abbrev lone : SystemApi Machine
lone = record {
  heap = λ w. w.heap;
  put_heap = λ h w. record w { heap = h };
  self_pid = λ w. 1;
  send = λ to msg w. (ok tt, w);
  recv = λ w. (ok nil_term, w);
  spawn = λ i arg w. spawn_at (get_elem? family.functions i) w;
  safepoint = λ w. w;
  atom_global = λ a w. (a, w);
  print = λ t w. w;
  port_open = λ kind w. (err badarg, w);
  port_submit = λ port op a tag w. (err badarg, w);
  call_ext = λ m f args w. (err badarg, w);
  buf_to_bin = λ id w. (err badarg, w);
  bin_to_buf = λ bin w. (err badarg, w);
  heap_grow = λ w. (false, w);
  tail_call = λ m f args w. record w { stash = some (f, args) };
  tail_call_local = λ i args w. record w { stash = some (i, args) };
  buf_write = λ b off bin w. (err badarg, w);
  buf_new = λ size w. (err badarg, w);
  buf_read = λ b off len w. (err badarg, w);
  sleep_ms = λ ms w. w;
  ticks = λ w. nil_term;
  port_submit2 = λ port op a b tag w. (err badarg, w);
}

refused : {A : Type 0} → Clean {A = A} (err badarg)
refused = err-Clean badarg badarg_ne

lone-NeverBadCode : NeverBadCode family lone
lone-NeverBadCode = record {
  send = λ to msg w. ok-Clean tt;
  recv = λ w. ok-Clean nil_term;
  spawn = λ i g e one arg w. rw e (ok-Clean w.next_pid);
  port_open = λ kind w. refused;
  port_submit = λ port op a tag w. refused;
  port_submit2 = λ port op a b tag w. refused;
  call_ext = λ m f args w. refused;
  buf_to_bin = λ id w. refused;
  bin_to_buf = λ bin w. refused;
  buf_write = λ b off bin w. refused;
  buf_new = λ size w. refused;
  buf_read = λ b off len w. refused;
}

accepted : verify family ≡ ok tt
unfolding verify verify_instr read_u8 read_u32 of_opcode
accepted = refl

short : (i : ℕ) (f : Function) → get_elem? family.functions i ≡ some f → length f.code < 2 ^ 64
short zero f e = let same : parent ≡ f = cc in rw (← same) (omega arith)
short (suc zero) f e = let same : child ≡ f = cc in rw (← same) (omega arith)
short (suc (suc i)) f e = cc

abbrev start : State Machine
start = record {
  frame = record { code = []; pc = 0; regs = [] };
  world = record {
    heap = record { mem = λ a. 0; base = 4096; cap_words = 8; top = 0 };
    next_pid = 7;
    stash = none;
  };
}

-- The function returns the process that it has spawned.
parent_run : (run_function lone family 5 0 [] start).0 ≡ ok (pid 7)
unfolding run_function of_opcode group
parent_run = refl

run_function-Clean_example : Clean (run_function lone family 5 0 [] start).0
run_function-Clean_example =
    run_function-Clean family lone lone-NeverBadCode accepted short 5 0 parent [] start refl

abbrev answers : ℕ → List Term → Act Machine Term
answers i args s = (ok nil_term, s)

second : Reach parent.code 2
unfolding of_opcode skip_operands Layout.falls_through
second = Flow.step entry (fall load_nil 3 refl refl refl refl)

spawn_SafeAt : SafeAt family parent 2
spawn_SafeAt = verify-SafeAt family 0 parent accepted refl (omega arith) second

step-Goes_example : Continues parent.code (λ n. Flow parent.code 2 n) 2 (step lone 5 answers)
step-Goes_example =
    step-Goes family lone lone-NeverBadCode parent 2 (omega arith) spawn_SafeAt 5 answers
      (λ i g args e s. (refl, refl))
