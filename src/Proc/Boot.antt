-- ===== src/Proc/Boot.antt =====
-- `percpu::init` (kernel/src/percpu.rs), the statics as they start, and the states that follow.
use yggdrasil.Term.Store.{Memory}
use yggdrasil.Proc.{Pid, Cpu, Kernel, u32_max}
use yggdrasil.Proc.Count.{queued, on, one_if-ne}
use yggdrasil.Proc.Inv.{Fits, Inv}
use yggdrasil.Proc.Steps.{Reach, Reach-Inv}
use yggdrasil.Prelude.{
  ℕ, zero, suc, ◌+◌, ◌≡◌, refl, sym, ◌≢◌, false, none, List, [], ◌∷◌, arith, ◌==◌, if◌then◌else◌,
}

-- the cores from `i` on
unfoldable pub init_from : (i count bsp_lapic_id : ℕ) → List Cpu
init_from i zero bsp = []
init_from i (suc n) bsp =
    record {
      id = i;
      lapic_id = if i == 0 then bsp else u32_max;
      current = 0;
      runq = [];
      next = none;
      switches = 0;
      idle = false;
    }
    ∷ init_from (i + 1) n bsp

unfoldable pub init : (count bsp_lapic_id : ℕ) → List Cpu
unfolding init_from
init count bsp = init_from 0 count bsp

abbrev pub boot : (count bsp_lapic_id : ℕ) → Memory → Kernel
boot count bsp m = record {
  table = λ x. none;
  wheel = [];
  next_pid = 1;
  next_ref = 1;
  monitor_at_spawn = none;
  cpus = init count bsp;
  ipis = [];
  ticks = 0;
  atoms = record { names = []; index = [] };
  mem = m;
}

init-queued : (x i n bsp : ℕ) → queued x (init_from i n bsp) ≡ 0
unfolding init_from
init-queued x i zero bsp = refl
init-queued x i (suc n) bsp = let q = init-queued x (i + 1) n bsp in omega arith

init-on : (x i n bsp : ℕ) → x ≢ 0 → on x (init_from i n bsp) ≡ 0
unfolding init_from
init-on x i zero bsp nz = refl
init-on x i (suc n) bsp nz =
    let z = one_if-ne 0 x (λ s. nz (sym s)) in let o = init-on x (i + 1) n bsp nz in omega arith

pub boot-Inv : (count bsp : ℕ) (m : Memory) → Inv (boot count bsp m)
unfolding init
boot-Inv count bsp m = record {
  fits = λ x nz. init-on x 0 count bsp nz;
  fresh = λ x le. (refl, init-queued x 0 count bsp);
  started = omega arith;
  small = omega arith;
}

-- After any sequence of steps of the cores from the start of the kernel: a runnable process is in
-- exactly one place of the run queues and on no core, a running one in no place and on exactly one
-- core, a waiting one in none, on none and without messages, a dead one is queued and on no core,
-- or not queued and on one core, and a process that is gone is on no core.
pub reachable-Fits :
    (place : ℕ → Memory → ℕ) (count bsp : ℕ) (m : Memory) (k : Kernel)
    → Reach place (boot count bsp m) k
    → (x : Pid) → x ≢ 0
    → Fits (k.table x) (queued x k.cpus) (on x k.cpus)
reachable-Fits place count bsp m k r x nz = (Reach-Inv place (boot-Inv count bsp m) r).fits x nz
