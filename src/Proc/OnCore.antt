-- ===== src/Proc/OnCore.antt =====
-- Lemmas on the process that a core runs (kernel/src/proc.rs).
use mathlib.Core.Path.{subst}
use yggdrasil.Proc.{Pid, State, Process, Cpu, Kernel}
use yggdrasil.Proc.Count.{runs, queued, on, one_if_self, get_elem?-total}
use yggdrasil.Proc.Inv.{StateFits, Fits, Inv}
use yggdrasil.Proc.Keeps.{at-process}
use yggdrasil.Prelude.{ℕ, ◌≤◌, ◌≡◌, refl, ◌≢◌, ◌⊎◌, inl, inr, some, arith, Option-cases, get_elem?}

-- Whoever runs on a core is running or dead, stands in no queue and runs on that core alone.
pub record OnCore (x : Pid) (k : Kernel) : Type 0 where
  pub process : Process
  pub there : k.table x ≡ some process
  pub going : (process.state ≡ State.running) ⊎ (process.state ≡ State.dead)
  pub unqueued : queued x k.cpus ≡ 0
  pub alone : on x k.cpus ≡ 1

OnCore-at :
    (x : Pid) (k : Kernel) (p : Process) (s : State)
    → k.table x ≡ some p
    → p.state ≡ s
    → 1 ≤ on x k.cpus
    → StateFits s p.mailbox (queued x k.cpus) (on x k.cpus)
    → OnCore x k
OnCore-at x k p State.running at es b (q0, r1) = record {
  process = p;
  there = at;
  going = inl es;
  unqueued = q0;
  alone = r1;
}
OnCore-at x k p State.dead at es b (inr (q0, r1)) = record {
  process = p;
  there = at;
  going = inr es;
  unqueued = q0;
  alone = r1;
}
OnCore-at x k p State.dead at es b (inl (q1, r0)) = absurd (omega arith)
OnCore-at x k p State.runnable at es b (q1, r0) = absurd (omega arith)
OnCore-at x k p State.waiting at es b (q0, r0, m) = absurd (omega arith)

pub on_core :
    (me : ℕ) (x : Pid) (k : Kernel) (c : Cpu)
    → get_elem? k.cpus me ≡ some c
    → c.current ≡ x
    → x ≢ 0
    → Inv k
    → OnCore x k
on_core me x k c e mine nz inv =
    let le = get_elem?-total (runs x) k.cpus me c e in
    let self : runs x c ≡ 1 = rw mine (one_if_self x) in
    let b : 1 ≤ on x k.cpus = omega arith in
    elim (Option-cases (k.table x)) [
      | inl at ↦
          let r : on x k.cpus ≡ 0 =
            subst (λ o. Fits o (queued x k.cpus) (on x k.cpus)) at (inv.fits x nz) in
          absurd (omega arith)
      | inr (p, at) ↦ OnCore-at x k p p.state at refl b (at-process x p inv at nz)
    ]
