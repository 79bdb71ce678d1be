-- ===== src/Proc/Dispatch.antt =====
-- About looking up the process that was taken off a queue, in `run` (kernel/src/proc.rs).
use mathlib.Core.Path.{subst}
use yggdrasil.Term.Store.{Memory}
use yggdrasil.FrameBitmap.{Run}
use yggdrasil.Proc.{Pid, State, Process, Cpu, Kernel, put, insert, at_cpu}
use yggdrasil.Proc.Sched.{switched, reaped, skipped, dispatch_process, dispatch}
use yggdrasil.Proc.Count.{
  one_if, in_hand, holds, runs, queued, on, one_if-ne, one_if_self, total-at, total-same,
}
use yggdrasil.Proc.Inv.{
  Fits, Inv, Moves, Moves-trans, put_self, put-Moves, Moves-Inv, length-at_cpu,
}
use yggdrasil.Proc.Keeps.{Keeps, at-process, as_state}
use yggdrasil.Proc.Reaps.{reap-Reaped}
use yggdrasil.Prelude.{
  ℕ, zero, suc, ◌+◌, ◌%◌, ◌^◌, ◌<◌, ◌≡◌, refl, sym, ap, ◌∙◌, ◌≢◌, inl, inr, none, some, List, [],
  ◌∷◌, arith, ◌==◌, ==_iff, Bool-cases, Option-cases, length, get_elem?, ok, ◌>>=◌,
}

pub get-at_cpu :
    (cs : List Cpu) (i : ℕ) (c : Cpu) (f : Cpu → Cpu)
    → get_elem? cs i ≡ some c
    → get_elem? (at_cpu i f cs) i ≡ some (f c)
get-at_cpu [] i c f e = cc
get-at_cpu (d ∷ cs) zero c f e = let same : d ≡ c = cc in ap (λ c. some (f c)) same
get-at_cpu (d ∷ cs) (suc i) c f e = get-at_cpu cs i c f e

-- the kernel after the hand of the core `me` has been emptied
abbrev emptied : ℕ → Kernel → Kernel
emptied me k = record k { cpus = at_cpu me (λ c. record c { next = none }) k.cpus }

module _ (me : ℕ) (x : Pid) (k : Kernel) (c : Cpu) (e : get_elem? k.cpus me ≡ some c)
    (hand : c.next ≡ some x) where
  emptied-queued : (y : Pid) → queued y (emptied me k).cpus + one_if (x == y) ≡ queued y k.cpus
  emptied-queued y =
      let t = total-at (holds y) (λ c. record c { next = none }) k.cpus me c e in
      let h : holds y c ≡ holds y (record c { next = none }) + one_if (x == y) =
        (let g : in_hand y c.next ≡ one_if (x == y) = rw hand refl in omega arith) in
      omega arith

  emptied-on : (y : Pid) → on y (emptied me k).cpus ≡ on y k.cpus
  emptied-on y = total-same (runs y) (λ c. record c { next = none }) k.cpus me (λ c. refl)

  emptied-Moves : Moves x k (emptied me k)
  emptied-Moves = record {
    table = λ y n. refl;
    queued_same =
        λ y n. let q = emptied-queued y in let z = one_if-ne x y (λ s. n (sym s)) in omega arith;
    on_same = λ y n z. emptied-on y;
    next = refl;
    cores = length-at_cpu me (λ c. record c { next = none }) k.cpus;
  }

  one_less : queued x (emptied me k).cpus + 1 ≡ queued x k.cpus
  one_less = let q = emptied-queued x in let z = one_if_self x in omega arith

  -- nothing is done about the process
  skip-Keeps :
      Inv k
      → (x ≢ 0 → Fits (k.table x) (queued x (emptied me k).cpus) (on x k.cpus))
      → Keeps k (emptied me k)
  skip-Keeps inv fit = record {
    inv = record {
      fits = λ y nz. elim (Bool-cases (y == x)) [
        | inl b ↦
            let same : x ≡ y = sym ((==_iff y x).0 b) in
            subst (λ z. Fits (k.table z) (queued z (emptied me k).cpus) (on z (emptied me k).cpus))
              same (rw (emptied-on x) (fit (λ z. nz (sym same ∙ z))))
        | inr b ↦
            let n : y ≢ x = (λ s. cc (sym b ∙ (==_iff y x).1 s)) in
            rw (emptied-Moves.queued_same y n, emptied-on y) (inv.fits y nz)
      ];
      fresh = λ y le. let f = inv.fresh y le in let q = emptied-queued y in (f.0, omega arith);
      started = inv.started;
      small = inv.small;
    };
    cores = emptied-Moves.cores;
    next = refl;
  }

-- A run that returns a value and a kernel in which the invariant is kept.
pub record Done {A : Type 0} (k : Kernel) (o : Run (A × Kernel)) : Type 0 where
  pub result : A × Kernel
  pub returned : o ≡ ok result
  pub keeps : Keeps k result.1

module _ (place : ℕ → Memory → ℕ) (me : ℕ) (x : Pid) (k : Kernel) (c : Cpu)
    (lt : me < length k.cpus) (e : get_elem? k.cpus me ≡ some c) (hand : c.next ≡ some x)
    (idle : c.current ≡ 0) (inv : Inv k) where
  -- the core with the process that it goes on with
  abbrev busy : Cpu → Cpu
  busy c = record c { current = x; switches = (c.switches + 1) % 2 ^ 64 }

  abbrev started : Process → Kernel
  started p =
      insert x (record p { state = State.running })
        (record (emptied me k) { cpus = at_cpu me busy (emptied me k).cpus })

  started-on :
      (y : Pid) → y ≢ 0 → on y (at_cpu me busy (emptied me k).cpus) ≡ on y k.cpus + one_if (x == y)
  started-on y nz =
      let t =
        total-at (runs y) busy (emptied me k).cpus me (record c { next = none })
          (get-at_cpu k.cpus me c (λ c. record c { next = none }) e) in
      let same = emptied-on me x k c e hand y in
      let off : runs y c ≡ 0 = rw idle (one_if-ne 0 y (λ z. nz (sym z))) in omega arith

  started-queued :
      (y : Pid) → queued y (at_cpu me busy (emptied me k).cpus) ≡ queued y (emptied me k).cpus
  started-queued y = total-same (holds y) busy (emptied me k).cpus me (λ c. refl)

  started-Moves : (p : Process) → Moves x k (started p)
  started-Moves p =
      let m = emptied-Moves me x k c e hand in
      record {
        table = λ y n. (put-Moves x (some (record p { state = State.running })) k).table y n;
        queued_same = λ y n. started-queued y ∙ m.queued_same y n;
        on_same = λ y n z.
            let o = started-on y z in let w = one_if-ne x y (λ s. n (sym s)) in omega arith;
        next = refl;
        cores = length-at_cpu me busy (emptied me k).cpus ∙ m.cores;
      }

  started-Keeps :
      (p : Process) → k.table x ≡ some p → p.state ≡ State.runnable → Keeps k (started p)
  started-Keeps p at es = record {
    inv =
        Moves-Inv x k (started p) p (started-Moves p) at
          (λ nz.
            let (q1, r0) =
              as_state p es (queued x k.cpus) (on x k.cpus) (at-process x p inv at nz) in
            let less = one_less me x k c e hand in
            let o = started-on x nz in
            let s = one_if_self x in
            let q = started-queued x in
            rw
              (put_self x (some (record p { state = State.running }))
                (record (emptied me k) { cpus = at_cpu me busy (emptied me k).cpus }))
              (omega arith, omega arith))
          inv;
    cores = (started-Moves p).cores;
    next = refl;
  }

  -- A dead process in the hand runs on no core, and is removed.
  dead-Inv :
      (p : Process) → k.table x ≡ some p → p.state ≡ State.dead → Inv (put x none (emptied me k))
  dead-Inv p at es =
      Moves-Inv x k (put x none (emptied me k)) p
        (Moves-trans (emptied-Moves me x k c e hand) (put-Moves x none (emptied me k))) at
        (λ nz.
          rw (put_self x none (emptied me k))
            (elim (as_state p es (queued x k.cpus) (on x k.cpus) (at-process x p inv at nz)) [
              | inl (_, r) ↦ emptied-on me x k c e hand x ∙ r
              | inr (q, _) ↦ absurd (let less = one_less me x k c e hand in omega arith)
            ]))
        inv

  dispatch_process-Done :
      (p : Process) (s : State)
      → k.table x ≡ some p
      → p.state ≡ s
      → Done k (dispatch_process place me x p s (emptied me k))
  unfolding dispatch_process
  dispatch_process-Done p State.runnable at es = record {
    result = (switched p.rsp, started p);
    returned = refl;
    keeps = started-Keeps p at es;
  }
  dispatch_process-Done p State.dead at es =
      let len : me < length (emptied me k).cpus =
        (let l = (emptied-Moves me x k c e hand).cores in omega arith) in
      let r = reap-Reaped place me x p (emptied me k) len at (dead-Inv p at es) in
      record {
        result = (reaped r.result.0, r.result.1);
        returned = ap (λ o. o >>= λ (fin, k'). ok (reaped fin, k')) r.returned;
        keeps = record {
          inv = r.keeps.inv;
          cores = r.keeps.cores ∙ (emptied-Moves me x k c e hand).cores;
          next = r.keeps.next;
        };
      }
  dispatch_process-Done p State.waiting at es = record {
    result = (skipped, emptied me k);
    returned = refl;
    keeps = skip-Keeps me x k c e hand inv (λ nz.
        let (q, _, _) = as_state p es (queued x k.cpus) (on x k.cpus) (at-process x p inv at nz) in
        absurd (let less = one_less me x k c e hand in omega arith));
  }
  dispatch_process-Done p State.running at es = record {
    result = (skipped, emptied me k);
    returned = refl;
    keeps = skip-Keeps me x k c e hand inv (λ nz.
        let (q, _) = as_state p es (queued x k.cpus) (on x k.cpus) (at-process x p inv at nz) in
        absurd (let less = one_less me x k c e hand in omega arith));
  }

  -- Where the invariant holds, the scheduler's look-up of the process that it took off a run queue,
  -- on a core that runs nothing, returns, without a panic, and keeps the invariant.
  pub dispatch-Done : Done k (dispatch place me x k)
  unfolding dispatch
  dispatch-Done = elim (Option-cases (k.table x)) [
    | inl at ↦ record {
      result = (skipped, emptied me k);
      returned = rw (at, dispatch) refl;
      keeps =
          skip-Keeps me x k c e hand inv
            (λ nz. rw at (subst (λ o. Fits o (queued x k.cpus) (on x k.cpus)) at (inv.fits x nz)));
    }
    | inr (p, at) ↦ rw (at, dispatch) (dispatch_process-Done p p.state at refl)
  ]
