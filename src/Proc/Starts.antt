-- ===== src/Proc/Starts.antt =====
-- Lemmas on the start of a process, monitors and the exit of a process (kernel/src/proc.rs), against
-- the scheduler's invariant.
use mathlib.Core.Path.{subst}
use yggdrasil.Atoms.{Text}
use yggdrasil.Term.Store.{Memory}
use yggdrasil.FrameBitmap.{Run}
use yggdrasil.Proc.Span.{ProcHeap}
use yggdrasil.Proc.Signals.{noproc, deliver_down, monitor}
use yggdrasil.Proc.Spawn.{linked, numbered, spawn_inner}
use yggdrasil.Proc.Sched.{exit, honour_kill}
use yggdrasil.Proc.{Pid, State, Process, Kernel, insert, is_dead, enqueue}
use yggdrasil.Proc.Count.{queued, on}
use yggdrasil.Proc.Inv.{
  StateFits, Fits, Inv, Moves-trans, put_self, put-ne, put-Moves, Moves-Inv, Moves-Inv_lt, Enqueued,
  enqueue_lem,
}
use yggdrasil.Proc.Keeps.{Keeps, Keeps-trans, Keeps-refl, quiet-Keeps, insert-Keeps}
use yggdrasil.Proc.Reaps.{deliver_down-Kept}
use yggdrasil.Proc.Dispatch.{Done}
use yggdrasil.Proc.OnCore.{OnCore}
use yggdrasil.Prelude.{
  ℕ, ◌+◌, ◌-◌, ◌*◌, ◌%◌, ◌^◌, ◌<◌, ◌≡◌, refl, sym, ap, ◌∙◌, ◌⊎◌, inl, inr, Option, none, some, [],
  ◌∷◌, ◌++◌, arith, Bool-cases, Option-cases, length, ok, ◌>>=◌,
}

-- the link of a child keeps everything in its place
linked-Keeps : (l : Option Pid) (x : Pid) (k : Kernel) → Inv k → Keeps k (linked l x k).1
linked-Keeps none x k inv = Keeps-refl inv
linked-Keeps (some parent) x k inv = elim (Option-cases (k.table parent)) [
  | inl e ↦ rw (e, linked) (Keeps-refl inv)
  | inr (p, e) ↦
      rw (e, linked)
        (insert-Keeps parent p (record p { links = p.links ++ x ∷ [] }) k e inv (λ q r h. h))
]

linked-cpus : (l : Option Pid) (x : Pid) (k : Kernel) → (linked l x k).1.cpus ≡ k.cpus
linked-cpus none x k = refl
linked-cpus (some parent) x k = elim (Option-cases (k.table parent)) [
  | inl e ↦ rw (e, linked) refl
  | inr (p, e) ↦ rw (e, linked) refl
]

linked-table :
    (l : Option Pid) (x : Pid) (k : Kernel) → k.table x ≡ none → (linked l x k).1.table x ≡ none
linked-table none x k h = h
linked-table (some parent) x k h = elim (Option-cases (k.table parent)) [
  | inl e ↦ rw (e, linked) h
  | inr (p, e) ↦
      rw (e, linked)
        (put-ne parent x (some (record p { links = p.links ++ x ∷ [] })) k
            (λ s. cc (sym h ∙ ap k.table s ∙ e))
          ∙ h)
]

-- a new process, whose number is taken but not in use, goes into the table and a queue
placed-Inv :
    (me : ℕ) (x : Pid) (p : Process) (k : Kernel)
    → me < length k.cpus
    → x < k.next_pid
    → k.table x ≡ none
    → queued x k.cpus ≡ 0
    → p.state ≡ State.runnable
    → Inv k
    → Inv (enqueue me x (insert x p k))
placed-Inv me x p k lt taken at q0 es inv =
    let en : Enqueued x (insert x p k) (enqueue me x (insert x p k)) =
      enqueue_lem me x (insert x p k) lt in
    let there : (enqueue me x (insert x p k)).table x ≡ some p = en.table ∙ put_self x (some p) k in
    Moves-Inv_lt x k (enqueue me x (insert x p k)) (Moves-trans (put-Moves x (some p) k) en.moves)
      taken
      (λ nz.
        let r0 : on x k.cpus ≡ 0 =
          subst (λ o. Fits o (queued x k.cpus) (on x k.cpus)) at (inv.fits x nz) in
        let q = en.queued_more in
        rw (there, en.on_same, r0)
          (subst (λ s. StateFits s p.mailbox (queued x (enqueue me x (insert x p k)).cpus) 0)
            (sym es) (omega arith, refl)))
      inv

numbered-Inv :
    (rsp entry arg trampoline : ℕ) (k : Kernel)
    → k.next_pid + 1 < 2 ^ 62
    → Inv k
    → Inv (numbered rsp entry arg trampoline k)
numbered-Inv rsp entry arg trampoline k small inv = record {
  fits = inv.fits;
  fresh = λ y le. inv.fresh y (omega arith);
  started = omega arith;
  small = omega arith;
}

pub spawn_inner-Inv :
    (me trampoline slot top : ℕ) (heap : ProcHeap) (entry arg : ℕ) (l : Option Pid) (k : Kernel)
    → me < length k.cpus
    → k.next_pid + 1 < 2 ^ 62
    → Inv k
    → Inv (spawn_inner me trampoline slot top heap entry arg l k).1
unfolding spawn_inner
spawn_inner-Inv me trampoline slot top heap entry arg l k lt small inv =
    let x : Pid = k.next_pid in
    let k₁ : Kernel = numbered (top - 7 * 8) entry arg trampoline k in
    let (none_there, no_place) = inv.fresh x (omega arith) in
    let inv₁ : Inv k₁ = numbered-Inv (top - 7 * 8) entry arg trampoline k small inv in
    let kept = linked-Keeps l x k₁ inv₁ in
    let cs = linked-cpus l x k₁ in
    placed-Inv me x _ (linked l x k₁).1 (let c = kept.cores in omega arith)
      (let n = kept.next in omega arith) (linked-table l x k₁ none_there)
      (ap (queued x) cs ∙ no_place) refl kept.inv

pub monitor-Done :
    (place : ℕ → Memory → ℕ) (me : ℕ) (current target : Pid) (k : Kernel)
    → me < length k.cpus
    → Inv k
    → Done k (monitor place me current target k)
unfolding monitor
monitor-Done place me current target k lt inv =
    let r : ℕ = k.next_ref in
    let k' : Kernel = record k { next_ref = (r + 1) % 2 ^ 64 } in
    let quiet = quiet-Keeps k k' (λ y. refl) refl refl inv in
    let down = deliver_down-Kept place me current r target noproc k' lt quiet.inv in
    let late : Run (ℕ × Kernel) =
      deliver_down place me current r target noproc k' >>= λ k''. ok (r, k'') in
    let late_Done : Done k late = record {
      result = (r, down.result);
      returned = ap (λ o. o >>= λ k''. ok (r, k'')) down.returned;
      keeps = Keeps-trans quiet down.keeps;
    } in
    elim (Option-cases (k.table target)) [
      | inl e ↦ rw (e, monitor) late_Done
      | inr (p, e) ↦ elim (Bool-cases (is_dead p.state)) [
        | inl b ↦ rw (e, monitor, b) late_Done
        | inr b ↦
            rw (e, monitor, b)
              (record {
                result =
                    (r, insert target (record p { monitors = p.monitors ++ (r, current) ∷ [] }) k');
                returned = refl;
                keeps = Keeps-trans quiet (
                    insert-Keeps target p (record p { monitors = p.monitors ++ (r, current) ∷ [] })
                      k' e quiet.inv (λ q r h. h));
              })
      ]
    ]

-- A process on a core may be changed to one that is running or dead.
pub current-Keeps :
    (x : Pid) (k : Kernel) (h : OnCore x k) (p' : Process)
    → (p'.state ≡ State.running) ⊎ (p'.state ≡ State.dead)
    → Inv k
    → Keeps k (insert x p' k)
current-Keeps x k h p' goes inv = record {
  inv =
      Moves-Inv x k (insert x p' k) h.process (put-Moves x (some p') k) h.there
        (λ nz.
          rw (put_self x (some p') k, h.unqueued, h.alone)
            (elim goes [
              | inl e ↦ subst (λ s. StateFits s p'.mailbox 0 1) (sym e) (refl, refl)
              | inr e ↦ subst (λ s. StateFits s p'.mailbox 0 1) (sym e) (inr (refl, refl))
            ]))
        inv;
  cores = refl;
  next = refl;
}

-- A run that returns a kernel in which the invariant is kept.
pub exit-Kept :
    (x : Pid) (reason : Text) (k : Kernel)
    → OnCore x k
    → Inv k
    → (k' : Kernel) × (exit x reason k ≡ ok k') × Keeps k k'
unfolding exit
exit-Kept x reason k h inv = (
  insert x (record h.process { state = State.dead; exit_reason = reason }) k,
  rw (h.there, exit) refl,
  current-Keeps x k h (record h.process { state = State.dead; exit_reason = reason }) (inr refl)
      inv,
)

pub honour_kill-Kept :
    (x : Pid) (k : Kernel)
    → OnCore x k
    → Inv k
    → (k' : Kernel) × (honour_kill x k ≡ ok k') × Keeps k k'
unfolding honour_kill
honour_kill-Kept x k h inv = elim (Bool-cases h.process.kill_pending) [
  | inl b ↦ (
    insert x (record h.process { state = State.dead }) k,
    rw (h.there, honour_kill, b) refl,
    current-Keeps x k h (record h.process { state = State.dead }) (inr refl) inv,
  )
  | inr b ↦ (k, rw (h.there, honour_kill, b) refl, Keeps-refl inv)
]
