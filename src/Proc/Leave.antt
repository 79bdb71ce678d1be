-- ===== src/Proc/Leave.antt =====
-- About what the scheduler does when a process has switched back to it, in `run`
-- (kernel/src/proc.rs).
use yggdrasil.Term.Store.{Memory}
use yggdrasil.Proc.{
  Pid, State, Fragment, Process, Cpu, Kernel, put, insert, at_cpu, is_dead, enqueue,
}
use yggdrasil.Proc.Sched.{settled, requeue, block, post_switch, after_switch, yields, blocks}
use yggdrasil.Proc.Count.{
  one_if, holds, runs, queued, on, one_if-ne, one_if_self, total-at, total-same,
}
use yggdrasil.Proc.Inv.{
  StateFits, Inv, Moves, Moves-trans, put_self, put-Moves, Moves-Inv, taken, length-at_cpu,
  Enqueued, enqueue_lem,
}
use yggdrasil.Proc.Reaps.{reap-Reaped}
use yggdrasil.Proc.Dispatch.{Done}
use yggdrasil.Proc.OnCore.{OnCore, on_core}
use yggdrasil.Prelude.{
  ℕ, ◌+◌, ◌/◌, ◌%◌, ◌^◌, ◌<◌, ◌≡◌, refl, sym, ap, ◌∙◌, ◌≢◌, ◌⊎◌, inl, inr, true, false, none, some,
  List, [], ◌∷◌, arith, ◌==◌, Bool-cases, Option-cases, length, get_elem?,
}

-- The process is off its core: dead, or at another place that fits.
record Off (x : Pid) (k k' : Kernel) : Type 0 where
  moves : Moves x k k'
  process : Process
  there : k'.table x ≡ some process
  off : on x k'.cpus ≡ 0
  fits :
      (is_dead process.state ≡ true)
      ⊎ ((is_dead process.state ≡ false)
          × StateFits process.state process.mailbox (queued x k'.cpus) 0)

-- The transitions, from a kernel in which the process is in no queue and on no core.
module _ (me : ℕ) (x : Pid) (k : Kernel) (lt : me < length k.cpus) (unqueued : queued x k.cpus ≡ 0)
    (off : on x k.cpus ≡ 0) where
  again : (q : Process) → Off x k (enqueue me x (insert x (record q { state = State.runnable }) k))
  again q =
      let p : Process = record q { state = State.runnable } in
      let en : Enqueued x (insert x p k) (enqueue me x (insert x p k)) =
        enqueue_lem me x (insert x p k) lt in
      record {
        moves = Moves-trans (put-Moves x (some p) k) en.moves;
        process = p;
        there = en.table ∙ put_self x (some p) k;
        off = en.on_same ∙ off;
        fits = inr (refl, ((let m = en.queued_more in omega arith), refl));
      }

  done : (q : Process) → q.state ≡ State.dead → Off x k (insert x q k)
  done q e = record {
    moves = put-Moves x (some q) k;
    process = q;
    there = put_self x (some q) k;
    off = off;
    fits = inl (rw e refl);
  }

  requeue-Off :
      (q : Process) (s : State)
      → q.state ≡ s
      → (s ≡ State.running) ⊎ (s ≡ State.dead)
      → Off x k (requeue me x q s k)
  unfolding requeue
  requeue-Off q State.running e h = again q
  requeue-Off q State.dead e h = done q e
  requeue-Off q State.runnable e (inl h) = cc
  requeue-Off q State.runnable e (inr h) = cc
  requeue-Off q State.waiting e (inl h) = cc
  requeue-Off q State.waiting e (inr h) = cc

  waits :
      (q : Process) (mail : List Fragment)
      → q.mailbox ≡ mail
      → Off x k (
          let r : Kernel = elim mail [
            | [] ↦ insert x (record q { state = State.waiting }) k
            | _ ∷ _ ↦ enqueue me x (insert x (record q { state = State.runnable }) k)
          ] in
          r)
  waits q [] e = record {
    moves = put-Moves x (some (record q { state = State.waiting })) k;
    process = record q { state = State.waiting };
    there = put_self x (some (record q { state = State.waiting })) k;
    off = off;
    fits = inr (refl, (unqueued, refl, e));
  }
  waits q (m ∷ mail) e = again q

  block-Off :
      (q : Process) (s : State)
      → q.state ≡ s
      → (s ≡ State.running) ⊎ (s ≡ State.dead)
      → Off x k (block me x q s k)
  unfolding block
  block-Off q State.running e h = waits q q.mailbox refl
  block-Off q State.dead e h = done q e
  block-Off q State.runnable e (inl h) = cc
  block-Off q State.runnable e (inr h) = cc
  block-Off q State.waiting e (inl h) = cc
  block-Off q State.waiting e (inr h) = cc

settled-state :
    (p : Process)
    → (p.state ≡ State.running) ⊎ (p.state ≡ State.dead)
    → ((settled p).state ≡ State.running) ⊎ ((settled p).state ≡ State.dead)
settled-state p h = elim (Bool-cases p.kill_pending) [ inl e ↦ rw e (inr refl) | inr e ↦ rw e h ]

module _ (me : ℕ) (x : Pid) (k : Kernel) (c : Cpu) (lt : me < length k.cpus)
    (e : get_elem? k.cpus me ≡ some c) (mine : c.current ≡ x) (nz : x ≢ 0) (inv : Inv k) where
  -- the kernel after the core has been freed
  abbrev freed : Kernel
  freed = record k { cpus = at_cpu me (λ c. record c { current = 0 }) k.cpus }

  freed-on : (y : Pid) → y ≢ 0 → on y freed.cpus + one_if (x == y) ≡ on y k.cpus
  freed-on y z =
      let t = total-at (runs y) (λ c. record c { current = 0 }) k.cpus me c e in
      let w : runs y c ≡ one_if (x == y) = rw mine refl in
      let zero_off = one_if-ne 0 y (λ s. z (sym s)) in omega arith

  freed-Moves : Moves x k freed
  freed-Moves = record {
    table = λ y n. refl;
    queued_same = λ y n. total-same (holds y) (λ c. record c { current = 0 }) k.cpus me (λ c. refl);
    on_same =
        λ y n z. let f = freed-on y z in let w = one_if-ne x y (λ s. n (sym s)) in omega arith;
    next = refl;
    cores = length-at_cpu me (λ c. record c { current = 0 }) k.cpus;
  }

  freed-lt : me < length freed.cpus
  freed-lt = let l = freed-Moves.cores in omega arith

  pub runs_here : OnCore x k
  runs_here = on_core me x k c e mine nz inv

  freed_unqueued : queued x freed.cpus ≡ 0
  freed_unqueued =
      total-same (holds x) (λ c. record c { current = 0 }) k.cpus me (λ c. refl)
      ∙ runs_here.unqueued

  freed_off : on x freed.cpus ≡ 0
  freed_off =
      let f = freed-on x nz in let o = one_if_self x in let a = runs_here.alone in omega arith

  -- The numbers of processes are small enough for an action to hold them.
  small_pid : x < 2 ^ 62
  small_pid =
      let r = runs_here in
      let t = taken x r.process k r.there inv in let m = inv.small in omega arith

  requeue_at :
      (a : ℕ) (p : Process)
      → a / 4 ≡ x
      → a % 4 ≡ 1
      → k.table x ≡ some p
      → post_switch me a freed ≡ requeue me x (settled p) (settled p).state freed
  unfolding post_switch
  requeue_at a p who kind at =
      let at' : k.table (a / 4) ≡ some p = ap k.table who ∙ at in
      rw (post_switch, at', kind, who) refl

  yields_lem :
      (p : Process)
      → k.table x ≡ some p
      → post_switch me (yields x) freed ≡ requeue me x (settled p) (settled p).state freed
  yields_lem p at = let s = small_pid in requeue_at (yields x) p (omega arith) (omega arith) at

  block_at :
      (a : ℕ) (p : Process)
      → a / 4 ≡ x
      → a % 4 ≡ 2
      → k.table x ≡ some p
      → post_switch me a freed ≡ block me x (settled p) (settled p).state freed
  unfolding post_switch
  block_at a p who kind at =
      let at' : k.table (a / 4) ≡ some p = ap k.table who ∙ at in
      rw (post_switch, at', kind, who) refl

  blocks_lem :
      (p : Process)
      → k.table x ≡ some p
      → post_switch me (blocks x) freed ≡ block me x (settled p) (settled p).state freed
  blocks_lem p at = let s = small_pid in block_at (blocks x) p (omega arith) (omega arith) at

  none_lem : post_switch me 0 freed ≡ freed
  unfolding post_switch
  none_lem = elim (Option-cases (k.table 0)) [
    | inl e ↦ rw (post_switch, e) refl
    | inr (p, e) ↦ rw (post_switch, e) refl
  ]

  -- What a process leaves to its scheduler: it yields, or it blocks, or it is dead.
  abbrev pub Leaves : ℕ → Type 0
  Leaves a =
      (a ≡ yields x)
      ⊎ ((a ≡ blocks x) ⊎ ((a ≡ 0) × ((p : Process) → k.table x ≡ some p → p.state ≡ State.dead)))

  post_switch-Off : (a : ℕ) → Leaves a → Off x freed (post_switch me a freed)
  post_switch-Off a (inl h) =
      let r = runs_here in
      rw (h, yields_lem r.process r.there)
        (requeue-Off me x freed freed-lt freed_unqueued freed_off (settled r.process)
          (settled r.process).state refl (settled-state r.process r.going))
  post_switch-Off a (inr (inl h)) =
      let r = runs_here in
      rw (h, blocks_lem r.process r.there)
        (block-Off me x freed freed-lt freed_unqueued freed_off (settled r.process)
          (settled r.process).state refl (settled-state r.process r.going))
  post_switch-Off a (inr (inr (h, is))) =
      let r = runs_here in
      let gone : r.process.state ≡ State.dead = is r.process r.there in
      rw (h, none_lem)
        (record {
          moves = record {
            table = λ y n. refl;
            queued_same = λ y n. refl;
            on_same = λ y n z. refl;
            next = refl;
            cores = refl;
          };
          process = r.process;
          there = r.there;
          off = freed_off;
          fits = inl (rw gone refl);
        })

  after_Off :
      (place : ℕ → Memory → ℕ) (a : ℕ)
      → Off x freed (post_switch me a freed)
      → Done k (after_switch place me x a k)
  unfolding after_switch
  after_Off place a o =
      let k₂ = post_switch me a freed in
      let r = runs_here in
      let mv : Moves x k k₂ = Moves-trans freed-Moves o.moves in
      elim o.fits [
        | inr (alive, fit) ↦ record {
          result = (none, k₂);
          returned = rw (after_switch, o.there, alive) refl;
          keeps = record {
            inv = Moves-Inv x k k₂ r.process mv r.there (λ _. rw (o.there, o.off) fit) inv;
            cores = mv.cores;
            next = mv.next;
          };
        }
        | inl gone ↦
            let removed : Inv (put x none k₂) =
              Moves-Inv x k (put x none k₂) r.process (Moves-trans mv (put-Moves x none k₂)) r.there
                (λ _. rw (put_self x none k₂) o.off) inv in
            let rest =
              reap-Reaped place me x o.process k₂ (let l = mv.cores in omega arith) o.there
                removed in
            record {
              result = (some rest.result.0, rest.result.1);
              returned = rw (after_switch, o.there, gone, rest.returned) refl;
              keeps = record {
                inv = rest.keeps.inv;
                cores = rest.keeps.cores ∙ mv.cores;
                next = rest.keeps.next ∙ mv.next;
              };
            }
      ]

  -- When a process that is on a core has switched back to the scheduler, because it yields, because
  -- it blocks or because it is dead, what the scheduler does about it returns, without a panic, and
  -- keeps the invariant, in a kernel where the invariant holds.
  pub after_switch-Done :
      (place : ℕ → Memory → ℕ) (a : ℕ) → Leaves a → Done k (after_switch place me x a k)
  after_switch-Done place a h = after_Off place a (post_switch-Off a h)
