-- ===== src/Proc/Inv.antt =====
-- The invariant of the scheduler (kernel/src/proc.rs): where a process is, by its state.
use mathlib.Core.Path.{subst}
use yggdrasil.Proc.{Pid, State, Fragment, Process, Cpu, Kernel, put, at_cpu, enqueue}
use yggdrasil.Proc.Count.{
  runs, queued, on, one_if-ne, one_if_self, total-same, pushed, queued-pushed, enqueue-eq,
}
use yggdrasil.Prelude.{
  ℕ, zero, suc, ◌+◌, ◌^◌, ◌≤◌, ◌<◌, ◌≡◌, refl, sym, ap, ◌∙◌, ◌≢◌, ◌⊎◌, inl, inr, Option, none, some,
  List, [], ◌∷◌, ◌++◌, arith, leb, leb→le, ◌==◌, ==_iff, Bool-cases, length,
}

-- A process in a state, with its mailbox, that stands in `q` places of the run queues and runs on
-- `r` cores.
abbrev pub StateFits : State → List Fragment → (q r : ℕ) → Type 0
StateFits State.runnable mail q r = (q ≡ 1) × (r ≡ 0)
StateFits State.running mail q r = (q ≡ 0) × (r ≡ 1)
StateFits State.waiting mail q r = (q ≡ 0) × (r ≡ 0) × (mail ≡ [])
StateFits State.dead mail q r = ((1 ≤ q) × (r ≡ 0)) ⊎ ((q ≡ 0) × (r ≡ 1))

abbrev pub Fits : Option Process → (q r : ℕ) → Type 0
Fits none q r = r ≡ 0
Fits (some p) q r = StateFits p.state p.mailbox q r

pub record Inv (k : Kernel) : Type 0 where
  pub fits : (x : Pid) → x ≢ 0 → Fits (k.table x) (queued x k.cpus) (on x k.cpus)
  pub fresh : (x : Pid) → k.next_pid ≤ x → (k.table x ≡ none) × (queued x k.cpus ≡ 0)
  pub started : 1 ≤ k.next_pid
  pub small : k.next_pid < 2 ^ 62

-- An operation that changes the place of `x` and of no other process.
pub record Moves (x : Pid) (k k' : Kernel) : Type 0 where
  pub table : (y : Pid) → y ≢ x → k'.table y ≡ k.table y
  pub queued_same : (y : Pid) → y ≢ x → queued y k'.cpus ≡ queued y k.cpus
  pub on_same : (y : Pid) → y ≢ x → y ≢ 0 → on y k'.cpus ≡ on y k.cpus
  pub next : k'.next_pid ≡ k.next_pid
  pub cores : length k'.cpus ≡ length k.cpus

pub length-at_cpu : (i : ℕ) (f : Cpu → Cpu) (cs : List Cpu) → length (at_cpu i f cs) ≡ length cs
length-at_cpu i f [] = refl
length-at_cpu zero f (c ∷ cs) = refl
length-at_cpu (suc i) f (c ∷ cs) = ap suc (length-at_cpu i f cs)

pub Moves-trans : {x : Pid} {k k' k'' : Kernel} → Moves x k k' → Moves x k' k'' → Moves x k k''
Moves-trans a b = record {
  table = λ y n. b.table y n ∙ a.table y n;
  queued_same = λ y n. b.queued_same y n ∙ a.queued_same y n;
  on_same = λ y n z. b.on_same y n z ∙ a.on_same y n z;
  next = b.next ∙ a.next;
  cores = b.cores ∙ a.cores;
}

pub put_self : (x : Pid) (p : Option Process) (k : Kernel) → (put x p k).table x ≡ p
put_self x p k = rw ((==_iff x x).1 refl) refl

pub put-ne : (x y : Pid) (p : Option Process) (k : Kernel) → y ≢ x → (put x p k).table y ≡ k.table y
put-ne x y p k n = elim (Bool-cases (y == x)) [
  | inl e ↦ absurd (n ((==_iff y x).0 e))
  | inr e ↦ rw e refl
]

pub put-Moves : (x : Pid) (p : Option Process) (k : Kernel) → Moves x k (put x p k)
put-Moves x p k = record {
  table = λ y n. put-ne x y p k n;
  queued_same = λ y n. refl;
  on_same = λ y n z. refl;
  next = refl;
  cores = refl;
}

on-pushed : (me : ℕ) (pid x : Pid) (cs : List Cpu) → on x (pushed me pid cs) ≡ on x cs
on-pushed me pid x cs =
    total-same (runs x) (λ c. record c { runq = c.runq ++ pid ∷ [] }) cs me (λ c. refl)

-- `enqueue` puts the process in one place more.
pub record Enqueued (x : Pid) (k k' : Kernel) : Type 0 where
  pub moves : Moves x k k'
  pub table : k'.table x ≡ k.table x
  pub queued_more : queued x k'.cpus ≡ queued x k.cpus + 1
  pub on_same : on x k'.cpus ≡ on x k.cpus

pub enqueue_lem :
    (me : ℕ) (x : Pid) (k : Kernel) → me < length k.cpus → Enqueued x k (enqueue me x k)
enqueue_lem me x k h =
    let (is, e) = enqueue-eq me x k in
    subst (Enqueued x k) (sym e) (record {
      moves = record {
        table = λ y n. refl;
        queued_same = λ y n.
            let t = queued-pushed me x y k.cpus h in
            let z = one_if-ne x y (λ s. n (sym s)) in omega (arith, t, z);
        on_same = λ y n z. on-pushed me x y k.cpus;
        next = refl;
        cores = length-at_cpu me (λ c. record c { runq = c.runq ++ x ∷ [] }) k.cpus;
      };
      table = refl;
      queued_more =
          (let t = queued-pushed me x x k.cpus h in let z = one_if_self x in omega (arith, t, z));
      on_same = on-pushed me x x k.cpus;
    })

-- A process whose number is taken is moved to another place that fits.
pub Moves-Inv_lt :
    (x : Pid) (k k' : Kernel)
    → Moves x k k'
    → x < k.next_pid
    → (x ≢ 0 → Fits (k'.table x) (queued x k'.cpus) (on x k'.cpus))
    → Inv k
    → Inv k'
Moves-Inv_lt x k k' mv lt fit inv = record {
  fits = λ y nz. elim (Bool-cases (y == x)) [
    | inl b ↦
        let same : x ≡ y = sym ((==_iff y x).0 b) in
        subst (λ z. Fits (k'.table z) (queued z k'.cpus) (on z k'.cpus)) same
          (fit (λ z. nz (sym same ∙ z)))
    | inr b ↦
        let n : y ≢ x = (λ s. cc (sym b ∙ (==_iff y x).1 s)) in
        rw (mv.table y n, mv.queued_same y n, mv.on_same y n nz) (inv.fits y nz)
  ];
  fresh = λ y le.
      let le' : k.next_pid ≤ y = (let q = mv.next in omega arith) in
      let (none_there, no_place) = inv.fresh y le' in
      let n : y ≢ x = (λ s. omega arith) in
      (mv.table y n ∙ none_there, mv.queued_same y n ∙ no_place);
  started = (let q = mv.next in let st = inv.started in omega arith);
  small = (let q = mv.next in let sm = inv.small in omega arith);
}

-- The number of a process that is there is taken.
pub taken : (x : Pid) (p : Process) (k : Kernel) → k.table x ≡ some p → Inv k → x < k.next_pid
taken x p k e inv = elim (Bool-cases (leb k.next_pid x)) [
  | inl b ↦ cc (sym (inv.fresh x (leb→le k.next_pid x b)).0 ∙ e)
  | inr b ↦ ground arith
]

pub Moves-Inv :
    (x : Pid) (k k' : Kernel) (p : Process)
    → Moves x k k'
    → k.table x ≡ some p
    → (x ≢ 0 → Fits (k'.table x) (queued x k'.cpus) (on x k'.cpus))
    → Inv k
    → Inv k'
Moves-Inv x k k' p mv e fit inv = Moves-Inv_lt x k k' mv (taken x p k e inv) fit inv
