-- ===== src/Proc/Steal.antt =====
-- Lemmas on taking a process off a run queue, in `run` (kernel/src/proc.rs).
use mathlib.Core.List.{reverse, reverse-cons}
use yggdrasil.Proc.{Pid, Cpu, Kernel, at_cpu}
use yggdrasil.Proc.Sched.{last_of, pop_back, robbed, steal, take_from, take_next}
use yggdrasil.Proc.Count.{
  one_if, count, in_hand, holds, runs, queued, on, count-append, total-at, total-same,
}
use yggdrasil.Proc.Inv.{Inv, length-at_cpu}
use yggdrasil.Proc.Keeps.{Keeps}
use yggdrasil.Prelude.{
  ℕ, zero, suc, ◌+◌, ◌≡◌, refl, sym, ap, ◌∙◌, inl, inr, Option, none, some, List, [], ◌∷◌, arith,
  ◌==◌, Bool-cases, length, get_elem?,
}

-- Nothing moves in the table, and every process stands in as many places as before.
pub cpus-Keeps :
    (k : Kernel) (cs : List Cpu)
    → ((x : Pid) → queued x cs ≡ queued x k.cpus)
    → ((x : Pid) → on x cs ≡ on x k.cpus)
    → length cs ≡ length k.cpus
    → Inv k
    → Keeps k (record k { cpus = cs })
cpus-Keeps k cs q o l inv = record {
  inv = record {
    fits = λ x nz. rw (q x, o x) (inv.fits x nz);
    fresh = λ x le. rw (q x) (inv.fresh x le);
    started = inv.started;
    small = inv.small;
  };
  cores = l;
  next = refl;
}

count-reverse : (x : Pid) (q : List Pid) → count x (reverse q) ≡ count x q
count-reverse x [] = refl
count-reverse x (y ∷ q) =
    ap (count x) (reverse-cons y q)
    ∙ count-append x (reverse q) (y ∷ [])
    ∙ (let r = count-reverse x q in
        let e : count x (reverse q) + count x (y ∷ []) ≡ count x (y ∷ q) = omega arith in e)

last_of-some :
    (x y : Pid) (r rest : List Pid)
    → last_of r ≡ some (y, rest)
    → count x r ≡ one_if (y == x) + count x rest
last_of-some x y [] rest h = cc
last_of-some x y (z ∷ r) rest h =
    let head : z ≡ y = cc in
    let tail : reverse r ≡ rest = cc in
    let c = count-reverse x r in rw (← head, ← tail) (omega (arith, c))

pop_back-some :
    (x y : Pid) (q rest : List Pid)
    → pop_back q ≡ some (y, rest)
    → count x q ≡ one_if (y == x) + count x rest
pop_back-some x y q rest h = sym (count-reverse x q) ∙ last_of-some x y (reverse q) rest h

-- What is stolen is in the hand and no longer in its queue.
record Stolen (cs : List Cpu) (found : Option Pid) (cs' : List Cpu) : Type 0 where
  places : (x : Pid) → in_hand x found + queued x cs' ≡ queued x cs
  same_on : (x : Pid) → on x cs' ≡ on x cs
  same_length : length cs' ≡ length cs
  hands :
      (i : ℕ) (c : Cpu)
      → get_elem? cs i ≡ some c
      → (c' : Cpu) × (get_elem? cs' i ≡ some c') × (c'.next ≡ c.next)

nothing-Stolen : (cs : List Cpu) → Stolen cs none cs
nothing-Stolen cs = record {
  places = λ x. omega arith;
  same_on = λ x. refl;
  same_length = refl;
  hands = λ i c e. (c, e, refl);
}

skip_hands :
    (c : Cpu) (cs cs' : List Cpu) (found : Option Pid)
    → Stolen cs found cs'
    → (i : ℕ) (d : Cpu) → get_elem? (c ∷ cs) i ≡ some d
    → (c' : Cpu) × (get_elem? (c ∷ cs') i ≡ some c') × (c'.next ≡ d.next)
skip_hands c cs cs' found s zero d e = (c, refl, let same : c ≡ d = cc in ap (λ c. c.next) same)
skip_hands c cs cs' found s (suc i) d e = s.hands i d e

skip-Stolen :
    (c : Cpu) (cs cs' : List Cpu) (found : Option Pid)
    → Stolen cs found cs'
    → Stolen (c ∷ cs) found (c ∷ cs')
skip-Stolen c cs cs' found s = record {
  places = λ x. let p = s.places x in omega arith;
  same_on = λ x. ap (λ n. runs x c + n) (s.same_on x);
  same_length = ap suc s.same_length;
  hands = λ i d e. skip_hands c cs cs' found s i d e;
}

rob_hands :
    (c : Cpu) (cs : List Cpu) (rest : List Pid) (i : ℕ) (d : Cpu)
    → get_elem? (c ∷ cs) i ≡ some d
    → (c' : Cpu) × (get_elem? (record c { runq = rest } ∷ cs) i ≡ some c') × (c'.next ≡ d.next)
rob_hands c cs rest zero d e =
    (record c { runq = rest }, refl, let same : c ≡ d = cc in ap (λ c. c.next) same)
rob_hands c cs rest (suc i) d e = (d, e, refl)

rob-Stolen :
    (c : Cpu) (cs : List Cpu) (y : Pid) (rest : List Pid)
    → pop_back c.runq ≡ some (y, rest)
    → Stolen (c ∷ cs) (some y) (record c { runq = rest } ∷ cs)
rob-Stolen c cs y rest h = record {
  places = λ x. let p = pop_back-some x y c.runq rest h in omega arith;
  same_on = λ x. refl;
  same_length = refl;
  hands = λ i d e. rob_hands c cs rest i d e;
}

robbed-Stolen :
    (c : Cpu) (cs : List Cpu) (later : Option Pid × List Cpu) (o : Option (Pid × List Pid))
    → pop_back c.runq ≡ o
    → Stolen cs later.0 later.1
    → Stolen (c ∷ cs) (robbed c cs later o).0 (robbed c cs later o).1
robbed-Stolen c cs later none e s = skip-Stolen c cs later.1 later.0 s
robbed-Stolen c cs later (some (y, rest)) e s = rob-Stolen c cs y rest e

steal-Stolen : (me : ℕ) (cs : List Cpu) → Stolen cs (steal me cs).0 (steal me cs).1
unfolding steal
steal-Stolen me [] = nothing-Stolen []
steal-Stolen me (c ∷ cs) =
    let later = steal-Stolen me cs in
    elim (Bool-cases (c.id == me)) [
      | inl b ↦ rw (b, steal) (skip-Stolen c cs (steal me cs).1 (steal me cs).0 later)
      | inr b ↦ rw (b, steal) (robbed-Stolen c cs (steal me cs) (pop_back c.runq) refl later)
    ]

take_from-Keeps :
    (me : ℕ) (k : Kernel) (c : Cpu) (q : List Pid)
    → get_elem? k.cpus me ≡ some c
    → c.runq ≡ q
    → c.next ≡ none
    → Inv k
    → Keeps k (take_from me k q)
unfolding take_from
take_from-Keeps me k c [] e eq en inv =
    let s = steal-Stolen me k.cpus in
    let found = (steal me k.cpus).0 in
    let cs = (steal me k.cpus).1 in
    let (c', e', en') = s.hands me c e in
    cpus-Keeps k (at_cpu me (λ c. record c { next = found }) cs)
      (λ x.
        let p = s.places x in
        let t = total-at (holds x) (λ c. record c { next = found }) cs me c' e' in
        let h : in_hand x c'.next ≡ 0 = rw (en', en) refl in omega arith)
      (λ x. total-same (runs x) (λ c. record c { next = found }) cs me (λ c. refl) ∙ s.same_on x)
      (length-at_cpu me (λ c. record c { next = found }) cs ∙ s.same_length) inv
take_from-Keeps me k c (y ∷ rest) e eq en inv =
    cpus-Keeps k (at_cpu me (λ c. record c { runq = rest; next = some y }) k.cpus)
      (λ x.
        let t = total-at (holds x) (λ c. record c { runq = rest; next = some y }) k.cpus me c e in
        let h : in_hand x c.next ≡ 0 = rw en refl in
        let q : count x c.runq ≡ one_if (y == x) + count x rest = rw eq refl in omega arith)
      (λ x.
        total-same (runs x) (λ c. record c { runq = rest; next = some y }) k.cpus me (λ c. refl))
      (length-at_cpu me (λ c. record c { runq = rest; next = some y }) k.cpus) inv

pub take_next-Keeps :
    (me : ℕ) (k : Kernel) (c : Cpu)
    → get_elem? k.cpus me ≡ some c
    → c.next ≡ none
    → Inv k
    → Keeps k (take_next me k)
unfolding take_next
take_next-Keeps me k c e en inv = rw (e, take_next) (take_from-Keeps me k c c.runq e refl en inv)
