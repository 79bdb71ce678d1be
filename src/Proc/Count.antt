-- ===== src/Proc/Count.antt =====
-- How often a process stands in the run queues, and on how many cores it runs.
use yggdrasil.Proc.{Pid, Cpu, Kernel, at_cpu, idle_core, enqueue, u32_max, wake_vector}
use yggdrasil.Prelude.{
  ℕ, zero, suc, ◌+◌, ◌≤◌, ◌<◌, ◌≡◌, refl, ap, ◌≢◌, inl, inr, Bool, true, false, Option, none, some,
  List, [], ◌∷◌, ◌++◌, arith, ◌==◌, ==_iff, Bool-cases, Option-cases, length, get_elem?,
}

abbrev pub one_if : Bool → ℕ
one_if true = 1
one_if false = 0

-- how often `x` stands in a queue
abbrev pub count : Pid → List Pid → ℕ
count x [] = 0
count x (y ∷ ys) = one_if (y == x) + count x ys

abbrev pub in_hand : Pid → Option Pid → ℕ
in_hand x none = 0
in_hand x (some y) = one_if (y == x)

-- the places of `x` in the queue of a core and in the hand of its scheduler
abbrev pub holds : Pid → Cpu → ℕ
holds x c = count x c.runq + in_hand x c.next

abbrev pub runs : Pid → Cpu → ℕ
runs x c = one_if (c.current == x)

abbrev pub total : (Cpu → ℕ) → List Cpu → ℕ
total w [] = 0
total w (c ∷ cs) = w c + total w cs

abbrev pub queued : Pid → List Cpu → ℕ
queued x cs = total (holds x) cs

abbrev pub on : Pid → List Cpu → ℕ
on x cs = total (runs x) cs

pub one_if-ne : (x y : ℕ) → x ≢ y → one_if (x == y) ≡ 0
one_if-ne x y h = elim (Bool-cases (x == y)) [
  | inl e ↦ absurd (h ((==_iff x y).0 e))
  | inr e ↦ rw e refl
]

pub one_if_self : (x : ℕ) → one_if (x == x) ≡ 1
one_if_self x = rw ((==_iff x x).1 refl) refl

pub count-append : (x : Pid) (xs ys : List Pid) → count x (xs ++ ys) ≡ count x xs + count x ys
count-append x [] ys = omega arith
count-append x (y ∷ xs) ys = omega (arith, count-append x xs ys)

-- the total after a change to one core
pub total-at :
    (w : Cpu → ℕ) (f : Cpu → Cpu) (cs : List Cpu) (i : ℕ) (c : Cpu)
    → get_elem? cs i ≡ some c
    → total w (at_cpu i f cs) + w c ≡ total w cs + w (f c)
total-at w f [] i c e = cc
total-at w f (d ∷ cs) zero c e =
    let same : d ≡ c = cc in
    rw (← same) (let r : w (f d) + total w cs + w d ≡ w d + total w cs + w (f d) = omega arith in r)
total-at w f (d ∷ cs) (suc i) c e = omega (arith, total-at w f cs i c e)

pub total-same :
    (w : Cpu → ℕ) (f : Cpu → Cpu) (cs : List Cpu) (i : ℕ)
    → ((c : Cpu) → w (f c) ≡ w c)
    → total w (at_cpu i f cs) ≡ total w cs
total-same w f [] i h = refl
total-same w f (d ∷ cs) zero h = ap (λ n. n + total w cs) (h d)
total-same w f (d ∷ cs) (suc i) h = ap (λ n. w d + n) (total-same w f cs i h)

pub core-at : (cs : List Cpu) (i : ℕ) → i < length cs → (c : Cpu) × (get_elem? cs i ≡ some c)
core-at [] i h = elim h [ ]
core-at (c ∷ cs) zero h = (c, refl)
core-at (c ∷ cs) (suc i) h = core-at cs i (omega arith)

pub get_elem?-total :
    (w : Cpu → ℕ) (cs : List Cpu) (i : ℕ) (c : Cpu) → get_elem? cs i ≡ some c → w c ≤ total w cs
get_elem?-total w [] i c e = cc
get_elem?-total w (d ∷ cs) zero c e =
    let same : d ≡ c = cc in rw (← same) (let r : w d ≤ w d + total w cs = omega arith in r)
get_elem?-total w (d ∷ cs) (suc i) c e = omega (arith, get_elem?-total w cs i c e)

-- the cores after `enqueue`
abbrev pub pushed : ℕ → Pid → List Cpu → List Cpu
pushed me pid cs = at_cpu me (λ c. record c { runq = c.runq ++ pid ∷ [] }) cs

pub queued-pushed :
    (me : ℕ) (pid x : Pid) (cs : List Cpu)
    → me < length cs
    → queued x (pushed me pid cs) ≡ queued x cs + one_if (pid == x)
queued-pushed me pid x cs h =
    let (c, e) = core-at cs me h in
    let t = total-at (holds x) (λ c. record c { runq = c.runq ++ pid ∷ [] }) cs me c e in
    let a = count-append x c.runq (pid ∷ []) in omega (arith, t, a)

pub enqueue-eq :
    (me : ℕ) (pid : Pid) (k : Kernel)
    → (is : List (ℕ × ℕ)) × (enqueue me pid k ≡ record k { cpus = pushed me pid k.cpus; ipis = is })
unfolding enqueue
enqueue-eq me pid k = elim (Option-cases (idle_core me k.cpus)) [
  | inl e ↦ (k.ipis, rw (e, enqueue) refl)
  | inr (c, e) ↦ elim (Bool-cases (c.lapic_id == u32_max)) [
    | inl b ↦ (k.ipis, rw (e, b, enqueue) refl)
    | inr b ↦ ((c.lapic_id, wake_vector) ∷ k.ipis, rw (e, b, enqueue) refl)
  ]
]
