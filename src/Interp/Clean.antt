-- ===== src/Interp/Clean.antt =====
-- Lemmas on the walks over terms and the allocations of the interpreter
-- (crates/ygg-interp/src/lib.rs), and the trap `bad_code`.
use yggdrasil.Term.{
  Term, kind, box_kind, is_boxed, tuple_arity, head, tail, map_arity, map_key, map_val, as_int,
}
use yggdrasil.Term.Tags.{
  Kind, tag_boxed, tag_int, tag_atom, tag_pid, tag_ref, tag_special, tag_port, kind_tuple,
  kind_cons, kind_binary, kind_map,
}
use yggdrasil.Term.Store.{Memory, read_word}
use yggdrasil.Term.Heap.{Heap, Alloc, MapError, heap, non_immediate_key}
use yggdrasil.Term.Copy.{is_cons}
use yggdrasil.Term.Eq.{and_then, all_eq, entries_eq, cells_eq, eq_kind, eq}
use yggdrasil.Interp.Api.{Trap, badarg, bad_code, State, Act, SystemApi, ◌>>=◌, pure, fail, change}
use yggdrasil.Interp.Words.{up_to}
use yggdrasil.Interp.Allocate.{trap_of, retry, alloc_term, alloc_map, has_kind, is_boxed_as, memory}
use yggdrasil.Interp.Binaries.{list_bytes, list_elems}
use yggdrasil.Interp.Hoare.{Post, Reads, seq}
use yggdrasil.Interp.Reads.{
  Clean, ok-Clean, err-Clean, panic-Clean, timeout-Clean, ok_or-Clean, still, lift-Reads,
  pure-Reads, ask-Reads,
}
use yggdrasil.Prelude
use yggdrasil.Prelude.{
  ℕ, zero, suc, ◌+◌, ◌*◌, ◌/◌, ◌%◌, ◌≡◌, refl, ap, ◌≢◌, Bool, true, false, ◌&&◌, Option, none, some,
  List, [], ◌∷◌, arith, ◌==◌, if◌then◌else◌, Outcome, ok, err, panic, timeout, ok_or,
}

pub Clean-bind :
    {A B : Type 0} (o : Outcome Trap A) (f : A → Outcome Trap B)
    → Clean o
    → ((a : A) → Clean (f a))
    → Clean (Prelude.◌>>=◌ o f)
Clean-bind (ok a) f h k = k a
Clean-bind (err e) f h k = err-Clean e (λ q. h (ap err q))
Clean-bind panic f h k = panic-Clean
Clean-bind timeout f h k = timeout-Clean

Clean-if :
    {A : Type 0} (b : Bool) {x y : Outcome Trap A} → Clean x → Clean y → Clean (if b then x else y)
Clean-if true h k = h
Clean-if false h k = k

pub kind-Clean : (m : Memory) (t : Term) → Clean (kind {E = Trap} m t)
unfolding kind box_kind
kind-Clean m t = Clean-if (t % 8 == tag_int) (ok-Clean _) (
    Clean-if (t % 8 == tag_atom) (ok-Clean _) (
      Clean-if (t % 8 == tag_pid) (ok-Clean _) (
        Clean-if (t % 8 == tag_ref) (ok-Clean _) (
          Clean-if (t % 8 == tag_special) (ok-Clean _) (
            Clean-if (t % 8 == tag_port) (ok-Clean _) (
              Clean-if (t % 8 == tag_boxed)
                (Clean-if (read_word m t % 8 == kind_tuple) (ok-Clean _) (
                  Clean-if (read_word m t % 8 == kind_cons) (ok-Clean _) (
                    Clean-if (read_word m t % 8 == kind_binary) (ok-Clean _)
                      (Clean-if (read_word m t % 8 == kind_map) (ok-Clean _) panic-Clean))))
                panic-Clean))))))

and_then-Clean : (b : Bool) {o : Outcome Trap Bool} → Clean o → Clean (and_then b o)
and_then-Clean true h = h
and_then-Clean false h = (ok-Clean _)

module _ (m : Memory) (same : Term → Term → Outcome Trap Bool)
    (clean : (a b : Term) → Clean (same a b)) where
  all_eq-Clean : (p q n : ℕ) → Clean (all_eq m same p q n)
  unfolding all_eq
  all_eq-Clean p q zero = (ok-Clean _)
  all_eq-Clean p q (suc n) =
      Clean-bind (same (read_word m p) (read_word m q)) _ (clean _ _)
        (λ b. and_then-Clean b (all_eq-Clean (p + 8) (q + 8) n))

  entries_eq-Clean : (a b i n : ℕ) → Clean (entries_eq m same a b i n)
  unfolding entries_eq
  entries_eq-Clean a b i zero = (ok-Clean _)
  entries_eq-Clean a b i (suc n) = and_then-Clean (map_key m a i == map_key m b i) (
      Clean-bind (same (map_val m a i) (map_val m b i)) _ (clean _ _)
        (λ e. and_then-Clean e (entries_eq-Clean a b (i + 1) n)))

  ends-Clean :
      (j k : Bool) {o : Outcome Trap Bool} (x y : Term)
      → Clean o
      → Clean (
          let r : Outcome Trap Bool = elim j [
            | true ↦ and_then k o
            | false ↦ elim k [ true ↦ ok false | false ↦ same (tail m x) (tail m y) ]
          ] in
          r)
  ends-Clean true k x y h = and_then-Clean k h
  ends-Clean false true x y h = ok-Clean false
  ends-Clean false false x y h = clean (tail m x) (tail m y)

  cells_eq-Clean : (fuel : ℕ) (x y : Term) → Clean (cells_eq m same fuel x y)
  unfolding cells_eq
  cells_eq-Clean zero x y = timeout-Clean
  cells_eq-Clean (suc fuel) x y = Clean-bind (same (head m x) (head m y)) _ (clean _ _) (λ e.
      and_then-Clean e (
        Clean-bind (kind m (tail m x)) _ (kind-Clean m (tail m x)) (λ j.
          Clean-bind (kind m (tail m y)) _ (kind-Clean m (tail m y)) (λ k.
            ends-Clean (is_cons j) (is_cons k) x y (cells_eq-Clean fuel (tail m x) (tail m y))))))

  eq_kind-Clean : (fuel : ℕ) (a b : Term) (j k : Kind) → Clean (eq_kind m same fuel a b j k)
  unfolding eq_kind
  eq_kind-Clean fuel a b Kind.tuple Kind.tuple =
      and_then-Clean (tuple_arity m a == tuple_arity m b)
        (all_eq-Clean (a + 8) (b + 8) (tuple_arity m a))
  eq_kind-Clean fuel a b Kind.binary Kind.binary = (ok-Clean _)
  eq_kind-Clean fuel a b Kind.map Kind.map =
      and_then-Clean (map_arity m a == map_arity m b) (entries_eq-Clean a b 0 (map_arity m a))
  eq_kind-Clean fuel a b Kind.cons Kind.cons = cells_eq-Clean fuel a b
  eq_kind-Clean fuel a b _ _ = (ok-Clean _)

pub eq-Clean : (fuel : ℕ) (m : Memory) (a b : Term) → Clean (eq {E = Trap} fuel m a b)
unfolding eq
eq-Clean zero m a b = timeout-Clean
eq-Clean (suc fuel) m a b = Clean-if (a == b) (ok-Clean _) (
    and_then-Clean (is_boxed a && is_boxed b) (
      Clean-bind (kind m a) _ (kind-Clean m a) (λ j.
        Clean-bind (kind m b) _ (kind-Clean m b)
          (λ k. eq_kind-Clean m (eq fuel m) (λ x y. eq-Clean fuel m x y) fuel a b j k))))

pub list_bytes-Clean : (fuel : ℕ) (m : Memory) (t : Term) → Clean (list_bytes fuel m t)
unfolding list_bytes
list_bytes-Clean zero m t = timeout-Clean
list_bytes-Clean (suc fuel) m t =
    Clean-bind (kind m t) _ (kind-Clean m t)
      (λ k. go (is_cons k) fuel m t (list_bytes-Clean fuel m (tail m t)))
  where
    go :
        (b : Bool) (fuel : ℕ) (m : Memory) (t : Term)
        → Clean (list_bytes fuel m (tail m t))
        → Clean (
            let r : Outcome Trap (List ℕ × Term) = elim b [
              | false ↦ ok ([], t)
              | true ↦ Prelude.◌>>=◌ (ok_or (as_int (head m t)) badarg) λ h.
                  Prelude.◌>>=◌
                    (ok_or (up_to 255 h) badarg)
                    λ c. Prelude.◌>>=◌ (list_bytes fuel m (tail m t)) λ p. ok (c ∷ p.0, p.1)
            ] in
            r)
    go false fuel m t h = ok-Clean _
    go true fuel m t h = Clean-bind (ok_or (as_int (head m t)) badarg) _ (ok_or-Clean _) (λ i.
        Clean-bind (ok_or (up_to 255 i) badarg) _ (ok_or-Clean _)
          (λ c. Clean-bind (list_bytes fuel m (tail m t)) _ h (λ p. ok-Clean _)))

pub list_elems-Clean : (fuel : ℕ) (m : Memory) (t : Term) → Clean (list_elems fuel m t)
unfolding list_elems
list_elems-Clean zero m t = timeout-Clean
list_elems-Clean (suc fuel) m t = go (is_boxed t) fuel m t (list_elems-Clean fuel m (tail m t))
  where
    inner :
        (b : Bool) (fuel : ℕ) (m : Memory) (t : Term)
        → Clean (list_elems fuel m (tail m t))
        → Clean (
            let r : Outcome Trap (List Term × Term) = elim b [
              | false ↦ ok ([], t)
              | true ↦ Prelude.◌>>=◌ (list_elems fuel m (tail m t)) λ p. ok (head m t ∷ p.0, p.1)
            ] in
            r)
    inner false fuel m t h = ok-Clean _
    inner true fuel m t h = Clean-bind (list_elems fuel m (tail m t)) _ h (λ p. ok-Clean _)

    go :
        (b : Bool) (fuel : ℕ) (m : Memory) (t : Term)
        → Clean (list_elems fuel m (tail m t))
        → Clean (
            let r : Outcome Trap (List Term × Term) = elim b [
              | false ↦ ok ([], t)
              | true ↦ Prelude.◌>>=◌ (kind m t) λ k. elim (is_cons k) [
                | false ↦ ok ([], t)
                | true ↦ Prelude.◌>>=◌ (list_elems fuel m (tail m t)) λ p. ok (head m t ∷ p.0, p.1)
              ]
            ] in
            r)
    go false fuel m t h = ok-Clean _
    go true fuel m t h =
        Clean-bind (kind m t) _ (kind-Clean m t) (λ k. inner (is_cons k) fuel m t h)

-- The errors that `on` turns into traps are not `bad_code`.
abbrev pub Mild : {E : Type 0} → (E → Option Trap) → Type 0
Mild {E} on = (e : E) (t : Trap) → on e ≡ some t → t ≢ bad_code

abbrev Kept : {W : Type 0} → State W → Term → State W → Type 0
Kept s _ s' = (s'.frame.code ≡ s.frame.code) × (s'.frame.pc ≡ s.frame.pc)

module _ {W : Type 0} (api : SystemApi W) where
  module _ (s : State W) (again : Act W Term)
      (rest : (w : W) → Post (Kept s) (again (record s { world = w }))) where
    grown-Post :
        (b : Bool) (w : W)
        → Post (Kept s) (
            (let k : Act W Term = elim b [ true ↦ again | false ↦ fail Trap.heap_full ] in k)
              (record s { world = w }))
    grown-Post true w = rest w
    grown-Post false w = λ e. cc

    full-Post :
        (o : Option Trap)
        → ((t : Trap) → o ≡ some t → t ≢ bad_code)
        → Post (Kept s) (
            let r : Outcome Trap Term × State W = elim o [
              | some trap ↦ (err trap, s)
              | none ↦
                  (change api.heap_grow >>= λ grown. elim grown [
                    | true ↦ again
                    | false ↦ fail Trap.heap_full
                  ])
                    s
            ] in
            r)
    full-Post (some t) mild = mild t refl
    full-Post none mild = grown-Post (api.heap_grow s.world).0 (api.heap_grow s.world).1

    try-Post :
        {E : Type 0} (on : E → Option Trap) (o : Outcome E (Term × Heap))
        → Mild on
        → Post (Kept s) (
            let r : Outcome Trap Term × State W = elim o [
              | ok p ↦ (ok p.0, record s { world = api.put_heap p.1 s.world })
              | panic ↦ (panic, s)
              | timeout ↦ (timeout, s)
              | err e ↦ elim (on e) [
                | some trap ↦ (err trap, s)
                | none ↦
                    (change api.heap_grow >>= λ grown. elim grown [
                      | true ↦ again
                      | false ↦ fail Trap.heap_full
                    ])
                      s
              ]
            ] in
            r)
    try-Post on (ok p) mild = (refl, refl)
    try-Post on panic mild = tt
    try-Post on timeout mild = tt
    try-Post on (err e) mild = full-Post (on e) (mild e)

  retry-Post :
      {E : Type 0} (on : E → Option Trap) (fuel : ℕ) (f : Heap → Outcome E (Term × Heap))
      → Mild on
      → (s : State W) → Post (Kept s) (retry api on fuel f s)
  unfolding retry
  retry-Post on zero f mild s = tt
  retry-Post on (suc fuel) f mild s =
      try-Post s (retry api on fuel f) (λ w. retry-Post on fuel f mild (record s { world = w })) on
        (f (api.heap s.world)) mild

  pub alloc_term-Reads :
      {code : List ℕ} (fuel : ℕ) (f : Alloc Term) → Reads code 0 (alloc_term api fuel f)
  unfolding alloc_term
  alloc_term-Reads fuel f = still (retry-Post (λ _. none) fuel f (λ e t h. cc))

  trap_of-Mild : Mild trap_of
  trap_of-Mild (heap _) t h = cc
  trap_of-Mild non_immediate_key t h = λ e. cc

  pub alloc_map-Reads :
      {code : List ℕ} (fuel : ℕ) (f : Heap → Outcome MapError (Term × Heap))
      → Reads code 0 (alloc_map api fuel f)
  unfolding alloc_map
  alloc_map-Reads fuel f = still (retry-Post trap_of fuel f trap_of-Mild)

  pub memory-Reads : {code : List ℕ} → Reads code 0 (memory api)
  memory-Reads = ask-Reads (λ w. (api.heap w).mem)

  pub has_kind-Reads :
      {code : List ℕ} (test : Kind → Bool) (t : Term) → Reads code 0 (has_kind api test t)
  unfolding has_kind
  has_kind-Reads test t =
      seq memory-Reads λ m. seq (lift-Reads (kind m t) (kind-Clean m t)) λ k. pure-Reads (test k)

  boxed_as :
      {code : List ℕ} (b : Bool) (test : Kind → Bool) (t : Term)
      → Reads code 0
          (let k : Act W Bool = elim b [ true ↦ has_kind api test t | false ↦ pure false ] in k)
  boxed_as true test t = has_kind-Reads test t
  boxed_as false test t = pure-Reads false

  pub is_boxed_as-Reads :
      {code : List ℕ} (test : Kind → Bool) (t : Term) → Reads code 0 (is_boxed_as api test t)
  unfolding is_boxed_as
  is_boxed_as-Reads test t = boxed_as (is_boxed t) test t
