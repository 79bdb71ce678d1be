-- ===== src/Interp/Allocate.antt =====
-- `alloc_term` and the tests of the kind of a term (crates/ygg-interp/src/lib.rs).
use yggdrasil.Term.{Term, is_boxed, kind}
use yggdrasil.Term.Tags.{Kind}
use yggdrasil.Term.Store.{Memory}
use yggdrasil.Term.Heap.{MapError, heap, non_immediate_key, Heap, Alloc}
use yggdrasil.Interp.Api.{Trap, badarg, SystemApi, Act, ◌>>=◌, lift, pure, fail, ask, change}
use yggdrasil.Prelude.{
  ℕ, zero, suc, Bool, true, false, Option, none, some, Outcome, ok, err, panic, timeout,
}

abbrev pub is_tuple : Kind → Bool
is_tuple Kind.tuple = true
is_tuple _ = false

abbrev pub is_bin : Kind → Bool
is_bin Kind.binary = true
is_bin _ = false

abbrev pub is_map : Kind → Bool
is_map Kind.map = true
is_map _ = false

-- the errors that do not ask for a larger heap
abbrev pub trap_of : MapError → Option Trap
trap_of (heap _) = none
trap_of non_immediate_key = some badarg

-- `if !b { return Err(Trap::Badarg) }`
abbrev pub check : {W : Type 0} → Bool → Act W (Unit {0})
check b = elim b [ true ↦ pure tt | false ↦ fail badarg ]

module _ {W : Type 0} (api : SystemApi W) where
  -- The loop that allocates and lets the heap grow; what a failed attempt has allocated is dropped.
  unfoldable pub retry :
      {E : Type 0} → (E → Option Trap) → ℕ → (Heap → Outcome E (Term × Heap)) → Act W Term
  retry on zero f s = (timeout, s)
  retry on (suc fuel) f s = elim (f (api.heap s.world)) [
    | ok p ↦ (ok p.0, record s { world = api.put_heap p.1 s.world })
    | panic ↦ (panic, s)
    | timeout ↦ (timeout, s)
    | err e ↦ elim (on e) [
      | some trap ↦ (err trap, s)
      | none ↦
          (change api.heap_grow >>= λ grown. elim grown [
            | true ↦ retry on fuel f
            | false ↦ fail Trap.heap_full
          ])
            s
    ]
  ]

  unfoldable pub alloc_term : ℕ → Alloc Term → Act W Term
  unfolding retry
  alloc_term = retry (λ _. none)

  -- the same loop of the two arms that make maps
  unfoldable pub alloc_map : ℕ → (Heap → Outcome MapError (Term × Heap)) → Act W Term
  unfolding retry
  alloc_map = retry trap_of

  abbrev pub memory : Act W Memory
  memory = ask λ w. (api.heap w).mem

  -- `t.kind()` and a test of it
  unfoldable pub has_kind : (Kind → Bool) → Term → Act W Bool
  unfolding kind
  has_kind test t = do m ← memory; k ← lift (kind m t); pure (test k)

  -- `t.is_boxed() && t.kind() == …`
  unfoldable pub is_boxed_as : (Kind → Bool) → Term → Act W Bool
  unfolding has_kind is_boxed
  is_boxed_as test t = elim (is_boxed t) [ true ↦ has_kind test t | false ↦ pure false ]
