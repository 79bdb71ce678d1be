-- ===== src/Term/Eq.antt =====
-- `eq` (crates/ygg-term/src/lib.rs): structural equality, on fuel for the depth and the length.
use yggdrasil.Term.{
  Term, is_boxed, kind, tuple_arity, head, tail, bin_bytes, map_arity, map_key, map_val,
}
use yggdrasil.Term.Tags.{Kind}
use yggdrasil.Term.Store.{Memory, read_word}
use yggdrasil.Term.Copy.{is_cons}
use yggdrasil.Bytecode.Codec.{same_bytes}
use yggdrasil.Prelude.{
  ℕ, zero, suc, ◌+◌, Bool, true, false, ◌&&◌, ◌==◌, if◌then◌else◌, Outcome, ok, timeout, ◌>>=◌,
}

-- `x && y`, where `y` is a run
abbrev pub and_then : {E : Type 0} → Bool → Outcome E Bool → Outcome E Bool
and_then b rest = elim b [ true ↦ rest | false ↦ ok false ]

module _ {E : Type 0} (m : Memory) (eq : Term → Term → Outcome E Bool) where
  -- `(0..n).all(…)` over words from `p` and from `q` on
  unfoldable pub all_eq : (p q n : ℕ) → Outcome E Bool
  unfolding read_word
  all_eq p q zero = ok true
  all_eq p q (suc n) = do
    same ← eq (read_word m p) (read_word m q)
    and_then same (all_eq (p + 8) (q + 8) n)

  -- `(0..n).all(…)` over the entries of two maps from `i` on
  unfoldable pub entries_eq : (a b i n : ℕ) → Outcome E Bool
  unfolding map_key map_val
  entries_eq a b i zero = ok true
  entries_eq a b i (suc n) =
      and_then (map_key m a i == map_key m b i)
        (eq (map_val m a i) (map_val m b i) >>= λ same. and_then same (entries_eq a b (i + 1) n))

  -- the loop along two lists
  unfoldable pub cells_eq : ℕ → Term → Term → Outcome E Bool
  unfolding head tail kind
  cells_eq zero x y = timeout
  cells_eq (suc fuel) x y = do
    same ← eq (head m x) (head m y)
    and_then same (
        kind m (tail m x) >>= λ j. kind m (tail m y) >>= λ k. elim (is_cons j) [
          | true ↦ and_then (is_cons k) (cells_eq fuel (tail m x) (tail m y))
          | false ↦ elim (is_cons k) [ true ↦ ok false | false ↦ eq (tail m x) (tail m y) ]
        ])

  unfoldable pub eq_kind : ℕ → (a b : Term) → Kind → Kind → Outcome E Bool
  unfolding all_eq entries_eq cells_eq tuple_arity map_arity bin_bytes
  eq_kind fuel a b Kind.tuple Kind.tuple =
      and_then (tuple_arity m a == tuple_arity m b) (all_eq (a + 8) (b + 8) (tuple_arity m a))
  eq_kind fuel a b Kind.binary Kind.binary = ok (same_bytes (bin_bytes m a) (bin_bytes m b))
  eq_kind fuel a b Kind.map Kind.map =
      and_then (map_arity m a == map_arity m b) (entries_eq a b 0 (map_arity m a))
  eq_kind fuel a b Kind.cons Kind.cons = cells_eq fuel a b
  eq_kind fuel a b _ _ = ok false

unfoldable pub eq : {E : Type 0} → ℕ → Memory → (a b : Term) → Outcome E Bool
unfolding eq_kind kind is_boxed
eq zero m a b = timeout
eq (suc fuel) m a b =
    if a == b
    then ok true
    else and_then (is_boxed a && is_boxed b)
        (kind m a >>= λ j. kind m b >>= λ k. eq_kind m (eq fuel m) fuel a b j k)
