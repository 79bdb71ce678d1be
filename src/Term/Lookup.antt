-- ===== src/Term/Lookup.antt =====
-- `map_get` (crates/ygg-term/src/lib.rs): the binary search over the keys of a map.
use native.Mathlib.Decide.{dec_lt, ℕ_discrete}
use yggdrasil.Term.{Term, map_arity, map_key, map_val, map_search, map_get}
use yggdrasil.Term.Store.{Memory}
use yggdrasil.Prelude.{
  ℕ, zero, suc, ◌+◌, ◌/◌, ◌≤◌, ◌<◌, ◌≡◌, ◌≢◌, ap, ◌⊎◌, inl, inr, Option, none, some, arith, Outcome,
  ok,
}

module _ (m : Memory) (t : Term) where
  -- The keys of the map at `t`, which has `n` entries, increase.
  abbrev pub IsSorted : ℕ → Type 0
  IsSorted n = (i j : ℕ) → i < j → j < n → map_key m t i < map_key m t j

  -- What a lookup among `n` entries comes to: the value of the key's entry, or nothing, if no entry
  -- has the key.
  abbrev pub Lookup : (key n : ℕ) → Outcome ⊥ (Option Term) → Type 0
  Lookup key n r =
      ((i : ℕ) × (i < n) × (map_key m t i ≡ key) × (r ≡ ok (some (map_val m t i))))
      ⊎ (((i : ℕ) → i < n → map_key m t i ≢ key) × (r ≡ ok none))

  search_ends : (fuel key lo hi : ℕ) → hi ≤ lo → map_search m (suc fuel) t key lo hi ≡ ok none
  unfolding map_search
  search_ends fuel key lo hi h = ground arith

  search_finds :
      (fuel key lo hi : ℕ)
      → lo < hi
      → map_key m t ((lo + hi) / 2) ≡ key
      → map_search m (suc fuel) t key lo hi ≡ ok (some (map_val m t ((lo + hi) / 2)))
  unfolding map_search
  search_finds fuel key lo hi h e = ground arith

  search_rises :
      (fuel key lo hi : ℕ)
      → lo < hi
      → map_key m t ((lo + hi) / 2) < key
      → map_search m (suc fuel) t key lo hi ≡ map_search m fuel t key ((lo + hi) / 2 + 1) hi
  unfolding map_search
  search_rises fuel key lo hi h e = ground arith

  search_falls :
      (fuel key lo hi : ℕ)
      → lo < hi
      → key < map_key m t ((lo + hi) / 2)
      → map_search m (suc fuel) t key lo hi ≡ map_search m fuel t key lo ((lo + hi) / 2)
  unfolding map_search
  search_falls fuel key lo hi h e = ground arith

  -- Keys below one that is smaller than `key` are smaller too, and so above.
  IsSorted-le : (n i j : ℕ) → IsSorted n → i ≤ j → j < n → map_key m t i ≤ map_key m t j
  IsSorted-le n i j s le lt = elim (ℕ_discrete i j) [
    | yes e ↦ (let same : map_key m t i ≡ map_key m t j = ap (map_key m t) e in omega arith)
    | no ne ↦ omega (arith, s i j (omega arith) lt)
  ]

  -- The search between `lo` and `hi`, when all keys below are smaller and all above are larger.
  map_search_lem :
      (fuel key n lo hi : ℕ)
      → IsSorted n
      → lo ≤ hi
      → hi ≤ n
      → hi < lo + fuel
      → ((i : ℕ) → i < lo → map_key m t i < key)
      → ((i : ℕ) → hi ≤ i → i < n → key < map_key m t i)
      → Lookup key n (map_search m fuel t key lo hi)
  map_search_lem zero key n lo hi s le hn fl below above = absurd (omega arith)
  map_search_lem (suc fuel) key n lo hi s le hn fl below above = elim (dec_lt lo hi) [
    | no ge ↦ inr (
      (λ i lt same. elim (dec_lt i lo) [
        | yes l ↦ omega (arith, below i l)
        | no g ↦ omega (arith, above i (omega arith) lt)
      ]),
      search_ends fuel key lo hi (omega arith),
    )
    | yes lt ↦
        (let mid : ℕ = (lo + hi) / 2 in
          elim (dec_lt (map_key m t mid) key) [
            | yes less ↦ rw (search_rises fuel key lo hi lt less) (
                map_search_lem fuel key n (mid + 1) hi s (omega arith) hn (omega arith)
                  (λ i l. omega (arith, IsSorted-le n i mid s (omega arith) (omega arith))) above)
            | no more ↦ elim (dec_lt key (map_key m t mid)) [
              | yes larger ↦ rw (search_falls fuel key lo hi lt larger) (
                  map_search_lem fuel key n lo mid s (omega arith) (omega arith) (omega arith) below
                    (λ i g l. omega (arith, IsSorted-le n mid i s g l)))
              | no same ↦
                  (let found : map_key m t mid ≡ key = omega arith in
                    inl (mid, omega arith, found, search_finds fuel key lo hi lt found))
            ]
          ])
  ]

  -- In a map with increasing keys, `map_get` returns the value of the entry that has the key, or
  -- nothing if no entry has it. Its loop ends.
  pub map_get_lem :
      (key : ℕ) → IsSorted (map_arity m t) → Lookup key (map_arity m t) (map_get m t key)
  unfolding map_get
  map_get_lem key s =
      map_search_lem (map_arity m t + 1) key (map_arity m t) 0 (map_arity m t) s (omega arith)
        (omega arith) (omega arith) (λ i lt. absurd (omega arith)) (λ i ge lt. absurd (omega arith))
