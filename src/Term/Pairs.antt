-- ===== src/Term/Pairs.antt =====
-- The pairs of a map in the making (`Heap::map_from_pairs`, crates/ygg-term/src/lib.rs).
use mathlib.Core.List.{reverse, reverse_aux, reverse-cons}
use mathlib.Core.Path.{subst}
use yggdrasil.Term.{Term}
use yggdrasil.Term.Heap.{Pairs, insert, sort_by_key, dedup}
use yggdrasil.Prelude.{
  inl, inr, ℕ, ◌≤◌, ◌<◌, ◌≡◌, refl, ap, ◌∙◌, true, false, Option, none, some, [], ◌∷◌, ◌++◌, arith,
  leb, leb→le, ◌==◌, ==_iff, Bool-cases, if◌then◌else◌,
}

-- the value of the last pair with the key `x`, or `before`
abbrev pub last_from : Pairs → ℕ → Option Term → Option Term
last_from [] x before = before
last_from ((k, v) ∷ ps) x before = last_from ps x (if k == x then some v else before)

abbrev pub last_value : Pairs → ℕ → Option Term
last_value ps x = last_from ps x none

-- the same of pairs in the opposite order
last_back : Pairs → ℕ → Option Term → Option Term
last_back [] x before = before
last_back ((k, v) ∷ ps) x before = if k == x then some v else last_back ps x before

last_from-append :
    (ps qs : Pairs) (x : ℕ) (before : Option Term)
    → last_from (ps ++ qs) x before ≡ last_from qs x (last_from ps x before)
last_from-append [] qs x before = refl
last_from-append ((k, v) ∷ ps) qs x before =
    last_from-append ps qs x (if k == x then some v else before)

last_from-reverse :
    (ps : Pairs) (x : ℕ) (before : Option Term)
    → last_from (reverse ps) x before ≡ last_back ps x before
unfolding last_back
last_from-reverse [] x before = refl
last_from-reverse ((k, v) ∷ ps) x before =
    ap (λ qs. last_from qs x before) (reverse-cons (k, v) ps)
    ∙ last_from-append (reverse ps) ((k, v) ∷ []) x before
    ∙ rw (last_from-reverse ps x before)

swapped :
    (k k' x : ℕ) (v v' : Term) (before : Option Term)
    → leb k k' ≡ false
    → (if k == x then some v else (if k' == x then some v' else before))
      ≡ (if k' == x then some v' else (if k == x then some v else before))
swapped k k' x v v' before e = ground arith

replaced :
    (k k' x : ℕ) (v v' : Term) (before : Option Term)
    → (k == k') ≡ true
    → (if k' == x then some v' else before)
      ≡ (if k' == x then some v' else (if k == x then some v else before))
replaced k k' x v v' before e = ground arith

last_from-insert :
    (k : ℕ) (v : Term) (ps : Pairs) (x : ℕ) (before : Option Term)
    → last_from (insert (k, v) ps) x before ≡ last_from ps x (if k == x then some v else before)
unfolding insert
last_from-insert k v [] x before = refl
last_from-insert k v ((k', v') ∷ ps) x before = elim (Bool-cases (leb k k')) [
  | inl e ↦ rw e
  | inr e ↦ rw (
    e,
    last_from-insert k v ps x (if k' == x then some v' else before),
    swapped k k' x v v' before e,
  )
]

last_from-sort :
    (ps : Pairs) (x : ℕ) (before : Option Term)
    → last_from (sort_by_key ps) x before ≡ last_from ps x before
unfolding sort_by_key
last_from-sort [] x before = refl
last_from-sort ((k, v) ∷ ps) x before =
    last_from-insert k v (sort_by_key ps) x before
    ∙ last_from-sort ps x (if k == x then some v else before)

last_from-dedup :
    (kept ps : Pairs) (x : ℕ) (before : Option Term)
    → last_from (dedup kept ps) x before ≡ last_from ps x (last_back kept x before)
unfolding dedup last_back
last_from-dedup kept [] x before = last_from-reverse kept x before
last_from-dedup [] ((k, v) ∷ ps) x before = last_from-dedup ((k, v) ∷ []) ps x before
last_from-dedup ((k, v) ∷ kept) ((k', v') ∷ ps) x before = elim (Bool-cases (k == k')) [
  | inl e ↦ rw e (
      last_from-dedup ((k', v') ∷ kept) ps x before
      ∙ ap (last_from ps x) (replaced k k' x v v' (last_back kept x before) e))
  | inr e ↦ rw e (last_from-dedup ((k', v') ∷ (k, v) ∷ kept) ps x before)
]

-- `k` is related to the first key, if there is one.
abbrev pub Starts : (ℕ → ℕ → Type 0) → ℕ → Pairs → Type 0
Starts R k [] = Unit
Starts R k ((k', v) ∷ ps) = R k k'

-- Each key is related to the next.
abbrev pub Linked : (ℕ → ℕ → Type 0) → Pairs → Type 0
Linked R [] = Unit
Linked R ((k, v) ∷ ps) = Starts R k ps × Linked R ps

-- The keys increase, so that none occurs twice.
abbrev pub IsIncreasing : Pairs → Type 0
IsIncreasing = Linked λ a b. a < b

abbrev IsOrdered : Pairs → Type 0
IsOrdered = Linked λ a b. a ≤ b

abbrev IsFalling : Pairs → Type 0
IsFalling = Linked λ a b. b < a

-- the first key of the pairs kept, against the pairs to come
abbrev Meets : (ℕ → ℕ → Type 0) → Pairs → Pairs → Type 0
Meets R [] ps = Unit
Meets R ((k, v) ∷ kept) ps = Starts R k ps

insert-Starts :
    (j k : ℕ) (v : Term) (ps : Pairs)
    → j ≤ k
    → Starts (λ a b. a ≤ b) j ps
    → Starts (λ a b. a ≤ b) j (insert (k, v) ps)
unfolding insert
insert-Starts j k v [] le h = le
insert-Starts j k v ((k', v') ∷ ps) le h = elim (Bool-cases (leb k k')) [
  | inl e ↦ rw e le
  | inr e ↦ rw e h
]

insert-IsOrdered : (k : ℕ) (v : Term) (ps : Pairs) → IsOrdered ps → IsOrdered (insert (k, v) ps)
unfolding insert
insert-IsOrdered k v [] h = (tt, tt)
insert-IsOrdered k v ((k', v') ∷ ps) (s, h) = elim (Bool-cases (leb k k')) [
  | inl e ↦ rw e (leb→le k k' e, (s, h))
  | inr e ↦
      (let le : k' ≤ k = ground arith in
        rw e (insert-Starts k' k v ps le s, insert-IsOrdered k v ps h))
]

sort-IsOrdered : (ps : Pairs) → IsOrdered (sort_by_key ps)
unfolding sort_by_key
sort-IsOrdered [] = tt
sort-IsOrdered ((k, v) ∷ ps) = insert-IsOrdered k v (sort_by_key ps) (sort-IsOrdered ps)

reverse-IsIncreasing :
    (kept ps : Pairs)
    → IsFalling kept
    → Meets (λ a b. a < b) kept ps
    → IsIncreasing ps
    → IsIncreasing (reverse_aux kept ps)
reverse-IsIncreasing [] ps f m h = h
reverse-IsIncreasing ((k, v) ∷ []) ps f m h = (m, h)
reverse-IsIncreasing ((k, v) ∷ (k', v') ∷ kept) ps (f, fs) m h =
    reverse-IsIncreasing ((k', v') ∷ kept) ((k, v) ∷ ps) fs f (m, h)

falling-Meets : (kept : Pairs) → Meets (λ a b. a < b) kept []
falling-Meets [] = tt
falling-Meets ((k, v) ∷ kept) = tt

dedup-IsIncreasing :
    (kept ps : Pairs)
    → IsFalling kept
    → Meets (λ a b. a ≤ b) kept ps
    → IsOrdered ps
    → IsIncreasing (dedup kept ps)
unfolding dedup
dedup-IsIncreasing kept [] f m h = reverse-IsIncreasing kept [] f (falling-Meets kept) tt
dedup-IsIncreasing [] ((k, v) ∷ ps) f m (s, h) = dedup-IsIncreasing ((k, v) ∷ []) ps (tt, tt) s h
dedup-IsIncreasing ((k, v) ∷ kept) ((k', v') ∷ ps) (f, fs) m (s, h) = elim (Bool-cases (k == k')) [
  | inl e ↦
      (let same : k ≡ k' = (==_iff k k').0 e in
        rw e (
          dedup-IsIncreasing ((k', v') ∷ kept) ps
            (subst (λ j. Starts (λ a b. b < a) j kept) same f, fs) s h))
  | inr e ↦
      (let lt : k < k' = ground arith in
        rw e (dedup-IsIncreasing ((k', v') ∷ (k, v) ∷ kept) ps (lt, (f, fs)) s h))
]

-- The pairs that `map_from_pairs` writes have increasing keys, and each key has the value of its
-- last pair among those given; a key without a pair has none.
pub dedup-sort :
    (ps : Pairs)
    → IsIncreasing (dedup [] (sort_by_key ps))
      × ((x : ℕ) → last_value (dedup [] (sort_by_key ps)) x ≡ last_value ps x)
unfolding last_back
dedup-sort ps = (
  dedup-IsIncreasing [] (sort_by_key ps) tt tt (sort-IsOrdered ps),
  λ x. last_from-dedup [] (sort_by_key ps) x none ∙ last_from-sort ps x none,
)
