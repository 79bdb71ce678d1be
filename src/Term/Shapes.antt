-- ===== src/Term/Shapes.antt =====
-- Terms in memory (crates/ygg-term/src/lib.rs) that are well formed.
use yggdrasil.Term.{Term, kind, box_kind, tuple_arity, map_arity}
use yggdrasil.Term.Tags.{Kind}
use yggdrasil.Term.Store.{Memory, read_word}
use yggdrasil.Term.Heap.{HeapFull}
use yggdrasil.Term.Copy.{is_cons}
use yggdrasil.Prelude.{ℕ, zero, suc, ◌+◌, ◌*◌, ◌%◌, ◌≤◌, ◌<◌, ◌≡◌, ◌⊎◌, Bool, true, false, ok}

abbrev pub is_immediate : Kind → Bool
is_immediate Kind.tuple = false
is_immediate Kind.cons = false
is_immediate Kind.binary = false
is_immediate Kind.map = false
is_immediate _ = true

-- The word at `q` is not between `lo` and `hi`.
abbrev pub Away : (lo hi q : ℕ) → Type 0
Away lo hi q = (q + 8 ≤ lo) ⊎ (hi ≤ q)

-- Memory `m`, in which the words at the addresses of `Mine` are those of the terms.
module _ (m : Memory) (Mine : ℕ → Type 0) where
  -- The kind of a term: that of its tag, or that of the object that it points to.
  abbrev pub HasKind : Term → Kind → Type 0
  HasKind t k =
      ((n : Memory) → kind {E = HeapFull} n t ≡ ok k)
      ⊎ ((t % 8 ≡ 0) × Mine t × (box_kind {E = HeapFull} m (read_word m t) ≡ ok k))

  module _ (Part : Term → Type 0) where
    -- `n` words from `from` on, which are terms
    abbrev pub Parts : (from n : ℕ) → Type 0
    Parts from zero = Unit
    Parts from (suc n) = Mine from × Part (read_word m from) × Parts (from + 8) n

    -- a list of `n` cells, and what follows the last one
    abbrev pub Cells : ℕ → Term → Type 0
    Cells zero t = (k : Kind) × HasKind t k × (is_cons k ≡ false) × Part t
    Cells (suc n) t =
        HasKind t Kind.cons
        × (Mine (t + 8) × Part (read_word m (t + 8)))
        × Mine (t + 16)
        × Cells n (read_word m (t + 16))

    pub data Shape (d : ℕ) (t : Term) : Type 0 where
      immediate : (k : Kind) → HasKind t k → is_immediate k ≡ true → Shape d t
      tuple : HasKind t Kind.tuple → Mine t → Parts (t + 8) (tuple_arity m t) → Shape d t
      binary : HasKind t Kind.binary → Shape d t
      map :
          HasKind t Kind.map
          → Mine t
          → Parts (t + 8 * (1 + map_arity m t)) (map_arity m t)
          → Shape d t
      cons : (n : ℕ) → HasKind t Kind.cons → n < d → Cells n t → Shape d t

  -- A term of which the objects stand at those addresses and are nested less than `d` deep, with lists
  -- that are shorter than what is left of `d` there.
  abbrev pub Data : ℕ → Term → Type 0
  Data zero t = ⊥
  Data (suc d) t = Shape (Data d) d t
