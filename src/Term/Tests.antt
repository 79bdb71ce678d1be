-- ===== src/Term/Tests.antt =====
-- Terms of integers at the ends of the range, and objects in an arena of eight words.
use yggdrasil.Prelude.Int.{pos, negsuc}
use yggdrasil.Term.Store.{read_word, write_word}
use yggdrasil.Term.Shapes
use yggdrasil.Term.Copy.{copy_term}
use yggdrasil.Term.{head, Term, int, as_int, map_arity, map_key, map_get}
use yggdrasil.Term.Lookup.{IsSorted, Lookup, map_get_lem}
use yggdrasil.Term.Pairs.{IsIncreasing, last_value, dedup-sort}
use yggdrasil.Term.Immediate.{wrap_61, as_int-int, as_int-int_wraps}
use yggdrasil.Term.Heap.{HeapFull, Heap, heap_full, cons, tuple, Pairs, dedup, sort_by_key}
use yggdrasil.Term.Objects.{IsValid, Extends, IsCell, IsTuple, cons_lem, tuple_lem}
use yggdrasil.Prelude.{
  Outcome, Option, none, ℕ, zero, suc, if◌then◌else◌, ◌==◌, ◌^◌, ◌<◌, ◌≤◌, ◌-◌, ◌≡◌, refl, ◌⊎◌, [],
  ◌∷◌, some, arith, ok, err,
}

abbrev arena : Heap
arena = record { mem = λ a. 0; base = 4096; cap_words = 8; top = 2 }

arena-IsValid : IsValid arena
arena-IsValid = record { aligned = refl; within = omega arith; addressable = omega arith }

as_int-int_example : as_int (int (negsuc (2 ^ 60 - 1))) ≡ some (negsuc (2 ^ 60 - 1))
as_int-int_example = as_int-int (negsuc (2 ^ 60 - 1)) (omega arith)

as_int-int_wraps_example : as_int (int (pos (2 ^ 60))) ≡ some (wrap_61 (pos (2 ^ 60)))
as_int-int_wraps_example = as_int-int_wraps (pos (2 ^ 60)) (omega arith)

cons_lem_example :
    ((8 < 5) × (cons 9 5 arena ≡ err heap_full))
    ⊎ ((5 ≤ 8)
        × (t : Term) × (h' : Heap) × (cons 9 5 arena ≡ ok (t, h'))
        × IsCell h'.mem t 9 5
        × IsValid h'
        × Extends arena 3 h')
cons_lem_example = cons_lem 9 5 arena arena-IsValid (omega arith) (omega arith)

tuple_lem_example :
    ((8 < 5) × (tuple (9 ∷ 17 ∷ []) arena ≡ err heap_full))
    ⊎ ((5 ≤ 8)
        × (t : Term) × (h' : Heap) × (tuple (9 ∷ 17 ∷ []) arena ≡ ok (t, h'))
        × IsTuple h'.mem t (9 ∷ 17 ∷ [])
        × IsValid h'
        × Extends arena 3 h')
tuple_lem_example = tuple_lem (9 ∷ 17 ∷ []) arena arena-IsValid (omega arith, (omega arith, tt))

-- a map of the keys 9 and 17 at 4096
abbrev map_words : ℕ → ℕ
map_words a =
    if a == 4096
    then 19
    else (if a == 4104 then 9 else (if a == 4112 then 17 else (if a == 4120 then 25 else 0)))

two_keys-IsSorted : IsSorted map_words 4096 (map_arity map_words 4096)
unfolding map_arity map_key
two_keys-IsSorted zero (suc zero) lt end = omega arith
two_keys-IsSorted zero (suc (suc j)) lt end = absurd (omega arith)
two_keys-IsSorted i zero lt end = absurd (omega arith)
two_keys-IsSorted (suc i) (suc j) lt end = absurd (omega arith)

map_get_lem_example :
    Lookup map_words 4096 17 (map_arity map_words 4096) (map_get map_words 4096 17)
map_get_lem_example = map_get_lem map_words 4096 17 two_keys-IsSorted

abbrev repeated : Pairs
repeated = (17, 1) ∷ (9, 1) ∷ (17, 33) ∷ []

dedup-sort_example :
    IsIncreasing (dedup [] (sort_by_key repeated))
    × ((x : ℕ) → last_value (dedup [] (sort_by_key repeated)) x ≡ last_value repeated x)
dedup-sort_example = dedup-sort repeated

-- a list of one integer, outside the arena
abbrev with_list : ℕ → ℕ
with_list a = if a == 64 then 1 else if a == 72 then 9 else if a == 80 then 5 else 0

abbrev below : Heap
below = record { mem = with_list; base = 4096; cap_words = 8; top = 2 }

copied : Outcome HeapFull (Term × Heap) → Option (Term × ℕ)
copied (ok (t, h)) = some (t, h.top)
copied _ = none

list_copied : copied (copy_term 3 64 below) ≡ some (4112, 5)
unfolding copied copy_term read_word write_word head
list_copied = refl
