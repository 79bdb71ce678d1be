-- ===== src/Atoms/Tests.antt =====
-- The table after one name.
use yggdrasil.Atoms.{Text, AtomTable, intern}
use yggdrasil.Atoms.Intern.{IsConsistent, Interned, intern_lem, intern-injective}
use yggdrasil.Prelude.{◌≡◌, refl, [], ◌∷◌, arith}

abbrev empty : AtomTable
empty = record { names = []; index = [] }

empty-IsConsistent : IsConsistent empty
empty-IsConsistent = record { few = omega arith; placed = λ s i h. cc; indexed = λ s i h. cc }

intern_lem_example :
    Interned
      (111 ∷ 107 ∷ [])
      empty
      (intern (111 ∷ 107 ∷ []) empty).0
      (intern (111 ∷ 107 ∷ []) empty).1
intern_lem_example = intern_lem (111 ∷ 107 ∷ []) empty empty-IsConsistent (omega arith)

again : (intern (111 ∷ []) (intern (111 ∷ []) empty).1).0 ≡ (intern (111 ∷ []) empty).0
unfolding intern
again = refl

intern-injective_example : ◌≡◌ {A = Text} (111 ∷ []) (111 ∷ [])
intern-injective_example =
    intern-injective (111 ∷ []) (111 ∷ []) empty empty-IsConsistent (omega arith) again
