-- ===== src/Atoms.antt =====
-- kernel/src/atoms.rs: the global table of atoms. Names are lists of bytes.
mod Tests
pub mod Intern
use yggdrasil.Prelude.{
  ℕ, zero, suc, ◌+◌, ◌%◌, ◌^◌, Bool, true, false, ◌&&◌, Option, none, some, List, [], ◌∷◌, ◌++◌,
  ◌==◌, if◌then◌else◌, length, get_elem?,
}

abbrev pub Text : Type 0
Text = List ℕ

abbrev pub same_text : Text → Text → Bool
same_text [] [] = true
same_text (x ∷ xs) (y ∷ ys) = (x == y) && same_text xs ys
same_text _ _ = false

pub record AtomTable : Type 0 where
  pub names : List Text
  pub index : List (Text × ℕ)

-- `index.get(name)` on the map as a list
abbrev pub lookup : List (Text × ℕ) → Text → Option ℕ
lookup [] s = none
lookup ((key, i) ∷ rest) s = if same_text key s then some i else lookup rest s

unfoldable pub intern : Text → AtomTable → ℕ × AtomTable
intern s t = elim (lookup t.index s) [
  | some i ↦ (i, t)
  | none ↦
      (let i : ℕ = length t.names % 2 ^ 32 in
        (i, record { names = t.names ++ s ∷ []; index = (s, i) ∷ t.index }))
]

-- "?badatom"
abbrev pub bad_atom : Text
bad_atom = 63 ∷ 98 ∷ 97 ∷ 100 ∷ 97 ∷ 116 ∷ 111 ∷ 109 ∷ []

unfoldable pub name : ℕ → AtomTable → Text
name i t = elim (get_elem? t.names i) [ some s ↦ s | none ↦ bad_atom ]
