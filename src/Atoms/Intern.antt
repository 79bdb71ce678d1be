-- ===== src/Atoms/Intern.antt =====
-- About `intern` (kernel/src/atoms.rs).
use mathlib.Core.Path.{subst}
use yggdrasil.Atoms.{Text, same_text, AtomTable, lookup, intern, name}
use yggdrasil.Prelude.{
  ℕ, zero, suc, ◌+◌, ◌%◌, ◌^◌, ◌≤◌, ◌<◌, ◌≡◌, refl, sym, ap, ◌∙◌, ◌⊎◌, inl, inr, Bool, true, false,
  none, some, List, [], ◌∷◌, ◌++◌, arith, ◌==◌, ==_iff, Bool-cases, Option-cases, length, get_elem?,
  if◌then◌else◌, length-append,
}

same_text-eq : (xs ys : Text) → same_text xs ys ≡ true → xs ≡ ys
same_text-eq [] [] h = refl
same_text-eq [] (y ∷ ys) h = cc
same_text-eq (x ∷ xs) [] h = cc
same_text-eq (x ∷ xs) (y ∷ ys) h = elim (Bool-cases (x == y)) [
  | inl e ↦
      let heads : x ≡ y = (==_iff x y).0 e in
      let tails : xs ≡ ys = same_text-eq xs ys (ground arith) in cc
  | inr e ↦ ground arith
]

pub same_text_refl : (xs : Text) → same_text xs xs ≡ true
same_text_refl [] = refl
same_text_refl (x ∷ xs) = ground (arith, same_text_refl xs)

-- Every entry of the index is the place of its name, and every name has its place in the index.
pub record IsConsistent (t : AtomTable) : Type 0 where
  pub few : length t.names < 2 ^ 32
  pub placed : (s : Text) (i : ℕ) → lookup t.index s ≡ some i → get_elem? t.names i ≡ some s
  pub indexed : (s : Text) (i : ℕ) → get_elem? t.names i ≡ some s → lookup t.index s ≡ some i

get_elem?-append_left {ℓ} :
    {A : Type ℓ} (xs ys : List A) (i : ℕ) (x : A)
    → get_elem? xs i ≡ some x
    → get_elem? (xs ++ ys) i ≡ some x
get_elem?-append_left [] ys i x h = cc
get_elem?-append_left (a ∷ xs) ys zero x h = h
get_elem?-append_left (a ∷ xs) ys (suc i) x h = get_elem?-append_left xs ys i x h

get_elem?-append_last {ℓ} :
    {A : Type ℓ} (xs : List A) (x : A) → get_elem? (xs ++ x ∷ []) (length xs) ≡ some x
get_elem?-append_last [] x = refl
get_elem?-append_last (a ∷ xs) x = get_elem?-append_last xs x

get_elem?-append_inv {ℓ} :
    {A : Type ℓ} (xs : List A) (x y : A) (i : ℕ)
    → get_elem? (xs ++ x ∷ []) i ≡ some y
    → (get_elem? xs i ≡ some y) ⊎ ((i ≡ length xs) × (x ≡ y))
get_elem?-append_inv [] x y zero h = inr (refl, cc)
get_elem?-append_inv [] x y (suc i) h = cc
get_elem?-append_inv (a ∷ xs) x y zero h = inl h
get_elem?-append_inv (a ∷ xs) x y (suc i) h = elim (get_elem?-append_inv xs x y i h) [
  | inl e ↦ inl e
  | inr (e, e') ↦ inr (ap suc e, e')
]

-- the table after a name that was not in it
abbrev added : Text → AtomTable → AtomTable
added s t = record { names = t.names ++ s ∷ []; index = (s, length t.names % 2 ^ 32) ∷ t.index }

lookup-head :
    (s s' : Text) (n : ℕ) (rest : List (Text × ℕ)) (b : Bool)
    → same_text s s' ≡ b
    → lookup ((s, n) ∷ rest) s' ≡ (if b then some n else lookup rest s')
lookup-head s s' n rest b e = ap (λ b. if b then some n else lookup rest s') e

module _ (s : Text) (t : AtomTable) (c : IsConsistent t) (new : lookup t.index s ≡ none) where
  place : length t.names % 2 ^ 32 ≡ length t.names
  place = let few = c.few in omega arith

  added-placed :
      (s' : Text) (i : ℕ)
      → lookup (added s t).index s' ≡ some i
      → get_elem? (added s t).names i ≡ some s'
  added-placed s' i h = elim (Bool-cases (same_text s s')) [
    | inl e ↦
        let here : length t.names % 2 ^ 32 ≡ i =
          cc (sym (lookup-head s s' (length t.names % 2 ^ 32) t.index true e) ∙ h) in
        let at : i ≡ length t.names = sym here ∙ place in
        let same : s ≡ s' = same_text-eq s s' e in rw (at, ← same) (get_elem?-append_last t.names s)
    | inr e ↦
        get_elem?-append_left t.names (s ∷ []) i s'
          (c.placed s' i (sym (lookup-head s s' (length t.names % 2 ^ 32) t.index false e) ∙ h))
  ]

  added-indexed :
      (s' : Text) (i : ℕ)
      → get_elem? (added s t).names i ≡ some s'
      → lookup (added s t).index s' ≡ some i
  added-indexed s' i h = elim (get_elem?-append_inv t.names s s' i h) [
    | inr (at, same) ↦
        lookup-head s s' (length t.names % 2 ^ 32) t.index true
          (subst (λ x. same_text s x ≡ true) same (same_text_refl s))
        ∙ ap some (place ∙ sym at)
    | inl e ↦ elim (Bool-cases (same_text s s')) [
      | inl q ↦
          let same : s ≡ s' = same_text-eq s s' q in
          let found : lookup t.index s ≡ some i = rw same (c.indexed s' i e) in cc (sym new ∙ found)
      | inr q ↦ lookup-head s s' (length t.names % 2 ^ 32) t.index false q ∙ c.indexed s' i e
    ]
  ]

  added-IsConsistent : length t.names + 1 < 2 ^ 32 → IsConsistent (added s t)
  added-IsConsistent small = record {
    few = omega (arith, length-append t.names (s ∷ []));
    placed = added-placed;
    indexed = added-indexed;
  }

-- What a call of `intern` does to the table: the number that it returns names the atom, and the
-- numbers that were given before name what they did.
pub record Interned (s : Text) (t : AtomTable) (i : ℕ) (t' : AtomTable) : Type 0 where
  pub consistent : IsConsistent t'
  pub named : name i t' ≡ s
  pub known : lookup t'.index s ≡ some i
  pub grown : length t'.names ≤ length t.names + 1
  pub kept : (j : ℕ) (x : Text) → get_elem? t.names j ≡ some x → get_elem? t'.names j ≡ some x

named_by : (i : ℕ) (s : Text) (t : AtomTable) → get_elem? t.names i ≡ some s → name i t ≡ s
unfolding name
named_by i s t e = rw (e, name) refl

intern-some : (s : Text) (t : AtomTable) (i : ℕ) → lookup t.index s ≡ some i → intern s t ≡ (i, t)
unfolding intern
intern-some s t i e = rw (e, intern) refl

intern-none :
    (s : Text) (t : AtomTable)
    → lookup t.index s ≡ none
    → intern s t ≡ (length t.names % 2 ^ 32, added s t)
unfolding intern
intern-none s t e = rw (e, intern) refl

-- On a consistent table of fewer than 2^32 - 1 atoms, `intern` returns a number that names the
-- atom, every number that was given before names what it did, and the table stays consistent.
pub intern_lem :
    (s : Text) (t : AtomTable)
    → IsConsistent t
    → length t.names + 1 < 2 ^ 32
    → Interned s t (intern s t).0 (intern s t).1
intern_lem s t c small = elim (Option-cases (lookup t.index s)) [
  | inr (i, e) ↦
      subst (λ p. Interned s t p.0 p.1) (sym (intern-some s t i e))
        (record {
          consistent = c;
          named = named_by i s t (c.placed s i e);
          known = e;
          grown = omega arith;
          kept = λ j x h. h;
        })
  | inl e ↦
      let c' = added-IsConsistent s t c e small in
      let at : lookup (added s t).index s ≡ some (length t.names % 2 ^ 32) =
        lookup-head s s (length t.names % 2 ^ 32) t.index true (same_text_refl s) in
      subst (λ p. Interned s t p.0 p.1) (sym (intern-none s t e))
        (record {
          consistent = c';
          named =
              named_by (length t.names % 2 ^ 32) s (added s t)
                (c'.placed s (length t.names % 2 ^ 32) at);
          known = at;
          grown = omega (arith, length-append t.names (s ∷ []));
          kept = λ j x h. get_elem?-append_left t.names (s ∷ []) j x h;
        })
]

-- Two names that are interned one after the other, in a consistent table of fewer than 2^32 - 2
-- atoms, get the same number only if they are the same.
pub intern-injective :
    (s x : Text) (t : AtomTable)
    → IsConsistent t
    → length t.names + 2 < 2 ^ 32
    → (intern x (intern s t).1).0 ≡ (intern s t).0
    → x ≡ s
intern-injective s x t c small same =
    let first = intern_lem s t c (omega arith) in
    let room : length (intern s t).1.names + 1 < 2 ^ 32 = (let g = first.grown in omega arith) in
    let second = intern_lem x (intern s t).1 first.consistent room in
    let at : get_elem? (intern s t).1.names (intern s t).0 ≡ some s =
      first.consistent.placed s (intern s t).0 first.known in
    let later = second.kept (intern s t).0 s at in
    let here = second.consistent.placed x (intern x (intern s t).1).0 second.known in
    let both : some x ≡ some s =
      sym here ∙ ap (get_elem? (intern x (intern s t).1).1.names) same ∙ later in
    cc both
