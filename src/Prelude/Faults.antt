-- ===== src/Prelude/Faults.antt =====
-- What a run of Rust code can come to: a value, an error value, or a panic. Code that loops is run
-- on fuel, and `timeout` says that the fuel ran out.
use Prim.Native.Nat.{ℕ, zero, suc, ◌<◌}
use mathlib.Core.Logic.{◌≢◌}
use mathlib.Core.List.{List, [], ◌∷◌}
use native.Mathlib.Omega.{arith}
use yggdrasil.Prelude.Tests.{ltb, lt→ltb, if◌then◌else◌}
use yggdrasil.Prelude.Lists.{length, set, get_or}
use mathlib.Core.Path.{◌≡◌, refl, ap}
use mathlib.Core.Bool.{Bool, true, false}
use mathlib.Core.Option.{Option, none, some}

pub data Outcome {ℓ} (E : Type 0) (A : Type ℓ) : Type ℓ where
  ok : A → Outcome E A
  err : E → Outcome E A
  panic : Outcome E A
  timeout : Outcome E A

infixl 5 ◌>>=◌ ◌>>◌
abbrev pub ◌>>=◌ {ℓ κ} :
    {E : Type 0} {A : Type ℓ} {B : Type κ} → Outcome E A → (A → Outcome E B) → Outcome E B
panic >>= next = panic
timeout >>= next = timeout
err e >>= next = err e
ok a >>= next = next a

-- `if !b { return Err(e) }`
abbrev pub guard : {E : Type 0} → (passes : Bool) → E → Outcome E (Unit {0})
guard passes e = elim passes [ false ↦ err e | true ↦ ok tt ]

abbrev pub ◌>>◌ {ℓ} : {E : Type 0} {B : Type ℓ} → Outcome E (Unit {0}) → Outcome E B → Outcome E B
first >> second = first >>= λ _. second

-- `assert!(b)`
abbrev pub assert : {E : Type 0} → Bool → Outcome E (Unit {0})
assert true = ok tt
assert false = panic

-- `o.ok_or(e)?`
abbrev pub ok_or {ℓ} : {E : Type 0} {A : Type ℓ} → Option A → E → Outcome E A
ok_or none e = err e
ok_or (some a) e = ok a

-- The run ends, with a value or with an error value: it does not panic and does not loop.
abbrev pub Returns {ℓ} : {E : Type 0} {A : Type ℓ} → Outcome E A → Type 0
Returns (ok a) = Unit
Returns (err e) = Unit
Returns panic = ⊥
Returns timeout = ⊥

module _ {ℓ κ} {E : Type 0} {A : Type ℓ} {B : Type κ} where
  pub >>=-eq-ok :
      (m : Outcome E A) (f : A → Outcome E B) {b : B}
      → (m >>= f) ≡ ok b
      → (a : A) × (m ≡ ok a) × (f a ≡ ok b)
  >>=-eq-ok panic f same = cc
  >>=-eq-ok timeout f same = cc
  >>=-eq-ok (err e) f same = cc
  >>=-eq-ok (ok a) f same = (a, refl, same)

  pub bind_assoc {μ} :
      {C : Type μ} (m : Outcome E A) (f : A → Outcome E B) (g : B → Outcome E C)
      → (m >>= f >>= g) ≡ (m >>= λ a. f a >>= g)
  bind_assoc (ok a) f g = refl
  bind_assoc (err e) f g = refl
  bind_assoc panic f g = refl
  bind_assoc timeout f g = refl

  pub bind_congr :
      (m : Outcome E A) {f g : A → Outcome E B} → ((a : A) → f a ≡ g a) → (m >>= f) ≡ (m >>= g)
  bind_congr m p = λ i. m >>= λ a. p a i

  pub bind-Returns :
      (m : Outcome E A) (f : A → Outcome E B)
      → Returns m
      → ((a : A) → m ≡ ok a → Returns (f a))
      → Returns (m >>= f)
  bind-Returns (ok a) f r h = h a refl
  bind-Returns (err e) f r h = tt
  bind-Returns panic f r h = elim r [ ]
  bind-Returns timeout f r h = elim r [ ]

pub guard-eq-ok : {E : Type 0} (b : Bool) (e : E) {u : Unit {0}} → guard b e ≡ ok u → b ≡ true
guard-eq-ok true e h = refl
guard-eq-ok false e h = cc

-- `xs[i]` and `xs[i] = v`, which panic out of range.
module _ {ℓ} {A : Type ℓ} where
  abbrev pub index : {E : Type 0} → List A → ℕ → Outcome E A
  index [] i = panic
  index (x ∷ xs) zero = ok x
  index (x ∷ xs) (suc i) = index xs i

  abbrev pub index_set : {E : Type 0} → List A → ℕ → A → Outcome E (List A)
  index_set xs i v = if ltb i (length xs) then ok (set xs i v) else panic

  pub index-eq-get_or :
      {E : Type 0} (xs : List A) (i : ℕ) (d : A)
      → i < length xs
      → index {E = E} xs i ≡ ok (get_or xs i d)
  index-eq-get_or [] i d h = elim h [ ]
  index-eq-get_or (x ∷ xs) zero d h = refl
  index-eq-get_or (x ∷ xs) (suc i) d h = index-eq-get_or xs i d (omega arith)

  pub index_set-eq :
      {E : Type 0} (xs : List A) (i : ℕ) (v : A)
      → i < length xs
      → index_set {E = E} xs i v ≡ ok (set xs i v)
  index_set-eq xs i v h = rw (lt→ltb i (length xs) h)

  pub get_or-set_self :
      (xs : List A) (i : ℕ) (v d : A) → i < length xs → get_or (set xs i v) i d ≡ v
  get_or-set_self [] i v d h = elim h [ ]
  get_or-set_self (x ∷ xs) zero v d h = refl
  get_or-set_self (x ∷ xs) (suc i) v d h = get_or-set_self xs i v d (omega arith)

  pub get_or-set_ne :
      (xs : List A) (i j : ℕ) (v d : A) → i ≢ j → get_or (set xs i v) j d ≡ get_or xs j d
  get_or-set_ne [] i j v d h = refl
  get_or-set_ne (x ∷ xs) zero zero v d h = absurd (h refl)
  get_or-set_ne (x ∷ xs) zero (suc j) v d h = refl
  get_or-set_ne (x ∷ xs) (suc i) zero v d h = refl
  get_or-set_ne (x ∷ xs) (suc i) (suc j) v d h = get_or-set_ne xs i j v d (λ e. h (ap suc e))
