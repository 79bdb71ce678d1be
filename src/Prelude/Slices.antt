-- ===== src/Prelude/Slices.antt =====
-- Slices `xs[a..b]`, read with a bound check, and little-endian words.
use Prim.Native.Nat.{ℕ, zero, suc, ◌+◌, ◌*◌, ◌/◌, ◌%◌, ◌^◌, ◌<◌}
use mathlib.Core.Path.{◌≡◌, refl, ap}
use mathlib.Core.Option.{Option, none, some}
use mathlib.Core.List.{List, [], ◌∷◌, ◌++◌}
use native.Mathlib.Omega.{arith}
use yggdrasil.Prelude.Tests.{ltb, leb, if◌then◌else◌}
use yggdrasil.Prelude.Lists.{length, take, drop}

-- `xs.get(at..at + n)`
abbrev pub slice {ℓ} : {A : Type ℓ} → List A → ℕ → ℕ → Option (List A)
slice xs at n = if leb (at + n) (length xs) then some (take n (drop at xs)) else none

-- `a.checked_add(n)` on usize
abbrev pub checked_add : ℕ → ℕ → Option ℕ
checked_add a n = if ltb (a + n) (2 ^ 64) then some (a + n) else none

-- `uN::from_le_bytes`
abbrev pub from_le_bytes : List ℕ → ℕ
from_le_bytes [] = 0
from_le_bytes (b ∷ bs) = b + 256 * from_le_bytes bs

-- `n.to_le_bytes()` of a word of `k` bytes
abbrev pub to_le_bytes : ℕ → ℕ → List ℕ
to_le_bytes zero n = []
to_le_bytes (suc k) n = n % 256 ∷ to_le_bytes k (n / 256)

abbrev pub AllBytes : List ℕ → Type 0
AllBytes [] = Unit
AllBytes (b ∷ bs) = (b < 256) × AllBytes bs

pub length-to_le_bytes : (k n : ℕ) → length (to_le_bytes k n) ≡ k
length-to_le_bytes zero n = refl
length-to_le_bytes (suc k) n = ap suc (length-to_le_bytes k (n / 256))

-- A word of four bytes is read back.
pub from_to_le_bytes_4 : (n : ℕ) → n < 2 ^ 32 → from_le_bytes (to_le_bytes 4 n) ≡ n
from_to_le_bytes_4 n h = omega arith

pub from_to_le_bytes_2 : (n : ℕ) → n < 2 ^ 16 → from_le_bytes (to_le_bytes 2 n) ≡ n
from_to_le_bytes_2 n h = omega arith

pub from_le_bytes-lt_4 :
    (a b c d : ℕ) → AllBytes (a ∷ b ∷ c ∷ d ∷ []) → from_le_bytes (a ∷ b ∷ c ∷ d ∷ []) < 2 ^ 32
from_le_bytes-lt_4 a b c d h = omega arith

module _ {ℓ} {A : Type ℓ} where
  pub drop-append : (xs ys : List A) → drop (length xs) (xs ++ ys) ≡ ys
  drop-append [] ys = refl
  drop-append (x ∷ xs) ys = drop-append xs ys

  pub take-append : (xs ys : List A) → take (length xs) (xs ++ ys) ≡ xs
  take-append [] ys = refl
  take-append (x ∷ xs) ys = ap (λ r. x ∷ r) (take-append xs ys)
