-- ===== src/Interp/Words.antt =====
-- The operations on an i64 that the interpreter uses (crates/ygg-interp/src/lib.rs).
use yggdrasil.Prelude.Int.{ℤ, pos, negsuc}
use yggdrasil.Term.{as_u64, as_i64}
use yggdrasil.Prelude.{
  ℕ, zero, suc, ◌+◌, ◌-◌, ◌*◌, ◌/◌, ◌%◌, ◌^◌, Option, none, some, ltb, if◌then◌else◌,
}

-- `checked_add`, `checked_sub` and `checked_mul` give nothing out of range.
unfoldable pub in_i64 : ℤ → Option ℤ
in_i64 (pos n) = if ltb n (2 ^ 63) then some (pos n) else none
in_i64 (negsuc n) = if ltb n (2 ^ 63) then some (negsuc n) else none

-- an operation on bits, on the lowest `n` bits of two words
unfoldable pub bitwise : (ℕ → ℕ → ℕ) → ℕ → ℕ → ℕ → ℕ
bitwise op zero a b = 0
bitwise op (suc n) a b = op (a % 2) (b % 2) + 2 * bitwise op n (a / 2) (b / 2)

abbrev pub on_words : (ℕ → ℕ → ℕ) → ℤ → ℤ → ℤ
on_words op a b = as_i64 (bitwise op 64 (as_u64 a) (as_u64 b))

-- `a & b`, `a | b`, `a ^ b` and `!a`
unfoldable pub bit_and : ℤ → ℤ → ℤ
unfolding bitwise
bit_and = on_words λ x y. x * y

unfoldable pub bit_or : ℤ → ℤ → ℤ
unfolding bitwise
bit_or = on_words λ x y. x + y - x * y

unfoldable pub bit_xor : ℤ → ℤ → ℤ
unfolding bitwise
bit_xor = on_words λ x y. (x + y) % 2

unfoldable pub bit_not : ℤ → ℤ
bit_not (pos n) = negsuc n
bit_not (negsuc n) = pos n

-- `a.wrapping_shl(b)` and `a >> b`, for `b` below 64
unfoldable pub shift_left : ℤ → ℕ → ℤ
shift_left a b = as_i64 (as_u64 a * 2 ^ b % 2 ^ 64)

unfoldable pub shift_right : ℤ → ℕ → ℤ
shift_right (pos n) b = pos (n / 2 ^ b)
shift_right (negsuc n) b = negsuc (n / 2 ^ b)

-- `(lo..=hi).contains(&v)`, from 0: the value as a natural number
unfoldable pub up_to : ℕ → ℤ → Option ℕ
up_to hi (pos n) = if ltb hi n then none else some n
up_to hi (negsuc n) = none

-- the value of an integer that is not negative, as a usize
abbrev pub natural : ℤ → Option ℕ
natural (pos n) = some n
natural (negsuc n) = none
