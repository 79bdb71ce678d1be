-- ===== src/Interp/Numbers.antt =====
-- The arms of the match of `run_function` (crates/ygg-interp/src/lib.rs) on integers.
use yggdrasil.Prelude.Int.{ℤ, pos, ◌+ℤ◌, ◌-ℤ◌, ◌*ℤ◌, ltb_ℤ}
use yggdrasil.Bytecode.Op.{Op}
use yggdrasil.Term.{int}
use yggdrasil.Term.Eq.{eq}
use yggdrasil.Interp.Api.{badarg, SystemApi, Act, ◌>>=◌, lift, pure}
use yggdrasil.Interp.Words.{
  in_i64, bit_and, bit_or, bit_xor, bit_not, shift_left, shift_right, up_to,
}
use yggdrasil.Interp.Fetch.{u8, get_reg, set_reg, get_int}
use yggdrasil.Interp.Allocate.{memory}
use yggdrasil.Prelude.{ℕ, Bool, Option, none, some, if◌then◌else◌, ok_or}

-- `e as i64` of a bool
abbrev pub flag : Bool → ℤ
flag b = pos (if b then 1 else 0)

module _ {W : Type 0} (api : SystemApi W) (fuel : ℕ) where
  -- two registers, an operation on their integers that may trap, and the register of the result
  unfoldable pub binary_op : (ℤ → ℤ → Option ℤ) → Act W (Unit {0})
  unfolding u8 get_int set_reg int
  binary_op op = do
    rd ← u8
    ra ← u8
    rb ← u8
    a ← get_int ra
    b ← get_int rb
    v ← lift (ok_or (op a b) badarg)
    set_reg rd (int v)

  -- `BSL` and `BSR`: a shift by 0 to 60, cut to 61 bits
  unfoldable pub shifted : (ℤ → ℕ → ℤ) → ℤ → ℤ → Option ℤ
  unfolding up_to shift_left shift_right
  shifted shift a b = elim (up_to 60 b) [
    | none ↦ none
    | some n ↦ some (shift_right (shift_left (shift a n) 3) 3)
  ]

  unfoldable pub run_number : Op → Act W (Unit {0})
  unfolding binary_op shifted in_i64 bit_and bit_or bit_xor bit_not shift_left shift_right u8
      get_reg get_int set_reg int eq
  run_number Op.add = binary_op λ a b. in_i64 (a +ℤ b)
  run_number Op.sub = binary_op λ a b. in_i64 (a -ℤ b)
  run_number Op.mul = binary_op λ a b. in_i64 (a *ℤ b)
  run_number Op.cmp_eq = do
    rd ← u8
    ra ← u8
    rb ← u8
    a ← get_reg ra
    b ← get_reg rb
    m ← memory api
    e ← lift (eq fuel m a b)
    set_reg rd (int (flag e))
  run_number Op.cmp_lt = binary_op λ a b. some (flag (ltb_ℤ a b))
  run_number Op.band = binary_op λ a b. some (bit_and a b)
  run_number Op.bor = binary_op λ a b. some (bit_or a b)
  run_number Op.bxor = binary_op λ a b. some (bit_xor a b)
  run_number Op.bsl = binary_op (shifted shift_left)
  run_number Op.bsr = binary_op (shifted shift_right)
  run_number Op.bnot = do rd ← u8; rs ← u8; a ← get_int rs; set_reg rd (int (bit_not a))
  run_number _ = pure tt
