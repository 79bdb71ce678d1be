-- ===== src/Verify/Cursor.antt =====
-- crates/ygg-bytecode/src/verify.rs: `VerifyError`, and `Scan`, the cursor over one instruction.
use yggdrasil.Prelude.{
  ℕ, ◌+◌, List, ltb, if◌then◌else◌, length, get_elem?, slice, from_le_bytes, Outcome, ok, err,
  ◌>>=◌, ok_or,
}

pub data VerifyError : Type 0 where
  bad_function_name : (fn_idx : ℕ) → VerifyError
  arity_exceeds_regs : (fn_idx : ℕ) → VerifyError
  unknown_opcode : (fn_idx at opcode : ℕ) → VerifyError
  truncated_instruction : (fn_idx at : ℕ) → VerifyError
  bad_register : (fn_idx at reg : ℕ) → VerifyError
  bad_atom : (fn_idx at atom : ℕ) → VerifyError
  bad_jump_target : (fn_idx at : ℕ) → VerifyError
  bad_call_target : (fn_idx at callee : ℕ) → VerifyError
  bad_call_arity : (fn_idx at : ℕ) → VerifyError
  falls_off_end : (fn_idx : ℕ) → VerifyError

-- A computation that moves the cursor `Scan.at`.
abbrev pub Scan : Type 0 → Type 0
Scan A = ℕ → Outcome VerifyError (A × ℕ)

abbrev pub pure : {A : Type 0} → A → Scan A
pure a at = ok (a, at)

abbrev pub fail : {A : Type 0} → VerifyError → Scan A
fail e at = err e

infixl 5 ◌>>>=◌ ◌>>>◌
abbrev pub ◌>>>=◌ : {A B : Type 0} → Scan A → (A → Scan B) → Scan B
◌>>>=◌ m f at = m at >>= λ r. f r.0 r.1

abbrev pub ◌>>>◌ : {A B : Type 0} → Scan A → Scan B → Scan B
m >>> k = m >>>= λ _. k

-- The fields `code`, `start` and `fn_idx` of a `Scan` stay as they are while it reads an instruction.
module _ (code : List ℕ) (fn_idx start : ℕ) where
  -- `Scan::u8`
  unfoldable pub read_u8 : Scan ℕ
  read_u8 at =
      ok_or (get_elem? code at) (truncated_instruction fn_idx start) >>= λ v. ok (v, at + 1)

  -- `Scan::u32`
  unfoldable pub read_u32 : Scan ℕ
  read_u32 at = ok_or (slice code at 4) (truncated_instruction fn_idx start) >>= λ s.
      ok (from_le_bytes s, at + 4)

  -- `Scan::skip`
  unfoldable pub skip : ℕ → Scan (Unit {0})
  skip n at =
      if ltb (length code) (at + n)
      then err (truncated_instruction fn_idx start)
      else ok (tt, at + n)
