-- ===== src/Interp/Fetch.antt =====
-- `Frame` and `jump` (crates/ygg-interp/src/lib.rs): fetching operands, registers and jumps.
use yggdrasil.Prelude.Int.{ℤ, pos, negsuc, ◌+ℤ◌, ltb_ℤ}
use yggdrasil.Term.{Term, as_int, as_i64}
use yggdrasil.Verify.{as_i32}
use yggdrasil.Interp.Api.{badarg, bad_code, SystemApi, Act, ◌>>=◌, ◌>>◌, lift, pure, fail, tell}
use yggdrasil.Prelude.{
  ℕ, zero, suc, ◌+◌, List, [], ◌∷◌, ltb, if◌then◌else◌, length, get_elem?, set, slice,
  from_le_bytes, ok, ok_or,
}

module _ {W : Type 0} where
  abbrev pub to_pc : ℕ → Act W (Unit {0})
  to_pc at s = (ok tt, record s { frame = record s.frame { pc = at } })

  unfoldable pub u8 : Act W ℕ
  u8 s =
      (lift (ok_or (get_elem? s.frame.code s.frame.pc) bad_code) >>= λ v.
      to_pc (s.frame.pc + 1) >> pure v)
        s

  -- `self.code.get(self.pc..self.pc + n).ok_or(Trap::BadCode)?`
  unfoldable pub bytes : ℕ → Act W (List ℕ)
  bytes n s =
      (lift (ok_or (slice s.frame.code s.frame.pc n) bad_code) >>= λ v.
      to_pc (s.frame.pc + n) >> pure v)
        s

  unfoldable pub u32 : Act W ℕ
  unfolding bytes
  u32 = do s ← bytes 4; pure (from_le_bytes s)

  unfoldable pub i32 : Act W ℤ
  unfolding u32
  i32 = do w ← u32; pure (as_i32 w)

  unfoldable pub i64 : Act W ℤ
  unfolding bytes
  i64 = do s ← bytes 8; pure (as_i64 (from_le_bytes s))

  -- `Frame::get` and `Frame::set`
  unfoldable pub get_reg : ℕ → Act W Term
  get_reg r s = lift (ok_or (get_elem? s.frame.regs r) badarg) s

  unfoldable pub set_reg : ℕ → Term → Act W (Unit {0})
  set_reg r v s =
      if ltb r (length s.frame.regs)
      then (ok tt, record s { frame = record s.frame { regs = set s.frame.regs r v } })
      else fail badarg s

  -- `fr.get(r)?.as_int().ok_or(Trap::Badarg)?`
  unfoldable pub get_int : ℕ → Act W ℤ
  unfolding get_reg as_int
  get_int r = do t ← get_reg r; lift (ok_or (as_int t) badarg)

  -- `fr.get(fr.u8()?)`, `n` times, in a loop that collects the terms
  unfoldable pub get_regs : ℕ → Act W (List Term)
  unfolding u8 get_reg
  get_regs zero = pure []
  get_regs (suc n) = do r ← u8; t ← get_reg r; rest ← get_regs n; pure (t ∷ rest)

  unfoldable pub get_pairs : ℕ → Act W (List (Term × Term))
  unfolding u8 get_reg
  get_pairs zero = pure []
  get_pairs (suc n) = do
    rk ← u8
    rv ← u8
    k ← get_reg rk
    v ← get_reg rv
    rest ← get_pairs n
    pure ((k, v) ∷ rest)

  abbrev pub jump_to : ℤ → Act W (Unit {0})
  jump_to (pos pc) s = if ltb (length s.frame.code) pc then fail bad_code s else to_pc pc s
  jump_to (negsuc _) s = fail bad_code s

  -- A jump backwards is a safepoint.
  unfoldable pub jump : SystemApi W → ℤ → Act W (Unit {0})
  jump api off s =
      ((if ltb_ℤ off (pos 0) then tell api.safepoint else pure tt)
          >> jump_to (pos s.frame.pc +ℤ off))
        s
