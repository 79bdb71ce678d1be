-- ===== src/Verify.antt =====
-- crates/ygg-bytecode/src/verify.rs: the verifier of one function and of a module.
mod Tests
pub mod Cursor
pub mod Table
pub mod Fits
pub mod Sizes
pub mod Walk
pub mod Flow
pub mod Round
pub mod Safety
pub mod Total
use yggdrasil.Prelude.Int.{ℤ, pos, negsuc, ◌+ℤ◌}
use yggdrasil.Bytecode.{Function, Module}
use Cursor.{
  VerifyError, bad_function_name, arity_exceeds_regs, unknown_opcode, truncated_instruction,
  bad_register, bad_atom, bad_jump_target, bad_call_target, bad_call_arity, falls_off_end, Scan,
  pure, fail, ◌>>>=◌, ◌>>>◌, read_u8, read_u32, skip,
}
use yggdrasil.Bytecode.Op.{
  Op, of_opcode, opcode, nop, load_int, load_atom, load_nil, move, self_pid, make_tuple, get_elem,
  cons, head, tail, add, sub, mul, cmp_eq, cmp_lt, jmp, jmp_if, call, ret, spawn, send, recv, print,
  exit_atom, port_open, port_submit, call_ext, band, bor, bxor, bsl, bsr, bnot, bin_new,
  bin_from_list, bin_to_list, bin_size, buf_to_bin, bin_to_buf, map_new, map_get, map_put,
  is_binary, bin_cat, list_cat, bin_part, tail_call_ext, port_submit2, tail_call, buf_write,
  sleep_ms, buf_new, buf_read, ticks, bin_at,
}
use yggdrasil.Prelude.{
  ℕ, zero, suc, ◌+◌, ◌-◌, ◌*◌, ◌/◌, ◌%◌, ◌^◌, ◌≤◌, ◌<◌, min, ◌≡◌, refl, sym, ap, ◌∙◌, ◌≢◌, ◌↔◌, ◌⊎◌,
  inl, inr, Bool, true, false, not, ◌&&◌, ◌||◌, Option, none, some, List, [], ◌∷◌, ◌++◌, map, arith,
  ltb, leb, ◌==◌, if◌then◌else◌, ltb→lt, lt→ltb, leb→le, ==_iff, tests, Bool-cases, Option-cases,
  length, get_elem?, set, get_or, take, drop, replicate, length-append, length-set,
  get_elem?-set_self, get_elem?-set_ne, length-map, length-take, length-drop, length-replicate,
  slice, from_le_bytes, to_le_bytes, AllBytes, Outcome, ok, err, panic, timeout, ◌>>=◌, ◌>>◌, guard,
  assert, ok_or, Returns, >>=-eq-ok, bind_assoc, bind_congr, bind-Returns, guard-eq-ok, index,
  index_set, index-eq-get_or, index_set-eq, get_or-set_self, get_or-set_ne,
}

-- `as i32`: the integer that a word of 32 bits stands for.
abbrev pub as_i32 : ℕ → ℤ
as_i32 w = if ltb w (2 ^ 31) then pos w else negsuc (2 ^ 32 - w - 1)

-- `boundaries.contains(&x)`
abbrev pub contains : List ℕ → ℕ → Bool
contains [] x = false
contains (y ∷ ys) x = y == x || contains ys x

-- What an arm of the match leaves in the loop's variables: the absolute target that it pushes on
-- `jump_targets`, and `fell_through`.
pub record Effect : Type 0 where
  pub target : Option ℤ
  pub falls_through : Bool

-- The local variables of the loop; `boundaries` is a set, held as a list.
pub record State : Type 0 where
  pub at : ℕ
  pub boundaries : List ℕ
  pub jump_targets : List (ℕ × ℤ)
  pub fell_through : Bool

-- `jump_targets.push((at, target))` of an arm that has a target
abbrev pub push_target : ℕ → Option ℤ → List (ℕ × ℤ) → List (ℕ × ℤ)
push_target at none js = js
push_target at (some t) js = js ++ (at, t) ∷ []

module _ (m : Module) (fn_idx : ℕ) (f : Function) where
  -- the arms, for the instruction at `at`
  module _ (at : ℕ) where
    abbrev pub u8 : Scan ℕ
    u8 = read_u8 f.code fn_idx at

    abbrev pub u32 : Scan ℕ
    u32 = read_u32 f.code fn_idx at

    abbrev pub skip_bytes : ℕ → Scan (Unit {0})
    skip_bytes = skip f.code fn_idx at

    -- the closure `reg_ok`
    unfoldable pub reg_ok : ℕ → Scan (Unit {0})
    reg_ok r = if leb f.nregs r then fail (bad_register fn_idx at r) else pure tt

    -- `reg_ok(s.u8()?, at)?`
    unfoldable pub reg : Scan (Unit {0})
    unfolding reg_ok
    reg = u8 >>>= reg_ok

    -- `for _ in 0..n { reg_ok(s.u8()?, at)?; }`
    unfoldable pub regs : ℕ → Scan (Unit {0})
    unfolding reg
    regs zero = pure tt
    regs (suc n) = reg >>> regs n

    -- the same with two registers a round
    unfoldable pub reg_pairs : ℕ → Scan (Unit {0})
    unfolding reg
    reg_pairs zero = pure tt
    reg_pairs (suc n) = reg >>> reg >>> reg_pairs n

    -- `let a = s.u32()?;` and the test that the atom table has it
    unfoldable pub atom : Scan (Unit {0})
    atom = u32 >>>= λ a. elim (get_elem? m.atoms a) [
      | none ↦ fail (bad_atom fn_idx at a)
      | some _ ↦ pure tt
    ]

    -- `s.at as i64 + off as i64`, after reading `off`
    unfoldable pub jump : Scan ℤ
    jump = u32 >>>= λ off now. ok (pos now +ℤ as_i32 off, now)

    -- the callee, the count of the arguments, the tests, and the arguments
    unfoldable pub callee : Scan (Unit {0})
    unfolding regs
    callee = u32 >>>= λ c. u8 >>>= λ nargs. elim (get_elem? m.functions c) [
      | none ↦ fail (bad_call_target fn_idx at c)
      | some target ↦
          (if target.arity == nargs then regs nargs else fail (bad_call_arity fn_idx at))
    ]

    -- the function that `SPAWN` starts, which takes one argument
    unfoldable pub entry : Scan (Unit {0})
    entry = u32 >>>= λ c. elim (get_elem? m.functions c) [
      | none ↦ fail (bad_call_target fn_idx at c)
      | some target ↦ (if target.arity == 1 then pure tt else fail (bad_call_arity fn_idx at))
    ]

    abbrev pub falls : Scan Effect
    falls = pure (record { target = none; falls_through = true })

    abbrev pub stops : Scan Effect
    stops = pure (record { target = none; falls_through = false })

    -- `match opcode { … }`
    unfoldable pub verify_op : Op → Scan Effect
    unfolding reg regs reg_pairs atom jump callee entry
    verify_op nop = falls
    verify_op load_int = reg >>> skip_bytes 8 >>> falls
    verify_op load_atom = reg >>> atom >>> falls
    verify_op load_nil = reg >>> falls
    verify_op move = reg >>> reg >>> falls
    verify_op self_pid = reg >>> falls
    verify_op make_tuple = reg >>> u8 >>>= λ n. regs n >>> falls
    verify_op get_elem = reg >>> reg >>> skip_bytes 1 >>> falls
    verify_op cons = reg >>> reg >>> reg >>> falls
    verify_op head = reg >>> reg >>> falls
    verify_op tail = reg >>> reg >>> falls
    verify_op add = reg >>> reg >>> reg >>> falls
    verify_op sub = reg >>> reg >>> reg >>> falls
    verify_op mul = reg >>> reg >>> reg >>> falls
    verify_op cmp_eq = reg >>> reg >>> reg >>> falls
    verify_op cmp_lt = reg >>> reg >>> reg >>> falls
    verify_op jmp = jump >>>= λ t. pure (record { target = some t; falls_through = false })
    verify_op jmp_if =
        reg >>> jump >>>= λ t. pure (record { target = some t; falls_through = true })
    verify_op call = reg >>> callee >>> falls
    verify_op ret = reg >>> stops
    verify_op spawn = reg >>> entry >>> reg >>> falls
    verify_op send = reg >>> reg >>> falls
    verify_op recv = reg >>> falls
    verify_op print = reg >>> falls
    verify_op exit_atom = reg >>> stops
    verify_op port_open = reg >>> skip_bytes 1 >>> falls
    verify_op port_submit = reg >>> skip_bytes 1 >>> reg >>> reg >>> falls
    verify_op call_ext = reg >>> atom >>> atom >>> u8 >>>= λ nargs. regs nargs >>> falls
    verify_op band = reg >>> reg >>> reg >>> falls
    verify_op bor = reg >>> reg >>> reg >>> falls
    verify_op bxor = reg >>> reg >>> reg >>> falls
    verify_op bsl = reg >>> reg >>> reg >>> falls
    verify_op bsr = reg >>> reg >>> reg >>> falls
    verify_op bnot = reg >>> reg >>> falls
    verify_op bin_new = reg >>> u32 >>>= λ len. skip_bytes len >>> falls
    verify_op bin_from_list = reg >>> reg >>> falls
    verify_op bin_to_list = reg >>> reg >>> falls
    verify_op bin_size = reg >>> reg >>> falls
    verify_op buf_to_bin = reg >>> reg >>> falls
    verify_op bin_to_buf = reg >>> reg >>> falls
    verify_op map_new = reg >>> u8 >>>= λ n. reg_pairs n >>> falls
    verify_op map_get = reg >>> reg >>> reg >>> falls
    verify_op map_put = reg >>> reg >>> reg >>> reg >>> falls
    verify_op is_binary = reg >>> reg >>> falls
    verify_op bin_cat = reg >>> reg >>> reg >>> falls
    verify_op list_cat = reg >>> reg >>> reg >>> falls
    verify_op bin_part = reg >>> reg >>> reg >>> reg >>> falls
    verify_op tail_call_ext = atom >>> atom >>> u8 >>>= λ nargs. regs nargs >>> stops
    verify_op port_submit2 = regs 5 >>> falls
    verify_op tail_call = callee >>> stops
    verify_op buf_write = regs 4 >>> falls
    verify_op sleep_ms = reg >>> falls
    verify_op buf_new = reg >>> reg >>> falls
    verify_op buf_read = regs 4 >>> falls
    verify_op ticks = reg >>> falls
    verify_op bin_at = reg >>> reg >>> reg >>> falls

    abbrev pub verify_known : ℕ → Option Op → Scan Effect
    verify_known b none = fail (unknown_opcode fn_idx at b)
    verify_known b (some o) = verify_op o

    -- the match on a byte: any byte but the constants is refused
    unfoldable pub verify_match : ℕ → Scan Effect
    unfolding verify_op
    verify_match b = verify_known b (of_opcode b)

  -- One round of the loop.
  unfoldable pub verify_instr : State → Outcome VerifyError State
  unfolding verify_match
  verify_instr s = do
    (b, now) ← u8 s.at s.at
    (e, next) ← verify_match s.at b now
    ok (record {
      at = next;
      boundaries = s.at ∷ s.boundaries;
      jump_targets = push_target s.at e.target s.jump_targets;
      fell_through = e.falls_through;
    })

  -- `while s.at < f.code.len()`
  unfoldable pub verify_loop : ℕ → State → Outcome VerifyError State
  verify_loop zero s = timeout
  verify_loop (suc fuel) s = elim (ltb s.at (length f.code)) [
    | true ↦ verify_instr s >>= verify_loop fuel
    | false ↦ ok s
  ]

  -- the test that every jump lands on a boundary
  unfoldable pub lands : List ℕ → ℤ → Bool
  lands boundaries (pos t) = contains boundaries t
  lands boundaries (negsuc _) = false

  unfoldable pub check_targets : List ℕ → List (ℕ × ℤ) → Outcome VerifyError (Unit {0})
  unfolding lands
  check_targets boundaries [] = ok tt
  check_targets boundaries ((at, target) ∷ rest) =
      if lands boundaries target
      then check_targets boundaries rest
      else err (bad_jump_target fn_idx at)

  abbrev pub initial : State
  initial = record { at = 0; boundaries = []; jump_targets = []; fell_through = true }

  unfoldable pub verify_fn : Outcome VerifyError (Unit {0})
  unfolding verify_loop check_targets
  verify_fn = do
    _ ← ok_or (get_elem? m.atoms f.name_atom) (bad_function_name fn_idx)
    guard (leb f.arity f.nregs) (arity_exceeds_regs fn_idx)
    s ← verify_loop (length f.code + 1) initial
    guard (not s.fell_through) (falls_off_end fn_idx)
    check_targets s.boundaries s.jump_targets

-- the loop of `verify` over the functions from `fn_idx` on
unfoldable pub verify_from : Module → ℕ → List Function → Outcome VerifyError (Unit {0})
unfolding verify_fn
verify_from m fn_idx [] = ok tt
verify_from m fn_idx (f ∷ fs) = verify_fn m fn_idx f >> verify_from m (fn_idx + 1) fs

unfoldable pub verify : Module → Outcome VerifyError (Unit {0})
unfolding verify_from
verify m = verify_from m 0 m.functions
