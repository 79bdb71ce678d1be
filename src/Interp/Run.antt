-- ===== src/Interp/Run.antt =====
-- `run_function` (crates/ygg-interp/src/lib.rs): jumps, calls and returns, the dispatch and the loop.
use yggdrasil.Prelude.Int.{pos, ltb_ℤ}
use yggdrasil.Bytecode.{Module}
use yggdrasil.Bytecode.Op.{Op, of_opcode}
use yggdrasil.Term.{Term, nil_term}
use yggdrasil.Interp.Api.{
  badarg, bad_code, SystemApi, Act, ◌>>=◌, ◌>>◌, lift, pure, fail, call, change, tell,
}
use yggdrasil.Interp.Fetch.{u8, u32, i32, get_reg, set_reg, get_int, get_regs, jump}
use yggdrasil.Prelude.{
  ℕ, zero, suc, ◌-◌, true, false, ◌&&◌, ◌||◌, Option, none, some, List, ◌++◌, leb, ◌==◌, length,
  get_elem?, replicate, err, timeout,
}
use yggdrasil.Interp.Numbers.{run_number}
use yggdrasil.Interp.Binaries.{run_binary}
use yggdrasil.Interp.Data.{run_map}
use yggdrasil.Interp.System.{run_port}

-- the reserved word that stands for a tail call
abbrev pub tail_sentinel : Term
tail_sentinel = 7

-- The part of the interpreter that an instruction belongs to.
pub data Group : Type 0 where
  data_ops number_ops binary_ops system_ops control_ops : Group

unfoldable pub group : Op → Group
group Op.load_int = data_ops
group Op.load_atom = data_ops
group Op.load_nil = data_ops
group Op.move = data_ops
group Op.self_pid = data_ops
group Op.ticks = data_ops
group Op.make_tuple = data_ops
group Op.get_elem = data_ops
group Op.cons = data_ops
group Op.head = data_ops
group Op.tail = data_ops
group Op.map_new = data_ops
group Op.map_get = data_ops
group Op.map_put = data_ops
group Op.add = number_ops
group Op.sub = number_ops
group Op.mul = number_ops
group Op.cmp_eq = number_ops
group Op.cmp_lt = number_ops
group Op.band = number_ops
group Op.bor = number_ops
group Op.bxor = number_ops
group Op.bsl = number_ops
group Op.bsr = number_ops
group Op.bnot = number_ops
group Op.bin_new = binary_ops
group Op.bin_from_list = binary_ops
group Op.bin_to_list = binary_ops
group Op.bin_size = binary_ops
group Op.is_binary = binary_ops
group Op.bin_cat = binary_ops
group Op.list_cat = binary_ops
group Op.bin_part = binary_ops
group Op.bin_at = binary_ops
group Op.nop = control_ops
group Op.jmp = control_ops
group Op.jmp_if = control_ops
group Op.call = control_ops
group Op.ret = control_ops
group Op.call_ext = control_ops
group Op.tail_call = control_ops
group Op.tail_call_ext = control_ops
group _ = system_ops

module _ {W : Type 0} (api : SystemApi W) where
  -- the atoms and the arguments of the two instructions that call another module
  unfoldable pub external : Act W (ℕ × ℕ × List Term)
  unfolding u8 u32 get_regs
  external = do
    mlocal ← u32
    flocal ← u32
    n ← u8
    args ← get_regs n
    mg ← change (api.atom_global mlocal)
    fg ← change (api.atom_global flocal)
    tell api.safepoint
    pure (mg, fg, args)

  -- What ends the function is the result; nothing is returned when the loop goes on.
  unfoldable pub run_control : (run : ℕ → List Term → Act W Term) → Op → Act W (Option Term)
  unfolding u8 u32 i32 get_reg get_int set_reg get_regs jump external
  run_control run Op.jmp = do off ← i32; jump api off; pure none
  run_control run Op.jmp_if = do
    rc ← u8
    off ← i32
    c ← get_int rc
    elim (ltb_ℤ c (pos 0) || ltb_ℤ (pos 0) c) [ true ↦ jump api off | false ↦ pure tt ]
    pure none
  run_control run Op.call = do
    rd ← u8
    callee ← u32
    n ← u8
    args ← get_regs n
    tell api.safepoint
    v ← run callee args
    elim (v == tail_sentinel) [
      | true ↦ pure (some tail_sentinel)
      | false ↦ do set_reg rd v; pure none
    ]
  run_control run Op.ret = do rs ← u8; v ← get_reg rs; pure (some v)
  run_control run Op.call_ext = do
    rd ← u8
    (mg, fg, args) ← external
    v ← call (api.call_ext mg fg args)
    set_reg rd v
    pure none
  run_control run Op.tail_call = do
    callee ← u32
    n ← u8
    args ← get_regs n
    tell api.safepoint
    tell (api.tail_call_local callee args)
    pure (some tail_sentinel)
  run_control run Op.tail_call_ext = do
    (mg, fg, args) ← external
    tell (api.tail_call mg fg args)
    pure (some tail_sentinel)
  run_control run _ = pure none

  unfoldable pub run_group :
      ℕ → (run : ℕ → List Term → Act W Term) → Op → Group → Act W (Option Term)
  unfolding run_control run_map run_number run_binary run_port
  run_group fuel run o data_ops = do run_map api fuel o; pure none
  run_group fuel run o number_ops = do run_number api fuel o; pure none
  run_group fuel run o binary_ops = do run_binary api fuel o; pure none
  run_group fuel run o system_ops = do run_port api o; pure none
  run_group fuel run o control_ops = run_control run o

  -- one round of the loop
  unfoldable pub step : ℕ → (run : ℕ → List Term → Act W Term) → Act W (Option Term)
  unfolding run_group group u8
  step fuel run = do
    opcode ← u8
    elim (of_opcode opcode) [ none ↦ fail bad_code | some o ↦ run_group fuel run o (group o) ]

  -- `run_function` up to the loop, which runs on a frame of its own
  unfoldable pub enter : Module → (body : Act W Term) → (fn_idx : ℕ) → List Term → Act W Term
  enter m body fn_idx args s = elim (get_elem? m.functions fn_idx) [
    | none ↦ (err bad_code, s)
    | some f ↦ elim (length args == f.arity && leb (length args) f.nregs) [
      | false ↦ (err badarg, s)
      | true ↦
          (let regs : List Term = args ++ replicate (f.nregs - length args) nil_term in
            let (o, s') =
              body (record s { frame = record { code = f.code; pc = 0; regs = regs } }) in
            (o, record s' { frame = s.frame }))
    ]
  ]

  -- The loop; the fuel bounds the rounds and the depth of the calls.
  unfoldable pub run_loop : Module → ℕ → Act W Term
  unfolding step enter
  run_loop m zero = lift timeout
  run_loop m (suc fuel) = step fuel (enter m (run_loop m fuel)) >>= λ r. elim r [
    | some v ↦ pure v
    | none ↦ run_loop m fuel
  ]

  unfoldable pub run_function : Module → ℕ → (fn_idx : ℕ) → List Term → Act W Term
  unfolding run_loop enter
  run_function m fuel = enter m (run_loop m fuel)
