-- ===== src/Bytecode/Layout.antt =====
-- The operands of each instruction, from the comments on the constants of module `op`
-- (crates/ygg-bytecode/src/lib.rs): the table that the verifier and the instruction walk are
-- measured against.
use yggdrasil.Bytecode.Op.{
  Op, nop, load_int, load_atom, load_nil, move, self_pid, make_tuple, get_elem, cons, head, tail,
  add, sub, mul, cmp_eq, cmp_lt, jmp, jmp_if, call, ret, spawn, send, recv, print, exit_atom,
  port_open, port_submit, call_ext, band, bor, bxor, bsl, bsr, bnot, bin_new, bin_from_list,
  bin_to_list, bin_size, buf_to_bin, bin_to_buf, map_new, map_get, map_put, is_binary, bin_cat,
  list_cat, bin_part, tail_call_ext, port_submit2, tail_call, buf_write, sleep_ms, buf_new,
  buf_read, ticks, bin_at,
}
use yggdrasil.Prelude.{ℕ, Bool, true, false, List, [], ◌∷◌}

pub data Field : Type 0 where
  -- `r`; an immediate of some bytes; a u32 index of an atom; an i32 offset
  reg : Field
  bytes : ℕ → Field
  atom : Field
  offset : Field
  -- a u32 index of a function of one parameter
  entry : Field
  -- a count and that many registers, or pairs of registers
  regs : Field
  pairs : Field
  -- a u32 length and that many bytes
  blob : Field
  -- a u32 index of a function, a count, and that many registers
  callee : Field

unfoldable pub layout : Op → List Field
layout nop = []
layout load_int = reg ∷ (bytes 8) ∷ []
layout load_atom = reg ∷ atom ∷ []
layout load_nil = reg ∷ []
layout move = reg ∷ reg ∷ []
layout self_pid = reg ∷ []
layout make_tuple = reg ∷ regs ∷ []
layout get_elem = reg ∷ reg ∷ (bytes 1) ∷ []
layout cons = reg ∷ reg ∷ reg ∷ []
layout head = reg ∷ reg ∷ []
layout tail = reg ∷ reg ∷ []
layout add = reg ∷ reg ∷ reg ∷ []
layout sub = reg ∷ reg ∷ reg ∷ []
layout mul = reg ∷ reg ∷ reg ∷ []
layout cmp_eq = reg ∷ reg ∷ reg ∷ []
layout cmp_lt = reg ∷ reg ∷ reg ∷ []
layout jmp = offset ∷ []
layout jmp_if = reg ∷ offset ∷ []
layout call = reg ∷ callee ∷ []
layout ret = reg ∷ []
layout spawn = reg ∷ entry ∷ reg ∷ []
layout send = reg ∷ reg ∷ []
layout recv = reg ∷ []
layout print = reg ∷ []
layout exit_atom = reg ∷ []
layout port_open = reg ∷ (bytes 1) ∷ []
layout port_submit = reg ∷ (bytes 1) ∷ reg ∷ reg ∷ []
layout call_ext = reg ∷ atom ∷ atom ∷ regs ∷ []
layout band = reg ∷ reg ∷ reg ∷ []
layout bor = reg ∷ reg ∷ reg ∷ []
layout bxor = reg ∷ reg ∷ reg ∷ []
layout bsl = reg ∷ reg ∷ reg ∷ []
layout bsr = reg ∷ reg ∷ reg ∷ []
layout bnot = reg ∷ reg ∷ []
layout bin_new = reg ∷ blob ∷ []
layout bin_from_list = reg ∷ reg ∷ []
layout bin_to_list = reg ∷ reg ∷ []
layout bin_size = reg ∷ reg ∷ []
layout buf_to_bin = reg ∷ reg ∷ []
layout bin_to_buf = reg ∷ reg ∷ []
layout map_new = reg ∷ pairs ∷ []
layout map_get = reg ∷ reg ∷ reg ∷ []
layout map_put = reg ∷ reg ∷ reg ∷ reg ∷ []
layout is_binary = reg ∷ reg ∷ []
layout bin_cat = reg ∷ reg ∷ reg ∷ []
layout list_cat = reg ∷ reg ∷ reg ∷ []
layout bin_part = reg ∷ reg ∷ reg ∷ reg ∷ []
layout tail_call_ext = atom ∷ atom ∷ regs ∷ []
layout port_submit2 = reg ∷ reg ∷ reg ∷ reg ∷ reg ∷ []
layout tail_call = callee ∷ []
layout buf_write = reg ∷ reg ∷ reg ∷ reg ∷ []
layout sleep_ms = reg ∷ []
layout buf_new = reg ∷ reg ∷ []
layout buf_read = reg ∷ reg ∷ reg ∷ reg ∷ []
layout ticks = reg ∷ []
layout bin_at = reg ∷ reg ∷ reg ∷ []

-- Whether the next instruction can be reached without a jump.
unfoldable pub falls_through : Op → Bool
falls_through jmp = false
falls_through ret = false
falls_through exit_atom = false
falls_through tail_call = false
falls_through tail_call_ext = false
falls_through _ = true
