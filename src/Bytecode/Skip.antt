-- ===== src/Bytecode/Skip.antt =====
-- crates/ygg-bytecode/src/lib.rs: `skip_operands`, the walk over instructions.
use yggdrasil.Bytecode.Op.{
  Op, of_opcode, nop, load_int, load_atom, load_nil, move, self_pid, make_tuple, get_elem, cons,
  head, tail, add, sub, mul, cmp_eq, cmp_lt, jmp, jmp_if, call, ret, spawn, send, recv, print,
  exit_atom, port_open, port_submit, call_ext, band, bor, bxor, bsl, bsr, bnot, bin_new,
  bin_from_list, bin_to_list, bin_size, buf_to_bin, bin_to_buf, map_new, map_get, map_put,
  is_binary, bin_cat, list_cat, bin_part, tail_call_ext, port_submit2, tail_call, buf_write,
  sleep_ms, buf_new, buf_read, ticks, bin_at,
}
use yggdrasil.Prelude.{
  ℕ, ◌+◌, ◌*◌, Option, none, some, List, leb, if◌then◌else◌, length, get_elem?, slice, checked_add,
  from_le_bytes,
}

module _ (code : List ℕ) (at : ℕ) where
  -- the closure `fixed`
  unfoldable pub fixed : ℕ → Option ℕ
  fixed n = elim (checked_add at n) [
    | none ↦ none
    | some e ↦ (if leb e (length code) then some e else none)
  ]

  -- `let n = *code.get(at + i)? as usize; fixed(k n)`
  unfoldable pub counted : ℕ → (ℕ → ℕ) → Option ℕ
  unfolding fixed
  counted i size = elim (get_elem? code (at + i)) [ none ↦ none | some n ↦ fixed (size n) ]

-- `opcode` is the constant that the byte is; for any other byte the walk stops.
unfoldable pub skip_known : Op → List ℕ → ℕ → Option ℕ
unfolding fixed counted
skip_known nop code at = fixed code at 0
skip_known load_int code at = fixed code at 9
skip_known load_atom code at = fixed code at 5
skip_known load_nil code at = fixed code at 1
skip_known move code at = fixed code at 2
skip_known self_pid code at = fixed code at 1
skip_known make_tuple code at = counted code at 1 (λ n. 2 + n)
skip_known get_elem code at = fixed code at 3
skip_known cons code at = fixed code at 3
skip_known head code at = fixed code at 2
skip_known tail code at = fixed code at 2
skip_known add code at = fixed code at 3
skip_known sub code at = fixed code at 3
skip_known mul code at = fixed code at 3
skip_known cmp_eq code at = fixed code at 3
skip_known cmp_lt code at = fixed code at 3
skip_known jmp code at = fixed code at 4
skip_known jmp_if code at = fixed code at 5
skip_known call code at = counted code at 5 (λ n. 6 + n)
skip_known ret code at = fixed code at 1
skip_known spawn code at = fixed code at 6
skip_known send code at = fixed code at 2
skip_known recv code at = fixed code at 1
skip_known print code at = fixed code at 1
skip_known exit_atom code at = fixed code at 1
skip_known port_open code at = fixed code at 2
skip_known port_submit code at = fixed code at 4
skip_known call_ext code at = counted code at 9 (λ n. 10 + n)
skip_known band code at = fixed code at 3
skip_known bor code at = fixed code at 3
skip_known bxor code at = fixed code at 3
skip_known bsl code at = fixed code at 3
skip_known bsr code at = fixed code at 3
skip_known bnot code at = fixed code at 2
skip_known bin_new code at = elim (slice code (at + 1) 4) [
  | none ↦ none
  | some s ↦ fixed code at (5 + from_le_bytes s)
]
skip_known bin_from_list code at = fixed code at 2
skip_known bin_to_list code at = fixed code at 2
skip_known bin_size code at = fixed code at 2
skip_known buf_to_bin code at = fixed code at 2
skip_known bin_to_buf code at = fixed code at 2
skip_known map_new code at = counted code at 1 (λ n. 2 + 2 * n)
skip_known map_get code at = fixed code at 3
skip_known map_put code at = fixed code at 4
skip_known is_binary code at = fixed code at 2
skip_known bin_cat code at = fixed code at 3
skip_known list_cat code at = fixed code at 3
skip_known bin_part code at = fixed code at 4
skip_known tail_call_ext code at = counted code at 8 (λ n. 9 + n)
skip_known port_submit2 code at = fixed code at 5
skip_known tail_call code at = counted code at 4 (λ n. 5 + n)
skip_known buf_write code at = fixed code at 4
skip_known sleep_ms code at = fixed code at 1
skip_known buf_new code at = fixed code at 2
skip_known buf_read code at = fixed code at 4
skip_known ticks code at = fixed code at 1
skip_known bin_at code at = fixed code at 3

-- `skip_operands`
unfoldable pub skip_operands : ℕ → List ℕ → ℕ → Option ℕ
unfolding skip_known
skip_operands b code at = elim (of_opcode b) [ none ↦ none | some o ↦ skip_known o code at ]
