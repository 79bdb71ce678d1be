-- ===== src/Verify/Table.antt =====
-- The match of crates/ygg-bytecode/src/verify.rs against the table of operands.
use yggdrasil.Prelude.Int.{ℤ}
use yggdrasil.Bytecode.{Function, Module}
use yggdrasil.Bytecode.Layout
use yggdrasil.Bytecode.Layout.{Field, layout}
use yggdrasil.Verify
use yggdrasil.Verify.Cursor.{Scan, pure, ◌>>>=◌, ◌>>>◌}
use yggdrasil.Verify.{
  as_i32, contains, Effect, State, verify_op, verify_instr, verify_loop, lands, check_targets,
  initial, verify_fn, verify_from, verify,
}
use yggdrasil.Bytecode.Op.{
  Op, nop, load_int, load_atom, load_nil, move, self_pid, make_tuple, get_elem, cons, head, tail,
  add, sub, mul, cmp_eq, cmp_lt, jmp, jmp_if, call, ret, spawn, send, recv, print, exit_atom,
  port_open, port_submit, call_ext, band, bor, bxor, bsl, bsr, bnot, bin_new, bin_from_list,
  bin_to_list, bin_size, buf_to_bin, bin_to_buf, map_new, map_get, map_put, is_binary, bin_cat,
  list_cat, bin_part, tail_call_ext, port_submit2, tail_call, buf_write, sleep_ms, buf_new,
  buf_read, ticks, bin_at,
}
use yggdrasil.Prelude.{ℕ, ◌≡◌, refl, Option, none, some, List, [], ◌∷◌, bind_assoc}

module _ (m : Module) (fn_idx : ℕ) (f : Function) (at : ℕ) where
  -- One operand of the table, checked by the verifier's reads and tests.
  unfoldable pub check_field : Field → Scan (Option ℤ)
  check_field Field.reg = Verify.reg m fn_idx f at >>> pure none
  check_field (Field.bytes n) = Verify.skip_bytes m fn_idx f at n >>> pure none
  check_field Field.atom = Verify.atom m fn_idx f at >>> pure none
  check_field Field.offset = Verify.jump m fn_idx f at >>>= λ t. pure (some t)
  check_field Field.entry = Verify.entry m fn_idx f at >>> pure none
  check_field Field.regs =
      Verify.u8 m fn_idx f at >>>= λ n. Verify.regs m fn_idx f at n >>> pure none
  check_field Field.pairs =
      Verify.u8 m fn_idx f at >>>= λ n. Verify.reg_pairs m fn_idx f at n >>> pure none
  check_field Field.blob =
      Verify.u32 m fn_idx f at >>>= λ n. Verify.skip_bytes m fn_idx f at n >>> pure none
  check_field Field.callee = Verify.callee m fn_idx f at >>> pure none

  -- The operands in their order; the target is that of the last operand.
  unfoldable pub check_fields : List Field → Option ℤ → Scan (Option ℤ)
  unfolding check_field
  check_fields [] t = pure t
  check_fields (x ∷ xs) t = check_field x >>>= check_fields xs

  -- Every arm of the verifier's match checks the operands that the table of operand layouts lists,
  -- in their order, and lets control fall through where the table says so.
  pub verify_op-layout :
      (o : Op) (now : ℕ)
      → verify_op m fn_idx f at o now
        ≡ (check_fields (layout o) none >>>= λ t.
              pure (record { target = t; falls_through = Layout.falls_through o }))
            now
  unfolding verify_op layout Layout.falls_through check_fields
  verify_op-layout nop now = refl
  verify_op-layout load_int now = simp bind_assoc
  verify_op-layout load_atom now = simp bind_assoc
  verify_op-layout load_nil now = simp bind_assoc
  verify_op-layout move now = simp bind_assoc
  verify_op-layout self_pid now = simp bind_assoc
  verify_op-layout make_tuple now = simp bind_assoc
  verify_op-layout get_elem now = simp bind_assoc
  verify_op-layout cons now = simp bind_assoc
  verify_op-layout head now = simp bind_assoc
  verify_op-layout tail now = simp bind_assoc
  verify_op-layout add now = simp bind_assoc
  verify_op-layout sub now = simp bind_assoc
  verify_op-layout mul now = simp bind_assoc
  verify_op-layout cmp_eq now = simp bind_assoc
  verify_op-layout cmp_lt now = simp bind_assoc
  verify_op-layout jmp now = simp bind_assoc
  verify_op-layout jmp_if now = simp bind_assoc
  verify_op-layout call now = simp bind_assoc
  verify_op-layout ret now = simp bind_assoc
  verify_op-layout spawn now = simp bind_assoc
  verify_op-layout send now = simp bind_assoc
  verify_op-layout recv now = simp bind_assoc
  verify_op-layout print now = simp bind_assoc
  verify_op-layout exit_atom now = simp bind_assoc
  verify_op-layout port_open now = simp bind_assoc
  verify_op-layout port_submit now = simp bind_assoc
  verify_op-layout call_ext now = simp bind_assoc
  verify_op-layout band now = simp bind_assoc
  verify_op-layout bor now = simp bind_assoc
  verify_op-layout bxor now = simp bind_assoc
  verify_op-layout bsl now = simp bind_assoc
  verify_op-layout bsr now = simp bind_assoc
  verify_op-layout bnot now = simp bind_assoc
  verify_op-layout bin_new now = simp bind_assoc
  verify_op-layout bin_from_list now = simp bind_assoc
  verify_op-layout bin_to_list now = simp bind_assoc
  verify_op-layout bin_size now = simp bind_assoc
  verify_op-layout buf_to_bin now = simp bind_assoc
  verify_op-layout bin_to_buf now = simp bind_assoc
  verify_op-layout map_new now = simp bind_assoc
  verify_op-layout map_get now = simp bind_assoc
  verify_op-layout map_put now = simp bind_assoc
  verify_op-layout is_binary now = simp bind_assoc
  verify_op-layout bin_cat now = simp bind_assoc
  verify_op-layout list_cat now = simp bind_assoc
  verify_op-layout bin_part now = simp bind_assoc
  verify_op-layout tail_call_ext now = simp bind_assoc
  verify_op-layout port_submit2 now = simp bind_assoc
  verify_op-layout tail_call now = simp bind_assoc
  verify_op-layout buf_write now = simp bind_assoc
  verify_op-layout sleep_ms now = simp bind_assoc
  verify_op-layout buf_new now = simp bind_assoc
  verify_op-layout buf_read now = simp bind_assoc
  verify_op-layout ticks now = simp bind_assoc
  verify_op-layout bin_at now = simp bind_assoc
