-- ===== src/Verify/Walk.antt =====
-- About the instruction walk (`skip_operands`, crates/ygg-bytecode/src/lib.rs) and well-formed
-- operands.
use mathlib.Core.Option.{some-injective}
use yggdrasil.Prelude.Int.{ℤ}
use yggdrasil.Bytecode.{Function, Module}
use yggdrasil.Bytecode.Layout.{layout}
use yggdrasil.Bytecode.Op.{
  Op, of_opcode, nop, load_int, load_atom, load_nil, move, self_pid, make_tuple, get_elem, cons,
  head, tail, add, sub, mul, cmp_eq, cmp_lt, jmp, jmp_if, call, ret, spawn, send, recv, print,
  exit_atom, port_open, port_submit, call_ext, band, bor, bxor, bsl, bsr, bnot, bin_new,
  bin_from_list, bin_to_list, bin_size, buf_to_bin, bin_to_buf, map_new, map_get, map_put,
  is_binary, bin_cat, list_cat, bin_part, tail_call_ext, port_submit2, tail_call, buf_write,
  sleep_ms, buf_new, buf_read, ticks, bin_at,
}
use yggdrasil.Bytecode.Skip.{fixed, counted, skip_known, skip_operands}
use yggdrasil.Verify.Fits.{RegsFit, PairsFit, FieldsFit}
use yggdrasil.Prelude.{
  ℕ, ◌+◌, ◌*◌, ◌^◌, ◌≤◌, ◌<◌, ◌≡◌, sym, ap, ◌∙◌, inl, inr, Option, none, some, List, arith,
  Option-cases, length, get_elem?, slice, from_le_bytes,
}
use yggdrasil.Verify.Sizes.{
  get_elem?-lt, total_size, FieldsFit-le, FieldsFit-size, RegsFit-step, PairsFit-step, fixed_size,
}

-- Where the sizes are fixed, the walk skips their sum.
skip_known-total :
    (o : Op) (n : ℕ) (code : List ℕ) (at : ℕ)
    → total_size (layout o) ≡ some n
    → skip_known o code at ≡ fixed code at n
unfolding total_size fixed_size layout skip_known
skip_known-total nop k code at e = ap (fixed code at) (some-injective _ _ e)
skip_known-total load_int k code at e = ap (fixed code at) (some-injective _ _ e)
skip_known-total load_atom k code at e = ap (fixed code at) (some-injective _ _ e)
skip_known-total load_nil k code at e = ap (fixed code at) (some-injective _ _ e)
skip_known-total move k code at e = ap (fixed code at) (some-injective _ _ e)
skip_known-total self_pid k code at e = ap (fixed code at) (some-injective _ _ e)
skip_known-total make_tuple k code at e = cc
skip_known-total get_elem k code at e = ap (fixed code at) (some-injective _ _ e)
skip_known-total cons k code at e = ap (fixed code at) (some-injective _ _ e)
skip_known-total head k code at e = ap (fixed code at) (some-injective _ _ e)
skip_known-total tail k code at e = ap (fixed code at) (some-injective _ _ e)
skip_known-total add k code at e = ap (fixed code at) (some-injective _ _ e)
skip_known-total sub k code at e = ap (fixed code at) (some-injective _ _ e)
skip_known-total mul k code at e = ap (fixed code at) (some-injective _ _ e)
skip_known-total cmp_eq k code at e = ap (fixed code at) (some-injective _ _ e)
skip_known-total cmp_lt k code at e = ap (fixed code at) (some-injective _ _ e)
skip_known-total jmp k code at e = ap (fixed code at) (some-injective _ _ e)
skip_known-total jmp_if k code at e = ap (fixed code at) (some-injective _ _ e)
skip_known-total call k code at e = cc
skip_known-total ret k code at e = ap (fixed code at) (some-injective _ _ e)
skip_known-total spawn k code at e = ap (fixed code at) (some-injective _ _ e)
skip_known-total send k code at e = ap (fixed code at) (some-injective _ _ e)
skip_known-total recv k code at e = ap (fixed code at) (some-injective _ _ e)
skip_known-total print k code at e = ap (fixed code at) (some-injective _ _ e)
skip_known-total exit_atom k code at e = ap (fixed code at) (some-injective _ _ e)
skip_known-total port_open k code at e = ap (fixed code at) (some-injective _ _ e)
skip_known-total port_submit k code at e = ap (fixed code at) (some-injective _ _ e)
skip_known-total call_ext k code at e = cc
skip_known-total band k code at e = ap (fixed code at) (some-injective _ _ e)
skip_known-total bor k code at e = ap (fixed code at) (some-injective _ _ e)
skip_known-total bxor k code at e = ap (fixed code at) (some-injective _ _ e)
skip_known-total bsl k code at e = ap (fixed code at) (some-injective _ _ e)
skip_known-total bsr k code at e = ap (fixed code at) (some-injective _ _ e)
skip_known-total bnot k code at e = ap (fixed code at) (some-injective _ _ e)
skip_known-total bin_new k code at e = cc
skip_known-total bin_from_list k code at e = ap (fixed code at) (some-injective _ _ e)
skip_known-total bin_to_list k code at e = ap (fixed code at) (some-injective _ _ e)
skip_known-total bin_size k code at e = ap (fixed code at) (some-injective _ _ e)
skip_known-total buf_to_bin k code at e = ap (fixed code at) (some-injective _ _ e)
skip_known-total bin_to_buf k code at e = ap (fixed code at) (some-injective _ _ e)
skip_known-total map_new k code at e = cc
skip_known-total map_get k code at e = ap (fixed code at) (some-injective _ _ e)
skip_known-total map_put k code at e = ap (fixed code at) (some-injective _ _ e)
skip_known-total is_binary k code at e = ap (fixed code at) (some-injective _ _ e)
skip_known-total bin_cat k code at e = ap (fixed code at) (some-injective _ _ e)
skip_known-total list_cat k code at e = ap (fixed code at) (some-injective _ _ e)
skip_known-total bin_part k code at e = ap (fixed code at) (some-injective _ _ e)
skip_known-total tail_call_ext k code at e = cc
skip_known-total port_submit2 k code at e = ap (fixed code at) (some-injective _ _ e)
skip_known-total tail_call k code at e = cc
skip_known-total buf_write k code at e = ap (fixed code at) (some-injective _ _ e)
skip_known-total sleep_ms k code at e = ap (fixed code at) (some-injective _ _ e)
skip_known-total buf_new k code at e = ap (fixed code at) (some-injective _ _ e)
skip_known-total buf_read k code at e = ap (fixed code at) (some-injective _ _ e)
skip_known-total ticks k code at e = ap (fixed code at) (some-injective _ _ e)
skip_known-total bin_at k code at e = ap (fixed code at) (some-injective _ _ e)

module _ (m : Module) (f : Function) (small : length f.code < 2 ^ 64) where
  fixed-eq : (at n : ℕ) → at + n ≤ length f.code → fixed f.code at n ≡ some (at + n)
  unfolding fixed
  fixed-eq at n le = ground arith

  counted_at :
      (at i n mid : ℕ) (size : ℕ → ℕ)
      → mid ≡ at + i
      → get_elem? f.code mid ≡ some n
      → counted f.code at i size ≡ fixed f.code at (size n)
  unfolding counted
  counted_at at i n mid size em e =
      ap
        (λ (o : Option ℕ).
          let r : Option ℕ = elim o [ none ↦ none | some k ↦ fixed f.code at (size k) ] in r)
        (ap (get_elem? f.code) (sym em) ∙ e)

  RegsFit-end : (n at next : ℕ) → RegsFit m f n at next → at ≤ length f.code → next ≡ at + n
  RegsFit-end n at next h le = (RegsFit-step m f n at next h le).0

  PairsFit-end : (n at next : ℕ) → PairsFit m f n at next → at ≤ length f.code → next ≡ at + 2 * n
  PairsFit-end n at next h le = (PairsFit-step m f n at next h le).0

  counted-eq :
      (at i n : ℕ) (size : ℕ → ℕ) (mid next : ℕ)
      → get_elem? f.code mid ≡ some n
      → mid ≡ at + i
      → next ≡ at + size n
      → next ≤ length f.code
      → counted f.code at i size ≡ some next
  unfolding counted
  counted-eq at i n size mid next e em en le =
      counted_at at i n mid size em e ∙ fixed-eq at (size n) (rw en at le) ∙ ap some (sym en)

  skip_known-counted :
      (o : Op) (at next : ℕ) (u : Option ℤ)
      → total_size (layout o) ≡ none
      → FieldsFit m f (layout o) none at next u
      → at ≤ length f.code
      → next ≤ length f.code
      → skip_known o f.code at ≡ some next
  unfolding skip_known layout total_size fixed_size
  skip_known-counted make_tuple at next u e h le end =
      let (a, _, ((_, _, _, ea), _), (b, _, (n, mid, (en, em), rs, _), (eb, _))) = h in
      counted-eq at 1 n (λ n. 2 + n) a next en ea
        (omega (arith, RegsFit-end n mid b rs (omega (arith, get_elem?-lt f.code a en)))) end
  skip_known-counted map_new at next u e h le end =
      let (a, _, ((_, _, _, ea), _), (b, _, (n, mid, (en, em), rs, _), (eb, _))) = h in
      counted-eq at 1 n (λ n. 2 + 2 * n) a next en ea
        (omega (arith, PairsFit-end n mid b rs (omega (arith, get_elem?-lt f.code a en)))) end
  skip_known-counted bin_new at next u e h le end =
      let (a, _, ((_, _, _, ea), _), (b, _, (n, mid, (s, es, en, em), lb, eb, _), (ec, _))) = h in
      ap
        (λ (o : Option (List ℕ)).
          let r : Option ℕ = elim o [
            | none ↦ none
            | some k ↦ fixed f.code at (5 + from_le_bytes k)
          ] in
          r)
        (ap (λ k. slice f.code k 4) (sym ea) ∙ es)
      ∙ fixed-eq at (5 + from_le_bytes s) (omega arith)
      ∙ ap some (omega arith)
  skip_known-counted call at next u e h le end =
      let (
        a,
        _,
        ((_, _, _, ea), _),
        (b, _, (c, n, mid, mid', (s, es, en, em), (ei, ej), g, rs, _), (ec, _)),
      ) =
        h in
      counted-eq at 5 n (λ n. 6 + n) mid next ei (omega arith)
        (omega (arith, RegsFit-end n mid' b rs (omega (arith, get_elem?-lt f.code mid ei)))) end
  skip_known-counted tail_call at next u e h le end =
      let (b, _, (c, n, mid, mid', (s, es, en, em), (ei, ej), g, rs, _), (ec, _)) = h in
      counted-eq at 4 n (λ n. 5 + n) mid next ei (omega arith)
        (omega (arith, RegsFit-end n mid' b rs (omega (arith, get_elem?-lt f.code mid ei)))) end
  skip_known-counted call_ext at next u e h le end =
      let (
        a,
        _,
        ((_, _, _, ea), _),
        (
          b,
          _,
          (_, _, (_, _, _, eb), _, _),
          (c, _, (_, _, (_, _, _, ec), _, _), (d, _, (n, mid, (en, em), rs, _), (ed, _))),
        ),
      ) =
        h in
      counted-eq at 9 n (λ n. 10 + n) c next en (omega arith)
        (omega (arith, RegsFit-end n mid d rs (omega (arith, get_elem?-lt f.code c en)))) end
  skip_known-counted tail_call_ext at next u e h le end =
      let (
        b,
        _,
        (_, _, (_, _, _, eb), _, _),
        (c, _, (_, _, (_, _, _, ec), _, _), (d, _, (n, mid, (en, em), rs, _), (ed, _))),
      ) =
        h in
      counted-eq at 8 n (λ n. 9 + n) c next en (omega arith)
        (omega (arith, RegsFit-end n mid d rs (omega (arith, get_elem?-lt f.code c en)))) end
  skip_known-counted _ at next u e h le end = cc

  -- In code shorter than 2^64 bytes, the walk of `skip_operands` steps over operands that are
  -- well-formed, as the verifier checks them, to the end that the verifier finds.
  pub skip_known-Fits :
      (o : Op) (at next : ℕ) (u : Option ℤ)
      → FieldsFit m f (layout o) none at next u
      → at ≤ length f.code
      → skip_known o f.code at ≡ some next
  skip_known-Fits o at next u h le = elim (Option-cases (total_size (layout o))) [
    | inr (n, e) ↦
        let size = FieldsFit-size m f (layout o) none at next u e h in
        let end = FieldsFit-le m f (layout o) none at next u h le in
        skip_known-total o n f.code at e ∙ fixed-eq at n (omega arith) ∙ ap some (sym size)
    | inl e ↦
        skip_known-counted o at next u e h le (FieldsFit-le m f (layout o) none at next u h le).1
  ]

pub skip_operands-known :
    (k : ℕ) (o : Op) (code : List ℕ) (at : ℕ)
    → of_opcode k ≡ some o
    → skip_operands k code at ≡ skip_known o code at
unfolding skip_operands
skip_operands-known k o code at e =
    ap
      (λ (x : Option Op).
        let r : Option ℕ = elim x [ none ↦ none | some o ↦ skip_known o code at ] in r)
      e
