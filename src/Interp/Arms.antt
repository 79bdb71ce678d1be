-- ===== src/Interp/Arms.antt =====
-- Lemmas on the instructions whose operands have a fixed size (crates/ygg-interp/src/lib.rs).
use mathlib.Core.Path.{subst}
use yggdrasil.Prelude.Int.{ℤ, pos}
use yggdrasil.Bytecode.Op.{Op}
use yggdrasil.Bytecode.Layout.{layout}
use yggdrasil.Term.{
  Term, nil_term, int, atom, pid, as_atom, is_nil, tuple_arity, tuple_elem, head, tail, bin_bytes,
  map_get,
}
use yggdrasil.Term.Heap
use yggdrasil.Term.Heap.{tuple, list, binary, list_loop, map_from_pairs, map_put}
use yggdrasil.Term.Copy.{is_cons}
use yggdrasil.Term.Eq.{eq}
use yggdrasil.Interp.Words.{
  in_i64, bit_and, bit_or, bit_xor, bit_not, shift_left, shift_right, natural,
}
use yggdrasil.Interp.Allocate.{is_tuple, is_bin, is_map}
use yggdrasil.Interp.Numbers.{flag, shifted}
use yggdrasil.Interp.Binaries.{list_bytes, list_elems}
use yggdrasil.Prelude.Int.{◌+ℤ◌, ◌-ℤ◌, ◌*ℤ◌, ltb_ℤ}
use mathlib.Core.List.{reverse}
use yggdrasil.Prelude.{◌&&◌, ◌++◌, map, ltb, get_elem?, slice, length}
use yggdrasil.Term.Store.{Memory}
use yggdrasil.Verify.Sizes.{total_size}
use yggdrasil.Interp.Api.{Trap, badarg, exit, SystemApi, Act}
use yggdrasil.Interp.Data.{part_of_cons, load, run_map}
use yggdrasil.Interp.Numbers.{binary_op, run_number}
use yggdrasil.Interp.Binaries.{run_binary}
use yggdrasil.Interp.System.{run_port}
use yggdrasil.Interp.Run.{data_ops, number_ops, binary_ops, system_ops, group}
use yggdrasil.Interp.Hoare.{Reads, seq}
use yggdrasil.Interp.Reads.{
  Clean, panic-Clean, timeout-Clean, ok_or-Clean, u8-Reads, u32-Reads, i64-Reads, lift-Reads,
  fail-Reads, ok_or-Reads, check-Reads, ask-Reads, tell-Reads, change-Reads, call-Reads,
  get_reg-Reads, set_reg-Reads, get_int-Reads,
}
use yggdrasil.Interp.Clean.{
  eq-Clean, list_bytes-Clean, list_elems-Clean, alloc_term-Reads, alloc_map-Reads, memory-Reads,
  has_kind-Reads, is_boxed_as-Reads,
}
use yggdrasil.Bytecode.{Function, Module}
use yggdrasil.Prelude.{
  get_elem?, ◌≢◌, ℕ, ◌≡◌, refl, Option, some, List, Outcome, ok, err, panic, timeout, ok_or,
}

sized :
    {W A : Type 0} {code : List ℕ} {j n : ℕ} {m : Act W A}
    → some j ≡ some n
    → Reads code j m
    → Reads code n m
sized {code} {j} {n} {m} e h = let same : j ≡ n = cc in subst (λ k. Reads code k m) same h

-- In the states W of a kernel that runs a verified module: a spawn at a function of the module that
-- takes one argument does not report `bad_code`, and neither does any other method. A spawn at a
-- number that is no function of the module may.
pub record NeverBadCode {W : Type 0} (m : Module) (api : SystemApi W) : Type 0 where
  pub send : (to msg : Term) (w : W) → Clean (api.send to msg w).0
  pub recv : (w : W) → Clean (api.recv w).0
  pub spawn :
      (fn_idx : ℕ) (g : Function)
      → get_elem? m.functions fn_idx ≡ some g
      → g.arity ≡ 1
      → (arg : Term) (w : W) → Clean (api.spawn fn_idx arg w).0
  pub port_open : (kind : ℕ) (w : W) → Clean (api.port_open kind w).0
  pub port_submit :
      (port : Term) (op : ℕ) (arg0 tag : Term) (w : W)
      → Clean (api.port_submit port op arg0 tag w).0
  pub port_submit2 :
      (port op arg0 arg1 tag : Term) (w : W) → Clean (api.port_submit2 port op arg0 arg1 tag w).0
  pub call_ext : (m f : ℕ) (args : List Term) (w : W) → Clean (api.call_ext m f args w).0
  pub buf_to_bin : (id : ℤ) (w : W) → Clean (api.buf_to_bin id w).0
  pub bin_to_buf : (bin : Term) (w : W) → Clean (api.bin_to_buf bin w).0
  pub buf_write : (buf off bin : Term) (w : W) → Clean (api.buf_write buf off bin w).0
  pub buf_new : (size : Term) (w : W) → Clean (api.buf_new size w).0
  pub buf_read : (buf off len : Term) (w : W) → Clean (api.buf_read buf off len w).0

abbrev looked_up : Outcome ⊥ (Option Term) → Outcome Trap Term
looked_up o = elim o [
  | ok v ↦ ok_or v badarg
  | err e ↦ absurd e
  | panic ↦ panic
  | timeout ↦ timeout
]

found-Clean : (o : Outcome ⊥ (Option Term)) → Clean (looked_up o)
found-Clean (ok v) = ok_or-Clean v
found-Clean (err e) = absurd e
found-Clean panic = panic-Clean
found-Clean timeout = timeout-Clean

module _ {W : Type 0} {code : List ℕ} (api : SystemApi W) (fuel : ℕ) where
  part_of_cons-Reads : (part : Memory → Term → Term) → Reads code 2 (part_of_cons api fuel part)
  unfolding part_of_cons
  part_of_cons-Reads part = seq u8-Reads λ rd. seq u8-Reads λ rs. seq (get_reg-Reads rs) λ t.
      seq (has_kind-Reads api is_cons t)
        λ is. seq (check-Reads is) λ _. seq (memory-Reads api) λ m. set_reg-Reads rd (part m t)

  pub data-Reads :
      (o : Op) {n : ℕ}
      → group o ≡ data_ops
      → total_size (layout o) ≡ some n
      → Reads code n (run_map api fuel o)
  unfolding group total_size layout run_map load
  data-Reads Op.load_int g e =
      sized e (seq u8-Reads λ rd. seq i64-Reads λ v. set_reg-Reads rd (int v))
  data-Reads Op.load_atom g e = sized e (
      seq u8-Reads λ rd.
        seq u32-Reads
          λ local. seq (change-Reads (api.atom_global local)) λ a. set_reg-Reads rd (atom a))
  data-Reads Op.load_nil g e = sized e (seq u8-Reads λ rd. set_reg-Reads rd nil_term)
  data-Reads Op.move g e =
      sized e (seq u8-Reads λ rd. seq u8-Reads λ rs. seq (get_reg-Reads rs) λ v. set_reg-Reads rd v)
  data-Reads Op.self_pid g e =
      sized e (seq u8-Reads λ rd. seq (ask-Reads api.self_pid) λ p. set_reg-Reads rd (pid p))
  data-Reads Op.ticks g e =
      sized e (seq u8-Reads λ rd. seq (ask-Reads api.ticks) λ t. set_reg-Reads rd t)
  data-Reads Op.get_elem g e = sized e (
      seq u8-Reads λ rd. seq u8-Reads λ rs. seq u8-Reads λ idx. seq (get_reg-Reads rs) λ t.
        seq (has_kind-Reads api is_tuple t) λ is. seq (memory-Reads api) λ m.
          seq (check-Reads (is && ltb idx (tuple_arity m t)))
            λ _. set_reg-Reads rd (tuple_elem m t idx))
  data-Reads Op.cons g e = sized e (
      seq u8-Reads λ rd. seq u8-Reads λ rh. seq u8-Reads λ rt. seq (get_reg-Reads rh) λ h.
        seq (get_reg-Reads rt)
          λ t. seq (alloc_term-Reads api fuel (Heap.cons h t)) λ c. set_reg-Reads rd c)
  data-Reads Op.head g e = sized e (part_of_cons-Reads head)
  data-Reads Op.tail g e = sized e (part_of_cons-Reads tail)
  data-Reads Op.map_get g e = sized e (
      seq u8-Reads λ rd. seq u8-Reads λ rm. seq u8-Reads λ rk. seq (get_reg-Reads rm) λ t.
        seq (get_reg-Reads rk) λ k. seq (is_boxed_as-Reads api is_map t) λ is.
          seq (check-Reads is) λ _. seq (memory-Reads api) λ m.
            seq (lift-Reads (looked_up (map_get m t k)) (found-Clean (map_get m t k)))
              λ v. set_reg-Reads rd v)
  data-Reads Op.map_put g e = sized e (
      seq u8-Reads λ rd. seq u8-Reads λ rm. seq u8-Reads λ rk. seq u8-Reads λ rv.
        seq (get_reg-Reads rm) λ t. seq (get_reg-Reads rk) λ k. seq (get_reg-Reads rv) λ v.
          seq (is_boxed_as-Reads api is_map t) λ is.
            seq (check-Reads is)
              λ _. seq (alloc_map-Reads api fuel (map_put t k v)) λ out. set_reg-Reads rd out)
  data-Reads _ g e = cc

  binary_op-Reads : (op : ℤ → ℤ → Option ℤ) → Reads code 3 (binary_op api fuel op)
  unfolding binary_op
  binary_op-Reads op = seq u8-Reads λ rd. seq u8-Reads λ ra. seq u8-Reads λ rb.
      seq (get_int-Reads ra)
        λ a. seq (get_int-Reads rb) λ b. seq (ok_or-Reads (op a b)) λ v. set_reg-Reads rd (int v)

  pub number-Reads :
      (o : Op) {n : ℕ}
      → group o ≡ number_ops
      → total_size (layout o) ≡ some n
      → Reads code n (run_number api fuel o)
  unfolding group total_size layout run_number
  number-Reads Op.add g e = sized e (binary_op-Reads (λ a b. in_i64 (a +ℤ b)))
  number-Reads Op.sub g e = sized e (binary_op-Reads (λ a b. in_i64 (a -ℤ b)))
  number-Reads Op.mul g e = sized e (binary_op-Reads (λ a b. in_i64 (a *ℤ b)))
  number-Reads Op.cmp_eq g e = sized e (
      seq u8-Reads λ rd. seq u8-Reads λ ra. seq u8-Reads λ rb. seq (get_reg-Reads ra) λ a.
        seq (get_reg-Reads rb) λ b. seq (memory-Reads api) λ m.
          seq (lift-Reads (eq fuel m a b) (eq-Clean fuel m a b))
            λ same. set_reg-Reads rd (int (flag same)))
  number-Reads Op.cmp_lt g e = sized e (binary_op-Reads (λ a b. some (flag (ltb_ℤ a b))))
  number-Reads Op.band g e = sized e (binary_op-Reads (λ a b. some (bit_and a b)))
  number-Reads Op.bor g e = sized e (binary_op-Reads (λ a b. some (bit_or a b)))
  number-Reads Op.bxor g e = sized e (binary_op-Reads (λ a b. some (bit_xor a b)))
  number-Reads Op.bsl g e = sized e (binary_op-Reads (shifted api fuel shift_left))
  number-Reads Op.bsr g e = sized e (binary_op-Reads (shifted api fuel shift_right))
  number-Reads Op.bnot g e = sized e (
      seq u8-Reads
        λ rd. seq u8-Reads λ rs. seq (get_int-Reads rs) λ a. set_reg-Reads rd (int (bit_not a)))
  number-Reads _ g e = cc

  pub binary-Reads :
      (o : Op) {n : ℕ}
      → group o ≡ binary_ops
      → total_size (layout o) ≡ some n
      → Reads code n (run_binary api fuel o)
  unfolding group total_size layout run_binary
  binary-Reads Op.bin_from_list g e = sized e (
      seq u8-Reads λ rd. seq u8-Reads λ rs. seq (get_reg-Reads rs) λ cur.
        seq (memory-Reads api) λ m.
          seq (lift-Reads (list_bytes fuel m cur) (list_bytes-Clean fuel m cur)) λ p.
            seq (check-Reads (is_nil p.1))
              λ _. seq (alloc_term-Reads api fuel (binary p.0)) λ b. set_reg-Reads rd b)
  binary-Reads Op.bin_to_list g e = sized e (
      seq u8-Reads λ rd. seq u8-Reads λ rs. seq (get_reg-Reads rs) λ t.
        seq (has_kind-Reads api is_bin t) λ is. seq (check-Reads is) λ _.
          seq (memory-Reads api) λ m.
            seq (alloc_term-Reads api fuel (list (map (λ b. int (pos b)) (bin_bytes m t))))
              λ l. set_reg-Reads rd l)
  binary-Reads Op.list_cat g e = sized e (
      seq u8-Reads λ rd. seq u8-Reads λ ra. seq u8-Reads λ rb. seq (get_reg-Reads ra) λ a.
        seq (get_reg-Reads rb) λ b. seq (memory-Reads api) λ m.
          seq (lift-Reads (list_elems fuel m a) (list_elems-Clean fuel m a)) λ p.
            seq (check-Reads (is_nil p.1)) λ _.
              seq (alloc_term-Reads api fuel (list_loop (reverse p.0) b))
                λ out. set_reg-Reads rd out)
  binary-Reads Op.bin_size g e = sized e (
      seq u8-Reads λ rd. seq u8-Reads λ rs. seq (get_reg-Reads rs) λ t.
        seq (has_kind-Reads api is_bin t) λ is.
          seq (check-Reads is)
            λ _. seq (memory-Reads api) λ m. set_reg-Reads rd (int (pos (length (bin_bytes m t)))))
  binary-Reads Op.is_binary g e = sized e (
      seq u8-Reads λ rd. seq u8-Reads λ rs.
        seq (get_reg-Reads rs)
          λ t. seq (is_boxed_as-Reads api is_bin t) λ is. set_reg-Reads rd (int (flag is)))
  binary-Reads Op.bin_cat g e = sized e (
      seq u8-Reads λ rd. seq u8-Reads λ ra. seq u8-Reads λ rb. seq (get_reg-Reads ra) λ a.
        seq (get_reg-Reads rb) λ b. seq (is_boxed_as-Reads api is_bin a) λ left.
          seq (check-Reads left) λ _. seq (is_boxed_as-Reads api is_bin b) λ right.
            seq (check-Reads right) λ _. seq (memory-Reads api) λ m.
              seq (alloc_term-Reads api fuel (binary (bin_bytes m a ++ bin_bytes m b)))
                λ out. set_reg-Reads rd out)
  binary-Reads Op.bin_at g e = sized e (
      seq u8-Reads λ rd. seq u8-Reads λ rb. seq u8-Reads λ ri. seq (get_reg-Reads rb) λ b.
        seq (get_int-Reads ri) λ idx. seq (is_boxed_as-Reads api is_bin b) λ is.
          seq (check-Reads is) λ _. seq (ok_or-Reads (natural idx)) λ i. seq (memory-Reads api) λ m.
            seq (ok_or-Reads (get_elem? (bin_bytes m b) i))
              λ byte. set_reg-Reads rd (int (pos byte)))
  binary-Reads Op.bin_part g e = sized e (
      seq u8-Reads λ rd. seq u8-Reads λ rb. seq u8-Reads λ ro. seq u8-Reads λ rl.
        seq (get_reg-Reads rb) λ b. seq (get_int-Reads ro) λ off. seq (get_int-Reads rl) λ len.
          seq (is_boxed_as-Reads api is_bin b) λ is. seq (check-Reads is) λ _.
            seq (ok_or-Reads (natural off)) λ i. seq (ok_or-Reads (natural len)) λ n.
              seq (memory-Reads api) λ m.
                seq (ok_or-Reads (slice (bin_bytes m b) i n))
                  λ part. seq (alloc_term-Reads api fuel (binary part)) λ out. set_reg-Reads rd out)
  binary-Reads _ g e = cc

module _ {W : Type 0} {code : List ℕ} (m : Module) (api : SystemApi W)
    (good : NeverBadCode m api) where
  pub system-Reads :
      (o : Op) {n : ℕ}
      → o ≢ Op.spawn
      → group o ≡ system_ops
      → total_size (layout o) ≡ some n
      → Reads code n (run_port api o)
  unfolding group total_size layout run_port
  system-Reads Op.spawn ns g e = absurd (ns refl)
  system-Reads Op.send ns g e = sized e (
      seq u8-Reads λ rt. seq u8-Reads λ rm.
        seq (get_reg-Reads rt)
          λ to. seq (get_reg-Reads rm) λ msg. call-Reads (api.send to msg) (good.send to msg))
  system-Reads Op.recv ns g e =
      sized e (seq u8-Reads λ rd. seq (call-Reads api.recv good.recv) λ v. set_reg-Reads rd v)
  system-Reads Op.print ns g e =
      sized e (seq u8-Reads λ rs. seq (get_reg-Reads rs) λ v. tell-Reads (api.print v))
  system-Reads Op.exit_atom ns g e = sized e (
      seq u8-Reads λ rs.
        seq (get_reg-Reads rs)
          λ t. seq (ok_or-Reads (as_atom t)) λ a. fail-Reads (exit a) (λ h. cc))
  system-Reads Op.sleep_ms ns g e = sized e (
      seq u8-Reads λ rm. seq (get_int-Reads rm) λ v.
        seq (ok_or-Reads (natural v))
          λ ms. seq (tell-Reads api.safepoint) λ _. tell-Reads (api.sleep_ms ms))
  system-Reads Op.port_open ns g e = sized e (
      seq u8-Reads λ rd.
        seq u8-Reads
          λ k. seq (call-Reads (api.port_open k) (good.port_open k)) λ p. set_reg-Reads rd p)
  system-Reads Op.port_submit ns g e = sized e (
      seq u8-Reads λ rp. seq u8-Reads λ o. seq u8-Reads λ ra. seq u8-Reads λ rt.
        seq (get_reg-Reads rp) λ port. seq (get_reg-Reads ra) λ arg0.
          seq (get_reg-Reads rt)
            λ tag. call-Reads (api.port_submit port o arg0 tag) (good.port_submit port o arg0 tag))
  system-Reads Op.port_submit2 ns g e = sized e (
      seq u8-Reads λ rp. seq u8-Reads λ ro. seq u8-Reads λ ra0. seq u8-Reads λ ra1.
        seq u8-Reads λ rt. seq (get_reg-Reads rp) λ port. seq (get_reg-Reads ro) λ o.
          seq (get_reg-Reads ra0) λ a0. seq (get_reg-Reads ra1) λ a1. seq (get_reg-Reads rt) λ tag.
            call-Reads (api.port_submit2 port o a0 a1 tag) (good.port_submit2 port o a0 a1 tag))
  system-Reads Op.buf_write ns g e = sized e (
      seq u8-Reads λ rd. seq u8-Reads λ rb. seq u8-Reads λ ro. seq u8-Reads λ rs.
        seq (get_reg-Reads rb) λ buf. seq (get_reg-Reads ro) λ off. seq (get_reg-Reads rs) λ bin.
          seq (call-Reads (api.buf_write buf off bin) (good.buf_write buf off bin))
            λ v. set_reg-Reads rd v)
  system-Reads Op.buf_new ns g e = sized e (
      seq u8-Reads λ rd. seq u8-Reads λ rs.
        seq (get_reg-Reads rs)
          λ size. seq (call-Reads (api.buf_new size) (good.buf_new size)) λ v. set_reg-Reads rd v)
  system-Reads Op.buf_read ns g e = sized e (
      seq u8-Reads λ rd. seq u8-Reads λ rb. seq u8-Reads λ ro. seq u8-Reads λ rl.
        seq (get_reg-Reads rb) λ buf. seq (get_reg-Reads ro) λ off. seq (get_reg-Reads rl) λ len.
          seq (call-Reads (api.buf_read buf off len) (good.buf_read buf off len))
            λ v. set_reg-Reads rd v)
  system-Reads Op.buf_to_bin ns g e = sized e (
      seq u8-Reads λ rd. seq u8-Reads λ rs.
        seq (get_int-Reads rs)
          λ id. seq (call-Reads (api.buf_to_bin id) (good.buf_to_bin id)) λ b. set_reg-Reads rd b)
  system-Reads Op.bin_to_buf ns g e = sized e (
      seq u8-Reads λ rd. seq u8-Reads λ rs.
        seq (get_reg-Reads rs)
          λ b. seq (call-Reads (api.bin_to_buf b) (good.bin_to_buf b)) λ id. set_reg-Reads rd id)
  system-Reads _ ns g e = cc
