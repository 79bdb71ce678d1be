-- ===== src/Interp/Data.antt =====
-- The arms of the match of `run_function` (crates/ygg-interp/src/lib.rs) on terms, tuples, lists and maps.
use yggdrasil.Bytecode.Op.{Op}
use yggdrasil.Term.{Term, nil_term, int, atom, pid, tuple_arity, tuple_elem, head, tail, map_get}
use yggdrasil.Term.Store.{Memory}
use yggdrasil.Term.Heap
use yggdrasil.Term.Heap.{Heap, tuple, list, binary, list_loop, map_from_pairs, map_put}
use yggdrasil.Term.Copy.{is_cons}
use yggdrasil.Interp.Api.{badarg, SystemApi, Act, ◌>>=◌, ◌>>◌, lift, pure, ask, change}
use yggdrasil.Interp.Fetch.{u8, u32, i64, get_reg, set_reg, get_regs, get_pairs}
use yggdrasil.Interp.Allocate.{
  is_tuple, is_map, check, alloc_term, alloc_map, memory, has_kind, is_boxed_as,
}
use yggdrasil.Prelude.{ℕ, ◌&&◌, ltb, ok, err, panic, timeout, ok_or}

module _ {W : Type 0} (api : SystemApi W) (fuel : ℕ) where
  -- `Term::HEAD` and `Term::TAIL` of a cons cell
  unfoldable pub part_of_cons : (Memory → Term → Term) → Act W (Unit {0})
  unfolding u8 get_reg set_reg has_kind
  part_of_cons part = do
    rd ← u8
    rs ← u8
    t ← get_reg rs
    is ← has_kind api is_cons t
    check is
    m ← memory api
    set_reg rd (part m t)

  unfoldable pub load : Op → Act W (Unit {0})
  unfolding u8 u32 i64 get_reg set_reg int atom pid
  load Op.load_int = do rd ← u8; v ← i64; set_reg rd (int v)
  load Op.load_atom = do
    rd ← u8
    local ← u32
    g ← change (api.atom_global local)
    set_reg rd (atom g)
  load Op.load_nil = do rd ← u8; set_reg rd nil_term
  load Op.move = do rd ← u8; rs ← u8; v ← get_reg rs; set_reg rd v
  load Op.self_pid = do rd ← u8; p ← ask api.self_pid; set_reg rd (pid p)
  load Op.ticks = do rd ← u8; t ← ask api.ticks; set_reg rd t
  load _ = pure tt

  unfoldable pub run_data : Op → Act W (Unit {0})
  unfolding load part_of_cons u8 get_reg set_reg get_regs alloc_term has_kind tuple_arity tuple_elem
      tuple Heap.cons head tail
  run_data Op.make_tuple = do
    rd ← u8
    n ← u8
    elems ← get_regs n
    t ← alloc_term api fuel (tuple elems)
    set_reg rd t
  run_data Op.get_elem = do
    rd ← u8
    rs ← u8
    idx ← u8
    t ← get_reg rs
    is ← has_kind api is_tuple t
    m ← memory api
    check (is && ltb idx (tuple_arity m t))
    set_reg rd (tuple_elem m t idx)
  run_data Op.cons = do
    rd ← u8
    rh ← u8
    rt ← u8
    h ← get_reg rh
    t ← get_reg rt
    c ← alloc_term api fuel (Heap.cons h t)
    set_reg rd c
  run_data Op.head = part_of_cons head
  run_data Op.tail = part_of_cons tail
  run_data o = load o

  -- the arms on maps
  unfoldable pub run_map : Op → Act W (Unit {0})
  unfolding run_data u8 get_reg set_reg get_pairs alloc_map is_boxed_as map_from_pairs map_get
      map_put
  run_map Op.map_new = do
    rd ← u8
    n ← u8
    pairs ← get_pairs n
    t ← alloc_map api fuel (map_from_pairs pairs)
    set_reg rd t
  run_map Op.map_get = do
    rd ← u8
    rm ← u8
    rk ← u8
    t ← get_reg rm
    k ← get_reg rk
    is ← is_boxed_as api is_map t
    check is
    m ← memory api
    found ← lift (elim (map_get m t k) [
      | ok o ↦ ok_or o badarg
      | err e ↦ absurd e
      | panic ↦ panic
      | timeout ↦ timeout
    ])
    set_reg rd found
  run_map Op.map_put = do
    rd ← u8
    rm ← u8
    rk ← u8
    rv ← u8
    t ← get_reg rm
    k ← get_reg rk
    v ← get_reg rv
    is ← is_boxed_as api is_map t
    check is
    out ← alloc_map api fuel (map_put t k v)
    set_reg rd out
  run_map o = run_data o
