-- ===== src/Interp/Binaries.antt =====
-- The arms of the match of `run_function` (crates/ygg-interp/src/lib.rs) on binaries, and `LIST_CAT`.
use yggdrasil.Prelude.Int.{pos}
use yggdrasil.Bytecode.Op.{Op}
use yggdrasil.Term.{Term, int, as_int, is_nil, is_boxed, kind, head, tail, bin_bytes}
use yggdrasil.Term.Store.{Memory}
use yggdrasil.Term.Heap.{list, binary, list_loop}
use yggdrasil.Term.Copy.{is_cons}
use yggdrasil.Interp.Api.{Trap, badarg, SystemApi, Act, ◌>>=◌, ◌>>◌, lift, pure}
use yggdrasil.Interp.Words.{up_to, natural}
use yggdrasil.Interp.Fetch.{u8, bytes, u32, get_reg, set_reg, get_int}
use yggdrasil.Interp.Allocate.{is_bin, check, alloc_term, memory, has_kind, is_boxed_as}
use yggdrasil.Prelude
use mathlib.Core.List.{reverse}
use yggdrasil.Prelude.{
  ℕ, zero, suc, ◌+◌, ◌-◌, ◌*◌, ◌^◌, Bool, true, false, not, ◌&&◌, Option, none, some, List, [], ◌∷◌,
  ◌++◌, map, ltb, leb, ◌==◌, if◌then◌else◌, length, get_elem?, get_or, take, drop, replicate, slice,
  Outcome, ok, err, panic, timeout, ok_or,
}
use yggdrasil.Interp.Numbers.{flag}

-- the loop of `BIN_FROM_LIST`: the bytes of a list, and what follows its last cell
unfoldable pub list_bytes : ℕ → Memory → Term → Outcome Trap (List ℕ × Term)
unfolding kind head tail as_int up_to
list_bytes zero m cur = timeout
list_bytes (suc fuel) m cur =
    let rest = list_bytes fuel m (tail m cur) in
    Prelude.◌>>=◌ (kind m cur) λ k. elim (is_cons k) [
      | false ↦ ok ([], cur)
      | true ↦ Prelude.◌>>=◌ (ok_or (as_int (head m cur)) badarg) λ h.
          Prelude.◌>>=◌ (ok_or (up_to 255 h) badarg) λ b. Prelude.◌>>=◌ rest λ p. ok (b ∷ p.0, p.1)
    ]

-- the loop of `LIST_CAT`: the elements of a list, and what follows its last cell
unfoldable pub list_elems : ℕ → Memory → Term → Outcome Trap (List Term × Term)
unfolding kind head tail is_boxed
list_elems zero m cur = timeout
list_elems (suc fuel) m cur =
    let rest = list_elems fuel m (tail m cur) in
    elim (is_boxed cur) [
      | false ↦ ok ([], cur)
      | true ↦ Prelude.◌>>=◌ (kind m cur) λ k. elim (is_cons k) [
        | false ↦ ok ([], cur)
        | true ↦ Prelude.◌>>=◌ rest λ p. ok (head m cur ∷ p.0, p.1)
      ]
    ]

module _ {W : Type 0} (api : SystemApi W) (fuel : ℕ) where
  unfoldable pub run_list : Op → Act W (Unit {0})
  unfolding list_bytes list_elems u8 get_reg set_reg has_kind alloc_term is_nil bin_bytes binary
      list list_loop int
  run_list Op.bin_from_list = do
    rd ← u8
    rs ← u8
    cur ← get_reg rs
    m ← memory api
    (content, end) ← lift (list_bytes fuel m cur)
    check (is_nil end)
    b ← alloc_term api fuel (binary content)
    set_reg rd b
  run_list Op.bin_to_list = do
    rd ← u8
    rs ← u8
    t ← get_reg rs
    is ← has_kind api is_bin t
    check is
    m ← memory api
    l ← alloc_term api fuel (list (map (λ b. int (pos b)) (bin_bytes m t)))
    set_reg rd l
  run_list Op.list_cat = do
    rd ← u8
    ra ← u8
    rb ← u8
    a ← get_reg ra
    b ← get_reg rb
    m ← memory api
    (elems, end) ← lift (list_elems fuel m a)
    check (is_nil end)
    out ← alloc_term api fuel (list_loop (reverse elems) b)
    set_reg rd out
  run_list _ = pure tt

  unfoldable pub run_binary : Op → Act W (Unit {0})
  unfolding run_list u8 u32 bytes get_reg get_int set_reg has_kind is_boxed_as alloc_term bin_bytes
      binary int
  run_binary Op.bin_new = do
    rd ← u8
    len ← u32
    content ← bytes len
    b ← alloc_term api fuel (binary content)
    set_reg rd b
  run_binary Op.bin_size = do
    rd ← u8
    rs ← u8
    t ← get_reg rs
    is ← has_kind api is_bin t
    check is
    m ← memory api
    set_reg rd (int (pos (length (bin_bytes m t))))
  run_binary Op.is_binary = do
    rd ← u8
    rs ← u8
    t ← get_reg rs
    is ← is_boxed_as api is_bin t
    set_reg rd (int (flag is))
  run_binary Op.bin_cat = do
    rd ← u8
    ra ← u8
    rb ← u8
    a ← get_reg ra
    b ← get_reg rb
    left ← is_boxed_as api is_bin a
    check left
    right ← is_boxed_as api is_bin b
    check right
    m ← memory api
    out ← alloc_term api fuel (binary (bin_bytes m a ++ bin_bytes m b))
    set_reg rd out
  run_binary Op.bin_at = do
    rd ← u8
    rb ← u8
    ri ← u8
    b ← get_reg rb
    idx ← get_int ri
    is ← is_boxed_as api is_bin b
    check is
    i ← lift (ok_or (natural idx) badarg)
    m ← memory api
    byte ← lift (ok_or (get_elem? (bin_bytes m b) i) badarg)
    set_reg rd (int (pos byte))
  run_binary Op.bin_part = do
    rd ← u8
    rb ← u8
    ro ← u8
    rl ← u8
    b ← get_reg rb
    off ← get_int ro
    len ← get_int rl
    is ← is_boxed_as api is_bin b
    check is
    i ← lift (ok_or (natural off) badarg)
    n ← lift (ok_or (natural len) badarg)
    m ← memory api
    part ← lift (ok_or (slice (bin_bytes m b) i n) badarg)
    out ← alloc_term api fuel (binary part)
    set_reg rd out
  run_binary o = run_list o
