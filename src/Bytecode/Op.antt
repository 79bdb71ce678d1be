-- ===== src/Bytecode/Op.antt =====
-- crates/ygg-bytecode/src/lib.rs, module `op`: the opcodes.
use yggdrasil.Prelude.{ℕ, ◌≡◌, refl, Option, some, List, [], ◌∷◌, get_elem?}

-- One constructor for each constant, in the order of the constants.
pub data Op : Type 0 where
  nop load_int load_atom load_nil move self_pid make_tuple get_elem cons head tail add sub mul : Op
  cmp_eq cmp_lt jmp jmp_if call ret spawn send recv print exit_atom port_open port_submit : Op
  call_ext band bor bxor bsl bsr bnot bin_new bin_from_list bin_to_list bin_size buf_to_bin : Op
  bin_to_buf map_new map_get map_put is_binary bin_cat list_cat bin_part tail_call_ext : Op
  port_submit2 tail_call buf_write sleep_ms buf_new buf_read ticks bin_at : Op

-- the value of the constant
unfoldable pub opcode : Op → ℕ
opcode nop = 0
opcode load_int = 1
opcode load_atom = 2
opcode load_nil = 3
opcode move = 4
opcode self_pid = 5
opcode make_tuple = 6
opcode get_elem = 7
opcode cons = 8
opcode head = 9
opcode tail = 10
opcode add = 11
opcode sub = 12
opcode mul = 13
opcode cmp_eq = 14
opcode cmp_lt = 15
opcode jmp = 16
opcode jmp_if = 17
opcode call = 18
opcode ret = 19
opcode spawn = 20
opcode send = 21
opcode recv = 22
opcode print = 23
opcode exit_atom = 24
opcode port_open = 25
opcode port_submit = 26
opcode call_ext = 27
opcode band = 28
opcode bor = 29
opcode bxor = 30
opcode bsl = 31
opcode bsr = 32
opcode bnot = 33
opcode bin_new = 34
opcode bin_from_list = 35
opcode bin_to_list = 36
opcode bin_size = 37
opcode buf_to_bin = 38
opcode bin_to_buf = 39
opcode map_new = 40
opcode map_get = 41
opcode map_put = 42
opcode is_binary = 43
opcode bin_cat = 44
opcode list_cat = 45
opcode bin_part = 46
opcode tail_call_ext = 47
opcode port_submit2 = 48
opcode tail_call = 49
opcode buf_write = 50
opcode sleep_ms = 51
opcode buf_new = 52
opcode buf_read = 53
opcode ticks = 54
opcode bin_at = 55

abbrev pub all_ops : List Op
all_ops =
    nop ∷ load_int ∷ load_atom ∷ load_nil ∷ move ∷ self_pid ∷ make_tuple ∷ get_elem ∷ cons ∷ head
    ∷ tail ∷ add ∷ sub ∷ mul ∷ cmp_eq ∷ cmp_lt ∷ jmp ∷ jmp_if ∷ call ∷ ret ∷ spawn ∷ send ∷ recv
    ∷ print ∷ exit_atom ∷ port_open ∷ port_submit ∷ call_ext ∷ band ∷ bor ∷ bxor ∷ bsl ∷ bsr ∷ bnot
    ∷ bin_new ∷ bin_from_list ∷ bin_to_list ∷ bin_size ∷ buf_to_bin ∷ bin_to_buf ∷ map_new ∷ map_get
    ∷ map_put ∷ is_binary ∷ bin_cat ∷ list_cat ∷ bin_part ∷ tail_call_ext ∷ port_submit2 ∷ tail_call
    ∷ buf_write ∷ sleep_ms ∷ buf_new ∷ buf_read ∷ ticks ∷ bin_at ∷ []

-- `match opcode { op::… => … }`: the constant that a byte is, if it is one.
unfoldable pub of_opcode : ℕ → Option Op
of_opcode b = get_elem? all_ops b

-- The byte of an instruction names that instruction, so that no two instructions share a byte.
pub of_opcode-opcode : (o : Op) → of_opcode (opcode o) ≡ some o
unfolding of_opcode opcode
of_opcode-opcode nop = refl
of_opcode-opcode load_int = refl
of_opcode-opcode load_atom = refl
of_opcode-opcode load_nil = refl
of_opcode-opcode move = refl
of_opcode-opcode self_pid = refl
of_opcode-opcode make_tuple = refl
of_opcode-opcode get_elem = refl
of_opcode-opcode cons = refl
of_opcode-opcode head = refl
of_opcode-opcode tail = refl
of_opcode-opcode add = refl
of_opcode-opcode sub = refl
of_opcode-opcode mul = refl
of_opcode-opcode cmp_eq = refl
of_opcode-opcode cmp_lt = refl
of_opcode-opcode jmp = refl
of_opcode-opcode jmp_if = refl
of_opcode-opcode call = refl
of_opcode-opcode ret = refl
of_opcode-opcode spawn = refl
of_opcode-opcode send = refl
of_opcode-opcode recv = refl
of_opcode-opcode print = refl
of_opcode-opcode exit_atom = refl
of_opcode-opcode port_open = refl
of_opcode-opcode port_submit = refl
of_opcode-opcode call_ext = refl
of_opcode-opcode band = refl
of_opcode-opcode bor = refl
of_opcode-opcode bxor = refl
of_opcode-opcode bsl = refl
of_opcode-opcode bsr = refl
of_opcode-opcode bnot = refl
of_opcode-opcode bin_new = refl
of_opcode-opcode bin_from_list = refl
of_opcode-opcode bin_to_list = refl
of_opcode-opcode bin_size = refl
of_opcode-opcode buf_to_bin = refl
of_opcode-opcode bin_to_buf = refl
of_opcode-opcode map_new = refl
of_opcode-opcode map_get = refl
of_opcode-opcode map_put = refl
of_opcode-opcode is_binary = refl
of_opcode-opcode bin_cat = refl
of_opcode-opcode list_cat = refl
of_opcode-opcode bin_part = refl
of_opcode-opcode tail_call_ext = refl
of_opcode-opcode port_submit2 = refl
of_opcode-opcode tail_call = refl
of_opcode-opcode buf_write = refl
of_opcode-opcode sleep_ms = refl
of_opcode-opcode buf_new = refl
of_opcode-opcode buf_read = refl
of_opcode-opcode ticks = refl
of_opcode-opcode bin_at = refl
