-- ===== src/Term.antt =====
-- crates/ygg-term/src/lib.rs: tagged terms. A term is the word of its 64 bits; boxed terms are
-- addresses of objects in memory.
mod Tests
pub mod Tags
pub mod Store
pub mod Immediate
pub mod Readback
pub mod Heap
pub mod Objects
pub mod Lookup
pub mod Pairs
pub mod Copy
pub mod Shapes
pub mod Copies
pub mod Eq
use yggdrasil.Prelude.Int.{ℤ, pos, negsuc}
use Tags.{
  Kind, tag_boxed, tag_int, tag_atom, tag_pid, tag_ref, tag_special, tag_port, kind_tuple,
  kind_cons, kind_binary, kind_map,
}
use Store.{Memory, read_word, read_bytes}
use yggdrasil.Prelude.{
  ℕ, zero, suc, ◌+◌, ◌-◌, ◌*◌, ◌/◌, ◌%◌, ◌^◌, ◌≤◌, ◌<◌, min, ◌≡◌, refl, sym, ap, ◌∙◌, ◌≢◌, ◌↔◌, ◌⊎◌,
  inl, inr, Bool, true, false, not, ◌&&◌, ◌||◌, Option, none, some, List, [], ◌∷◌, ◌++◌, map, arith,
  ltb, leb, ◌==◌, if◌then◌else◌, ltb→lt, lt→ltb, leb→le, ==_iff, tests, Bool-cases, Option-cases,
  below_ne, length, get_elem?, set, get_or, take, drop, replicate, length-append, length-set,
  get_elem?-set_self, get_elem?-set_ne, length-map, length-take, length-drop, length-replicate,
  slice, checked_add, from_le_bytes, to_le_bytes, AllBytes, Outcome, ok, err, panic, timeout, ◌>>=◌,
  ◌>>◌, guard, assert, ok_or, Returns, >>=-eq-ok, bind_assoc, bind_congr, bind-Returns, guard-eq-ok,
  index, index_set, index-eq-get_or, index_set-eq, get_or-set_self, get_or-set_ne,
}

abbrev pub Term : Type 0
Term = ℕ

-- `self.0 & TAG_MASK`
unfoldable pub tag : Term → ℕ
tag t = t % 8

abbrev pub nil_term : Term
nil_term = tag_special

-- `v as u64` of an i64, and back
abbrev pub as_u64 : ℤ → ℕ
as_u64 (pos n) = n % 2 ^ 64
as_u64 (negsuc n) = 2 ^ 64 - 1 - n % 2 ^ 64

abbrev pub as_i64 : ℕ → ℤ
as_i64 w = if ltb w (2 ^ 63) then pos w else negsuc (2 ^ 64 - 1 - w)

-- `x >> 3` of an i64
abbrev pub shift_right_3 : ℤ → ℤ
shift_right_3 (pos n) = pos (n / 8)
shift_right_3 (negsuc n) = negsuc (n / 8)

-- `(w << 3) | tag`
abbrev pub tagged : ℕ → ℕ → Term
tagged w t = w * 8 % 2 ^ 64 + t

-- The range that `Term::int` asserts in debug builds only; the shift drops what does not fit.
unfoldable pub int : ℤ → Term
int v = tagged (as_u64 v) tag_int

unfoldable pub atom : ℕ → Term
atom idx = tagged idx tag_atom

unfoldable pub pid : ℕ → Term
pid p = tagged p tag_pid

unfoldable pub reference : ℕ → Term
reference r = tagged r tag_ref

unfoldable pub port : ℕ → Term
port p = tagged p tag_port

unfoldable pub as_int : Term → Option ℤ
unfolding tag
as_int t = if tag t == tag_int then some (shift_right_3 (as_i64 t)) else none

-- `(self.0 >> 3) as u32`
unfoldable pub as_atom : Term → Option ℕ
unfolding tag
as_atom t = if tag t == tag_atom then some (t / 8 % 2 ^ 32) else none

unfoldable pub as_pid : Term → Option ℕ
unfolding tag
as_pid t = if tag t == tag_pid then some (t / 8) else none

unfoldable pub as_ref : Term → Option ℕ
unfolding tag
as_ref t = if tag t == tag_ref then some (t / 8) else none

unfoldable pub as_port : Term → Option ℕ
unfolding tag
as_port t = if tag t == tag_port then some (t / 8) else none

unfoldable pub is_nil : Term → Bool
is_nil t = t == nil_term

unfoldable pub is_boxed : Term → Bool
unfolding tag
is_boxed t = tag t == tag_boxed

module _ {E : Type 0} (m : Memory) where
  -- the kind of a boxed object, from its header; another one is unreachable
  unfoldable pub box_kind : ℕ → Outcome E Kind
  box_kind header =
      if header % 8 == kind_tuple
      then ok Kind.tuple
      else (if header % 8 == kind_cons
          then ok Kind.cons
          else (if header % 8 == kind_binary
              then ok Kind.binary
              else (if header % 8 == kind_map then ok Kind.map else panic)))

  unfoldable pub kind : Term → Outcome E Kind
  unfolding box_kind read_word
  kind t =
      if t % 8 == tag_int
      then ok Kind.int
      else (if t % 8 == tag_atom
          then ok Kind.atom
          else (if t % 8 == tag_pid
              then ok Kind.pid
              else (if t % 8 == tag_ref
                  then ok Kind.ref
                  else (if t % 8 == tag_special
                      then ok Kind.nil
                      else (if t % 8 == tag_port
                          then ok Kind.port
                          else (if t % 8 == tag_boxed then box_kind (read_word m t) else panic))))))

module _ (m : Memory) where
  -- The accessors read the object at the address, which `# Safety` says to be of the right kind.
  unfoldable pub tuple_arity : Term → ℕ
  unfolding read_word
  tuple_arity t = read_word m t / 8

  unfoldable pub tuple_elem : Term → ℕ → Term
  unfolding read_word
  tuple_elem t i = read_word m (t + 8 * (1 + i))

  unfoldable pub head : Term → Term
  unfolding read_word
  head t = read_word m (t + 8)

  unfoldable pub tail : Term → Term
  unfolding read_word
  tail t = read_word m (t + 16)

  unfoldable pub bin_bytes : Term → List ℕ
  unfolding read_word read_bytes
  bin_bytes t = read_bytes m (t + 8) (read_word m t / 8)

  unfoldable pub map_arity : Term → ℕ
  unfolding read_word
  map_arity t = read_word m t / 8

  unfoldable pub map_key : Term → ℕ → Term
  unfolding read_word
  map_key t i = read_word m (t + 8 * (1 + i))

  unfoldable pub map_val : Term → ℕ → Term
  unfolding read_word map_arity
  map_val t i = read_word m (t + 8 * (1 + map_arity t + i))

  -- `while lo < hi` of `map_get`
  unfoldable pub map_search : ℕ → (t key lo hi : ℕ) → Outcome ⊥ (Option Term)
  unfolding map_key map_val
  map_search zero t key lo hi = timeout
  map_search (suc fuel) t key lo hi = elim (ltb lo hi) [
    | false ↦ ok none
    | true ↦
        (let mid : ℕ = (lo + hi) / 2 in
          let k : ℕ = map_key t mid in
          elim (k == key) [
            | true ↦ ok (some (map_val t mid))
            | false ↦ elim (ltb k key) [
              | true ↦ map_search fuel t key (mid + 1) hi
              | false ↦ map_search fuel t key lo mid
            ]
          ])
  ]

  unfoldable pub map_get : (t key : Term) → Outcome ⊥ (Option Term)
  unfolding map_search map_arity
  map_get t key = map_search (map_arity t + 1) t key 0 (map_arity t)
