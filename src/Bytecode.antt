-- ===== src/Bytecode.antt =====
-- crates/ygg-bytecode/src/lib.rs: the module format and the instruction walk.
mod Tests
pub mod Op
pub mod Layout
pub mod Skip
pub mod Utf8
pub mod Codec
pub mod Roundtrip
pub mod Builder
pub mod Labels
pub mod Emitted
use yggdrasil.Prelude.{
  ℕ, zero, suc, ◌+◌, ◌-◌, ◌*◌, ◌/◌, ◌%◌, ◌^◌, ◌≤◌, ◌<◌, min, ◌≡◌, refl, sym, ap, ◌∙◌, ◌≢◌, ◌↔◌, ◌⊎◌,
  inl, inr, Bool, true, false, not, ◌&&◌, ◌||◌, Option, none, some, List, [], ◌∷◌, ◌++◌, map, arith,
  ltb, leb, ◌==◌, if◌then◌else◌, ltb→lt, lt→ltb, leb→le, ==_iff, tests, Bool-cases, Option-cases,
  length, get_elem?, set, get_or, take, drop, replicate, length-append, length-set,
  get_elem?-set_self, get_elem?-set_ne, length-map, length-take, length-drop, length-replicate,
  slice, from_le_bytes, to_le_bytes, AllBytes, Outcome, ok, err, panic, timeout, ◌>>=◌, ◌>>◌, guard,
  assert, ok_or, Returns, >>=-eq-ok, bind_assoc, bind_congr, bind-Returns, guard-eq-ok, index,
  index_set, index-eq-get_or, index_set-eq, get_or-set_self, get_or-set_ne,
}

-- `Function`; `code` holds bytes.
pub record Function : Type 0 where
  pub name_atom : ℕ
  pub arity : ℕ
  pub nregs : ℕ
  pub code : List ℕ

-- `Module`; an atom is a `String`, held as its UTF-8 bytes.
pub record Module : Type 0 where
  pub atoms : List (List ℕ)
  pub functions : List Function
