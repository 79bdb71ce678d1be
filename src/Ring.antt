-- ===== src/Ring.antt =====
-- crates/ygg-rings/src/lib.rs: the single-producer single-consumer ring and its entry formats.
mod Tests
pub mod Index
pub mod Refine
use yggdrasil.Prelude.{
  ℕ, zero, suc, ◌+◌, ◌-◌, ◌*◌, ◌/◌, ◌%◌, ◌^◌, ◌≤◌, ◌<◌, min, ◌≡◌, refl, sym, ap, ◌∙◌, ◌≢◌, ◌↔◌, ◌⊎◌,
  inl, inr, Bool, true, false, not, ◌&&◌, ◌||◌, Option, none, some, List, [], ◌∷◌, ◌++◌, map, arith,
  ltb, leb, ◌==◌, if◌then◌else◌, ltb→lt, lt→ltb, leb→le, ==_iff, tests, Bool-cases, Option-cases,
  length, get_elem?, set, get_or, take, drop, replicate, length-append, length-set,
  get_elem?-set_self, get_elem?-set_ne, length-map, length-take, length-drop, length-replicate,
  slice, from_le_bytes, to_le_bytes, AllBytes, Outcome, ok, err, panic, timeout, ◌>>=◌, ◌>>◌, guard,
  assert, ok_or, Returns, >>=-eq-ok, bind_assoc, bind_congr, bind-Returns, guard-eq-ok, index,
  index_set, index-eq-get_or, index_set-eq, get_or-set_self, get_or-set_ne,
}

-- `Sqe`; `tag` is an i64, held as the word of its 64 bits.
pub record Sqe : Type 0 where
  pub op : ℕ
  pub tag : ℕ
  pub arg0 : ℕ
  pub arg1 : ℕ

-- `Cqe`
pub record Cqe : Type 0 where
  pub tag : ℕ
  pub result : ℕ

pub data Full : Type 0 where
  full : Full

-- u32 arithmetic of the cursors
abbrev pub wrapping_add : ℕ → ℕ → ℕ
wrapping_add a b = (a + b) % 2 ^ 32

abbrev pub wrapping_sub : ℕ → ℕ → ℕ
wrapping_sub a b = (a + 2 ^ 32 - b) % 2 ^ 32

-- `Ring<T, N>`: `head` is the consumer's cursor, `tail` the producer's; both run on past N and wrap
-- at 2^32.
pub record Ring {ℓ} (T : Type ℓ) : Type ℓ where
  pub entries : List T
  pub head : ℕ
  pub tail : ℕ

module _ {ℓ} {T : Type ℓ} (N : ℕ) (default : T) where
  unfoldable pub new : Ring T
  new = record { entries = replicate N default; head = 0; tail = 0 }

module _ {ℓ} {T : Type ℓ} where
  unfoldable pub len : Ring T → ℕ
  len r = wrapping_sub r.tail r.head

  unfoldable pub is_empty : Ring T → Bool
  unfolding len
  is_empty r = len r == 0

module _ {ℓ} {T : Type ℓ} (N : ℕ) where
  unfoldable pub is_full : Ring T → Bool
  unfolding len
  is_full r = len r == N

  -- The producer side.
  unfoldable pub push : Ring T → T → Outcome Full (Ring T)
  push r v = if wrapping_sub r.tail r.head == N then err full else do
    entries ← index_set r.entries (r.tail % N) v
    ok (record r { entries = entries; tail = wrapping_add r.tail 1 })

  -- The consumer side: what is returned, and the ring after it.
  unfoldable pub pop : Ring T → Outcome Full (Option T × Ring T)
  pop r = if r.head == r.tail then ok (none, r) else do
    v ← index r.entries (r.head % N)
    ok (some v, record r { head = wrapping_add r.head 1 })
