-- ===== src/Ports.antt =====
-- kernel/src/ports.rs: the table of buffers that cross the boundary of a port. `phys_of` is where the
-- allocator put the bytes of a buffer, as a physical address.
mod Tests
mod Effects
mod Holds
mod Pinned
pub mod Kept
pub mod Roundtrip
use yggdrasil.Prelude.{
  ℕ, ◌+◌, ◌-◌, ◌%◌, ◌^◌, Bool, true, false, Option, none, some, List, ◌++◌, ltb, ◌==◌,
  if◌then◌else◌, length, take, drop,
}

abbrev pub Bytes : Type 0
Bytes = List ℕ

pub record Buffers : Type 0 where
  pub table : ℕ → Option Bytes
  pub next_buf : ℕ
  pub pinned : ℕ → Bool

abbrev pub put : ℕ → Option Bytes → Buffers → Buffers
put id bytes b = record b { table = λ i. if i == id then bytes else b.table i }

-- `usize::checked_add`
abbrev pub end_of : (offset len : ℕ) → Option ℕ
end_of offset len = if ltb (offset + len) (2 ^ 64) then some (offset + len) else none

-- `NEXT_BUF.fetch_add(1)`
abbrev pub next_number : Buffers → ℕ × Buffers
next_number b = (b.next_buf, record b { next_buf = (b.next_buf + 1) % 2 ^ 64 })

-- `BUFFERS.lock().remove(&id)`
abbrev pub remove : ℕ → Buffers → Option Bytes × Buffers
remove id b = (b.table id, put id none b)

-- `PINNED.lock().insert(id)`
abbrev pub mark_pinned : ℕ → Buffers → Buffers
mark_pinned id b = record b { pinned = λ i. if i == id then true else b.pinned i }

-- `buf_create`, `buf_take` and `buf_pin` each touch the shared state twice, under one lock and then
-- under another. These are their runs in which no other core comes between the two; Ports/Holds has
-- the two halves as separate steps.
unfoldable pub buf_create : Bytes → Buffers → ℕ × Buffers
buf_create bytes b = ((next_number b).0, put (next_number b).0 (some bytes) (next_number b).1)

unfoldable pub buf_take : ℕ → Buffers → Option Bytes × Buffers
buf_take id b = if b.pinned id then (none, b) else remove id b

-- `buf[offset..end].copy_from_slice(data)`
abbrev pub overwrite : Bytes → (offset : ℕ) → Bytes → Bytes
overwrite buf offset bytes = take offset buf ++ (bytes ++ drop (offset + length bytes) buf)

unfoldable pub write_in :
    (id : ℕ) → Bytes → (offset : ℕ) → (bytes : Bytes) → Option ℕ → Buffers → Bool × Buffers
write_in id buf offset bytes none b = (false, b)
write_in id buf offset bytes (some end) b =
    if ltb (length buf) end
    then (false, b)
    else (true, put id (some (overwrite buf offset bytes)) b)

unfoldable pub buf_write : (id offset : ℕ) → Bytes → Buffers → Bool × Buffers
unfolding write_in
buf_write id offset bytes b = elim (b.table id) [
  | none ↦ (false, b)
  | some buf ↦ write_in id buf offset bytes (end_of offset (length bytes)) b
]

unfoldable pub read_in : Bytes → (offset len : ℕ) → Option ℕ → Option Bytes
read_in buf offset len none = none
read_in buf offset len (some end) =
    if ltb (length buf) end then none else some (take len (drop offset buf))

unfoldable pub buf_read : (id offset len : ℕ) → Buffers → Option Bytes
unfolding read_in
buf_read id offset len b = elim (b.table id) [
  | none ↦ none
  | some buf ↦ read_in buf offset len (end_of offset len)
]

-- the part of `buf_pin` under the lock of the table: where the buffer is and how long
unfoldable pub find : (phys_of : ℕ → Buffers → ℕ) → ℕ → Buffers → Option (ℕ × ℕ)
find phys_of id b = elim (b.table id) [
  | none ↦ none
  | some bytes ↦ some (phys_of id b, length bytes)
]

unfoldable pub buf_pin : (phys_of : ℕ → Buffers → ℕ) → ℕ → Buffers → Option (ℕ × ℕ) × Buffers
unfolding find
buf_pin phys_of id b = elim (find phys_of id b) [
  | none ↦ (none, b)
  | some at ↦ (some at, mark_pinned id b)
]

unfoldable pub buf_get : ℕ → Buffers → Option Bytes
buf_get id b = b.table id
