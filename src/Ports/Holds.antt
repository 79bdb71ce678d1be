-- ===== src/Ports/Holds.antt =====
-- The table of buffers (kernel/src/ports.rs) under cores that come between one another's locks:
-- what a core does while it holds one lock is one step.
use yggdrasil.Ports.{Bytes, Buffers, put, next_number, remove, mark_pinned, buf_write, find}
use yggdrasil.Prelude.{
  ℕ, ◌+◌, ◌^◌, ◌≤◌, ◌<◌, ◌≡◌, ◌⊎◌, Bool, true, false, none, some, ◌==◌, if◌then◌else◌, length,
}

-- The shared state, and which buffers a core is or was between two locks with: `numbered` while
-- `buf_create` has a number and no entry, `passed` once `buf_take` has seen that it is not pinned,
-- `looked` once `buf_pin` has found it in the table.
pub record Shared : Type 0 where
  pub buffers : Buffers
  pub numbered : ℕ → Bool
  pub passed : ℕ → Bool
  pub looked : ℕ → Bool

abbrev pub mark : ℕ → Bool → (ℕ → Bool) → ℕ → Bool
mark id v f i = if i == id then v else f i

-- One hold of a lock that changes something, by any core.
pub data Hold (phys_of : ℕ → Buffers → ℕ) (s s' : Shared) : Type 0 where
  create_number :
      s' ≡ record s {
        buffers = (next_number s.buffers).1;
        numbered = mark (next_number s.buffers).0 true s.numbered;
      }
      → Hold phys_of s s'
  create_insert :
      (id : ℕ) (bytes : Bytes)
      → s.numbered id ≡ true
      → s'
        ≡ record s { buffers = put id (some bytes) s.buffers; numbered = mark id false s.numbered }
      → Hold phys_of s s'
  take_check :
      (id : ℕ)
      → s.buffers.pinned id ≡ false
      → s' ≡ record s { passed = mark id true s.passed }
      → Hold phys_of s s'
  take_remove :
      (id : ℕ)
      → s.passed id ≡ true
      → s' ≡ record s { buffers = (remove id s.buffers).1 }
      → Hold phys_of s s'
  write :
      (id offset : ℕ) (bytes : Bytes)
      → s' ≡ record s { buffers = (buf_write id offset bytes s.buffers).1 }
      → Hold phys_of s s'
  pin_find :
      (id : ℕ) (at : ℕ × ℕ)
      → find phys_of id s.buffers ≡ some at
      → s' ≡ record s { looked = mark id true s.looked }
      → Hold phys_of s s'
  pin_mark :
      (id : ℕ)
      → s.looked id ≡ true
      → s' ≡ record s { buffers = mark_pinned id s.buffers }
      → Hold phys_of s s'

abbrev pub InTable : Buffers → ℕ → Type 0
InTable b id = (bytes : Bytes) × (b.table id ≡ some bytes)

-- The invariant: a buffer that is pinned, or about to be, is in the table, unless a take of it got
-- past the check of the pins; a number without an entry yet is nobody's, as are those to come.
pub record IsValid (s : Shared) : Type 0 where
  pub pinned : (id : ℕ) → s.buffers.pinned id ≡ true → InTable s.buffers id ⊎ (s.passed id ≡ true)
  pub looked : (id : ℕ) → s.looked id ≡ true → InTable s.buffers id ⊎ (s.passed id ≡ true)
  pub numbered :
      (id : ℕ) → s.numbered id ≡ true → (s.buffers.table id ≡ none) × (id < s.buffers.next_buf)
  pub fresh : (id : ℕ) → s.buffers.next_buf ≤ id → s.buffers.table id ≡ none
  pub small : s.buffers.next_buf + 1 < 2 ^ 64

-- Pinned, in the table with `n` bytes, and no take of it got past the check of the pins.
pub record IsSafe (id n : ℕ) (s : Shared) : Type 0 where
  pub pinned : s.buffers.pinned id ≡ true
  pub unpassed : s.passed id ≡ false
  pub bytes : Bytes
  pub at : s.buffers.table id ≡ some bytes
  pub sized : length bytes ≡ n
