-- ===== src/Ports/Tests.antt =====
-- A table with one buffer of three bytes, which is pinned; and one that is taken while it is pinned.
use yggdrasil.Ports.{
  Buffers, next_number, remove, mark_pinned, buf_take, buf_pin, buf_write, buf_read, find,
}
use yggdrasil.Ports.Holds.{
  Shared, mark, IsValid, IsSafe, Hold, write, take_remove, pin_find, take_check, pin_mark,
  create_number,
}
use yggdrasil.Ports.Pinned.{Hold-IsSafe, Hold-IsValid}
use yggdrasil.Ports.Roundtrip.{write-read}
use yggdrasil.Prelude.{
  ℕ, ◌≡◌, refl, ◌==◌, if◌then◌else◌, inl, Bool, true, false, some, none, [], ◌∷◌, arith,
}

abbrev one : Buffers
one = record {
  table = λ i. if i == 1 then some (1 ∷ 2 ∷ 3 ∷ []) else none;
  next_buf = 2;
  pinned = λ i. i == 1;
}

abbrev no_core : ℕ → Bool
no_core i = false

abbrev shared : Shared
shared = record { buffers = one; numbered = no_core; passed = no_core; looked = no_core }

shared-IsValid : IsValid shared
shared-IsValid = record {
  pinned = λ id p. inl (1 ∷ 2 ∷ 3 ∷ [], rw p refl);
  looked = λ id p. cc;
  numbered = λ id p. cc;
  fresh = λ id le. ground arith;
  small = omega arith;
}

abbrev phys : ℕ → Buffers → ℕ
phys id b = 4096

abbrev after_write : Shared
after_write = record shared { buffers = (buf_write 1 1 (9 ∷ []) one).1 }

Hold-IsSafe_example : IsSafe 1 3 after_write
Hold-IsSafe_example =
    Hold-IsSafe phys shared after_write 1 3 shared-IsValid (write 1 1 (9 ∷ []) refl)
      (record { pinned = refl; unpassed = refl; bytes = 1 ∷ 2 ∷ 3 ∷ []; at = refl; sized = refl })

abbrev after_number : Shared
after_number = record shared { buffers = (next_number one).1; numbered = mark 2 true no_core }

Hold-IsValid_example : IsValid after_number
Hold-IsValid_example =
    Hold-IsValid phys shared after_number shared-IsValid (create_number refl) (omega arith)

-- One core finds the buffer to pin it, another sees that it is not pinned yet; then it is pinned
-- and taken.
abbrev loose : Shared
loose = record shared { buffers = record one { pinned = no_core } }

abbrev found : Shared
found = record loose { looked = mark 1 true no_core }

abbrev checked : Shared
checked = record found { passed = mark 1 true no_core }

abbrev now_pinned : Shared
now_pinned = record checked { buffers = mark_pinned 1 checked.buffers }

abbrev taken : Shared
taken = record now_pinned { buffers = (remove 1 now_pinned.buffers).1 }

race :
    Hold phys loose found
    × Hold phys found checked
    × Hold phys checked now_pinned
    × Hold phys now_pinned taken
    × (taken.buffers.pinned 1 ≡ true)
    × (taken.buffers.table 1 ≡ none)
unfolding find
race = (
  pin_find 1 (4096, 3) refl refl,
  take_check 1 refl refl,
  pin_mark 1 refl refl,
  take_remove 1 refl refl,
  refl,
  refl,
)

take_after_pin : (buf_take 1 (buf_pin phys 1 loose.buffers).1).0 ≡ none
unfolding buf_take buf_pin find
take_after_pin = refl

written : Buffers
written = (buf_write 1 1 (9 ∷ []) one).1

wrote : buf_write 1 1 (9 ∷ []) one ≡ (true, written)
unfolding buf_write written
wrote = refl

write-read_example : buf_read 1 1 1 written ≡ some (9 ∷ [])
write-read_example = write-read 1 1 (9 ∷ []) one written wrote
