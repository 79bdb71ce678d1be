-- ===== src/Term/Immediate.antt =====
-- About immediate terms (crates/ygg-term/src/lib.rs).
use yggdrasil.Prelude.Int.{ℤ, pos, negsuc}
use yggdrasil.Term.{int, atom, pid, as_int, as_atom, as_pid}
use yggdrasil.Prelude.{ℕ, ◌-◌, ◌%◌, ◌^◌, ◌<◌, ◌≡◌, some, arith, ltb, if◌then◌else◌}

-- the integers of 61 bits
abbrev pub IsI61 : ℤ → Type 0
IsI61 (pos n) = n < 2 ^ 60
IsI61 (negsuc n) = n < 2 ^ 60

-- An integer in the range of 61 bits is read back from its term.
pub as_int-int : (v : ℤ) → IsI61 v → as_int (int v) ≡ some v
unfolding as_int int
as_int-int (pos n) h = ground arith
as_int-int (negsuc n) h = ground arith

as_atom-atom : (i : ℕ) → i < 2 ^ 32 → as_atom (atom i) ≡ some i
unfolding as_atom atom
as_atom-atom i h = ground arith

as_pid-pid : (p : ℕ) → p < 2 ^ 61 → as_pid (pid p) ≡ some p
unfolding as_pid pid
as_pid-pid p h = ground arith

-- an integer of 64 bits that does not fit
abbrev pub IsI64 : ℤ → Type 0
IsI64 (pos n) = n < 2 ^ 63
IsI64 (negsuc n) = n < 2 ^ 63

-- the integer that the low 61 bits of `v` stand for
unfoldable pub wrap_61 : ℤ → ℤ
wrap_61 (pos n) =
    let m : ℕ = n % 2 ^ 61 in if ltb m (2 ^ 60) then pos m else negsuc (2 ^ 61 - 1 - m)
wrap_61 (negsuc n) =
    let m : ℕ = n % 2 ^ 61 in if ltb m (2 ^ 60) then negsuc m else pos (2 ^ 61 - 1 - m)

-- Any i64 is read back from its term modulo 2^61, as the signed integer of its low 61 bits.
pub as_int-int_wraps : (v : ℤ) → IsI64 v → as_int (int v) ≡ some (wrap_61 v)
unfolding as_int int wrap_61
as_int-int_wraps (pos n) h = ground arith
as_int-int_wraps (negsuc n) h = ground arith
