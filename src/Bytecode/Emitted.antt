-- ===== src/Bytecode/Emitted.antt =====
-- About the operations of `CodeBuilder` (crates/ygg-bytecode/src/lib.rs) and its references.
use yggdrasil.Bytecode.Builder.{CodeBuilder, bytes, u8, u32, i64, label_ref, bind}
use yggdrasil.Bytecode.Labels.{Placed}
use yggdrasil.Prelude.{
  ℕ, ◌+◌, ◌≤◌, ◌≡◌, List, [], ◌∷◌, ◌++◌, arith, length, length-append, to_le_bytes,
}

-- One call of the builder.
pub data Emits (b b' : CodeBuilder) : Type 0 where
  emit_bytes : (v : List ℕ) → b' ≡ bytes v b → Emits b b'
  emit_u8 : (v : ℕ) → b' ≡ u8 v b → Emits b b'
  emit_u32 : (v : ℕ) → b' ≡ u32 v b → Emits b b'
  emit_i64 : (v : ℕ) → b' ≡ i64 v b → Emits b b'
  emit_ref : (label : ℕ) → b' ≡ label_ref label b → Emits b b'
  binds : (label : ℕ) → b' ≡ bind label b → Emits b b'

abbrev pub IsPlaced : CodeBuilder → Type 0
IsPlaced b = Placed 0 (length b.code) b.fixups

Placed-le : (lo n n' : ℕ) (fs : List (ℕ × ℕ)) → n ≤ n' → Placed lo n fs → Placed lo n' fs
Placed-le lo n n' [] le h = tt
Placed-le lo n n' ((p, l) ∷ fs) le (a, b, h) = (a, omega arith, Placed-le (p + 4) n n' fs le h)

Placed-snoc :
    (lo n n' l : ℕ) (fs : List (ℕ × ℕ))
    → lo ≤ n
    → n + 4 ≤ n'
    → Placed lo n fs
    → Placed lo n' (fs ++ (n, l) ∷ [])
Placed-snoc lo n n' l [] lo_le le h = (lo_le, le, tt)
Placed-snoc lo n n' l ((p, q) ∷ fs) lo_le le (a, b, h) =
    (a, omega arith, Placed-snoc (p + 4) n n' l fs b le h)

appended : (b : CodeBuilder) (v : List ℕ) → IsPlaced b → Placed 0 (length (b.code ++ v)) b.fixups
appended b v h =
    Placed-le 0 (length b.code) (length (b.code ++ v)) b.fixups
      (omega (arith, length-append b.code v)) h

-- Every call of the `CodeBuilder` keeps the references one after the other within the code.
pub Emits-IsPlaced : (b b' : CodeBuilder) → Emits b b' → IsPlaced b → IsPlaced b'
unfolding bytes u8 u32 i64 label_ref bind
Emits-IsPlaced b b' (emit_bytes v e) h = rw e (appended b v h)
Emits-IsPlaced b b' (emit_u8 v e) h = rw e (appended b (v ∷ []) h)
Emits-IsPlaced b b' (emit_u32 v e) h = rw e (appended b (to_le_bytes 4 v) h)
Emits-IsPlaced b b' (emit_i64 v e) h = rw e (appended b (to_le_bytes 8 v) h)
Emits-IsPlaced b b' (emit_ref l e) h = rw e (
    Placed-snoc 0 (length b.code) (length (b.code ++ to_le_bytes 4 0)) l b.fixups (omega arith)
      (omega (arith, length-append b.code (to_le_bytes 4 0))) h)
Emits-IsPlaced b b' (binds l e) h = rw e h
