-- ===== src/Bytecode/Codec.antt =====
-- crates/ygg-bytecode/src/lib.rs: `Reader`, `Module::decode` and `Module::encode`.
use yggdrasil.Bytecode.{Function, Module}
use yggdrasil.Bytecode.Utf8.{is_utf8}
use yggdrasil.Prelude.{
  ℕ, zero, suc, Bool, true, false, ◌&&◌, List, [], ◌∷◌, ◌++◌, ltb, ◌==◌, if◌then◌else◌, length,
  take, drop, checked_add, from_le_bytes, to_le_bytes, Outcome, ok, err, ◌>>=◌, ◌>>◌, guard, ok_or,
  index,
}

pub data DecodeError : Type 0 where
  bad_magic truncated bad_utf8 : DecodeError

-- `MAGIC`, b"YGGM1\n"
abbrev pub magic : List ℕ
magic = b'Y' ∷ b'G' ∷ b'G' ∷ b'M' ∷ b'1' ∷ 10 ∷ []

pub record Reader : Type 0 where
  pub b : List ℕ
  pub at : ℕ

-- A computation that moves the reader.
abbrev pub Read : Type 0 → Type 0
Read A = Reader → Outcome DecodeError (A × Reader)

unfoldable pub take_bytes : ℕ → Read (List ℕ)
take_bytes n r = do
  end ← ok_or (checked_add r.at n) truncated
  if ltb (length r.b) end then err truncated else ok (take n (drop r.at r.b), record r { at = end })

unfoldable pub u8 : Read ℕ
u8 r = do (s, r') ← take_bytes 1 r; v ← index s 0; ok (v, r')

unfoldable pub u16 : Read ℕ
u16 r = do (s, r') ← take_bytes 2 r; ok (from_le_bytes s, r')

unfoldable pub u32 : Read ℕ
u32 r = do (s, r') ← take_bytes 4 r; ok (from_le_bytes s, r')

-- one round of the loop over the atoms, and the loop
unfoldable pub read_atom : Read (List ℕ)
unfolding u16
read_atom r = do
  (len, r₁) ← u16 r
  (s, r₂) ← take_bytes len r₁
  guard (is_utf8 s) bad_utf8
  ok (s, r₂)

-- one round of the loop over the functions
unfoldable pub read_function : Read Function
unfolding u8 u32
read_function r = do
  (name_atom, r₁) ← u32 r
  (arity, r₂) ← u8 r₁
  (nregs, r₃) ← u8 r₂
  (code_len, r₄) ← u32 r₃
  (code, r₅) ← take_bytes code_len r₄
  ok (record { name_atom = name_atom; arity = arity; nregs = nregs; code = code }, r₅)

-- `for _ in 0..n { out.push(read(&mut r)?); }`
unfoldable pub read_all : {A : Type 0} → Read A → ℕ → Read (List A)
read_all read zero r = ok ([], r)
read_all read (suc n) r = do (x, r₁) ← read r; (xs, r₂) ← read_all read n r₁; ok (x ∷ xs, r₂)

unfoldable pub same_bytes : List ℕ → List ℕ → Bool
same_bytes [] [] = true
same_bytes (x ∷ xs) (y ∷ ys) = x == y && same_bytes xs ys
same_bytes _ _ = false

-- `Module::decode`, with the reader that it drops at its end
unfoldable pub read_module : Read Module
unfolding read_atom read_function read_all same_bytes
read_module r = do
  (m, r₁) ← take_bytes 6 r
  guard (same_bytes m magic) bad_magic
  (natoms, r₂) ← u32 r₁
  (atoms, r₃) ← read_all read_atom natoms r₂
  (nfns, r₄) ← u32 r₃
  (functions, r₅) ← read_all read_function nfns r₄
  ok (record { atoms = atoms; functions = functions }, r₅)

unfoldable pub decode : List ℕ → Outcome DecodeError Module
unfolding read_module
decode bytes = do (m, _) ← read_module (record { b = bytes; at = 0 }); ok m

-- the bytes that `encode` appends for an atom and for a function; `as u16` and `as u32` drop what
-- does not fit, as `to_le_bytes` does
unfoldable pub encode_atom : List ℕ → List ℕ
encode_atom a = to_le_bytes 2 (length a) ++ a

unfoldable pub encode_function : Function → List ℕ
encode_function f =
    to_le_bytes 4 f.name_atom ++ (f.arity ∷ f.nregs ∷ (to_le_bytes 4 (length f.code) ++ f.code))

unfoldable pub encode_all : {A : Type 0} → (A → List ℕ) → List A → List ℕ
encode_all enc [] = []
encode_all enc (x ∷ xs) = enc x ++ encode_all enc xs

-- `Module::encode`
unfoldable pub encode : Module → List ℕ
unfolding encode_atom encode_function encode_all
encode m =
    magic
    ++ (to_le_bytes 4 (length m.atoms)
        ++ (encode_all encode_atom m.atoms
            ++ (to_le_bytes 4 (length m.functions) ++ encode_all encode_function m.functions)))
