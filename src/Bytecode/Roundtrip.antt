-- ===== src/Bytecode/Roundtrip.antt =====
-- About `encode` and `decode` of a module (crates/ygg-bytecode/src/lib.rs).
use mathlib.Core.List.{append_assoc, append-nil}
use yggdrasil.Bytecode.{Function, Module}
use yggdrasil.Bytecode.Utf8.{is_utf8}
use yggdrasil.Bytecode.Codec.{
  DecodeError, bad_magic, bad_utf8, magic, Reader, Read, take_bytes, u8, u16, u32, read_atom,
  read_function, read_all, same_bytes, read_module, decode, encode_atom, encode_function,
  encode_all, encode,
}
use yggdrasil.Prelude.{
  ℕ, ◌+◌, ◌^◌, ◌<◌, ◌≡◌, refl, sym, ap, ◌∙◌, true, List, [], ◌∷◌, ◌++◌, arith, length,
  length-append, drop-append, take-append, from_to_le_bytes_4, from_to_le_bytes_2, to_le_bytes,
  Outcome, ok, ◌>>=◌, guard,
}

-- A reader that has read `pre` and has `rest` before it.
abbrev pub reader : List ℕ → List ℕ → Reader
reader pre rest = record { b = pre ++ rest; at = length pre }

-- Reading `enc` gives `x`, whatever stands before and behind it, as long as the whole is addressable.
abbrev pub Reads : {A : Type 0} → Read A → List ℕ → A → Type 0
Reads read enc x =
    (pre rest : List ℕ)
    → length pre + length enc + length rest < 2 ^ 64
    → read (reader pre (enc ++ rest)) ≡ ok (x, reader (pre ++ enc) rest)

pub take_bytes-Reads : (xs : List ℕ) → Reads (take_bytes (length xs)) xs xs
unfolding take_bytes
take_bytes-Reads xs pre rest h = ground (
  arith,
  drop-append pre (xs ++ rest),
  take-append xs rest,
  length-append pre (xs ++ rest),
  length-append xs rest,
  length-append pre xs,
  append_assoc pre xs rest,
)

-- Two reads, one behind the other.
pub then-Reads :
    {A B : Type 0} (read : Read A) (k : A → Read B) (xs ys : List ℕ) (a : A) (b : B)
    → Reads read xs a
    → Reads (k a) ys b
    → Reads (λ r. read r >>= λ p. k p.0 p.1) (xs ++ ys) b
then-Reads read k xs ys a b hx hy pre rest h =
    ap (λ w. read (reader pre w) >>= λ p. k p.0 p.1) (append_assoc xs ys rest)
    ∙ ap (λ o. o >>= λ p. k p.0 p.1)
        (hx pre (ys ++ rest) (omega (arith, h, length-append xs ys, length-append ys rest)))
    ∙ hy (pre ++ xs) rest (omega (arith, h, length-append xs ys, length-append pre xs))
    ∙ ap (λ w. ok (b, reader w rest)) (append_assoc pre xs ys)

-- A value that is returned at once reads nothing.
pub pure-Reads : {A : Type 0} (x : A) → Reads (λ r. ok (x, r)) [] x
pure-Reads x pre rest h = rw append-nil

-- A read whose value is only wrapped.
map-Reads :
    {A B : Type 0} (read : Read A) (f : A → B) (xs : List ℕ) (a : A)
    → Reads read xs a
    → Reads (λ r. read r >>= λ p. ok (f p.0, p.1)) xs (f a)
map-Reads read f xs a hx pre rest h = ap (λ o. o >>= λ p. ok (f p.0, p.1)) (hx pre rest h)

u32-Reads : (n : ℕ) → n < 2 ^ 32 → Reads u32 (to_le_bytes 4 n) n
unfolding u32
u32-Reads n h pre rest hl =
    rw (take_bytes-Reads (to_le_bytes 4 n) pre rest hl)
      (ap (λ k. ok (k, reader (pre ++ to_le_bytes 4 n) rest)) (from_to_le_bytes_4 n h))

u16-Reads : (n : ℕ) → n < 2 ^ 16 → Reads u16 (to_le_bytes 2 n) n
unfolding u16
u16-Reads n h pre rest hl =
    rw (take_bytes-Reads (to_le_bytes 2 n) pre rest hl)
      (ap (λ k. ok (k, reader (pre ++ to_le_bytes 2 n) rest)) (from_to_le_bytes_2 n h))

u8-Reads : (n : ℕ) → Reads u8 (n ∷ []) n
unfolding u8
u8-Reads n pre rest hl = rw (take_bytes-Reads (n ∷ []) pre rest hl)

-- What `encode` can write without loss.
pub record AtomFits (a : List ℕ) : Type 0 where
  pub short : length a < 2 ^ 16
  pub utf8 : is_utf8 a ≡ true

pub record FunctionFits (f : Function) : Type 0 where
  pub name : f.name_atom < 2 ^ 32
  pub short : length f.code < 2 ^ 32

abbrev pub Each {ℓ} : {A : Type ℓ} → (A → Type 0) → List A → Type 0
Each P [] = Unit
Each P (x ∷ xs) = P x × Each P xs

atom-Reads : (a : List ℕ) → AtomFits a → Reads read_atom (encode_atom a) a
unfolding read_atom encode_atom
atom-Reads a fits =
    then-Reads u16
      (λ len r. take_bytes len r >>= λ p. guard (is_utf8 p.0) bad_utf8 >>= λ _. ok (p.0, p.1))
      (to_le_bytes 2 (length a)) a (length a) a (u16-Reads (length a) fits.short)
      (λ pre rest h.
        ap (λ o. o >>= λ p. guard (is_utf8 p.0) bad_utf8 >>= λ _. ok (p.0, p.1))
          (take_bytes-Reads a pre rest h)
        ∙ ap
            (λ b.
              let g : Outcome DecodeError (Unit {0}) = guard b bad_utf8 in
              g >>= λ _. ok (a, reader (pre ++ a) rest))
            fits.utf8)

function-Reads : (f : Function) → FunctionFits f → Reads read_function (encode_function f) f
unfolding read_function encode_function
function-Reads f fits =
    let built = λ (n a k : ℕ) (c : List ℕ).
      let g : Function = record { name_atom = n; arity = a; nregs = k; code = c } in g in
    then-Reads u32
      (λ n r₁. u8 r₁ >>= λ p₂. u8 p₂.1 >>= λ p₃.
        u32 p₃.1 >>= λ p₄. take_bytes p₄.0 p₄.1 >>= λ p₅. ok (built n p₂.0 p₃.0 p₅.0, p₅.1))
      (to_le_bytes 4 f.name_atom) (f.arity ∷ f.nregs ∷ (to_le_bytes 4 (length f.code) ++ f.code))
      f.name_atom f (u32-Reads f.name_atom fits.name)
      (then-Reads u8
        (λ a r₂. u8 r₂ >>= λ p₃. u32 p₃.1 >>= λ p₄.
          take_bytes p₄.0 p₄.1 >>= λ p₅. ok (built f.name_atom a p₃.0 p₅.0, p₅.1))
        (f.arity ∷ []) (f.nregs ∷ (to_le_bytes 4 (length f.code) ++ f.code)) f.arity f
        (u8-Reads f.arity)
        (then-Reads u8
          (λ k r₃. u32 r₃ >>= λ p₄.
            take_bytes p₄.0 p₄.1 >>= λ p₅. ok (built f.name_atom f.arity k p₅.0, p₅.1))
          (f.nregs ∷ []) (to_le_bytes 4 (length f.code) ++ f.code) f.nregs f (u8-Reads f.nregs)
          (then-Reads u32
            (λ len r₄.
              take_bytes len r₄ >>= λ p₅. ok (built f.name_atom f.arity f.nregs p₅.0, p₅.1))
            (to_le_bytes 4 (length f.code)) f.code (length f.code) f
            (u32-Reads (length f.code) fits.short)
            (map-Reads (take_bytes (length f.code)) (built f.name_atom f.arity f.nregs) f.code
              f.code (take_bytes-Reads f.code)))))

all-Reads :
    {A : Type 0} (read : Read A) (enc : A → List ℕ) (Fits : A → Type 0)
    → ((x : A) → Fits x → Reads read (enc x) x)
    → (xs : List A) → Each Fits xs
    → Reads (read_all read (length xs)) (encode_all enc xs) xs
unfolding read_all encode_all
all-Reads read enc Fits one [] fits = pure-Reads []
all-Reads read enc Fits one (x ∷ xs) fits =
    then-Reads read (λ y r. read_all read (length xs) r >>= λ p. ok (y ∷ p.0, p.1)) (enc x)
      (encode_all enc xs) x (x ∷ xs) (one x fits.0)
      (map-Reads (read_all read (length xs)) (λ ys. x ∷ ys) (encode_all enc xs) xs
        (all-Reads read enc Fits one xs fits.1))

-- What `encode` can write of a module without loss: the counts and the sizes fit their fields, and
-- the atoms are strings.
pub record ModuleFits (m : Module) : Type 0 where
  pub atom_count : length m.atoms < 2 ^ 32
  pub function_count : length m.functions < 2 ^ 32
  pub atoms : Each AtomFits m.atoms
  pub functions : Each FunctionFits m.functions
  pub addressable : length (encode m) < 2 ^ 64

same-magic : same_bytes magic magic ≡ true
unfolding same_bytes
same-magic = refl

module _ (m : Module) (fits : ModuleFits m) where
  made : List (List ℕ) → List Function → Module
  made atoms functions = record { atoms = atoms; functions = functions }

  functions-Reads :
      Reads
        (λ r. u32 r >>= λ p. read_all read_function p.0 p.1 >>= λ q. ok (made m.atoms q.0, q.1))
        (to_le_bytes 4 (length m.functions) ++ encode_all encode_function m.functions)
        m
  unfolding made
  functions-Reads =
      then-Reads u32 (λ n r. read_all read_function n r >>= λ q. ok (made m.atoms q.0, q.1))
        (to_le_bytes 4 (length m.functions)) (encode_all encode_function m.functions)
        (length m.functions) m (u32-Reads (length m.functions) fits.function_count)
        (map-Reads (read_all read_function (length m.functions)) (made m.atoms)
          (encode_all encode_function m.functions) m.functions
          (all-Reads read_function encode_function FunctionFits function-Reads m.functions
            fits.functions))

  module-Reads : Reads read_module (encode m) m
  unfolding read_module encode made same_bytes
  module-Reads =
      then-Reads (take_bytes 6)
        (λ s r. guard (same_bytes s magic) bad_magic >>= λ _. u32 r >>= λ p.
          read_all read_atom p.0 p.1 >>= λ q.
          u32 q.1 >>= λ p'. read_all read_function p'.0 p'.1 >>= λ q'. ok (made q.0 q'.0, q'.1))
        magic _ magic m (take_bytes-Reads magic)
        (then-Reads u32
          (λ n r. read_all read_atom n r >>= λ q.
            u32 q.1 >>= λ p'. read_all read_function p'.0 p'.1 >>= λ q'. ok (made q.0 q'.0, q'.1))
          (to_le_bytes 4 (length m.atoms)) _ (length m.atoms) m
          (u32-Reads (length m.atoms) fits.atom_count)
          (then-Reads (read_all read_atom (length m.atoms))
            (λ atoms r.
              u32 r >>= λ p'. read_all read_function p'.0 p'.1 >>= λ q'. ok (made atoms q'.0, q'.1))
            (encode_all encode_atom m.atoms) _ m.atoms m
            (all-Reads read_atom encode_atom AtomFits atom-Reads m.atoms fits.atoms)
            functions-Reads))

-- Decoding the encoding of a module gives the module back, if the counts and the sizes fit their
-- fields, the atoms are UTF-8 and the encoding is shorter than 2^64 bytes.
pub decode-encode : (m : Module) → ModuleFits m → decode (encode m) ≡ ok m
unfolding decode
decode-encode m fits =
    ap (λ w. read_module (record { b = w; at = 0 }) >>= λ p. ok p.0) (sym (append-nil (encode m)))
    ∙ ap (λ o. o >>= λ p. ok p.0) (module-Reads m fits [] [] (omega (arith, fits.addressable)))
