-- ===== src/Bytecode/Tests.antt =====
-- A module of one atom and one function.
use yggdrasil.Bytecode.{Module}
use yggdrasil.Bytecode.Op.{opcode, of_opcode, move, of_opcode-opcode}
use yggdrasil.Bytecode.Utf8.{is_utf8}
use yggdrasil.Bytecode.Codec.{encode, decode}
use yggdrasil.Bytecode.Roundtrip.{ModuleFits, decode-encode}
use yggdrasil.Bytecode.Builder.{CodeBuilder, finish, label_ref}
use yggdrasil.Bytecode.Labels.{Resolved, finish_lem}
use yggdrasil.Bytecode.Emitted.{IsPlaced, emit_ref, Emits-IsPlaced}
use yggdrasil.Prelude.{◌≡◌, refl, some, [], ◌∷◌, arith, ok}

abbrev pub sample : Module
sample = record {
  atoms = (109 ∷ 97 ∷ []) ∷ [];
  functions = record { name_atom = 0; arity = 0; nregs = 1; code = 3 ∷ 0 ∷ 19 ∷ 0 ∷ [] } ∷ [];
}

sample-ModuleFits : ModuleFits sample
unfolding is_utf8 encode
sample-ModuleFits = record {
  atom_count = omega arith;
  function_count = omega arith;
  atoms = (record { short = omega arith; utf8 = refl }, tt);
  functions = (record { name = omega arith; short = omega arith }, tt);
  addressable = omega arith;
}

decode-encode_example : decode (encode sample) ≡ ok sample
decode-encode_example = decode-encode sample sample-ModuleFits

of_opcode-opcode_example : of_opcode (opcode move) ≡ some move
of_opcode-opcode_example = of_opcode-opcode move

-- a jump to the start of the code
abbrev looping : CodeBuilder
looping = record { code = 9 ∷ 0 ∷ 0 ∷ 0 ∷ 0 ∷ []; fixups = (1, 7) ∷ []; labels = (7, 0) ∷ [] }

finish_lem_example : Resolved looping.labels 0 looping.fixups looping.code (finish looping)
finish_lem_example =
    finish_lem looping (omega arith, omega arith, tt) ((0, refl, omega arith), tt) (omega arith)

Emits-IsPlaced_example : IsPlaced (label_ref 7 looping)
Emits-IsPlaced_example =
    Emits-IsPlaced looping (label_ref 7 looping) (emit_ref 7 refl) (omega arith, omega arith, tt)
