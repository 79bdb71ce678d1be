-- ===== src/Verify/Tests.antt =====
-- The verifier at a function that loads nil and returns it.
use yggdrasil.Bytecode.{Function, Module}
use yggdrasil.Bytecode.Op.{of_opcode, load_nil}
use yggdrasil.Bytecode.Layout
use yggdrasil.Bytecode.Layout.{layout}
use yggdrasil.Bytecode.Skip.{skip_known, skip_operands}
use yggdrasil.Verify.{verify_op, verify_fn, verify, verify_instr}
use yggdrasil.Verify.Cursor.{pure, read_u8, ◌>>>=◌}
use yggdrasil.Verify.Table.{check_fields, verify_op-layout}
use yggdrasil.Verify.Flow.{Reach, entry, step, fall}
use yggdrasil.Verify.Fits.{FieldsFit}
use yggdrasil.Verify.Walk.{skip_known-Fits}
use yggdrasil.Verify.Safety.{SafeAt, verify-SafeAt}
use yggdrasil.Verify.Total.{verify-Returns}
use yggdrasil.Prelude.{◌≡◌, refl, none, some, [], ◌∷◌, arith, ok, Returns}

abbrev nil_fn : Function
nil_fn = record { name_atom = 0; arity = 0; nregs = 1; code = 3 ∷ 0 ∷ 19 ∷ 0 ∷ [] }

abbrev nil_module : Module
nil_module = record { atoms = (109 ∷ []) ∷ []; functions = nil_fn ∷ [] }

accepted : verify nil_module ≡ ok tt
unfolding verify verify_instr read_u8 of_opcode
accepted = refl

accepted_fn : verify_fn nil_module 0 nil_fn ≡ ok tt
unfolding verify_fn verify_instr read_u8 of_opcode
accepted_fn = refl

at_ret : Reach nil_fn.code 2
unfolding skip_operands of_opcode Layout.falls_through
at_ret = step entry (fall load_nil 3 refl refl refl refl)

verify-SafeAt_example : SafeAt nil_module nil_fn 2
verify-SafeAt_example = verify-SafeAt nil_module 0 nil_fn accepted refl (omega arith) at_ret

verify-Returns_example : Returns (verify nil_module)
verify-Returns_example = verify-Returns nil_module

verify_op-layout_example :
    verify_op nil_module 0 nil_fn 0 load_nil 1
    ≡ (check_fields nil_module 0 nil_fn 0 (layout load_nil) none >>>= λ t.
          pure (record { target = t; falls_through = Layout.falls_through load_nil }))
        1
verify_op-layout_example = verify_op-layout nil_module 0 nil_fn 0 load_nil 1

operands-Fit : FieldsFit nil_module nil_fn (layout load_nil) none 1 2 none
unfolding layout
operands-Fit = (2, none, ((0, refl, omega arith, refl), refl), (refl, refl))

skip_known-Fits_example : skip_known load_nil nil_fn.code 1 ≡ some 2
skip_known-Fits_example =
    skip_known-Fits nil_module nil_fn (omega arith) load_nil 1 2 none operands-Fit (omega arith)
