-- ===== src/Interp/Variable.antt =====
-- The instructions with a varying number of operands, up to the calls.
use yggdrasil.Bytecode.{Function, Module}
use yggdrasil.Bytecode.Op.{Op}
use yggdrasil.Bytecode.Layout.{layout}
use yggdrasil.Term.Heap.{tuple, binary, map_from_pairs}
use yggdrasil.Prelude.Int.{ℤ}
use yggdrasil.Verify.Fits.{FieldsFit}
use yggdrasil.Verify.Sizes.{FieldsFit-le}
use yggdrasil.Interp.Api.{SystemApi}
use yggdrasil.Interp.Fetch.{bytes}
use yggdrasil.Interp.Data.{run_map}
use yggdrasil.Interp.Binaries.{run_binary}
use yggdrasil.Interp.Run.{external}
use yggdrasil.Interp.Reads.{bytes-Reads, set_reg-Reads, change-Reads, tell-Reads, pure-Reads}
use yggdrasil.Interp.Clean.{alloc_term-Reads, alloc_map-Reads}
use yggdrasil.Interp.Takes.{
  Takes, Reads-Takes, Takes-still, then-Takes, u8_then, u32_then, reg-Takes, get_regs-Takes,
  get_pairs-Takes,
}
use yggdrasil.Prelude.{ℕ, ◌+◌, ◌≤◌, ◌≡◌, Option, none, length, arith, from_le_bytes}
use mathlib.Core.Path.{subst}

module _ {W : Type 0} (m : Module) (f : Function) (api : SystemApi W) (fuel : ℕ) where
  pub make_tuple-Takes :
      (at next : ℕ) (u : Option ℤ)
      → FieldsFit m f (layout Op.make_tuple) none at next u
      → at ≤ length f.code
      → Takes f.code at next (run_map api fuel Op.make_tuple)
  unfolding run_map layout
  make_tuple-Takes at next u fit le =
      let end : next ≤ length f.code =
        (FieldsFit-le m f (layout Op.make_tuple) none at next u fit le).1 in
      let (a, _, (fa, _), (b, _, (n, mid, (en, em), fb, _), (eb, _))) = fit in
      then-Takes (reg-Takes m f fa) λ rd. u8_then _ en (
        rw (← em) (
          then-Takes (get_regs-Takes m f n mid next (rw eb fb)) λ elems.
            then-Takes (Takes-still next (alloc_term-Reads api fuel (tuple elems)) end)
              λ t. Takes-still next (set_reg-Reads rd t) end))

  pub map_new-Takes :
      (at next : ℕ) (u : Option ℤ)
      → FieldsFit m f (layout Op.map_new) none at next u
      → at ≤ length f.code
      → Takes f.code at next (run_map api fuel Op.map_new)
  unfolding run_map layout
  map_new-Takes at next u fit le =
      let end : next ≤ length f.code =
        (FieldsFit-le m f (layout Op.map_new) none at next u fit le).1 in
      let (a, _, (fa, _), (b, _, (n, mid, (en, em), fb, _), (eb, _))) = fit in
      then-Takes (reg-Takes m f fa) λ rd. u8_then _ en (
        rw (← em) (
          then-Takes (get_pairs-Takes m f n mid next (rw eb fb)) λ pairs.
            then-Takes (Takes-still next (alloc_map-Reads api fuel (map_from_pairs pairs)) end)
              λ t. Takes-still next (set_reg-Reads rd t) end))

  pub bin_new-Takes :
      (at next : ℕ) (u : Option ℤ)
      → FieldsFit m f (layout Op.bin_new) none at next u
      → at ≤ length f.code
      → Takes f.code at next (run_binary api fuel Op.bin_new)
  unfolding run_binary layout
  bin_new-Takes at next u fit le =
      let end : next ≤ length f.code =
        (FieldsFit-le m f (layout Op.bin_new) none at next u fit le).1 in
      let (a, _, (fa, _), (b, _, (n, mid, (w, ew, en, em), room, eb', _), (eb, _))) = fit in
      let k : ℕ = from_le_bytes w in
      let e : mid + k ≡ next = omega arith in
      let content_takes : Takes {W = W} f.code mid next (bytes k) =
        subst (λ x. Takes {W = W} f.code mid x (bytes k)) e
          (Reads-Takes mid (bytes-Reads k) (omega arith)) in
      then-Takes (reg-Takes m f fa) λ rd. u32_then _ ew (
        rw (← em) (
          then-Takes content_takes λ content.
            then-Takes (Takes-still next (alloc_term-Reads api fuel (binary content)) end)
              λ b. Takes-still next (set_reg-Reads rd b) end))

  -- the two atoms and the arguments of the instructions that call another module
  pub external-Takes :
      (at next : ℕ) (u : Option ℤ)
      → FieldsFit m f (layout Op.tail_call_ext) none at next u
      → at ≤ length f.code
      → Takes f.code at next (external api)
  unfolding external layout
  external-Takes at next u fit le =
      let end : next ≤ length f.code =
        (FieldsFit-le m f (layout Op.tail_call_ext) none at next u fit le).1 in
      let (
        a,
        _,
        (_, _, (w, ew, _, ea), _, _),
        (b, _, (_, _, (w', ew', _, eb), _, _), (c, _, (n, mid, (en, em), fb, _), (ec, _))),
      ) =
        fit in
      u32_then _ ew (
        rw (← ea) (
          u32_then _ ew' (
            rw (← eb) (
              u8_then _ en (
                rw (← em) (
                  then-Takes (get_regs-Takes m f n mid next (rw ec fb)) λ args.
                    then-Takes
                      (Takes-still next (change-Reads (api.atom_global (from_le_bytes w))) end)
                      λ mg.
                        then-Takes
                          (Takes-still next (change-Reads (api.atom_global (from_le_bytes w'))) end)
                          λ fg.
                            then-Takes (Takes-still next (tell-Reads api.safepoint) end)
                              λ _. Takes-still next (pure-Reads (mg, fg, args)) end))))))
