-- ===== src/Interp/Takes.antt =====
-- Instructions whose operands vary in size, and the cursor between two places of the code.
use yggdrasil.Prelude.Int.{ℤ}
use yggdrasil.Bytecode.{Function, Module}
use yggdrasil.Verify.{as_i32}
use yggdrasil.Verify.Sizes.{get_elem?-lt}
use yggdrasil.Verify.Fits.{RegFits, RegsFit, PairsFit}
use yggdrasil.Interp.Api.{State, Act, ◌>>=◌}
use yggdrasil.Interp.Fetch.{u8, u32, i32, get_regs, get_pairs}
use yggdrasil.Interp.Hoare.{Post, Post-after, Post-mono, At, Reads}
use yggdrasil.Interp.Reads.{u8-eq, bytes-eq, moved, get_reg-Reads}
use yggdrasil.Prelude.{
  ℕ, zero, suc, ◌+◌, ◌≤◌, ◌≡◌, ap, ◌∙◌, some, List, arith, length, get_elem?, slice, from_le_bytes,
}

-- From `at`, the run leaves the cursor at `next`.
pub record Takes {W A : Type 0} (code : List ℕ) (at next : ℕ) (m : Act W A) : Type 0 where
  pub runs : (s : State W) → At code at s → Post (λ _ s'. At code next s') (m s)

module _ {W A : Type 0} {code : List ℕ} where
  pub Reads-Takes :
      {k : ℕ} {m : Act W A} (at : ℕ)
      → Reads code k m
      → at + k ≤ length code
      → Takes code at (at + k) m
  Reads-Takes at h le = record { runs = λ s e. h.runs at s e le }

  pub Takes-still : {m : Act W A} (at : ℕ) → Reads code 0 m → at ≤ length code → Takes code at at m
  Takes-still {m} at h le = record {
    runs = λ s e.
        Post-mono (m s) (λ _ t. At code (at + 0) t) (λ _ t. At code at t)
          (h.runs at s e (omega arith))
          (λ _ t p. (p.0, p.1 ∙ (let z : at + 0 ≡ at = omega arith in z)));
  }

pub then-Takes :
    {W A B : Type 0} {code : List ℕ} {at mid next : ℕ} {m : Act W A} {f : A → Act W B}
    → Takes code at mid m
    → ((a : A) → Takes code mid next (f a))
    → Takes code at next (m >>= f)
then-Takes {code} {mid} {next} {m} {f} first rest = record {
  runs = λ s e.
      Post-after (m s) f (λ _ t. At code mid t) (λ _ t. At code next t) (first.runs s e)
        (λ a t h. (rest a).runs t h);
}

module _ {W B : Type 0} {code : List ℕ} {at next : ℕ} where
  -- a byte and a word of which the value is known
  pub u8_then :
      {x : ℕ} (f : ℕ → Act W B)
      → get_elem? code at ≡ some x
      → Takes code (at + 1) next (f x)
      → Takes code at next (u8 >>= f)
  u8_then {x} f e h = record {
    runs = λ s a. rw (u8-eq code at x s a e) (h.runs (moved 1 s) (a.0, ap (λ n. n + 1) a.1));
  }

  pub u32_then :
      {w : List ℕ} (f : ℕ → Act W B)
      → slice code at 4 ≡ some w
      → Takes code (at + 4) next (f (from_le_bytes w))
      → Takes code at next (u32 >>= f)
  unfolding u32
  u32_then {w} f e h = record {
    runs = λ s a. rw (bytes-eq code at 4 w s a e) (h.runs (moved 4 s) (a.0, ap (λ n. n + 4) a.1));
  }

  pub i32_then :
      {w : List ℕ} (f : ℤ → Act W B)
      → slice code at 4 ≡ some w
      → Takes code (at + 4) next (f (as_i32 (from_le_bytes w)))
      → Takes code at next (i32 >>= f)
  unfolding i32 u32
  i32_then {w} f e h = record {
    runs = λ s a. rw (bytes-eq code at 4 w s a e) (h.runs (moved 4 s) (a.0, ap (λ n. n + 4) a.1));
  }

pub reg-le : (m : Module) (f : Function) (at next : ℕ) → RegFits m f at next → next ≤ length f.code
reg-le m f at next (r, e, lt, en) = omega (arith, get_elem?-lt f.code at e)

module _ {W : Type 0} (m : Module) (f : Function) where
  -- A byte that numbers a register is the next one.
  pub reg-Takes : {at next : ℕ} → RegFits m f at next → Takes {W = W} f.code at next u8
  reg-Takes {at} (r, e, lt, en) =
      rw en (record { runs = λ s a. rw (u8-eq f.code at r s a e) (a.0, ap (λ n. n + 1) a.1) })

  pub get_regs-Takes :
      (n at next : ℕ) → RegsFit m f n at next → Takes {W = W} f.code at next (get_regs n)
  unfolding get_regs
  get_regs-Takes zero at next h = rw h (record { runs = λ s a. a })
  get_regs-Takes (suc n) at next (mid, h, hs) =
      let le : mid ≤ length f.code = reg-le m f at mid h in
      then-Takes (reg-Takes h) λ r.
        then-Takes (Takes-still mid (get_reg-Reads r) le)
          λ t. then-Takes (get_regs-Takes n mid next hs) λ rest. record { runs = λ s a. a }

  pub get_pairs-Takes :
      (n at next : ℕ) → PairsFit m f n at next → Takes {W = W} f.code at next (get_pairs n)
  unfolding get_pairs
  get_pairs-Takes zero at next h = rw h (record { runs = λ s a. a })
  get_pairs-Takes (suc n) at next (mid, mid', h, h', hs) =
      let le : mid' ≤ length f.code = reg-le m f mid mid' h' in
      then-Takes (reg-Takes h) λ rk. then-Takes (reg-Takes h') λ rv.
        then-Takes (Takes-still mid' (get_reg-Reads rk) le) λ k.
          then-Takes (Takes-still mid' (get_reg-Reads rv) le)
            λ v. then-Takes (get_pairs-Takes n mid' next hs) λ rest. record { runs = λ s a. a }
