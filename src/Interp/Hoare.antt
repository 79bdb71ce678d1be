-- ===== src/Interp/Hoare.antt =====
-- Postconditions of the steps of the interpreter (crates/ygg-interp/src/lib.rs).
use yggdrasil.Interp.Api.{Trap, bad_code, State, Act, after, ◌>>=◌}
use yggdrasil.Prelude.{
  ℕ, ◌+◌, ◌≤◌, ◌≡◌, ◌∙◌, ◌≢◌, List, arith, length, Outcome, ok, err, panic, timeout,
}

-- The result is a value and a state that `Q` holds of, or a trap other than `bad_code`.
abbrev pub Post : {W A : Type 0} → (A → State W → Type 0) → Outcome Trap A × State W → Type 0
Post Q (ok a, s) = Q a s
Post Q (err e, s) = e ≢ bad_code
Post Q (panic, s) = Unit
Post Q (timeout, s) = Unit

module _ {W A B : Type 0} where
  pub Post-after :
      (r : Outcome Trap A × State W) (next : A → Act W B) (R : A → State W → Type 0)
      (Q : B → State W → Type 0)
      → Post R r
      → ((a : A) (s : State W) → R a s → Post Q (next a s))
      → Post Q (after next r)
  Post-after (ok a, s) next R Q h k = k a s h
  Post-after (err e, s) next R Q h k = h
  Post-after (panic, s) next R Q h k = tt
  Post-after (timeout, s) next R Q h k = tt

pub Post-mono :
    {W A : Type 0} (r : Outcome Trap A × State W) (R Q : A → State W → Type 0)
    → Post R r
    → ((a : A) (s : State W) → R a s → Q a s)
    → Post Q r
Post-mono (ok a, s) R Q h k = k a s h
Post-mono (err e, s) R Q h k = h
Post-mono (panic, s) R Q h k = tt
Post-mono (timeout, s) R Q h k = tt

-- The frame runs `code` and is at `pc`.
abbrev pub At : {W : Type 0} → List ℕ → ℕ → State W → Type 0
At code pc s = (s.frame.code ≡ code) × (s.frame.pc ≡ pc)

-- Wherever `k` bytes are left, the run reads these bytes and no more.
pub record Reads {W A : Type 0} (code : List ℕ) (k : ℕ) (m : Act W A) : Type 0 where
  pub runs :
      (at : ℕ) (s : State W)
      → At code at s
      → at + k ≤ length code
      → Post (λ _ s'. At code (at + k) s') (m s)

pub seq :
    {W A B : Type 0} {code : List ℕ} {j k : ℕ} {m : Act W A} {next : A → Act W B}
    → Reads code j m
    → ((a : A) → Reads code k (next a))
    → Reads code (j + k) (m >>= next)
seq {code} {j} {k} {m} {next} first rest = record {
  runs = λ at s h le.
      Post-after (m s) next (λ _ s'. At code (at + j) s') (λ _ s'. At code (at + (j + k)) s')
        (first.runs at s h (omega arith))
        (λ a s' h'.
          let e : at + j + k ≡ at + (j + k) = omega arith in
          Post-mono (next a s') (λ _ t. At code (at + j + k) t) (λ _ t. At code (at + (j + k)) t)
            ((rest a).runs (at + j) s' h' (omega arith)) (λ _ t p. (p.0, p.1 ∙ e)));
}
