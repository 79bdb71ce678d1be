-- ===== src/Prelude/Modular.antt =====
-- Going round a range of indices.
use Prim.Native.Nat.{ℕ, ◌+◌, ◌-◌, ◌%◌, ◌<◌}
use mathlib.Core.Logic.{◌≢◌}
use native.Mathlib.Nat.{mod-eq_of_lt, mod-eq-sub-mod}
use native.Mathlib.Decide.{dec_lt}
use native.Mathlib.Omega.{arith}

-- Fewer than `N` steps round a range of `N` indices do not come back.
pub below_ne : (N i k : ℕ) → i < N → 0 < k → k < N → (i + k) % N ≢ i
below_ne N i k hi hk lt = elim (dec_lt (i + k) N) [
  | yes p ↦ omega (arith, mod-eq_of_lt p)
  | no p ↦ omega (
    arith,
    mod-eq-sub-mod {n = i + k} {m = N} (omega arith),
    mod-eq_of_lt {n = i + k - N} {m = N} (omega arith),
  )
]
