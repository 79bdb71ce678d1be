-- ===== src/Ring/Index.antt =====
-- Lemmas on the indices of the ring (crates/ygg-rings/src/lib.rs), whose cursors wrap at 2^32.
use Prim.Native.Nat.{◌∣◌}
use native.Mathlib.Nat.{
  mod-mod_of_dvd, mod-add-mod, pow-suc, mod-lt, add-zero, add-suc, dvd-mul_right, pow-le-pow_right,
}
use yggdrasil.Prelude.{ℕ, zero, suc, ◌+◌, ◌-◌, ◌*◌, ◌%◌, ◌^◌, ◌<◌, ◌≡◌, ◌∙◌, ◌≢◌, arith, below_ne}

-- `N` is a power of two (`assert!(N.is_power_of_two())`), and a cursor can count past it.
abbrev pub IsCap : ℕ → Type 0
IsCap N = (k : ℕ) × (k < 32) × (N ≡ 2 ^ k)

pow-add : (a b : ℕ) → 2 ^ (a + b) ≡ 2 ^ a * 2 ^ b
pow-add a zero = rw add-zero (omega arith)
pow-add a (suc b) = rw (add-suc, pow-suc, pow-suc, pow-add a b) (omega arith)

pub IsCap-pos : {N : ℕ} → IsCap N → 0 < N
IsCap-pos (k, h, e) = rw e (pow-le-pow_right {n = 2} (omega arith) {i = 0} {j = k} (omega arith))

pub IsCap-dvd : {N : ℕ} → IsCap N → N ∣ 2 ^ 32
IsCap-dvd (k, h, e) = rw e (
    rw (← pow-add k (32 - k), (let q : k + (32 - k) ≡ 32 = omega arith in q)) at
      (dvd-mul_right (2 ^ k) (2 ^ (32 - k))))

pub IsCap-lt : {N : ℕ} → IsCap N → N < 2 ^ 32
IsCap-lt (k, h, e) =
    omega (arith, e, pow-le-pow_right {n = 2} (omega arith) {i = k} {j = 31} (omega arith))

-- A wrapped cursor has the index of the cursor that would not wrap.
pub wrap-index : {N : ℕ} → IsCap N → (x : ℕ) → x % 2 ^ 32 % N ≡ x % N
wrap-index {N} c x = mod-mod_of_dvd N x (IsCap-dvd c)

-- Fewer than N steps from `h` do not come back to its index.
pub index_ne : {N : ℕ} → 0 < N → (h k : ℕ) → 0 < k → k < N → (h + k) % N ≢ h % N
index_ne {N} p h k hk lt e = below_ne N (h % N) k (mod-lt h p) hk lt (mod-add-mod h N k ∙ e)
