-- ===== src/Interp/Reads.antt =====
-- Lemmas on the parts of an instruction (crates/ygg-interp/src/lib.rs): how many bytes they read.
use yggdrasil.Term.{Term}
use yggdrasil.Interp.Api.{
  Trap, badarg, bad_code, State, Act, Call, lift, pure, fail, call, ask, change, tell,
}
use yggdrasil.Interp.Fetch.{u8, bytes, u32, i64, get_reg, set_reg, get_int}
use yggdrasil.Interp.Allocate.{check}
use yggdrasil.Interp.Hoare.{Post, Post-mono, At, Reads, seq}
use yggdrasil.Prelude.{
  ℕ, zero, suc, ◌+◌, ◌≤◌, ◌<◌, ◌≡◌, refl, ap, ◌∙◌, ◌≢◌, Bool, true, false, Option, none, some, List,
  [], ◌∷◌, arith, ltb, Bool-cases, inl, inr, length, get_elem?, take, drop, slice, le→leb, Outcome,
  ok, err, panic, timeout, ok_or,
}

get_elem?-some {ℓ} :
    {A : Type ℓ} (xs : List A) (i : ℕ) → i < length xs → (x : A) × (get_elem? xs i ≡ some x)
get_elem?-some [] i h = elim h [ ]
get_elem?-some (x ∷ xs) zero h = (x, refl)
get_elem?-some (x ∷ xs) (suc i) h = get_elem?-some xs i (omega arith)

slice-some {ℓ} :
    {A : Type ℓ} (xs : List A) (at n : ℕ)
    → at + n ≤ length xs
    → (s : List A) × (slice xs at n ≡ some s)
slice-some xs at n h = (take n (drop at xs), rw (le→leb (at + n) (length xs) h))

-- An outcome other than the trap `bad_code`.
abbrev pub Clean : {A : Type 0} → Outcome Trap A → Type 0
Clean o = o ≢ err bad_code

pub ok-Clean : {A : Type 0} (a : A) → Clean (ok a)
ok-Clean a h = cc

pub panic-Clean : {A : Type 0} → Clean {A = A} panic
panic-Clean h = cc

pub timeout-Clean : {A : Type 0} → Clean {A = A} timeout
timeout-Clean h = cc

trap_of_err {ℓ} : {A : Type ℓ} → Outcome Trap A → Trap
trap_of_err (err e) = e
trap_of_err _ = badarg

pub err-Clean : {A : Type 0} (e : Trap) → e ≢ bad_code → Clean {A = A} (err e)
unfolding trap_of_err
err-Clean e h q = h (ap trap_of_err q)

pub badarg_ne : badarg ≢ bad_code
badarg_ne h = cc

pub ok_or-Clean : {A : Type 0} (o : Option A) → Clean (ok_or o badarg)
ok_or-Clean none = err-Clean badarg badarg_ne
ok_or-Clean (some a) = ok-Clean a

lift-Post :
    {W A : Type 0} (o : Outcome Trap A) (s : State W)
    → Clean o
    → Post (λ _ s'. (s'.frame.code ≡ s.frame.code) × (s'.frame.pc ≡ s.frame.pc)) (o, s)
lift-Post (ok a) s h = (refl, refl)
lift-Post (err e) s h = λ q. h (ap err q)
lift-Post panic s h = tt
lift-Post timeout s h = tt

-- the state after a fetch of `n` bytes
abbrev pub moved : {W : Type 0} → ℕ → State W → State W
moved n s = record s { frame = record s.frame { pc = s.frame.pc + n } }

module _ {W : Type 0} where
  pub u8-eq :
      (code : List ℕ) (at x : ℕ) (s : State W)
      → At code at s
      → get_elem? code at ≡ some x
      → u8 s ≡ (ok x, moved 1 s)
  unfolding u8
  u8-eq code at x s (ec, ep) e = rw (ec, ep, e)

  pub bytes-eq :
      (code : List ℕ) (at n : ℕ) (x : List ℕ) (s : State W)
      → At code at s
      → slice code at n ≡ some x
      → bytes n s ≡ (ok x, moved n s)
  unfolding bytes
  bytes-eq code at n x s (ec, ep) e = rw (ec, ep, e)

module _ {W : Type 0} {code : List ℕ} where
  pub u8-Reads : Reads {W = W} code 1 u8
  u8-Reads = record {
    runs = λ at s h le.
        let (x, e) = get_elem?-some code at (omega arith) in
        rw (u8-eq code at x s h e) (h.0, ap (λ n. n + 1) h.1);
  }

  pub bytes-Reads : (n : ℕ) → Reads {W = W} code n (bytes n)
  bytes-Reads n = record {
    runs = λ at s h le.
        let (x, e) = slice-some code at n le in
        rw (bytes-eq code at n x s h e) (h.0, ap (λ k. k + n) h.1);
  }

  -- A run that leaves the code and the cursor as they are.
  pub still :
      {A : Type 0} {m : Act W A}
      → ((s : State W)
          → Post (λ _ s'. (s'.frame.code ≡ s.frame.code) × (s'.frame.pc ≡ s.frame.pc)) (m s))
      → Reads code 0 m
  still {m} h = record {
    runs = λ at s e le.
        Post-mono (m s) (λ _ s'. (s'.frame.code ≡ s.frame.code) × (s'.frame.pc ≡ s.frame.pc))
          (λ _ s'. At code (at + 0) s') (h s)
          (λ _ s' p. (p.0 ∙ e.0, p.1 ∙ e.1 ∙ (let z : at ≡ at + 0 = omega arith in z)));
  }

  pub lift-Reads : {A : Type 0} (o : Outcome Trap A) → Clean o → Reads {W = W} code 0 (lift o)
  lift-Reads o h = still (λ s. lift-Post o s h)

  pub pure-Reads : {A : Type 0} (a : A) → Reads {W = W} code 0 (pure a)
  pure-Reads a = lift-Reads (ok a) (ok-Clean a)

  pub fail-Reads : {A : Type 0} (e : Trap) → e ≢ bad_code → Reads {W = W} {A = A} code 0 (fail e)
  fail-Reads e h = lift-Reads (err e) (err-Clean e h)

  pub ok_or-Reads : {A : Type 0} (o : Option A) → Reads {W = W} code 0 (lift (ok_or o badarg))
  ok_or-Reads o = lift-Reads (ok_or o badarg) (ok_or-Clean o)

  pub check-Reads : (b : Bool) → Reads {W = W} code 0 (check b)
  check-Reads true = pure-Reads tt
  check-Reads false = fail-Reads badarg badarg_ne

  pub ask-Reads : {A : Type 0} (f : W → A) → Reads code 0 (ask f)
  ask-Reads f = still (λ s. (refl, refl))

  pub tell-Reads : (f : W → W) → Reads code 0 (tell f)
  tell-Reads f = still (λ s. (refl, refl))

  pub change-Reads : {A : Type 0} (f : W → A × W) → Reads code 0 (change f)
  change-Reads f = still (λ s. (refl, refl))

  -- a method that does not report `bad_code`
  pub call-Reads : {A : Type 0} (c : Call W A) → ((w : W) → Clean (c w).0) → Reads code 0 (call c)
  call-Reads c h =
      still (λ s. lift-Post (c s.world).0 (record s { world = (c s.world).1 }) (h s.world))

  pub get_reg-Reads : (r : ℕ) → Reads {W = W} code 0 (get_reg r)
  unfolding get_reg
  get_reg-Reads r = still (λ s.
      lift-Post (ok_or (get_elem? s.frame.regs r) badarg) s
        (ok_or-Clean (get_elem? s.frame.regs r)))

  pub set_reg-Reads : (r : ℕ) (v : Term) → Reads {W = W} code 0 (set_reg r v)
  unfolding set_reg
  set_reg-Reads r v = still (λ s. elim (Bool-cases (ltb r (length s.frame.regs))) [
    | inl e ↦ rw e (refl, refl)
    | inr e ↦ rw e badarg_ne
  ])

  pub u32-Reads : Reads {W = W} code 4 u32
  unfolding u32
  u32-Reads = seq (bytes-Reads 4) λ s. pure-Reads _

  pub i64-Reads : Reads {W = W} code 8 i64
  unfolding i64
  i64-Reads = seq (bytes-Reads 8) λ s. pure-Reads _

  pub get_int-Reads : (r : ℕ) → Reads {W = W} code 0 (get_int r)
  unfolding get_int
  get_int-Reads r = seq (get_reg-Reads r) λ t. ok_or-Reads _
