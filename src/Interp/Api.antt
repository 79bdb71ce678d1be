-- ===== src/Interp/Api.antt =====
-- `Trap` and `SystemApi` (crates/ygg-interp/src/lib.rs). The kernel that implements the interface is
-- a parameter: a type W of its states and a record of its operations on them.
use yggdrasil.Term.{Term}
use yggdrasil.Term.Heap.{Heap}
use yggdrasil.Prelude.Int.{ℤ}
use yggdrasil.Prelude.{ℕ, Bool, List, Outcome, ok, err, panic, timeout}

pub data Trap : Type 0 where
  badarg : Trap
  bad_code : Trap
  heap_full : Trap
  exit : ℕ → Trap

-- A method that may trap; its effects on the state stay when it does.
abbrev pub Call : Type 0 → Type 0 → Type 0
Call W A = W → Outcome Trap A × W

-- `heap` gives the heap that is borrowed, `put_heap` ends the borrow.
pub record SystemApi (W : Type 0) : Type 0 where
  pub heap : W → Heap
  pub put_heap : Heap → W → W
  pub self_pid : W → ℕ
  pub send : (to msg : Term) → Call W (Unit {0})
  pub recv : Call W Term
  pub spawn : (fn_idx : ℕ) (arg : Term) → Call W ℕ
  pub safepoint : W → W
  pub atom_global : ℕ → W → ℕ × W
  pub print : Term → W → W
  pub port_open : (kind : ℕ) → Call W Term
  pub port_submit : (port : Term) (op : ℕ) (arg0 tag : Term) → Call W (Unit {0})
  pub call_ext : (module_atom fname_atom : ℕ) → List Term → Call W Term
  pub buf_to_bin : (id : ℤ) → Call W Term
  pub bin_to_buf : (bin : Term) → Call W Term
  pub heap_grow : W → Bool × W
  pub tail_call : (module_atom fname_atom : ℕ) → List Term → W → W
  pub tail_call_local : (fn_idx : ℕ) → List Term → W → W
  pub buf_write : (buf off bin : Term) → Call W Term
  pub buf_new : (size : Term) → Call W Term
  pub buf_read : (buf off len : Term) → Call W Term
  pub sleep_ms : (ms : ℕ) → W → W
  pub ticks : W → Term
  pub port_submit2 : (port op arg0 arg1 tag : Term) → Call W (Unit {0})

pub record Frame : Type 0 where
  pub code : List ℕ
  pub pc : ℕ
  pub regs : List Term

pub record State (W : Type 0) : Type 0 where
  pub frame : Frame
  pub world : W

-- A step of the interpreter: what it comes to, and the state after it.
abbrev pub Act : Type 0 → Type 0 → Type 0
Act W A = State W → Outcome Trap A × State W

module _ {W A B : Type 0} where
  abbrev pub after : (A → Act W B) → Outcome Trap A × State W → Outcome Trap B × State W
  after next (ok a, s) = next a s
  after next (err e, s) = (err e, s)
  after next (panic, s) = (panic, s)
  after next (timeout, s) = (timeout, s)

infixl 5 ◌>>=◌ ◌>>◌
abbrev pub ◌>>=◌ : {W A B : Type 0} → Act W A → (A → Act W B) → Act W B
(m >>= next) s = after next (m s)

abbrev pub ◌>>◌ : {W B : Type 0} → Act W (Unit {0}) → Act W B → Act W B
m >> rest = m >>= λ _. rest

module _ {W A : Type 0} where
  abbrev pub lift : Outcome Trap A → Act W A
  lift o s = (o, s)

  abbrev pub pure : A → Act W A
  pure a = lift (ok a)

  abbrev pub fail : Trap → Act W A
  fail e = lift (err e)

  -- a method of the interface, by what it may do
  abbrev pub call : Call W A → Act W A
  call c s = let (o, w) = c s.world in (o, record s { world = w })

  abbrev pub ask : (W → A) → Act W A
  ask f s = (ok (f s.world), s)

  abbrev pub change : (W → A × W) → Act W A
  change f s = let (a, w) = f s.world in (ok a, record s { world = w })

abbrev pub tell : {W : Type 0} → (W → W) → Act W (Unit {0})
tell f s = (ok tt, record s { world = f s.world })
