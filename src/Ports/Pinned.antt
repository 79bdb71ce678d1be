-- ===== src/Ports/Pinned.antt =====
-- About pinned buffers (kernel/src/ports.rs), with the locks as the steps.
use yggdrasil.Ports.{Buffers}
use yggdrasil.Ports.Holds.{Shared, Hold, InTable, IsValid, IsSafe}
use yggdrasil.Ports.Effects.{Hold-Effect}
use yggdrasil.Prelude.{ℕ, ◌+◌, ◌^◌, ◌<◌, ◌≡◌, sym, ◌∙◌, ◌⊎◌, inl, inr, true, false, Bool-cases}

-- What a core does to a valid table of buffers while it holds one lock, as long as the numbers of
-- buffers do not run out of 64 bits, leaves it valid: a buffer that is pinned, or that `buf_pin`
-- has found, is in the table unless a take of it got past the check of the pins, and a number has
-- no entry before `buf_create` inserts it.
pub Hold-IsValid :
    (phys_of : ℕ → Buffers → ℕ) (s s' : Shared)
    → IsValid s
    → Hold phys_of s s'
    → s'.buffers.next_buf + 1 < 2 ^ 64
    → IsValid s'
Hold-IsValid phys_of s s' v h small =
    let f = Hold-Effect phys_of s s' v h in
    let still_there : (id : ℕ)
        → InTable s.buffers id ⊎ (s.passed id ≡ true)
        → InTable s'.buffers id ⊎ (s'.passed id ≡ true) =
      (λ id o. elim o [
        | inr p ↦ inr (f.passed_on id p)
        | inl (bytes, at) ↦ elim (f.stays id bytes at) [
          | inl (new, at', _) ↦ inl (new, at')
          | inr p ↦ inr (f.passed_on id p)
        ]
      ]) in
    record {
      pinned = λ id p. elim (f.pins_new id p) [
        | inl old ↦ still_there id (v.pinned id old)
        | inr seen ↦ still_there id (v.looked id seen)
      ];
      looked = λ id p. elim (f.looked_new id p) [
        | inl old ↦ still_there id (v.looked id old)
        | inr here ↦ inl here
      ];
      numbered = f.numbered;
      fresh = f.fresh;
      small = small;
    }

-- Whatever the order in which the cores take the locks: what a core does to a valid table of
-- buffers while it holds one lock leaves a buffer that is pinned, and of which no take got past the
-- check of the pins before, pinned and in the table with its length, and still no take of it past
-- the check.
pub Hold-IsSafe :
    (phys_of : ℕ → Buffers → ℕ) (s s' : Shared) (id n : ℕ)
    → IsValid s
    → Hold phys_of s s'
    → IsSafe id n s
    → IsSafe id n s'
Hold-IsSafe phys_of s s' id n v h safe =
    let f = Hold-Effect phys_of s s' v h in
    let unpassed : s'.passed id ≡ false = elim (Bool-cases (s'.passed id)) [
      | inr q ↦ q
      | inl q ↦ elim (f.passed_new id q) [
        | inl old ↦ cc (sym safe.unpassed ∙ old)
        | inr free ↦ cc (sym safe.pinned ∙ free)
      ]
    ] in
    elim (f.stays id safe.bytes safe.at) [
      | inr p ↦ cc (sym safe.unpassed ∙ p)
      | inl (new, at, size) ↦ record {
        pinned = f.pins_on id safe.pinned;
        unpassed = unpassed;
        bytes = new;
        at = at;
        sized = size ∙ safe.sized;
      }
    ]
