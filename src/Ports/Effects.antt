-- ===== src/Ports/Effects.antt =====
-- What one hold of a lock in kernel/src/ports.rs does to the buffers.
use yggdrasil.Ports.{Bytes, Buffers, put, next_number, remove, mark_pinned, find}
use yggdrasil.Ports.Holds.{
  Shared, mark, Hold, create_number, create_insert, take_check, take_remove, write, pin_find,
  pin_mark, InTable, IsValid,
}
use yggdrasil.Ports.Kept.{put-ne, SameShape, buf_write-SameShape}
use yggdrasil.Prelude.{
  ℕ, ◌≤◌, ◌<◌, ◌≡◌, refl, sym, ap, ◌∙◌, ◌⊎◌, inl, inr, Bool, true, false, none, some, arith, ◌==◌,
  ==_iff, if◌then◌else◌, Bool-cases, Option-cases, length,
}

-- A buffer is still there with its length, or a take that got past the check has removed it.
abbrev pub Stays : Shared → Shared → Type 0
Stays s s' =
    (id : ℕ) (old : Bytes)
    → s.buffers.table id ≡ some old
    → ((new : Bytes) × (s'.buffers.table id ≡ some new) × (length new ≡ length old))
      ⊎ (s.passed id ≡ true)

-- what one hold does
pub record Effect (s s' : Shared) : Type 0 where
  pub stays : Stays s s'
  pub passed_on : (id : ℕ) → s.passed id ≡ true → s'.passed id ≡ true
  pub passed_new :
      (id : ℕ) → s'.passed id ≡ true → (s.passed id ≡ true) ⊎ (s.buffers.pinned id ≡ false)
  pub pins_on : (id : ℕ) → s.buffers.pinned id ≡ true → s'.buffers.pinned id ≡ true
  pub pins_new :
      (id : ℕ) → s'.buffers.pinned id ≡ true → (s.buffers.pinned id ≡ true) ⊎ (s.looked id ≡ true)
  pub looked_new : (id : ℕ) → s'.looked id ≡ true → (s.looked id ≡ true) ⊎ InTable s'.buffers id
  pub numbered :
      (id : ℕ) → s'.numbered id ≡ true → (s'.buffers.table id ≡ none) × (id < s'.buffers.next_buf)
  pub fresh : (id : ℕ) → s'.buffers.next_buf ≤ id → s'.buffers.table id ≡ none

mark_new : (id i : ℕ) (v : Bool) (f : ℕ → Bool) → mark id v f i ≡ true → (f i ≡ true) ⊎ (i ≡ id)
mark_new id i v f e = elim (Bool-cases (i == id)) [
  | inl q ↦ inr ((==_iff i id).0 q)
  | inr q ↦ inl (sym (ap (λ t. if t then v else f i) q) ∙ e)
]

mark_on : (id i : ℕ) (f : ℕ → Bool) → f i ≡ true → mark id true f i ≡ true
mark_on id i f e = ground (arith, e)

mark_off : (id i : ℕ) (f : ℕ → Bool) → mark id false f i ≡ true → (f i ≡ true) × (i ≡ id → ⊥)
mark_off id i f e = elim (Bool-cases (i == id)) [
  | inl q ↦ cc (sym (ap (λ t. if t then false else f i) q) ∙ e)
  | inr q ↦ (sym (ap (λ t. if t then false else f i) q) ∙ e, λ s. cc (sym q ∙ (==_iff i id).1 s))
]

-- a hold that changes none of the buffers
still : (s : Shared) → Stays s s
still s id old e = inl (old, e, refl)

find-InTable :
    (phys_of : ℕ → Buffers → ℕ) (id : ℕ) (at : ℕ × ℕ) (b : Buffers)
    → find phys_of id b ≡ some at
    → InTable b id
unfolding find
find-InTable phys_of id at b e = elim (Option-cases (b.table id)) [
  | inr h ↦ h
  | inl vacant ↦
      (let nothing : find phys_of id b ≡ none = rw (vacant, find) refl in cc (sym nothing ∙ e))
]

module _ (s : Shared) (v : IsValid s) where
  create_number-Effect : Effect s (record s {
    buffers = (next_number s.buffers).1;
    numbered = mark (next_number s.buffers).0 true s.numbered;
  })
  create_number-Effect =
      let small = v.small in
      record {
        stays = still s;
        passed_on = λ id p. p;
        passed_new = λ id p. inl p;
        pins_on = λ id p. p;
        pins_new = λ id p. inl p;
        looked_new = λ id p. inl p;
        numbered = λ id p. elim (mark_new s.buffers.next_buf id true s.numbered p) [
          | inl old ↦ let (vacant, lt) = v.numbered id old in (vacant, omega arith)
          | inr same ↦ (v.fresh id (omega arith), omega arith)
        ];
        fresh = λ id le. v.fresh id (omega arith);
      }

  create_insert-Effect :
      (id : ℕ) (bytes : Bytes)
      → s.numbered id ≡ true
      → Effect s (record s {
        buffers = put id (some bytes) s.buffers;
        numbered = mark id false s.numbered;
      })
  create_insert-Effect id bytes own =
      let (vacant, lt) = v.numbered id own in
      record {
        stays = λ i old e. inl (
          old,
          put-ne id i (some bytes) s.buffers (λ q. cc (sym vacant ∙ ap s.buffers.table (sym q) ∙ e))
              ∙ e,
          refl,
        );
        passed_on = λ i p. p;
        passed_new = λ i p. inl p;
        pins_on = λ i p. p;
        pins_new = λ i p. inl p;
        looked_new = λ i p. inl p;
        numbered = λ i p.
            let (old, ne) = mark_off id i s.numbered p in
            let (vacant', lt') = v.numbered i old in
            (put-ne id i (some bytes) s.buffers ne ∙ vacant', lt');
        fresh = λ i le. put-ne id i (some bytes) s.buffers (λ q. omega arith) ∙ v.fresh i le;
      }

  take_check-Effect :
      (id : ℕ)
      → s.buffers.pinned id ≡ false
      → Effect s (record s { passed = mark id true s.passed })
  take_check-Effect id free = record {
    stays = still s;
    passed_on = λ i p. mark_on id i s.passed p;
    passed_new = λ i p. elim (mark_new id i true s.passed p) [
      | inl old ↦ inl old
      | inr same ↦ inr (ap s.buffers.pinned same ∙ free)
    ];
    pins_on = λ i p. p;
    pins_new = λ i p. inl p;
    looked_new = λ i p. inl p;
    numbered = v.numbered;
    fresh = v.fresh;
  }

  gone : (id i : ℕ) → s.buffers.table i ≡ none → (put id none s.buffers).table i ≡ none
  gone id i e = ground (arith, e)

  take_remove-Effect :
      (id : ℕ) → s.passed id ≡ true → Effect s (record s { buffers = (remove id s.buffers).1 })
  take_remove-Effect id took = record {
    stays = λ i old e. elim (Bool-cases (i == id)) [
      | inl q ↦ inr (ap s.passed ((==_iff i id).0 q) ∙ took)
      | inr q ↦
          inl (old, put-ne id i none s.buffers (λ h. cc (sym q ∙ (==_iff i id).1 h)) ∙ e, refl)
    ];
    passed_on = λ i p. p;
    passed_new = λ i p. inl p;
    pins_on = λ i p. p;
    pins_new = λ i p. inl p;
    looked_new = λ i p. inl p;
    numbered = λ i p. let (vacant, lt) = v.numbered i p in (gone id i vacant, lt);
    fresh = λ i le. gone id i (v.fresh i le);
  }

  write-Effect : (b : Buffers) → SameShape s.buffers b → Effect s (record s { buffers = b })
  write-Effect b h = record {
    stays = λ i old e. inl (h.sized i old e);
    passed_on = λ i p. p;
    passed_new = λ i p. inl p;
    pins_on = λ i p. h.pins i ∙ p;
    pins_new = λ i p. inl (sym (h.pins i) ∙ p);
    looked_new = λ i p. inl p;
    numbered = λ i p. let (vacant, lt) = v.numbered i p in (h.absent i vacant, rw h.next lt);
    fresh = λ i le. h.absent i (v.fresh i (rw (← h.next) le));
  }

  pin_find-Effect :
      (id : ℕ) → InTable s.buffers id → Effect s (record s { looked = mark id true s.looked })
  pin_find-Effect id (bytes, at) = record {
    stays = still s;
    passed_on = λ i p. p;
    passed_new = λ i p. inl p;
    pins_on = λ i p. p;
    pins_new = λ i p. inl p;
    looked_new = λ i p. elim (mark_new id i true s.looked p) [
      | inl old ↦ inl old
      | inr same ↦ inr (bytes, ap s.buffers.table same ∙ at)
    ];
    numbered = v.numbered;
    fresh = v.fresh;
  }

  pin_mark-Effect :
      (id : ℕ) → s.looked id ≡ true → Effect s (record s { buffers = mark_pinned id s.buffers })
  pin_mark-Effect id seen = record {
    stays = still s;
    passed_on = λ i p. p;
    passed_new = λ i p. inl p;
    pins_on = λ i p. mark_on id i s.buffers.pinned p;
    pins_new = λ i p. elim (mark_new id i true s.buffers.pinned p) [
      | inl old ↦ inl old
      | inr same ↦ inr (ap s.looked same ∙ seen)
    ];
    looked_new = λ i p. inl p;
    numbered = v.numbered;
    fresh = v.fresh;
  }

pub Hold-Effect :
    (phys_of : ℕ → Buffers → ℕ) (s s' : Shared) → IsValid s → Hold phys_of s s' → Effect s s'
Hold-Effect phys_of s s' v (create_number e) = rw e (create_number-Effect s v)
Hold-Effect phys_of s s' v (create_insert id bytes own e) =
    rw e (create_insert-Effect s v id bytes own)
Hold-Effect phys_of s s' v (take_check id free e) = rw e (take_check-Effect s v id free)
Hold-Effect phys_of s s' v (take_remove id took e) = rw e (take_remove-Effect s v id took)
Hold-Effect phys_of s s' v (write id offset bytes e) =
    rw e (write-Effect s v _ (buf_write-SameShape id offset bytes s.buffers))
Hold-Effect phys_of s s' v (pin_find id at found e) =
    rw e (pin_find-Effect s v id (find-InTable phys_of id at s.buffers found))
Hold-Effect phys_of s s' v (pin_mark id seen e) = rw e (pin_mark-Effect s v id seen)
