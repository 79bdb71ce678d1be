-- ===== src/Ring/Refine.antt =====
-- About the ring (crates/ygg-rings/src/lib.rs) as a FIFO queue.
use mathlib.Core.Path.{subst}
use native.Mathlib.Decide.{ℕ_discrete}
use native.Mathlib.Nat.{mod-lt, mod-add-mod, add-zero}
use yggdrasil.Ring.{Ring, Full, full, wrapping_add, wrapping_sub, new, push, pop}
use yggdrasil.Ring.Index.{IsCap, IsCap-pos, IsCap-lt, wrap-index, index_ne}
use yggdrasil.Prelude.{
  ℕ, zero, suc, ◌+◌, ◌-◌, ◌%◌, ◌^◌, ◌≤◌, ◌<◌, ◌≡◌, refl, sym, ap, ◌∙◌, ◌≢◌, ◌⊎◌, inl, inr, none,
  some, List, [], ◌∷◌, ◌++◌, arith, ==_iff, length, set, get_or, length-set, length-replicate, ok,
  err, index, index-eq-get_or, index_set-eq, get_or-set_self, get_or-set_ne,
}

cons_head {ℓ} : {A : Type ℓ} {x y : A} {xs ys : List A} → x ∷ xs ≡ y ∷ ys → x ≡ y
cons_head e = cc

cons_tail {ℓ} : {A : Type ℓ} {x y : A} {xs ys : List A} → x ∷ xs ≡ y ∷ ys → xs ≡ ys
cons_tail e = cc

List-cases {ℓ} : {A : Type ℓ} (xs : List A) → (xs ≡ []) ⊎ ((x : A) × (ys : List A) × (xs ≡ x ∷ ys))
List-cases [] = inl refl
List-cases (x ∷ xs) = inr (x, xs, refl)

module _ {ℓ} {T : Type ℓ} (N : ℕ) (d : T) where
  -- the `n` entries from the cursor `h` on
  abbrev pub window : List T → ℕ → ℕ → List T
  window xs h zero = []
  window xs h (suc n) = get_or xs (h % N) d ∷ window xs (h + 1) n

  -- what the ring holds, oldest first
  abbrev pub contents : Ring T → List T
  contents r = window r.entries r.head (wrapping_sub r.tail r.head)

  pub length-window : (xs : List T) (h n : ℕ) → length (window xs h n) ≡ n
  length-window xs h zero = refl
  length-window xs h (suc n) = ap suc (length-window xs (h + 1) n)

  pub length-contents : (r : Ring T) → length (contents r) ≡ wrapping_sub r.tail r.head
  length-contents r = length-window r.entries r.head (wrapping_sub r.tail r.head)

  window_congr : (xs : List T) (a b n : ℕ) → a % N ≡ b % N → window xs a n ≡ window xs b n
  window_congr xs a b zero e = refl
  window_congr xs a b (suc n) e = rw (
    e,
    window_congr xs (a + 1) (b + 1) n
        (sym (mod-add-mod a N 1) ∙ ap (λ t. (t + 1) % N) e ∙ mod-add-mod b N 1),
  )

  -- A write just past the window extends it.
  pub window-set_end :
      (xs : List T) (h n : ℕ) (v : T)
      → N ≤ length xs
      → 0 < N
      → n < N
      → window (set xs ((h + n) % N) v) h (suc n) ≡ window xs h n ++ (v ∷ [])
  window-set_end xs h zero v s p lt =
      rw (add-zero, get_or-set_self xs (h % N) v d (omega (arith, mod-lt h p)))
  window-set_end xs h (suc n) v s p lt =
      rw (get_or-set_ne xs ((h + suc n) % N) (h % N) v d (index_ne p h (suc n) (omega arith) lt)) (
        ap (λ w. get_or xs (h % N) d ∷ w)
          (subst (λ k. window (set xs (k % N) v) (h + 1) (suc n) ≡ window xs (h + 1) n ++ (v ∷ []))
            (let e : h + 1 + n ≡ h + suc n = omega arith in e)
            (window-set_end xs (h + 1) n v s p (omega arith))))

  -- The representation invariant: N entries, cursors in range, at most N entries in use.
  pub record IsValid (r : Ring T) : Type 0 where
    pub size : length r.entries ≡ N
    pub head_in : r.head < 2 ^ 32
    pub tail_in : r.tail < 2 ^ 32
    pub used : wrapping_sub r.tail r.head ≤ N

  -- The index of the producer is that of the cursor `head + len`, which does not wrap.
  tail-index :
      (r : Ring T) → IsCap N → IsValid r → (r.head + wrapping_sub r.tail r.head) % N ≡ r.tail % N
  tail-index r c v =
      sym (wrap-index c (r.head + wrapping_sub r.tail r.head)) ∙ ap (λ t. t % N) (omega arith)

  new-IsValid : IsValid (new N d) × (contents (new N d) ≡ [])
  unfolding new
  new-IsValid = (
    record {
      size = length-replicate N d;
      head_in = omega arith;
      tail_in = omega arith;
      used = omega arith;
    },
    refl,
  )

  after_push :
      (r : Ring T)
      → IsCap N
      → IsValid r
      → wrapping_sub r.tail r.head < N
      → wrapping_sub (wrapping_add r.tail 1) r.head ≡ suc (wrapping_sub r.tail r.head)
  after_push r c i lt = omega (arith, IsCap-lt c, i)

  after_pop :
      (r : Ring T) (n : ℕ)
      → IsValid r
      → wrapping_sub r.tail r.head ≡ suc n
      → wrapping_sub r.tail (wrapping_add r.head 1) ≡ n
  after_pop r n i e = omega (arith, i)

  contents-push :
      (r : Ring T) (v : T)
      → IsCap N
      → IsValid r
      → wrapping_sub r.tail r.head < N
      → contents (record r { entries = set r.entries (r.tail % N) v; tail = wrapping_add r.tail 1 })
        ≡ contents r ++ (v ∷ [])
  contents-push r v c i lt =
      ap (λ k. window (set r.entries (r.tail % N) v) r.head k) (after_push r c i lt)
      ∙ subst
          (λ k.
            window (set r.entries k v) r.head (suc (wrapping_sub r.tail r.head))
            ≡ contents r ++ (v ∷ []))
          (tail-index r c i)
          (window-set_end r.entries r.head (wrapping_sub r.tail r.head) v (omega (arith, i.size))
            (IsCap-pos c) lt)

  push_cases :
      (r : Ring T) (v : T)
      → IsCap N
      → IsValid r
      → (length (contents r) ≡ N → push N r v ≡ err full)
        × (length (contents r) ≢ N
            → (r' : Ring T) × (push N r v ≡ ok r')
              × (contents r' ≡ contents r ++ (v ∷ []))
              × IsValid r')
  unfolding push
  push_cases r v c i = (
    (λ e. rw ((==_iff (wrapping_sub r.tail r.head) N).1 (sym (length-contents r) ∙ e))),
    (λ ne.
        let lt : wrapping_sub r.tail r.head < N =
          omega
            (arith, i.used, λ (e : wrapping_sub r.tail r.head ≡ N). ne (length-contents r ∙ e)) in
        (
          record r { entries = set r.entries (r.tail % N) v; tail = wrapping_add r.tail 1 },
          rw
              (index_set-eq {E = Full} r.entries (r.tail % N) v
                (omega (arith, i.size, mod-lt r.tail (IsCap-pos c))))
              (ground arith),
          contents-push r v c i lt,
          record {
            size = length-set r.entries (r.tail % N) v ∙ i.size;
            head_in = i.head_in;
            tail_in = omega arith;
            used = omega (arith, after_push r c i lt);
          },
        )),
  )

  popped :
      (r : Ring T) (v : T)
      → index {E = Full} r.entries (r.head % N) ≡ ok v
      → r.head ≢ r.tail
      → pop N r ≡ ok (some v, record r { head = wrapping_add r.head 1 })
  unfolding pop
  popped r v e ne = rw e (ground arith)

  pop_cases :
      (r : Ring T)
      → IsCap N
      → IsValid r
      → (contents r ≡ [] → pop N r ≡ ok (none, r))
        × ((v : T) (rest : List T)
            → contents r ≡ v ∷ rest
            → (r' : Ring T) × (pop N r ≡ ok (some v, r')) × (contents r' ≡ rest) × IsValid r')
  unfolding pop
  pop_cases r c i = (
    (λ e.
        let empty : r.head ≡ r.tail = omega (arith, i, sym (length-contents r) ∙ ap length e) in
        rw ((==_iff r.head r.tail).1 empty)),
    (λ v rest e.
        let k : ℕ = wrapping_sub r.tail r.head - 1 in
        let held : wrapping_sub r.tail r.head ≡ suc k =
          omega (arith, sym (length-contents r) ∙ ap length e) in
        let w : get_or r.entries (r.head % N) d ∷ window r.entries (r.head + 1) k ≡ v ∷ rest =
          ap (λ n. window r.entries r.head n) (sym held) ∙ e in
        let r' : Ring T = record r { head = wrapping_add r.head 1 } in
        (
          r',
          popped r v
              (index-eq-get_or r.entries (r.head % N) d
                  (omega (arith, i.size, mod-lt r.head (IsCap-pos c)))
                ∙ ap ok (cons_head w))
              (omega (arith, i)),
          ap (λ n. window r.entries (wrapping_add r.head 1) n) (after_pop r k i held)
              ∙ window_congr r.entries (wrapping_add r.head 1) (r.head + 1) k
                  (wrap-index c (r.head + 1))
              ∙ cons_tail w,
          record {
            size = i.size;
            head_in = omega arith;
            tail_in = i.tail_in;
            used = omega (arith, i.used, after_pop r k i held);
          },
        )),
  )

  -- `push` on a valid ring, whose size N is a power of two below 2^32, refuses the value if N
  -- entries are held, and otherwise appends the value to what is held and keeps the invariant. It
  -- does not panic.
  pub push_refines :
      (r : Ring T) (v : T)
      → IsCap N
      → IsValid r
      → ((length (contents r) ≡ N) × (push N r v ≡ err full))
        ⊎ ((length (contents r) < N)
            × (r' : Ring T) × (push N r v ≡ ok r')
            × (contents r' ≡ contents r ++ (v ∷ []))
            × IsValid r')
  push_refines r v c i = elim (ℕ_discrete (length (contents r)) N) [
    | yes e ↦ inl (e, (push_cases r v c i).0 e)
    | no ne ↦
        (let (r', e, held, i') = (push_cases r v c i).1 ne in
          inr (omega (arith, length-contents r, i.used), r', e, held, i'))
  ]

  -- `pop`, on a valid ring, whose size N is a power of two below 2^32, returns the oldest entry
  -- held and removes it, or nothing from an empty ring, which it leaves as it is; it keeps the
  -- invariant and does not panic.
  pub pop_refines :
      (r : Ring T)
      → IsCap N
      → IsValid r
      → ((contents r ≡ []) × (pop N r ≡ ok (none, r)))
        ⊎ ((v : T) × (rest : List T) × (contents r ≡ v ∷ rest)
            × (r' : Ring T) × (pop N r ≡ ok (some v, r'))
            × (contents r' ≡ rest)
            × IsValid r')
  pop_refines r c i = elim (List-cases (contents r)) [
    | inl e ↦ inl (e, (pop_cases r c i).0 e)
    | inr (v, rest, e) ↦
        (let (r', p, held, i') = (pop_cases r c i).1 v rest e in inr (v, rest, e, r', p, held, i'))
  ]
