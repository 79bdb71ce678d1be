-- ===== src/Term/Copies.antt =====
-- About `copy_term` (crates/ygg-term/src/lib.rs).
use mathlib.Core.Path.{subst}
use mathlib.Core.List.{reverse, reverse_aux}
use yggdrasil.Term.{Term, kind, box_kind, tuple_arity, map_arity, head, tail, bin_bytes}
use yggdrasil.Term.Tags.{Kind, kind_tuple, kind_map, kind_binary, kind_cons}
use yggdrasil.Term.Store.{Memory, read_word, read_words, write_bytes}
use yggdrasil.Term.Heap.{
  HeapFull, Heap, Alloc, alloc, store, store_all, header, binary, cons, words_for,
}
use yggdrasil.Term.Copy.{is_cons, spine, copy_words, copy_cells, copy_kind, copy_term}
use yggdrasil.Term.Readback.{
  read_word-write_word_ne, read_word-write_words_ne, read_bytes-write_bytes_ne,
}
use yggdrasil.Term.Shapes
use yggdrasil.Term.Shapes.{is_immediate, Away, HasKind, Parts, Cells, Shape, Data}
use yggdrasil.Prelude.{
  ℕ, zero, suc, ◌+◌, ◌*◌, ◌/◌, ◌≤◌, ◌<◌, ◌≡◌, refl, sym, ap, ◌∙◌, inl, inr, true, false, List, [],
  ◌∷◌, arith, ltb, Bool-cases, length, from_le_bytes, Outcome, ok, err, panic, timeout, ◌>>=◌,
}

module _ (m : Memory) (Mine : ℕ → Type 0) (lo hi : ℕ)
    (apart : (q : ℕ) → Mine q → Away lo hi q) where
  -- The heap is the one from `lo` to `hi`, and the words of the terms are as in `m`.
  pub record Keeps (h : Heap) : Type 0 where
    pub base : h.base ≡ lo
    pub size : lo + 8 * h.cap_words ≡ hi
    pub agree : (q : ℕ) → Mine q → read_word h.mem q ≡ read_word m q

  -- A result with a heap that is kept, or no room; neither a panic nor a lack of fuel.
  abbrev pub Fine : {A : Type 0} → (A → Heap) → Outcome HeapFull A → Type 0
  Fine get (ok a) = Keeps (get a)
  Fine get (err e) = Unit
  Fine get panic = ⊥
  Fine get timeout = ⊥

  abbrev heap_of : {A : Type 0} → A × Heap → Heap
  heap_of p = p.1

  bind-Fine :
      {A B : Type 0} (get : A → Heap) (got : B → Heap) (o : Outcome HeapFull A)
      (f : A → Outcome HeapFull B)
      → Fine get o
      → ((a : A) → Keeps (get a) → Fine got (f a))
      → Fine got (o >>= f)
  bind-Fine get got (ok a) f h k = k a h
  bind-Fine get got (err e) f h k = tt
  bind-Fine get got panic f h k = h
  bind-Fine get got timeout f h k = h

  alloc-Fine :
      {B : Type 0} (got : B → Heap) (n : ℕ) (h : Heap) (f : ℕ × Heap → Outcome HeapFull B)
      → Keeps h
      → ((p : ℕ) (h' : Heap) → Keeps h' → lo ≤ p → p + 8 * n ≤ hi → Fine got (f (p, h')))
      → Fine got (alloc n h >>= f)
  unfolding alloc
  alloc-Fine got n h f k next = elim (Bool-cases (ltb h.cap_words (h.top + n))) [
    | inl e ↦ rw (e, alloc) tt
    | inr e ↦
        let room : h.top + n ≤ h.cap_words = ground arith in
        let base = k.base in
        let size = k.size in
        rw (e, alloc)
          (next (h.base + 8 * h.top) (record h { top = h.top + n })
            (record { base = k.base; size = k.size; agree = k.agree }) (omega arith) (omega arith))
  ]

  store-Keeps : (p w : ℕ) (h : Heap) → Keeps h → lo ≤ p → p + 8 ≤ hi → Keeps (store p w h)
  store-Keeps p w h k low high = record {
    base = k.base;
    size = k.size;
    agree = λ q away.
        read_word-write_word_ne h.mem p w q (let o = apart q away in omega (arith, o))
        ∙ k.agree q away;
  }

  store_all-Keeps :
      (p : ℕ) (ws : List ℕ) (h : Heap)
      → Keeps h
      → lo ≤ p
      → p + 8 * length ws ≤ hi
      → Keeps (store_all p ws h)
  store_all-Keeps p ws h k low high = record {
    base = k.base;
    size = k.size;
    agree = λ q away.
        read_word-write_words_ne h.mem p ws q (let o = apart q away in omega (arith, o))
        ∙ k.agree q away;
  }

  bytes-Keeps :
      (p : ℕ) (bs : List ℕ) (h : Heap)
      → Keeps h
      → lo ≤ p
      → p + length bs ≤ hi
      → Keeps (record h { mem = write_bytes h.mem p bs })
  unfolding read_word
  bytes-Keeps p bs h k low high = record {
    base = k.base;
    size = k.size;
    agree = λ q away.
        ap from_le_bytes
          (read_bytes-write_bytes_ne h.mem p bs q 8 (let o = apart q away in omega (arith, o)))
        ∙ k.agree q away;
  }

  kind-now :
      (t : Term) (k : Kind) (h : Heap)
      → HasKind m Mine t k
      → Keeps h
      → kind {E = HeapFull} h.mem t ≡ ok k
  unfolding kind box_kind
  kind-now t k h (inl e) kept = e h.mem
  kind-now t k h (inr (e, away, same)) kept = rw (e, kind, kept.agree t away) same

  cons-Fine : (hd tl : Term) (h : Heap) → Keeps h → Fine heap_of (cons hd tl h)
  unfolding cons
  cons-Fine hd tl h k =
      alloc-Fine heap_of 3 h _ k
        (λ p h' k' low high. store_all-Keeps p (kind_cons ∷ hd ∷ tl ∷ []) h' k' low (omega arith))

  binary-Fine : (bs : List ℕ) (h : Heap) → Keeps h → Fine heap_of (binary bs h)
  unfolding binary
  binary-Fine bs h k = alloc-Fine heap_of (1 + words_for (length bs)) h _ k (λ p h' k' low high.
      bytes-Keeps (p + 8) bs (store p (header (length bs) kind_binary) h')
        (store-Keeps p (header (length bs) kind_binary) h' k' low (omega arith)) (omega arith)
        (omega arith))

  module _ (copy : Term → Alloc Term) (Part : Term → Type 0)
      (copies : (t : Term) (h : Heap) → Part t → Keeps h → Fine heap_of (copy t h)) where
    -- a part of an object, which the heap's memory still has
    part-Fine :
        (q : ℕ) (h : Heap)
        → Mine q
        → Part (read_word m q)
        → Keeps h
        → Fine heap_of (copy (read_word h.mem q) h)
    part-Fine q h away part k =
        subst (λ w. Fine heap_of (copy w h)) (sym (k.agree q away))
          (copies (read_word m q) h part k)

    copy_words-Fine :
        (from to n : ℕ) (h : Heap)
        → Parts m Mine Part from n
        → lo ≤ to
        → to + 8 * n ≤ hi
        → Keeps h
        → Fine (λ h. h) (copy_words copy from to n h)
    unfolding copy_words
    copy_words-Fine from to zero h ps low high k = k
    copy_words-Fine from to (suc n) h (away, part, ps) low high k =
        bind-Fine heap_of (λ h. h) (copy (read_word h.mem from) h) _ (part-Fine from h away part k)
          (λ p k'.
            copy_words-Fine (from + 8) (to + 8) n (store to p.0 p.1) ps (omega arith) (omega arith)
              (store-Keeps to p.0 p.1 k' low (omega arith)))

    abbrev AllCells : List Term → Type 0
    AllCells [] = Unit
    AllCells (c ∷ cs) = (Mine (c + 8) × Part (read_word m (c + 8))) × AllCells cs

    AllCells-reverse_aux :
        (cs ds : List Term) → AllCells cs → AllCells ds → AllCells (reverse_aux cs ds)
    AllCells-reverse_aux [] ds a b = b
    AllCells-reverse_aux (c ∷ cs) ds a b = AllCells-reverse_aux cs (c ∷ ds) a.1 (a.0, b)

    copy_cells-Fine :
        (cs : List Term) (t : Term) (h : Heap)
        → AllCells cs
        → Keeps h
        → Fine heap_of (copy_cells copy cs t h)
    unfolding copy_cells head
    copy_cells-Fine [] t h a k = k
    copy_cells-Fine (c ∷ cs) t h ((away, part), a) k =
        bind-Fine heap_of heap_of (copy (read_word h.mem (c + 8)) h) _
          (part-Fine (c + 8) h away part k)
          (λ p k'.
            bind-Fine heap_of heap_of (cons p.0 t p.1) _ (cons-Fine p.0 t p.1 k')
              (λ r k''. copy_cells-Fine cs r.0 r.1 a k''))

    spine-stop :
        (fuel : ℕ) (n : Memory) (t : Term) (k : Kind)
        → kind {E = HeapFull} n t ≡ ok k
        → is_cons k ≡ false
        → spine {E = HeapFull} (suc fuel) n t ≡ ok ([], t)
    unfolding spine
    spine-stop fuel n t Kind.cons e other = cc
    spine-stop fuel n t _ e other = rw (e, spine) refl

    -- The spine of a list of `n` cells, on more fuel than cells.
    spine_lem :
        (fuel n : ℕ) (t : Term) (h : Heap)
        → n < fuel
        → Cells m Mine Part n t
        → Keeps h
        → (cs : List Term) × (end : Term) × (spine {E = HeapFull} fuel h.mem t ≡ ok (cs, end))
          × AllCells cs
          × Part end
    unfolding spine tail
    spine_lem zero n t h lt cells k = absurd (omega arith)
    spine_lem (suc fuel) zero t h lt (kd, has, other, part) k =
        ([], t, spine-stop fuel h.mem t kd (kind-now t kd h has k) other, tt, part)
    spine_lem (suc fuel) (suc n) t h lt (has, first, away, rest) k =
        let next : read_word h.mem (t + 16) ≡ read_word m (t + 16) = k.agree (t + 16) away in
        let (cs, end, e, a, part) =
          spine_lem fuel n (read_word m (t + 16)) h (omega arith) rest k in
        (t ∷ cs, end, rw (kind-now t Kind.cons h has k, spine, next, e) refl, (first, a), part)

    simple-Fine :
        (d : ℕ) (t : Term) (h : Heap) (k : Kind)
        → is_immediate k ≡ true
        → Keeps h
        → Fine heap_of (copy_kind copy d t k h)
    unfolding copy_kind
    simple-Fine d t h Kind.tuple simple kept = cc
    simple-Fine d t h Kind.cons simple kept = cc
    simple-Fine d t h Kind.binary simple kept = cc
    simple-Fine d t h Kind.map simple kept = cc
    simple-Fine d t h _ simple kept = kept

    tuple-Fine :
        (d n : ℕ) (t : Term) (h : Heap)
        → tuple_arity h.mem t ≡ n
        → Parts m Mine Part (t + 8) n
        → Keeps h
        → Fine heap_of (copy_kind copy d t Kind.tuple h)
    unfolding copy_kind
    tuple-Fine d n t h e ps kept =
        rw (e, copy_kind)
          (alloc-Fine heap_of (1 + n) h _ kept (λ p h₁ k₁ low high.
            bind-Fine (λ h. h) heap_of
              (copy_words copy (t + 8) (p + 8) n (store p (header n kind_tuple) h₁)) _
              (copy_words-Fine (t + 8) (p + 8) n (store p (header n kind_tuple) h₁) ps (omega arith)
                (omega arith) (store-Keeps p (header n kind_tuple) h₁ k₁ low (omega arith)))
              (λ h₂ k₂. k₂)))

    length-read_words : (n : Memory) (p k : ℕ) → length (read_words n p k) ≡ k
    unfolding read_words
    length-read_words n p zero = refl
    length-read_words n p (suc k) = omega (arith, length-read_words n (p + 8) k)

    map-Fine :
        (d n : ℕ) (t : Term) (h : Heap)
        → map_arity h.mem t ≡ n
        → Parts m Mine Part (t + 8 * (1 + n)) n
        → Keeps h
        → Fine heap_of (copy_kind copy d t Kind.map h)
    unfolding copy_kind
    map-Fine d n t h e ps kept =
        rw (e, copy_kind)
          (alloc-Fine heap_of (1 + 2 * n) h _ kept (λ p h₁ k₁ low high.
            let ws : List ℕ = header n kind_map ∷ read_words h₁.mem (t + 8) n in
            let short = length-read_words h₁.mem (t + 8) n in
            bind-Fine (λ h. h) heap_of
              (copy_words copy (t + 8 * (1 + n)) (p + 8 * (1 + n)) n (store_all p ws h₁)) _
              (copy_words-Fine (t + 8 * (1 + n)) (p + 8 * (1 + n)) n (store_all p ws h₁) ps
                (omega arith) (omega arith) (store_all-Keeps p ws h₁ k₁ low (omega arith)))
              (λ h₂ k₂. k₂)))

    list-Fine :
        (d n : ℕ) (t : Term) (h : Heap)
        → n < d
        → Cells m Mine Part n t
        → Keeps h
        → Fine heap_of (copy_kind copy d t Kind.cons h)
    unfolding copy_kind
    list-Fine d n t h lt cells kept =
        let (cs, end, e, a, part) = spine_lem d n t h lt cells kept in
        rw (e, copy_kind)
          (bind-Fine heap_of heap_of (copy end h) _ (copies end h part kept)
            (λ p k'. copy_cells-Fine (reverse cs) p.0 p.1 (AllCells-reverse_aux cs [] a tt) k'))

    shape-Fine :
        (d : ℕ) (t : Term) (h : Heap) (k : Kind)
        → HasKind m Mine t k
        → Keeps h
        → Fine heap_of (copy_kind copy d t k h)
        → Fine heap_of (kind h.mem t >>= λ k. copy_kind copy d t k h)
    shape-Fine d t h k has kept fine =
        subst (λ o. Fine heap_of (o >>= λ k. copy_kind copy d t k h))
          (sym (kind-now t k h has kept)) fine

    arity-now :
        (t : Term) (h : Heap)
        → Mine t
        → Keeps h
        → (tuple_arity h.mem t ≡ tuple_arity m t) × (map_arity h.mem t ≡ map_arity m t)
    unfolding tuple_arity map_arity
    arity-now t h away k = let e = ap (λ w. w / 8) (k.agree t away) in (e, e)

    whole-Fine :
        (d : ℕ) (t : Term) (h : Heap)
        → Shape m Mine Part d t
        → Keeps h
        → Fine heap_of (kind h.mem t >>= λ k. copy_kind copy d t k h)
    unfolding copy_kind
    whole-Fine d t h (Shapes.immediate k has simple) kept =
        shape-Fine d t h k has kept (simple-Fine d t h k simple kept)
    whole-Fine d t h (Shapes.tuple has away ps) kept =
        shape-Fine d t h Kind.tuple has kept
          (tuple-Fine d (tuple_arity m t) t h (arity-now t h away kept).0 ps kept)
    whole-Fine d t h (Shapes.binary has) kept =
        shape-Fine d t h Kind.binary has kept (binary-Fine (bin_bytes h.mem t) h kept)
    whole-Fine d t h (Shapes.map has away ps) kept =
        shape-Fine d t h Kind.map has kept
          (map-Fine d (map_arity m t) t h (arity-now t h away kept).1 ps kept)
    whole-Fine d t h (Shapes.cons n has lt cells) kept =
        shape-Fine d t h Kind.cons has kept (list-Fine d n t h lt cells kept)

  -- On enough fuel, the copy of a term that lies outside the heap ends.
  pub copy_term-Fine :
      (d : ℕ) (t : Term) (h : Heap)
      → Data m Mine d t
      → Keeps h
      → Fine (λ (p : Term × Heap). p.1) (copy_term d t h)
  unfolding copy_term
  copy_term-Fine zero t h s kept = absurd s
  copy_term-Fine (suc d) t h s kept =
      whole-Fine (copy_term d) (Data m Mine d) (copy_term-Fine d) d t h s kept
