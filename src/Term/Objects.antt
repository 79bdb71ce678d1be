-- ===== src/Term/Objects.antt =====
-- About `Heap::cons` and `Heap::tuple` (crates/ygg-term/src/lib.rs).
use yggdrasil.Term.{Term, is_boxed, tag, kind, box_kind, tuple_arity, tuple_elem, head, tail}
use yggdrasil.Term.Tags.{Kind}
use yggdrasil.Term.Store.{Memory, read_word, write_words}
use yggdrasil.Term.Heap.{heap_full, Heap, alloc, cons, tuple, header}
use yggdrasil.Term.Readback.{AllWords, read_word-write_words, read_word-write_words_ne}
use yggdrasil.Prelude.{
  ℕ, suc, ◌+◌, ◌*◌, ◌/◌, ◌%◌, ◌^◌, ◌≤◌, ◌<◌, ◌≡◌, refl, ap, ◌∙◌, ◌⊎◌, inl, inr, true, List, [], ◌∷◌,
  arith, ltb, ltb→lt, Bool-cases, length, get_or, ok, err,
}

-- An arena of whole words in a space of 64-bit addresses.
pub record IsValid (h : Heap) : Type 0 where
  pub aligned : h.base % 8 ≡ 0
  pub within : h.top ≤ h.cap_words
  pub addressable : h.base + 8 * h.cap_words < 2 ^ 64

-- `n` words have been allocated, and those allocated before hold what they held.
pub record Extends (h : Heap) (n : ℕ) (h' : Heap) : Type 0 where
  pub same_base : h'.base ≡ h.base
  pub same_cap : h'.cap_words ≡ h.cap_words
  pub more : h'.top ≡ h.top + n
  pub kept : (q : ℕ) → q + 8 ≤ h.base + 8 * h.top → read_word h'.mem q ≡ read_word h.mem q

abbrev pub place : Heap → ℕ
place h = h.base + 8 * h.top

-- the heap after the words `ws` were written at its top
abbrev pub with_object : Heap → List ℕ → Heap
with_object h ws = record h { top = h.top + length ws; mem = write_words h.mem (place h) ws }

with_object-Extends : (h : Heap) (ws : List ℕ) → Extends h (length ws) (with_object h ws)
with_object-Extends h ws = record {
  same_base = refl;
  same_cap = refl;
  more = refl;
  kept = λ q below. read_word-write_words_ne h.mem (place h) ws q (inl below);
}

with_object-IsValid :
    (h : Heap) (ws : List ℕ)
    → IsValid h
    → h.top + length ws ≤ h.cap_words
    → IsValid (with_object h ws)
with_object-IsValid h ws v room = record {
  aligned = v.aligned;
  within = room;
  addressable = v.addressable;
}

object_word :
    (h : Heap) (ws : List ℕ) (i : ℕ)
    → AllWords ws
    → i < length ws
    → read_word (with_object h ws).mem (place h + 8 * i) ≡ get_or ws i 0
object_word h ws i fits lt = read_word-write_words h.mem (place h) ws i fits lt

place-kind :
    {E : Type 0} (h : Heap) (m : Memory)
    → IsValid h
    → kind {E = E} m (place h) ≡ box_kind {E = E} m (read_word m (place h))
unfolding kind
place-kind h m v = ground (arith, v.aligned)

-- The tuple `t` is in the heap, with these elements.
pub record IsTuple (m : Memory) (t : Term) (elems : List Term) : Type 0 where
  pub boxed : is_boxed t ≡ true
  pub kind_of : kind {E = ⊥} m t ≡ ok Kind.tuple
  pub arity : tuple_arity m t ≡ length elems
  pub elem : (i : ℕ) → i < length elems → tuple_elem m t i ≡ get_or elems i 0

pub record IsCell (m : Memory) (t hd tl : Term) : Type 0 where
  pub boxed : is_boxed t ≡ true
  pub kind_of : kind {E = ⊥} m t ≡ ok Kind.cons
  pub first : head m t ≡ hd
  pub rest : tail m t ≡ tl

place-boxed : (h : Heap) → IsValid h → is_boxed (place h) ≡ true
unfolding is_boxed tag
place-boxed h v = ground (arith, v.aligned)

first_word :
    (h : Heap) (w : ℕ) (ws : List ℕ)
    → AllWords (w ∷ ws)
    → read_word (with_object h (w ∷ ws)).mem (place h) ≡ w
first_word h w ws fits =
    ap (read_word (with_object h (w ∷ ws)).mem)
      (let e : place h ≡ place h + 8 * 0 = omega arith in e)
    ∙ object_word h (w ∷ ws) 0 fits (omega arith)

-- On a valid heap, `cons` of two words fails if fewer than three words are left, and otherwise
-- returns a term of which the kind, the head and the tail are read back; the heap stays valid and
-- what was allocated before stays as it was.
pub cons_lem :
    (hd tl : Term) (h : Heap)
    → IsValid h
    → hd < 2 ^ 64
    → tl < 2 ^ 64
    → ((h.cap_words < h.top + 3) × (cons hd tl h ≡ err heap_full))
      ⊎ ((h.top + 3 ≤ h.cap_words)
          × (t : Term) × (h' : Heap) × (cons hd tl h ≡ ok (t, h'))
          × IsCell h'.mem t hd tl
          × IsValid h'
          × Extends h 3 h')
unfolding cons alloc head tail box_kind
cons_lem hd tl h v hf tf = elim (Bool-cases (ltb h.cap_words (h.top + 3))) [
  | inl e ↦ inl (ltb→lt h.cap_words (h.top + 3) e, rw e)
  | inr e ↦
      (let room : h.top + 3 ≤ h.cap_words = ground arith in
        let ws : List ℕ = 1 ∷ hd ∷ tl ∷ [] in
        let fits : AllWords ws = (omega arith, (hf, (tf, tt))) in
        let h' : Heap = with_object h ws in
        inr (
          room,
          place h,
          h',
          rw e,
          record {
            boxed = place-boxed h v;
            kind_of = place-kind h h'.mem v ∙ rw (first_word h 1 (hd ∷ tl ∷ []) fits);
            first = object_word h ws 1 fits (omega arith);
            rest = object_word h ws 2 fits (omega arith);
          },
          with_object-IsValid h ws v room,
          with_object-Extends h ws,
        ))
]

tuple-box_kind : (m : Memory) (n : ℕ) → box_kind {E = ⊥} m (header n 0) ≡ ok Kind.tuple
unfolding box_kind
tuple-box_kind m n = ground arith

-- On a valid heap, `tuple` of words fails if no room is left for them and a header, and otherwise
-- returns a term of which the kind, the arity and the elements are read back; the heap stays valid
-- and what was allocated before stays as it was.
pub tuple_lem :
    (elems : List Term) (h : Heap)
    → IsValid h
    → AllWords elems
    → ((h.cap_words < h.top + suc (length elems)) × (tuple elems h ≡ err heap_full))
      ⊎ ((h.top + suc (length elems) ≤ h.cap_words)
          × (t : Term) × (h' : Heap) × (tuple elems h ≡ ok (t, h'))
          × IsTuple h'.mem t elems
          × IsValid h'
          × Extends h (suc (length elems)) h')
unfolding tuple alloc tuple_elem tuple_arity box_kind
tuple_lem elems h v ef =
    let one : 1 + length elems ≡ suc (length elems) = omega arith in
    elim (Bool-cases (ltb h.cap_words (h.top + suc (length elems)))) [
      | inl e ↦ inl (ltb→lt h.cap_words (h.top + suc (length elems)) e, rw (one, e))
      | inr e ↦
          (let room : h.top + suc (length elems) ≤ h.cap_words = ground arith in
            let w : ℕ = header (length elems) 0 in
            let fits : AllWords (w ∷ elems) = (omega (arith, v.addressable), ef) in
            let h' : Heap = with_object h (w ∷ elems) in
            let top_word = first_word h w elems fits in
            inr (
              room,
              place h,
              h',
              rw (one, e),
              record {
                boxed = place-boxed h v;
                kind_of =
                    place-kind h h'.mem v ∙ rw top_word (tuple-box_kind h'.mem (length elems));
                arity = ap (λ n. n / 8) top_word ∙ omega arith;
                elem = λ i lt.
                    ap (λ q. read_word h'.mem q)
                      (let q : place h + 8 * (1 + i) ≡ place h + 8 * suc i = omega arith in q)
                    ∙ object_word h (w ∷ elems) (suc i) fits (omega arith);
              },
              with_object-IsValid h (w ∷ elems) v room,
              with_object-Extends h (w ∷ elems),
            ))
    ]
