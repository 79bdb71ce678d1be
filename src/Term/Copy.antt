-- ===== src/Term/Copy.antt =====
-- crates/ygg-term/src/lib.rs: `copy_term`, `term_size_words`, `eq` and `evacuate`. Objects can be
-- nested to any depth, so each walk runs on fuel.
use mathlib.Core.List.{reverse}
use yggdrasil.Term.{Term, is_boxed, kind, tuple_arity, head, tail, bin_bytes, map_arity}
use yggdrasil.Term.Tags.{Kind, kind_tuple, kind_cons, kind_binary, kind_map}
use yggdrasil.Term.Store.{Memory, read_word, read_words}
use yggdrasil.Term.Heap.{
  HeapFull, Heap, Alloc, alloc, store, store_all, header, binary, cons, words_for,
}
use yggdrasil.Prelude.{
  ℕ, zero, suc, ◌+◌, ◌-◌, ◌*◌, ◌/◌, ◌%◌, Bool, true, false, not, List, [], ◌∷◌, ltb, ◌==◌,
  if◌then◌else◌, length, Outcome, ok, panic, timeout, ◌>>=◌,
}

abbrev pub is_cons : Kind → Bool
is_cons Kind.cons = true
is_cons _ = false

-- `while cur.kind() == Kind::Cons`: the cells of the spine and what follows the last one
unfoldable pub spine : {E : Type 0} → ℕ → Memory → Term → Outcome E (List Term × Term)
unfolding kind tail
spine zero m cur = timeout
spine (suc fuel) m cur = do
  k ← kind m cur
  elim (is_cons k) [
    | false ↦ ok ([], cur)
    | true ↦ do (cells, end) ← spine fuel m (tail m cur); ok (cur ∷ cells, end)
  ]

module _ (copy : Term → Alloc Term) where
  -- the loop that copies words `from + 8 * i` of an object to `to + 8 * i`
  unfoldable pub copy_words : (from to n : ℕ) → Heap → Outcome HeapFull Heap
  copy_words from to zero h = ok h
  copy_words from to (suc n) h = do
    (c, h') ← copy (read_word h.mem from) h
    copy_words (from + 8) (to + 8) n (store to c h')

  -- the loop over the spine, from the last cell to the first
  unfoldable pub copy_cells : List Term → Term → Alloc Term
  unfolding cons
  copy_cells [] t h = ok (t, h)
  copy_cells (cell ∷ cells) t h = do
    (hd, h') ← copy (head h.mem cell) h
    (t', h'') ← cons hd t h'
    copy_cells cells t' h''

  unfoldable pub copy_kind : ℕ → Term → Kind → Alloc Term
  unfolding copy_words copy_cells spine alloc binary
  copy_kind fuel src Kind.tuple h = do
    let n = tuple_arity h.mem src
    (p, h₁) ← alloc (1 + n) h
    h₂ ← copy_words (src + 8) (p + 8) n (store p (header n kind_tuple) h₁)
    ok (p, h₂)
  copy_kind fuel src Kind.binary h = binary (bin_bytes h.mem src) h
  copy_kind fuel src Kind.map h = do
    let n = map_arity h.mem src
    (p, h₁) ← alloc (1 + 2 * n) h
    let h₂ = store_all p (header n kind_map ∷ read_words h₁.mem (src + 8) n) h₁
    h₃ ← copy_words (src + 8 * (1 + n)) (p + 8 * (1 + n)) n h₂
    ok (p, h₃)
  copy_kind fuel src Kind.cons h = do
    (cells, end) ← spine fuel h.mem src
    (t, h') ← copy end h
    copy_cells (reverse cells) t h'
  copy_kind fuel src _ h = ok (src, h)

unfoldable pub copy_term : ℕ → Term → Alloc Term
unfolding copy_kind kind
copy_term zero src h = timeout
copy_term (suc fuel) src h = do k ← kind h.mem src; copy_kind (copy_term fuel) fuel src k h

module _ {E : Type 0} (m : Memory) (size : Term → Outcome E ℕ) where
  -- the sum of the sizes of consecutive words
  unfoldable pub sum_sizes : (from n : ℕ) → Outcome E ℕ
  sum_sizes from zero = ok 0
  sum_sizes from (suc n) = do a ← size (read_word m from); b ← sum_sizes (from + 8) n; ok (a + b)

  unfoldable pub cells_size : List Term → Outcome E ℕ
  unfolding head
  cells_size [] = ok 0
  cells_size (cell ∷ cells) = do a ← size (head m cell); b ← cells_size cells; ok (3 + a + b)

  unfoldable pub size_kind : ℕ → Term → Kind → Outcome E ℕ
  unfolding sum_sizes cells_size spine
  size_kind fuel t Kind.tuple = do let n = tuple_arity m t; s ← sum_sizes (t + 8) n; ok (1 + n + s)
  size_kind fuel t Kind.binary = ok (1 + words_for (length (bin_bytes m t)))
  size_kind fuel t Kind.map = do
    let n = map_arity m t
    s ← sum_sizes (t + 8 * (1 + n)) n
    ok (1 + 2 * n + s)
  size_kind fuel t Kind.cons = do
    (cells, end) ← spine fuel m t
    a ← cells_size cells
    b ← size end
    ok (a + b)
  size_kind fuel t _ = ok 0

unfoldable pub term_size_words : {E : Type 0} → ℕ → Memory → Term → Outcome E ℕ
unfolding size_kind kind
term_size_words zero m t = timeout
term_size_words (suc fuel) m t = do k ← kind m t; size_kind m (term_size_words fuel m) fuel t k

abbrev pub kind_fwd : ℕ
kind_fwd = 7

-- the words of an object with this header
unfoldable pub object_words : {E : Type 0} → ℕ → Outcome E ℕ
object_words w =
    if w % 8 == kind_tuple
    then ok (1 + w / 8)
    else (if w % 8 == kind_cons
        then ok 3
        else (if w % 8 == kind_binary
            then ok (1 + words_for (w / 8))
            else (if w % 8 == kind_map then ok (1 + 2 * (w / 8)) else panic)))

unfoldable pub evac_one : Term → Alloc Term
unfolding object_words alloc is_boxed
evac_one t h =
    if not (is_boxed t)
    then ok (t, h)
    else (let old : ℕ = read_word h.mem t in
        if old % 8 == kind_fwd then ok (old - old % 8, h) else do
          words ← object_words old
          (dst, h') ← alloc words h
          let h'' = store_all dst (read_words h'.mem t words) h'
          ok (dst, store t (dst + kind_fwd) h''))

-- the roots, and the words of an object that is scanned, are replaced one by one
unfoldable pub evac_roots : List Term → Alloc (List Term)
unfolding evac_one
evac_roots [] h = ok ([], h)
evac_roots (r ∷ rs) h = do
  (r', h') ← evac_one r h
  (rs', h'') ← evac_roots rs h'
  ok (r' ∷ rs', h'')

unfoldable pub evac_words : (p n : ℕ) → Heap → Outcome HeapFull Heap
unfolding evac_one
evac_words p zero h = ok h
evac_words p (suc n) h = do
  (c, h') ← evac_one (read_word h.mem p) h
  evac_words (p + 8) n (store p c h')

-- one object at `scan`: the next object and the heap
unfoldable pub scan_object : (scan : ℕ) → Alloc ℕ
unfolding evac_words
scan_object scan h =
    let p : ℕ = h.base + 8 * scan in
    let w : ℕ = read_word h.mem p in
    if w % 8 == kind_tuple
    then (evac_words (p + 8) (w / 8) h >>= λ h'. ok (scan + (1 + w / 8), h'))
    else (if w % 8 == kind_cons
        then (evac_words (p + 8) 2 h >>= λ h'. ok (scan + 3, h'))
        else (if w % 8 == kind_binary
            then ok (scan + (1 + words_for (w / 8)), h)
            else (if w % 8 == kind_map
                then (evac_words (p + 8 * (1 + w / 8)) (w / 8) h >>= λ h'.
                    ok (scan + (1 + 2 * (w / 8)), h'))
                else panic)))

-- `while scan < to.top`
unfoldable pub scan_loop : ℕ → (scan : ℕ) → Heap → Outcome HeapFull Heap
unfolding scan_object
scan_loop zero scan h = timeout
scan_loop (suc fuel) scan h = elim (ltb scan h.top) [
  | false ↦ ok h
  | true ↦ do (next, h') ← scan_object scan h; scan_loop fuel next h'
]

-- The heap cannot hold more objects than words.
unfoldable pub evacuate : List Term → Alloc (List Term)
unfolding evac_roots scan_loop
evacuate roots h = do
  (roots', h₁) ← evac_roots roots h
  h₂ ← scan_loop (h.cap_words + 1) h.top h₁
  ok (roots', h₂)
