-- ===== src/Term/Heap.antt =====
-- crates/ygg-term/src/lib.rs: `Heap`, the bump arena of a process, with the memory that it stands in.
use mathlib.Core.List.{reverse}
use yggdrasil.Term.{Term, nil_term, is_boxed, map_arity, map_key, map_val}
use yggdrasil.Term.Tags.{kind_tuple, kind_cons, kind_binary, kind_map}
use yggdrasil.Term.Store.{Memory, write_bytes, write_word, write_words}
use yggdrasil.Prelude.{
  ℕ, zero, suc, ◌+◌, ◌*◌, ◌/◌, Bool, false, ◌||◌, List, [], ◌∷◌, ◌++◌, map, ltb, leb, ◌==◌,
  if◌then◌else◌, length, Outcome, ok, err, panic, timeout, ◌>>=◌,
}

pub data HeapFull : Type 0 where
  heap_full : HeapFull

pub data MapError : Type 0 where
  heap : HeapFull → MapError
  non_immediate_key : MapError

pub record Heap : Type 0 where
  pub mem : Memory
  pub base : ℕ
  pub cap_words : ℕ
  pub top : ℕ

-- A computation that changes a heap and may find it full.
abbrev pub Alloc : Type 0 → Type 0
Alloc A = Heap → Outcome HeapFull (A × Heap)

unfoldable pub new : Memory → (base bytes : ℕ) → Heap
new mem base bytes = record { mem = mem; base = base; cap_words = bytes / 8; top = 0 }

unfoldable pub used_bytes : Heap → ℕ
used_bytes h = h.top * 8

unfoldable pub truncate_to : ℕ → Heap → Heap
truncate_to bytes h = record h { top = bytes / 8 }

unfoldable pub capacity_bytes : Heap → ℕ
capacity_bytes h = h.cap_words * 8

unfoldable pub alloc : ℕ → Alloc ℕ
alloc words h =
    if ltb h.cap_words (h.top + words)
    then err heap_full
    else ok (h.base + 8 * h.top, record h { top = h.top + words })

-- `p.write(w)`, and the writes of consecutive words
abbrev pub store : (p w : ℕ) → Heap → Heap
store p w h = record h { mem = write_word h.mem p w }

abbrev pub store_all : (p : ℕ) → List ℕ → Heap → Heap
store_all p ws h = record h { mem = write_words h.mem p ws }

-- `(n << 3) | kind`
abbrev pub header : ℕ → ℕ → ℕ
header n k = n * 8 + k

unfoldable pub tuple : List Term → Alloc Term
unfolding alloc
tuple elems h = do
  (p, h') ← alloc (1 + length elems) h
  ok (p, store_all p (header (length elems) kind_tuple ∷ elems) h')

unfoldable pub cons : Term → Term → Alloc Term
unfolding alloc
cons hd tl h = do (p, h') ← alloc 3 h; ok (p, store_all p (kind_cons ∷ hd ∷ tl ∷ []) h')

-- `data.len().div_ceil(8)`
abbrev pub words_for : ℕ → ℕ
words_for len = (len + 7) / 8

unfoldable pub binary : List ℕ → Alloc Term
unfolding alloc
binary bytes h = do
  (p, h') ← alloc (1 + words_for (length bytes)) h
  let h'' = store p (header (length bytes) kind_binary) h'
  ok (p, record h'' { mem = write_bytes h''.mem (p + 8) bytes })

-- the loop of `list`, over the elements from the last to the first
unfoldable pub list_loop : List Term → Term → Alloc Term
unfolding cons
list_loop [] t h = ok (t, h)
list_loop (e ∷ es) t h = do (t', h') ← cons e t h; list_loop es t' h'

unfoldable pub list : List Term → Alloc Term
unfolding list_loop
list elems h = list_loop (reverse elems) nil_term h

abbrev pub Pairs : Type 0
Pairs = List (Term × Term)

unfoldable pub any_boxed : Pairs → Bool
unfolding is_boxed
any_boxed [] = false
any_boxed ((k, v) ∷ ps) = is_boxed k || any_boxed ps

-- `sort_by_key`: a stable sort by the word of the key
unfoldable pub insert : (Term × Term) → Pairs → Pairs
insert (k, v) [] = (k, v) ∷ []
insert (k, v) ((k', v') ∷ ps) =
    if leb k k' then (k, v) ∷ (k', v') ∷ ps else (k', v') ∷ insert (k, v) ps

unfoldable pub sort_by_key : Pairs → Pairs
unfolding insert
sort_by_key [] = []
sort_by_key (p ∷ ps) = insert p (sort_by_key ps)

-- The loop that drops all but the last of equal keys; the pairs kept so far, last first.
unfoldable pub dedup : Pairs → Pairs → Pairs
dedup kept [] = reverse kept
dedup [] (p ∷ ps) = dedup (p ∷ []) ps
dedup ((k, v) ∷ kept) ((k', v') ∷ ps) =
    dedup (if k == k' then (k', v') ∷ kept else (k', v') ∷ (k, v) ∷ kept) ps

abbrev pub keys : Pairs → List Term
keys = map λ p. p.0

abbrev pub vals : Pairs → List Term
vals = map λ p. p.1

abbrev pub map_heap {ℓ} : {A : Type ℓ} → Outcome HeapFull A → Outcome MapError A
map_heap (ok a) = ok a
map_heap (err e) = err (heap e)
map_heap panic = panic
map_heap timeout = timeout

unfoldable pub map_from_pairs : Pairs → Heap → Outcome MapError (Term × Heap)
unfolding any_boxed sort_by_key dedup alloc
map_from_pairs pairs h = if any_boxed pairs then err non_immediate_key else do
  let kept = dedup [] (sort_by_key pairs)
  (p, h') ← map_heap (alloc (1 + 2 * length kept) h)
  ok (p, store_all p (header (length kept) kind_map ∷ (keys kept ++ vals kept)) h')

-- the pairs of a map, in its order
unfoldable pub pairs_from : Memory → (t i n : ℕ) → Pairs
unfolding map_key map_val
pairs_from m t i zero = []
pairs_from m t i (suc n) = (map_key m t i, map_val m t i) ∷ pairs_from m t (i + 1) n

unfoldable pub map_put : (base key val : Term) → Heap → Outcome MapError (Term × Heap)
unfolding map_from_pairs pairs_from map_arity is_boxed
map_put base key val h =
    if is_boxed key
    then err non_immediate_key
    else map_from_pairs (pairs_from h.mem base 0 (map_arity h.mem base) ++ (key, val) ∷ []) h
