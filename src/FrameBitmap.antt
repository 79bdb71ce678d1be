-- ===== src/FrameBitmap.antt =====
-- crates/ygg-alloc/src/lib.rs: the bitmap allocator of physical frames. A u64 word of the bitmap,
-- which is only tested and changed one bit at a time, is the list of its 64 bits, lowest first.
mod Tests
pub mod View
pub mod Alloc
pub mod Ranges
pub mod Contig
pub mod Fresh
use yggdrasil.Prelude.{
  ℕ, zero, suc, ◌+◌, ◌-◌, ◌*◌, ◌/◌, ◌%◌, ◌^◌, ◌≤◌, ◌<◌, min, ◌≡◌, refl, sym, ap, ◌∙◌, ◌≢◌, ◌↔◌, ◌⊎◌,
  inl, inr, Bool, true, false, not, ◌&&◌, ◌||◌, Option, none, some, List, [], ◌∷◌, ◌++◌, map, arith,
  ltb, leb, ◌==◌, if◌then◌else◌, ltb→lt, lt→ltb, leb→le, ==_iff, tests, Bool-cases, Option-cases,
  length, get_elem?, set, get_or, take, drop, replicate, length-append, length-set,
  get_elem?-set_self, get_elem?-set_ne, length-map, length-take, length-drop, length-replicate,
  slice, checked_add, from_le_bytes, to_le_bytes, AllBytes, Outcome, ok, err, panic, timeout, ◌>>=◌,
  ◌>>◌, guard, assert, ok_or, Returns, >>=-eq-ok, bind_assoc, bind_congr, bind-Returns, guard-eq-ok,
  index, index_set, index-eq-get_or, index_set-eq, get_or-set_self, get_or-set_ne,
}

abbrev pub frame_size : ℕ
frame_size = 4096

abbrev pub Word : Type 0
Word = List Bool

-- An `assert!` or an index out of range panics; nothing here returns an error.
abbrev pub Run : Type 0 → Type 0
Run A = Outcome ⊥ A

pub record FrameBitmap : Type 0 where
  pub bits : List Word
  pub base : ℕ
  pub nframes : ℕ
  pub cursor : ℕ
  pub free : ℕ

-- `nframes.div_ceil(64)`
abbrev pub div_ceil : ℕ → ℕ → ℕ
div_ceil a b = (a + (b - 1)) / b

unfoldable pub storage_words : ℕ → ℕ
storage_words nframes = div_ceil nframes 64

-- `storage.fill(u64::MAX)`
unfoldable pub new : (base nframes storage_len : ℕ) → Run FrameBitmap
unfolding storage_words
new base nframes storage_len = do
  assert (leb (storage_words nframes) storage_len)
  assert (base % frame_size == 0)
  ok (record {
    bits = replicate storage_len (replicate 64 true);
    base = base;
    nframes = nframes;
    cursor = 0;
    free = 0;
  })

-- The subtraction is that of u64; the assertions of `index_of` are checked in debug builds only.
unfoldable pub index_of : FrameBitmap → ℕ → ℕ
index_of b addr = (addr + 2 ^ 64 - b.base) % 2 ^ 64 / frame_size

unfoldable pub addr_of : FrameBitmap → ℕ → ℕ
addr_of b index = b.base + index * frame_size

unfoldable pub is_used : FrameBitmap → ℕ → Run Bool
is_used b i = do word ← index b.bits (i / 64); index word (i % 64)

unfoldable pub set_used : FrameBitmap → ℕ → Bool → Run FrameBitmap
set_used b i used = do
  word ← index b.bits (i / 64)
  was ← index word (i % 64)
  let bits = set b.bits (i / 64) (set word (i % 64) used)
  ok (
      if used
      then record b { bits = bits; free = if was then b.free else (b.free + 2 ^ 64 - 1) % 2 ^ 64 }
      else record b { bits = bits; free = if was then b.free + 1 else b.free })

-- `for i in first..first + n { self.set_used(i, used) }`
unfoldable pub set_range : FrameBitmap → (first n : ℕ) → Bool → Run FrameBitmap
unfolding set_used
set_range b first zero used = ok b
set_range b first (suc n) used = do b' ← set_used b first used; set_range b' (first + 1) n used

-- the loops of the two marks run over `first..(first + n).min(self.nframes)`
abbrev pub clipped : FrameBitmap → ℕ → ℕ → ℕ
clipped b first n = min (first + n) b.nframes - first

unfoldable pub mark_free_range : FrameBitmap → (addr len : ℕ) → Run FrameBitmap
unfolding index_of set_range
mark_free_range b addr len =
    set_range b (index_of b addr) (clipped b (index_of b addr) (len / frame_size)) false

unfoldable pub mark_used_range : FrameBitmap → (addr len : ℕ) → Run FrameBitmap
unfolding index_of set_range
mark_used_range b addr len =
    set_range b (index_of b addr) (clipped b (index_of b addr) (div_ceil len frame_size)) true

-- the loop of `alloc`, from `i`
unfoldable pub alloc_loop : ℕ → FrameBitmap → (start i : ℕ) → Run (Option ℕ × FrameBitmap)
unfolding is_used set_used addr_of
alloc_loop zero b start i = timeout
alloc_loop (suc fuel) b start i = do
  used ← is_used b i
  elim used [
    | false ↦ do
      b' ← set_used b i true
      ok (some (addr_of b i), record b' { cursor = (i + 1) % b.nframes })
    | true ↦ elim ((i + 1) % b.nframes == start) [
      | true ↦ ok (none, b)
      | false ↦ alloc_loop fuel b start ((i + 1) % b.nframes)
    ]
  ]

unfoldable pub alloc : FrameBitmap → Run (Option ℕ × FrameBitmap)
unfolding alloc_loop
alloc b = if b.free == 0 then ok (none, b) else alloc_loop (b.nframes + 1) b b.cursor b.cursor

-- the inner loop of `alloc_contig`: the first used frame among the `n` from `i` on
unfoldable pub first_used : FrameBitmap → (i n : ℕ) → Run (Option ℕ)
unfolding is_used
first_used b i zero = ok none
first_used b i (suc n) = do
  used ← is_used b i
  elim used [ true ↦ ok (some i) | false ↦ first_used b (i + 1) n ]

-- `while i + n <= self.nframes`
unfoldable pub contig_loop : ℕ → FrameBitmap → (n align i : ℕ) → Run (Option ℕ × FrameBitmap)
unfolding first_used set_range addr_of
contig_loop zero b n align i = timeout
contig_loop (suc fuel) b n align i = elim (leb (i + n) b.nframes) [
  | false ↦ ok (none, b)
  | true ↦
      (let misalign : ℕ = b.base / frame_size + i in
        elim (misalign % align == 0) [
          | false ↦ contig_loop fuel b n align (i + (align - misalign % align))
          | true ↦ do
            found ← first_used b i n
            elim found [
              | some j ↦ contig_loop fuel b n align (j + 1)
              | none ↦ do b' ← set_range b i n true; ok (some (addr_of b i), b')
            ]
        ])
]

-- `is_power_of_two`
abbrev pub is_power_of_two : ℕ → ℕ → Bool
is_power_of_two zero n = false
is_power_of_two (suc k) n = 2 ^ k == n || is_power_of_two k n

unfoldable pub alloc_contig : FrameBitmap → (n align_frames : ℕ) → Run (Option ℕ × FrameBitmap)
unfolding contig_loop
alloc_contig b n align_frames = do
  assert (ltb 0 n && is_power_of_two 64 align_frames)
  if ltb b.free n then ok (none, b) else contig_loop (b.nframes + 1) b n align_frames 0

-- the loop of `free_frames`
unfoldable pub free_loop : FrameBitmap → (first n : ℕ) → Run FrameBitmap
unfolding is_used set_used
free_loop b first zero = ok b
free_loop b first (suc n) = do
  used ← is_used b first
  assert used
  b' ← set_used b first false
  free_loop b' (first + 1) n

unfoldable pub free_frames : FrameBitmap → (addr n : ℕ) → Run FrameBitmap
unfolding index_of free_loop
free_frames b addr n = free_loop b (index_of b addr) n

unfoldable pub free_count : FrameBitmap → ℕ
free_count b = b.free

unfoldable pub total : FrameBitmap → ℕ
total b = b.nframes
