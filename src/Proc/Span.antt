-- ===== src/Proc/Span.antt =====
-- `ProcHeap` (kernel/src/proc.rs): the spans of a process's heap and their quota, over the frames of
-- kernel/src/mm.rs. The offset of the direct map is the boot loader's.
use yggdrasil.FrameBitmap.{FrameBitmap, Run, alloc_contig, free_frames}
use yggdrasil.Prelude.{
  ℕ, ◌+◌, ◌-◌, ◌*◌, ◌/◌, ◌%◌, ◌^◌, min, Bool, true, false, Option, none, some, List, [], ◌∷◌, ◌++◌,
  leb, if◌then◌else◌, length, ok, panic, ◌>>=◌, ◌>>◌, assert,
}

-- the newest span as a bump arena; `Heap` (crates/ygg-term) without the memory
pub record Bump : Type 0 where
  pub base : ℕ
  pub cap_words : ℕ
  pub top : ℕ

abbrev pub Spans : Type 0
Spans = List (ℕ × ℕ)

pub record ProcHeap : Type 0 where
  pub cur : Bump
  pub spans : Spans
  pub max_pages : ℕ
  pub total_pages : ℕ

abbrev pub max : ℕ → ℕ → ℕ
max a b = if leb a b then b else a

module _ (hhdm_offset : ℕ) where
  -- `phys_to_virt`
  abbrev pub phys_to_virt : ℕ → ℕ
  phys_to_virt phys = (phys + hhdm_offset) % 2 ^ 64

  abbrev pub bump : (phys pages : ℕ) → Bump
  bump phys pages = record { base = phys_to_virt phys; cap_words = pages * 4096 / 8; top = 0 }

  unfoldable pub new : (initial_pages max_pages : ℕ) → FrameBitmap → Run (ProcHeap × FrameBitmap)
  unfolding alloc_contig
  new initial_pages max_pages pmm = do
    let pages : ℕ = max (min initial_pages max_pages) 1
    (span, pmm') ← alloc_contig pmm pages 1
    elim span [
      | none ↦ panic
      | some phys ↦ ok (
        record {
          cur = bump phys pages;
          spans = (phys, pages) ∷ [];
          max_pages = max_pages;
          total_pages = pages;
        },
        pmm',
      )
    ]

  unfoldable pub grow : ProcHeap → FrameBitmap → Run (Bool × ProcHeap × FrameBitmap)
  unfolding alloc_contig
  grow h pmm = if leb h.max_pages h.total_pages then ok (false, h, pmm) else do
    let next : ℕ = min h.total_pages (h.max_pages - h.total_pages)
    (span, pmm') ← alloc_contig pmm next 1
    elim span [
      | none ↦ ok (false, h, pmm')
      | some phys ↦ ok (
        true,
        record h {
          cur = bump phys next;
          spans = h.spans ++ (phys, next) ∷ [];
          total_pages = h.total_pages + next;
        },
        pmm',
      )
    ]

  -- The old spans are for the caller to free; `clamp` panics when its bounds are crossed.
  unfoldable pub begin_compact :
      ProcHeap → (live_words : ℕ) → FrameBitmap → Run (Option Spans × ProcHeap × FrameBitmap)
  unfolding alloc_contig
  begin_compact h live_words pmm = do
    assert (leb 4 h.max_pages)
    let pages : ℕ = min (max ((live_words * 8 + 4095) / 4096) 4) h.max_pages
    (span, pmm') ← alloc_contig pmm pages 1
    elim span [
      | none ↦ ok (none, h, pmm')
      | some phys ↦ ok (
        some h.spans,
        record h { cur = bump phys pages; spans = (phys, pages) ∷ []; total_pages = pages },
        pmm',
      )
    ]

unfoldable pub span_count : ProcHeap → ℕ
span_count h = length h.spans

unfoldable pub take_spans : ProcHeap → Spans × ProcHeap
take_spans h = (h.spans, record h { spans = [] })

unfoldable pub free_spans : Spans → FrameBitmap → Run FrameBitmap
unfolding free_frames
free_spans [] pmm = ok pmm
free_spans ((phys, pages) ∷ spans) pmm = free_frames pmm phys pages >>= free_spans spans
