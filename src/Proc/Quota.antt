-- ===== src/Proc/Quota.antt =====
-- About `ProcHeap` (kernel/src/proc.rs): `grow`, `begin_compact` and the quota.
use yggdrasil.FrameBitmap.{FrameBitmap, Run, alloc_contig, is_power_of_two, addr_of}
use yggdrasil.FrameBitmap.View.{IsValid}
use yggdrasil.FrameBitmap.Ranges.{RangeSet}
use yggdrasil.FrameBitmap.Contig.{FreeRun, Found, found, missing, alloc_contig_lem}
use yggdrasil.Proc.Span.{Spans, ProcHeap, max, grow, bump}
use yggdrasil.Prelude.{
  ℕ, ◌+◌, ◌-◌, ◌*◌, ◌/◌, min, ◌≤◌, ◌<◌, ◌≡◌, refl, Bool, true, false, Option, none, some, [], ◌∷◌,
  ◌++◌, arith, leb, leb→le, inl, inr, Bool-cases, ok, ◌>>=◌,
}

abbrev pub pages_of : Spans → ℕ
pages_of [] = 0
pages_of ((phys, pages) ∷ spans) = pages + pages_of spans

pages_of-append : (xs ys : Spans) → pages_of (xs ++ ys) ≡ pages_of xs + pages_of ys
pages_of-append [] ys = omega arith
pages_of-append ((phys, pages) ∷ xs) ys = omega (arith, pages_of-append xs ys)

-- The spans have as many pages as are counted, at least one and at most the quota.
pub record IsWithin (h : ProcHeap) : Type 0 where
  pub counted : h.total_pages ≡ pages_of h.spans
  pub some_pages : 1 ≤ h.total_pages
  pub quota : h.total_pages ≤ h.max_pages

-- What a new span does: it is a run of frames that were free, and the arena is empty.
pub record Spanned (hhdm : ℕ) (pmm : FrameBitmap) (n : ℕ) (h : ProcHeap) (pmm' : FrameBitmap)
    : Type 0 where
  pub first : ℕ
  pub run : FreeRun pmm n 1 first
  pub taken : RangeSet pmm first n true pmm'
  pub arena : h.cur ≡ bump hhdm (addr_of pmm first) n
  pub within : IsWithin h

module _ (hhdm : ℕ) (h : ProcHeap) (pmm : FrameBitmap) where
  -- how many pages are added: as many as there are, or what is left of the quota
  abbrev pub growth : ℕ
  growth = min h.total_pages (h.max_pages - h.total_pages)

  pub data Grown : Run (Bool × ProcHeap × FrameBitmap) → Type 0 where
    full : h.max_pages ≤ h.total_pages → Grown (ok (false, h, pmm))
    no_frames : ((s : ℕ) → ¬ FreeRun pmm growth 1 s) → Grown (ok (false, h, pmm))
    grown :
        (h' : ProcHeap) (pmm' : FrameBitmap)
        → h'.total_pages ≡ h.total_pages + growth
        → h'.max_pages ≡ h.max_pages
        → Spanned hhdm pmm growth h' pmm'
        → Grown (ok (true, h', pmm'))

  -- the rest of `grow`, after the allocation
  abbrev with_span : Option ℕ × FrameBitmap → Run (Bool × ProcHeap × FrameBitmap)
  with_span (span, pmm') = elim span [
    | none ↦ ok (false, h, pmm')
    | some phys ↦ ok (
      true,
      record h {
        cur = bump hhdm phys growth;
        spans = h.spans ++ (phys, growth) ∷ [];
        total_pages = h.total_pages + growth;
      },
      pmm',
    )
  ]

  with_span-Grown :
      (r : Run (Option ℕ × FrameBitmap))
      → IsWithin h
      → h.total_pages < h.max_pages
      → Found pmm growth 1 0 r
      → Grown (r >>= with_span)
  with_span-Grown r w lt (missing left) = no_frames (λ s. left s (omega arith))
  with_span-Grown r w lt (found s b' le run before set_) =
      let c = w.counted in
      let o = w.some_pages in
      grown _ b' refl refl (record {
        first = s;
        run = run;
        taken = set_;
        arena = refl;
        within = record {
          counted = omega (arith, pages_of-append h.spans ((addr_of pmm s, growth) ∷ []));
          some_pages = omega arith;
          quota = omega arith;
        };
      })

  -- `ProcHeap::grow`, on a heap within its quota and a valid frame bitmap, refuses and changes
  -- nothing at the quota or when there is no run of free frames for the growth, and otherwise
  -- doubles the pages, or takes what is left of the quota, from frames that were free, stays within
  -- the quota and allocates from the new span. It does not panic.
  pub grow_lem : IsWithin h → IsValid pmm → Grown (grow hhdm h pmm)
  unfolding grow
  grow_lem w valid = elim (Bool-cases (leb h.max_pages h.total_pages)) [
    | inl b ↦ rw (b, grow) (full (leb→le h.max_pages h.total_pages b))
    | inr b ↦
        let lt : h.total_pages < h.max_pages = ground arith in
        let o = w.some_pages in
        rw (b, grow)
          (with_span-Grown (alloc_contig pmm growth 1) w lt (
            alloc_contig_lem pmm growth 1 valid (omega arith)
              (let p : is_power_of_two 64 1 ≡ true = refl in p)))
  ]

module _ (hhdm : ℕ) (h : ProcHeap) (live : ℕ) (pmm : FrameBitmap) where
  -- the pages for the live words: at least four, at most the quota
  abbrev pub compact_pages : ℕ
  compact_pages = min (max ((live * 8 + 4095) / 4096) 4) h.max_pages

  pub data Compacted : Run (Option Spans × ProcHeap × FrameBitmap) → Type 0 where
    skipped : ((s : ℕ) → ¬ FreeRun pmm compact_pages 1 s) → Compacted (ok (none, h, pmm))
    fresh :
        (h' : ProcHeap) (pmm' : FrameBitmap)
        → h'.total_pages ≡ compact_pages
        → h'.max_pages ≡ h.max_pages
        → Spanned hhdm pmm compact_pages h' pmm'
        → Compacted (ok (some h.spans, h', pmm'))

  abbrev with_target : Option ℕ × FrameBitmap → Run (Option Spans × ProcHeap × FrameBitmap)
  with_target (span, pmm') = elim span [
    | none ↦ ok (none, h, pmm')
    | some phys ↦ ok (
      some h.spans,
      record h {
        cur = bump hhdm phys compact_pages;
        spans = (phys, compact_pages) ∷ [];
        total_pages = compact_pages;
      },
      pmm',
    )
  ]
