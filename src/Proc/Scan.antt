-- ===== src/Proc/Scan.antt =====
-- About the scan of the mailbox in `recv_where` (kernel/src/proc.rs).
use mathlib.Core.Path.{subst}
use yggdrasil.Term.{Term}
use yggdrasil.Term.Store.{Memory}
use yggdrasil.Term.Heap.{HeapFull, Heap, truncate_to, used_bytes}
use yggdrasil.Term.Copy.{copy_term}
use yggdrasil.Term.Store.{read_word}
use yggdrasil.Term.Shapes.{Away, Data}
use yggdrasil.Term.Copies.{Keeps, Fine, copy_term-Fine}
use yggdrasil.FrameBitmap.{addr_of}
use yggdrasil.FrameBitmap.Ranges.{RangeSet}
use yggdrasil.FrameBitmap.Contig.{FreeRun}
use yggdrasil.Proc.Span.{Bump, bump}
use yggdrasil.Proc.Quota.{Spanned, growth}
use yggdrasil.FrameBitmap.{FrameBitmap, Run}
use yggdrasil.FrameBitmap.View.{IsValid}
use yggdrasil.Proc.Span.{ProcHeap, grow}
use yggdrasil.Proc.Quota.{IsWithin, Grown, full, no_frames, grown, grow_lem}
use yggdrasil.Proc.Receive.{
  heap_of, bump_of, Scan, matched, no_match, quota_death, Arena, with_heap, scan,
}
use yggdrasil.Proc.{Fragment}
use yggdrasil.Prelude.{
  ℕ, suc, ◌+◌, ◌≡◌, refl, sym, ap, ◌∙◌, ◌*◌, inl, inr, Bool, true, false, some, List, [], ◌∷◌,
  arith, Bool-cases, get_elem?, Outcome, ok, err, panic, timeout, ◌>>=◌,
}

-- No word of a message lies in a run of free frames, where the kernel maps it.
abbrev pub FreeApart : (hhdm : ℕ) (Mine : ℕ → Type 0) → FrameBitmap → Type 0
FreeApart hhdm Mine pmm =
    (n s : ℕ)
    → FreeRun pmm n 1 s
    → (q : ℕ) → Mine q
    → Away (bump hhdm (addr_of pmm s) n).base
        ((bump hhdm (addr_of pmm s) n).base + 8 * (bump hhdm (addr_of pmm s) n).cap_words) q

-- The heap is within its quota and the frames are valid; the words of the messages, which are those
-- of `m`, lie neither in the heap nor in free frames.
pub record IsGood (hhdm : ℕ) (m : Memory) (Mine : ℕ → Type 0) (a : Arena) : Type 0 where
  pub within : IsWithin a.heap
  pub frames : IsValid a.pmm
  pub apart : (q : ℕ) → Mine q → Away a.heap.cur.base (a.heap.cur.base + 8 * a.heap.cur.cap_words) q
  pub agree : (q : ℕ) → Mine q → read_word a.mem q ≡ read_word m q
  pub clear : FreeApart hhdm Mine a.pmm

-- `c` is the copy of message `d`, made in a heap `h`; it satisfies the predicate and stands in the
-- heap of the process.
pub record Given (fuel : ℕ) (pred : Memory → Term → Bool) (mail : List Fragment) (d : ℕ) (c : Term)
    (a : Arena) : Type 0 where
  pub frag : Fragment
  pub at : get_elem? mail d ≡ some frag
  pub before : Heap
  pub after : Heap
  pub copied : copy_term fuel frag.root before ≡ ok (c, after)
  pub satisfies : pred after.mem c ≡ true
  pub mem : a.mem ≡ after.mem
  pub cur : a.heap.cur ≡ bump_of after

-- A scan of messages that are numbered from `i` on has a result, and a match is one of them.
pub data Scanned (hhdm fuel : ℕ) (pred : Memory → Term → Bool) (m : Memory) (Mine : ℕ → Type 0)
    (i : ℕ) (mail : List Fragment) : Run (Scan × Arena) → Type 0 where
  scanned :
      (r : Scan) (a : Arena)
      → IsGood hhdm m Mine a
      → ((j : ℕ) (c : Term) → r ≡ matched j c → (d : ℕ) × (j ≡ i + d) × Given fuel pred mail d c a)
      → Scanned hhdm fuel pred m Mine i mail (ok (r, a))

abbrev index_of : Scan → ℕ
index_of (matched i c) = i
index_of _ = 0

abbrev term_of : Scan → Term
term_of (matched i c) = c
term_of _ = 0

later :
    {hhdm fuel : ℕ} {pred : Memory → Term → Bool} {m : Memory} {Mine : ℕ → Type 0} {i : ℕ}
    {frag : Fragment} {mail : List Fragment} {r : Run (Scan × Arena)}
    → Scanned hhdm fuel pred m Mine (i + 1) mail r
    → Scanned hhdm fuel pred m Mine i (frag ∷ mail) r
later (scanned r a g h) = scanned r a g (λ j c e.
    let (d, num, v) = h j c e in
    (
      suc d,
      omega arith,
      record {
        frag = v.frag;
        at = v.at;
        before = v.before;
        after = v.after;
        copied = v.copied;
        satisfies = v.satisfies;
        mem = v.mem;
        cur = v.cur;
      },
    ))

-- Frames that are free after some were taken were free before.
FreeRun-before :
    {b b' : FrameBitmap} {first k n s : ℕ}
    → RangeSet b first k true b'
    → FreeRun b' n 1 s
    → FreeRun b n 1 s
FreeRun-before {b} {b'} {first} {k} {n} {s} r f = record {
  within = rw (← r.same_size) f.within;
  aligned = rw (← r.same_base) f.aligned;
  free = λ j lo hi. ground (arith, r.view j, f.free j lo hi);
}

addr_of-same : (b b' : FrameBitmap) (i : ℕ) → b'.base ≡ b.base → addr_of b i ≡ addr_of b' i
unfolding addr_of
addr_of-same b b' i e = rw e refl

module _ (hhdm fuel : ℕ) (pred : Memory → Term → Bool) (m : Memory) (Mine : ℕ → Type 0) where
  module _ (a : Arena) (g : IsGood hhdm m Mine a) where
    abbrev lo : ℕ
    lo = a.heap.cur.base

    abbrev hi : ℕ
    hi = a.heap.cur.base + 8 * a.heap.cur.cap_words

    with_heap-IsGood :
        (h : Heap) → Keeps m Mine lo hi g.apart h → IsGood hhdm m Mine (with_heap a h)
    with_heap-IsGood h k = record {
      within = record {
        counted = g.within.counted;
        some_pages = g.within.some_pages;
        quota = g.within.quota;
      };
      frames = g.frames;
      apart = λ q mine.
          let same = k.base in
          let size = k.size in let away = g.apart q mine in omega (arith, away);
      agree = k.agree;
      clear = g.clear;
    }

    truncated-Keeps :
        (n : ℕ) (h : Heap)
        → Keeps m Mine lo hi g.apart h
        → Keeps m Mine lo hi g.apart (truncate_to n h)
    unfolding truncate_to
    truncated-Keeps n h k = record { base = k.base; size = k.size; agree = k.agree }

    grown-IsGood :
        (n : ℕ) (h : ProcHeap) (pmm : FrameBitmap)
        → Spanned hhdm a.pmm n h pmm
        → IsGood hhdm m Mine (record a { heap = h; pmm = pmm })
    grown-IsGood n h pmm s = record {
      within = s.within;
      frames = s.taken.valid;
      apart = λ q mine.
          subst (λ (b : Bump). Away b.base (b.base + 8 * b.cap_words) q) (sym s.arena)
            (g.clear n s.first s.run q mine);
      agree = g.agree;
      clear = λ k first run q mine.
          subst
            (λ base.
              Away (bump hhdm base k).base
                ((bump hhdm base k).base + 8 * (bump hhdm base k).cap_words) q)
            (addr_of-same a.pmm pmm first s.taken.same_base)
            (g.clear k first (FreeRun-before s.taken run) q mine);
    }

  -- the scan after the copy of a message
  module _ (i : ℕ) (frag : Fragment) (rest : List Fragment) (a : Arena) (g : IsGood hhdm m Mine a)
      (again : (a' : Arena)
        → IsGood hhdm m Mine a'
        → Scanned hhdm fuel pred m Mine (i + 1) rest (scan hhdm fuel pred (i + 1) rest a')) where
    abbrev after_grow : Bool × ProcHeap × FrameBitmap → Run (Scan × Arena)
    after_grow (b, h, pmm) = elim b [
      | true ↦ scan hhdm fuel pred (i + 1) rest (record a { heap = h; pmm = pmm })
      | false ↦ ok (quota_death, record a { heap = h; pmm = pmm })
    ]

    after_grow-Scanned :
        (r : Run (Bool × ProcHeap × FrameBitmap))
        → Grown hhdm a.heap a.pmm r
        → Scanned hhdm fuel pred m Mine i (frag ∷ rest) (r >>= after_grow)
    after_grow-Scanned r (full le) = scanned quota_death a g (λ j c e. cc)
    after_grow-Scanned r (no_frames f) = scanned quota_death a g (λ j c e. cc)
    after_grow-Scanned r (grown h' pmm' t m s) = later (
        again (record a { heap = h'; pmm = pmm' })
          (grown-IsGood a g (growth hhdm a.heap a.pmm) h' pmm' s))

    abbrev after_copy : Outcome HeapFull (Term × Heap) → Run (Scan × Arena)
    after_copy (ok (c, heap')) = elim (pred heap'.mem c) [
      | true ↦ ok (matched i c, with_heap a heap')
      | false ↦
          scan hhdm fuel pred (i + 1) rest
            (with_heap a (truncate_to (used_bytes (heap_of a.heap.cur a.mem)) heap'))
    ]
    after_copy (err _) = grow hhdm a.heap a.pmm >>= after_grow
    after_copy panic = panic
    after_copy timeout = timeout

    after_copy-Scanned :
        (o : Outcome HeapFull (Term × Heap))
        → copy_term fuel frag.root (heap_of a.heap.cur a.mem) ≡ o
        → Fine m Mine (lo a g) (hi a g) g.apart (λ (p : Term × Heap). p.1) o
        → Scanned hhdm fuel pred m Mine i (frag ∷ rest) (after_copy o)
    after_copy-Scanned panic e fine = absurd fine
    after_copy-Scanned timeout e fine = absurd fine
    after_copy-Scanned (err e) _ fine =
        after_grow-Scanned (grow hhdm a.heap a.pmm) (grow_lem hhdm a.heap a.pmm g.within g.frames)
    after_copy-Scanned (ok (c, heap')) e fine = elim (Bool-cases (pred heap'.mem c)) [
      | inl q ↦
          rw (q, after_copy)
            (scanned (matched i c) (with_heap a heap') (with_heap-IsGood a g heap' fine)
              (λ j d same. (
                0,
                (let k : i ≡ j = ap index_of same in omega arith),
                record {
                  frag = frag;
                  at = refl;
                  before = heap_of a.heap.cur a.mem;
                  after = heap';
                  copied = e ∙ ap (λ t. ok (t, heap')) (ap term_of same);
                  satisfies = rw (← ap term_of same) q;
                  mem = refl;
                  cur = refl;
                },
              )))
      | inr q ↦
          rw (q, after_copy)
            (later (
              again (with_heap a (truncate_to (used_bytes (heap_of a.heap.cur a.mem)) heap')) (
                with_heap-IsGood a g (truncate_to (used_bytes (heap_of a.heap.cur a.mem)) heap')
                  (truncated-Keeps a g (used_bytes (heap_of a.heap.cur a.mem)) heap' fine))))
    ]

  -- A scan of well-formed messages ends, within the quota.
  pub scan_lem :
      (i : ℕ) (mail : List Fragment) (a : Arena)
      → ((j : ℕ) (frag : Fragment) → get_elem? mail j ≡ some frag → Data m Mine fuel frag.root)
      → IsGood hhdm m Mine a
      → Scanned hhdm fuel pred m Mine i mail (scan hhdm fuel pred i mail a)
  unfolding scan
  scan_lem i [] a whole g = scanned no_match a g (λ j c e. cc)
  scan_lem i (frag ∷ rest) a whole g =
      after_copy-Scanned i frag rest a g
        (λ a' g'. scan_lem (i + 1) rest a' (λ j f e. whole (suc j) f e) g')
        (copy_term fuel frag.root (heap_of a.heap.cur a.mem)) refl
        (copy_term-Fine m Mine (lo a g) (hi a g) g.apart fuel frag.root (heap_of a.heap.cur a.mem)
          (whole 0 frag refl) (record { base = refl; size = refl; agree = g.agree }))
