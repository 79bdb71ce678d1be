-- ===== src/Proc/Signals.antt =====
-- kernel/src/proc.rs: fragments, messages that the kernel sends, monitors, and the end of a process.
-- `place` is the global allocator, a crate that the kernel links: where a vector of words is put.
use yggdrasil.Atoms.{Text, same_text, intern}
use yggdrasil.Term.{Term, atom, reference, pid}
use yggdrasil.Term.Store.{Memory, write_words}
use yggdrasil.Term.Heap.{HeapFull, Heap, Alloc, tuple}
use yggdrasil.Term.Copy.{copy_term, term_size_words}
use yggdrasil.Term.Heap
use yggdrasil.FrameBitmap.{Run}
use yggdrasil.Proc.Span.{Spans, take_spans, max}
use yggdrasil.Proc.{Pid, Fragment, Kernel, put, insert, is_dead, mark_dead, deliver_fragment}
use yggdrasil.Prelude.{
  ℕ, zero, suc, ◌+◌, ◌*◌, ◌%◌, ◌^◌, Bool, none, some, List, [], ◌∷◌, ◌++◌, if◌then◌else◌, replicate,
  ok, err, panic, timeout, ◌>>=◌,
}

-- "DOWN", "noproc" and "normal"
abbrev pub down_text : Text
down_text = 68 ∷ 79 ∷ 87 ∷ 78 ∷ []

abbrev pub noproc : Text
noproc = 110 ∷ 111 ∷ 112 ∷ 114 ∷ 111 ∷ 99 ∷ []

abbrev pub normal : Text
normal = 110 ∷ 111 ∷ 114 ∷ 109 ∷ 97 ∷ 108 ∷ []

abbrev pub is_normal : Text → Bool
is_normal reason = same_text reason normal

-- what is released outside of the lock
pub record Finalize : Type 0 where
  pub pid : Pid
  pub stack_slot : ℕ
  pub heap_spans : Spans

-- `{'DOWN', Ref, Pid, Reason}`
abbrev pub down : (down_atom r gone reason_atom : ℕ) → Alloc Term
down down_atom r gone reason_atom =
    tuple (atom down_atom ∷ reference r ∷ pid gone ∷ atom reason_atom ∷ [])

unfoldable pub mark_all : (me : ℕ) (reason : Text) → List Pid → Kernel → Kernel
unfolding mark_dead
mark_all me reason [] k = k
mark_all me reason (linked ∷ ls) k = mark_all me reason ls (mark_dead me linked reason k)

module _ (place : ℕ → Memory → ℕ) where
  -- `vec![0u64; words]` as a heap
  abbrev backing : ℕ → Memory → Heap
  backing words m =
      let at : ℕ = place words m in Heap.new (write_words m at (replicate words 0)) at (words * 8)

  abbrev fragment : ℕ → Memory → Term × Heap → Fragment × Memory
  fragment words m (root, h) =
      (record { backing = place words m; words = words; root = root }, h.mem)

  -- `Fragment::build`: the fuel bounds how often the backing store is doubled.
  unfoldable pub build : Alloc Term → ℕ → (words : ℕ) → Memory → Run (Fragment × Memory)
  build f zero words m = timeout
  build f (suc fuel) words m =
      let again = build f fuel (words * 2) (backing words m).mem in
      elim (f (backing words m)) [
        | ok r ↦ ok (fragment words m r)
        | err _ ↦ again
        | panic ↦ panic
        | timeout ↦ timeout
      ]

  -- `Fragment::copy_from`
  unfoldable pub copy_from : ℕ → Term → Memory → Run (Fragment × Memory)
  unfolding copy_term term_size_words
  copy_from fuel t m = do
    size ← term_size_words fuel m t
    let words : ℕ = max size 1
    elim (copy_term fuel t (backing words m)) [
      | ok r ↦ ok (fragment words m r)
      | err _ ↦ panic
      | panic ↦ panic
      | timeout ↦ timeout
    ]

  unfoldable pub send : ℕ → (me : ℕ) (to : Pid) → Term → Kernel → Run (Bool × Kernel)
  unfolding copy_from deliver_fragment
  send fuel me to msg k = do
    (frag, m) ← copy_from fuel msg k.mem
    ok (deliver_fragment me to frag (record k { mem = m }))

  unfoldable pub send_built : ℕ → (me : ℕ) (to : Pid) → Alloc Term → Kernel → Run (Bool × Kernel)
  unfolding build deliver_fragment
  send_built fuel me to f k = do
    (frag, m) ← build f fuel 32 k.mem
    ok (deliver_fragment me to frag (record k { mem = m }))

  unfoldable pub deliver_down :
      (me : ℕ) (watcher : Pid) (r : ℕ) (gone : Pid) (reason : Text) → Kernel → Run Kernel
  unfolding build deliver_fragment intern tuple
  deliver_down me watcher r gone reason k = do
    let (d, a) = intern down_text k.atoms
    let (why, a') = intern reason a
    (frag, m) ← build (down d r gone why) 1 32 k.mem
    ok (deliver_fragment me watcher frag (record k { mem = m; atoms = a' })).1

  -- `monitor`, by the process `current`; the reference is the next one
  unfoldable pub monitor : (me : ℕ) (current target : Pid) → Kernel → Run (ℕ × Kernel)
  unfolding deliver_down
  monitor me current target k =
      let r : ℕ = k.next_ref in
      let k' : Kernel = record k { next_ref = (r + 1) % 2 ^ 64 } in
      let late : Run (ℕ × Kernel) =
        deliver_down me current r target noproc k' >>= λ k''. ok (r, k'') in
      elim (k.table target) [
        | none ↦ late
        | some p ↦
            if is_dead p.state
            then late
            else ok (r, insert target (record p { monitors = p.monitors ++ (r, current) ∷ [] }) k')
      ]

  unfoldable pub down_all :
      (me : ℕ) (gone : Pid) (reason : Text) → List (ℕ × Pid) → Kernel → Run Kernel
  unfolding deliver_down
  down_all me gone reason [] k = ok k
  down_all me gone reason ((r, watcher) ∷ ms) k =
      deliver_down me watcher r gone reason k >>= down_all me gone reason ms

  unfoldable pub reap : (me : ℕ) → Pid → Kernel → Run (Finalize × Kernel)
  unfolding down_all mark_all take_spans
  reap me pid k = elim (k.table pid) [
    | none ↦ panic
    | some p ↦ do
      k₁ ← down_all me pid p.exit_reason p.monitors (put pid none k)
      let k₂ : Kernel = if is_normal p.exit_reason then k₁ else mark_all me p.exit_reason p.links k₁
      ok (record { pid = pid; stack_slot = p.stack_slot; heap_spans = (take_spans p.heap).0 }, k₂)
  ]
