-- ===== src/Proc/Reaps.antt =====
-- Lemmas on messages of the kernel, and on the end and the start of a process
-- (kernel/src/proc.rs), against the scheduler's invariant.
use yggdrasil.Atoms.{Text, AtomTable, intern}
use yggdrasil.Term.Store.{Memory}
use yggdrasil.Term.Heap.{tuple, new}
use yggdrasil.FrameBitmap.{Run}
use yggdrasil.Proc.Span.{take_spans}
use yggdrasil.Proc.Signals.{
  down_text, is_normal, build, down, deliver_down, down_all, mark_all, Finalize, reap,
}
use yggdrasil.Proc.{Pid, Fragment, Process, Kernel, put, mark_dead, deliver_fragment}
use yggdrasil.Proc.Inv.{Inv}
use yggdrasil.Proc.Keeps.{
  Keeps, Keeps-refl, Keeps-trans, quiet-Keeps, mark_dead-Keeps, deliver_fragment-Keeps,
}
use yggdrasil.Prelude.{
  ℕ, ◌<◌, ◌≡◌, refl, ap, ◌∙◌, inl, inr, none, some, List, [], ◌∷◌, arith, Bool-cases, length, ok,
  ◌>>=◌,
}

module _ (place : ℕ → Memory → ℕ) (me : ℕ) where
  -- A `DOWN` message fits the first backing store.
  pub build-down :
      (d r gone why : ℕ) (m : Memory)
      → (x : Fragment × Memory) × (build place (down d r gone why) 1 32 m ≡ ok x)
  unfolding build tuple new
  build-down d r gone why m = (_, refl)

  -- the kernel after a message, whatever the message is
  stored-Keeps :
      (to : Pid) (frag : Fragment) (m : Memory) (a : AtomTable) (k : Kernel)
      → me < length k.cpus
      → Inv k
      → Keeps k (deliver_fragment me to frag (record k { mem = m; atoms = a })).1
  stored-Keeps to frag m a k lt inv =
      let k' : Kernel = record k { mem = m; atoms = a } in
      let quiet = quiet-Keeps k k' (λ y. refl) refl refl inv in
      Keeps-trans quiet (deliver_fragment-Keeps me to frag k' lt quiet.inv)

  -- A run that returns, and of which every result keeps the invariant.
  pub record Kept (k : Kernel) (o : Run Kernel) : Type 0 where
    pub result : Kernel
    pub returned : o ≡ ok result
    pub keeps : Keeps k result

  pub deliver_down-Kept :
      (w : Pid) (r : ℕ) (gone : Pid) (reason : Text) (k : Kernel)
      → me < length k.cpus
      → Inv k
      → Kept k (deliver_down place me w r gone reason k)
  unfolding deliver_down
  deliver_down-Kept w r gone reason k lt inv =
      let (x, e) =
        build-down (intern down_text k.atoms).0 r gone
          (intern reason (intern down_text k.atoms).1).0 k.mem in
      record {
        result =
            (deliver_fragment me w x.0
              (record k { mem = x.1; atoms = (intern reason (intern down_text k.atoms).1).1 })).1;
        returned = rw (e, deliver_down) refl;
        keeps = stored-Keeps w x.0 x.1 (intern reason (intern down_text k.atoms).1).1 k lt inv;
      }

  bind-Kept :
      (k : Kernel) (o : Run Kernel) (f : Kernel → Run Kernel)
      → me < length k.cpus
      → Kept k o
      → ((k' : Kernel) → me < length k'.cpus → Inv k' → Kept k' (f k'))
      → Kept k (o >>= f)
  bind-Kept k o f lt first rest =
      let next = rest first.result (let c = first.keeps.cores in omega arith) first.keeps.inv in
      record {
        result = next.result;
        returned = ap (λ o. o >>= f) first.returned ∙ next.returned;
        keeps = Keeps-trans first.keeps next.keeps;
      }

  down_all-Kept :
      (gone : Pid) (reason : Text) (ms : List (ℕ × Pid)) (k : Kernel)
      → me < length k.cpus
      → Inv k
      → Kept k (down_all place me gone reason ms k)
  unfolding down_all
  down_all-Kept gone reason [] k lt inv = record {
    result = k;
    returned = refl;
    keeps = Keeps-refl inv;
  }
  down_all-Kept gone reason ((r, w) ∷ ms) k lt inv =
      bind-Kept k (deliver_down place me w r gone reason k) (down_all place me gone reason ms) lt
        (deliver_down-Kept w r gone reason k lt inv)
        (λ k' lt' inv'. down_all-Kept gone reason ms k' lt' inv')

  mark_all-Keeps :
      (reason : Text) (ls : List Pid) (k : Kernel)
      → me < length k.cpus
      → Inv k
      → Keeps k (mark_all me reason ls k)
  unfolding mark_all
  mark_all-Keeps reason [] k lt inv = Keeps-refl inv
  mark_all-Keeps reason (l ∷ ls) k lt inv =
      let first = mark_dead-Keeps me l reason k lt inv in
      Keeps-trans first (
        mark_all-Keeps reason ls (mark_dead me l reason k) (let c = first.cores in omega arith)
          first.inv)

  -- `reap` of a process that is in the table, which may be removed
  pub record Reaped (k : Kernel) (o : Run (Finalize × Kernel)) : Type 0 where
    pub result : Finalize × Kernel
    pub returned : o ≡ ok result
    pub keeps : Keeps k result.1

  pub reap-Reaped :
      (x : Pid) (p : Process) (k : Kernel)
      → me < length k.cpus
      → k.table x ≡ some p
      → Inv (put x none k)
      → Reaped (put x none k) (reap place me x k)
  unfolding reap
  reap-Reaped x p k lt e inv =
      let told = down_all-Kept x p.exit_reason p.monitors (put x none k) lt inv in
      let lt' : me < length told.result.cpus = (let c = told.keeps.cores in omega arith) in
      let flagged = mark_all-Keeps p.exit_reason p.links told.result lt' told.keeps.inv in
      let fin : Finalize = record {
        pid = x;
        stack_slot = p.stack_slot;
        heap_spans = (take_spans p.heap).0;
      } in
      elim (Bool-cases (is_normal p.exit_reason)) [
        | inl b ↦ record {
          result = (fin, told.result);
          returned = rw (e, reap, told.returned, b) refl;
          keeps = told.keeps;
        }
        | inr b ↦ record {
          result = (fin, mark_all me p.exit_reason p.links told.result);
          returned = rw (e, reap, told.returned, b) refl;
          keeps = Keeps-trans told.keeps flagged;
        }
      ]
