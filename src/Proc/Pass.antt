-- ===== src/Proc/Pass.antt =====
-- About one pass of the loop of `recv_where` (kernel/src/proc.rs).
use yggdrasil.Term.{Term}
use yggdrasil.Term.Store.{Memory}
use yggdrasil.Term.Heap.{Heap}
use yggdrasil.Term.Copy.{copy_term}
use yggdrasil.Term.Shapes.{Away, Data}
use yggdrasil.FrameBitmap.{FrameBitmap, Run}
use yggdrasil.FrameBitmap.View.{IsValid}
use yggdrasil.Proc.Quota.{IsWithin}
use yggdrasil.Proc.Receive.{
  bump_of, Scan, matched, no_match, quota_death, Arena, scan, Received, killed, got, wait, conclude,
  remove_at, receive_alive, receive_by, recv_pass,
}
use yggdrasil.Proc.{Pid, State, Process, Kernel, insert, is_dead, Fragment}
use yggdrasil.Proc.Inv.{put_self}
use yggdrasil.Prelude.{
  ◌*◌, ℕ, ◌≡◌, ◌≢◌, leb, refl, ap, ◌∙◌, ◌+◌, inl, inr, Bool, true, false, Option, none, some, arith,
  Bool-cases, get_elem?, ok, ◌>>=◌,
}
use yggdrasil.Proc.Scan.{Given, FreeApart, Scanned, scanned, scan_lem}

-- The process was given a copy of message `index` of `p`, which has left its mailbox.
pub record Taken (fuel : ℕ) (pred : Memory → Term → Bool) (p q : Process) (c : Term) (k' : Kernel)
    : Type 0 where
  pub index : ℕ
  pub frag : Fragment
  pub at : get_elem? p.mailbox index ≡ some frag
  pub before : Heap
  pub after : Heap
  pub copied : copy_term fuel frag.root before ≡ ok (c, after)
  pub satisfies : pred after.mem c ≡ true
  pub mem : k'.mem ≡ after.mem
  pub cur : q.heap.cur ≡ bump_of after
  pub mailbox : q.mailbox ≡ remove_at index p.mailbox

-- What a pass of `recv_where` has done to the process.
pub record PassDone (fuel : ℕ) (pred : Memory → Term → Bool) (x : Pid) (p : Process) (r : Received)
    (k' : Kernel) : Type 0 where
  pub process : Process
  pub there : k'.table x ≡ some process
  pub within : IsWithin process.heap
  pub taken : (c : Term) → r ≡ got c → Taken fuel pred p process c k'
  pub others : ((c : Term) → r ≢ got c) → process.mailbox ≡ p.mailbox

abbrev term_of : Received → Term
term_of (got c) = c
term_of _ = 0

wait-there :
    (x : Pid) (deadline : Option ℕ) (k : Kernel)
    → ((wait x deadline k).1.table x ≡ k.table x) × ((c : Term) → (wait x deadline k).0 ≢ got c)
unfolding wait
wait-there x none k = (refl, λ c e. cc)
wait-there x (some d) k = elim (Bool-cases (leb d k.ticks)) [
  | inl e ↦ rw (e, wait) (refl, λ c e. cc)
  | inr e ↦ rw (e, wait) (refl, λ c e. cc)
]

-- a pass that returns, and what it has done
pub data Passed (fuel : ℕ) (pred : Memory → Term → Bool) (x : Pid) (p : Process)
    : Run ((Received × Kernel) × FrameBitmap) → Type 0 where
  passed :
      (r : Received) (k' : Kernel) (pmm' : FrameBitmap)
      → IsValid pmm'
      → PassDone fuel pred x p r k'
      → Passed fuel pred x p (ok ((r, k'), pmm'))

module _ (hhdm fuel : ℕ) (pred : Memory → Term → Bool) (x : Pid) (p : Process) (deadline : Option ℕ)
    (k : Kernel) (pmm : FrameBitmap) (Mine : ℕ → Type 0) where
  conclude-PassDone :
      (r : Scan) (a : Arena)
      → IsWithin a.heap
      → ((j : ℕ) (c : Term)
          → r ≡ matched j c
          → (d : ℕ) × (j ≡ 0 + d) × Given fuel pred p.mailbox d c a)
      → PassDone fuel pred x p
          (conclude x (record p { heap = a.heap }) deadline r (record k { mem = a.mem })).0
          (conclude x (record p { heap = a.heap }) deadline r (record k { mem = a.mem })).1
  unfolding conclude
  conclude-PassDone (matched i c) a w h =
      let q : Process = record p { heap = a.heap; mailbox = remove_at i p.mailbox } in
      record {
        process = q;
        there = put_self x (some q) (record k { mem = a.mem });
        within = w;
        taken = λ c' e.
            let (d, num, v) = h i c refl in
            let same : c ≡ c' = ap term_of e in
            record {
              index = d;
              frag = v.frag;
              at = v.at;
              before = v.before;
              after = v.after;
              copied = v.copied ∙ ap (λ t. ok (t, v.after)) same;
              satisfies = rw (← same) v.satisfies;
              mem = v.mem;
              cur = v.cur;
              mailbox =
                  ap (λ n. remove_at n p.mailbox) (num ∙ (let z : 0 + d ≡ d = omega arith in z));
            };
        others = λ other. absurd (other c refl);
      }
  conclude-PassDone quota_death a w h = record {
    process = record p { heap = a.heap };
    there = put_self x (some (record p { heap = a.heap })) (record k { mem = a.mem });
    within = w;
    taken = λ d e. cc;
    others = λ _. refl;
  }
  conclude-PassDone no_match a w h =
      let q : Process = record p { heap = a.heap } in
      let (at, nothing) = wait-there x deadline (insert x q (record k { mem = a.mem })) in
      record {
        process = q;
        there = at ∙ put_self x (some q) (record k { mem = a.mem });
        within = w;
        taken = λ d e. absurd (nothing d e);
        others = λ _. refl;
      }

  after_scan-Passed :
      (r : Run (Scan × Arena))
      → Scanned hhdm fuel pred k.mem Mine 0 p.mailbox r
      → Passed fuel pred x p (
          r >>= λ (r, a).
          ok (conclude x (record p { heap = a.heap }) deadline r (record k { mem = a.mem }), a.pmm))
  after_scan-Passed r₀ (scanned r a g h) =
      passed _ _ a.pmm g.frames (conclude-PassDone r a g.within h)

  receive_by-Passed :
      (pending gone : Bool)
      → k.table x ≡ some p
      → IsWithin p.heap
      → IsValid pmm
      → Scanned hhdm fuel pred k.mem Mine 0 p.mailbox
          (scan hhdm fuel pred 0 p.mailbox (record { heap = p.heap; mem = k.mem; pmm = pmm }))
      → Passed fuel pred x p (receive_by hhdm fuel pred x p pending gone deadline k pmm)
  unfolding receive_by receive_alive
  receive_by-Passed true gone at w v s =
      let q : Process = record p { state = State.dead } in
      passed killed (insert x q k) pmm v (record {
        process = q;
        there = put_self x (some q) k;
        within = w;
        taken = λ c e. cc;
        others = λ _. refl;
      })
  receive_by-Passed false true at w v s =
      passed killed k pmm v
        (record { process = p; there = at; within = w; taken = λ c e. cc; others = λ _. refl })
  receive_by-Passed false false at w v s =
      after_scan-Passed
        (scan hhdm fuel pred 0 p.mailbox (record { heap = p.heap; mem = k.mem; pmm = pmm })) s

  -- One pass of `recv_where` of a process that is in the table returns, if its heap is within its
  -- quota, the frame bitmap valid, and the messages well-formed terms that the fuel of the copies
  -- is enough for, of which no word lies in the heap or in free frames. A term that it gives is the
  -- copy of a message, satisfies the predicate, and stands in the heap of the process, and that
  -- message and no other has left the mailbox; when it gives none the mailbox is as it was. The
  -- heap is within its quota and the frame bitmap valid.
  pub recv_pass_lem :
      k.table x ≡ some p
      → IsWithin p.heap
      → IsValid pmm
      → ((j : ℕ) (frag : Fragment)
          → get_elem? p.mailbox j ≡ some frag
          → Data k.mem Mine fuel frag.root)
      → ((q : ℕ) → Mine q → Away p.heap.cur.base (p.heap.cur.base + 8 * p.heap.cur.cap_words) q)
      → FreeApart hhdm Mine pmm
      → Passed fuel pred x p (recv_pass hhdm fuel pred x deadline k pmm)
  unfolding recv_pass
  recv_pass_lem at w v whole apart clear =
      rw (at, recv_pass)
        (receive_by-Passed p.kill_pending (is_dead p.state) at w v (
          scan_lem hhdm fuel pred k.mem Mine 0 p.mailbox
            (record { heap = p.heap; mem = k.mem; pmm = pmm }) whole
            (record {
              within = w;
              frames = v;
              apart = apart;
              agree = λ q mine. refl;
              clear = clear;
            })))
