-- ===== src/Ports/Kept.antt =====
-- Lemmas on single changes of the table of buffers (kernel/src/ports.rs).
use yggdrasil.Ports.{Bytes, Buffers, put, end_of, overwrite, write_in, buf_write}
use yggdrasil.Prelude.{
  ℕ, zero, suc, ◌+◌, ◌≤◌, ◌≡◌, refl, sym, ap, ◌∙◌, ◌≢◌, inl, inr, Option, none, some, List, [], ◌∷◌,
  ◌++◌, arith, ltb, ◌==◌, ==_iff, Bool-cases, Option-cases, length, take, drop, length-append,
  length-take, length-drop,
}

pub put_self : (id : ℕ) (d : Option Bytes) (b : Buffers) → (put id d b).table id ≡ d
put_self id d b = rw ((==_iff id id).1 refl) refl

pub put-ne : (id i : ℕ) (d : Option Bytes) (b : Buffers) → i ≢ id → (put id d b).table i ≡ b.table i
put-ne id i d b n = elim (Bool-cases (i == id)) [
  | inl e ↦ absurd (n ((==_iff i id).0 e))
  | inr e ↦ rw e refl
]

-- Where a write fits, the buffer is as long as before.
pub length-overwrite :
    (buf bytes : Bytes) (offset : ℕ)
    → offset + length bytes ≤ length buf
    → length (overwrite buf offset bytes) ≡ length buf
length-overwrite buf bytes offset le = omega (
  arith,
  length-append (take offset buf) (bytes ++ drop (offset + length bytes) buf),
  length-append bytes (drop (offset + length bytes) buf),
  length-take offset buf,
  length-drop (offset + length bytes) buf,
)

pub drop-take_append {ℓ} :
    {A : Type ℓ} (n : ℕ) (xs ys : List A) → n ≤ length xs → drop n (take n xs ++ ys) ≡ ys
drop-take_append zero xs ys le = refl
drop-take_append (suc n) [] ys le = absurd (omega arith)
drop-take_append (suc n) (x ∷ xs) ys le = drop-take_append n xs ys (omega arith)

pub take-append {ℓ} : {A : Type ℓ} (xs ys : List A) → take (length xs) (xs ++ ys) ≡ xs
take-append [] ys = refl
take-append (x ∷ xs) ys = ap (λ l. x ∷ l) (take-append xs ys)

pub end_of-some : (o n end : ℕ) → end_of o n ≡ some end → end ≡ o + n
end_of-some o n end h = ground arith

-- after a write that fits into one buffer, every buffer has a length as before
write-length :
    (id : ℕ) (buf : Bytes) (offset : ℕ) (bytes : Bytes) (b : Buffers)
    → b.table id ≡ some buf
    → offset + length bytes ≤ length buf
    → (i : ℕ) (old : Bytes) → b.table i ≡ some old
    → (new : Bytes) × ((put id (some (overwrite buf offset bytes)) b).table i ≡ some new)
      × (length new ≡ length old)
write-length id buf offset bytes b at le i old e = elim (Bool-cases (i == id)) [
  | inr q ↦ (
    old,
    put-ne id i (some (overwrite buf offset bytes)) b (λ s. cc (sym q ∙ (==_iff i id).1 s)) ∙ e,
    refl,
  )
  | inl q ↦
      let same : i ≡ id = (==_iff i id).0 q in
      let one : buf ≡ old = cc (sym at ∙ ap b.table (sym same) ∙ e) in
      (
        overwrite buf offset bytes,
        ap (put id (some (overwrite buf offset bytes)) b).table same
            ∙ put_self id (some (overwrite buf offset bytes)) b,
        length-overwrite buf bytes offset le ∙ ap length one,
      )
]

-- What a write keeps: pins, numbers, and which buffers there are, with their lengths.
pub record SameShape (b b' : Buffers) : Type 0 where
  pub next : b'.next_buf ≡ b.next_buf
  pub pins : (i : ℕ) → b'.pinned i ≡ b.pinned i
  pub sized :
      (i : ℕ) (old : Bytes)
      → b.table i ≡ some old
      → (new : Bytes) × (b'.table i ≡ some new) × (length new ≡ length old)
  pub absent : (i : ℕ) → b.table i ≡ none → b'.table i ≡ none

SameShape-refl : (b : Buffers) → SameShape b b
SameShape-refl b = record {
  next = refl;
  pins = λ i. refl;
  sized = λ i old e. (old, e, refl);
  absent = λ i e. e;
}

write_in-SameShape :
    (id : ℕ) (buf : Bytes) (offset : ℕ) (bytes : Bytes) (o : Option ℕ) (b : Buffers)
    → b.table id ≡ some buf
    → end_of offset (length bytes) ≡ o
    → SameShape b (write_in id buf offset bytes o b).1
unfolding write_in
write_in-SameShape id buf offset bytes none b at e = SameShape-refl b
write_in-SameShape id buf offset bytes (some end) b at e =
    elim (Bool-cases (ltb (length buf) end)) [
      | inl q ↦ rw (q, write_in) (SameShape-refl b)
      | inr q ↦
          let sum = end_of-some offset (length bytes) end e in
          let inside : end ≤ length buf = ground arith in
          rw (q, write_in)
            (record {
              next = refl;
              pins = λ i. refl;
              sized = write-length id buf offset bytes b at (omega arith);
              absent = λ i no.
                  put-ne id i (some (overwrite buf offset bytes)) b
                    (λ s. cc (sym no ∙ ap b.table s ∙ at))
                  ∙ no;
            })
    ]

pub buf_write-SameShape :
    (id offset : ℕ) (bytes : Bytes) (b : Buffers) → SameShape b (buf_write id offset bytes b).1
unfolding buf_write
buf_write-SameShape id offset bytes b = elim (Option-cases (b.table id)) [
  | inl e ↦ rw (e, buf_write) (SameShape-refl b)
  | inr (buf, e) ↦
      rw (e, buf_write)
        (write_in-SameShape id buf offset bytes (end_of offset (length bytes)) b e refl)
]
