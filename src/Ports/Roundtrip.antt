-- ===== src/Ports/Roundtrip.antt =====
-- About writing into a buffer and reading from it (kernel/src/ports.rs).
use mathlib.Core.Path.{subst}
use yggdrasil.Ports.{Bytes, Buffers, put, end_of, overwrite, write_in, buf_write, read_in, buf_read}
use yggdrasil.Ports.Kept.{put_self, length-overwrite, drop-take_append, take-append, end_of-some}
use yggdrasil.Prelude.{
  ℕ, ◌+◌, ◌≤◌, ◌≡◌, refl, sym, ap, ◌∙◌, inl, inr, true, false, Option, none, some, arith, ltb,
  Bool-cases, Option-cases, ◌++◌, length, take, drop,
}

read-some :
    (id offset len : ℕ) (buf : Bytes) (b : Buffers)
    → b.table id ≡ some buf
    → buf_read id offset len b ≡ read_in buf offset len (end_of offset len)
unfolding buf_read
read-some id offset len buf b e = rw (e, buf_read) refl

read_in-some :
    (buf : Bytes) (offset len end : ℕ)
    → ltb (length buf) end ≡ false
    → read_in buf offset len (some end) ≡ some (take len (drop offset buf))
unfolding read_in
read_in-some buf offset len end e = rw (e, read_in) refl

write_in-read :
    (id : ℕ) (buf : Bytes) (offset : ℕ) (bytes : Bytes) (o : Option ℕ) (b b' : Buffers)
    → end_of offset (length bytes) ≡ o
    → write_in id buf offset bytes o b ≡ (true, b')
    → buf_read id offset (length bytes) b' ≡ some bytes
unfolding write_in
write_in-read id buf offset bytes none b b' e h = cc
write_in-read id buf offset bytes (some end) b b' e h = elim (Bool-cases (ltb (length buf) end)) [
  | inl q ↦
      let no : write_in id buf offset bytes (some end) b ≡ (false, b) = rw (q, write_in) refl in
      cc (sym no ∙ h)
  | inr q ↦
      let yes : write_in id buf offset bytes (some end) b
          ≡ (true, put id (some (overwrite buf offset bytes)) b) =
        rw (q, write_in) refl in
      let same : put id (some (overwrite buf offset bytes)) b ≡ b' = ap (λ p. p.1) (sym yes ∙ h) in
      let sum = end_of-some offset (length bytes) end e in
      let inside : end ≤ length buf = ground arith in
      let long : length (overwrite buf offset bytes) ≡ length buf =
        length-overwrite buf bytes offset (omega arith) in
      let fits : ltb (length (overwrite buf offset bytes)) end ≡ false = rw long q in
      subst (λ b. buf_read id offset (length bytes) b ≡ some bytes) same
        (read-some id offset (length bytes) (overwrite buf offset bytes)
            (put id (some (overwrite buf offset bytes)) b)
            (put_self id (some (overwrite buf offset bytes)) b)
          ∙ ap (read_in (overwrite buf offset bytes) offset (length bytes)) e
          ∙ read_in-some (overwrite buf offset bytes) offset (length bytes) end fits
          ∙ ap (λ l. some (take (length bytes) l))
              (drop-take_append offset buf (bytes ++ drop (offset + length bytes) buf)
                (omega arith))
          ∙ ap some (take-append bytes (drop (offset + length bytes) buf)))
]

-- What a write into a buffer that succeeds has written is read back at the same offset.
pub write-read :
    (id offset : ℕ) (bytes : Bytes) (b b' : Buffers)
    → buf_write id offset bytes b ≡ (true, b')
    → buf_read id offset (length bytes) b' ≡ some bytes
unfolding buf_write
write-read id offset bytes b b' h = elim (Option-cases (b.table id)) [
  | inl e ↦
      let no : buf_write id offset bytes b ≡ (false, b) = rw (e, buf_write) refl in cc (sym no ∙ h)
  | inr (buf, e) ↦
      let here : buf_write id offset bytes b
          ≡ write_in id buf offset bytes (end_of offset (length bytes)) b =
        rw (e, buf_write) refl in
      write_in-read id buf offset bytes (end_of offset (length bytes)) b b' refl (sym here ∙ h)
]
