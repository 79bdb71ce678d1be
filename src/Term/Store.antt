-- ===== src/Term/Store.antt =====
-- Memory as bytes, and the words that the term crate reads and writes in it.
use yggdrasil.Prelude.{
  ℕ, zero, suc, ◌+◌, ◌-◌, ◌&&◌, List, [], ◌∷◌, ltb, leb, if◌then◌else◌, length, get_or,
  from_le_bytes, to_le_bytes,
}

-- the byte at each address
abbrev pub Memory : Type 0
Memory = ℕ → ℕ

unfoldable pub read_bytes : Memory → (p n : ℕ) → List ℕ
read_bytes m p zero = []
read_bytes m p (suc n) = m p ∷ read_bytes m (p + 1) n

unfoldable pub write_bytes : Memory → (p : ℕ) → List ℕ → Memory
write_bytes m p bs a = if leb p a && ltb a (p + length bs) then get_or bs (a - p) 0 else m a

-- `*p` and `p.write(w)` of a u64
unfoldable pub read_word : Memory → ℕ → ℕ
unfolding read_bytes
read_word m p = from_le_bytes (read_bytes m p 8)

unfoldable pub write_word : Memory → (p w : ℕ) → Memory
unfolding write_bytes
write_word m p w = write_bytes m p (to_le_bytes 8 w)

-- consecutive words from `p` on
unfoldable pub read_words : Memory → (p n : ℕ) → List ℕ
unfolding read_word
read_words m p zero = []
read_words m p (suc n) = read_word m p ∷ read_words m (p + 8) n

unfoldable pub write_words : Memory → (p : ℕ) → List ℕ → Memory
unfolding write_word
write_words m p [] = m
write_words m p (w ∷ ws) = write_words (write_word m p w) (p + 8) ws
