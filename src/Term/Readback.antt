-- ===== src/Term/Readback.antt =====
-- Reading memory back after a write (crates/ygg-term/src/lib.rs writes words through pointers).
use native.Mathlib.Nat.{add-zero}
use yggdrasil.Term.Store.{Memory, read_bytes, write_bytes, read_word, write_word, write_words}
use yggdrasil.Prelude.{
  ℕ, zero, suc, ◌+◌, ◌*◌, ◌^◌, ◌≤◌, ◌<◌, ◌≡◌, refl, sym, ap, ◌∙◌, ◌⊎◌, inl, List, [], ◌∷◌, arith,
  length, get_or, from_le_bytes, to_le_bytes,
}

-- every one of them is a u64
abbrev pub AllWords : List ℕ → Type 0
AllWords [] = Unit
AllWords (w ∷ ws) = (w < 2 ^ 64) × AllWords ws

write_bytes-outside :
    (m : Memory) (p : ℕ) (bs : List ℕ) (a : ℕ)
    → (a < p) ⊎ (p + length bs ≤ a)
    → write_bytes m p bs a ≡ m a
unfolding write_bytes
write_bytes-outside m p bs a h = ground arith

write_bytes-inside :
    (m : Memory) (p : ℕ) (bs : List ℕ) (i : ℕ)
    → i < length bs
    → write_bytes m p bs (p + i) ≡ get_or bs i 0
unfolding write_bytes
write_bytes-inside m p bs i h = ground arith

-- Bytes elsewhere stay.
pub read_bytes-write_bytes_ne :
    (m : Memory) (p : ℕ) (bs : List ℕ) (q n : ℕ)
    → (q + n ≤ p) ⊎ (p + length bs ≤ q)
    → read_bytes (write_bytes m p bs) q n ≡ read_bytes m q n
unfolding read_bytes
read_bytes-write_bytes_ne m p bs q zero h = refl
read_bytes-write_bytes_ne m p bs q (suc n) h = rw (
  write_bytes-outside m p bs q (omega arith),
  read_bytes-write_bytes_ne m p bs (q + 1) n (omega arith),
)

read_bytes-eq :
    (m : Memory) (p : ℕ) (bs : List ℕ)
    → ((i : ℕ) → i < length bs → m (p + i) ≡ get_or bs i 0)
    → read_bytes m p (length bs) ≡ bs
unfolding read_bytes
read_bytes-eq m p [] h = refl
read_bytes-eq m p (b ∷ bs) h =
    let first : m p ≡ b = ap m (sym (add-zero p)) ∙ h 0 (omega arith) in
    rw (
      first,
      read_bytes-eq m (p + 1) bs (λ i lt.
          ap m (let e : p + 1 + i ≡ p + suc i = omega arith in e) ∙ h (suc i) (omega arith)),
    )

-- Bytes are read back.
pub read_bytes-write_bytes_self :
    (m : Memory) (p : ℕ) (bs : List ℕ) → read_bytes (write_bytes m p bs) p (length bs) ≡ bs
read_bytes-write_bytes_self m p bs =
    read_bytes-eq (write_bytes m p bs) p bs (write_bytes-inside m p bs)

from_to_le_bytes_8 : (w : ℕ) → w < 2 ^ 64 → from_le_bytes (to_le_bytes 8 w) ≡ w
from_to_le_bytes_8 w h = omega arith

-- A word is read back, and a word elsewhere stays.
pub read_word-write_word_self :
    (m : Memory) (p w : ℕ) → w < 2 ^ 64 → read_word (write_word m p w) p ≡ w
unfolding read_word write_word
read_word-write_word_self m p w h =
    ap from_le_bytes (read_bytes-write_bytes_self m p (to_le_bytes 8 w)) ∙ from_to_le_bytes_8 w h

pub read_word-write_word_ne :
    (m : Memory) (p w q : ℕ)
    → (q + 8 ≤ p) ⊎ (p + 8 ≤ q)
    → read_word (write_word m p w) q ≡ read_word m q
unfolding read_word write_word
read_word-write_word_ne m p w q h =
    ap from_le_bytes (read_bytes-write_bytes_ne m p (to_le_bytes 8 w) q 8 h)

-- Words elsewhere than at the `length ws` words from `p` on stay.
pub read_word-write_words_ne :
    (m : Memory) (p : ℕ) (ws : List ℕ) (q : ℕ)
    → (q + 8 ≤ p) ⊎ (p + 8 * length ws ≤ q)
    → read_word (write_words m p ws) q ≡ read_word m q
unfolding write_words
read_word-write_words_ne m p [] q h = refl
read_word-write_words_ne m p (w ∷ ws) q h =
    read_word-write_words_ne (write_word m p w) (p + 8) ws q (omega arith)
    ∙ read_word-write_word_ne m p w q (omega arith)

-- Each of them is read back.
pub read_word-write_words :
    (m : Memory) (p : ℕ) (ws : List ℕ) (i : ℕ)
    → AllWords ws
    → i < length ws
    → read_word (write_words m p ws) (p + 8 * i) ≡ get_or ws i 0
unfolding write_words
read_word-write_words m p (w ∷ ws) zero (fits, rest) lt =
    ap (read_word (write_words (write_word m p w) (p + 8) ws))
      (let e : p + 8 * 0 ≡ p = omega arith in e)
    ∙ read_word-write_words_ne (write_word m p w) (p + 8) ws p (inl (omega arith))
    ∙ read_word-write_word_self m p w fits
read_word-write_words m p (w ∷ ws) (suc i) (fits, rest) lt =
    ap (read_word (write_words (write_word m p w) (p + 8) ws))
      (let e : p + 8 * suc i ≡ p + 8 + 8 * i = omega arith in e)
    ∙ read_word-write_words (write_word m p w) (p + 8) ws i rest (omega arith)
read_word-write_words m p [] i fits lt = elim lt [ ]
