-- ===== src/Bytecode/Utf8.antt =====
-- UTF-8, as `core::str::from_utf8` accepts it: shortest forms only, no surrogates, at most U+10FFFF.
use yggdrasil.Prelude.{
  ℕ, zero, suc, ◌-◌, Bool, true, false, ◌&&◌, Option, none, some, List, [], ◌∷◌, leb, ◌==◌,
  if◌then◌else◌,
}

between : ℕ → ℕ → ℕ → Bool
between lo hi b = leb lo b && leb b hi

-- a continuation byte
tail_byte : ℕ → Bool
unfolding between
tail_byte = between 0x80 0xbf

-- the second byte of a sequence of three or four, which its first byte narrows
second_of_three : ℕ → ℕ → Bool
unfolding between
second_of_three a b =
    if a == 0xe0
    then between 0xa0 0xbf b
    else (if a == 0xed then between 0x80 0x9f b else between 0x80 0xbf b)

second_of_four : ℕ → ℕ → Bool
unfolding between
second_of_four a b =
    if a == 0xf0
    then between 0x90 0xbf b
    else (if a == 0xf4 then between 0x80 0x8f b else between 0x80 0xbf b)

-- What the next byte has to be: a first byte, or one of `n` continuation bytes, of which the first
-- must pass a test of its own.
pub data Expect : Type 0 where
  first : Expect
  rest : ℕ → Expect
  second : (ℕ → Bool) → ℕ → Expect

after_first : ℕ → Option Expect
unfolding between second_of_three second_of_four
after_first a =
    if leb a 0x7f
    then some first
    else (if between 0xc2 0xdf a
        then some (rest 1)
        else (if between 0xe0 0xef a
            then some (second (second_of_three a) 1)
            else (if between 0xf0 0xf4 a then some (second (second_of_four a) 2) else none)))

continue : ℕ → Expect
continue zero = first
continue (suc n) = rest (suc n)

next : Expect → ℕ → Option Expect
unfolding after_first continue tail_byte
next first b = after_first b
next (rest n) b = if tail_byte b then some (continue (n - 1)) else none
next (second test n) b = if test b then some (rest n) else none

scan : Expect → List ℕ → Bool
unfolding next
scan first [] = true
scan _ [] = false
scan e (b ∷ bs) = elim (next e b) [ none ↦ false | some e' ↦ scan e' bs ]

unfoldable pub is_utf8 : List ℕ → Bool
unfolding scan
is_utf8 bs = scan first bs
