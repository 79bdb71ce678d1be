-- ===== src/Bytecode/Labels.antt =====
-- About `finish` of `CodeBuilder` (crates/ygg-bytecode/src/lib.rs) and its labels.
use mathlib.Core.Path.{subst}
use yggdrasil.Prelude.Int.{pos, ◌+ℤ◌}
use yggdrasil.Bytecode.Builder.{CodeBuilder, lookup, offset_word, patched, patch, resolve, finish}
use yggdrasil.Verify.{as_i32}
use yggdrasil.Prelude.{
  ℕ, zero, suc, ◌+◌, ◌^◌, ◌≤◌, ◌<◌, ◌≡◌, refl, sym, ap, ◌∙◌, true, some, List, [], ◌∷◌, ◌++◌, arith,
  leb, le→leb, length, get_elem?, take, drop, slice, from_le_bytes, to_le_bytes, length-append,
  length-take, length-drop, Outcome, ok, from_to_le_bytes_4,
}

-- Offsets below 2^31 lead from one place to the other.
offset_word-leads :
    (target next : ℕ)
    → target < 2 ^ 31
    → next < 2 ^ 31
    → pos next +ℤ as_i32 (offset_word target next) ≡ pos target
unfolding ◌+ℤ◌
offset_word-leads target next a b = ground arith

drop-take_append {ℓ} :
    {A : Type ℓ} (n : ℕ) (xs ys : List A) → n ≤ length xs → drop n (take n xs ++ ys) ≡ ys
drop-take_append zero xs ys le = refl
drop-take_append (suc n) [] ys le = absurd (omega arith)
drop-take_append (suc n) (x ∷ xs) ys le = drop-take_append n xs ys (omega arith)

-- what `patched` has below the patch, and above it
take-drop-below {ℓ} :
    {A : Type ℓ} (q k p : ℕ) (xs ys : List A)
    → q + k ≤ p
    → p ≤ length xs
    → take k (drop q (take p xs ++ ys)) ≡ take k (drop q xs)
take-drop-below zero zero p xs ys le lp = refl
take-drop-below zero (suc k) zero xs ys le lp = absurd (omega arith)
take-drop-below zero (suc k) (suc p) [] ys le lp = absurd (omega arith)
take-drop-below zero (suc k) (suc p) (x ∷ xs) ys le lp =
    ap (λ l. x ∷ l) (take-drop-below zero k p xs ys (omega arith) (omega arith))
take-drop-below (suc q) k zero xs ys le lp = absurd (omega arith)
take-drop-below (suc q) k (suc p) [] ys le lp = absurd (omega arith)
take-drop-below (suc q) k (suc p) (x ∷ xs) ys le lp =
    take-drop-below q k p xs ys (omega arith) (omega arith)

length-patched :
    (p v : ℕ) (code : List ℕ)
    → p + 4 ≤ length code
    → length (patched p (to_le_bytes 4 v) code) ≡ length code
length-patched p v code le = omega (
  arith,
  length-append (take p code) (to_le_bytes 4 v ++ drop (p + 4) code),
  length-append (to_le_bytes 4 v) (drop (p + 4) code),
  length-take p code,
  length-drop (p + 4) code,
)

slice-patched :
    (p v : ℕ) (code : List ℕ)
    → p + 4 ≤ length code
    → slice (patched p (to_le_bytes 4 v) code) p 4 ≡ some (to_le_bytes 4 v)
slice-patched p v code le =
    let l = length-patched p v code le in
    let inside : leb (p + 4) (length (patched p (to_le_bytes 4 v) code)) ≡ true =
      le→leb _ _ (omega arith) in
    rw inside (
      ap (λ l. some (take 4 l))
        (drop-take_append p code (to_le_bytes 4 v ++ drop (p + 4) code) (omega arith)))

slice-patched_below :
    (q p v : ℕ) (code : List ℕ)
    → q + 4 ≤ p
    → p + 4 ≤ length code
    → slice (patched p (to_le_bytes 4 v) code) q 4 ≡ slice code q 4
slice-patched_below q p v code le lp =
    let l = length-patched p v code lp in
    let a : leb (q + 4) (length (patched p (to_le_bytes 4 v) code)) ≡ true =
      le→leb _ _ (omega arith) in
    let b : leb (q + 4) (length code) ≡ true = le→leb _ _ (omega arith) in
    rw (a, b)
      (ap some (take-drop-below q 4 p code (to_le_bytes 4 v ++ drop (p + 4) code) le (omega arith)))

-- The references stand one after the other, from `lo` on, within code of `n` bytes.
abbrev pub Placed : (lo n : ℕ) → List (ℕ × ℕ) → Type 0
Placed lo n [] = Unit
Placed lo n ((p, label) ∷ fs) = (lo ≤ p) × (p + 4 ≤ n) × Placed (p + 4) n fs

-- The label of each reference has a place below 2^31.
abbrev pub Bound : (labels fixups : List (ℕ × ℕ)) → Type 0
Bound labels [] = Unit
Bound labels ((p, label) ∷ fs) =
    ((t : ℕ) × (lookup labels label ≡ some t) × (t < 2 ^ 31)) × Bound labels fs

-- The offset that the code has at `p` leads from the next byte to `t`.
abbrev pub Leads : (code : List ℕ) (p t : ℕ) → Type 0
Leads code p t =
    (w : List ℕ) × (slice code p 4 ≡ some w) × (pos (p + 4) +ℤ as_i32 (from_le_bytes w) ≡ pos t)

-- What resolving the references has done to the code.
pub record Resolved (labels : List (ℕ × ℕ)) (lo : ℕ) (fs : List (ℕ × ℕ)) (code : List ℕ)
    (o : Outcome ℕ (List ℕ)) : Type 0 where
  pub result : List ℕ
  pub returned : o ≡ ok result
  pub same_length : length result ≡ length code
  pub below : (q : ℕ) → q + 4 ≤ lo → slice result q 4 ≡ slice code q 4
  pub leads :
      (j p label : ℕ)
      → get_elem? fs j ≡ some (p, label)
      → (t : ℕ) × (lookup labels label ≡ some t) × Leads result p t

module _ (labels : List (ℕ × ℕ)) where
  one_more :
      (lo p label t : ℕ) (fs : List (ℕ × ℕ)) (code result : List ℕ)
      → p + 4 ≤ length code
      → length code < 2 ^ 31
      → t < 2 ^ 31
      → lookup labels label ≡ some t
      → ((q : ℕ)
          → q + 4 ≤ p + 4
          → slice result q 4 ≡ slice (patched p (to_le_bytes 4 (offset_word t (p + 4))) code) q 4)
      → ((j p label : ℕ)
          → get_elem? fs j ≡ some (p, label)
          → (t : ℕ) × (lookup labels label ≡ some t) × Leads result p t)
      → (j q l : ℕ) → get_elem? ((p, label) ∷ fs) j ≡ some (q, l)
      → (t : ℕ) × (lookup labels l ≡ some t) × Leads result q t
  one_more lo p label t fs code result le small ts found below rest (suc j) q l e = rest j q l e
  one_more lo p label t fs code result le small ts found below rest zero q l e =
      let same_p : p ≡ q = cc in
      let same_l : label ≡ l = cc in
      let v : ℕ = offset_word t (p + 4) in
      let leads : Leads result p t = (
        to_le_bytes 4 v,
        below p (omega arith) ∙ slice-patched p v code le,
        ap (λ n. pos (p + 4) +ℤ as_i32 n) (from_to_le_bytes_4 v (omega arith))
            ∙ offset_word-leads t (p + 4) ts (omega arith),
      ) in
      (
        t,
        subst (λ l. lookup labels l ≡ some t) same_l found,
        subst (λ q. Leads result q t) same_p leads,
      )

  resolve_lem :
      (lo : ℕ) (fs : List (ℕ × ℕ)) (code : List ℕ)
      → Placed lo (length code) fs
      → Bound labels fs
      → length code < 2 ^ 31
      → Resolved labels lo fs code (resolve labels fs code)
  unfolding resolve patch
  resolve_lem lo [] code pl bo small = record {
    result = code;
    returned = refl;
    same_length = refl;
    below = λ q h. refl;
    leads = λ j p l e. cc;
  }
  resolve_lem lo ((p, label) ∷ fs) code (lp, le, pl) ((t, found, ts), bo) small =
      let v : ℕ = offset_word t (p + 4) in
      let code' : List ℕ = patched p (to_le_bytes 4 v) code in
      let len : length code' ≡ length code = length-patched p v code le in
      let rest =
        resolve_lem (p + 4) fs code' (subst (λ n. Placed (p + 4) n fs) (sym len) pl) bo
          (omega arith) in
      let fits : leb (p + 4) (length code) ≡ true = le→leb _ _ le in
      record {
        result = rest.result;
        returned = rw (found, resolve, fits) rest.returned;
        same_length = rest.same_length ∙ len;
        below = λ q h. rest.below q (omega arith) ∙ slice-patched_below q p v code (omega arith) le;
        leads = one_more lo p label t fs code rest.result le small ts found rest.below rest.leads;
      }

-- `CodeBuilder::finish`, where the references stand one after the other within code shorter than
-- 2^31 bytes and each label has a place below 2^31, returns code of the same length, in which the
-- offset at each reference leads, from the byte after it, to the place of its label.
pub finish_lem :
    (b : CodeBuilder)
    → Placed 0 (length b.code) b.fixups
    → Bound b.labels b.fixups
    → length b.code < 2 ^ 31
    → Resolved b.labels 0 b.fixups b.code (finish b)
unfolding finish
finish_lem b pl bo small = resolve_lem b.labels 0 b.fixups b.code pl bo small
