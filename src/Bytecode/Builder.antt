-- ===== src/Bytecode/Builder.antt =====
-- `CodeBuilder` (crates/ygg-bytecode/src/lib.rs): code with labels, whose references are patched.
use yggdrasil.Prelude.{
  ℕ, ◌+◌, ◌-◌, ◌%◌, ◌^◌, Option, none, some, List, [], ◌∷◌, ◌++◌, leb, ◌==◌, if◌then◌else◌, length,
  take, drop, to_le_bytes, Outcome, ok, panic, ok_or, ◌>>=◌,
}

-- `labels` is the map as a list, the newest entry first.
pub record CodeBuilder : Type 0 where
  pub code : List ℕ
  pub fixups : List (ℕ × ℕ)
  pub labels : List (ℕ × ℕ)

unfoldable pub new : CodeBuilder
new = record { code = []; fixups = []; labels = [] }

unfoldable pub bytes : List ℕ → CodeBuilder → CodeBuilder
bytes v b = record b { code = b.code ++ v }

unfoldable pub u8 : ℕ → CodeBuilder → CodeBuilder
u8 v b = record b { code = b.code ++ v ∷ [] }

unfoldable pub u32 : ℕ → CodeBuilder → CodeBuilder
u32 v b = record b { code = b.code ++ to_le_bytes 4 v }

-- an i64, as its word
unfoldable pub i64 : ℕ → CodeBuilder → CodeBuilder
i64 v b = record b { code = b.code ++ to_le_bytes 8 v }

unfoldable pub label_ref : ℕ → CodeBuilder → CodeBuilder
label_ref label b = record b {
  fixups = b.fixups ++ (length b.code, label) ∷ [];
  code = b.code ++ to_le_bytes 4 0;
}

unfoldable pub bind : ℕ → CodeBuilder → CodeBuilder
bind label b = record b { labels = (label, length b.code) ∷ b.labels }

-- `labels.get(&label)`
abbrev pub lookup : List (ℕ × ℕ) → ℕ → Option ℕ
lookup [] label = none
lookup ((l, at) ∷ rest) label = if l == label then some at else lookup rest label

-- `(target as i64 - next as i64) as i32`, as its word
abbrev pub offset_word : (target next : ℕ) → ℕ
offset_word target next = (target + (2 ^ 32 - next % 2 ^ 32)) % 2 ^ 32

-- `code[pos..pos + 4].copy_from_slice(w)`
abbrev pub patched : (pos : ℕ) → List ℕ → List ℕ → List ℕ
patched pos w code = take pos code ++ (w ++ drop (pos + 4) code)

unfoldable pub patch : (pos : ℕ) → List ℕ → List ℕ → Outcome ℕ (List ℕ)
patch pos w code = if leb (pos + 4) (length code) then ok (patched pos w code) else panic

unfoldable pub resolve : (labels fixups : List (ℕ × ℕ)) → List ℕ → Outcome ℕ (List ℕ)
unfolding patch
resolve labels [] code = ok code
resolve labels ((pos, label) ∷ fixups) code = do
  target ← ok_or (lookup labels label) label
  code' ← patch pos (to_le_bytes 4 (offset_word target (pos + 4))) code
  resolve labels fixups code'

unfoldable pub finish : CodeBuilder → Outcome ℕ (List ℕ)
unfolding resolve
finish b = resolve b.labels b.fixups b.code
