-- ===== src/Term/Tags.antt =====
-- crates/ygg-term/src/lib.rs: the tags of terms, the kinds of boxed objects, and `Kind`.
use yggdrasil.Prelude.{ℕ}

abbrev pub tag_boxed : ℕ
tag_boxed = 0

abbrev pub tag_int : ℕ
tag_int = 1

abbrev pub tag_atom : ℕ
tag_atom = 2

abbrev pub tag_pid : ℕ
tag_pid = 3

abbrev pub tag_ref : ℕ
tag_ref = 4

abbrev pub tag_special : ℕ
tag_special = 5

abbrev pub tag_port : ℕ
tag_port = 6

abbrev pub kind_tuple : ℕ
kind_tuple = 0

abbrev pub kind_cons : ℕ
kind_cons = 1

abbrev pub kind_binary : ℕ
kind_binary = 2

abbrev pub kind_map : ℕ
kind_map = 3

pub data Kind : Type 0 where
  int atom pid ref nil port tuple cons binary map : Kind
