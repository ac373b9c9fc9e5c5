-- ===== src/Archive/MessagePath.antt =====
-- internal/archive/idpath.go: the path of a message with its size in the name, and back.
pub mod RoundTrip
use picomx.Prelude.{
  ℕ, ◌+◌, ◌≡◌, refl, Bool, ◌&&◌, List, [], ◌∷◌, ◌++◌, Option, none, some, if◌then◌else◌, ◌>>=◌,
  drop,
}
use picomx.Text.Bytes.{Bytes, codes, bytes_eq, trim_suffix, has_prefix}
use picomx.Text.Number.{max_uint64, parse_uint, format_uint}
use picomx.Archive.IdPath.{eml, message_relative_path, message_id_from_path}

-- mailbox.go.
pub record Message : Type 0 where
  pub id : ℕ
  pub size : ℕ
  pub path : Bytes

abbrev pub size_mark : Bytes
size_mark = codes "-s"

unfoldable pub message_path : ℕ → ℕ → Option Bytes
message_path id size = message_relative_path id >>= λ path.
    some (trim_suffix path eml ++ (size_mark ++ (format_uint 10 size ++ eml)))

-- strings.LastIndex of the mark, with the text before it and the text behind it.
unfoldable pub cut_last_mark : Bytes → Option (Bytes × Bytes)
unfolding has_prefix
cut_last_mark [] = none
cut_last_mark (c ∷ s) = elim (cut_last_mark s) [
  | some (before, after) ↦ some (c ∷ before, after)
  | none ↦ if has_prefix (c ∷ s) size_mark then some ([], drop 2 (c ∷ s)) else none
]

-- The last test: the path is the one of this ID and size.
unfoldable pub check_message : Bytes → ℕ → ℕ → Option Message
check_message path id size = message_path id size >>= λ expected.
    if bytes_eq expected path then some (record { id = id; size = size; path = path }) else none

unfoldable pub read_parts : Bytes → Bytes × Bytes → Option Message
read_parts path (before, after) = message_id_from_path (before ++ eml) >>= λ id.
    parse_uint 10 max_uint64 after >>= λ size. check_message path id size

unfoldable pub message_from_path : Bytes → Option Message
message_from_path path = cut_last_mark (trim_suffix path eml) >>= read_parts path
