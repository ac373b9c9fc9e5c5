-- ===== src/Archive/Import.antt =====
-- internal/archive/import.go: the stream of a commit to `git fast-import` and its confirmation. The
-- JSON text of the state and the clock are arguments, and the replies of Git are too.
pub mod Paths
pub mod Stream
use picomx.Prelude.{
  ℕ, zero, suc, ◌+◌, ◌-◌, ◌*◌, ◌/◌, ◌%◌, ◌^◌, ◌≤◌, ◌<◌, ◌≡◌, refl, sym, ap, ◌∙◌, subst, ◌≢◌, ◌↔◌,
  ◌⊎◌, inl, inr, Bool, true, false, ◌&&◌, ◌||◌, not, Option, none, some, List, [], ◌∷◌, ◌++◌, map,
  reverse, append_assoc, append-nil, arith, ltb, leb, ◌==◌, if◌then◌else◌, ltb→lt, lt→ltb, leb→le,
  le→leb, ==_iff, Bool-cases, Option-cases, some_inj, unless-eq-some, length, get_elem?, set,
  replicate, take, drop, all, any, length-append, length-map, All, All-append,
}
use picomx.Text.Bytes.{Bytes, codes, bytes_eq}
use picomx.Text.Number.{format_uint}
use picomx.Archive.Errors.{Error, Result, ok, err, ◌>>=◌, ◌>>◌, fail_if}
use picomx.Archive.MessagePath.{Message, message_from_path}
use picomx.Archive.IdPath.{message_relative_path}
use picomx.Archive.Store.{check_some}
use picomx.Archive.Reader.{valid_object_id}

unfoldable pub valid_archive_path : Bytes → Bool
unfolding bytes_eq message_from_path
valid_archive_path path =
    if bytes_eq path (codes "state")
      || bytes_eq path (codes ".gitignore")
      || bytes_eq path (codes ".gitattributes")
    then true
    else elim (message_from_path path) [ none ↦ false | some m ↦ true ]

-- One content with its length before it and a line feed behind it.
unfoldable pub data_command : Bytes → Bytes
data_command content = codes "data " ++ format_uint 10 (length content) ++ 10 ∷ (content ++ 10 ∷ [])

-- A content that is not given is the file of a legacy message; `files` has the files of the archive.
unfoldable pub change_content : (Bytes → Option Bytes) → Bytes × Option Bytes → Result Bytes
change_content files (path, some content) = ok content
change_content files (path, none) = check_some (message_from_path path) Error.not_a_message >>= λ m.
    check_some (message_relative_path m.id) Error.no_path >>= λ legacy.
    check_some (files legacy) Error.io_failed

unfoldable pub change_command : Bytes → Bytes → Bytes
unfolding data_command
change_command path content = codes "M 100644 inline " ++ path ++ 10 ∷ data_command content

unfoldable pub write_changes : (Bytes → Option Bytes) → List (Bytes × Option Bytes) → Result Bytes
unfolding valid_archive_path change_content change_command
write_changes files [] = ok []
write_changes files (c ∷ cs) =
    fail_if (not (valid_archive_path c.0)) Error.no_path
    >> (change_content files c >>= λ content.
        write_changes files cs >>= λ rest. ok (change_command c.0 content ++ rest))

unfoldable pub write_removals : List Bytes → Result Bytes
unfolding valid_archive_path
write_removals [] = ok []
write_removals (path ∷ paths) =
    fail_if (not (valid_archive_path path)) Error.no_path
    >> (write_removals paths >>= λ rest. ok (codes "D " ++ path ++ 10 ∷ rest))

unfoldable pub from_command : Bytes → Bytes
from_command [] = []
from_command (c ∷ head) = codes "from " ++ (c ∷ head) ++ 10 ∷ []

-- What is written about the commit itself.
pub record CommitText : Type 0 where
  pub ref_name : Bytes
  pub mark : ℕ
  pub seconds : ℕ
  pub title : Bytes

unfoldable pub commit_command : CommitText → Bytes → Bytes
unfolding data_command from_command
commit_command t head =
    codes "commit "
    ++ t.ref_name
    ++ (10 ∷ codes "mark :")
    ++ format_uint 10 t.mark
    ++ (10 ∷ codes "committer picomx <picomx@localhost> ")
    ++ format_uint 10 t.seconds
    ++ (codes " +0000" ++ 10 ∷ [])
    ++ data_command t.title
    ++ from_command head

-- The first half of importCommitLocked: all that is written before the mark is asked for. The state
-- is one change more.
unfoldable pub write_commit :
    (Bytes → Option Bytes)
    → CommitText
    → Bytes
    → Bytes
    → List (Bytes × Option Bytes)
    → List Bytes
    → Result Bytes
unfolding commit_command write_changes write_removals
write_commit files t head state_text changes removals =
    write_changes files ((codes "state", some (state_text ++ 10 ∷ [])) ∷ changes) >>= λ files_text.
    write_removals removals >>= λ removals_text. ok (
      commit_command t head
      ++ files_text
      ++ removals_text
      ++ (10 ∷ codes "get-mark :")
      ++ format_uint 10 t.mark
      ++ 10 ∷ [])

-- What Git answers: the line to get-mark, the line to progress, and what HEAD is then.
pub record Replies : Type 0 where
  pub mark_line : Option Bytes
  pub progress_line : Option Bytes
  pub current_head : Option Bytes

-- The second half: the object ID of the commit, once Git has confirmed it three times.
unfoldable pub confirm_commit : Replies → Result Bytes
unfolding valid_object_id bytes_eq
confirm_commit r = check_some r.mark_line Error.import_failed >>= λ next.
    fail_if (not (valid_object_id next)) Error.import_failed
    >> (check_some r.progress_line Error.import_failed >>= λ progress.
        fail_if (not (bytes_eq progress (codes "progress " ++ next))) Error.import_failed
        >> (check_some r.current_head Error.import_failed >>= λ current.
            fail_if (not (bytes_eq current next)) Error.import_failed >> ok next))

-- importCommitLocked: the stream that was written and the new head.
unfoldable pub import_commit_locked :
    (Bytes → Option Bytes)
    → CommitText
    → Bytes
    → Bytes
    → List (Bytes × Option Bytes)
    → List Bytes
    → Replies
    → Result (Bytes × Bytes)
unfolding write_commit confirm_commit
import_commit_locked files t head state_text changes removals r =
    write_commit files t head state_text changes removals >>= λ stream.
    confirm_commit r >>= λ next. ok (stream, next)
