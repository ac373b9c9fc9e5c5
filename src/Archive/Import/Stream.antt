-- ===== src/Archive/Import/Stream.antt =====
-- internal/archive/import.go: a reader of the stream finds exactly the files that were written.
use picomx.Prelude.{
  ℕ, zero, suc, ◌≤◌, ◌≡◌, refl, sym, ap, ◌∙◌, subst, Bool, true, false, not, Option, none, some,
  List, [], ◌∷◌, ◌++◌, append_assoc, arith, ltb, ◌==◌, if◌then◌else◌, ==_iff, length, take, drop,
  length-append, All,
}
use picomx.Text.Bytes.{Bytes, Lacks, codes, cut, bytes_eq, bytes_eq→eq}
use picomx.Text.Number.{max_uint64, format_uint, format-Lacks, parse_uint, parse-format}
use picomx.Archive.Errors.{Error, ok, >>=-eq-ok, fail_if-eq-ok, ok_inj}
use picomx.Archive.Store.{check_some}
use picomx.Archive.Store.Publication.{check_some-ok}
use picomx.Archive.Reader.{valid_object_id}
use picomx.Archive.Reader.Framing.{cut-append}
use picomx.Archive.Import.{
  valid_archive_path, data_command, change_content, change_command, write_changes, Replies,
  confirm_commit, message_from_path, message_relative_path,
}
use picomx.Archive.Import.Paths.{valid_archive_path-IsLine}

-- What stands behind a word, if a text begins with it.
unfoldable pub behind : Bytes → Bytes → Option Bytes
behind [] s = some s
behind (w ∷ ws) [] = none
behind (w ∷ ws) (c ∷ s) = if c == w then behind ws s else none

-- The reader of fast-import, as git documents its commands `data` and `M`.
unfoldable pub take_data : ℕ → Bytes → Option (Bytes × Bytes)
take_data n s =
    if ltb (length s) n
    then none
    else elim (drop n s) [ [] ↦ none | c ∷ rest ↦ if c == 10 then some (take n s, rest) else none ]

unfoldable pub read_size : Option (Bytes × Bytes) → Option (Bytes × Bytes)
unfolding take_data
read_size none = none
read_size (some (digits, rest)) = elim (parse_uint 10 max_uint64 digits) [
  | none ↦ none
  | some n ↦ take_data n rest
]

unfoldable pub read_data : Bytes → Option (Bytes × Bytes)
unfolding behind read_size
read_data s = elim (behind (codes "data ") s) [ none ↦ none | some t ↦ read_size (cut 10 t) ]

unfoldable pub with_path : Bytes → Option (Bytes × Bytes) → Option ((Bytes × Bytes) × Bytes)
with_path path none = none
with_path path (some (content, rest)) = some ((path, content), rest)

unfoldable pub read_file : Option (Bytes × Bytes) → Option ((Bytes × Bytes) × Bytes)
unfolding with_path read_data
read_file none = none
read_file (some (path, rest)) = with_path path (read_data rest)

unfoldable pub read_change : Bytes → Option ((Bytes × Bytes) × Bytes)
unfolding behind read_file
read_change s = elim (behind (codes "M 100644 inline ") s) [
  | none ↦ none
  | some t ↦ read_file (cut 10 t)
]

unfoldable pub add_file :
    (Bytes × Bytes) → Option (List (Bytes × Bytes) × Bytes) → Option (List (Bytes × Bytes) × Bytes)
add_file file none = none
add_file file (some (files, rest)) = some (file ∷ files, rest)

unfoldable pub read_changes : ℕ → Bytes → Option (List (Bytes × Bytes) × Bytes)
unfolding read_change add_file
read_changes zero s = some ([], s)
read_changes (suc n) s = elim (read_change s) [
  | none ↦ none
  | some p ↦ add_file p.0 (read_changes n p.1)
]

behind-append : (w s : Bytes) → behind w (w ++ s) ≡ some s
unfolding behind
behind-append [] s = refl
behind-append (c ∷ w) s = rw ((==_iff c c).1 refl) (behind-append w s)

drop_all : (x t : Bytes) → drop (length x) (x ++ t) ≡ t
drop_all [] t = refl
drop_all (c ∷ x) t = drop_all x t

take_all : (x t : Bytes) → take (length x) (x ++ t) ≡ x
take_all [] t = refl
take_all (c ∷ x) t = ap (λ l. c ∷ l) (take_all x t)

long_enough : (x t : Bytes) → ltb (length (x ++ t)) (length x) ≡ false
long_enough x t = rw (length-append x t) (ground arith)

take_data-append :
    (content rest : Bytes)
    → take_data (length content) (content ++ 10 ∷ rest) ≡ some (content, rest)
unfolding take_data
take_data-append content rest =
    rw
      (
        take_data,
        long_enough content (10 ∷ rest),
        drop_all content (10 ∷ rest),
        take_all content (10 ∷ rest),
      )
      refl

size_read :
    (content rest : Bytes)
    → length content ≤ max_uint64
    → read_size (some (format_uint 10 (length content), content ++ 10 ∷ rest))
      ≡ some (content, rest)
unfolding read_size
size_read content rest h =
    rw
      (
        read_size,
        parse-format 10 max_uint64 (length content) (omega arith) (omega arith) h h,
        take_data-append content rest,
      )
      refl

read_data-command :
    (content rest : Bytes)
    → length content ≤ max_uint64
    → read_data (data_command content ++ rest) ≡ some (content, rest)
unfolding read_data data_command behind
read_data-command content rest h =
    let size = format_uint 10 (length content) in
    ap (λ t. read_size (cut 10 t))
      (append_assoc size (10 ∷ (content ++ 10 ∷ [])) rest
        ∙ ap (λ t. size ++ 10 ∷ t) (append_assoc content (10 ∷ []) rest))
    ∙ ap read_size (
        cut-append 10 size (content ++ 10 ∷ rest)
          (format-Lacks 10 10 (length content) (omega arith)))
    ∙ size_read content rest h

read_change-command :
    (path content rest : Bytes)
    → Lacks 10 path
    → length content ≤ max_uint64
    → read_change (change_command path content ++ rest) ≡ some ((path, content), rest)
unfolding read_change change_command behind read_file with_path
read_change-command path content rest hp h =
    ap (λ t. read_file (cut 10 t)) (append_assoc path (10 ∷ data_command content) rest)
    ∙ ap read_file (cut-append 10 path (data_command content ++ rest) hp)
    ∙ ap (with_path path) (read_data-command content rest h)

-- The files of a commit with their contents, and each fits in memory.
abbrev pub Resolved :
    (Bytes → Option Bytes) → List (Bytes × Option Bytes) → List (Bytes × Bytes) → Type 0
Resolved files [] [] = Unit
Resolved files [] (p ∷ ps) = ⊥
Resolved files (c ∷ cs) [] = ⊥
Resolved files (c ∷ cs) ((path, content) ∷ ps) =
    (c.0 ≡ path)
    × (change_content files c ≡ ok content)
    × (valid_archive_path path ≡ true)
    × Resolved files cs ps

not-false : (b : Bool) → not b ≡ false → b ≡ true
not-false true h = refl
not-false false h = cc

step :
    (n : ℕ) (path content rest : Bytes)
    → Lacks 10 path
    → length content ≤ max_uint64
    → read_changes (suc n) (change_command path content ++ rest)
      ≡ add_file (path, content) (read_changes n rest)
unfolding read_changes
step n path content rest hp h = rw (read_changes, read_change-command path content rest hp h) refl

content_fits :
    (files : Bytes → Option Bytes) (c : Bytes × Option Bytes) (content : Bytes)
    → ((path content : Bytes) → files path ≡ some content → length content ≤ max_uint64)
    → ((content : Bytes) → c.1 ≡ some content → length content ≤ max_uint64)
    → change_content files c ≡ ok content
    → length content ≤ max_uint64
unfolding change_content
content_fits files (path, some given) content small fit h = fit content (ap some (ok_inj h))
content_fits files (path, none) content small fit h =
    let (m, _, h1) = >>=-eq-ok (check_some (message_from_path path) Error.not_a_message) _ h in
    let (legacy, _, h2) = >>=-eq-ok (check_some (message_relative_path m.id) Error.no_path) _ h1 in
    small legacy content (check_some-ok (files legacy) Error.io_failed h2)

-- A text of changes that was written: a reader finds the paths with their contents, in order, and
-- goes on right behind them, whatever the contents are.
pub read_changes-write :
    (files : Bytes → Option Bytes) (cs : List (Bytes × Option Bytes)) (text rest : Bytes)
    → write_changes files cs ≡ ok text
    → ((path content : Bytes) → files path ≡ some content → length content ≤ max_uint64)
    → All (λ c. (content : Bytes) → c.1 ≡ some content → length content ≤ max_uint64) cs
    → (found : List (Bytes × Bytes)) × Resolved files cs found
      × (read_changes (length cs) (text ++ rest) ≡ some (found, rest))
unfolding write_changes read_changes
read_changes-write files [] text rest h small fits =
    ([], tt, ap (λ t. some ([], t ++ rest)) (sym (ok_inj h)))
read_changes-write files (c ∷ cs) text rest h small (fit, fits) =
    let (valid, h1) = fail_if-eq-ok (not (valid_archive_path c.0)) Error.no_path h in
    let (content, got, h2) = >>=-eq-ok (change_content files c) _ h1 in
    let (more, tail, last) = >>=-eq-ok (write_changes files cs) _ h2 in
    let (found, resolved, run) = read_changes-write files cs more rest tail small fits in
    let path_ok = not-false (valid_archive_path c.0) valid in
    (
      (c.0, content) ∷ found,
      (refl, got, path_ok, resolved),
      ap (λ t. read_changes (suc (length cs)) (t ++ rest)) (sym (ok_inj last))
          ∙ ap (read_changes (suc (length cs)))
              (append_assoc (change_command c.0 content) more rest)
          ∙ step (length cs) c.0 content (more ++ rest) (valid_archive_path-IsLine c.0 path_ok)
              (content_fits files c content small fit got)
          ∙ ap (add_file (c.0, content)) run,
    )

abbrev IsConfirmed : Replies → Bytes → Type 0
IsConfirmed r next =
    (r.mark_line ≡ some next)
    × (valid_object_id next ≡ true)
    × (r.progress_line ≡ some (codes "progress " ++ next))
    × (r.current_head ≡ some next)

-- The head of the store moves only to a commit that Git named for its mark, confirmed by the progress
-- line behind its checkpoint, and that HEAD is.
pub confirm_commit-IsConfirmed :
    (r : Replies) (next : Bytes) → confirm_commit r ≡ ok next → IsConfirmed r next
unfolding confirm_commit
confirm_commit-IsConfirmed r next h =
    let (mark, e1, h1) = >>=-eq-ok (check_some r.mark_line Error.import_failed) _ h in
    let (valid, h2) = fail_if-eq-ok (not (valid_object_id mark)) Error.import_failed h1 in
    let (progress, e2, h3) = >>=-eq-ok (check_some r.progress_line Error.import_failed) _ h2 in
    let (same, h4) =
      fail_if-eq-ok (not (bytes_eq progress (codes "progress " ++ mark))) Error.import_failed h3 in
    let (current, e3, h5) = >>=-eq-ok (check_some r.current_head Error.import_failed) _ h4 in
    let (published, h6) = fail_if-eq-ok (not (bytes_eq current mark)) Error.import_failed h5 in
    subst (IsConfirmed r) (ok_inj h6) (
      check_some-ok r.mark_line Error.import_failed e1,
      not-false (valid_object_id mark) valid,
      check_some-ok r.progress_line Error.import_failed e2
          ∙ ap some (
              bytes_eq→eq progress (codes "progress " ++ mark)
                (not-false (bytes_eq progress (codes "progress " ++ mark)) same)),
      check_some-ok r.current_head Error.import_failed e3
          ∙ ap some (bytes_eq→eq current mark (not-false (bytes_eq current mark) published)),
    )
