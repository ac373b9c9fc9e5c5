-- ===== src/Archive/Tests/Box.antt =====
-- Examples of the mailbox operations, on a maildrop of two messages.
use picomx.Prelude.{
  zero, suc, ℕ, suc, ◌≡◌, refl, true, none, some, List, [], ◌∷◌, ◌++◌, arith, ltb, if◌then◌else◌,
}
use picomx.Text.Bytes.{Bytes, codes, bytes_eq}
use picomx.Archive.Errors.{Error, Result, ok, err}
use picomx.Archive.MessagePath.{Message}
use picomx.Archive.Directories.{Counts}
use picomx.Archive.Directories.Index.{Leaf, DirectoryIndex, build_directory_index}
use picomx.Archive.Tree.Sorted.{Ascends}
use picomx.Archive.Mailbox.{
  Reading, Snapshot, lookup, list_at, message_by_id, find_leaf, id_directory,
}
use picomx.Archive.Mailbox.Maildrop.{concat, nth_message, visit_numbered, Shelves, IsView, Refines}
use picomx.Archive.Mailbox.Lookup.{lookup-Refines}
use picomx.Archive.Mailbox.ListAt.{Ends, list_at-Ends}
use picomx.Archive.Mailbox.ById.{find_id, message_by_id-found}
use picomx.Archive.Store.{Store, Answers, confirmed}
use picomx.Archive.Deletion.{delete_locked, delete_as, sort_ids}
use picomx.Archive.Deletion.Outcome.{Outcome, delete_locked-Outcome}
use picomx.Archive.Deletion.Retry.{IsQuiet, store_at, Ended, delete_as-Ended}
use picomx.Archive.MessagePath.{message_from_path}
use picomx.Archive.Tests.Mail.{two_messages, second_message}

abbrev pub pair_counts : Counts
pair_counts = (codes "1", 2) ∷ []

abbrev pub pair_index : DirectoryIndex
pair_index = record {
  leaves = record { path = codes "1"; count = 2; accumulated = 2 } ∷ [];
  total = 2;
}

-- Directories that are read without any trouble.
abbrev fixed : Reading
fixed = record { State = ℕ; directory = λ commit path s. (suc s, ok two_messages) }

abbrev Always : ℕ → Type 0
Always s = Unit

abbrev pub pair_snapshot : Snapshot
pair_snapshot = record {
  last_id = 2;
  total_octets = 5;
  message_count = 2;
  index = some pair_index;
  commit = codes "c";
}

pub pair_built : build_directory_index pair_counts 2 ≡ some pair_index
unfolding bytes_eq picomx.Text.Bytes.split picomx.Text.Bytes.join picomx.Text.Bytes.trim_suffix
    picomx.Text.Bytes.has_prefix picomx.Text.Bytes.cut picomx.Text.Number.digit_value
    picomx.Text.Number.digit_char picomx.Text.Number.scan_digits picomx.Text.Number.parse_uint
    picomx.Text.Number.format_digits picomx.Text.Number.format_uint picomx.Text.Number.parse_size
    picomx.Archive.IdPath.id_digits picomx.Archive.IdPath.fmt_digit picomx.Archive.IdPath.components
    picomx.Archive.IdPath.message_relative_path picomx.Archive.IdPath.next_id
    picomx.Archive.IdPath.fold_parts picomx.Archive.IdPath.check_path
    picomx.Archive.IdPath.id_from_parts picomx.Archive.IdPath.message_id_from_path
    picomx.Archive.Errors.is_missing picomx.Archive.MessagePath.message_path
    picomx.Archive.MessagePath.cut_last_mark picomx.Archive.MessagePath.check_message
    picomx.Archive.MessagePath.read_parts picomx.Archive.MessagePath.message_from_path
    picomx.Archive.Directories.count_of picomx.Archive.Directories.set_count
    picomx.Archive.Directories.delete_count picomx.Archive.Directories.dir
    picomx.Archive.Directories.ancestors_from picomx.Archive.Directories.ancestors
    picomx.Archive.Directories.add_all picomx.Archive.Directories.add
    picomx.Archive.Directories.remove_one picomx.Archive.Directories.remove_all
    picomx.Archive.Directories.remove picomx.Archive.Directories.Index.scan_prefix
    picomx.Archive.Directories.Index.check_depth picomx.Archive.Directories.Index.valid_parts
    picomx.Archive.Directories.Index.valid_directory picomx.Archive.Directories.Index.bytes_ltb
    picomx.Archive.Directories.Index.leaf_entry picomx.Archive.Directories.Index.collect_leaves
    picomx.Archive.Directories.Index.insert_leaf picomx.Archive.Directories.Index.sort_leaves
    picomx.Archive.Directories.Index.accumulate picomx.Archive.Directories.Index.add_expected
    picomx.Archive.Directories.Index.expected_counts picomx.Archive.Directories.Index.matches
    picomx.Archive.Directories.Index.check_expected build_directory_index
    picomx.Archive.Directories.Index.search_leaf picomx.Archive.Directories.Index.select_leaf
    picomx.Archive.Store.can_reserve_now picomx.Archive.Store.check_receive
    picomx.Archive.Store.released picomx.Archive.Store.discard_message picomx.Archive.Store.discard
    picomx.Archive.Store.begin_stage picomx.Archive.Store.create_file
    picomx.Archive.Store.take_chunk picomx.Archive.Store.read_chunk
    picomx.Archive.Store.finish_stage picomx.Archive.Store.import_commit
    picomx.Archive.Store.check_commit picomx.Archive.Store.commit_changes
    picomx.Archive.Store.next_counts picomx.Archive.Store.plan_publish
    picomx.Archive.Store.next_receipt picomx.Archive.Store.finish_publish
    picomx.Archive.Store.carry_out picomx.Archive.Store.publish_message picomx.Archive.Store.publish
    picomx.Archive.Mailbox.check_count picomx.Archive.Mailbox.pick
    picomx.Archive.Mailbox.search_path picomx.Archive.Mailbox.search_id
    picomx.Archive.Mailbox.id_directory picomx.Archive.Mailbox.id_leaf
    picomx.Archive.Mailbox.pick_id find_leaf picomx.Archive.Mailbox.select
    picomx.Archive.Mailbox.after_callback picomx.Archive.Mailbox.visit_messages lookup message_by_id
    picomx.Archive.Mailbox.size_at picomx.Archive.Mailbox.after_visit
    picomx.Archive.Mailbox.visit_listing picomx.Archive.Mailbox.visit_leaves list_at concat
    nth_message picomx.Archive.Mailbox.Maildrop.continue_visit visit_numbered Shelves find_id
    picomx.Archive.Deletion.snapshot_locked picomx.Archive.Deletion.remove_dir
    picomx.Archive.Deletion.remove_messages picomx.Archive.Deletion.plan_removal
    picomx.Archive.Deletion.finish_removal picomx.Archive.Deletion.commit_removal delete_locked
    picomx.Archive.Deletion.insert_nat sort_ids picomx.Archive.Deletion.after_find
    picomx.Archive.Deletion.resolve picomx.Archive.Deletion.after_resolve
    picomx.Archive.Deletion.delete_rounds delete_as
pair_built = refl

pair-IsView : IsView fixed Always (codes "c") pair_snapshot pair_index (two_messages ∷ [])
unfolding Shelves
pair-IsView = record {
  counts = pair_counts;
  same_commit = refl;
  indexed = refl;
  built = pair_built;
  shelves = ((refl, λ s good. (refl, tt)), tt);
}

lookup-Refines_example :
    Refines fixed Always
      (codes "c")
      (nth_message (concat (two_messages ∷ [])) 2)
      (lookup fixed pair_snapshot 2 0)
lookup-Refines_example =
    lookup-Refines fixed Always (codes "c") pair_snapshot pair_index (two_messages ∷ []) 2 0
      pair-IsView tt

-- A callback that keeps the sizes and fails at the third message.
abbrev keep_sizes : List ℕ → ℕ → ℕ → ℕ → List ℕ × Result (Unit {0})
keep_sizes sizes number id size =
    if ltb number 3 then (sizes ++ size ∷ [], ok tt) else (sizes, err Error.io_failed)

list_at-Ends_example :
    Ends fixed Always
      (codes "c")
      keep_sizes
      (visit_numbered keep_sizes suc (concat (two_messages ∷ [])) 0 [])
      (list_at fixed keep_sizes pair_snapshot [] 0)
unfolding bytes_eq picomx.Text.Bytes.split picomx.Text.Bytes.join picomx.Text.Bytes.trim_suffix
    picomx.Text.Bytes.has_prefix picomx.Text.Bytes.cut picomx.Text.Number.digit_value
    picomx.Text.Number.digit_char picomx.Text.Number.scan_digits picomx.Text.Number.parse_uint
    picomx.Text.Number.format_digits picomx.Text.Number.format_uint picomx.Text.Number.parse_size
    picomx.Archive.IdPath.id_digits picomx.Archive.IdPath.fmt_digit picomx.Archive.IdPath.components
    picomx.Archive.IdPath.message_relative_path picomx.Archive.IdPath.next_id
    picomx.Archive.IdPath.fold_parts picomx.Archive.IdPath.check_path
    picomx.Archive.IdPath.id_from_parts picomx.Archive.IdPath.message_id_from_path
    picomx.Archive.Errors.is_missing picomx.Archive.MessagePath.message_path
    picomx.Archive.MessagePath.cut_last_mark picomx.Archive.MessagePath.check_message
    picomx.Archive.MessagePath.read_parts picomx.Archive.MessagePath.message_from_path
    picomx.Archive.Directories.count_of picomx.Archive.Directories.set_count
    picomx.Archive.Directories.delete_count picomx.Archive.Directories.dir
    picomx.Archive.Directories.ancestors_from picomx.Archive.Directories.ancestors
    picomx.Archive.Directories.add_all picomx.Archive.Directories.add
    picomx.Archive.Directories.remove_one picomx.Archive.Directories.remove_all
    picomx.Archive.Directories.remove picomx.Archive.Directories.Index.scan_prefix
    picomx.Archive.Directories.Index.check_depth picomx.Archive.Directories.Index.valid_parts
    picomx.Archive.Directories.Index.valid_directory picomx.Archive.Directories.Index.bytes_ltb
    picomx.Archive.Directories.Index.leaf_entry picomx.Archive.Directories.Index.collect_leaves
    picomx.Archive.Directories.Index.insert_leaf picomx.Archive.Directories.Index.sort_leaves
    picomx.Archive.Directories.Index.accumulate picomx.Archive.Directories.Index.add_expected
    picomx.Archive.Directories.Index.expected_counts picomx.Archive.Directories.Index.matches
    picomx.Archive.Directories.Index.check_expected build_directory_index
    picomx.Archive.Directories.Index.search_leaf picomx.Archive.Directories.Index.select_leaf
    picomx.Archive.Store.can_reserve_now picomx.Archive.Store.check_receive
    picomx.Archive.Store.released picomx.Archive.Store.discard_message picomx.Archive.Store.discard
    picomx.Archive.Store.begin_stage picomx.Archive.Store.create_file
    picomx.Archive.Store.take_chunk picomx.Archive.Store.read_chunk
    picomx.Archive.Store.finish_stage picomx.Archive.Store.import_commit
    picomx.Archive.Store.check_commit picomx.Archive.Store.commit_changes
    picomx.Archive.Store.next_counts picomx.Archive.Store.plan_publish
    picomx.Archive.Store.next_receipt picomx.Archive.Store.finish_publish
    picomx.Archive.Store.carry_out picomx.Archive.Store.publish_message picomx.Archive.Store.publish
    picomx.Archive.Mailbox.check_count picomx.Archive.Mailbox.pick
    picomx.Archive.Mailbox.search_path picomx.Archive.Mailbox.search_id
    picomx.Archive.Mailbox.id_directory picomx.Archive.Mailbox.id_leaf
    picomx.Archive.Mailbox.pick_id find_leaf picomx.Archive.Mailbox.select
    picomx.Archive.Mailbox.after_callback picomx.Archive.Mailbox.visit_messages lookup message_by_id
    picomx.Archive.Mailbox.size_at picomx.Archive.Mailbox.after_visit
    picomx.Archive.Mailbox.visit_listing picomx.Archive.Mailbox.visit_leaves list_at concat
    nth_message picomx.Archive.Mailbox.Maildrop.continue_visit visit_numbered Shelves find_id
    picomx.Archive.Deletion.snapshot_locked picomx.Archive.Deletion.remove_dir
    picomx.Archive.Deletion.remove_messages picomx.Archive.Deletion.plan_removal
    picomx.Archive.Deletion.finish_removal picomx.Archive.Deletion.commit_removal delete_locked
    picomx.Archive.Deletion.insert_nat sort_ids picomx.Archive.Deletion.after_find
    picomx.Archive.Deletion.resolve picomx.Archive.Deletion.after_resolve
    picomx.Archive.Deletion.delete_rounds delete_as
list_at-Ends_example =
    list_at-Ends fixed Always (codes "c") keep_sizes pair_snapshot pair_index (two_messages ∷ []) []
      0 pair-IsView (refl, (refl, tt)) (omega arith) tt

two_ascend : Ascends two_messages
two_ascend = ((omega arith, tt), (tt, tt))

second_directory : codes "1" ≡ id_directory 2
unfolding bytes_eq picomx.Text.Bytes.split picomx.Text.Bytes.join picomx.Text.Bytes.trim_suffix
    picomx.Text.Bytes.has_prefix picomx.Text.Bytes.cut picomx.Text.Number.digit_value
    picomx.Text.Number.digit_char picomx.Text.Number.scan_digits picomx.Text.Number.parse_uint
    picomx.Text.Number.format_digits picomx.Text.Number.format_uint picomx.Text.Number.parse_size
    picomx.Archive.IdPath.id_digits picomx.Archive.IdPath.fmt_digit picomx.Archive.IdPath.components
    picomx.Archive.IdPath.message_relative_path picomx.Archive.IdPath.next_id
    picomx.Archive.IdPath.fold_parts picomx.Archive.IdPath.check_path
    picomx.Archive.IdPath.id_from_parts picomx.Archive.IdPath.message_id_from_path
    picomx.Archive.Errors.is_missing picomx.Archive.MessagePath.message_path
    picomx.Archive.MessagePath.cut_last_mark picomx.Archive.MessagePath.check_message
    picomx.Archive.MessagePath.read_parts picomx.Archive.MessagePath.message_from_path
    picomx.Archive.Directories.count_of picomx.Archive.Directories.set_count
    picomx.Archive.Directories.delete_count picomx.Archive.Directories.dir
    picomx.Archive.Directories.ancestors_from picomx.Archive.Directories.ancestors
    picomx.Archive.Directories.add_all picomx.Archive.Directories.add
    picomx.Archive.Directories.remove_one picomx.Archive.Directories.remove_all
    picomx.Archive.Directories.remove picomx.Archive.Directories.Index.scan_prefix
    picomx.Archive.Directories.Index.check_depth picomx.Archive.Directories.Index.valid_parts
    picomx.Archive.Directories.Index.valid_directory picomx.Archive.Directories.Index.bytes_ltb
    picomx.Archive.Directories.Index.leaf_entry picomx.Archive.Directories.Index.collect_leaves
    picomx.Archive.Directories.Index.insert_leaf picomx.Archive.Directories.Index.sort_leaves
    picomx.Archive.Directories.Index.accumulate picomx.Archive.Directories.Index.add_expected
    picomx.Archive.Directories.Index.expected_counts picomx.Archive.Directories.Index.matches
    picomx.Archive.Directories.Index.check_expected build_directory_index
    picomx.Archive.Directories.Index.search_leaf picomx.Archive.Directories.Index.select_leaf
    picomx.Archive.Store.can_reserve_now picomx.Archive.Store.check_receive
    picomx.Archive.Store.released picomx.Archive.Store.discard_message picomx.Archive.Store.discard
    picomx.Archive.Store.begin_stage picomx.Archive.Store.create_file
    picomx.Archive.Store.take_chunk picomx.Archive.Store.read_chunk
    picomx.Archive.Store.finish_stage picomx.Archive.Store.import_commit
    picomx.Archive.Store.check_commit picomx.Archive.Store.commit_changes
    picomx.Archive.Store.next_counts picomx.Archive.Store.plan_publish
    picomx.Archive.Store.next_receipt picomx.Archive.Store.finish_publish
    picomx.Archive.Store.carry_out picomx.Archive.Store.publish_message picomx.Archive.Store.publish
    picomx.Archive.Mailbox.check_count picomx.Archive.Mailbox.pick
    picomx.Archive.Mailbox.search_path picomx.Archive.Mailbox.search_id
    picomx.Archive.Mailbox.id_directory picomx.Archive.Mailbox.id_leaf
    picomx.Archive.Mailbox.pick_id find_leaf picomx.Archive.Mailbox.select
    picomx.Archive.Mailbox.after_callback picomx.Archive.Mailbox.visit_messages lookup message_by_id
    picomx.Archive.Mailbox.size_at picomx.Archive.Mailbox.after_visit
    picomx.Archive.Mailbox.visit_listing picomx.Archive.Mailbox.visit_leaves list_at concat
    nth_message picomx.Archive.Mailbox.Maildrop.continue_visit visit_numbered Shelves find_id
    picomx.Archive.Deletion.snapshot_locked picomx.Archive.Deletion.remove_dir
    picomx.Archive.Deletion.remove_messages picomx.Archive.Deletion.plan_removal
    picomx.Archive.Deletion.finish_removal picomx.Archive.Deletion.commit_removal delete_locked
    picomx.Archive.Deletion.insert_nat sort_ids picomx.Archive.Deletion.after_find
    picomx.Archive.Deletion.resolve picomx.Archive.Deletion.after_resolve
    picomx.Archive.Deletion.delete_rounds delete_as
second_directory = refl

message_by_id-found_example :
    Refines fixed Always
      (codes "c")
      (find_id 2 two_messages)
      (message_by_id fixed pair_snapshot 2 0)
message_by_id-found_example =
    message_by_id-found fixed Always (codes "c") pair_snapshot pair_index 2 [] []
      (record { path = codes "1"; count = 2; accumulated = 2 }) two_messages 0 refl refl
      (omega arith) (omega arith) refl second_directory tt (refl, λ s good. (refl, tt)) two_ascend
      tt

abbrev pub pair_store : Store
pair_store = record {
  state = record { last_id = 2; total_octets = 5; directories = pair_counts; index = pair_index };
  head_id = codes "c";
  failure = none;
  max_daily_bytes = 10000;
  receipt = none;
  reserved_bytes = 0;
  staged = [];
  commits = [];
}

abbrev pub git_answers : Answers
git_answers = record {
  file_read = true;
  receipt_written = true;
  current_head = codes "c";
  importer_runs = true;
  imported = confirmed (codes "d");
}

delete_locked-Outcome_example :
    Outcome pair_store
      (second_message ∷ [])
      (delete_locked pair_store git_answers (second_message ∷ []))
delete_locked-Outcome_example = delete_locked-Outcome pair_store git_answers (second_message ∷ [])

-- Another connection commits during the first round.
abbrev moved_head : ℕ → Store → Store
moved_head zero s = record s { head_id = codes "e" }
moved_head (suc round) s = s

second_round_quiet : IsQuiet fixed moved_head pair_store 1
unfolding store_at
second_round_quiet = refl

delete_as-Ended_example :
    Ended fixed git_answers
      (sort_ids (2 ∷ 1 ∷ 2 ∷ []))
      moved_head
      pair_store
      (delete_as fixed git_answers (2 ∷ 1 ∷ 2 ∷ []) moved_head 2 pair_store 0)
delete_as-Ended_example =
    delete_as-Ended fixed git_answers (2 ∷ 1 ∷ 2 ∷ []) moved_head 1 2 pair_store 0
      second_round_quiet (omega arith)
