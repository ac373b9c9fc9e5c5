-- ===== src/Pop3/Tests/Archive.antt =====
-- A POP3 connection to a repository with two messages.
use picomx.Prelude.{◌≡◌, refl, ◌∙◌, true, false, some, [], ◌∷◌, ◌++◌}
use picomx.Text.Bytes.{Bytes, codes, bytes_eq}
use picomx.Text.Lines.{crlf, lines}
use picomx.Text.Unicode.{is_space}
use picomx.Archive.MessagePath.{Message, message_from_path}
use picomx.Archive.Reader.{line_breaks, valid_object_id, request}
use picomx.Archive.Reader.Rounds.{idle}
use picomx.Archive.Tree.Source.{reading, IsGood, directory-listing}
use picomx.Archive.Errors.{ok}
use picomx.Archive.Mailbox.Maildrop.{nth_message, concat, IsView}
use picomx.Archive.Mailbox.Open.{is_listed}
use picomx.Archive.Tests.Mail.{
  plain_unicode, tiny_reads, two_messages, first_message, tree_oid, tree_bytes, blob_oid, two_bytes,
  two_cat, first_answer, empty_cache, two_served, two_idle, two_listed,
}
use picomx.Archive.Tests.Box.{
  pair_counts, pair_index, pair_snapshot, pair_store, git_answers, pair_built,
}
use picomx.Pop3.Stream.Client.{receive, completed}
use picomx.Pop3.Command.{decimal}
use picomx.Pop3.Session.{Session, retr_number}
use picomx.Pop3.Archive.{archive_mailbox, Archived, retr-archive}

abbrev pair_session : Session (archive_mailbox plain_unicode two_cat tiny_reads git_answers)
pair_session = record {
  username = codes "me";
  authenticated = true;
  snapshot = pair_snapshot;
  deleted = [];
  deleted_octets = 0;
  auth_failures = 0;
}

abbrev pair_archive : Archived
pair_archive = record { store = pair_store; reader = (idle, empty_cache) }

pair-IsView :
    IsView
      (reading plain_unicode two_cat tiny_reads)
      (IsGood plain_unicode two_cat tiny_reads)
      (codes "c")
      pair_snapshot
      pair_index
      (two_messages ∷ [])
unfolding picomx.Archive.Mailbox.Maildrop.Shelves
pair-IsView = record {
  counts = pair_counts;
  same_commit = refl;
  indexed = refl;
  built = pair_built;
  shelves = (
    (
      refl,
      λ s good.
          let (l, g) =
            directory-listing plain_unicode two_cat tiny_reads (codes "c") (codes "1") tree_oid
              tree_bytes s good two_served in
          (l ∙ two_listed, g),
    ),
    tt,
  );
}

first_number : nth_message (concat (two_messages ∷ [])) 1 ≡ ok first_message
unfolding picomx.Text.Bytes.bytes_eq picomx.Text.Bytes.split picomx.Text.Bytes.join
    picomx.Text.Bytes.trim_suffix picomx.Text.Bytes.has_prefix picomx.Text.Bytes.cut
    picomx.Text.Number.digit_value picomx.Text.Number.digit_char picomx.Text.Number.scan_digits
    picomx.Text.Number.parse_uint picomx.Text.Number.format_digits picomx.Text.Number.format_uint
    picomx.Text.Number.parse_size picomx.Text.Unicode.is_ascii picomx.Text.Unicode.upper_char
    picomx.Text.Unicode.lower_char picomx.Text.Unicode.is_space picomx.Text.Unicode.trim_left
    picomx.Text.Unicode.trim_ascii picomx.Text.Unicode.add_char picomx.Text.Unicode.words_ascii
    picomx.Text.Unicode.to_upper picomx.Text.Unicode.to_lower picomx.Text.Unicode.trim_space
    picomx.Text.Unicode.fields picomx.Text.Unicode.equal_fold picomx.Archive.IdPath.id_digits
    picomx.Archive.IdPath.fmt_digit picomx.Archive.IdPath.components
    picomx.Archive.IdPath.message_relative_path picomx.Archive.IdPath.next_id
    picomx.Archive.IdPath.fold_parts picomx.Archive.IdPath.check_path
    picomx.Archive.IdPath.id_from_parts picomx.Archive.IdPath.message_id_from_path
    picomx.Archive.Errors.is_missing picomx.Archive.MessagePath.message_path
    picomx.Archive.MessagePath.cut_last_mark picomx.Archive.MessagePath.check_message
    picomx.Archive.MessagePath.read_parts picomx.Archive.MessagePath.message_from_path
    picomx.Archive.Directories.count_of picomx.Archive.Directories.set_count
    picomx.Archive.Directories.delete_count picomx.Archive.Directories.dir
    picomx.Archive.Directories.ancestors_from picomx.Archive.Directories.ancestors
    picomx.Archive.Directories.add_all picomx.Archive.Directories.add
    picomx.Archive.Directories.remove_one picomx.Archive.Directories.remove_all
    picomx.Archive.Directories.remove picomx.Archive.Directories.Index.scan_prefix
    picomx.Archive.Directories.Index.check_depth picomx.Archive.Directories.Index.valid_parts
    picomx.Archive.Directories.Index.valid_directory picomx.Archive.Directories.Index.bytes_ltb
    picomx.Archive.Directories.Index.leaf_entry picomx.Archive.Directories.Index.collect_leaves
    picomx.Archive.Directories.Index.insert_leaf picomx.Archive.Directories.Index.sort_leaves
    picomx.Archive.Directories.Index.accumulate picomx.Archive.Directories.Index.add_expected
    picomx.Archive.Directories.Index.expected_counts picomx.Archive.Directories.Index.matches
    picomx.Archive.Directories.Index.check_expected
    picomx.Archive.Directories.Index.build_directory_index
    picomx.Archive.Directories.Index.search_leaf picomx.Archive.Directories.Index.select_leaf
    picomx.Archive.Reader.is_hex_char picomx.Archive.Reader.valid_object_id
    picomx.Archive.Reader.missing picomx.Archive.Reader.read_header
    picomx.Archive.Reader.line_breaks picomx.Archive.Reader.request
    picomx.Archive.Reader.reader_locked picomx.Archive.Reader.abort_reader
    picomx.Archive.Reader.close_reader picomx.Archive.Reader.settle
    picomx.Archive.Reader.new_blob_reader picomx.Archive.Reader.lease
    picomx.Archive.Reader.read_reply picomx.Archive.Reader.query_object
    picomx.Archive.Reader.ask_reader picomx.Archive.Reader.ask picomx.Archive.Reader.object_info
    picomx.Archive.Reader.read_object picomx.Archive.Reader.read_blob
    picomx.Archive.Reader.pipe_count picomx.Archive.Reader.read_count
    picomx.Archive.Reader.read_pipe picomx.Archive.Reader.read picomx.Archive.Reader.drain
    picomx.Archive.Reader.close_blob picomx.Archive.Mailbox.check_count picomx.Archive.Mailbox.pick
    picomx.Archive.Mailbox.search_path picomx.Archive.Mailbox.search_id
    picomx.Archive.Mailbox.id_directory picomx.Archive.Mailbox.id_leaf
    picomx.Archive.Mailbox.pick_id picomx.Archive.Mailbox.find_leaf picomx.Archive.Mailbox.select
    picomx.Archive.Mailbox.after_callback picomx.Archive.Mailbox.visit_messages
    picomx.Archive.Mailbox.lookup picomx.Archive.Mailbox.message_by_id
    picomx.Archive.Mailbox.size_at picomx.Archive.Mailbox.after_visit
    picomx.Archive.Mailbox.visit_listing picomx.Archive.Mailbox.visit_leaves
    picomx.Archive.Mailbox.list_at picomx.Archive.Mailbox.Open.same_message
    picomx.Archive.Mailbox.Open.is_listed picomx.Archive.Mailbox.Open.check_size
    picomx.Archive.Mailbox.Open.open_message picomx.Archive.Mailbox.Maildrop.concat
    picomx.Archive.Mailbox.Maildrop.nth_message picomx.Archive.Mailbox.Maildrop.continue_visit
    picomx.Archive.Mailbox.Maildrop.visit_numbered picomx.Archive.Mailbox.Maildrop.Shelves
first_number = refl

first_listed : is_listed pair_snapshot first_message ≡ true
unfolding picomx.Text.Bytes.bytes_eq picomx.Text.Bytes.split picomx.Text.Bytes.join
    picomx.Text.Bytes.trim_suffix picomx.Text.Bytes.has_prefix picomx.Text.Bytes.cut
    picomx.Text.Number.digit_value picomx.Text.Number.digit_char picomx.Text.Number.scan_digits
    picomx.Text.Number.parse_uint picomx.Text.Number.format_digits picomx.Text.Number.format_uint
    picomx.Text.Number.parse_size picomx.Text.Unicode.is_ascii picomx.Text.Unicode.upper_char
    picomx.Text.Unicode.lower_char picomx.Text.Unicode.is_space picomx.Text.Unicode.trim_left
    picomx.Text.Unicode.trim_ascii picomx.Text.Unicode.add_char picomx.Text.Unicode.words_ascii
    picomx.Text.Unicode.to_upper picomx.Text.Unicode.to_lower picomx.Text.Unicode.trim_space
    picomx.Text.Unicode.fields picomx.Text.Unicode.equal_fold picomx.Archive.IdPath.id_digits
    picomx.Archive.IdPath.fmt_digit picomx.Archive.IdPath.components
    picomx.Archive.IdPath.message_relative_path picomx.Archive.IdPath.next_id
    picomx.Archive.IdPath.fold_parts picomx.Archive.IdPath.check_path
    picomx.Archive.IdPath.id_from_parts picomx.Archive.IdPath.message_id_from_path
    picomx.Archive.Errors.is_missing picomx.Archive.MessagePath.message_path
    picomx.Archive.MessagePath.cut_last_mark picomx.Archive.MessagePath.check_message
    picomx.Archive.MessagePath.read_parts picomx.Archive.MessagePath.message_from_path
    picomx.Archive.Directories.count_of picomx.Archive.Directories.set_count
    picomx.Archive.Directories.delete_count picomx.Archive.Directories.dir
    picomx.Archive.Directories.ancestors_from picomx.Archive.Directories.ancestors
    picomx.Archive.Directories.add_all picomx.Archive.Directories.add
    picomx.Archive.Directories.remove_one picomx.Archive.Directories.remove_all
    picomx.Archive.Directories.remove picomx.Archive.Directories.Index.scan_prefix
    picomx.Archive.Directories.Index.check_depth picomx.Archive.Directories.Index.valid_parts
    picomx.Archive.Directories.Index.valid_directory picomx.Archive.Directories.Index.bytes_ltb
    picomx.Archive.Directories.Index.leaf_entry picomx.Archive.Directories.Index.collect_leaves
    picomx.Archive.Directories.Index.insert_leaf picomx.Archive.Directories.Index.sort_leaves
    picomx.Archive.Directories.Index.accumulate picomx.Archive.Directories.Index.add_expected
    picomx.Archive.Directories.Index.expected_counts picomx.Archive.Directories.Index.matches
    picomx.Archive.Directories.Index.check_expected
    picomx.Archive.Directories.Index.build_directory_index
    picomx.Archive.Directories.Index.search_leaf picomx.Archive.Directories.Index.select_leaf
    picomx.Archive.Reader.is_hex_char picomx.Archive.Reader.valid_object_id
    picomx.Archive.Reader.missing picomx.Archive.Reader.read_header
    picomx.Archive.Reader.line_breaks picomx.Archive.Reader.request
    picomx.Archive.Reader.reader_locked picomx.Archive.Reader.abort_reader
    picomx.Archive.Reader.close_reader picomx.Archive.Reader.settle
    picomx.Archive.Reader.new_blob_reader picomx.Archive.Reader.lease
    picomx.Archive.Reader.read_reply picomx.Archive.Reader.query_object
    picomx.Archive.Reader.ask_reader picomx.Archive.Reader.ask picomx.Archive.Reader.object_info
    picomx.Archive.Reader.read_object picomx.Archive.Reader.read_blob
    picomx.Archive.Reader.pipe_count picomx.Archive.Reader.read_count
    picomx.Archive.Reader.read_pipe picomx.Archive.Reader.read picomx.Archive.Reader.drain
    picomx.Archive.Reader.close_blob picomx.Archive.Mailbox.check_count picomx.Archive.Mailbox.pick
    picomx.Archive.Mailbox.search_path picomx.Archive.Mailbox.search_id
    picomx.Archive.Mailbox.id_directory picomx.Archive.Mailbox.id_leaf
    picomx.Archive.Mailbox.pick_id picomx.Archive.Mailbox.find_leaf picomx.Archive.Mailbox.select
    picomx.Archive.Mailbox.after_callback picomx.Archive.Mailbox.visit_messages
    picomx.Archive.Mailbox.lookup picomx.Archive.Mailbox.message_by_id
    picomx.Archive.Mailbox.size_at picomx.Archive.Mailbox.after_visit
    picomx.Archive.Mailbox.visit_listing picomx.Archive.Mailbox.visit_leaves
    picomx.Archive.Mailbox.list_at picomx.Archive.Mailbox.Open.same_message
    picomx.Archive.Mailbox.Open.is_listed picomx.Archive.Mailbox.Open.check_size
    picomx.Archive.Mailbox.Open.open_message picomx.Archive.Mailbox.Maildrop.concat
    picomx.Archive.Mailbox.Maildrop.nth_message picomx.Archive.Mailbox.Maildrop.continue_visit
    picomx.Archive.Mailbox.Maildrop.visit_numbered picomx.Archive.Mailbox.Maildrop.Shelves
first_listed = refl

first_plain : line_breaks (codes "c:1/001-s2.eml") ≡ false
unfolding line_breaks
first_plain = refl

retr-archive_example :
    (out : Bytes) × ((retr_number
        (archive_mailbox plain_unicode two_cat tiny_reads git_answers)
        pair_session
        pair_archive
        true
        (some 1)).output
      ≡ codes "+OK " ++ (decimal 2 ++ codes " octets") ++ (crlf ++ out))
    × (receive (lines (out ++ codes "+OK\r\n"))
        ≡ some (completed two_bytes, lines (codes "+OK\r\n")))
retr-archive_example =
    retr-archive plain_unicode two_cat tiny_reads git_answers pair_session pair_index
      (two_messages ∷ []) 1 pair_archive first_message blob_oid two_bytes (codes "+OK\r\n") true
      pair-IsView two_idle first_number first_listed first_plain first_answer refl
