-- ===== src/Archive/Tests/Mail.antt =====
-- Examples of the mailbox: a repository with two messages, and what is read from it.
use picomx.Prelude.{
  ℕ, ◌≡◌, refl, inl, true, false, Option, none, some, List, [], ◌∷◌, ◌++◌, map, arith,
  if◌then◌else◌, length, replicate, All,
}
use picomx.Text.Bytes.{Bytes, codes, bytes_eq, Lacks}
use picomx.Text.Unicode.{Unicode, is_space}
use picomx.Text.Number.{format_uint}
use picomx.Archive.Errors.{ok}
use picomx.Archive.MessagePath.{Message, message_path, message_from_path}
use picomx.Archive.Cache.{DirectoryCache}
use picomx.Archive.Directories.Index.{Leaf, DirectoryIndex, build_directory_index}
use picomx.Archive.Reader.{
  ObjectHeader, CatFile, ReadState, request, valid_object_id, line_breaks, missing,
}
use picomx.Archive.Reader.Framing.{header_line, object_reply, header_of}
use picomx.Archive.Reader.Lease.{use_object, read_all, opened}
use picomx.Archive.Reader.Rounds.{Answers, idle, use_object-framing, read_all-total}
use picomx.Archive.Tree.{
  TreeEntry, tree, parse_tree, parse_entries, directory_messages, hex, refused_entry,
}
use picomx.Archive.Tree.Cached.{directory, IsCoherent}
use picomx.Archive.Tree.Encoding.{RawEntry, entry_of, encode, IsTree, parse_tree-encode}
use picomx.Archive.Tree.Decoding.{IsDecoded, parse_tree-IsDecoded, Parses, parse_entries-Parses}
use picomx.Archive.Tree.Sorted.{Ascends, IsNamed, directory_messages-Ascends}
use picomx.Archive.Tree.Source.{Serves, listing, IsGood, directory-listing}

abbrev pub plain_unicode : Unicode
plain_unicode = record {
  upper = λ s. s;
  lower = λ s. s;
  trim = λ s. s;
  words = λ s. s ∷ [];
  fold_eq = λ s t. false;
}

abbrev pub first_message : Message
first_message = record { id = 1; size = 2; path = codes "1/001-s2.eml" }

abbrev pub second_message : Message
second_message = record { id = 2; size = 3; path = codes "1/002-s3.eml" }

abbrev pub two_messages : List Message
two_messages = first_message ∷ second_message ∷ []

abbrev raw_pair : List RawEntry
raw_pair =
    record { mode = codes "100644"; name = codes "002-s3.eml"; object = replicate 20 171 }
    ∷ record { mode = codes "100644"; name = codes "001-s2.eml"; object = replicate 20 205 }
    ∷ []

abbrev pub tree_oid : Bytes
tree_oid = replicate 40 b'a'

abbrev pub tree_bytes : Bytes
tree_bytes = encode raw_pair

abbrev pub blob_oid : Bytes
blob_oid = replicate 40 b'b'

abbrev pub two_bytes : Bytes
two_bytes = codes "hi"

-- A repository whose commit "c" has one directory of two messages, and the content of the first.
abbrev pub two_files : Bytes → Option Bytes
unfolding bytes_eq
two_files line =
    if bytes_eq line (request (codes "info") (codes "c:1"))
    then some (header_line tree_oid (codes "tree") (length tree_bytes) ++ 10 ∷ [])
    else if bytes_eq line (request (codes "contents") tree_oid)
    then some (object_reply tree_oid (codes "tree") tree_bytes)
    else if bytes_eq line (request (codes "contents") (codes "c:1/001-s2.eml"))
    then some (object_reply blob_oid (codes "blob") two_bytes)
    else some (codes "? missing" ++ 10 ∷ [])

abbrev pub two_cat : CatFile
two_cat = record { starts = true; answer = two_files }

abbrev pub tiny_reads : ℕ → ℕ × ℕ
tiny_reads n = (3, 6)

abbrev pub empty_cache : DirectoryCache
empty_cache = record { capacity = 64; recency = [] }

pub two_served : Serves plain_unicode two_cat tiny_reads (codes "c") (codes "1") tree_oid tree_bytes
unfolding bytes_eq picomx.Text.Bytes.split picomx.Text.Bytes.join picomx.Text.Bytes.trim_suffix
    picomx.Text.Bytes.has_prefix picomx.Text.Bytes.cut picomx.Text.Number.digit_value
    picomx.Text.Number.digit_char picomx.Text.Number.scan_digits picomx.Text.Number.parse_uint
    picomx.Text.Number.format_digits format_uint picomx.Text.Number.parse_size
    picomx.Archive.IdPath.id_digits picomx.Archive.IdPath.fmt_digit picomx.Archive.IdPath.components
    picomx.Archive.IdPath.message_relative_path picomx.Archive.IdPath.next_id
    picomx.Archive.IdPath.fold_parts picomx.Archive.IdPath.check_path
    picomx.Archive.IdPath.id_from_parts picomx.Archive.IdPath.message_id_from_path message_path
    picomx.Archive.MessagePath.cut_last_mark picomx.Archive.MessagePath.check_message
    picomx.Archive.MessagePath.read_parts message_from_path picomx.Archive.Directories.count_of
    picomx.Archive.Directories.set_count picomx.Archive.Directories.delete_count
    picomx.Archive.Directories.dir picomx.Archive.Directories.ancestors_from
    picomx.Archive.Directories.ancestors picomx.Archive.Directories.add_all
    picomx.Archive.Directories.add picomx.Archive.Directories.remove_one
    picomx.Archive.Directories.remove_all picomx.Archive.Directories.remove
    picomx.Archive.Directories.Index.scan_prefix picomx.Archive.Directories.Index.check_depth
    picomx.Archive.Directories.Index.valid_parts picomx.Archive.Directories.Index.valid_directory
    picomx.Archive.Directories.Index.bytes_ltb picomx.Archive.Directories.Index.leaf_entry
    picomx.Archive.Directories.Index.collect_leaves picomx.Archive.Directories.Index.insert_leaf
    picomx.Archive.Directories.Index.sort_leaves picomx.Archive.Directories.Index.accumulate
    picomx.Archive.Directories.Index.add_expected picomx.Archive.Directories.Index.expected_counts
    picomx.Archive.Directories.Index.matches picomx.Archive.Directories.Index.check_expected
    build_directory_index picomx.Archive.Directories.Index.search_leaf
    picomx.Archive.Directories.Index.select_leaf picomx.Archive.Reader.is_hex_char valid_object_id
    missing picomx.Archive.Reader.read_header line_breaks request
    picomx.Archive.Reader.reader_locked picomx.Archive.Reader.abort_reader
    picomx.Archive.Reader.close_reader picomx.Archive.Reader.settle
    picomx.Archive.Reader.new_blob_reader picomx.Archive.Reader.lease
    picomx.Archive.Reader.read_reply picomx.Archive.Reader.query_object
    picomx.Archive.Reader.ask_reader picomx.Archive.Reader.ask picomx.Archive.Reader.object_info
    picomx.Archive.Reader.read_object picomx.Archive.Reader.read_blob
    picomx.Archive.Reader.pipe_count picomx.Archive.Reader.read_count
    picomx.Archive.Reader.read_pipe picomx.Archive.Reader.read picomx.Archive.Reader.drain
    picomx.Archive.Reader.close_blob hex picomx.Archive.Tree.member picomx.Archive.Tree.bad_name
    picomx.Archive.Tree.is_mode refused_entry picomx.Archive.Tree.make_entry
    picomx.Archive.Tree.read_entry picomx.Archive.Tree.next_entry parse_entries parse_tree
    picomx.Archive.Tree.finish_tree picomx.Archive.Tree.close_tree
    picomx.Archive.Tree.after_read_all picomx.Archive.Tree.read_tree picomx.Archive.Tree.use_tree
    tree picomx.Archive.Tree.entry_message picomx.Archive.Tree.entry_messages
    picomx.Archive.Tree.insert_message picomx.Archive.Tree.sort_messages
    picomx.Archive.Tree.has_duplicate directory_messages entry_of encode IsTree
    picomx.Archive.Mailbox.check_count picomx.Archive.Mailbox.pick
    picomx.Archive.Mailbox.search_path picomx.Archive.Mailbox.search_id
    picomx.Archive.Mailbox.id_directory picomx.Archive.Mailbox.id_leaf
    picomx.Archive.Mailbox.pick_id picomx.Archive.Mailbox.select
    picomx.Archive.Mailbox.after_callback picomx.Archive.Mailbox.visit_messages
    picomx.Archive.Mailbox.size_at picomx.Archive.Mailbox.after_visit
    picomx.Archive.Mailbox.visit_listing picomx.Archive.Mailbox.visit_leaves listing
    picomx.Text.Unicode.is_ascii picomx.Text.Unicode.upper_char picomx.Text.Unicode.lower_char
    is_space picomx.Text.Unicode.trim_left picomx.Text.Unicode.trim_ascii
    picomx.Text.Unicode.add_char picomx.Text.Unicode.words_ascii picomx.Text.Unicode.to_upper
    picomx.Text.Unicode.to_lower picomx.Text.Unicode.trim_space picomx.Text.Unicode.fields
    picomx.Text.Unicode.equal_fold two_files
two_served = record {
  plain = refl;
  info = refl;
  contents = (refl, refl, omega arith);
  bounded = omega arith;
}

pub first_answer : Answers two_cat (codes "c:1/001-s2.eml") blob_oid (codes "blob") two_bytes
unfolding bytes_eq picomx.Text.Bytes.split picomx.Text.Bytes.join picomx.Text.Bytes.trim_suffix
    picomx.Text.Bytes.has_prefix picomx.Text.Bytes.cut picomx.Text.Number.digit_value
    picomx.Text.Number.digit_char picomx.Text.Number.scan_digits picomx.Text.Number.parse_uint
    picomx.Text.Number.format_digits format_uint picomx.Text.Number.parse_size
    picomx.Archive.IdPath.id_digits picomx.Archive.IdPath.fmt_digit picomx.Archive.IdPath.components
    picomx.Archive.IdPath.message_relative_path picomx.Archive.IdPath.next_id
    picomx.Archive.IdPath.fold_parts picomx.Archive.IdPath.check_path
    picomx.Archive.IdPath.id_from_parts picomx.Archive.IdPath.message_id_from_path message_path
    picomx.Archive.MessagePath.cut_last_mark picomx.Archive.MessagePath.check_message
    picomx.Archive.MessagePath.read_parts message_from_path picomx.Archive.Directories.count_of
    picomx.Archive.Directories.set_count picomx.Archive.Directories.delete_count
    picomx.Archive.Directories.dir picomx.Archive.Directories.ancestors_from
    picomx.Archive.Directories.ancestors picomx.Archive.Directories.add_all
    picomx.Archive.Directories.add picomx.Archive.Directories.remove_one
    picomx.Archive.Directories.remove_all picomx.Archive.Directories.remove
    picomx.Archive.Directories.Index.scan_prefix picomx.Archive.Directories.Index.check_depth
    picomx.Archive.Directories.Index.valid_parts picomx.Archive.Directories.Index.valid_directory
    picomx.Archive.Directories.Index.bytes_ltb picomx.Archive.Directories.Index.leaf_entry
    picomx.Archive.Directories.Index.collect_leaves picomx.Archive.Directories.Index.insert_leaf
    picomx.Archive.Directories.Index.sort_leaves picomx.Archive.Directories.Index.accumulate
    picomx.Archive.Directories.Index.add_expected picomx.Archive.Directories.Index.expected_counts
    picomx.Archive.Directories.Index.matches picomx.Archive.Directories.Index.check_expected
    build_directory_index picomx.Archive.Directories.Index.search_leaf
    picomx.Archive.Directories.Index.select_leaf picomx.Archive.Reader.is_hex_char valid_object_id
    missing picomx.Archive.Reader.read_header line_breaks request
    picomx.Archive.Reader.reader_locked picomx.Archive.Reader.abort_reader
    picomx.Archive.Reader.close_reader picomx.Archive.Reader.settle
    picomx.Archive.Reader.new_blob_reader picomx.Archive.Reader.lease
    picomx.Archive.Reader.read_reply picomx.Archive.Reader.query_object
    picomx.Archive.Reader.ask_reader picomx.Archive.Reader.ask picomx.Archive.Reader.object_info
    picomx.Archive.Reader.read_object picomx.Archive.Reader.read_blob
    picomx.Archive.Reader.pipe_count picomx.Archive.Reader.read_count
    picomx.Archive.Reader.read_pipe picomx.Archive.Reader.read picomx.Archive.Reader.drain
    picomx.Archive.Reader.close_blob hex picomx.Archive.Tree.member picomx.Archive.Tree.bad_name
    picomx.Archive.Tree.is_mode refused_entry picomx.Archive.Tree.make_entry
    picomx.Archive.Tree.read_entry picomx.Archive.Tree.next_entry parse_entries parse_tree
    picomx.Archive.Tree.finish_tree picomx.Archive.Tree.close_tree
    picomx.Archive.Tree.after_read_all picomx.Archive.Tree.read_tree picomx.Archive.Tree.use_tree
    tree picomx.Archive.Tree.entry_message picomx.Archive.Tree.entry_messages
    picomx.Archive.Tree.insert_message picomx.Archive.Tree.sort_messages
    picomx.Archive.Tree.has_duplicate directory_messages entry_of encode IsTree
    picomx.Archive.Mailbox.check_count picomx.Archive.Mailbox.pick
    picomx.Archive.Mailbox.search_path picomx.Archive.Mailbox.search_id
    picomx.Archive.Mailbox.id_directory picomx.Archive.Mailbox.id_leaf
    picomx.Archive.Mailbox.pick_id picomx.Archive.Mailbox.select
    picomx.Archive.Mailbox.after_callback picomx.Archive.Mailbox.visit_messages
    picomx.Archive.Mailbox.size_at picomx.Archive.Mailbox.after_visit
    picomx.Archive.Mailbox.visit_listing picomx.Archive.Mailbox.visit_leaves listing
    picomx.Text.Unicode.is_ascii picomx.Text.Unicode.upper_char picomx.Text.Unicode.lower_char
    is_space picomx.Text.Unicode.trim_left picomx.Text.Unicode.trim_ascii
    picomx.Text.Unicode.add_char picomx.Text.Unicode.words_ascii picomx.Text.Unicode.to_upper
    picomx.Text.Unicode.to_lower picomx.Text.Unicode.trim_space picomx.Text.Unicode.fields
    picomx.Text.Unicode.equal_fold two_files
first_answer = (refl, refl, omega arith)

pub two_idle : IsGood plain_unicode two_cat tiny_reads (idle, empty_cache)
unfolding IsCoherent
two_idle = ((refl, inl refl), tt)

directory-listing_example :
    ((directory plain_unicode two_cat tiny_reads (codes "c") (codes "1") idle empty_cache).1
      ≡ listing plain_unicode two_cat tiny_reads (codes "1") tree_oid tree_bytes)
    × IsGood plain_unicode two_cat tiny_reads
        (directory plain_unicode two_cat tiny_reads (codes "c") (codes "1") idle empty_cache).0
directory-listing_example =
    directory-listing plain_unicode two_cat tiny_reads (codes "c") (codes "1") tree_oid tree_bytes
      (idle, empty_cache) two_idle two_served

pub two_listed :
    listing plain_unicode two_cat tiny_reads (codes "1") tree_oid tree_bytes ≡ ok two_messages
unfolding bytes_eq picomx.Text.Bytes.split picomx.Text.Bytes.join picomx.Text.Bytes.trim_suffix
    picomx.Text.Bytes.has_prefix picomx.Text.Bytes.cut picomx.Text.Number.digit_value
    picomx.Text.Number.digit_char picomx.Text.Number.scan_digits picomx.Text.Number.parse_uint
    picomx.Text.Number.format_digits format_uint picomx.Text.Number.parse_size
    picomx.Archive.IdPath.id_digits picomx.Archive.IdPath.fmt_digit picomx.Archive.IdPath.components
    picomx.Archive.IdPath.message_relative_path picomx.Archive.IdPath.next_id
    picomx.Archive.IdPath.fold_parts picomx.Archive.IdPath.check_path
    picomx.Archive.IdPath.id_from_parts picomx.Archive.IdPath.message_id_from_path message_path
    picomx.Archive.MessagePath.cut_last_mark picomx.Archive.MessagePath.check_message
    picomx.Archive.MessagePath.read_parts message_from_path picomx.Archive.Directories.count_of
    picomx.Archive.Directories.set_count picomx.Archive.Directories.delete_count
    picomx.Archive.Directories.dir picomx.Archive.Directories.ancestors_from
    picomx.Archive.Directories.ancestors picomx.Archive.Directories.add_all
    picomx.Archive.Directories.add picomx.Archive.Directories.remove_one
    picomx.Archive.Directories.remove_all picomx.Archive.Directories.remove
    picomx.Archive.Directories.Index.scan_prefix picomx.Archive.Directories.Index.check_depth
    picomx.Archive.Directories.Index.valid_parts picomx.Archive.Directories.Index.valid_directory
    picomx.Archive.Directories.Index.bytes_ltb picomx.Archive.Directories.Index.leaf_entry
    picomx.Archive.Directories.Index.collect_leaves picomx.Archive.Directories.Index.insert_leaf
    picomx.Archive.Directories.Index.sort_leaves picomx.Archive.Directories.Index.accumulate
    picomx.Archive.Directories.Index.add_expected picomx.Archive.Directories.Index.expected_counts
    picomx.Archive.Directories.Index.matches picomx.Archive.Directories.Index.check_expected
    build_directory_index picomx.Archive.Directories.Index.search_leaf
    picomx.Archive.Directories.Index.select_leaf picomx.Archive.Reader.is_hex_char valid_object_id
    missing picomx.Archive.Reader.read_header line_breaks request
    picomx.Archive.Reader.reader_locked picomx.Archive.Reader.abort_reader
    picomx.Archive.Reader.close_reader picomx.Archive.Reader.settle
    picomx.Archive.Reader.new_blob_reader picomx.Archive.Reader.lease
    picomx.Archive.Reader.read_reply picomx.Archive.Reader.query_object
    picomx.Archive.Reader.ask_reader picomx.Archive.Reader.ask picomx.Archive.Reader.object_info
    picomx.Archive.Reader.read_object picomx.Archive.Reader.read_blob
    picomx.Archive.Reader.pipe_count picomx.Archive.Reader.read_count
    picomx.Archive.Reader.read_pipe picomx.Archive.Reader.read picomx.Archive.Reader.drain
    picomx.Archive.Reader.close_blob hex picomx.Archive.Tree.member picomx.Archive.Tree.bad_name
    picomx.Archive.Tree.is_mode refused_entry picomx.Archive.Tree.make_entry
    picomx.Archive.Tree.read_entry picomx.Archive.Tree.next_entry parse_entries parse_tree
    picomx.Archive.Tree.finish_tree picomx.Archive.Tree.close_tree
    picomx.Archive.Tree.after_read_all picomx.Archive.Tree.read_tree picomx.Archive.Tree.use_tree
    tree picomx.Archive.Tree.entry_message picomx.Archive.Tree.entry_messages
    picomx.Archive.Tree.insert_message picomx.Archive.Tree.sort_messages
    picomx.Archive.Tree.has_duplicate directory_messages entry_of encode IsTree
    picomx.Archive.Mailbox.check_count picomx.Archive.Mailbox.pick
    picomx.Archive.Mailbox.search_path picomx.Archive.Mailbox.search_id
    picomx.Archive.Mailbox.id_directory picomx.Archive.Mailbox.id_leaf
    picomx.Archive.Mailbox.pick_id picomx.Archive.Mailbox.select
    picomx.Archive.Mailbox.after_callback picomx.Archive.Mailbox.visit_messages
    picomx.Archive.Mailbox.size_at picomx.Archive.Mailbox.after_visit
    picomx.Archive.Mailbox.visit_listing picomx.Archive.Mailbox.visit_leaves listing
    picomx.Text.Unicode.is_ascii picomx.Text.Unicode.upper_char picomx.Text.Unicode.lower_char
    is_space picomx.Text.Unicode.trim_left picomx.Text.Unicode.trim_ascii
    picomx.Text.Unicode.add_char picomx.Text.Unicode.words_ascii picomx.Text.Unicode.to_upper
    picomx.Text.Unicode.to_lower picomx.Text.Unicode.trim_space picomx.Text.Unicode.fields
    picomx.Text.Unicode.equal_fold picomx.Archive.Mailbox.Maildrop.continue_visit
two_listed = refl

blob_cat : CatFile
blob_cat = record {
  starts = true;
  answer = λ line. some (object_reply tree_oid (codes "blob") (codes "hello"));
}

use_object-framing_example :
    (got : Bytes) × (rest : Bytes) × (codes "hello" ≡ got ++ rest)
    × (use_object plain_unicode blob_cat
          (codes "c:1/001-s5.eml")
          (codes "blob")
          ((0, 2) ∷ (7, 1) ∷ [])
          idle
        ≡ (idle, ok (header_of tree_oid (codes "blob") 5, got, none)))
unfolding bytes_eq picomx.Text.Bytes.split picomx.Text.Bytes.join picomx.Text.Bytes.trim_suffix
    picomx.Text.Bytes.has_prefix picomx.Text.Bytes.cut picomx.Text.Number.digit_value
    picomx.Text.Number.digit_char picomx.Text.Number.scan_digits picomx.Text.Number.parse_uint
    picomx.Text.Number.format_digits format_uint picomx.Text.Number.parse_size
    picomx.Archive.IdPath.id_digits picomx.Archive.IdPath.fmt_digit picomx.Archive.IdPath.components
    picomx.Archive.IdPath.message_relative_path picomx.Archive.IdPath.next_id
    picomx.Archive.IdPath.fold_parts picomx.Archive.IdPath.check_path
    picomx.Archive.IdPath.id_from_parts picomx.Archive.IdPath.message_id_from_path message_path
    picomx.Archive.MessagePath.cut_last_mark picomx.Archive.MessagePath.check_message
    picomx.Archive.MessagePath.read_parts message_from_path picomx.Archive.Directories.count_of
    picomx.Archive.Directories.set_count picomx.Archive.Directories.delete_count
    picomx.Archive.Directories.dir picomx.Archive.Directories.ancestors_from
    picomx.Archive.Directories.ancestors picomx.Archive.Directories.add_all
    picomx.Archive.Directories.add picomx.Archive.Directories.remove_one
    picomx.Archive.Directories.remove_all picomx.Archive.Directories.remove
    picomx.Archive.Directories.Index.scan_prefix picomx.Archive.Directories.Index.check_depth
    picomx.Archive.Directories.Index.valid_parts picomx.Archive.Directories.Index.valid_directory
    picomx.Archive.Directories.Index.bytes_ltb picomx.Archive.Directories.Index.leaf_entry
    picomx.Archive.Directories.Index.collect_leaves picomx.Archive.Directories.Index.insert_leaf
    picomx.Archive.Directories.Index.sort_leaves picomx.Archive.Directories.Index.accumulate
    picomx.Archive.Directories.Index.add_expected picomx.Archive.Directories.Index.expected_counts
    picomx.Archive.Directories.Index.matches picomx.Archive.Directories.Index.check_expected
    build_directory_index picomx.Archive.Directories.Index.search_leaf
    picomx.Archive.Directories.Index.select_leaf picomx.Archive.Reader.is_hex_char valid_object_id
    missing picomx.Archive.Reader.read_header line_breaks request
    picomx.Archive.Reader.reader_locked picomx.Archive.Reader.abort_reader
    picomx.Archive.Reader.close_reader picomx.Archive.Reader.settle
    picomx.Archive.Reader.new_blob_reader picomx.Archive.Reader.lease
    picomx.Archive.Reader.read_reply picomx.Archive.Reader.query_object
    picomx.Archive.Reader.ask_reader picomx.Archive.Reader.ask picomx.Archive.Reader.object_info
    picomx.Archive.Reader.read_object picomx.Archive.Reader.read_blob
    picomx.Archive.Reader.pipe_count picomx.Archive.Reader.read_count
    picomx.Archive.Reader.read_pipe picomx.Archive.Reader.read picomx.Archive.Reader.drain
    picomx.Archive.Reader.close_blob hex picomx.Archive.Tree.member picomx.Archive.Tree.bad_name
    picomx.Archive.Tree.is_mode refused_entry picomx.Archive.Tree.make_entry
    picomx.Archive.Tree.read_entry picomx.Archive.Tree.next_entry parse_entries parse_tree
    picomx.Archive.Tree.finish_tree picomx.Archive.Tree.close_tree
    picomx.Archive.Tree.after_read_all picomx.Archive.Tree.read_tree picomx.Archive.Tree.use_tree
    tree picomx.Archive.Tree.entry_message picomx.Archive.Tree.entry_messages
    picomx.Archive.Tree.insert_message picomx.Archive.Tree.sort_messages
    picomx.Archive.Tree.has_duplicate directory_messages entry_of encode IsTree
    picomx.Archive.Mailbox.check_count picomx.Archive.Mailbox.pick
    picomx.Archive.Mailbox.search_path picomx.Archive.Mailbox.search_id
    picomx.Archive.Mailbox.id_directory picomx.Archive.Mailbox.id_leaf
    picomx.Archive.Mailbox.pick_id picomx.Archive.Mailbox.select
    picomx.Archive.Mailbox.after_callback picomx.Archive.Mailbox.visit_messages
    picomx.Archive.Mailbox.size_at picomx.Archive.Mailbox.after_visit
    picomx.Archive.Mailbox.visit_listing picomx.Archive.Mailbox.visit_leaves listing
    picomx.Text.Unicode.is_ascii picomx.Text.Unicode.upper_char picomx.Text.Unicode.lower_char
    is_space picomx.Text.Unicode.trim_left picomx.Text.Unicode.trim_ascii
    picomx.Text.Unicode.add_char picomx.Text.Unicode.words_ascii picomx.Text.Unicode.to_upper
    picomx.Text.Unicode.to_lower picomx.Text.Unicode.trim_space picomx.Text.Unicode.fields
    picomx.Text.Unicode.equal_fold picomx.Archive.Mailbox.Maildrop.continue_visit blob_cat
use_object-framing_example =
    use_object-framing plain_unicode blob_cat (codes "c:1/001-s5.eml") tree_oid (codes "blob")
      (codes "hello") ((0, 2) ∷ (7, 1) ∷ []) idle (refl, inl refl) refl
      (((refl, refl), ((refl, refl), ((refl, refl), ((refl, refl), tt)))), λ e. cc)
      (refl, refl, omega arith)

read_all-total_example :
    read_all tiny_reads 10
      (codes "hello" ++ 10 ∷ [])
      (opened (header_of tree_oid (codes "blob") 5) (codes "hello"))
    ≡ ((10 ∷ [], opened (header_of tree_oid (codes "blob") 5) []), ok (codes "hello"))
read_all-total_example =
    read_all-total tiny_reads (header_of tree_oid (codes "blob") 5) 10 (codes "hello") (omega arith)

raw_pair-IsTree : IsTree 20 [] raw_pair
unfolding bytes_eq picomx.Text.Bytes.split picomx.Text.Bytes.join picomx.Text.Bytes.trim_suffix
    picomx.Text.Bytes.has_prefix picomx.Text.Bytes.cut picomx.Text.Number.digit_value
    picomx.Text.Number.digit_char picomx.Text.Number.scan_digits picomx.Text.Number.parse_uint
    picomx.Text.Number.format_digits format_uint picomx.Text.Number.parse_size
    picomx.Archive.IdPath.id_digits picomx.Archive.IdPath.fmt_digit picomx.Archive.IdPath.components
    picomx.Archive.IdPath.message_relative_path picomx.Archive.IdPath.next_id
    picomx.Archive.IdPath.fold_parts picomx.Archive.IdPath.check_path
    picomx.Archive.IdPath.id_from_parts picomx.Archive.IdPath.message_id_from_path message_path
    picomx.Archive.MessagePath.cut_last_mark picomx.Archive.MessagePath.check_message
    picomx.Archive.MessagePath.read_parts message_from_path picomx.Archive.Directories.count_of
    picomx.Archive.Directories.set_count picomx.Archive.Directories.delete_count
    picomx.Archive.Directories.dir picomx.Archive.Directories.ancestors_from
    picomx.Archive.Directories.ancestors picomx.Archive.Directories.add_all
    picomx.Archive.Directories.add picomx.Archive.Directories.remove_one
    picomx.Archive.Directories.remove_all picomx.Archive.Directories.remove
    picomx.Archive.Directories.Index.scan_prefix picomx.Archive.Directories.Index.check_depth
    picomx.Archive.Directories.Index.valid_parts picomx.Archive.Directories.Index.valid_directory
    picomx.Archive.Directories.Index.bytes_ltb picomx.Archive.Directories.Index.leaf_entry
    picomx.Archive.Directories.Index.collect_leaves picomx.Archive.Directories.Index.insert_leaf
    picomx.Archive.Directories.Index.sort_leaves picomx.Archive.Directories.Index.accumulate
    picomx.Archive.Directories.Index.add_expected picomx.Archive.Directories.Index.expected_counts
    picomx.Archive.Directories.Index.matches picomx.Archive.Directories.Index.check_expected
    build_directory_index picomx.Archive.Directories.Index.search_leaf
    picomx.Archive.Directories.Index.select_leaf picomx.Archive.Reader.is_hex_char valid_object_id
    missing picomx.Archive.Reader.read_header line_breaks request
    picomx.Archive.Reader.reader_locked picomx.Archive.Reader.abort_reader
    picomx.Archive.Reader.close_reader picomx.Archive.Reader.settle
    picomx.Archive.Reader.new_blob_reader picomx.Archive.Reader.lease
    picomx.Archive.Reader.read_reply picomx.Archive.Reader.query_object
    picomx.Archive.Reader.ask_reader picomx.Archive.Reader.ask picomx.Archive.Reader.object_info
    picomx.Archive.Reader.read_object picomx.Archive.Reader.read_blob
    picomx.Archive.Reader.pipe_count picomx.Archive.Reader.read_count
    picomx.Archive.Reader.read_pipe picomx.Archive.Reader.read picomx.Archive.Reader.drain
    picomx.Archive.Reader.close_blob hex picomx.Archive.Tree.member picomx.Archive.Tree.bad_name
    picomx.Archive.Tree.is_mode refused_entry picomx.Archive.Tree.make_entry
    picomx.Archive.Tree.read_entry picomx.Archive.Tree.next_entry parse_entries parse_tree
    picomx.Archive.Tree.finish_tree picomx.Archive.Tree.close_tree
    picomx.Archive.Tree.after_read_all picomx.Archive.Tree.read_tree picomx.Archive.Tree.use_tree
    tree picomx.Archive.Tree.entry_message picomx.Archive.Tree.entry_messages
    picomx.Archive.Tree.insert_message picomx.Archive.Tree.sort_messages
    picomx.Archive.Tree.has_duplicate directory_messages entry_of encode IsTree
    picomx.Archive.Mailbox.check_count picomx.Archive.Mailbox.pick
    picomx.Archive.Mailbox.search_path picomx.Archive.Mailbox.search_id
    picomx.Archive.Mailbox.id_directory picomx.Archive.Mailbox.id_leaf
    picomx.Archive.Mailbox.pick_id picomx.Archive.Mailbox.select
    picomx.Archive.Mailbox.after_callback picomx.Archive.Mailbox.visit_messages
    picomx.Archive.Mailbox.size_at picomx.Archive.Mailbox.after_visit
    picomx.Archive.Mailbox.visit_listing picomx.Archive.Mailbox.visit_leaves listing
    picomx.Text.Unicode.is_ascii picomx.Text.Unicode.upper_char picomx.Text.Unicode.lower_char
    is_space picomx.Text.Unicode.trim_left picomx.Text.Unicode.trim_ascii
    picomx.Text.Unicode.add_char picomx.Text.Unicode.words_ascii picomx.Text.Unicode.to_upper
    picomx.Text.Unicode.to_lower picomx.Text.Unicode.trim_space picomx.Text.Unicode.fields
    picomx.Text.Unicode.equal_fold picomx.Archive.Mailbox.Maildrop.continue_visit
raw_pair-IsTree = (
  refl,
  (refl, (refl, (refl, (refl, (refl, (refl, (refl, (refl, (refl, (refl, tt)))))))))),
  refl,
  (
    refl,
    (refl, (refl, (refl, (refl, (refl, (refl, (refl, (refl, (refl, (refl, tt)))))))))),
    refl,
    tt,
  ),
)

parse_tree-encode_example : parse_tree tree_bytes 20 ≡ ok (map entry_of raw_pair)
parse_tree-encode_example = parse_tree-encode 20 raw_pair raw_pair-IsTree

parse_tree-IsDecoded_example : IsDecoded 20 [] tree_bytes (map entry_of raw_pair)
parse_tree-IsDecoded_example =
    parse_tree-IsDecoded 20 tree_bytes (map entry_of raw_pair) parse_tree-encode_example

pair_read : directory_messages (codes "1") (map entry_of raw_pair) ≡ ok two_messages
unfolding bytes_eq picomx.Text.Bytes.split picomx.Text.Bytes.join picomx.Text.Bytes.trim_suffix
    picomx.Text.Bytes.has_prefix picomx.Text.Bytes.cut picomx.Text.Number.digit_value
    picomx.Text.Number.digit_char picomx.Text.Number.scan_digits picomx.Text.Number.parse_uint
    picomx.Text.Number.format_digits format_uint picomx.Text.Number.parse_size
    picomx.Archive.IdPath.id_digits picomx.Archive.IdPath.fmt_digit picomx.Archive.IdPath.components
    picomx.Archive.IdPath.message_relative_path picomx.Archive.IdPath.next_id
    picomx.Archive.IdPath.fold_parts picomx.Archive.IdPath.check_path
    picomx.Archive.IdPath.id_from_parts picomx.Archive.IdPath.message_id_from_path message_path
    picomx.Archive.MessagePath.cut_last_mark picomx.Archive.MessagePath.check_message
    picomx.Archive.MessagePath.read_parts message_from_path picomx.Archive.Directories.count_of
    picomx.Archive.Directories.set_count picomx.Archive.Directories.delete_count
    picomx.Archive.Directories.dir picomx.Archive.Directories.ancestors_from
    picomx.Archive.Directories.ancestors picomx.Archive.Directories.add_all
    picomx.Archive.Directories.add picomx.Archive.Directories.remove_one
    picomx.Archive.Directories.remove_all picomx.Archive.Directories.remove
    picomx.Archive.Directories.Index.scan_prefix picomx.Archive.Directories.Index.check_depth
    picomx.Archive.Directories.Index.valid_parts picomx.Archive.Directories.Index.valid_directory
    picomx.Archive.Directories.Index.bytes_ltb picomx.Archive.Directories.Index.leaf_entry
    picomx.Archive.Directories.Index.collect_leaves picomx.Archive.Directories.Index.insert_leaf
    picomx.Archive.Directories.Index.sort_leaves picomx.Archive.Directories.Index.accumulate
    picomx.Archive.Directories.Index.add_expected picomx.Archive.Directories.Index.expected_counts
    picomx.Archive.Directories.Index.matches picomx.Archive.Directories.Index.check_expected
    build_directory_index picomx.Archive.Directories.Index.search_leaf
    picomx.Archive.Directories.Index.select_leaf picomx.Archive.Reader.is_hex_char valid_object_id
    missing picomx.Archive.Reader.read_header line_breaks request
    picomx.Archive.Reader.reader_locked picomx.Archive.Reader.abort_reader
    picomx.Archive.Reader.close_reader picomx.Archive.Reader.settle
    picomx.Archive.Reader.new_blob_reader picomx.Archive.Reader.lease
    picomx.Archive.Reader.read_reply picomx.Archive.Reader.query_object
    picomx.Archive.Reader.ask_reader picomx.Archive.Reader.ask picomx.Archive.Reader.object_info
    picomx.Archive.Reader.read_object picomx.Archive.Reader.read_blob
    picomx.Archive.Reader.pipe_count picomx.Archive.Reader.read_count
    picomx.Archive.Reader.read_pipe picomx.Archive.Reader.read picomx.Archive.Reader.drain
    picomx.Archive.Reader.close_blob hex picomx.Archive.Tree.member picomx.Archive.Tree.bad_name
    picomx.Archive.Tree.is_mode refused_entry picomx.Archive.Tree.make_entry
    picomx.Archive.Tree.read_entry picomx.Archive.Tree.next_entry parse_entries parse_tree
    picomx.Archive.Tree.finish_tree picomx.Archive.Tree.close_tree
    picomx.Archive.Tree.after_read_all picomx.Archive.Tree.read_tree picomx.Archive.Tree.use_tree
    tree picomx.Archive.Tree.entry_message picomx.Archive.Tree.entry_messages
    picomx.Archive.Tree.insert_message picomx.Archive.Tree.sort_messages
    picomx.Archive.Tree.has_duplicate directory_messages entry_of encode IsTree
    picomx.Archive.Mailbox.check_count picomx.Archive.Mailbox.pick
    picomx.Archive.Mailbox.search_path picomx.Archive.Mailbox.search_id
    picomx.Archive.Mailbox.id_directory picomx.Archive.Mailbox.id_leaf
    picomx.Archive.Mailbox.pick_id picomx.Archive.Mailbox.select
    picomx.Archive.Mailbox.after_callback picomx.Archive.Mailbox.visit_messages
    picomx.Archive.Mailbox.size_at picomx.Archive.Mailbox.after_visit
    picomx.Archive.Mailbox.visit_listing picomx.Archive.Mailbox.visit_leaves listing
    picomx.Text.Unicode.is_ascii picomx.Text.Unicode.upper_char picomx.Text.Unicode.lower_char
    is_space picomx.Text.Unicode.trim_left picomx.Text.Unicode.trim_ascii
    picomx.Text.Unicode.add_char picomx.Text.Unicode.words_ascii picomx.Text.Unicode.to_upper
    picomx.Text.Unicode.to_lower picomx.Text.Unicode.trim_space picomx.Text.Unicode.fields
    picomx.Text.Unicode.equal_fold picomx.Archive.Mailbox.Maildrop.continue_visit
pair_read = refl

directory_messages-Ascends_example :
    Ascends two_messages × All IsNamed two_messages × (length two_messages ≡ 2)
directory_messages-Ascends_example =
    directory_messages-Ascends (codes "1") (map entry_of raw_pair) two_messages pair_read

parse_entries-Parses_example : Parses 20 [] tree_bytes (parse_entries 77 20 [] tree_bytes)
unfolding bytes_eq picomx.Text.Bytes.split picomx.Text.Bytes.join picomx.Text.Bytes.trim_suffix
    picomx.Text.Bytes.has_prefix picomx.Text.Bytes.cut picomx.Text.Number.digit_value
    picomx.Text.Number.digit_char picomx.Text.Number.scan_digits picomx.Text.Number.parse_uint
    picomx.Text.Number.format_digits format_uint picomx.Text.Number.parse_size
    picomx.Archive.IdPath.id_digits picomx.Archive.IdPath.fmt_digit picomx.Archive.IdPath.components
    picomx.Archive.IdPath.message_relative_path picomx.Archive.IdPath.next_id
    picomx.Archive.IdPath.fold_parts picomx.Archive.IdPath.check_path
    picomx.Archive.IdPath.id_from_parts picomx.Archive.IdPath.message_id_from_path message_path
    picomx.Archive.MessagePath.cut_last_mark picomx.Archive.MessagePath.check_message
    picomx.Archive.MessagePath.read_parts message_from_path picomx.Archive.Directories.count_of
    picomx.Archive.Directories.set_count picomx.Archive.Directories.delete_count
    picomx.Archive.Directories.dir picomx.Archive.Directories.ancestors_from
    picomx.Archive.Directories.ancestors picomx.Archive.Directories.add_all
    picomx.Archive.Directories.add picomx.Archive.Directories.remove_one
    picomx.Archive.Directories.remove_all picomx.Archive.Directories.remove
    picomx.Archive.Directories.Index.scan_prefix picomx.Archive.Directories.Index.check_depth
    picomx.Archive.Directories.Index.valid_parts picomx.Archive.Directories.Index.valid_directory
    picomx.Archive.Directories.Index.bytes_ltb picomx.Archive.Directories.Index.leaf_entry
    picomx.Archive.Directories.Index.collect_leaves picomx.Archive.Directories.Index.insert_leaf
    picomx.Archive.Directories.Index.sort_leaves picomx.Archive.Directories.Index.accumulate
    picomx.Archive.Directories.Index.add_expected picomx.Archive.Directories.Index.expected_counts
    picomx.Archive.Directories.Index.matches picomx.Archive.Directories.Index.check_expected
    build_directory_index picomx.Archive.Directories.Index.search_leaf
    picomx.Archive.Directories.Index.select_leaf picomx.Archive.Reader.is_hex_char valid_object_id
    missing picomx.Archive.Reader.read_header line_breaks request
    picomx.Archive.Reader.reader_locked picomx.Archive.Reader.abort_reader
    picomx.Archive.Reader.close_reader picomx.Archive.Reader.settle
    picomx.Archive.Reader.new_blob_reader picomx.Archive.Reader.lease
    picomx.Archive.Reader.read_reply picomx.Archive.Reader.query_object
    picomx.Archive.Reader.ask_reader picomx.Archive.Reader.ask picomx.Archive.Reader.object_info
    picomx.Archive.Reader.read_object picomx.Archive.Reader.read_blob
    picomx.Archive.Reader.pipe_count picomx.Archive.Reader.read_count
    picomx.Archive.Reader.read_pipe picomx.Archive.Reader.read picomx.Archive.Reader.drain
    picomx.Archive.Reader.close_blob hex picomx.Archive.Tree.member picomx.Archive.Tree.bad_name
    picomx.Archive.Tree.is_mode refused_entry picomx.Archive.Tree.make_entry
    picomx.Archive.Tree.read_entry picomx.Archive.Tree.next_entry parse_entries parse_tree
    picomx.Archive.Tree.finish_tree picomx.Archive.Tree.close_tree
    picomx.Archive.Tree.after_read_all picomx.Archive.Tree.read_tree picomx.Archive.Tree.use_tree
    tree picomx.Archive.Tree.entry_message picomx.Archive.Tree.entry_messages
    picomx.Archive.Tree.insert_message picomx.Archive.Tree.sort_messages
    picomx.Archive.Tree.has_duplicate directory_messages entry_of encode IsTree
    picomx.Archive.Mailbox.check_count picomx.Archive.Mailbox.pick
    picomx.Archive.Mailbox.search_path picomx.Archive.Mailbox.search_id
    picomx.Archive.Mailbox.id_directory picomx.Archive.Mailbox.id_leaf
    picomx.Archive.Mailbox.pick_id picomx.Archive.Mailbox.select
    picomx.Archive.Mailbox.after_callback picomx.Archive.Mailbox.visit_messages
    picomx.Archive.Mailbox.size_at picomx.Archive.Mailbox.after_visit
    picomx.Archive.Mailbox.visit_listing picomx.Archive.Mailbox.visit_leaves listing
    picomx.Text.Unicode.is_ascii picomx.Text.Unicode.upper_char picomx.Text.Unicode.lower_char
    is_space picomx.Text.Unicode.trim_left picomx.Text.Unicode.trim_ascii
    picomx.Text.Unicode.add_char picomx.Text.Unicode.words_ascii picomx.Text.Unicode.to_upper
    picomx.Text.Unicode.to_lower picomx.Text.Unicode.trim_space picomx.Text.Unicode.fields
    picomx.Text.Unicode.equal_fold picomx.Archive.Mailbox.Maildrop.continue_visit
parse_entries-Parses_example = parse_entries-Parses 77 20 [] tree_bytes (omega arith)
