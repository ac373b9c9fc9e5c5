-- ===== src/Archive/Tests.antt =====
-- Concrete messages, indexes and stores.
pub mod Mail
pub mod Box
mod Upkeep
use picomx.Archive.Cache.{DirectoryKey, DirectoryCache, same_key, get, put}
use picomx.Archive.Cache.Recency.{put-bound, put-get}
use picomx.Prelude.{
  ℕ, ◌+◌, ◌≤◌, ◌≡◌, refl, true, false, none, some, List, [], ◌∷◌, arith, length, ◌⊎◌,
}
use picomx.Text.Bytes.{Bytes, codes, bytes_eq}
use picomx.Text.Number.{max_uint64}
use picomx.Archive.Errors.{ok}
use picomx.Archive.IdPath.{message_relative_path, message_id_from_path}
use picomx.Archive.IdPath.RoundTrip.{id_from_path-relative_path}
use picomx.Archive.MessagePath.{Message, message_path, message_from_path}
use picomx.Archive.MessagePath.RoundTrip.{from_path-message_path}
use picomx.Archive.Directories.{Counts, add}
use picomx.Archive.Directories.Index.{Leaf, DirectoryIndex, build_directory_index, select_leaf}
use picomx.Archive.Directories.Select.{IsIndex, Selects, build-IsIndex, select_leaf-Selects}
use picomx.Archive.Quota.{DailyReceipt, receipt_usage, charge}
use picomx.Archive.Store.{MailboxState, StagedMessage, Store, Answers, publish, confirmed}
use picomx.Archive.Store.Budget.{IsBudgeted, charged, total_held}
use picomx.Archive.Store.Runs.{
  Operation, reserve_first, open_file, copy_chunk, close_file, publish_one, perform_all,
  perform_all-IsBudgeted,
}
use picomx.Archive.Store.Visible.{Outcome, publish-Outcome, publish-charge}

abbrev two_counts : Counts
two_counts = add (add (add [] (codes "1")) (codes "1")) (codes "2/001")

id_from_path-relative_path_example :
    (path : Bytes) × (message_relative_path 5000 ≡ some path)
    × (message_id_from_path path ≡ some 5000)
id_from_path-relative_path_example = id_from_path-relative_path 5000 (omega arith) (omega arith)

from_path-message_path_example :
    (path : Bytes) × (message_path 1500 321 ≡ some path)
    × (message_from_path path ≡ some (record { id = 1500; size = 321; path = path }))
from_path-message_path_example =
    from_path-message_path 1500 321 (omega arith) (omega arith) (omega arith)

abbrev message_1500 : Message
message_1500 = record { id = 1500; size = 321; path = codes "2/001/1dc-s321.eml" }

abbrev three_messages : DirectoryIndex
three_messages = record {
  leaves =
      record { path = codes "1"; count = 2; accumulated = 2 }
      ∷ record { path = codes "2/001"; count = 1; accumulated = 3 }
      ∷ [];
  total = 3;
}

three_built : build_directory_index two_counts 1100 ≡ some three_messages
unfolding picomx.Archive.Directories.count_of picomx.Archive.Directories.set_count
    picomx.Archive.Directories.delete_count picomx.Archive.Directories.dir
    picomx.Archive.Directories.ancestors_from picomx.Archive.Directories.ancestors
    picomx.Archive.Directories.add_all add picomx.Archive.Directories.remove_one
    picomx.Archive.Directories.remove_all picomx.Archive.Directories.remove
    picomx.Archive.Directories.Index.scan_prefix picomx.Archive.Directories.Index.check_depth
    picomx.Archive.Directories.Index.valid_parts picomx.Archive.Directories.Index.valid_directory
    picomx.Archive.Directories.Index.bytes_ltb picomx.Archive.Directories.Index.leaf_entry
    picomx.Archive.Directories.Index.collect_leaves picomx.Archive.Directories.Index.insert_leaf
    picomx.Archive.Directories.Index.sort_leaves picomx.Archive.Directories.Index.accumulate
    picomx.Archive.Directories.Index.add_expected picomx.Archive.Directories.Index.expected_counts
    picomx.Archive.Directories.Index.matches picomx.Archive.Directories.Index.check_expected
    build_directory_index picomx.Archive.Directories.Index.search_leaf select_leaf
    picomx.Text.Bytes.bytes_eq picomx.Text.Bytes.split picomx.Text.Bytes.join
    picomx.Text.Bytes.trim_suffix picomx.Text.Bytes.has_prefix picomx.Text.Bytes.cut
    picomx.Text.Number.digit_value picomx.Text.Number.digit_char picomx.Text.Number.scan_digits
    picomx.Text.Number.parse_uint picomx.Text.Number.format_digits picomx.Text.Number.format_uint
three_built = refl

build-IsIndex_example : IsIndex 1100 three_messages
build-IsIndex_example = build-IsIndex two_counts 1100 three_messages three_built

select_leaf-Selects_example :
    (leaf : Leaf) × (offset : ℕ) × (select_leaf three_messages 2 ≡ some (leaf, offset))
    × Selects three_messages.leaves 0 2 leaf offset
select_leaf-Selects_example =
    select_leaf-Selects two_counts 1100 three_messages 2 three_built (omega arith) (omega arith)

-- A store that has staged one message of two bytes.
abbrev staged_two : StagedMessage
staged_two = record {
  size = 2;
  reserved = 4096;
  done = false;
  has_file = true;
  consumed = 2;
  content = codes "ab";
}

abbrev pub one_staged : Store
one_staged = record {
  state = record {
    last_id = 0;
    total_octets = 0;
    directories = [];
    index = record { leaves = []; total = 0 };
  };
  head_id = codes "h0";
  failure = none;
  max_daily_bytes = 10000;
  receipt = none;
  reserved_bytes = 4096;
  staged = staged_two ∷ [];
  commits = [];
}

abbrev pub all_well : Answers
all_well = record {
  file_read = true;
  receipt_written = true;
  current_head = codes "h0";
  importer_runs = true;
  imported = confirmed (codes "h1");
}

pub one_staged-IsBudgeted : IsBudgeted one_staged
unfolding total_held charge
one_staged-IsBudgeted = record {
  counted = refl;
  within = omega arith;
  covered = ((λ live. (refl, omega arith)), tt);
  charge_within = omega arith;
  limit_fits = omega arith;
}

abbrev session_of_two : List Operation
session_of_two =
    reserve_first (codes "2026-01-01")
    ∷ open_file 1
    ∷ copy_chunk (codes "2026-01-01") 1 (codes "hello")
    ∷ close_file 1
    ∷ publish_one (codes "2026-01-02") 1 all_well
    ∷ []

perform_all-IsBudgeted_example : IsBudgeted (perform_all one_staged session_of_two)
perform_all-IsBudgeted_example =
    perform_all-IsBudgeted one_staged session_of_two one_staged-IsBudgeted

publish-Outcome_example :
    Outcome one_staged
      (codes "2026-01-01")
      staged_two
      (publish one_staged (codes "2026-01-01") 0 all_well)
publish-Outcome_example = publish-Outcome one_staged (codes "2026-01-01") 0 all_well staged_two refl

abbrev one_published : Store
one_published = (publish one_staged (codes "2026-01-01") 0 all_well).0

published_one :
    publish one_staged (codes "2026-01-01") 0 all_well
    ≡ (one_published, ok (1, codes "1/001-s2.eml"))
unfolding picomx.Archive.IdPath.id_digits picomx.Archive.IdPath.fmt_digit
    picomx.Archive.IdPath.components message_relative_path picomx.Archive.IdPath.next_id
    picomx.Archive.IdPath.fold_parts picomx.Archive.IdPath.check_path
    picomx.Archive.IdPath.id_from_parts message_id_from_path picomx.Text.Bytes.bytes_eq
    picomx.Text.Bytes.split picomx.Text.Bytes.join picomx.Text.Bytes.trim_suffix
    picomx.Text.Bytes.has_prefix picomx.Text.Bytes.cut picomx.Text.Number.digit_value
    picomx.Text.Number.digit_char picomx.Text.Number.scan_digits picomx.Text.Number.parse_uint
    picomx.Text.Number.format_digits picomx.Text.Number.format_uint message_path
    picomx.Archive.MessagePath.cut_last_mark picomx.Archive.MessagePath.check_message
    picomx.Archive.MessagePath.read_parts message_from_path picomx.Archive.Directories.count_of
    picomx.Archive.Directories.set_count picomx.Archive.Directories.delete_count
    picomx.Archive.Directories.dir picomx.Archive.Directories.ancestors_from
    picomx.Archive.Directories.ancestors picomx.Archive.Directories.add_all add
    picomx.Archive.Directories.remove_one picomx.Archive.Directories.remove_all
    picomx.Archive.Directories.remove picomx.Archive.Directories.Index.scan_prefix
    picomx.Archive.Directories.Index.check_depth picomx.Archive.Directories.Index.valid_parts
    picomx.Archive.Directories.Index.valid_directory picomx.Archive.Directories.Index.bytes_ltb
    picomx.Archive.Directories.Index.leaf_entry picomx.Archive.Directories.Index.collect_leaves
    picomx.Archive.Directories.Index.insert_leaf picomx.Archive.Directories.Index.sort_leaves
    picomx.Archive.Directories.Index.accumulate picomx.Archive.Directories.Index.add_expected
    picomx.Archive.Directories.Index.expected_counts picomx.Archive.Directories.Index.matches
    picomx.Archive.Directories.Index.check_expected build_directory_index
    picomx.Archive.Directories.Index.search_leaf select_leaf receipt_usage
    picomx.Archive.Quota.can_reserve picomx.Archive.Quota.charge
    picomx.Archive.Store.can_reserve_now picomx.Archive.Store.check_receive
    picomx.Archive.Store.released picomx.Archive.Store.discard_message picomx.Archive.Store.discard
    picomx.Archive.Store.begin_stage picomx.Archive.Store.create_file
    picomx.Archive.Store.take_chunk picomx.Archive.Store.read_chunk
    picomx.Archive.Store.finish_stage picomx.Archive.Store.import_commit
    picomx.Archive.Store.check_commit picomx.Archive.Store.commit_changes
    picomx.Archive.Store.next_counts picomx.Archive.Store.plan_publish
    picomx.Archive.Store.next_receipt picomx.Archive.Store.finish_publish
    picomx.Archive.Store.carry_out picomx.Archive.Store.publish_message publish
published_one = refl

publish-charge_example :
    (charged one_published.receipt
      ≡ (receipt_usage one_staged.receipt (codes "2026-01-01")).1 + staged_two.reserved)
    × (staged_two.size ≤ staged_two.reserved)
publish-charge_example =
    publish-charge one_staged one_published (codes "2026-01-01") 0 1 (codes "1/001-s2.eml") all_well
      staged_two one_staged-IsBudgeted refl published_one

abbrev first_key : DirectoryKey
first_key = record { path = codes "1"; tree = codes "t1" }

abbrev second_key : DirectoryKey
second_key = record { path = codes "1"; tree = codes "t2" }

abbrev one_cached : DirectoryCache
one_cached = record { capacity = 1; recency = record { key = first_key; messages = [] } ∷ [] }

put-bound_example :
    (length (put one_cached second_key (message_1500 ∷ [])).recency ≤ 1)
    × (length (get one_cached second_key).0.recency ≤ 1)
put-bound_example = put-bound one_cached second_key (message_1500 ∷ []) (omega arith)

keys_differ : same_key first_key second_key ≡ false
unfolding same_key bytes_eq
keys_differ = refl

put-get_example :
    ((get (put one_cached second_key (message_1500 ∷ [])) second_key).1 ≡ some (message_1500 ∷ []))
    × (((get (put one_cached second_key (message_1500 ∷ [])) first_key).1 ≡ none)
        ⊎ ((get (put one_cached second_key (message_1500 ∷ [])) first_key).1
            ≡ (get one_cached first_key).1))
put-get_example =
    put-get one_cached second_key first_key (message_1500 ∷ []) (omega arith) keys_differ
