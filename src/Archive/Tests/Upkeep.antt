-- ===== src/Archive/Tests/Upkeep.antt =====
-- Examples of the stream to fast-import, of recovery and of maintenance.
use picomx.Prelude.{
  ℕ, ◌≤◌, ◌≡◌, refl, subst, true, false, Option, none, some, List, [], ◌∷◌, ◌++◌, arith, leb,
  if◌then◌else◌, some_inj, length,
}
use picomx.Text.Bytes.{Bytes, codes}
use picomx.Text.Number.{max_uint64}
use picomx.Archive.Errors.{Error, Result, ok, err}
use picomx.Archive.Import.{write_changes, change_command}
use picomx.Archive.Import.Stream.{Resolved, read_changes, read_changes-write}
use picomx.Archive.Recovery.{
  Stat, absent, file, LegacyState, recover_mailbox_tail, IsRecovered,
  recover_mailbox_tail-IsRecovered,
}
use picomx.Archive.Maintenance.{Upkeep, Calls}

-- A message whose content looks like a command of the stream.
abbrev forged : Bytes
forged = codes "D state" ++ 10 ∷ []

abbrev two_changes : List (Bytes × Option Bytes)
two_changes = (codes "state", some (codes "{}")) ∷ (codes "1/001-s8.eml", some forged) ∷ []

abbrev no_files : Bytes → Option Bytes
no_files path = none

abbrev two_changes_text : Bytes
two_changes_text =
    change_command (codes "state") (codes "{}")
    ++ (change_command (codes "1/001-s8.eml") forged ++ [])

two_written : write_changes no_files two_changes ≡ ok two_changes_text
unfolding picomx.Text.Bytes.bytes_eq picomx.Text.Bytes.split picomx.Text.Bytes.join
    picomx.Text.Bytes.trim_suffix picomx.Text.Bytes.has_prefix picomx.Text.Bytes.cut
    picomx.Text.Number.digit_value picomx.Text.Number.digit_char picomx.Text.Number.scan_digits
    picomx.Text.Number.parse_uint picomx.Text.Number.format_digits picomx.Text.Number.format_uint
    picomx.Text.Number.parse_size picomx.Archive.IdPath.id_digits picomx.Archive.IdPath.fmt_digit
    picomx.Archive.IdPath.components picomx.Archive.IdPath.message_relative_path
    picomx.Archive.IdPath.next_id picomx.Archive.IdPath.fold_parts picomx.Archive.IdPath.check_path
    picomx.Archive.IdPath.id_from_parts picomx.Archive.IdPath.message_id_from_path
    picomx.Archive.Errors.is_missing picomx.Archive.MessagePath.message_path
    picomx.Archive.MessagePath.cut_last_mark picomx.Archive.MessagePath.check_message
    picomx.Archive.MessagePath.read_parts picomx.Archive.MessagePath.message_from_path
    picomx.Archive.Import.valid_archive_path picomx.Archive.Import.data_command
    picomx.Archive.Import.change_content change_command write_changes
    picomx.Archive.Import.write_removals picomx.Archive.Import.from_command
    picomx.Archive.Import.commit_command picomx.Archive.Import.write_commit
    picomx.Archive.Import.confirm_commit picomx.Archive.Import.import_commit_locked
    picomx.Archive.Recovery.regular_size picomx.Archive.Recovery.check_last
    picomx.Archive.Recovery.check_absent picomx.Archive.Recovery.check_behind
    picomx.Archive.Recovery.recover_message picomx.Archive.Recovery.recover_next
    recover_mailbox_tail picomx.Archive.Recovery.collect_one picomx.Archive.Recovery.collect_legacy
    picomx.Archive.Recovery.initial_state
two_written = refl

read_changes-write_example :
    (found : List (Bytes × Bytes)) × Resolved no_files two_changes found
    × (read_changes 2 (two_changes_text ++ codes "D state") ≡ some (found, codes "D state"))
read_changes-write_example =
    read_changes-write no_files two_changes two_changes_text (codes "D state") two_written
      (λ path content e. cc)
      (
        (λ content e. subst (λ c. length c ≤ max_uint64) (some_inj e) (omega arith)),
        ((λ content e. subst (λ c. length c ≤ max_uint64) (some_inj e) (omega arith)), tt),
      )

abbrev two_stats : ℕ → Stat
two_stats id = if leb id 2 then file true 7 else absent

recovered_two :
    recover_mailbox_tail two_stats true (record { last_id = 1; total_octets = 7 })
    ≡ ok (record { last_id = 2; total_octets = 14 })
unfolding picomx.Text.Bytes.bytes_eq picomx.Text.Bytes.split picomx.Text.Bytes.join
    picomx.Text.Bytes.trim_suffix picomx.Text.Bytes.has_prefix picomx.Text.Bytes.cut
    picomx.Text.Number.digit_value picomx.Text.Number.digit_char picomx.Text.Number.scan_digits
    picomx.Text.Number.parse_uint picomx.Text.Number.format_digits picomx.Text.Number.format_uint
    picomx.Text.Number.parse_size picomx.Archive.IdPath.id_digits picomx.Archive.IdPath.fmt_digit
    picomx.Archive.IdPath.components picomx.Archive.IdPath.message_relative_path
    picomx.Archive.IdPath.next_id picomx.Archive.IdPath.fold_parts picomx.Archive.IdPath.check_path
    picomx.Archive.IdPath.id_from_parts picomx.Archive.IdPath.message_id_from_path
    picomx.Archive.Errors.is_missing picomx.Archive.MessagePath.message_path
    picomx.Archive.MessagePath.cut_last_mark picomx.Archive.MessagePath.check_message
    picomx.Archive.MessagePath.read_parts picomx.Archive.MessagePath.message_from_path
    picomx.Archive.Import.valid_archive_path picomx.Archive.Import.data_command
    picomx.Archive.Import.change_content change_command write_changes
    picomx.Archive.Import.write_removals picomx.Archive.Import.from_command
    picomx.Archive.Import.commit_command picomx.Archive.Import.write_commit
    picomx.Archive.Import.confirm_commit picomx.Archive.Import.import_commit_locked
    picomx.Archive.Recovery.regular_size picomx.Archive.Recovery.check_last
    picomx.Archive.Recovery.check_absent picomx.Archive.Recovery.check_behind
    picomx.Archive.Recovery.recover_message picomx.Archive.Recovery.recover_next
    recover_mailbox_tail picomx.Archive.Recovery.collect_one picomx.Archive.Recovery.collect_legacy
    picomx.Archive.Recovery.initial_state
recovered_two = refl

recover_mailbox_tail-IsRecovered_example :
    IsRecovered two_stats
      (record { last_id = 1; total_octets = 7 })
      (record { last_id = 2; total_octets = 14 })
recover_mailbox_tail-IsRecovered_example =
    recover_mailbox_tail-IsRecovered two_stats true (record { last_id = 1; total_octets = 7 })
      (record { last_id = 2; total_octets = 14 }) (omega arith) recovered_two

abbrev worn : Upkeep
worn = record {
  closed = false;
  importer = true;
  reading = record { read_closed = false; reader = some [] };
  failure = none;
  head_id = codes "h2";
  last_maintenance_head = codes "h1";
  commits_since_maintenance = 300;
}

abbrev smooth : Calls
smooth = record {
  read_free = true;
  store_free = true;
  git_free = true;
  cancelled = false;
  importer_closes = true;
  reader_closes = true;
  collects = true;
}
