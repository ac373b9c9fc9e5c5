-- ===== src/Archive/Store.antt =====
-- internal/archive/store.go and quota.go: staging and publishing messages under the daily budget.
-- Each operation is what happens under the lock of the store, so operations of concurrent
-- connections are interleaved in any order. What the file system and Git answer is an argument.
pub mod Budget
pub mod Staging
pub mod Publication
pub mod Runs
pub mod Visible
use picomx.Prelude.{
  ℕ, zero, suc, ◌+◌, ◌-◌, ◌*◌, ◌/◌, ◌%◌, ◌^◌, ◌≤◌, ◌<◌, ◌≡◌, refl, sym, ap, ◌∙◌, subst, ◌≢◌, ◌↔◌,
  ◌⊎◌, inl, inr, Bool, true, false, ◌&&◌, ◌||◌, not, Option, none, some, List, [], ◌∷◌, ◌++◌, map,
  reverse, append_assoc, append-nil, arith, ltb, leb, ◌==◌, if◌then◌else◌, ltb→lt, lt→ltb, leb→le,
  le→leb, ==_iff, Bool-cases, Option-cases, some_inj, unless-eq-some, length, get_elem?, set,
  replicate, take, drop, all, any, length-append, length-map, All, All-append,
}
use picomx.Text.Bytes.{Bytes, bytes_eq}
use picomx.Text.Number.{max_uint64}
use picomx.Archive.Errors.{
  Error, daily_limit, not_ours, not_available, ids_exhausted, octets_overflow, no_path, bad_counts,
  io_failed, receipt_failed, head_changed, importer_failed, import_failed, Result, ok, err, ◌>>=◌,
  ◌>>◌, fail_if,
}
use picomx.Archive.MessagePath.{message_path}
use picomx.Archive.Directories.{Counts, dir, add}
use picomx.Archive.Directories.Index.{DirectoryIndex, build_directory_index}
use picomx.Archive.Quota.{minimum_receipt_charge, DailyReceipt, receipt_usage, can_reserve, charge}

-- state.go: what a commit records of the mailbox.
pub record MailboxState : Type 0 where
  pub last_id : ℕ
  pub total_octets : ℕ
  pub directories : Counts
  pub index : DirectoryIndex

-- A staged message with the reader that fills it. `consumed` is the field of quotaReader, and
-- `has_file` says that the path is not empty.
pub record StagedMessage : Type 0 where
  pub size : ℕ
  pub reserved : ℕ
  pub done : Bool
  pub has_file : Bool
  pub consumed : ℕ
  pub content : Bytes

-- What one commit changes in the tree, beside the state.
pub record Commit : Type 0 where
  pub state : MailboxState
  pub changes : List (Bytes × Bytes)
  pub removals : List Bytes

-- `staged` holds every staged message that was made; a pointer to one is its place in the list.
-- `commits` are the commits that the branch in Git has from this store, the last one first.
pub record Store : Type 0 where
  pub state : MailboxState
  pub head_id : Bytes
  pub failure : Option Error
  pub max_daily_bytes : ℕ
  pub receipt : Option DailyReceipt
  pub reserved_bytes : ℕ
  pub staged : List StagedMessage
  pub commits : List Commit

unfoldable pub can_reserve_now : Store → Bytes → ℕ → Bool
can_reserve_now s today extra =
    can_reserve s.max_daily_bytes s.reserved_bytes (receipt_usage s.receipt today).1 extra

abbrev pub check_failure : Option Error → Result (Unit {0})
check_failure none = ok tt
check_failure (some e) = err e

-- CheckReceive, before DATA is answered.
unfoldable pub check_receive : Store → Bytes → Result (Unit {0})
unfolding can_reserve_now
check_receive s today = do
  check_failure s.failure
  fail_if (not (can_reserve_now s today minimum_receipt_charge)) daily_limit

abbrev pub add_uint64 : ℕ → ℕ → ℕ
add_uint64 a b = (a + b) % 2 ^ 64

abbrev pub sub_uint64 : ℕ → ℕ → ℕ
sub_uint64 a b = (a + 2 ^ 64 - b) % 2 ^ 64

-- A message that is not staged any more gives its reservation back, once.
unfoldable pub released : StagedMessage → StagedMessage
released m = record m { reserved = 0; done = true }

unfoldable pub discard_message : Store → ℕ → StagedMessage → Store
unfolding released
discard_message s h m = if m.done then s else record s {
  reserved_bytes = sub_uint64 s.reserved_bytes m.reserved;
  staged = set s.staged h (released m);
}

-- discardLocked. Removing the file does not change the store.
unfoldable pub discard : Store → ℕ → Store
unfolding discard_message
discard s h = elim (get_elem? s.staged h) [ none ↦ s | some m ↦ discard_message s h m ]

-- The first part of Stage: the minimum is reserved before the first byte.
unfoldable pub begin_stage : Store → Bytes → Store × Result ℕ
begin_stage s today = elim (check_receive s today) [
  | err e ↦ (s, err e)
  | ok _ ↦ (
    record s {
      reserved_bytes = add_uint64 s.reserved_bytes minimum_receipt_charge;
      staged =
          s.staged
          ++ (record {
            size = 0;
            reserved = minimum_receipt_charge;
            done = false;
            has_file = false;
            consumed = 0;
            content = [];
          }
              ∷ []);
    },
    ok (length s.staged),
  )
]

-- The temporary file of a staged message is made.
unfoldable pub create_file : Store → ℕ → Store
create_file s h = elim (get_elem? s.staged h) [
  | none ↦ s
  | some m ↦ record s { staged = set s.staged h (record m { has_file = true }) }
]

-- What quotaReader.Read does with the bytes that it has read: more is reserved, or it fails.
unfoldable pub take_chunk : Store → Bytes → ℕ → StagedMessage → Bytes → Store × Result (Unit {0})
unfolding can_reserve_now charge
take_chunk s today h m chunk =
    let cost = charge (add_uint64 m.consumed (length chunk)) in
    let extra = sub_uint64 cost m.reserved in
    if can_reserve_now s today extra
    then (
      record s {
        reserved_bytes = add_uint64 s.reserved_bytes extra;
        staged = set s.staged h (record m {
          reserved = cost;
          consumed = add_uint64 m.consumed (length chunk);
          content = m.content ++ chunk;
        });
      },
      ok tt,
    )
    else (s, err daily_limit)

-- One round of io.Copy. A read of no bytes asks for nothing.
unfoldable pub read_chunk : Store → Bytes → ℕ → Bytes → Store × Result (Unit {0})
read_chunk s today h [] = (s, ok tt)
read_chunk s today h (c ∷ chunk) = elim (get_elem? s.staged h) [
  | none ↦ (s, ok tt)
  | some m ↦ take_chunk s today h m (c ∷ chunk)
]

-- The end of Stage, when the file is synced and closed.
unfoldable pub finish_stage : Store → ℕ → Store
finish_stage s h = elim (get_elem? s.staged h) [
  | none ↦ s
  | some m ↦ record s { staged = set s.staged h (record m { size = m.consumed }) }
]

-- How importCommitLocked ends: the branch was seen at the new commit, or an error came before that,
-- and then the branch was moved or it was not, which the store does not know.
pub data Imported : Type 0 where
  confirmed : Bytes → Imported
  unconfirmed : Bool → Imported

-- What the file system and Git answer to one Publish: the staged file can be read, the receipt is
-- stored, HEAD is what the store knows, fast-import runs, and how it ends for this commit.
pub record Answers : Type 0 where
  pub file_read : Bool
  pub receipt_written : Bool
  pub current_head : Bytes
  pub importer_runs : Bool
  pub imported : Imported

-- commitChanges: an error of the protocol poisons the store.
unfoldable pub import_commit : Store → Commit → Imported → Store × Result (Unit {0})
import_commit s c (unconfirmed false) =
    (record s { failure = some import_failed }, err import_failed)
import_commit s c (unconfirmed true) =
    (record s { failure = some import_failed; commits = c ∷ s.commits }, err import_failed)
import_commit s c (confirmed oid) = (record s { head_id = oid; commits = c ∷ s.commits }, ok tt)

abbrev pub check_some {ℓ} : {A : Type ℓ} → Option A → Error → Result A
check_some none e = err e
check_some (some a) e = ok a

unfoldable pub check_commit : Store → Commit → Answers → Result (Unit {0})
unfolding bytes_eq
check_commit s c a = do
  check_failure s.failure
  _ ← check_some (build_directory_index c.state.directories c.state.last_id) bad_counts
  fail_if (not (bytes_eq a.current_head s.head_id)) head_changed
  fail_if (not a.importer_runs) importer_failed

unfoldable pub commit_changes : Store → Commit → Answers → Store × Result (Unit {0})
unfolding import_commit check_commit
commit_changes s c a = elim (check_commit s c a) [
  | err e ↦ (s, err e)
  | ok _ ↦ import_commit s c a.imported
]

-- What Publish works out before it changes anything.
pub record Plan : Type 0 where
  pub path : Bytes
  pub next_state : MailboxState

abbrev pub add_dir : Counts → Option Bytes → Counts
add_dir counts none = counts
add_dir counts (some p) = add counts p

unfoldable pub next_counts : Counts → Bytes → Counts
next_counts counts path = add_dir counts (dir path)

unfoldable pub plan_publish : Store → Bytes → StagedMessage → Answers → Result Plan
unfolding can_reserve_now next_counts
plan_publish s today m a = do
  fail_if (not m.has_file) not_ours
  check_failure s.failure
  fail_if m.done not_available
  fail_if (not (can_reserve_now s today 0)) daily_limit
  fail_if (s.state.last_id == max_uint64) ids_exhausted
  path ← check_some (message_path (s.state.last_id + 1) m.size) no_path
  fail_if (ltb (max_uint64 - s.state.total_octets) m.size) octets_overflow
  index ←
      check_some
        (build_directory_index (next_counts s.state.directories path) (s.state.last_id + 1))
        bad_counts
  fail_if (not a.file_read) io_failed
  ok (record {
    path = path;
    next_state = record {
      last_id = s.state.last_id + 1;
      total_octets = s.state.total_octets + m.size;
      directories = next_counts s.state.directories path;
      index = index;
    };
  })

-- The receipt that is stored before Git is asked to commit.
unfoldable pub next_receipt : Store → Bytes → StagedMessage → DailyReceipt
next_receipt s today m =
    let (day, used) = receipt_usage s.receipt today in
    record { day = day; charged_bytes = add_uint64 used m.reserved }

unfoldable pub finish_publish : Plan → Store × Result (Unit {0}) → Store × Result (ℕ × Bytes)
finish_publish plan (s, err e) = (s, err e)
finish_publish plan (s, ok _) =
    (record s { state = plan.next_state }, ok (plan.next_state.last_id, plan.path))

unfoldable pub carry_out :
    Store → Bytes → ℕ → StagedMessage → Answers → Plan → Store × Result (ℕ × Bytes)
unfolding discard_message next_receipt commit_changes finish_publish
carry_out s today h m a plan =
    let s' = discard_message (record s { receipt = some (next_receipt s today m) }) h m in
    let commit : Commit = record {
      state = plan.next_state;
      changes = (plan.path, m.content) ∷ [];
      removals = [];
    } in
    if a.receipt_written
    then finish_publish plan (commit_changes s' commit a)
    else (record s { failure = some receipt_failed }, err receipt_failed)

unfoldable pub publish_message :
    Store → Bytes → ℕ → Answers → StagedMessage → Store × Result (ℕ × Bytes)
unfolding plan_publish carry_out
publish_message s today h a m = elim (plan_publish s today m a) [
  | err e ↦ (s, err e)
  | ok plan ↦ carry_out s today h m a plan
]

-- Publish: the ID and the path of the message. Only messages of this store have a place in it.
unfoldable pub publish : Store → Bytes → ℕ → Answers → Store × Result (ℕ × Bytes)
unfolding publish_message
publish s today h a = elim (get_elem? s.staged h) [
  | none ↦ (s, err not_ours)
  | some m ↦ publish_message s today h a m
]
