-- ===== src/Archive/Deletion.antt =====
-- internal/archive/mailbox.go: DeleteAs. The commit message with the user's name is not in the model.
pub mod Outcome
pub mod Retry
use picomx.Prelude.{
  ℕ, zero, suc, ◌+◌, ◌-◌, ◌*◌, ◌/◌, ◌%◌, ◌^◌, ◌≤◌, ◌<◌, ◌≡◌, refl, sym, ap, ◌∙◌, subst, ◌≢◌, ◌↔◌,
  ◌⊎◌, inl, inr, Bool, true, false, ◌&&◌, ◌||◌, not, Option, none, some, List, [], ◌∷◌, ◌++◌, map,
  reverse, append_assoc, append-nil, arith, ltb, leb, ◌==◌, if◌then◌else◌, ltb→lt, lt→ltb, leb→le,
  le→leb, ==_iff, Bool-cases, Option-cases, some_inj, unless-eq-some, length, get_elem?, set,
  replicate, take, drop, all, any, length-append, length-map, All, All-append,
}
use picomx.Text.Bytes.{Bytes, bytes_eq}
use picomx.Archive.Errors.{Error, is_missing, Result, ok, err, ◌>>=◌, ◌>>◌, fail_if}
use picomx.Archive.MessagePath.{Message}
use picomx.Archive.Directories.{Counts, dir, remove}
use picomx.Archive.Directories.Index.{DirectoryIndex, build_directory_index}
use picomx.Archive.Store.{
  Store, MailboxState, Commit, Answers, check_failure, check_some, commit_changes,
}
use picomx.Archive.Mailbox.{Reading, Snapshot, message_by_id}

-- snapshotLocked.
unfoldable pub snapshot_locked : Store → Snapshot
snapshot_locked s = record {
  last_id = s.state.last_id;
  total_octets = s.state.total_octets;
  message_count = s.state.index.total;
  index = some s.state.index;
  commit = s.head_id;
}

-- One message less in its directory and all above it; "." has no count.
unfoldable pub remove_dir : Counts → Option Bytes → Option Counts
unfolding remove
remove_dir counts none = some counts
remove_dir counts (some path) = remove counts path

-- What the loop over the messages keeps: the octets, the counts, and the paths.
pub record Removal : Type 0 where
  pub octets : ℕ
  pub counts : Counts
  pub paths : List Bytes

unfoldable pub remove_messages : ℕ → Counts → List Message → Result Removal
unfolding remove_dir dir
remove_messages octets counts [] = ok (record { octets = octets; counts = counts; paths = [] })
remove_messages octets counts (m ∷ ms) =
    fail_if (ltb octets m.size) Error.size_mismatch
    >> (check_some (remove_dir counts (dir m.path)) Error.count_underflow >>= λ counts'.
        remove_messages (octets - m.size) counts' ms >>= λ r.
        ok (record r { paths = m.path ∷ r.paths }))

-- The commit of a deletion, if its counts are those of a mailbox.
unfoldable pub plan_removal : Store → List Message → Result Commit
unfolding remove_messages
plan_removal s ms = remove_messages s.state.total_octets s.state.directories ms >>= λ r.
    check_some (build_directory_index r.counts s.state.last_id) Error.bad_counts >>= λ index.
    ok (record {
      state = record {
        last_id = s.state.last_id;
        total_octets = r.octets;
        directories = r.counts;
        index = index;
      };
      changes = [];
      removals = r.paths;
    })

unfoldable pub finish_removal : Commit → Store × Result (Unit {0}) → Store × Result (Unit {0})
finish_removal c (s, ok _) = (record s { state = c.state }, ok tt)
finish_removal c (s, err e) = (s, err e)

unfoldable pub commit_removal : Store → Answers → Result Commit → Store × Result (Unit {0})
unfolding commit_changes finish_removal
commit_removal s a (err e) = (s, err e)
commit_removal s a (ok c) = finish_removal c (commit_changes s c a)

-- deleteLocked.
unfoldable pub delete_locked : Store → Answers → List Message → Store × Result (Unit {0})
unfolding plan_removal commit_removal
delete_locked s a [] = (s, check_failure s.failure)
delete_locked s a (m ∷ ms) = commit_removal s a (check_failure s.failure >> plan_removal s (m ∷ ms))

unfoldable pub insert_nat : ℕ → List ℕ → List ℕ
insert_nat n [] = n ∷ []
insert_nat n (k ∷ ks) = if ltb k n then k ∷ insert_nat n ks else n ∷ k ∷ ks

-- sort.Slice of the IDs.
unfoldable pub sort_ids : List ℕ → List ℕ
unfolding insert_nat
sort_ids [] = []
sort_ids (n ∷ ns) = insert_nat n (sort_ids ns)

module _ (src : Reading) where
  -- The loop goes on behind a message that was found or is gone, and ends at another error.
  unfoldable pub after_find :
      (src.State → src.State × Result (List Message))
      → src.State × Result Message
      → src.State × Result (List Message)
  unfolding is_missing
  after_find rest (rs, ok m) = let (rs', found) = rest rs in (rs', (found >>= λ ms. ok (m ∷ ms)))
  after_find rest (rs, err e) = if is_missing e then rest rs else (rs, err e)

  unfoldable pub resolve : Snapshot → List ℕ → ℕ → src.State → src.State × Result (List Message)
  unfolding after_find message_by_id
  resolve snapshot [] previous rs = (rs, ok [])
  resolve snapshot (id ∷ ids) previous rs = elim (id == 0 || ltb snapshot.last_id id) [
    | true ↦ (rs, err Error.no_such_message)
    | false ↦ elim (id == previous) [
      | true ↦ resolve snapshot ids previous rs
      | false ↦ after_find (resolve snapshot ids id) (message_by_id src snapshot id rs)
    ]
  ]

  abbrev pub Deletion : Type 0
  Deletion = (Store × src.State) × Result (Unit {0})

  -- Behind the lookups, under the lock: another try if somebody committed, or the deletion.
  unfoldable pub after_resolve :
      Answers
      → Bytes
      → Store
      → (src.State → Option Deletion)
      → src.State × Result (List Message)
      → Option Deletion
  unfolding delete_locked bytes_eq
  after_resolve a head s retry (rs, err e) = some ((s, rs), err e)
  after_resolve a head s retry (rs, ok ms) =
      if bytes_eq s.head_id head
      then (let (s', r) = delete_locked s a ms in some ((s', rs), r))
      else retry rs

  -- The loop of DeleteAs on sorted IDs, from a round on. What the other connections do to the store
  -- while a round looks its messages up is a function of the round; the fuel is in rounds.
  unfoldable pub delete_rounds :
      Answers → List ℕ → (ℕ → Store → Store) → ℕ → ℕ → Store → src.State → Option Deletion
  unfolding after_resolve resolve snapshot_locked
  delete_rounds a ids others zero round s rs = none
  delete_rounds a ids others (suc fuel) round s rs =
      after_resolve a s.head_id (others round s)
        (delete_rounds a ids others fuel (suc round) (others round s))
        (resolve (snapshot_locked s) ids 0 rs)

  unfoldable pub delete_as :
      Answers → List ℕ → (ℕ → Store → Store) → ℕ → Store → src.State → Option Deletion
  unfolding delete_rounds sort_ids
  delete_as a ids others fuel s rs = delete_rounds a (sort_ids ids) others fuel 0 s rs
