-- ===== src/Archive/Deletion/Outcome.antt =====
-- internal/archive/mailbox.go: what deleteLocked makes visible in the mailbox and in Git.
use picomx.Prelude.{
  ℕ, ◌+◌, ◌-◌, ◌≡◌, refl, ap, subst, ◌⊎◌, inl, inr, Option, none, some, List, [], ◌∷◌, map, arith,
  ltb, true, false,
}
use picomx.Text.Bytes.{Bytes}
use picomx.Archive.Errors.{
  Error, Result, ok, err, ◌>>=◌, >>=-eq-ok, fail_if-eq-ok, ok_inj, Result-cases,
}
use picomx.Archive.MessagePath.{Message}
use picomx.Archive.Directories.{Counts, dir}
use picomx.Archive.Directories.Index.{build_directory_index}
use picomx.Archive.Store.{
  Imported, confirmed, unconfirmed, Store, Commit, Answers, check_failure, check_some,
  import_commit, check_commit, commit_changes,
}
use picomx.Archive.Store.Visible.{IsUnseen}
use picomx.Archive.Store.Publication.{check_some-ok}
use picomx.Archive.Deletion.{
  Removal, remove_dir, remove_messages, plan_removal, finish_removal, commit_removal, delete_locked,
}

unfoldable pub sum_sizes : List Message → ℕ
sum_sizes [] = 0
sum_sizes (m ∷ ms) = m.size + sum_sizes ms

unfoldable pub paths_of : List Message → List Bytes
paths_of ms = map (λ m. m.path) ms

remove_messages-sum :
    (octets : ℕ) (counts : Counts) (ms : List Message) (r : Removal)
    → remove_messages octets counts ms ≡ ok r
    → (r.octets + sum_sizes ms ≡ octets) × (r.paths ≡ paths_of ms)
unfolding remove_messages sum_sizes paths_of
remove_messages-sum octets counts [] r h =
    subst (λ q. (q.octets + 0 ≡ octets) × (q.paths ≡ [])) (ok_inj h) (omega arith, refl)
remove_messages-sum octets counts (m ∷ ms) r h =
    let (fits, h1) = fail_if-eq-ok (ltb octets m.size) Error.size_mismatch h in
    let (counts', _, h2) =
      >>=-eq-ok (check_some (remove_dir counts (dir m.path)) Error.count_underflow) _ h1 in
    let (q, run, last) = >>=-eq-ok (remove_messages (octets - m.size) counts' ms) _ h2 in
    let (sum, paths) = remove_messages-sum (octets - m.size) counts' ms q run in
    subst (λ t. (t.octets + (m.size + sum_sizes ms) ≡ octets) × (t.paths ≡ m.path ∷ paths_of ms))
      (ok_inj last) (ground (arith, sum), ap (λ l. m.path ∷ l) paths)

-- What the commit of a deletion says of the mailbox.
pub record IsRemoval (s : Store) (ms : List Message) (c : Commit) : Type 0 where
  pub same_last_id : c.state.last_id ≡ s.state.last_id
  pub octets : c.state.total_octets + sum_sizes ms ≡ s.state.total_octets
  pub indexed : build_directory_index c.state.directories c.state.last_id ≡ some c.state.index
  pub unchanged : c.changes ≡ []
  pub removed : c.removals ≡ paths_of ms

plan_removal-IsRemoval :
    (s : Store) (ms : List Message) (c : Commit) → plan_removal s ms ≡ ok c → IsRemoval s ms c
unfolding plan_removal
plan_removal-IsRemoval s ms c h =
    let (r, run, h1) =
      >>=-eq-ok (remove_messages s.state.total_octets s.state.directories ms) _ h in
    let (index, built, last) =
      >>=-eq-ok (check_some (build_directory_index r.counts s.state.last_id) Error.bad_counts) _
        h1 in
    let (sum, paths) = remove_messages-sum s.state.total_octets s.state.directories ms r run in
    subst (IsRemoval s ms) (ok_inj last) (record {
      same_last_id = refl;
      octets = sum;
      indexed =
          check_some-ok (build_directory_index r.counts s.state.last_id) Error.bad_counts built;
      unchanged = refl;
      removed = paths;
    })

-- What a deletion of these messages that succeeds has done.
pub record IsDeleted (s : Store) (ms : List Message) (s' : Store) : Type 0 where
  pub commit : Commit
  pub planned : IsRemoval s ms commit
  pub moved : s'.state ≡ commit.state
  pub committed : s'.commits ≡ commit ∷ s.commits
  pub same_staged : s'.staged ≡ s.staged
  pub same_receipt : s'.receipt ≡ s.receipt
  pub same_reserved : s'.reserved_bytes ≡ s.reserved_bytes

-- What a deletion has done whose import failed behind the move of the branch: Git has the commit, the
-- store does not show it and has failed.
pub record IsUncertain (s : Store) (ms : List Message) (s' : Store) : Type 0 where
  pub commit : Commit
  pub planned : IsRemoval s ms commit
  pub committed : s'.commits ≡ commit ∷ s.commits
  pub same_state : s'.state ≡ s.state
  pub same_head : s'.head_id ≡ s.head_id
  pub poisoned : s'.failure ≡ some Error.import_failed

-- The outcome of a deletion, for its result.
unfoldable pub Outcome : Store → List Message → Store × Result (Unit {0}) → Type 0
Outcome s ms (s', ok _) = ((ms ≡ []) × (s' ≡ s)) ⊎ IsDeleted s ms s'
Outcome s ms (s', err e) = IsUnseen s s' ⊎ ((e ≡ Error.import_failed) × IsUncertain s ms s')

same-IsUnseen : (s : Store) → IsUnseen s s
same-IsUnseen s = record { same_state = refl; same_head = refl; same_commits = refl }

import-Outcome :
    (s : Store) (ms : List Message) (c : Commit) (oid : Imported)
    → IsRemoval s ms c
    → Outcome s ms (finish_removal c (import_commit s c oid))
unfolding import_commit finish_removal Outcome
import-Outcome s ms c (unconfirmed false) planned =
    inl (record { same_state = refl; same_head = refl; same_commits = refl })
import-Outcome s ms c (unconfirmed true) planned = inr (
  refl,
  record {
    commit = c;
    planned = planned;
    committed = refl;
    same_state = refl;
    same_head = refl;
    poisoned = refl;
  },
)
import-Outcome s ms c (confirmed oid) planned = inr (record {
  commit = c;
  planned = planned;
  moved = refl;
  committed = refl;
  same_staged = refl;
  same_receipt = refl;
  same_reserved = refl;
})

commit_removal-Outcome :
    (s : Store) (ms : List Message) (c : Commit) (a : Answers)
    → IsRemoval s ms c
    → Outcome s ms (finish_removal c (commit_changes s c a))
unfolding commit_changes finish_removal Outcome
commit_removal-Outcome s ms c a planned = elim (Result-cases (check_commit s c a)) [
  | inr (e, refused) ↦ rw (commit_changes, refused) (inl (same-IsUnseen s))
  | inl (u, granted) ↦ rw (commit_changes, granted) (import-Outcome s ms c a.imported planned)
]

check_failure-Outcome : (s : Store) (f : Option Error) → Outcome s [] (s, check_failure f)
unfolding Outcome
check_failure-Outcome s none = inl (refl, refl)
check_failure-Outcome s (some e) = inl (same-IsUnseen s)

-- deleteLocked either succeeds, and then with no messages it has changed nothing, and with some it
-- has committed the removal of exactly their paths, the octets of the mailbox are less by their
-- sizes, its counts give its index and the last ID stays; or it fails, and then the mailbox and the
-- head are those from before, and so are the commits, unless fast-import failed behind the move of the
-- branch: then that very commit is in Git and the store has failed.
pub delete_locked-Outcome :
    (s : Store) (a : Answers) (ms : List Message) → Outcome s ms (delete_locked s a ms)
unfolding delete_locked commit_removal Outcome
delete_locked-Outcome s a [] = check_failure-Outcome s s.failure
delete_locked-Outcome s a (m ∷ ms) =
    elim (Result-cases (check_failure s.failure >>= λ _. plan_removal s (m ∷ ms))) [
      | inr (e, refused) ↦ rw (delete_locked, refused) (inl (same-IsUnseen s))
      | inl (c, granted) ↦
          let (u, _, plan) = >>=-eq-ok (check_failure s.failure) _ granted in
          rw (delete_locked, granted)
            (commit_removal-Outcome s (m ∷ ms) c a (plan_removal-IsRemoval s (m ∷ ms) c plan))
    ]
