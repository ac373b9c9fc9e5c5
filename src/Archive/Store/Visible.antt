-- ===== src/Archive/Store/Visible.antt =====
-- What a call of Publish makes visible in the mailbox and in Git.
use picomx.Prelude.{
  ℕ, ◌+◌, ◌≤◌, ◌≡◌, refl, ap, ◌∙◌, subst, inl, inr, some, [], ◌∷◌, Bool-cases, get_elem?, true,
  false, ◌⊎◌,
}
use picomx.Text.Bytes.{Bytes}
use picomx.Archive.Errors.{Result, ok, err, Result-cases, import_failed}
use picomx.Archive.MessagePath.{message_path}
use picomx.Archive.Quota.{receipt_usage}
use picomx.Archive.Store.{
  Imported, confirmed, unconfirmed, MailboxState, Store, StagedMessage, Answers, Plan,
  discard_message, import_commit, check_commit, commit_changes, plan_publish, next_receipt,
  finish_publish, carry_out, publish_message, publish,
}
use picomx.Archive.Store.Budget.{IsBudgeted, charged, All-get, IsCovered}
use picomx.Archive.Store.Publication.{IsPlanned, plan_publish-IsPlanned, charge-exact}

-- What a successful Publish of the message m has done.
pub record IsPublished (s : Store) (today : Bytes) (m : StagedMessage) (s' : Store) (id : ℕ)
    (path : Bytes) : Type 0 where
  pub next_id : id ≡ s.state.last_id + 1
  pub path_of_id : message_path id m.size ≡ some path
  pub last_id_moves : s'.state.last_id ≡ id
  pub octets_move : s'.state.total_octets ≡ s.state.total_octets + m.size
  pub committed :
      s'.commits
      ≡ record { state = s'.state; changes = (path, m.content) ∷ []; removals = [] } ∷ s.commits
  pub receipt_moves : s'.receipt ≡ some (next_receipt s today m)

-- Nothing that a reader can see has changed.
pub record IsUnseen (s s' : Store) : Type 0 where
  pub same_state : s'.state ≡ s.state
  pub same_head : s'.head_id ≡ s.head_id
  pub same_commits : s'.commits ≡ s.commits

discard_message-IsUnseen :
    (s : Store) (h : ℕ) (m : StagedMessage) → IsUnseen s (discard_message s h m)
unfolding discard_message
discard_message-IsUnseen s h m = elim (Bool-cases m.done) [
  | inl gone ↦ rw gone (record { same_state = refl; same_head = refl; same_commits = refl })
  | inr live ↦ rw live (record { same_state = refl; same_head = refl; same_commits = refl })
]

-- What a Publish of the message m has done whose import failed behind the move of the branch: Git has
-- the commit, the store does not show it and has failed, and the charge was stored before.
pub record IsUncertain (s : Store) (today : Bytes) (m : StagedMessage) (s' : Store) : Type 0 where
  pub next_state : MailboxState
  pub path : Bytes
  pub path_of_id : message_path (s.state.last_id + 1) m.size ≡ some path
  pub last_id_moves : next_state.last_id ≡ s.state.last_id + 1
  pub octets_move : next_state.total_octets ≡ s.state.total_octets + m.size
  pub committed :
      s'.commits
      ≡ record { state = next_state; changes = (path, m.content) ∷ []; removals = [] } ∷ s.commits
  pub same_state : s'.state ≡ s.state
  pub same_head : s'.head_id ≡ s.head_id
  pub poisoned : s'.failure ≡ some import_failed
  pub receipt_moves : s'.receipt ≡ some (next_receipt s today m)

-- The outcome of a Publish of the message m, for its result.
unfoldable pub Outcome : Store → Bytes → StagedMessage → Store × Result (ℕ × Bytes) → Type 0
Outcome s today m (s', ok (id, path)) = IsPublished s today m s' id path
Outcome s today m (s', err e) = IsUnseen s s' ⊎ ((e ≡ import_failed) × IsUncertain s today m s')

import_commit-Outcome :
    (s s1 : Store) (today : Bytes) (m : StagedMessage) (plan : Plan) (oid : Imported)
    → IsPlanned s today m plan
    → IsUnseen s s1
    → s1.receipt ≡ some (next_receipt s today m)
    → Outcome s today m (
        finish_publish plan (
          import_commit s1
            (record {
              state = plan.next_state;
              changes = (plan.path, m.content) ∷ [];
              removals = [];
            })
            oid))
unfolding import_commit finish_publish Outcome
import_commit-Outcome s s1 today m plan (unconfirmed false) planned unseen r = inl (record {
  same_state = unseen.same_state;
  same_head = unseen.same_head;
  same_commits = unseen.same_commits;
})
import_commit-Outcome s s1 today m plan (unconfirmed true) planned unseen r = inr (
  refl,
  record {
    next_state = plan.next_state;
    path = plan.path;
    path_of_id = planned.named;
    last_id_moves = planned.numbered;
    octets_move = planned.summed;
    committed =
        ap
          (λ l.
            record { state = plan.next_state; changes = (plan.path, m.content) ∷ []; removals = [] }
            ∷ l)
          unseen.same_commits;
    same_state = unseen.same_state;
    same_head = unseen.same_head;
    poisoned = refl;
    receipt_moves = r;
  },
)
import_commit-Outcome s s1 today m plan (confirmed oid) planned unseen r = record {
  next_id = planned.numbered;
  path_of_id = rw planned.numbered planned.named;
  last_id_moves = refl;
  octets_move = planned.summed;
  committed =
      ap
        (λ l.
          record { state = plan.next_state; changes = (plan.path, m.content) ∷ []; removals = [] }
          ∷ l)
        unseen.same_commits;
  receipt_moves = r;
}

commit_changes-Outcome :
    (s s1 : Store) (today : Bytes) (m : StagedMessage) (plan : Plan) (a : Answers)
    → IsPlanned s today m plan
    → IsUnseen s s1
    → s1.receipt ≡ some (next_receipt s today m)
    → Outcome s today m (
        finish_publish plan (
          commit_changes s1
            (record {
              state = plan.next_state;
              changes = (plan.path, m.content) ∷ [];
              removals = [];
            })
            a))
unfolding commit_changes finish_publish Outcome
commit_changes-Outcome s s1 today m plan a planned unseen r =
    elim (Result-cases (
      check_commit s1
        (record { state = plan.next_state; changes = (plan.path, m.content) ∷ []; removals = [] })
        a)) [
          | inr (e, refused) ↦ rw (refused, commit_changes) (inl unseen)
          | inl (u, granted) ↦
              rw (granted, commit_changes)
                (import_commit-Outcome s s1 today m plan a.imported planned unseen r)
        ]

discard_message-receipt :
    (s : Store) (h : ℕ) (m : StagedMessage) → (discard_message s h m).receipt ≡ s.receipt
unfolding discard_message
discard_message-receipt s h m = elim (Bool-cases m.done) [
  | inl gone ↦ rw gone refl
  | inr live ↦ rw live refl
]

carry_out-Outcome :
    (s : Store) (today : Bytes) (h : ℕ) (m : StagedMessage) (a : Answers) (plan : Plan)
    → IsPlanned s today m plan
    → Outcome s today m (carry_out s today h m a plan)
unfolding carry_out Outcome
carry_out-Outcome s today h m a plan planned =
    let receipted : Store = record s { receipt = some (next_receipt s today m) } in
    let given = discard_message-IsUnseen receipted h m in
    elim (Bool-cases a.receipt_written) [
      | inl written ↦
          rw (written, carry_out)
            (commit_changes-Outcome s (discard_message receipted h m) today m plan a planned
              (record {
                same_state = given.same_state;
                same_head = given.same_head;
                same_commits = given.same_commits;
              })
              (discard_message-receipt receipted h m))
      | inr lost ↦
          rw (lost, carry_out)
            (inl (record { same_state = refl; same_head = refl; same_commits = refl }))
    ]

-- Publish of a message of the store either succeeds, and then it gives the next ID, commits the
-- message under the path of that ID and its size, adds the size to the octets of the mailbox and
-- has stored the receipt with the charge; or it fails, and then the mailbox and the head are those
-- from before, and so are the commits, unless fast-import failed behind the move of the branch: then
-- that very commit is in Git, the store has failed, and the receipt has the charge.
pub publish-Outcome :
    (s : Store) (today : Bytes) (h : ℕ) (a : Answers) (m : StagedMessage)
    → get_elem? s.staged h ≡ some m
    → Outcome s today m (publish s today h a)
unfolding publish publish_message Outcome
publish-Outcome s today h a m e = elim (Result-cases (plan_publish s today m a)) [
  | inr (x, refused) ↦
      rw (e, publish, refused, publish_message)
        (inl (record { same_state = refl; same_head = refl; same_commits = refl }))
  | inl (plan, granted) ↦
      rw (e, publish, granted, publish_message)
        (carry_out-Outcome s today h m a plan (plan_publish-IsPlanned s today m a plan granted))
]

-- A Publish that succeeds has passed its tests.
plan-of-success :
    (s s' : Store) (today : Bytes) (h id : ℕ) (path : Bytes) (a : Answers) (m : StagedMessage)
    → get_elem? s.staged h ≡ some m
    → publish s today h a ≡ (s', ok (id, path))
    → (plan : Plan) × IsPlanned s today m plan
unfolding publish publish_message
plan-of-success s s' today h id path a m e done = elim (Result-cases (plan_publish s today m a)) [
  | inl (plan, granted) ↦ (plan, plan_publish-IsPlanned s today m a plan granted)
  | inr (x, refused) ↦
      let failed : publish s today h a ≡ (s, err x) =
        rw (e, publish, refused, publish_message) refl in
      cc
]

-- Under the invariant of the budget, a Publish that succeeds leaves a receipt that charges what was
-- used on the day and what the message has reserved, and that is no less than its size.
pub publish-charge :
    (s s' : Store) (today : Bytes) (h id : ℕ) (path : Bytes) (a : Answers) (m : StagedMessage)
    → IsBudgeted s
    → get_elem? s.staged h ≡ some m
    → publish s today h a ≡ (s', ok (id, path))
    → (charged s'.receipt ≡ (receipt_usage s.receipt today).1 + m.reserved) × (m.size ≤ m.reserved)
publish-charge s s' today h id path a m v e done =
    let (plan, planned) = plan-of-success s s' today h id path a m e done in
    let outcome = subst (Outcome s today m) done (publish-Outcome s today h a m e) in
    let published : IsPublished s today m s' id path = (unfold Outcome in outcome) in
    let exact = charge-exact s today h m v e planned.live planned.in_budget in
    (
      ap charged published.receipt_moves ∙ exact.0,
      (All-get IsCovered s.staged h m v.covered e planned.live).1,
    )
