-- ===== src/Archive/Store/Publication.antt =====
-- Publish: the plan that it follows, and the budget behind it.
use picomx.Prelude.{
  ℕ, ◌+◌, ◌-◌, ◌≤◌, ◌≡◌, refl, ap, subst, inl, inr, Bool, true, false, not, Option, none, some,
  List, ◌∷◌, arith, ltb, ◌==◌, if◌then◌else◌, Option-cases, get_elem?,
}
use picomx.Text.Bytes.{Bytes}
use picomx.Text.Number.{max_uint64}
use picomx.Archive.Errors.{
  Result, ok, err, Error, Result-cases, >>=-eq-ok, ok_inj, fail_if-eq-ok, receipt_failed,
  import_failed,
}
use picomx.Archive.MessagePath.{message_path}
use picomx.Archive.Quota.{receipt_usage}
use picomx.Archive.Store.{
  Store, StagedMessage, Commit, Answers, Plan, can_reserve_now, check_failure, add_uint64, Imported,
  confirmed, unconfirmed, import_commit, check_commit, commit_changes, plan_publish, next_receipt,
  finish_publish, carry_out, publish_message, publish, next_counts, check_some,
  build_directory_index, MailboxState,
}
use picomx.Archive.Store.Budget.{
  IsBudgeted, held-live, held-le-total, discard_message-IsBudgeted, charge-IsBudgeted,
}
use picomx.Archive.Store.Staging.{can_reserve-bound}

-- What the tests of Publish leave true of a plan.
pub record IsPlanned (s : Store) (today : Bytes) (m : StagedMessage) (plan : Plan) : Type 0 where
  pub healthy : s.failure ≡ none
  pub live : m.done ≡ false
  pub in_budget : can_reserve_now s today 0 ≡ true
  pub named : message_path (s.state.last_id + 1) m.size ≡ some plan.path
  pub numbered : plan.next_state.last_id ≡ s.state.last_id + 1
  pub summed : plan.next_state.total_octets ≡ s.state.total_octets + m.size

check_failure-ok : (f : Option Error) {u : Unit {0}} → check_failure f ≡ ok u → f ≡ none
check_failure-ok none e = refl
check_failure-ok (some x) e = cc

pub check_some-ok {ℓ} :
    {A : Type ℓ} (o : Option A) (x : Error) {a : A} → check_some o x ≡ ok a → o ≡ some a
check_some-ok none x e = cc
check_some-ok (some a) x e = ap some (ok_inj e)

not-false : (b : Bool) → not b ≡ false → b ≡ true
not-false true e = refl
not-false false e = cc

pub plan_publish-IsPlanned :
    (s : Store) (today : Bytes) (m : StagedMessage) (a : Answers) (plan : Plan)
    → plan_publish s today m a ≡ ok plan
    → IsPlanned s today m plan
unfolding plan_publish
plan_publish-IsPlanned s today m a plan e =
    let (_, e1) = fail_if-eq-ok (not m.has_file) _ e in
    let (_, healthy, e2) = >>=-eq-ok (check_failure s.failure) _ e1 in
    let (live, e3) = fail_if-eq-ok m.done _ e2 in
    let (in_budget, e4) = fail_if-eq-ok (not (can_reserve_now s today 0)) _ e3 in
    let (not_last, e5) = fail_if-eq-ok (s.state.last_id == max_uint64) _ e4 in
    let (path, named, e6) =
      >>=-eq-ok (check_some (message_path (s.state.last_id + 1) m.size) _) _ e5 in
    let (fits, e7) = fail_if-eq-ok (ltb (max_uint64 - s.state.total_octets) m.size) _ e6 in
    let (index, _, e8) =
      >>=-eq-ok
        (check_some
          (build_directory_index (next_counts s.state.directories path) (s.state.last_id + 1)) _)
        _ e7 in
    let (_, e9) = fail_if-eq-ok (not a.file_read) _ e8 in
    subst (λ q. IsPlanned s today m q) (ok_inj e9)
      (record {
        healthy = check_failure-ok s.failure healthy;
        live = live;
        in_budget = not-false (can_reserve_now s today 0) in_budget;
        named = check_some-ok _ _ named;
        numbered = refl;
        summed = refl;
      })

-- The budget does not read the mailbox, the head, the failure and the commits.
other-IsBudgeted :
    (s : Store) (mailbox : MailboxState) (head : Bytes) (failed : Option Error)
    (commits : List Commit)
    → IsBudgeted s
    → IsBudgeted (record s { state = mailbox; head_id = head; failure = failed; commits = commits })
other-IsBudgeted s mailbox head failed commits v = record {
  counted = v.counted;
  within = v.within;
  covered = v.covered;
  charge_within = v.charge_within;
  limit_fits = v.limit_fits;
}

import_commit-IsBudgeted :
    (s : Store) (c : Commit) (oid : Imported) → IsBudgeted s → IsBudgeted (import_commit s c oid).0
unfolding import_commit
import_commit-IsBudgeted s c (unconfirmed false) v =
    other-IsBudgeted s s.state s.head_id (some import_failed) s.commits v
import_commit-IsBudgeted s c (unconfirmed true) v =
    other-IsBudgeted s s.state s.head_id (some import_failed) (c ∷ s.commits) v
import_commit-IsBudgeted s c (confirmed oid) v =
    other-IsBudgeted s s.state oid s.failure (c ∷ s.commits) v

commit_changes-IsBudgeted :
    (s : Store) (c : Commit) (a : Answers) → IsBudgeted s → IsBudgeted (commit_changes s c a).0
unfolding commit_changes
commit_changes-IsBudgeted s c a v = elim (Result-cases (check_commit s c a)) [
  | inr (e, refused) ↦ rw (refused, commit_changes) v
  | inl (u, granted) ↦ rw (granted, commit_changes) (import_commit-IsBudgeted s c a.imported v)
]

finish_publish-IsBudgeted :
    (plan : Plan) (r : Store × Result (Unit {0}))
    → IsBudgeted r.0
    → IsBudgeted (finish_publish plan r).0
unfolding finish_publish
finish_publish-IsBudgeted plan (s, err e) v = v
finish_publish-IsBudgeted plan (s, ok u) v =
    other-IsBudgeted s plan.next_state s.head_id s.failure s.commits v

next_receipt-charged :
    (s : Store) (today : Bytes) (m : StagedMessage)
    → (next_receipt s today m).charged_bytes
      ≡ add_uint64 (receipt_usage s.receipt today).1 m.reserved
unfolding next_receipt
next_receipt-charged s today m = refl

-- What is charged is what was used and what the message has reserved, without an overflow.
pub charge-exact :
    (s : Store) (today : Bytes) (h : ℕ) (m : StagedMessage)
    → IsBudgeted s
    → get_elem? s.staged h ≡ some m
    → m.done ≡ false
    → can_reserve_now s today 0 ≡ true
    → ((next_receipt s today m).charged_bytes ≡ (receipt_usage s.receipt today).1 + m.reserved)
      × ((next_receipt s today m).charged_bytes ≤ s.max_daily_bytes)
charge-exact s today h m v e live granted =
    let bound = can_reserve-bound s today 0 granted in
    let total = held-le-total s.staged h m e in
    let mine = held-live m live in
    let formula = next_receipt-charged s today m in
    (
      omega (arith, bound, total, mine, formula, v.counted, v.limit_fits),
      omega (arith, bound, total, mine, formula, v.counted, v.limit_fits),
    )

if-IsBudgeted {ℓ} :
    {A : Type ℓ} (b : Bool) (x y : Store × A)
    → IsBudgeted x.0
    → IsBudgeted y.0
    → IsBudgeted (if b then x else y).0
if-IsBudgeted true x y vx vy = vx
if-IsBudgeted false x y vx vy = vy

carry_out-IsBudgeted :
    (s : Store) (today : Bytes) (h : ℕ) (m : StagedMessage) (a : Answers) (plan : Plan)
    → IsBudgeted s
    → get_elem? s.staged h ≡ some m
    → IsPlanned s today m plan
    → IsBudgeted (carry_out s today h m a plan).0
unfolding carry_out
carry_out-IsBudgeted s today h m a plan v e planned =
    let exact = charge-exact s today h m v e planned.live planned.in_budget in
    if-IsBudgeted a.receipt_written _ _
      (finish_publish-IsBudgeted plan _ (
        commit_changes-IsBudgeted _ _ a (
          discard_message-IsBudgeted (record s { receipt = some (next_receipt s today m) }) h m
            (charge-IsBudgeted s (next_receipt s today m) v exact.1) e)))
      (other-IsBudgeted s s.state s.head_id (some receipt_failed) s.commits v)

pub publish-IsBudgeted :
    (s : Store) (today : Bytes) (h : ℕ) (a : Answers)
    → IsBudgeted s
    → IsBudgeted (publish s today h a).0
unfolding publish publish_message
publish-IsBudgeted s today h a v = elim (Option-cases (get_elem? s.staged h)) [
  | inl e ↦ rw (e, publish) v
  | inr (m, e) ↦ elim (Result-cases (plan_publish s today m a)) [
    | inr (x, refused) ↦ rw (e, publish, refused, publish_message) v
    | inl (plan, planned) ↦
        rw (e, publish, planned, publish_message)
          (carry_out-IsBudgeted s today h m a plan v e
            (plan_publish-IsPlanned s today m a plan planned))
  ]
]
