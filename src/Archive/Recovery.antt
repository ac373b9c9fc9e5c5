-- ===== src/Archive/Recovery.antt =====
-- internal/archive/recovery.go and git.go: recovering the state of a legacy file archive, and its
-- first commit. What Lstat says of the file of each ID is a parameter.
use picomx.Prelude.{
  ==_iff, ◌≢◌, ℕ, zero, suc, ◌+◌, ◌-◌, ◌≤◌, ◌≡◌, refl, sym, subst, ◌⊎◌, inl, inr, Bool, true, false,
  not, List, [], ◌∷◌, arith, ltb, ◌==◌, if◌then◌else◌, Bool-cases,
}
use picomx.Text.Bytes.{Bytes}
use picomx.Text.Number.{max_uint64}
use picomx.Archive.Errors.{
  Error, Result, ok, err, ◌>>=◌, ◌>>◌, fail_if, >>=-eq-ok, fail_if-eq-ok, ok_inj,
}
use picomx.Archive.MessagePath.{message_path}
use picomx.Archive.Directories.{Counts}
use picomx.Archive.Directories.Index.{build_directory_index}
use picomx.Archive.Store.{MailboxState, check_some, next_counts}

-- The answer of Lstat: a file has a kind, regular or not, and a size.
pub data Stat : Type 0 where
  absent unknown : Stat
  file : Bool → ℕ → Stat

pub record LegacyState : Type 0 where
  pub last_id : ℕ
  pub total_octets : ℕ

-- The size of a regular file; anything else is an error.
unfoldable pub regular_size : Stat → Result ℕ
regular_size absent = err Error.io_failed
regular_size unknown = err Error.io_failed
regular_size (file true size) = ok size
regular_size (file false size) = err Error.io_failed

unfoldable pub check_last : (ℕ → Stat) → ℕ → Result (Unit {0})
unfolding regular_size
check_last stat last_id =
    if last_id == 0 then ok tt else (regular_size (stat last_id) >>= λ size. ok tt)

unfoldable pub check_absent : Stat → Result (Unit {0})
check_absent absent = ok tt
check_absent unknown = err Error.io_failed
check_absent (file regular size) = err Error.io_failed

-- No second message behind the one that is recovered.
unfoldable pub check_behind : (ℕ → Stat) → ℕ → Result (Unit {0})
unfolding check_absent
check_behind stat next_id =
    if ltb next_id max_uint64 then check_absent (stat (next_id + 1)) else ok tt

-- The one message behind the state; `written` says whether the new state could be stored.
unfoldable pub recover_message : (ℕ → Stat) → Bool → LegacyState → ℕ → Result LegacyState
unfolding check_behind
recover_message stat written s size =
    fail_if (ltb (max_uint64 - s.total_octets) size) Error.octets_overflow
    >> (check_behind stat (s.last_id + 1)
        >> (fail_if (not written) Error.io_failed
            >> ok (record { last_id = s.last_id + 1; total_octets = s.total_octets + size })))

unfoldable pub recover_next : (ℕ → Stat) → Bool → LegacyState → Stat → Result LegacyState
unfolding regular_size recover_message
recover_next stat written s absent = ok s
recover_next stat written s unknown = err Error.io_failed
recover_next stat written s (file regular size) =
    regular_size (file regular size) >>= recover_message stat written s

unfoldable pub recover_mailbox_tail : (ℕ → Stat) → Bool → LegacyState → Result LegacyState
unfolding check_last recover_next
recover_mailbox_tail stat written s =
    check_last stat s.last_id
    >> (if s.last_id == max_uint64
        then ok s
        else recover_next stat written s (stat (s.last_id + 1)))

-- What the loop over the legacy messages keeps.
pub record Collected : Type 0 where
  pub total : ℕ
  pub changes : List Bytes
  pub directories : Counts

unfoldable pub collect_one : Stat → ℕ → Collected → Result Collected
unfolding regular_size next_counts
collect_one s id c = regular_size s >>= λ size.
    fail_if (ltb (max_uint64 - c.total) size) Error.octets_overflow
    >> (check_some (message_path id size) Error.no_path >>= λ path. ok (record {
      total = c.total + size;
      changes = path ∷ c.changes;
      directories = next_counts c.directories path;
    }))

-- The loop of initializeGit, for so many IDs from one on.
unfoldable pub collect_legacy : (ℕ → Stat) → ℕ → ℕ → Collected → Result Collected
unfolding collect_one
collect_legacy stat zero id c = ok c
collect_legacy stat (suc rounds) id c =
    collect_one (stat id) id c >>= collect_legacy stat rounds (id + 1)

-- The state of the first commit, and the paths of its messages.
unfoldable pub initial_state : (ℕ → Stat) → LegacyState → Result (MailboxState × List Bytes)
unfolding collect_legacy
initial_state stat s =
    collect_legacy stat s.last_id 1 (record { total = 0; changes = []; directories = [] }) >>= λ c.
    fail_if (not (c.total == s.total_octets)) Error.size_mismatch
    >> (check_some (build_directory_index c.directories s.last_id) Error.bad_counts >>= λ index.
        ok (
          record {
            last_id = s.last_id;
            total_octets = s.total_octets;
            directories = c.directories;
            index = index;
          },
          c.changes,
        ))

-- A recovery keeps a state that nothing follows, or takes in exactly the one message behind it.
abbrev pub IsRecovered : (ℕ → Stat) → LegacyState → LegacyState → Type 0
IsRecovered stat s s' =
    ((s' ≡ s) × ((s.last_id ≡ max_uint64) ⊎ (stat (s.last_id + 1) ≡ absent)))
    ⊎ ((size : ℕ) × (s.last_id ≢ max_uint64)
        × (stat (s.last_id + 1) ≡ file true size)
        × (s'.last_id ≡ s.last_id + 1)
        × (s'.total_octets ≡ s.total_octets + size)
        × (s'.total_octets ≤ max_uint64)
        × ((max_uint64 ≤ s'.last_id) ⊎ (stat (s'.last_id + 1) ≡ absent)))

check_absent_sound : (st : Stat) → check_absent st ≡ ok tt → st ≡ absent
unfolding check_absent
check_absent_sound absent h = refl
check_absent_sound unknown h = cc
check_absent_sound (file regular size) h = cc

check_behind_sound :
    (stat : ℕ → Stat) (id : ℕ)
    → check_behind stat id ≡ ok tt
    → (max_uint64 ≤ id) ⊎ (stat (id + 1) ≡ absent)
unfolding check_behind
check_behind_sound stat id h = elim (Bool-cases (ltb id max_uint64)) [
  | inl e ↦ inr (check_absent_sound (stat (id + 1)) (rw (check_behind, e) at h))
  | inr e ↦ inl (ground arith)
]

recover_message-IsRecovered :
    (stat : ℕ → Stat) (written : Bool) (s s' : LegacyState) (size : ℕ)
    → s.total_octets ≤ max_uint64
    → s.last_id ≢ max_uint64
    → stat (s.last_id + 1) ≡ file true size
    → recover_message stat written s size ≡ ok s'
    → IsRecovered stat s s'
unfolding recover_message
recover_message-IsRecovered stat written s s' size small room e h =
    let (fits, h1) =
      fail_if-eq-ok (ltb (max_uint64 - s.total_octets) size) Error.octets_overflow h in
    let (u, behind, h2) = >>=-eq-ok (check_behind stat (s.last_id + 1)) _ h1 in
    let (_, h3) = fail_if-eq-ok (not written) Error.io_failed h2 in
    subst (IsRecovered stat s) (ok_inj h3) (
      inr (size, room, e, refl, refl, ground arith, check_behind_sound stat (s.last_id + 1) behind))

recover_next-IsRecovered :
    (stat : ℕ → Stat) (written : Bool) (s s' : LegacyState) (next : Stat)
    → s.total_octets ≤ max_uint64
    → s.last_id ≢ max_uint64
    → stat (s.last_id + 1) ≡ next
    → recover_next stat written s next ≡ ok s'
    → IsRecovered stat s s'
unfolding recover_next regular_size
recover_next-IsRecovered stat written s s' absent small room e h = inl (sym (ok_inj h), inr e)
recover_next-IsRecovered stat written s s' unknown small room e h = cc
recover_next-IsRecovered stat written s s' (file true size) small room e h =
    recover_message-IsRecovered stat written s s' size small room e h
recover_next-IsRecovered stat written s s' (file false size) small room e h = cc

-- When the recovery of a state with octets of 64 bits succeeds, the state is the one from before, and
-- then there is no next ID or no file of it; or it has one message more: the regular file of the next
-- ID, with its size added, and then there is no ID behind that or no file of it.
pub recover_mailbox_tail-IsRecovered :
    (stat : ℕ → Stat) (written : Bool) (s s' : LegacyState)
    → s.total_octets ≤ max_uint64
    → recover_mailbox_tail stat written s ≡ ok s'
    → IsRecovered stat s s'
unfolding recover_mailbox_tail
recover_mailbox_tail-IsRecovered stat written s s' small h =
    let (u, _, h1) = >>=-eq-ok (check_last stat s.last_id) _ h in
    elim (Bool-cases (s.last_id == max_uint64)) [
      | inl e ↦ inl (sym (ok_inj (rw e at h1)), inl ((==_iff s.last_id max_uint64).0 e))
      | inr e ↦
          recover_next-IsRecovered stat written s s' (stat (s.last_id + 1)) small
            (λ full. cc (e, (==_iff s.last_id max_uint64).1 full)) refl (rw e at h1)
    ]
