-- ===== src/Archive/Store/Budget.antt =====
-- The daily budget over every order of operations, on every day that the clock shows.
use picomx.Prelude.{
  ℕ, zero, suc, ◌+◌, ◌^◌, ◌≤◌, ◌<◌, ◌≡◌, refl, subst, inl, inr, true, false, Option, none, some,
  List, [], ◌∷◌, ◌++◌, arith, if◌then◌else◌, Bool-cases, Option-cases, some_inj, get_elem?, set,
  All,
}
use picomx.Archive.Quota.{DailyReceipt, charge}
use picomx.Archive.Store.{
  Store, StagedMessage, sub_uint64, released, discard_message, discard, create_file, finish_stage,
}

-- What a staged message holds of the budget.
unfoldable pub held : StagedMessage → ℕ
held m = if m.done then 0 else m.reserved

unfoldable pub total_held : List StagedMessage → ℕ
unfolding held
total_held [] = 0
total_held (m ∷ ms) = held m + total_held ms

abbrev pub charged : Option DailyReceipt → ℕ
charged none = 0
charged (some usage) = usage.charged_bytes

-- A message that is still staged has reserved what it costs, and no less than its size.
abbrev pub IsCovered : StagedMessage → Type 0
IsCovered m = m.done ≡ false → (m.reserved ≡ charge m.consumed) × (m.size ≤ m.reserved)

-- The reservations add up to the counter, and neither they nor the charge pass the limit.
pub record IsBudgeted (s : Store) : Type 0 where
  pub counted : s.reserved_bytes ≡ total_held s.staged
  pub within : s.reserved_bytes ≤ s.max_daily_bytes
  pub covered : All IsCovered s.staged
  pub charge_within : charged s.receipt ≤ s.max_daily_bytes
  pub limit_fits : s.max_daily_bytes < 2 ^ 64

pub total_held-append :
    (ms : List StagedMessage) (m : StagedMessage)
    → total_held (ms ++ m ∷ []) ≡ total_held ms + held m
unfolding total_held
total_held-append [] m = omega arith
total_held-append (n ∷ ms) m = omega (arith, total_held-append ms m)

-- Replacing a message changes the total by what it held and holds.
total_held-set :
    (ms : List StagedMessage) (h : ℕ) (m m' : StagedMessage)
    → get_elem? ms h ≡ some m
    → total_held (set ms h m') + held m ≡ total_held ms + held m'
unfolding total_held
total_held-set [] h m m' e = cc
total_held-set (n ∷ ms) zero m m' e =
    let same_message : n ≡ m = some_inj e in rw same_message (omega arith)
total_held-set (n ∷ ms) (suc h) m m' e = omega (arith, total_held-set ms h m m' e)

All-set :
    (P : StagedMessage → Type 0) (ms : List StagedMessage) (h : ℕ) (m' : StagedMessage)
    → All P ms
    → P m'
    → All P (set ms h m')
All-set P [] h m' a p = tt
All-set P (n ∷ ms) zero m' (pn, a) p = (p, a)
All-set P (n ∷ ms) (suc h) m' (pn, a) p = (pn, All-set P ms h m' a p)

pub All-get :
    (P : StagedMessage → Type 0) (ms : List StagedMessage) (h : ℕ) (m : StagedMessage)
    → All P ms
    → get_elem? ms h ≡ some m
    → P m
All-get P [] h m a e = cc
All-get P (n ∷ ms) zero m (pn, a) e = subst P (some_inj e) pn
All-get P (n ∷ ms) (suc h) m (pn, a) e = All-get P ms h m a e

pub held-le-total :
    (ms : List StagedMessage) (h : ℕ) (m : StagedMessage)
    → get_elem? ms h ≡ some m
    → held m ≤ total_held ms
unfolding total_held
held-le-total [] h m e = cc
held-le-total (n ∷ ms) zero m e =
    let same_message : n ≡ m = some_inj e in rw same_message (omega arith)
held-le-total (n ∷ ms) (suc h) m e = omega (arith, held-le-total ms h m e)

-- A message put in the place of another, with the counter changed by the difference.
pub put-IsBudgeted :
    (s : Store) (h : ℕ) (m m' : StagedMessage) (r : ℕ)
    → IsBudgeted s
    → get_elem? s.staged h ≡ some m
    → r + held m ≡ s.reserved_bytes + held m'
    → r ≤ s.max_daily_bytes
    → IsCovered m'
    → IsBudgeted (record s { reserved_bytes = r; staged = set s.staged h m' })
put-IsBudgeted s h m m' r v e sum le c = record {
  counted = omega (arith, v.counted, total_held-set s.staged h m m' e);
  within = le;
  covered = All-set IsCovered s.staged h m' v.covered c;
  charge_within = v.charge_within;
  limit_fits = v.limit_fits;
}

pub held-live : (m : StagedMessage) → m.done ≡ false → held m ≡ m.reserved
unfolding held
held-live m live = rw live refl

pub discard_message-IsBudgeted :
    (s : Store) (h : ℕ) (m : StagedMessage)
    → IsBudgeted s
    → get_elem? s.staged h ≡ some m
    → IsBudgeted (discard_message s h m)
unfolding discard_message released
discard_message-IsBudgeted s h m v e = elim (Bool-cases m.done) [
  | inl gone ↦ rw gone v
  | inr live ↦
      let total = held-le-total s.staged h m e in
      let mine = held-live m live in
      let none_left : held (released m) ≡ 0 = (unfold held in refl) in
      let less : sub_uint64 s.reserved_bytes m.reserved + m.reserved ≡ s.reserved_bytes =
        omega (arith, total, mine, v.counted, v.within, v.limit_fits) in
      rw live (
        put-IsBudgeted s h m (released m) (sub_uint64 s.reserved_bytes m.reserved) v e
          (omega (arith, less, mine, none_left)) (omega (arith, less, v.within)) (λ x. cc))
]

pub discard-IsBudgeted : (s : Store) (h : ℕ) → IsBudgeted s → IsBudgeted (discard s h)
unfolding discard
discard-IsBudgeted s h v = elim (Option-cases (get_elem? s.staged h)) [
  | inl e ↦ rw (e, discard) v
  | inr (m, e) ↦ rw (e, discard) (discard_message-IsBudgeted s h m v e)
]

pub create_file-IsBudgeted : (s : Store) (h : ℕ) → IsBudgeted s → IsBudgeted (create_file s h)
unfolding create_file
create_file-IsBudgeted s h v = elim (Option-cases (get_elem? s.staged h)) [
  | inl e ↦ rw (e, create_file) v
  | inr (m, e) ↦
      rw (e, create_file)
        (put-IsBudgeted s h m (record m { has_file = true }) s.reserved_bytes v e
          (unfold held in refl) v.within (All-get IsCovered s.staged h m v.covered e))
]

le-charge : (n : ℕ) → n ≤ charge n
unfolding charge
le-charge n = ground arith

pub finish_stage-IsBudgeted : (s : Store) (h : ℕ) → IsBudgeted s → IsBudgeted (finish_stage s h)
unfolding finish_stage
finish_stage-IsBudgeted s h v = elim (Option-cases (get_elem? s.staged h)) [
  | inl e ↦ rw (e, finish_stage) v
  | inr (m, e) ↦
      rw (e, finish_stage)
        (put-IsBudgeted s h m (record m { size = m.consumed }) s.reserved_bytes v e
          (unfold held in refl) v.within
          (λ live.
            let covers = All-get IsCovered s.staged h m v.covered e live in
            (covers.0, omega (arith, covers.0, le-charge m.consumed))))
]

-- The charge of a receipt may grow by what is still free.
pub charge-IsBudgeted :
    (s : Store) (usage : DailyReceipt)
    → IsBudgeted s
    → usage.charged_bytes ≤ s.max_daily_bytes
    → IsBudgeted (record s { receipt = some usage })
charge-IsBudgeted s usage v le = record {
  counted = v.counted;
  within = v.within;
  covered = v.covered;
  charge_within = le;
  limit_fits = v.limit_fits;
}
