-- ===== src/Archive/Store/Staging.antt =====
-- internal/archive/store.go and quota.go: staging keeps the budget.
use picomx.Prelude.{
  ℕ, ◌+◌, ◌^◌, ◌≤◌, ◌<◌, ◌≡◌, refl, inl, inr, Bool, true, false, not, some, [], ◌∷◌, ◌++◌, arith,
  if◌then◌else◌, Bool-cases, Option-cases, length, get_elem?, All-append,
}
use picomx.Text.Bytes.{Bytes}
use picomx.Archive.Errors.{ok, Error, fail_if, >>=-eq-ok, Result-cases, daily_limit}
use picomx.Archive.Quota.{minimum_receipt_charge, receipt_usage, can_reserve, charge}
use picomx.Archive.Store.{
  Store, StagedMessage, can_reserve_now, check_failure, check_receive, add_uint64, sub_uint64,
  begin_stage, take_chunk, read_chunk,
}
use picomx.Archive.Store.Budget.{
  IsBudgeted, IsCovered, held, total_held-append, All-get, held-le-total, held-live, put-IsBudgeted,
}

-- What the test of the budget says in numbers.
pub can_reserve-bound :
    (s : Store) (today : Bytes) (extra : ℕ)
    → can_reserve_now s today extra ≡ true
    → (receipt_usage s.receipt today).1 + s.reserved_bytes + extra ≤ s.max_daily_bytes
unfolding can_reserve_now can_reserve
can_reserve-bound s today extra e = ground arith

if-IsBudgeted {ℓ} :
    {A : Type ℓ} (b : Bool) (x y : Store × A)
    → IsBudgeted x.0
    → (b ≡ false → IsBudgeted y.0)
    → IsBudgeted (if b then x else y).0
if-IsBudgeted true x y vx vy = vx
if-IsBudgeted false x y vx vy = vy refl

-- A staged message more, within the budget.
append-IsBudgeted :
    (s : Store) (m : StagedMessage) (r : ℕ)
    → IsBudgeted s
    → r ≡ s.reserved_bytes + held m
    → r ≤ s.max_daily_bytes
    → IsCovered m
    → IsBudgeted (record s { reserved_bytes = r; staged = s.staged ++ m ∷ [] })
append-IsBudgeted s m r v sum le c = record {
  counted = omega (arith, sum, v.counted, total_held-append s.staged m);
  within = le;
  covered = All-append IsCovered s.staged (m ∷ []) v.covered (c, tt);
  charge_within = v.charge_within;
  limit_fits = v.limit_fits;
}

fail_if-not : (t : Bool) (e : Error) {u : Unit {0}} → fail_if (not t) e ≡ ok u → t ≡ true
fail_if-not true e h = refl
fail_if-not false e h = cc

check_receive-ok :
    (s : Store) (today : Bytes) {u : Unit {0}}
    → check_receive s today ≡ ok u
    → can_reserve_now s today minimum_receipt_charge ≡ true
unfolding check_receive
check_receive-ok s today e =
    let (_, _, rest) = >>=-eq-ok (check_failure s.failure) _ e in
    fail_if-not (can_reserve_now s today minimum_receipt_charge) daily_limit rest

pub begin_stage-IsBudgeted :
    (s : Store) (today : Bytes) → IsBudgeted s → IsBudgeted (begin_stage s today).0
unfolding begin_stage
begin_stage-IsBudgeted s today v = elim (Result-cases (check_receive s today)) [
  | inr (e, refused) ↦ rw (refused, begin_stage) v
  | inl (u, granted) ↦
      let bound =
        can_reserve-bound s today minimum_receipt_charge (check_receive-ok s today granted) in
      let fits : add_uint64 s.reserved_bytes minimum_receipt_charge
          ≡ s.reserved_bytes + minimum_receipt_charge =
        omega (arith, bound, v.limit_fits) in
      rw (granted, begin_stage)
        (append-IsBudgeted s _ (add_uint64 s.reserved_bytes minimum_receipt_charge) v
          (unfold held in fits) (omega (arith, bound, fits))
          (λ live. (unfold charge in refl, omega arith)))
]

charge-bound : (n : ℕ) → n < 2 ^ 64 → charge n < 2 ^ 64
unfolding charge
charge-bound n h = ground arith

-- What is asked for and granted is the difference of two costs: it did not wrap around.
granted-exact :
    (cost mine total limit : ℕ)
    → cost < 2 ^ 64
    → mine ≤ total
    → total + sub_uint64 cost mine ≤ limit
    → limit < 2 ^ 64
    → sub_uint64 cost mine + mine ≡ cost
granted-exact cost mine total limit c le bound fits = omega arith

take_chunk-IsBudgeted :
    (s : Store) (today : Bytes) (h : ℕ) (m : StagedMessage) (chunk : Bytes)
    → IsBudgeted s
    → get_elem? s.staged h ≡ some m
    → m.done ≡ false
    → IsBudgeted (take_chunk s today h m chunk).0
unfolding take_chunk
take_chunk-IsBudgeted s today h m chunk v e live =
    let cost = charge (add_uint64 m.consumed (length chunk)) in
    let extra = sub_uint64 cost m.reserved in
    elim (Bool-cases (can_reserve_now s today extra)) [
      | inr refused ↦ rw (refused, take_chunk) v
      | inl granted ↦
          let bound = can_reserve-bound s today extra granted in
          let total = held-le-total s.staged h m e in
          let mine = held-live m live in
          let covers = All-get IsCovered s.staged h m v.covered e live in
          let grown : StagedMessage = record m {
            reserved = cost;
            consumed = add_uint64 m.consumed (length chunk);
            content = m.content ++ chunk;
          } in
          let exact =
            granted-exact cost m.reserved s.reserved_bytes s.max_daily_bytes
              (charge-bound (add_uint64 m.consumed (length chunk)) (omega arith))
              (omega (arith, total, mine, v.counted)) (omega (arith, bound)) v.limit_fits in
          let no_wrap : add_uint64 s.reserved_bytes extra ≡ s.reserved_bytes + extra =
            omega (arith, bound, v.limit_fits) in
          rw (granted, take_chunk)
            (put-IsBudgeted s h m grown (add_uint64 s.reserved_bytes extra) v e
              (omega (arith, no_wrap, exact, mine, held-live grown live))
              (omega (arith, no_wrap, bound)) (λ _. (refl, omega (arith, exact, covers.1))))
    ]

pub read_chunk-IsBudgeted :
    (s : Store) (today : Bytes) (h : ℕ) (chunk : Bytes)
    → ((m : StagedMessage) → get_elem? s.staged h ≡ some m → m.done ≡ false)
    → IsBudgeted s
    → IsBudgeted (read_chunk s today h chunk).0
unfolding read_chunk
read_chunk-IsBudgeted s today h [] live v = v
read_chunk-IsBudgeted s today h (c ∷ chunk) live v = elim (Option-cases (get_elem? s.staged h)) [
  | inl e ↦ rw (e, read_chunk) v
  | inr (m, e) ↦ rw (e, read_chunk) (take_chunk-IsBudgeted s today h m (c ∷ chunk) v e (live m e))
]
