-- ===== src/Archive/Errors.antt =====
-- The errors of internal/archive that callers tell apart or that end an operation.
use picomx.Prelude.{Bool, true, false, ◌⊎◌, inl, inr, ◌≡◌, refl, ap}

pub data Error : Type 0 where
  daily_limit no_such_message : Error
  not_ours not_available ids_exhausted octets_overflow no_path bad_counts count_underflow
        size_mismatch :
      Error
  bad_object bad_tree not_a_message duplicate_id archive_closed : Error
  io_failed receipt_failed head_changed importer_failed import_failed : Error

-- errors.Is(err, ErrNoSuchMessage).
unfoldable pub is_missing : Error → Bool
is_missing e = elim e [ no_such_message ↦ true | _ ↦ false ]

pub data Result {ℓ} (A : Type ℓ) : Type ℓ where
  err : Error → Result A
  ok : A → Result A

-- The next step gets the value of the one before it; an error skips it.
infixl 5 ◌>>=◌
abbrev pub ◌>>=◌ {ℓ κ} :
    {Value : Type ℓ} {Final : Type κ} → Result Value → (Value → Result Final) → Result Final
err stop >>= next = err stop
ok value >>= next = next value

-- The next step does not ask for a value.
infixl 5 ◌>>◌
abbrev pub ◌>>◌ {ℓ} : {Final : Type ℓ} → Result (Unit {0}) → Result Final → Result Final
step >> next = step >>= λ _. next

-- A test that ends the operation with an error when it holds.
abbrev pub fail_if : Bool → Error → Result (Unit {0})
fail_if true e = err e
fail_if false e = ok tt

pub Result-cases {ℓ} :
    {A : Type ℓ} (r : Result A) → ((a : A) × (r ≡ ok a)) ⊎ ((e : Error) × (r ≡ err e))
Result-cases (ok a) = inl (a, refl)
Result-cases (err e) = inr (e, refl)

-- A chain that succeeds: its first step does, and so does the rest at that step's value.
pub >>=-eq-ok {ℓ κ} :
    {A : Type ℓ} {B : Type κ} (r : Result A) (f : A → Result B) {b : B}
    → (r >>= f) ≡ ok b
    → (a : A) × (r ≡ ok a) × (f a ≡ ok b)
>>=-eq-ok (ok a) f h = (a, refl, h)
>>=-eq-ok (err e) f h = cc

pub fail_if-eq-ok {ℓ} :
    {B : Type ℓ} (t : Bool) (e : Error) {r : Result B} {b : B}
    → (fail_if t e >> r) ≡ ok b
    → (t ≡ false) × (r ≡ ok b)
fail_if-eq-ok true e h = cc
fail_if-eq-ok false e h = (refl, h)

-- The result, for an error too, when another value is given for it.
abbrev ok_or {ℓ} : {A : Type ℓ} → A → Result A → A
ok_or d (ok a) = a
ok_or d (err e) = d

pub ok_inj {ℓ} : {A : Type ℓ} {a b : A} → ok a ≡ ok b → a ≡ b
ok_inj {a} {b} p = ap (ok_or a) p
