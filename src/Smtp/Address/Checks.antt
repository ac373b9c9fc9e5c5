-- ===== src/Smtp/Address/Checks.antt =====
-- What the tests of addresses and domains say.
use picomx.Prelude.{
  ◌≡◌, refl, sym, ap, ◌∙◌, subst, ◌⊎◌, inl, inr, Bool, true, false, ◌&&◌, ◌||◌, not, none, some, [],
  ◌∷◌, ltb, ◌==◌, if◌then◌else◌, Bool-cases, Option-cases, some_inj, unless-eq-some, length, take,
  drop,
}
use picomx.Text.Bytes.{Bytes, bytes_eq, bytes_eq→eq, cut}
use picomx.Text.Unicode.{Unicode, trim_space, equal_fold}
use picomx.Smtp.Address.{valid_address, accept_path, bracketed, parse_path}

if-eq-some {ℓ} :
    {A : Type ℓ} (b : Bool) (a : A) {x : A}
    → (if b then some a else none) ≡ some x
    → (b ≡ true) × (a ≡ x)
if-eq-some true a e = (refl, some_inj e)
if-eq-some false a e = cc

pub or-cases : (b c : Bool) → (b || c) ≡ true → (b ≡ true) ⊎ (c ≡ true)
or-cases true c e = inl refl
or-cases false c e = inr e

pub and-left : (b c : Bool) → (b && c) ≡ true → b ≡ true
and-left true c e = refl
and-left false c e = cc

pub and-right : (b c : Bool) → (b && c) ≡ true → c ≡ true
and-right true c e = e
and-right false c e = cc

-- An address that a path may have.
abbrev pub IsPathAddress : Unicode → Bool → Bytes → Type 0
IsPathAddress u allow_empty a = ((a ≡ []) × (allow_empty ≡ true)) ⊎ (valid_address u a ≡ true)

accept_path-valid :
    (u : Unicode) (allow : Bool) (a p x y : Bytes)
    → accept_path u allow a p ≡ some (x, y)
    → IsPathAddress u allow x
unfolding accept_path
accept_path-valid u allow a p x y e =
    let (test, same) = if-eq-some ((bytes_eq a [] && allow) || valid_address u a) (a, p) e in
    subst (IsPathAddress u allow) (ap (λ q. q.0) same)
      (elim (or-cases (bytes_eq a [] && allow) (valid_address u a) test) [
        | inl l ↦
            inl (
              bytes_eq→eq a [] (and-left (bytes_eq a []) allow l),
              and-right (bytes_eq a []) allow l,
            )
        | inr r ↦ inr r
      ])

bracketed-valid :
    (u : Unicode) (allow : Bool) (s x y : Bytes)
    → bracketed u allow s ≡ some (x, y)
    → IsPathAddress u allow x
unfolding bracketed
bracketed-valid u allow [] x y e = cc
bracketed-valid u allow (c ∷ rest) x y e = elim (Bool-cases (c == b'<')) [
  | inr other ↦ let failed : bracketed u allow (c ∷ rest) ≡ none = rw (other, bracketed) refl in cc
  | inl open_angle ↦ elim (Option-cases (cut b'>' rest)) [
    | inl missing ↦
        let failed : bracketed u allow (c ∷ rest) ≡ none =
          rw (open_angle, missing, bracketed) refl in
        cc
    | inr ((a, behind), found) ↦
        let whole : bracketed u allow (c ∷ rest) ≡ accept_path u allow a (trim_space u behind) =
          rw (open_angle, found, bracketed) refl in
        accept_path-valid u allow a (trim_space u behind) x y (sym whole ∙ e)
  ]
]

-- A path that is read has a valid address, or none where that is allowed.
pub parse_path-valid :
    (u : Unicode) (argument prefix x y : Bytes) (allow : Bool)
    → parse_path u argument prefix allow ≡ some (x, y)
    → IsPathAddress u allow x
unfolding parse_path
parse_path-valid u argument prefix x y allow e =
    let (_, rest) =
      unless-eq-some
        (ltb (length argument) (length prefix)
          || not (equal_fold u (take (length prefix) argument) prefix))
        e in
    bracketed-valid u allow (trim_space u (drop (length prefix) argument)) x y rest
