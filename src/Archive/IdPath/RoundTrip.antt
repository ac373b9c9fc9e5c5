-- ===== src/Archive/IdPath/RoundTrip.antt =====
-- The path of an ID reads back as that ID.
use picomx.Prelude.{
  ℕ, zero, suc, ◌+◌, ◌*◌, ◌/◌, ◌%◌, ◌^◌, ◌≤◌, ◌<◌, ◌≡◌, refl, List, [], ◌∷◌, ◌++◌, map, reverse,
  some, arith, ◌==◌, ◌>>=◌, length, Option-cases, Bool-cases, inl, inr, false, ap, ◌≢◌,
}
use mathlib.Core.List.{reverse-cons, map-append, concat-ne-nil}
use native.Mathlib.Nat.{pow-suc}
use picomx.Archive.IdPath.Digits.{
  components-Lacks, depth-Lacks, id_digits-AreDigits, length-id_digits, parse-fmt_digit,
  parse-fmt_digit-eml, depth-Lacks, length-id_digits, components-Lacks,
}
use picomx.Text.Bytes.{Bytes, bytes_eq_refl, split-join}
use picomx.Text.Number.{max_uint64}
use picomx.Archive.IdPath.{
  id_radix, id_digits, fmt_digit, eml, next_id, fold_parts, parse_uint, trim_suffix, components,
  id_from_parts, message_relative_path, check_path, message_id_from_path, join, format_uint,
}

fold_append :
    (id : ℕ) (xs ys : List Bytes)
    → fold_parts id (xs ++ ys) ≡ (fold_parts id xs >>= λ v. fold_parts v ys)
unfolding fold_parts
fold_append id [] ys = refl
fold_append id (x ∷ xs) ys = elim (Option-cases (next_id id x)) [
  | inl e ↦ rw e refl
  | inr (v, e) ↦ rw e (fold_append v xs ys)
]

-- What one component does, with or without the suffix, when the result fits in 64 bits.
next_id-step :
    (id d : ℕ) (part : Bytes)
    → parse_uint 16 1023 (trim_suffix part eml) ≡ some d
    → id * id_radix + d ≤ max_uint64
    → next_id id part ≡ some (id * id_radix + d)
unfolding next_id
next_id-step id d part h fits = rw h (ground arith)

pub id_digits-step :
    (fuel id : ℕ)
    → (id == 0) ≡ false
    → id_digits (suc fuel) id ≡ (id % id_radix) ∷ id_digits fuel (id / id_radix)
unfolding id_digits
id_digits-step fuel id e = rw e

fold_last :
    (id d : ℕ) (part : Bytes)
    → parse_uint 16 1023 (trim_suffix part eml) ≡ some d
    → id * id_radix + d ≤ max_uint64
    → fold_parts id (part ∷ []) ≡ some (id * id_radix + d)
unfolding fold_parts
fold_last id d part h fits = rw (next_id-step id d part h fits)

-- The quotient, and behind it the component of the remainder.
module _ (id : ℕ) (w : id ≤ max_uint64) (upper : List Bytes)
    (read : fold_parts 0 upper ≡ some (id / id_radix)) where
  fold_component :
      (part : Bytes)
      → parse_uint 16 1023 (trim_suffix part eml) ≡ some (id % id_radix)
      → fold_parts 0 (upper ++ part ∷ []) ≡ some id
  fold_component part h =
      rw (fold_append 0 upper (part ∷ []), read)
        (rw (fold_last (id / id_radix) (id % id_radix) part h (omega arith))
          (ap some (omega arith)))

-- The components without the suffix, for the digits of an ID that fit in the fuel.
fold_upper :
    (fuel id : ℕ)
    → id < id_radix ^ fuel
    → id ≤ max_uint64
    → fold_parts 0 (map fmt_digit (reverse (id_digits fuel id))) ≡ some id
fold_upper zero id h w = unfold fold_parts id_digits in ground arith
fold_upper (suc fuel) id h w = elim (Bool-cases (id == 0)) [
  | inl e ↦ unfold fold_parts id_digits in rw e (ground arith)
  | inr e ↦
      rw (id_digits-step fuel id e, reverse-cons, map-append)
        (fold_component id w (map fmt_digit (reverse (id_digits fuel (id / id_radix))))
          (fold_upper fuel (id / id_radix) (omega (arith, pow-suc 1024 fuel)) (omega arith))
          (fmt_digit (id % id_radix)) (parse-fmt_digit (id % id_radix) (omega arith)))
]

-- All components of an ID, the last one with its suffix.
fold-components :
    (id : ℕ) → 0 < id → id ≤ max_uint64 → fold_parts 0 (components (id_digits 7 id)) ≡ some id
fold-components id h w = rw (id_digits-step 6 id (ground arith)) (
    unfold components in
    fold_component id w (map fmt_digit (reverse (id_digits 6 (id / id_radix))))
      (fold_upper 6 (id / id_radix) (omega arith) (omega arith)) (fmt_digit (id % id_radix) ++ eml)
      (parse-fmt_digit-eml (id % id_radix) (omega arith)))

components_ne : (id : ℕ) → 0 < id → components (id_digits 7 id) ≢ []
components_ne id h =
    rw (id_digits-step 6 id (ground arith))
      (unfold components in concat-ne-nil _ (map fmt_digit (reverse (id_digits 6 (id / id_radix)))))

from_parts-cons :
    (path depth : Bytes) (parts : List Bytes)
    → parts ≢ []
    → id_from_parts path (depth ∷ parts) ≡ (fold_parts 0 parts >>= check_path path)
unfolding id_from_parts
from_parts-cons path depth [] h = absurd (h refl)
from_parts-cons path depth (part ∷ parts) h = refl

pub relative_path-pos :
    (id : ℕ)
    → 0 < id
    → message_relative_path id
      ≡ some (join b'/' (format_uint 10 (length (id_digits 7 id)) ∷ components (id_digits 7 id)))
unfolding message_relative_path
relative_path-pos id h = let e : (id == 0) ≡ false = ground arith in rw e refl

check_path_self :
    (path : Bytes) (id : ℕ) → message_relative_path id ≡ some path → check_path path id ≡ some id
unfolding check_path
check_path_self path id h = rw (h, bytes_eq_refl path)

-- Every message ID above 0 of 64 bits has a path, and the path reads back as the ID.
pub id_from_path-relative_path :
    (id : ℕ)
    → 0 < id
    → id ≤ max_uint64
    → (path : Bytes) × (message_relative_path id ≡ some path)
      × (message_id_from_path path ≡ some id)
id_from_path-relative_path id h w = (path, relative_path-pos id h, reads)
  where
    depth : Bytes
    depth = format_uint 10 (length (id_digits 7 id))

    path : Bytes
    path = join b'/' (depth ∷ components (id_digits 7 id))

    reads : message_id_from_path path ≡ some id
    reads =
        unfold message_id_from_path in
        rw
          (
            split-join b'/' depth (components (id_digits 7 id)) (
              depth-Lacks (length (id_digits 7 id)) (omega (arith, length-id_digits 7 id)),
              components-Lacks (id_digits 7 id) (id_digits-AreDigits 7 id),
            ),
            from_parts-cons path depth (components (id_digits 7 id)) (components_ne id h),
            fold-components id h w,
          )
          (check_path_self path id (relative_path-pos id h))
