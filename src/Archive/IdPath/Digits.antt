-- ===== src/Archive/IdPath/Digits.antt =====
-- The digits of an ID: the tables of the components, and the loop that reads them.
use picomx.Prelude.{
  All, All-append, not, Bool-cases, inl, inr, ℕ, zero, suc, ◌+◌, ◌/◌, ◌≤◌, ◌<◌, ◌≡◌, refl, Bool,
  true, ◌&&◌, List, [], ◌∷◌, ◌++◌, map, reverse, Option, none, some, arith, ◌==◌, length, not,
}
use mathlib.Core.List.{reverse-cons, map-append}
use picomx.Text.Bytes.{Bytes, bytes_eq, trim_suffix, Lacks}
use picomx.Text.Number.{parse_uint, format_uint}
use picomx.Archive.IdPath.{components, id_radix, id_digits, fmt_digit, eml}

true_under : ℕ → (ℕ → Bool) → Bool
true_under zero p = true
true_under (suc n) p = p n && true_under n p

true_under_sound : (n : ℕ) (p : ℕ → Bool) (x : ℕ) → true_under n p ≡ true → x < n → p x ≡ true
unfolding true_under
true_under_sound zero p x h l = absurd (omega arith)
true_under_sound (suc n) p x h l = ground (arith, true_under_sound n p x)

opt_eq : Option ℕ → ℕ → Bool
opt_eq none n = n == (n + 1)
opt_eq (some m) n = m == n

lacks : ℕ → Bytes → Bool
lacks b [] = true
lacks b (c ∷ s) = not (c == b) && lacks b s

lacks_sound : (b : ℕ) (s : Bytes) → lacks b s ≡ true → Lacks b s
unfolding lacks
lacks_sound b [] h = tt
lacks_sound b (c ∷ s) h = (ground arith, lacks_sound b s (ground arith))

-- Every component of a path, with and without the suffix, reads back and holds no slash.
digit_ok : ℕ → Bool
digit_ok d =
    opt_eq (parse_uint 16 1023 (trim_suffix (fmt_digit d) eml)) d
    && (opt_eq (parse_uint 16 1023 (trim_suffix (fmt_digit d ++ eml) eml)) d
        && (lacks b'/' (fmt_digit d) && lacks b'/' (fmt_digit d ++ eml)))

digit_table : true_under 1024 digit_ok ≡ true
unfolding true_under opt_eq parse_uint trim_suffix bytes_eq fmt_digit digit_ok lacks
digit_table = refl

opt_eq→eq : (o : Option ℕ) (n : ℕ) → opt_eq o n ≡ true → o ≡ some n
unfolding opt_eq
opt_eq→eq none n h = ground arith
opt_eq→eq (some m) n h = ground arith

module _ (d : ℕ) (h : d < 1024) where
  digit_facts : digit_ok d ≡ true
  digit_facts = true_under_sound 1024 digit_ok d digit_table h

  pub parse-fmt_digit : parse_uint 16 1023 (trim_suffix (fmt_digit d) eml) ≡ some d
  unfolding digit_ok
  parse-fmt_digit = opt_eq→eq _ d (ground (arith, digit_facts))

  pub parse-fmt_digit-eml : parse_uint 16 1023 (trim_suffix (fmt_digit d ++ eml) eml) ≡ some d
  unfolding digit_ok
  parse-fmt_digit-eml = opt_eq→eq _ d (ground (arith, digit_facts))

  pub fmt_digit-Lacks : Lacks b'/' (fmt_digit d)
  unfolding digit_ok
  fmt_digit-Lacks = lacks_sound b'/' _ (ground (arith, digit_facts))

  pub fmt_digit-eml-Lacks : Lacks b'/' (fmt_digit d ++ eml)
  unfolding digit_ok
  fmt_digit-eml-Lacks = lacks_sound b'/' _ (ground (arith, digit_facts))

depth_table : true_under 8 (λ n. lacks b'/' (format_uint 10 n)) ≡ true
unfolding true_under lacks format_uint
depth_table = refl

pub depth-Lacks : (n : ℕ) → n < 8 → Lacks b'/' (format_uint 10 n)
depth-Lacks n h =
    lacks_sound b'/' _ (true_under_sound 8 (λ n. lacks b'/' (format_uint 10 n)) n depth_table h)

pub AreDigits : List ℕ → Type 0
AreDigits = All (λ d. d < id_radix)

pub id_digits-AreDigits : (fuel id : ℕ) → AreDigits (id_digits fuel id)
unfolding id_digits AreDigits
id_digits-AreDigits zero id = tt
id_digits-AreDigits (suc fuel) id = elim (Bool-cases (id == 0)) [
  | inl e ↦ rw e tt
  | inr e ↦ rw e (omega arith, id_digits-AreDigits fuel (id / id_radix))
]

pub length-id_digits : (fuel id : ℕ) → length (id_digits fuel id) ≤ fuel
unfolding id_digits
length-id_digits zero id = omega arith
length-id_digits (suc fuel) id = ground (arith, length-id_digits fuel (id / id_radix))

reversed-Lacks : (ds : List ℕ) → AreDigits ds → All (Lacks b'/') (map fmt_digit (reverse ds))
unfolding AreDigits
reversed-Lacks [] h = tt
reversed-Lacks (d ∷ ds) (hd, hs) =
    rw (reverse-cons, map-append)
      (All-append (Lacks b'/') (map fmt_digit (reverse ds)) (fmt_digit d ∷ [])
        (reversed-Lacks ds hs) (fmt_digit-Lacks d hd, tt))

pub components-Lacks : (ds : List ℕ) → AreDigits ds → All (Lacks b'/') (components ds)
unfolding components AreDigits
components-Lacks [] h = tt
components-Lacks (d ∷ ds) (hd, hs) =
    All-append (Lacks b'/') (map fmt_digit (reverse ds)) ((fmt_digit d ++ eml) ∷ [])
      (reversed-Lacks ds hs) (fmt_digit-eml-Lacks d hd, tt)
