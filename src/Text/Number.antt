-- ===== src/Text/Number.antt =====
-- Go's `strconv` on unsigned numbers: FormatUint and ParseUint.
use picomx.Prelude.{
  ℕ, zero, suc, ◌+◌, ◌-◌, ◌*◌, ◌/◌, ◌%◌, ◌^◌, ◌≤◌, ◌<◌, ◌≡◌, refl, ◌&&◌, ◌||◌, [], ◌∷◌, ◌++◌,
  Option, none, some, arith, ltb, leb, if◌then◌else◌, ◌>>=◌, Option-cases, ◌≢◌, inl, inr,
  Bool-cases, ◌==◌, false, All-append, ◌∙◌, All, ltb→lt,
}
use native.Mathlib.Nat.{pow-suc, div-le_self, div-mul-le_self, div-add-mod', mod-lt}
use mathlib.Core.List.{cons-ne-nil, concat-ne-nil}
use picomx.Text.Bytes.{Bytes, Lacks}

abbrev pub max_uint64 : ℕ
max_uint64 = 2 ^ 64 - 1

-- The value of a digit in a base up to 36.
unfoldable pub digit_value : ℕ → Option ℕ
digit_value c =
    if leb b'0' c && leb c b'9'
    then some (c - b'0')
    else if leb b'a' c && leb c b'z'
    then some (c - b'a' + 10)
    else if leb b'A' c && leb c b'Z'
    then some (c - b'A' + 10)
    else none

unfoldable pub digit_char : ℕ → ℕ
digit_char d = if ltb d 10 then b'0' + d else b'a' + (d - 10)

-- One digit behind a value read so far; the value never passes `limit`.
next_value : ℕ → ℕ → ℕ → ℕ → Option ℕ
unfolding digit_value
next_value base limit n c = digit_value c >>= λ d.
    if leb base d || ltb limit (n * base + d) then none else some (n * base + d)

unfoldable pub scan_digits : ℕ → ℕ → ℕ → Bytes → Option ℕ
unfolding next_value
scan_digits base limit n [] = some n
scan_digits base limit n (c ∷ s) = next_value base limit n c >>= λ v. scan_digits base limit v s

-- strconv.ParseUint(s, base, bits), where `limit` is 2 ^ bits - 1.
unfoldable pub parse_uint : ℕ → ℕ → Bytes → Option ℕ
unfolding scan_digits
parse_uint base limit [] = none
parse_uint base limit (c ∷ s) = scan_digits base limit 0 (c ∷ s)

-- strconv.FormatUint: a number of 64 bits has at most 64 digits.
unfoldable pub format_digits : ℕ → ℕ → ℕ → Bytes
unfolding digit_char
format_digits base zero n = digit_char n ∷ []
format_digits base (suc fuel) n =
    let rest = format_digits base fuel (n / base) in
    if ltb n base then digit_char n ∷ [] else rest ++ digit_char (n % base) ∷ []

unfoldable pub format_uint : ℕ → ℕ → Bytes
unfolding format_digits
format_uint base n = format_digits base 64 n

digit_value-char : (d : ℕ) → d < 36 → digit_value (digit_char d) ≡ some d
unfolding digit_value digit_char
digit_value-char d h = ground arith

next_value-char :
    (base limit n d : ℕ)
    → base ≤ 36
    → d < base
    → n * base + d ≤ limit
    → next_value base limit n (digit_char d) ≡ some (n * base + d)
unfolding next_value
next_value-char base limit n d h k l = rw (digit_value-char d (omega arith)) (ground arith)

scan_append :
    (base limit n : ℕ) (s t : Bytes)
    → scan_digits base limit n (s ++ t)
      ≡ (scan_digits base limit n s >>= λ v. scan_digits base limit v t)
unfolding scan_digits
scan_append base limit n [] t = refl
scan_append base limit n (c ∷ s) t = elim (Option-cases (next_value base limit n c)) [
  | inl e ↦ rw e refl
  | inr (v, e) ↦ rw e (scan_append base limit v s t)
]

-- One digit more: the quotient fits in half the range, and the remainder is a digit.
div_bound : (base m n : ℕ) → 2 ≤ base → n < 2 * m → n / base < m
div_bound base m n h k = grind (arith, div-mul-le_self n base)

scan-format :
    (base limit fuel n : ℕ)
    → 2 ≤ base
    → base ≤ 36
    → n < 2 ^ fuel
    → n ≤ limit
    → scan_digits base limit 0 (format_digits base fuel n) ≡ some n
unfolding format_digits scan_digits
scan-format base limit zero n h k f l = ground (arith, next_value-char base limit 0 n)
scan-format base limit (suc fuel) n h k f l = elim (Bool-cases (ltb n base)) [
  | inl e ↦ rw e (ground (arith, next_value-char base limit 0 n))
  | inr e ↦
      rw (e, scan_append base limit 0 (format_digits base fuel (n / base)))
        (rw
          (scan-format base limit fuel (n / base) h k
            (div_bound base (2 ^ fuel) n h (omega (arith, pow-suc 2 fuel)))
            (omega (arith, div-le_self n base)))
          (ground (
            arith,
            next_value-char base limit (n / base) (n % base),
            div-add-mod' n base,
            mod-lt n {m = base} (omega arith),
          )))
]

format_digits_ne : (base fuel n : ℕ) → format_digits base fuel n ≢ []
unfolding format_digits
format_digits_ne base zero n h = cc
format_digits_ne base (suc fuel) n h = elim (Bool-cases (ltb n base)) [
  | inl e ↦ cons-ne-nil (digit_char n) [] (rw e at h)
  | inr e ↦ concat-ne-nil (digit_char (n % base)) (format_digits base fuel (n / base)) (rw e at h)
]

parse-scan :
    (base limit : ℕ) (s : Bytes) → s ≢ [] → parse_uint base limit s ≡ scan_digits base limit 0 s
unfolding parse_uint
parse-scan base limit [] h = absurd (h refl)
parse-scan base limit (c ∷ s) h = refl

-- ParseUint reads back what FormatUint writes, for every number that fits.
pub parse-format :
    (base limit n : ℕ)
    → 2 ≤ base
    → base ≤ 36
    → n ≤ limit
    → n ≤ max_uint64
    → parse_uint base limit (format_uint base n) ≡ some n
unfolding format_uint
parse-format base limit n h k l w =
    rw (parse-scan base limit (format_digits base 64 n) (format_digits_ne base 64 n))
      (scan-format base limit 64 n h k (omega arith) l)

-- Digits stand above every byte below b'0'.
digit_char-Lacks : (b d : ℕ) → b < b'0' → (digit_char d == b) ≡ false
unfolding digit_char
digit_char-Lacks b d h = ground arith

format_digits-Lacks : (b base fuel n : ℕ) → b < b'0' → Lacks b (format_digits base fuel n)
unfolding format_digits
format_digits-Lacks b base zero n h = (digit_char-Lacks b n h, tt)
format_digits-Lacks b base (suc fuel) n h = elim (Bool-cases (ltb n base)) [
  | inl e ↦ rw e (digit_char-Lacks b n h, tt)
  | inr e ↦ rw e (
      All-append (λ c. (c == b) ≡ false) (format_digits base fuel (n / base)) _
        (format_digits-Lacks b base fuel (n / base) h) (digit_char-Lacks b (n % base) h, tt))
]

pub format-Lacks : (b base n : ℕ) → b < b'0' → Lacks b (format_uint base n)
unfolding format_uint
format-Lacks b base n = format_digits-Lacks b base 64 n

abbrev pub max_int64 : ℕ
max_int64 = 2 ^ 63 - 1

-- strconv.ParseInt with base 10 on 64 bits, and the test that the number is not negative.
unfoldable pub parse_size : Bytes → Option ℕ
unfolding parse_uint
parse_size [] = none
parse_size (c ∷ s) =
    if c == b'+'
    then parse_uint 10 max_int64 s
    else if c == b'-'
    then (parse_uint 10 max_int64 s >>= λ n. if n == 0 then some 0 else none)
    else parse_uint 10 max_int64 (c ∷ s)

parse_size-plain :
    (s : Bytes) → Lacks b'+' s → Lacks b'-' s → parse_size s ≡ parse_uint 10 max_int64 s
unfolding parse_size
parse_size-plain [] plus minus = refl
parse_size-plain (c ∷ s) (plus, _) (minus, _) = rw (plus, minus) refl

-- A number of 63 bits that is printed reads back.
pub parse_size-format : (n : ℕ) → n ≤ max_int64 → parse_size (format_uint 10 n) ≡ some n
parse_size-format n h =
    parse_size-plain (format_uint 10 n) (format-Lacks b'+' 10 n (omega arith))
      (format-Lacks b'-' 10 n (omega arith))
    ∙ parse-format 10 max_int64 n (omega arith) (omega arith) h (omega arith)

format_digits-All {ℓ} :
    (P : ℕ → Type ℓ) (base fuel n : ℕ)
    → 2 ≤ base
    → n < 2 ^ fuel
    → ((d : ℕ) → d < base → P (digit_char d))
    → All P (format_digits base fuel n)
unfolding format_digits
format_digits-All P base zero n h f p = (p n (omega arith), tt)
format_digits-All P base (suc fuel) n h f p = elim (Bool-cases (ltb n base)) [
  | inl e ↦ rw e (p n (ltb→lt n base e), tt)
  | inr e ↦ rw e (
      All-append P (format_digits base fuel (n / base)) (digit_char (n % base) ∷ [])
        (format_digits-All P base fuel (n / base) h
          (div_bound base (2 ^ fuel) n h (omega (arith, pow-suc 2 fuel))) p)
        (p (n % base) (mod-lt n {m = base} (omega arith)), tt))
]

-- What holds of every digit of a base holds of all that is printed in it.
pub format-All {ℓ} :
    (P : ℕ → Type ℓ) (base n : ℕ)
    → 2 ≤ base
    → n ≤ max_uint64
    → ((d : ℕ) → d < base → P (digit_char d))
    → All P (format_uint base n)
unfolding format_uint
format-All P base n h w p = format_digits-All P base 64 n h (omega arith) p
