-- ===== src/Archive/Reader/Framing.antt =====
-- internal/archive/read.go: how the replies of `git cat-file` follow one another on the pipe.
use picomx.Prelude.{
  ℕ, ◌≤◌, ◌<◌, ◌≡◌, refl, sym, ap, ◌∙◌, ◌≢◌, inl, inr, Bool, true, false, ◌&&◌, ◌||◌, some, [], ◌∷◌,
  ◌++◌, append_assoc, arith, ltb, ◌==◌, ==_iff, Bool-cases, length, all, All, All-append,
}
use picomx.Text.Bytes.{Bytes, Lacks, codes, bytes_eq, bytes_eq→eq, cut, bytes_eq_refl}
use picomx.Text.Number.{
  max_int64, parse_size, parse_size-format, format_uint, format-All, format-Lacks, digit_char,
}
use picomx.Text.Unicode.{Unicode, is_space}
use picomx.Text.Words.{IsWord, fields_words}
use picomx.Archive.Errors.{ok}
use picomx.Archive.Reader.{
  ObjectHeader, is_hex_char, valid_object_id, missing, read_header, read_reply,
}

-- What cat-file documents for an object: the header, its bytes and a line feed.
abbrev pub header_line : Bytes → Bytes → ℕ → Bytes
header_line oid kind size = oid ++ b' ' ∷ (kind ++ b' ' ∷ format_uint 10 size)

abbrev pub object_reply : Bytes → Bytes → Bytes → Bytes
object_reply oid kind content = header_line oid kind (length content) ++ 10 ∷ (content ++ 10 ∷ [])

-- The last byte of a text, or `d`.
last_or : ℕ → Bytes → ℕ
last_or d [] = d
last_or d (c ∷ s) = last_or c s

last_or-append : (d : ℕ) (x : Bytes) (c : ℕ) (s : Bytes) → last_or d (x ++ c ∷ s) ≡ last_or c s
unfolding last_or
last_or-append d [] c s = refl
last_or-append d (e ∷ x) c s = last_or-append e x c s

last_or-All : (P : ℕ → Type 0) (c : ℕ) (s : Bytes) → All P (c ∷ s) → P (last_or c s)
unfolding last_or
last_or-All P c [] (h, _) = h
last_or-All P c (d ∷ s) (_, h) = last_or-All P d s h

hex_word : (c : ℕ) → is_hex_char c ≡ true → (is_space c ≡ false) × (ltb c 128 ≡ true)
unfolding is_hex_char is_space
hex_word c h = (ground arith, ground arith)

hex-IsWord : (s : Bytes) → all is_hex_char s ≡ true → IsWord s
hex-IsWord [] h = tt
hex-IsWord (c ∷ s) h = elim (Bool-cases (is_hex_char c)) [
  | inl e ↦ (hex_word c e, hex-IsWord s (rw e at h))
  | inr e ↦ cc (rw e at h)
]

digit_char-word :
    (d : ℕ) → d < 10 → (is_space (digit_char d) ≡ false) × (ltb (digit_char d) 128 ≡ true)
unfolding digit_char is_space
digit_char-word d h = (ground arith, ground arith)

digit_char-below : (d : ℕ) → d < 10 → digit_char d < 58
unfolding digit_char
digit_char-below d h = ground arith

pub cut-append :
    (sep : ℕ) (x rest : Bytes) → Lacks sep x → cut sep (x ++ sep ∷ rest) ≡ some (x, rest)
unfolding cut
cut-append sep [] rest h = ground arith
cut-append sep (c ∷ x) rest (hc, h) = rw (hc, cut-append sep x rest h) refl

space_ne : (sep c : ℕ) → is_space sep ≡ true → is_space c ≡ false → (c == sep) ≡ false
space_ne sep c hs hc = elim (Bool-cases (c == sep)) [
  | inl e ↦ cc (hs, hc, ap is_space ((==_iff c sep).0 e))
  | inr e ↦ e
]

pub IsWord-Lacks : (sep : ℕ) → is_space sep ≡ true → (s : Bytes) → IsWord s → Lacks sep s
IsWord-Lacks sep e [] h = tt
IsWord-Lacks sep e (c ∷ s) (h, hs) = (space_ne sep c e h.0, IsWord-Lacks sep e s hs)

and_right : (a b : Bool) → (a && b) ≡ true → b ≡ true
and_right true b h = h
and_right false b h = cc

pub hex_oid : (oid : Bytes) → valid_object_id oid ≡ true → IsWord oid
unfolding valid_object_id
hex_oid oid h = hex-IsWord oid (and_right (length oid == 40 || length oid == 64) _ h)

oid_ne : (oid : Bytes) → valid_object_id oid ≡ true → oid ≢ []
unfolding valid_object_id
oid_ne [] h e = cc
oid_ne (c ∷ oid) h e = cc

digits-IsWord : (n : ℕ) → n ≤ max_int64 → IsWord (format_uint 10 n)
digits-IsWord n h =
    format-All (λ c. (is_space c ≡ false) × (ltb c 128 ≡ true)) 10 n (omega arith) (omega arith)
      digit_char-word

digits_ne : (n : ℕ) → n ≤ max_int64 → format_uint 10 n ≢ []
unfolding parse_size
digits_ne n h e = cc (parse_size-format n h, ap parse_size e)

-- A text that ends in a digit does not end in the letter of `missing`.
ends_low :
    (x s spec : Bytes) → s ≢ [] → All (λ c. c < 58) s → bytes_eq (x ++ s) (spec ++ missing) ≡ false
unfolding missing last_or
ends_low x [] spec ne low = absurd (ne refl)
ends_low x (c ∷ s) spec ne low = elim (Bool-cases (bytes_eq (x ++ c ∷ s) (spec ++ missing))) [
  | inl e ↦ absurd (
      omega (
        arith,
        last_or-All (λ c. c < 58) c s low,
        sym (last_or-append 0 x c s)
            ∙ ap (last_or 0) (bytes_eq→eq (x ++ c ∷ s) (spec ++ missing) e)
            ∙ last_or-append 0 spec 32 (codes "missing"),
      ))
  | inr e ↦ e
]

line_not_missing :
    (oid kind spec : Bytes) (n : ℕ)
    → n ≤ max_int64
    → bytes_eq (header_line oid kind n) (spec ++ missing) ≡ false
line_not_missing oid kind spec n h =
    ap (λ t. bytes_eq t (spec ++ missing))
      (sym (append_assoc oid _ _ ∙ ap (λ t. oid ++ b' ' ∷ t) (append_assoc kind _ _)))
    ∙ ends_low (oid ++ b' ' ∷ (kind ++ b' ' ∷ [])) (format_uint 10 n) spec (digits_ne n h)
        (format-All (λ c. c < 58) 10 n (omega arith) (omega arith) digit_char-below)

header_line-Lacks :
    (oid kind : Bytes) (n : ℕ) → IsWord oid → IsWord kind → Lacks 10 (header_line oid kind n)
unfolding is_space
header_line-Lacks oid kind n ho hk =
    All-append (λ c. (c == 10) ≡ false) oid _ (IsWord-Lacks 10 refl oid ho)
      (
        refl,
        All-append (λ c. (c == 10) ≡ false) kind _ (IsWord-Lacks 10 refl kind hk)
            (refl, format-Lacks 10 10 n (omega arith)),
      )

abbrev pub header_of : Bytes → Bytes → ℕ → ObjectHeader
header_of oid kind size = record { oid = oid; kind = kind; size = size }

-- A header line that cat-file documents is read, whatever stands behind it.
pub read_reply-header :
    (u : Unicode) (spec oid kind : Bytes) (size : ℕ) (rest : Bytes)
    → valid_object_id oid ≡ true
    → IsWord kind
    → kind ≢ []
    → size ≤ max_int64
    → read_reply u spec kind (header_line oid kind size ++ 10 ∷ rest)
      ≡ (rest, ok (header_of oid kind size))
unfolding read_reply read_header
read_reply-header u spec oid kind size rest ho hk nk h =
    rw
      (
        read_reply,
        cut-append 10 (header_line oid kind size) rest
            (header_line-Lacks oid kind size (hex_oid oid ho) hk),
        line_not_missing oid kind spec size h,
        fields_words u oid kind (format_uint 10 size) (hex_oid oid ho) hk (digits-IsWord size h)
            (oid_ne oid ho) nk (digits_ne size h),
        ho,
        bytes_eq_refl kind,
        parse_size-format size h,
      )
      refl
