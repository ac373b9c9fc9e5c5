-- ===== src/Text/Words.antt =====
-- `fields` on a line of words with one space between two of them.
use picomx.Prelude.{
  ℕ, ◌≡◌, refl, ap, ◌∙◌, ◌≢◌, inl, inr, true, false, [], ◌∷◌, ◌++◌, ltb, Bool-cases, All,
}
use picomx.Text.Bytes.{Bytes}
use picomx.Text.Unicode.{Unicode, is_ascii, is_space, add_char, words_ascii, fields}

abbrev pub IsWord : Bytes → Type 0
IsWord w = All (λ c. (is_space c ≡ false) × (ltb c 128 ≡ true)) w

words_space : (s : Bytes) → words_ascii (b' ' ∷ s) ≡ words_ascii s
unfolding words_ascii
words_space [] = refl
words_space (c ∷ s) = refl

words-cons :
    (c : ℕ) (w rest : Bytes)
    → IsWord (c ∷ w)
    → words_ascii ((c ∷ w) ++ b' ' ∷ rest) ≡ (c ∷ w) ∷ words_ascii rest
unfolding words_ascii
words-cons c [] rest (hc, _) = rw hc.0 (ap (λ l. (c ∷ []) ∷ l) (words_space rest))
words-cons c (d ∷ w) rest (hc, (hd, hw)) =
    rw (hc.0, hd.0) (ap (λ l. add_char c l) (words-cons d w rest (hd, hw)))

words_last : (c : ℕ) (w : Bytes) → IsWord (c ∷ w) → words_ascii (c ∷ w) ≡ (c ∷ w) ∷ []
unfolding words_ascii
words_last c [] (hc, _) = rw hc.0 refl
words_last c (d ∷ w) (hc, (hd, hw)) =
    rw (hc.0, hd.0) (ap (λ l. add_char c l) (words_last d w (hd, hw)))

pub IsWord-is_ascii : (w : Bytes) → IsWord w → is_ascii w ≡ true
unfolding is_ascii
IsWord-is_ascii [] h = refl
IsWord-is_ascii (c ∷ w) (hc, h) = rw (hc.1, IsWord-is_ascii w h) refl

is_ascii-append : (s t : Bytes) → is_ascii s ≡ true → is_ascii t ≡ true → is_ascii (s ++ t) ≡ true
unfolding is_ascii
is_ascii-append [] t hs ht = ht
is_ascii-append (c ∷ s) t hs ht = elim (Bool-cases (ltb c 128)) [
  | inl p ↦ rw p (is_ascii-append s t (rw p at hs) ht)
  | inr p ↦ cc (rw p at hs)
]

-- Three words with a space between each two are the three fields of their line.
fields_three :
    (u : Unicode) (a : ℕ) (as' : Bytes) (b : ℕ) (bs : Bytes) (c : ℕ) (cs : Bytes)
    → IsWord (a ∷ as')
    → IsWord (b ∷ bs)
    → IsWord (c ∷ cs)
    → fields u ((a ∷ as') ++ b' ' ∷ ((b ∷ bs) ++ b' ' ∷ (c ∷ cs)))
      ≡ (a ∷ as') ∷ (b ∷ bs) ∷ (c ∷ cs) ∷ []
unfolding fields is_ascii
fields_three u a as' b bs c cs ha hb hc =
    let ascii =
      is_ascii-append (a ∷ as') (b' ' ∷ ((b ∷ bs) ++ b' ' ∷ (c ∷ cs)))
        (IsWord-is_ascii (a ∷ as') ha)
        (is_ascii-append (b ∷ bs) (b' ' ∷ (c ∷ cs)) (IsWord-is_ascii (b ∷ bs) hb)
          (IsWord-is_ascii (c ∷ cs) hc)) in
    rw (ascii) (
      words-cons a as' ((b ∷ bs) ++ b' ' ∷ (c ∷ cs)) ha
      ∙ ap (λ l. (a ∷ as') ∷ l)
          (words-cons b bs (c ∷ cs) hb ∙ ap (λ l. (b ∷ bs) ∷ l) (words_last c cs hc)))

pub fields_words :
    (u : Unicode) (a b c : Bytes)
    → IsWord a
    → IsWord b
    → IsWord c
    → a ≢ []
    → b ≢ []
    → c ≢ []
    → fields u (a ++ b' ' ∷ (b ++ b' ' ∷ c)) ≡ a ∷ b ∷ c ∷ []
fields_words u [] b c ha hb hc na nb nc = absurd (na refl)
fields_words u (x ∷ a) [] c ha hb hc na nb nc = absurd (nb refl)
fields_words u (x ∷ a) (y ∷ b) [] ha hb hc na nb nc = absurd (nc refl)
fields_words u (x ∷ a) (y ∷ b) (z ∷ c) ha hb hc na nb nc = fields_three u x a y b z c ha hb hc
