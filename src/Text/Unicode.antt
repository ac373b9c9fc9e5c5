-- ===== src/Text/Unicode.antt =====
-- Go's `strings` functions that know about letter case and space. On ASCII text they are written
-- out here. On other text they go by the Unicode tables, which are a parameter.
use picomx.Prelude.{
  ℕ, ◌+◌, ◌-◌, Bool, ◌&&◌, ◌||◌, List, [], ◌∷◌, map, reverse, ltb, leb, ◌==◌, if◌then◌else◌, all,
}
use picomx.Text.Bytes.{Bytes, bytes_eq}

pub record Unicode : Type 0 where
  pub upper : Bytes → Bytes
  pub lower : Bytes → Bytes
  pub trim : Bytes → Bytes
  pub words : Bytes → List Bytes
  pub fold_eq : Bytes → Bytes → Bool

unfoldable pub is_ascii : Bytes → Bool
is_ascii s = all (λ c. ltb c 128) s

unfoldable pub upper_char : ℕ → ℕ
upper_char c = if leb b'a' c && leb c b'z' then c - 32 else c

unfoldable pub lower_char : ℕ → ℕ
lower_char c = if leb b'A' c && leb c b'Z' then c + 32 else c

-- Tab, line feed, vertical tab, form feed, carriage return and space.
unfoldable pub is_space : ℕ → Bool
is_space c = (leb 9 c && leb c 13) || c == b' '

unfoldable pub trim_left : Bytes → Bytes
unfolding is_space
trim_left [] = []
trim_left (c ∷ s) = if is_space c then trim_left s else c ∷ s

-- The ASCII text with the space at both ends taken off.
unfoldable pub trim_ascii : Bytes → Bytes
unfolding trim_left
trim_ascii s = reverse (trim_left (reverse (trim_left s)))

unfoldable pub add_char : ℕ → List Bytes → List Bytes
add_char c [] = (c ∷ []) ∷ []
add_char c (w ∷ ws) = (c ∷ w) ∷ ws

-- The words of an ASCII text; `fresh` says that the byte before is not of a word.
unfoldable pub words_ascii : Bytes → List Bytes
unfolding is_space add_char
words_ascii [] = []
words_ascii (c ∷ []) = if is_space c then [] else (c ∷ []) ∷ []
words_ascii (c ∷ d ∷ s) =
    let rest = words_ascii (d ∷ s) in
    if is_space c then rest else if is_space d then (c ∷ []) ∷ rest else add_char c rest

module _ (u : Unicode) where
  -- strings.ToUpper, strings.ToLower, strings.TrimSpace, strings.Fields and strings.EqualFold.
  unfoldable pub to_upper : Bytes → Bytes
  unfolding is_ascii upper_char
  to_upper s = if is_ascii s then map upper_char s else u.upper s

  unfoldable pub to_lower : Bytes → Bytes
  unfolding is_ascii lower_char
  to_lower s = if is_ascii s then map lower_char s else u.lower s

  unfoldable pub trim_space : Bytes → Bytes
  unfolding is_ascii trim_ascii
  trim_space s = if is_ascii s then trim_ascii s else u.trim s

  unfoldable pub fields : Bytes → List Bytes
  unfolding is_ascii words_ascii
  fields s = if is_ascii s then words_ascii s else u.words s

  unfoldable pub equal_fold : Bytes → Bytes → Bool
  unfolding is_ascii lower_char bytes_eq
  equal_fold s t =
      if is_ascii s && is_ascii t
      then bytes_eq (map lower_char s) (map lower_char t)
      else u.fold_eq s t
