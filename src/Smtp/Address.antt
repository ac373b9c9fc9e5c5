-- ===== src/Smtp/Address.antt =====
-- internal/smtp/server.go: the grammar of commands, paths, addresses, domains and parameters.
pub mod Checks
use picomx.Prelude.{
  ℕ, zero, suc, ◌+◌, ◌-◌, ◌*◌, ◌/◌, ◌%◌, ◌^◌, ◌≤◌, ◌<◌, ◌≡◌, refl, sym, ap, ◌∙◌, subst, ◌≢◌, ◌↔◌,
  ◌⊎◌, inl, inr, Bool, true, false, ◌&&◌, ◌||◌, not, Option, none, some, List, [], ◌∷◌, ◌++◌, map,
  reverse, append_assoc, append-nil, arith, ltb, leb, ◌==◌, if◌then◌else◌, ltb→lt, lt→ltb, leb→le,
  le→leb, ==_iff, Bool-cases, Option-cases, ◌>>=◌, >>=-eq-some, some_inj, unless-eq-some, length,
  get_elem?, set, replicate, take, drop, all, any, length-append, length-map, All, All-append,
}
use picomx.Text.Bytes.{Bytes, codes, bytes_eq, split, trim_suffix, has_prefix, cut}
use picomx.Text.Number.{parse_size}
use picomx.Text.Unicode.{Unicode, to_upper, to_lower, trim_space, fields, equal_fold}

unfoldable pub is_lower : ℕ → Bool
is_lower c = leb b'a' c && leb c b'z'

unfoldable pub is_upper : ℕ → Bool
is_upper c = leb b'A' c && leb c b'Z'

unfoldable pub is_digit : ℕ → Bool
is_digit c = leb b'0' c && leb c b'9'

unfoldable pub is_domain_char : ℕ → Bool
unfolding is_lower is_digit
is_domain_char c = is_lower c || is_digit c || c == b'-'

unfoldable pub contains_byte : ℕ → Bytes → Bool
contains_byte c s = any (λ d. d == c) s

unfoldable pub is_local_char : ℕ → Bool
unfolding is_lower is_upper is_digit contains_byte
is_local_char c =
    is_lower c || is_upper c || is_digit c || contains_byte c (codes "!#$%&'*+-/=?^_`{|}~.")

unfoldable pub has_suffix : Bytes → Bytes → Bool
unfolding has_prefix
has_suffix s suffix = has_prefix (reverse s) (reverse suffix)

unfoldable pub contains_two_dots : Bytes → Bool
contains_two_dots [] = false
contains_two_dots (c ∷ []) = false
contains_two_dots (c ∷ d ∷ s) = ((c == b'.') && (d == b'.')) || contains_two_dots (d ∷ s)

unfoldable pub count_byte : ℕ → Bytes → ℕ
count_byte c [] = 0
count_byte c (d ∷ s) = let rest = count_byte c s in if d == c then rest + 1 else rest

-- One label between the dots of a domain.
unfoldable pub valid_label : Bytes → Bool
unfolding has_prefix has_suffix is_domain_char
valid_label label =
    not (bytes_eq label [])
    && leb (length label) 63
    && not (has_prefix label (codes "-"))
    && not (has_suffix label (codes "-"))
    && all is_domain_char label

unfoldable pub valid_domain : Bytes → Bool
unfolding valid_label split bytes_eq
valid_domain domain =
    not (bytes_eq domain []) && leb (length domain) 253 && all valid_label (split b'.' domain)

-- What strings.Cut gives when the separator is missing.
unfoldable pub cut_at : ℕ → Bytes → Bytes × Bytes
unfolding cut
cut_at c s = elim (cut c s) [ none ↦ (s, []) | some parts ↦ parts ]

-- The local part of an address.
unfoldable pub valid_local : Bytes → Bool
unfolding has_prefix has_suffix contains_two_dots is_local_char bytes_eq
valid_local local =
    not (bytes_eq local [])
    && leb (length local) 64
    && not (has_prefix local (codes "."))
    && not (has_suffix local (codes "."))
    && not (contains_two_dots local)
    && all is_local_char local

module _ (u : Unicode) where
  unfoldable pub normalize_domain : Bytes → Bytes
  unfolding trim_suffix to_lower trim_space
  normalize_domain domain = trim_suffix (to_lower u (trim_space u domain)) (codes ".")

  unfoldable pub valid_address : Bytes → Bool
  unfolding count_byte cut_at valid_local valid_domain normalize_domain
  valid_address address =
      let (local, domain) = cut_at b'@' address in
      leb (length address) 254
      && (count_byte b'@' address == 1)
      && valid_local local
      && valid_domain (normalize_domain domain)

  -- The last part of parsePath, behind the closing bracket.
  unfoldable pub accept_path : Bool → Bytes → Bytes → Option (Bytes × Bytes)
  unfolding valid_address bytes_eq
  accept_path allow_empty address parameters =
      if (bytes_eq address [] && allow_empty) || valid_address address
      then some (address, parameters)
      else none

  unfoldable pub bracketed : Bool → Bytes → Option (Bytes × Bytes)
  unfolding cut accept_path trim_space
  bracketed allow_empty [] = none
  bracketed allow_empty (c ∷ rest) =
      if c == b'<'
      then (elim (cut b'>' rest) [
        | none ↦ none
        | some (address, behind) ↦ accept_path allow_empty address (trim_space u behind)
      ])
      else none

  -- parsePath: the address between angle brackets and the parameters behind it.
  unfoldable pub parse_path : Bytes → Bytes → Bool → Option (Bytes × Bytes)
  unfolding equal_fold trim_space bracketed
  parse_path argument prefix allow_empty =
      if ltb (length argument) (length prefix)
        || not (equal_fold u (take (length prefix) argument) prefix)
      then none
      else bracketed allow_empty (trim_space u (drop (length prefix) argument))

  unfoldable pub split_command : Bytes → Bytes × Bytes
  unfolding cut to_upper trim_space
  split_command line = elim (cut b' ' line) [
    | none ↦ (to_upper u line, [])
    | some (command, argument) ↦ (to_upper u command, trim_space u argument)
  ]

  -- validHelo. `is_ip` says that net.ParseIP reads an address.
  unfoldable pub valid_helo : (Bytes → Bool) → Bytes → Bool
  unfolding valid_domain normalize_domain has_prefix has_suffix
  valid_helo is_ip value =
      valid_domain (normalize_domain value)
      || (has_prefix value (codes "[")
          && has_suffix value (codes "]")
          && is_ip (take (length value - 2) (drop 1 value)))

pub data ParameterError : Type 0 where
  unsupported invalid_size too_large : ParameterError

unfoldable pub validate_size : ℕ → Bytes → Option ParameterError
unfolding parse_size
validate_size max_size value = elim (parse_size value) [
  | none ↦ some invalid_size
  | some size ↦ if ltb max_size size then some too_large else none
]

-- One parameter, in the words NAME=VALUE.
unfoldable pub validate_parameter : Unicode → ℕ → Bytes → Option ParameterError
unfolding cut equal_fold validate_size
validate_parameter u max_size parameter = elim (cut b'=' parameter) [
  | none ↦ some unsupported
  | some (name, value) ↦
      if equal_fold u name (codes "SIZE") then validate_size max_size value else some unsupported
]

unfoldable pub validate_words : Unicode → ℕ → List Bytes → Option ParameterError
unfolding validate_parameter
validate_words u max_size [] = none
validate_words u max_size (p ∷ ps) =
    let rest = validate_words u max_size ps in
    elim (validate_parameter u max_size p) [ some e ↦ some e | none ↦ rest ]

-- validateMailParameters: the first parameter that is refused, or none.
unfoldable pub validate_mail_parameters : Unicode → ℕ → Bytes → Option ParameterError
unfolding fields validate_words
validate_mail_parameters u max_size parameters =
    if bytes_eq parameters [] then none else validate_words u max_size (fields u parameters)
