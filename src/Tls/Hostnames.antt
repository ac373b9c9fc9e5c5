-- ===== src/Tls/Hostnames.antt =====
-- internal/tlscert/load.go: the host names that the certificate must cover.
use picomx.Prelude.{
  ℕ, ◌≡◌, ap, ◌∙◌, subst, ◌≢◌, inl, inr, Bool, true, false, ◌&&◌, ◌||◌, not, Option, none, some,
  List, [], ◌∷◌, ltb, leb, ◌==◌, if◌then◌else◌, Bool-cases, ◌>>=◌, >>=-eq-some, some_inj, length,
  all, any, All,
}
use picomx.Text.Bytes.{Bytes, codes, bytes_eq, split, join, trim_suffix}
use picomx.Text.Unicode.{Unicode, to_lower, trim_space}

unfoldable pub is_dns_char : ℕ → Bool
is_dns_char c = ((leb b'a' c && leb c b'z') || (leb b'0' c && leb c b'9')) || c == b'-'

unfoldable pub ends_in_dash : Bytes → Bool
ends_in_dash [] = false
ends_in_dash (c ∷ []) = c == b'-'
ends_in_dash (c ∷ d ∷ s) = ends_in_dash (d ∷ s)

unfoldable pub valid_dns_label : Bytes → Bool
unfolding is_dns_char ends_in_dash
valid_dns_label [] = false
valid_dns_label (c ∷ s) =
    not ((ltb 63 (length (c ∷ s)) || c == b'-') || ends_in_dash (c ∷ s)) && all is_dns_char (c ∷ s)

unfoldable pub valid_dns_name : Bytes → Bool
unfolding valid_dns_label split
valid_dns_name name =
    not (length name == 0 || ltb 253 (length name)) && all valid_dns_label (split b'.' name)

unfoldable pub is_seen : Bytes → List Bytes → Bool
unfolding bytes_eq
is_seen name seen = any (bytes_eq name) seen

-- strings.Join of the labels from each one on that has another behind it.
unfoldable pub suffix_domains : List Bytes → List Bytes
unfolding join
suffix_domains [] = []
suffix_domains (label ∷ []) = []
suffix_domains (label ∷ next ∷ labels) =
    join b'.' (label ∷ next ∷ labels) ∷ suffix_domains (next ∷ labels)

unfoldable pub domain_candidates : Bytes → List Bytes
unfolding suffix_domains split
domain_candidates hostname = suffix_domains (split b'.' hostname)

module _ (u : Unicode) where
  unfoldable pub normalize_name : Bytes → Bytes
  unfolding to_lower trim_space trim_suffix
  normalize_name raw = trim_suffix (to_lower u (trim_space u raw)) (codes ".")

  -- The loop over the names; `none` is the error of a bad one.
  unfoldable pub collect_names : List Bytes → List Bytes → Option (List Bytes)
  unfolding normalize_name valid_dns_name is_seen
  collect_names seen [] = some []
  collect_names seen (raw ∷ raws) =
      let name = normalize_name raw in
      let rest = collect_names seen raws in
      let more = collect_names (name ∷ seen) raws in
      if not (valid_dns_name name)
      then none
      else if is_seen name seen
      then rest
      else (more >>= λ names. some (name ∷ names))

  unfoldable pub at_least_one : List Bytes → Option (List Bytes)
  at_least_one [] = none
  at_least_one (name ∷ names) = some (name ∷ names)

  unfoldable pub normalize_hostnames : List Bytes → Option (List Bytes)
  unfolding collect_names at_least_one
  normalize_hostnames hostnames = collect_names [] hostnames >>= at_least_one

-- None of the names is among those seen, nor twice in the list.
abbrev pub AreNew : List Bytes → List Bytes → Type 0
AreNew seen [] = Unit
AreNew seen (name ∷ names) = (is_seen name seen ≡ false) × AreNew (name ∷ seen) names

module _ (u : Unicode) where
  collect_names-AreNew :
      (seen raws names : List Bytes)
      → collect_names u seen raws ≡ some names
      → AreNew seen names × All (λ n. valid_dns_name n ≡ true) names
  unfolding collect_names
  collect_names-AreNew seen [] names h =
      subst (λ l. AreNew seen l × All (λ n. valid_dns_name n ≡ true) l) (some_inj h) (tt, tt)
  collect_names-AreNew seen (raw ∷ raws) names h =
      let name = normalize_name u raw in
      elim (Bool-cases (valid_dns_name name)) [
        | inr bad ↦ cc (rw (collect_names, bad) at h)
        | inl valid ↦ elim (Bool-cases (is_seen name seen)) [
          | inl old ↦ collect_names-AreNew seen raws names (rw (collect_names, valid, old) at h)
          | inr fresh ↦
              let (rest, run, last) =
                >>=-eq-some (collect_names u (name ∷ seen) raws) _
                  (rw (collect_names, valid, fresh) at h) in
              let (news, valids) = collect_names-AreNew (name ∷ seen) raws rest run in
              subst (λ l. AreNew seen l × All (λ n. valid_dns_name n ≡ true) l) (some_inj last)
                ((fresh, news), (valid, valids))
        ]
      ]

  at_least_one_ne :
      (found names : List Bytes)
      → at_least_one u found ≡ some names
      → (found ≡ names) × (names ≢ [])
  unfolding at_least_one
  at_least_one_ne [] names h = cc
  at_least_one_ne (n ∷ ns) names h = (some_inj h, λ e. cc)

  -- The host names of a certificate are not none, all valid, and no two the same.
  pub normalize_hostnames-AreNew :
      (raws names : List Bytes)
      → normalize_hostnames u raws ≡ some names
      → (names ≢ []) × AreNew [] names × All (λ n. valid_dns_name n ≡ true) names
  unfolding normalize_hostnames
  normalize_hostnames-AreNew raws names h =
      let (found, run, last) = >>=-eq-some (collect_names u [] raws) (at_least_one u) h in
      let (e, ne) = at_least_one_ne found names last in
      let (news, valids) = collect_names-AreNew [] raws names (run ∙ ap some e) in
      (ne, news, valids)
