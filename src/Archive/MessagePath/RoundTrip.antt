-- ===== src/Archive/MessagePath/RoundTrip.antt =====
-- The path of a message against its ID and size.
use picomx.Prelude.{
  some_inj, ℕ, ◌/◌, ◌%◌, ◌≤◌, ◌<◌, ◌≡◌, refl, sym, ap, ◌∙◌, Bool, true, false, none, some, List, [],
  ◌∷◌, ◌++◌, map, reverse, append_assoc, arith, if◌then◌else◌, ◌>>=◌, >>=-eq-some, length,
}
use picomx.Archive.IdPath.RoundTrip.{relative_path-pos, id_digits-step, id_from_path-relative_path}
use picomx.Text.Bytes.{
  join, Bytes, Lacks, trim_suffix-append, bytes_eq_refl, bytes_eq→eq, join-append,
}
use picomx.Text.Number.{max_uint64, format-Lacks, parse-format}
use picomx.Archive.IdPath.{
  eml, message_relative_path, message_id_from_path, id_digits, fmt_digit, id_radix, components,
}
use picomx.Archive.MessagePath.{
  Message, message_path, cut_last_mark, check_message, read_parts, message_from_path, some, none,
  size_mark, ◌∷◌, format_uint, trim_suffix, bytes_eq, codes, parse_uint,
}

cut_last_none : (t : Bytes) → Lacks b'-' t → cut_last_mark t ≡ none
unfolding cut_last_mark
cut_last_none [] h = refl
cut_last_none (c ∷ t) (hc, ht) = rw (cut_last_none t ht) (ground arith)

cut_last_here : (t : Bytes) → Lacks b'-' t → cut_last_mark (size_mark ++ t) ≡ some ([], t)
unfolding cut_last_mark
cut_last_here t h = rw (cut_last_none t h)

cut_last_found :
    (c : ℕ) (s p t : Bytes)
    → cut_last_mark s ≡ some (p, t)
    → cut_last_mark (c ∷ s) ≡ some (c ∷ p, t)
unfolding cut_last_mark
cut_last_found c s p t h = rw h

cut_last-append : (p t : Bytes) → Lacks b'-' t → cut_last_mark (p ++ (size_mark ++ t)) ≡ some (p, t)
cut_last-append [] t h = cut_last_here t h
cut_last-append (c ∷ p) t h = cut_last_found c (p ++ (size_mark ++ t)) p t (cut_last-append p t h)

-- A relative path is a stem with the suffix.
relative_path-stem :
    (id : ℕ) → 0 < id → (stem : Bytes) × (message_relative_path id ≡ some (stem ++ eml))
relative_path-stem id h = (join b'/' (above ++ fmt_digit (id % id_radix) ∷ []), shape)
  where
    above : List Bytes
    above =
        format_uint 10 (length (id_digits 7 id))
        ∷ map fmt_digit (reverse (id_digits 6 (id / id_radix)))

    split_components :
        components (id_digits 7 id)
        ≡ map fmt_digit (reverse (id_digits 6 (id / id_radix)))
          ++ (fmt_digit (id % id_radix) ++ eml) ∷ []
    split_components = rw (id_digits-step 6 id (ground arith)) (unfold components in refl)

    shape :
        message_relative_path id ≡ some (join b'/' (above ++ fmt_digit (id % id_radix) ∷ []) ++ eml)
    shape =
        relative_path-pos id h
        ∙ rw split_components (ap some (join-append b'/' above (fmt_digit (id % id_radix)) eml))

module _ (id size : ℕ) (stem : Bytes) (e : message_relative_path id ≡ some (stem ++ eml)) where
  abbrev sized : Bytes
  sized = stem ++ (size_mark ++ (format_uint 10 size ++ eml))

  message_path-sized : message_path id size ≡ some sized
  unfolding message_path
  message_path-sized = rw (e, trim_suffix-append stem b'.' (codes "eml"))

  check_message-sized :
      check_message sized id size ≡ some (record { id = id; size = size; path = sized })
  unfolding check_message
  check_message-sized = rw (message_path-sized, bytes_eq_refl sized)

  stem_of_sized : trim_suffix sized eml ≡ stem ++ (size_mark ++ format_uint 10 size)
  stem_of_sized =
      let regroup : sized ≡ (stem ++ (size_mark ++ format_uint 10 size)) ++ eml =
        simp append_assoc in
      rw (
        regroup,
        trim_suffix-append (stem ++ (size_mark ++ format_uint 10 size)) b'.' (codes "eml"),
      )

  from_path_sized :
      message_id_from_path (stem ++ eml) ≡ some id
      → size ≤ max_uint64
      → message_from_path sized ≡ some (record { id = id; size = size; path = sized })
  unfolding message_from_path
  from_path_sized k v =
      rw
        (
          stem_of_sized,
          cut_last-append stem (format_uint 10 size) (format-Lacks b'-' 10 size (omega arith)),
        )
        (unfold read_parts in
          rw (k, parse-format 10 max_uint64 size (omega arith) (omega arith) v v)
            check_message-sized)

-- The path of a message names its ID and its size: both read back, for every ID above
-- 0 and every size of 64 bits.
pub from_path-message_path :
    (id size : ℕ)
    → 0 < id
    → id ≤ max_uint64
    → size ≤ max_uint64
    → (path : Bytes) × (message_path id size ≡ some path)
      × (message_from_path path ≡ some (record { id = id; size = size; path = path }))
from_path-message_path id size h w v =
    let (stem, e) = relative_path-stem id h in
    let (path, e', k) = id_from_path-relative_path id h w in
    let same : path ≡ stem ++ eml = some_inj (sym e' ∙ e) in
    (
      sized id size stem e,
      message_path-sized id size stem e,
      from_path_sized id size stem e (rw (← same) k) v,
    )

guard_message :
    (b : Bool) (path : Bytes) (id size : ℕ) (m : Message)
    → (if b then some (record { id = id; size = size; path = path }) else none) ≡ some m
    → (b ≡ true) × (m ≡ record { id = id; size = size; path = path })
guard_message true path id size m h = (refl, sym (some_inj h))
guard_message false path id size m h = cc

check_message_sound :
    (path : Bytes) (id size : ℕ) (m : Message)
    → check_message path id size ≡ some m
    → (message_path m.id m.size ≡ some path) × (m.path ≡ path)
unfolding check_message
check_message_sound path id size m h =
    let (expected, e, k) =
      >>=-eq-some (message_path id size)
        (λ expected.
          if bytes_eq expected path
          then some (record { id = id; size = size; path = path })
          else none)
        h in
    let (same, i) = guard_message (bytes_eq expected path) path id size m k in
    rw i (e ∙ ap some (bytes_eq→eq expected path same), refl)

-- A path is accepted only if it is the path of the message that is returned.
pub message_path-from_path :
    (path : Bytes) (m : Message)
    → message_from_path path ≡ some m
    → (message_path m.id m.size ≡ some path) × (m.path ≡ path)
unfolding message_from_path read_parts
message_path-from_path path m h =
    let (parts, _, k) = >>=-eq-some (cut_last_mark (trim_suffix path eml)) (read_parts path) h in
    let (id, _, l) =
      >>=-eq-some (message_id_from_path (parts.0 ++ eml))
        (λ id. parse_uint 10 max_uint64 parts.1 >>= λ size. check_message path id size) k in
    let (size, _, n) =
      >>=-eq-some (parse_uint 10 max_uint64 parts.1) (λ size. check_message path id size) l in
    check_message_sound path id size m n
