-- ===== src/Archive/Import/Paths.antt =====
-- internal/archive/import.go: a path that the archive accepts is one line of the stream.
use picomx.Prelude.{
  ℕ, zero, suc, ◌-◌, ◌≡◌, refl, sym, subst, ◌⊎◌, inl, inr, Bool, true, false, ◌||◌, some, List, [],
  ◌∷◌, ◌++◌, map, reverse, arith, ◌==◌, Bool-cases, Option-cases, >>=-eq-some, some_inj, length,
  replicate, All, All-append,
}
use picomx.Text.Bytes.{Bytes, Lacks, codes, bytes_eq, bytes_eq→eq, join, trim_suffix}
use picomx.Text.Number.{format_uint, format-Lacks}
use picomx.Archive.IdPath.{eml, id_digits, fmt_digit, components, message_relative_path}
use picomx.Archive.MessagePath.{message_path, message_from_path}
use picomx.Archive.MessagePath.RoundTrip.{message_path-from_path}
use picomx.Archive.Import.{valid_archive_path}

abbrev IsLine : Bytes → Type 0
IsLine s = Lacks 10 s

append-IsLine : (s t : Bytes) → IsLine s → IsLine t → IsLine (s ++ t)
append-IsLine s t hs ht = All-append (λ c. (c == 10) ≡ false) s t hs ht

zeros-IsLine : (n : ℕ) → IsLine (replicate n b'0')
zeros-IsLine zero = tt
zeros-IsLine (suc n) = (refl, zeros-IsLine n)

fmt_digit-IsLine : (d : ℕ) → IsLine (fmt_digit d)
unfolding fmt_digit
fmt_digit-IsLine d =
    append-IsLine (replicate (3 - length (format_uint 16 d)) b'0') (format_uint 16 d)
      (zeros-IsLine _) (format-Lacks 10 16 d (omega arith))

map-IsLine : (ds : List ℕ) → All IsLine (map fmt_digit ds)
map-IsLine [] = tt
map-IsLine (d ∷ ds) = (fmt_digit-IsLine d, map-IsLine ds)

eml-IsLine : IsLine eml
eml-IsLine = (refl, (refl, (refl, (refl, tt))))

components-IsLine : (ds : List ℕ) → All IsLine (components ds)
unfolding components
components-IsLine [] = tt
components-IsLine (d ∷ ds) =
    All-append IsLine (map fmt_digit (reverse ds)) ((fmt_digit d ++ eml) ∷ [])
      (map-IsLine (reverse ds))
      (append-IsLine (fmt_digit d) eml (fmt_digit-IsLine d) eml-IsLine, tt)

join-IsLine : (ps : List Bytes) → All IsLine ps → IsLine (join b'/' ps)
unfolding join
join-IsLine [] h = tt
join-IsLine (p ∷ []) (hp, _) = hp
join-IsLine (p ∷ q ∷ ps) (hp, h) =
    append-IsLine p (b'/' ∷ join b'/' (q ∷ ps)) hp (refl, join-IsLine (q ∷ ps) h)

trim_suffix-IsLine : (s suffix : Bytes) → IsLine s → IsLine (trim_suffix s suffix)
unfolding trim_suffix
trim_suffix-IsLine [] suffix h = tt
trim_suffix-IsLine (c ∷ s) suffix (hc, h) = elim (Bool-cases (bytes_eq (c ∷ s) suffix)) [
  | inl e ↦ rw e tt
  | inr e ↦ rw e (hc, trim_suffix-IsLine s suffix h)
]

relative_path-IsLine : (id : ℕ) (path : Bytes) → message_relative_path id ≡ some path → IsLine path
unfolding message_relative_path
relative_path-IsLine id path h = elim (Bool-cases (id == 0)) [
  | inl e ↦ cc (rw e at h)
  | inr e ↦ subst IsLine (some_inj (rw e at h)) (
      join-IsLine (format_uint 10 (length (id_digits 7 id)) ∷ components (id_digits 7 id)) (
        format-Lacks 10 10 (length (id_digits 7 id)) (omega arith),
        components-IsLine (id_digits 7 id),
      ))
]

message_path-IsLine : (id size : ℕ) (path : Bytes) → message_path id size ≡ some path → IsLine path
unfolding message_path
message_path-IsLine id size path h =
    let (relative, found, last) = >>=-eq-some (message_relative_path id) _ h in
    subst IsLine (some_inj last) (
      append-IsLine (trim_suffix relative eml) _
        (trim_suffix-IsLine relative eml (relative_path-IsLine id relative found))
        (
          refl,
          (
            refl,
            append-IsLine (format_uint 10 size) eml (format-Lacks 10 10 size (omega arith))
                eml-IsLine,
          ),
        ))

or-cases : (a b : Bool) → (a || b) ≡ true → (a ≡ true) ⊎ (b ≡ true)
or-cases true b h = inl refl
or-cases false b h = inr h

-- A path that the archive accepts has no line feed, so it cannot forge a command of the stream.
pub valid_archive_path-IsLine : (path : Bytes) → valid_archive_path path ≡ true → IsLine path
unfolding valid_archive_path
valid_archive_path-IsLine path h =
    elim (Bool-cases (
      bytes_eq path (codes "state")
      || bytes_eq path (codes ".gitignore")
      || bytes_eq path (codes ".gitattributes"))) [
        | inl fixed ↦
            elim (or-cases (bytes_eq path (codes "state") || bytes_eq path (codes ".gitignore")) _
              fixed) [
                | inr e ↦ subst IsLine (sym (bytes_eq→eq path (codes ".gitattributes") e)) (
                  refl,
                  (
                    refl,
                    (
                      refl,
                      (
                        refl,
                        (
                          refl,
                          (
                            refl,
                            (refl, (refl, (refl, (refl, (refl, (refl, (refl, (refl, tt)))))))),
                          ),
                        ),
                      ),
                    ),
                  ),
                )
                | inl other ↦ elim (or-cases (bytes_eq path (codes "state")) _ other) [
                  | inl e ↦
                      subst IsLine (sym (bytes_eq→eq path (codes "state") e))
                        (refl, (refl, (refl, (refl, (refl, tt)))))
                  | inr e ↦ subst IsLine (sym (bytes_eq→eq path (codes ".gitignore") e)) (
                    refl,
                    (refl, (refl, (refl, (refl, (refl, (refl, (refl, (refl, (refl, tt))))))))),
                  )
                ]
              ]
        | inr other ↦ elim (Option-cases (message_from_path path)) [
          | inl none' ↦ cc (rw (valid_archive_path, other, none') at h)
          | inr (m, found) ↦
              message_path-IsLine m.id m.size path (message_path-from_path path m found).0
        ]
      ]
