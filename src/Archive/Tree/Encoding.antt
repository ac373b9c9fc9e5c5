-- ===== src/Archive/Tree/Encoding.antt =====
-- internal/archive/tree.go: the encoding of a tree, and how parseTree reads it.
use picomx.Prelude.{
  ℕ, zero, suc, ◌<◌, ◌≡◌, refl, sym, ap, ◌∙◌, subst, ◌≢◌, ◌⊎◌, inl, inr, Bool, true, false, ◌||◌,
  not, List, [], ◌∷◌, ◌++◌, map, arith, ltb, ◌==◌, Bool-cases, length, take, drop, length-append,
  All-append,
}
use picomx.Text.Bytes.{Bytes, Lacks, codes, bytes_eq, bytes_eq→eq}
use picomx.Archive.Errors.{ok, ◌>>=◌}
use picomx.Archive.Reader.Framing.{cut-append}
use picomx.Archive.Tree.{
  TreeEntry, hex, member, bad_name, is_mode, refused_entry, make_entry, read_entry, next_entry,
  parse_entries, parse_tree,
}

-- An entry as it stands in a tree, with the bytes of its object ID.
pub record RawEntry : Type 0 where
  pub mode : Bytes
  pub name : Bytes
  pub object : Bytes

unfoldable pub entry_of : RawEntry → TreeEntry
entry_of e = record { mode = e.mode; name = e.name; oid = hex e.object }

-- The format of Git: the mode, a space, the name, a zero byte and the object ID.
unfoldable pub encode : List RawEntry → Bytes
encode [] = []
encode (e ∷ es) = (e.mode ++ b' ' ∷ e.name) ++ 0 ∷ (e.object ++ encode es)

-- The entries of an archive: known modes, plain names that differ, and IDs of one length.
unfoldable pub IsTree : ℕ → List Bytes → List RawEntry → Type 0
IsTree h seen [] = Unit
IsTree h seen (e ∷ es) =
    (refused_entry seen e.mode e.name ≡ false)
    × Lacks 0 e.name
    × (length e.object ≡ h)
    × IsTree h (e.name ∷ seen) es

or_left : (a b : Bool) → (a || b) ≡ false → (a ≡ false) × (b ≡ false)
or_left true b h = cc
or_left false b h = (refl, h)

IsMode-eq : (mode : Bytes) → is_mode mode ≡ true → (mode ≡ codes "40000") ⊎ (mode ≡ codes "100644")
unfolding is_mode
IsMode-eq mode h = elim (Bool-cases (bytes_eq mode (codes "40000"))) [
  | inl e ↦ inl (bytes_eq→eq mode (codes "40000") e)
  | inr e ↦ inr (bytes_eq→eq mode (codes "100644") (rw e at h))
]

abbrev IsPlain : Bytes → Type 0
IsPlain mode = Lacks b' ' mode × Lacks 0 mode × (mode ≢ [])

is_mode-IsPlain : (mode : Bytes) → is_mode mode ≡ true → IsPlain mode
is_mode-IsPlain mode h = elim (IsMode-eq mode h) [
  | inl e ↦ subst IsPlain (sym e) (
    (refl, (refl, (refl, (refl, (refl, tt))))),
    (refl, (refl, (refl, (refl, (refl, tt))))),
    λ p. cc,
  )
  | inr e ↦ subst IsPlain (sym e) (
    (refl, (refl, (refl, (refl, (refl, (refl, tt)))))),
    (refl, (refl, (refl, (refl, (refl, (refl, tt)))))),
    λ p. cc,
  )
]

accepted_mode :
    (seen : List Bytes) (mode name : Bytes) → refused_entry seen mode name ≡ false → IsPlain mode
unfolding refused_entry
accepted_mode seen mode name h = elim (Bool-cases (is_mode mode)) [
  | inl e ↦ is_mode-IsPlain mode e
  | inr e ↦ cc (ap not e, (or_left (bad_name name || member name seen) (not (is_mode mode)) h).1)
]

take_exact : (x t : Bytes) (h : ℕ) → length x ≡ h → take h (x ++ t) ≡ x
take_exact [] t zero e = refl
take_exact [] t (suc h) e = absurd (omega arith)
take_exact (c ∷ x) t zero e = absurd (omega arith)
take_exact (c ∷ x) t (suc h) e = ap (λ l. c ∷ l) (take_exact x t h (omega arith))

drop_exact : (x t : Bytes) (h : ℕ) → length x ≡ h → drop h (x ++ t) ≡ t
drop_exact [] t zero e = refl
drop_exact [] t (suc h) e = absurd (omega arith)
drop_exact (c ∷ x) t zero e = absurd (omega arith)
drop_exact (c ∷ x) t (suc h) e = drop_exact x t h (omega arith)

enough : (x t : Bytes) (h : ℕ) → length x ≡ h → ltb (length (x ++ t)) h ≡ false
enough x t h e = rw (length-append x t) (ground arith)

next_entry-encode :
    (h : ℕ) (seen : List Bytes) (e : RawEntry) (rest : Bytes)
    → refused_entry seen e.mode e.name ≡ false
    → Lacks 0 e.name
    → length e.object ≡ h
    → next_entry h seen ((e.mode ++ b' ' ∷ e.name) ++ 0 ∷ (e.object ++ rest))
      ≡ ok (entry_of e, rest)
unfolding next_entry read_entry make_entry entry_of
next_entry-encode h seen e rest hr hn hl =
    let (spaces, zeros, ne) = accepted_mode seen e.mode e.name hr in
    rw
      (
        next_entry,
        cut-append 0 (e.mode ++ b' ' ∷ e.name) (e.object ++ rest)
            (All-append (λ c. (c == 0) ≡ false) e.mode (b' ' ∷ e.name) zeros (refl, hn)),
        enough e.object rest h hl,
        cut-append b' ' e.mode e.name spaces,
        hr,
        take_exact e.object rest h hl,
        drop_exact e.object rest h hl,
      )
      refl

pub parse_entries-step :
    (fuel h : ℕ) (seen : List Bytes) (s : Bytes)
    → s ≢ []
    → parse_entries (suc fuel) h seen s ≡ (
        next_entry h seen s >>= λ p.
        parse_entries fuel h (p.0.name ∷ seen) p.1 >>= λ es. ok (p.0 ∷ es))
unfolding parse_entries
parse_entries-step fuel h seen [] ne = absurd (ne refl)
parse_entries-step fuel h seen (c ∷ s) ne = refl

encode_entry_ne : (mode t : Bytes) → mode ≢ [] → mode ++ t ≢ []
encode_entry_ne [] t ne e = ne refl
encode_entry_ne (c ∷ mode) t ne e = cc

abbrev pub encode_entry : RawEntry → Bytes → Bytes
encode_entry e rest = (e.mode ++ b' ' ∷ e.name) ++ 0 ∷ (e.object ++ rest)

pub encode_shorter : (e : RawEntry) (rest : Bytes) → length rest < length (encode_entry e rest)
encode_shorter e rest = omega (
  arith,
  length-append (e.mode ++ b' ' ∷ e.name) (0 ∷ (e.object ++ rest)),
  length-append e.object rest,
)

entry_ne : (e : RawEntry) (rest : Bytes) → e.mode ≢ [] → encode_entry e rest ≢ []
entry_ne e rest ne =
    encode_entry_ne (e.mode ++ b' ' ∷ e.name) _ (encode_entry_ne e.mode (b' ' ∷ e.name) ne)

parse_entries-encode :
    (fuel h : ℕ) (seen : List Bytes) (es : List RawEntry)
    → IsTree h seen es
    → length (encode es) < fuel
    → parse_entries fuel h seen (encode es) ≡ ok (map entry_of es)
unfolding parse_entries encode IsTree entry_of
parse_entries-encode zero h seen es t f = absurd (omega arith)
parse_entries-encode (suc fuel) h seen [] t f = refl
parse_entries-encode (suc fuel) h seen (e ∷ es) (hr, hn, hl, t) f =
    let (spaces, zeros, ne) = accepted_mode seen e.mode e.name hr in
    parse_entries-step fuel h seen (encode_entry e (encode es)) (entry_ne e (encode es) ne)
    ∙ rw
        (
          next_entry-encode h seen e (encode es) hr hn hl,
          parse_entries-encode fuel h (e.name ∷ seen) es t
              (omega (arith, encode_shorter e (encode es))),
        )
        refl

-- Every tree of an archive, encoded as Git does, is read back.
pub parse_tree-encode :
    (h : ℕ) (es : List RawEntry) → IsTree h [] es → parse_tree (encode es) h ≡ ok (map entry_of es)
unfolding parse_tree
parse_tree-encode h es t = parse_entries-encode (suc (length (encode es))) h [] es t (omega arith)
