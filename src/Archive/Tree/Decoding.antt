-- ===== src/Archive/Tree/Decoding.antt =====
-- internal/archive/tree.go: what parseTree accepts, and the rounds of its loop.
use picomx.Prelude.{
  ℕ, zero, suc, ◌<◌, ◌≡◌, refl, sym, ap, ◌∙◌, subst, inl, inr, false, some, List, [], ◌∷◌, ◌++◌,
  map, arith, ltb, ◌==◌, ==_iff, Bool-cases, Option-cases, some_inj, length, take, drop,
}
use picomx.Text.Bytes.{Bytes, Lacks, cut}
use picomx.Archive.Errors.{Error, err, ok, ◌>>=◌, >>=-eq-ok, ok_inj, Result-cases, Result}
use picomx.Archive.Tree.{
  TreeEntry, refused_entry, make_entry, read_entry, next_entry, parse_entries, parse_tree,
}
use picomx.Archive.Tree.Encoding.{RawEntry, entry_of, encode, IsTree, encode_entry, encode_shorter}

cut_sound : (sep : ℕ) (s a b : Bytes) → cut sep s ≡ some (a, b) → (s ≡ a ++ sep ∷ b) × Lacks sep a
unfolding cut
cut_sound sep [] a b h = cc
cut_sound sep (c ∷ s) a b h = elim (Bool-cases (c == sep)) [
  | inl e ↦
      let q = some_inj (rw e at h) in
      subst (λ p. (c ∷ s ≡ p.0 ++ sep ∷ p.1) × Lacks sep p.0) q
        (ap (λ d. d ∷ s) ((==_iff c sep).0 e), tt)
  | inr e ↦ elim (Option-cases (cut sep s)) [
    | inl none' ↦ cc (rw (e, none') at h)
    | inr ((a', b'), found) ↦
        let q = some_inj (rw (e, found) at h) in
        let (whole, lacks) = cut_sound sep s a' b' found in
        subst (λ p. (c ∷ s ≡ p.0 ++ sep ∷ p.1) × Lacks sep p.0) q
          (ap (λ l. c ∷ l) whole, (e, lacks))
  ]
]

take-drop : (h : ℕ) (s : Bytes) → take h s ++ drop h s ≡ s
take-drop zero s = refl
take-drop (suc h) [] = refl
take-drop (suc h) (c ∷ s) = ap (λ l. c ∷ l) (take-drop h s)

length-take : (h : ℕ) (s : Bytes) → ltb (length s) h ≡ false → length (take h s) ≡ h
length-take zero s l = refl
length-take (suc h) [] l = absurd (ground arith)
length-take (suc h) (c ∷ s) l = ap suc (length-take h s (ground arith))

-- An entry that was read, from the bytes that encode it.
abbrev IsEntry : ℕ → List Bytes → Bytes → TreeEntry × Bytes → Type 0
IsEntry h seen s (e, rest) =
    (raw : RawEntry) × (refused_entry seen raw.mode raw.name ≡ false)
    × Lacks 0 raw.name
    × (length raw.object ≡ h)
    × (s ≡ encode_entry raw rest)
    × (e ≡ entry_of raw)

Lacks-behind : (mode name : Bytes) → Lacks 0 (mode ++ b' ' ∷ name) → Lacks 0 name
Lacks-behind [] name (_, h) = h
Lacks-behind (c ∷ mode) name (_, h) = Lacks-behind mode name h

make_entry_sound :
    (h : ℕ) (seen : List Bytes) (rest mode name : Bytes) (p : TreeEntry × Bytes)
    → ltb (length rest) h ≡ false
    → Lacks 0 (mode ++ b' ' ∷ name)
    → make_entry h seen rest (mode, name) ≡ ok p
    → IsEntry h seen ((mode ++ b' ' ∷ name) ++ 0 ∷ rest) p
unfolding make_entry entry_of
make_entry_sound h seen rest mode name p l z run =
    elim (Bool-cases (refused_entry seen mode name)) [
      | inl e ↦ cc (rw e at run)
      | inr e ↦
          let raw : RawEntry = record { mode = mode; name = name; object = take h rest } in
          subst (IsEntry h seen ((mode ++ b' ' ∷ name) ++ 0 ∷ rest)) (ok_inj (rw e at run)) (
            raw,
            e,
            Lacks-behind mode name z,
            length-take h rest l,
            ap (λ t. (mode ++ b' ' ∷ name) ++ 0 ∷ t) (sym (take-drop h rest)),
            refl,
          )
    ]

read_entry_sound :
    (h : ℕ) (seen : List Bytes) (head rest : Bytes) (p : TreeEntry × Bytes)
    → Lacks 0 head
    → read_entry h seen (head, rest) ≡ ok p
    → IsEntry h seen (head ++ 0 ∷ rest) p
unfolding read_entry
read_entry_sound h seen head rest p z run = elim (Bool-cases (ltb (length rest) h)) [
  | inl e ↦ cc (rw (read_entry, e) at run)
  | inr e ↦ elim (Option-cases (cut b' ' head)) [
    | inl none' ↦ cc (rw (read_entry, e, none') at run)
    | inr ((mode, name), found) ↦
        let (whole, _) = cut_sound b' ' head mode name found in
        subst (λ t. IsEntry h seen (t ++ 0 ∷ rest) p) (sym whole)
          (make_entry_sound h seen rest mode name p e (subst (Lacks 0) whole z)
            (rw (read_entry, e, found) at run))
  ]
]

next_entry_sound :
    (h : ℕ) (seen : List Bytes) (s : Bytes) (p : TreeEntry × Bytes)
    → next_entry h seen s ≡ ok p
    → IsEntry h seen s p
unfolding next_entry
next_entry_sound h seen s p run = elim (Option-cases (cut 0 s)) [
  | inl none' ↦ cc (rw (next_entry, none') at run)
  | inr ((head, rest), found) ↦
      let (whole, zeros) = cut_sound 0 s head rest found in
      subst (λ t. IsEntry h seen t p) (sym whole)
        (read_entry_sound h seen head rest p zeros (rw (next_entry, found) at run))
]

-- Entries that were read, from the bytes that encode them.
abbrev pub IsDecoded : ℕ → List Bytes → Bytes → List TreeEntry → Type 0
IsDecoded h seen s es =
    (raws : List RawEntry) × IsTree h seen raws × (s ≡ encode raws) × (es ≡ map entry_of raws)

parse_entries_sound :
    (fuel h : ℕ) (seen : List Bytes) (s : Bytes) (es : List TreeEntry)
    → parse_entries fuel h seen s ≡ ok es
    → IsDecoded h seen s es
unfolding parse_entries IsTree encode entry_of
parse_entries_sound zero h seen s es run = cc
parse_entries_sound (suc fuel) h seen [] es run = ([], tt, refl, sym (ok_inj run))
parse_entries_sound (suc fuel) h seen (c ∷ s) es run =
    let (p, first, run') = >>=-eq-ok (next_entry h seen (c ∷ s)) _ run in
    let (es', more, last) = >>=-eq-ok (parse_entries fuel h (p.0.name ∷ seen) p.1) _ run' in
    let (raw, hr, hn, hl, whole, e) = next_entry_sound h seen (c ∷ s) p first in
    let (raws, t, tail, e') = parse_entries_sound fuel h (p.0.name ∷ seen) p.1 es' more in
    (
      raw ∷ raws,
      (hr, hn, hl, subst (λ n. IsTree h (n ∷ seen) raws) (ap (λ x. x.name) e) t),
      whole ∙ ap (encode_entry raw) tail,
      sym (ok_inj last) ∙ ap (λ x. x ∷ es') e ∙ ap (λ l. entry_of raw ∷ l) e',
    )

-- What parseTree accepts is the encoding of the entries that it returns.
pub parse_tree-IsDecoded :
    (h : ℕ) (s : Bytes) (es : List TreeEntry) → parse_tree s h ≡ ok es → IsDecoded h [] s es
unfolding parse_tree
parse_tree-IsDecoded h s es run = parse_entries_sound (suc (length s)) h [] s es run

-- The rounds of the loop of parseTree, without fuel: it ends at the end of the bytes or at an entry that
-- is refused, and otherwise goes on behind the entry, with its name recorded.
pub data Parses (h : ℕ) : List Bytes → Bytes → Result (List TreeEntry) → Type 0 where
  at_end : {seen : List Bytes} → Parses h seen [] (ok [])
  refuses :
      {seen : List Bytes} (c : ℕ) (s : Bytes) (e : Error)
      → next_entry h seen (c ∷ s) ≡ err e
      → Parses h seen (c ∷ s) (err e)
  goes_on :
      {seen : List Bytes} {r : Result (List TreeEntry)} (c : ℕ) (s : Bytes) (entry : TreeEntry)
      (rest : Bytes)
      → next_entry h seen (c ∷ s) ≡ ok (entry, rest)
      → length rest < length (c ∷ s)
      → Parses h (entry.name ∷ seen) rest r
      → Parses h seen (c ∷ s) (r >>= λ es. ok (entry ∷ es))

-- With more fuel than bytes the loop of parseTree comes to its end: what it gives is what the rounds
-- without fuel lead to, each of which takes bytes off.
pub parse_entries-Parses :
    (fuel h : ℕ) (seen : List Bytes) (s : Bytes)
    → length s < fuel
    → Parses h seen s (parse_entries fuel h seen s)
unfolding parse_entries
parse_entries-Parses zero h seen s hf = absurd (omega arith)
parse_entries-Parses (suc f) h seen [] hf = at_end
parse_entries-Parses (suc f) h seen (c ∷ s) hf = elim (Result-cases (next_entry h seen (c ∷ s))) [
  | inr (e, failed) ↦ rw failed (refuses c s e failed)
  | inl ((entry, rest), first) ↦
      let (raw, hr, hn, hl, whole, e) = next_entry_sound h seen (c ∷ s) (entry, rest) first in
      let shorter : length rest < length (c ∷ s) =
        omega (arith, encode_shorter raw rest, ap (length {A = ℕ}) whole) in
      rw first (
        goes_on c s entry rest first shorter
          (parse_entries-Parses f h (entry.name ∷ seen) rest (omega arith)))
]
