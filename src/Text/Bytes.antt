-- ===== src/Text/Bytes.antt =====
-- Go's `strings`: splitting, joining and trimming of byte strings, and their equality.
use Prim.Native.Char.{code}
use Prim.Native.String.{String}
use picomx.Prelude.{
  ℕ, ◌≡◌, ◌↔◌, refl, Bool, true, false, ◌&&◌, List, [], ◌∷◌, ◌++◌, Option, none, some, arith, ◌==◌,
  if◌then◌else◌, All, Bool-cases, inl, inr, length, length-append, ap, append_assoc,
}

abbrev pub Bytes : Type 0
Bytes = List ℕ

-- The code points of a literal: its bytes, since every literal here is ASCII.
abbrev pub codes : String → Bytes
codes String.[] = []
codes (String.◌∷◌ c s) = code c ∷ codes s

-- Equality of two byte strings.
unfoldable pub bytes_eq : Bytes → Bytes → Bool
bytes_eq [] [] = true
bytes_eq [] (d ∷ t) = false
bytes_eq (c ∷ s) [] = false
bytes_eq (c ∷ s) (d ∷ t) = c == d && bytes_eq s t

pub bytes_eq→eq : (s t : Bytes) → bytes_eq s t ≡ true → s ≡ t
unfolding bytes_eq
bytes_eq→eq [] [] h = refl
bytes_eq→eq [] (d ∷ t) h = cc
bytes_eq→eq (c ∷ s) [] h = cc
bytes_eq→eq (c ∷ s) (d ∷ t) h = ground (arith, bytes_eq→eq s t)

pub bytes_eq_refl : (s : Bytes) → bytes_eq s s ≡ true
unfolding bytes_eq
bytes_eq_refl [] = refl
bytes_eq_refl (c ∷ s) = ground (arith, bytes_eq_refl s)

pub bytes_eq_iff : (s t : Bytes) → (bytes_eq s t ≡ true) ↔ (s ≡ t)
bytes_eq_iff s t = (bytes_eq→eq s t, λ e. rw e (bytes_eq_refl t))

-- strings.Split with a separator of one byte.
push : ℕ → List Bytes → List Bytes
push c [] = (c ∷ []) ∷ []
push c (p ∷ ps) = (c ∷ p) ∷ ps

unfoldable pub split : ℕ → Bytes → List Bytes
unfolding push
split sep [] = [] ∷ []
split sep (c ∷ s) = if c == sep then [] ∷ split sep s else push c (split sep s)

-- strings.Join with a separator of one byte.
unfoldable pub join : ℕ → List Bytes → Bytes
join sep [] = []
join sep (p ∷ []) = p
join sep (p ∷ q ∷ ps) = p ++ (sep ∷ join sep (q ∷ ps))

abbrev pub Lacks : ℕ → Bytes → Type 0
Lacks b = All (λ c. (c == b) ≡ false)

-- strings.TrimSuffix, for a suffix that is not empty.
unfoldable pub trim_suffix : Bytes → Bytes → Bytes
trim_suffix [] suffix = []
trim_suffix (c ∷ s) suffix = if bytes_eq (c ∷ s) suffix then [] else c ∷ trim_suffix s suffix

-- strings.HasPrefix.
unfoldable pub has_prefix : Bytes → Bytes → Bool
has_prefix s [] = true
has_prefix [] (d ∷ t) = false
has_prefix (c ∷ s) (d ∷ t) = c == d && has_prefix s t

-- strings.Cut at one byte: what stands before and after the first occurrence.
unfoldable pub cut : ℕ → Bytes → Option (Bytes × Bytes)
cut sep [] = none
cut sep (c ∷ s) =
    if c == sep
    then some ([], s)
    else elim (cut sep s) [ none ↦ none | some (b, a) ↦ some (c ∷ b, a) ]

split-append :
    (sep : ℕ) (p rest : Bytes) → Lacks sep p → split sep (p ++ (sep ∷ rest)) ≡ p ∷ split sep rest
unfolding split
split-append sep [] rest h = ground arith
split-append sep (c ∷ p) rest (hc, hp) = rw (hc, split-append sep p rest hp)

split_lone : (sep : ℕ) (p : Bytes) → Lacks sep p → split sep p ≡ p ∷ []
unfolding split
split_lone sep [] h = refl
split_lone sep (c ∷ p) (hc, hp) = rw (hc, split_lone sep p hp)

-- Splitting a join gives the parts back, if there is one and none holds the separator.
pub split-join :
    (sep : ℕ) (p : Bytes) (ps : List Bytes)
    → All (Lacks sep) (p ∷ ps)
    → split sep (join sep (p ∷ ps)) ≡ p ∷ ps
unfolding join
split-join sep p [] (hp, _) = split_lone sep p hp
split-join sep p (q ∷ ps) (hp, hs) = rw (split-append sep p _ hp, split-join sep q ps hs)

longer_ne : (c : ℕ) (x suffix : Bytes) → bytes_eq (c ∷ (x ++ suffix)) suffix ≡ false
longer_ne c x suffix = elim (Bool-cases (bytes_eq (c ∷ (x ++ suffix)) suffix)) [
  | inl e ↦ absurd (
      omega (
        arith,
        ap (length {A = ℕ}) (bytes_eq→eq (c ∷ (x ++ suffix)) suffix e),
        length-append x suffix,
      ))
  | inr e ↦ e
]

-- Trimming removes a suffix that is there.
pub trim_suffix-append : (x : Bytes) (c : ℕ) (s : Bytes) → trim_suffix (x ++ (c ∷ s)) (c ∷ s) ≡ x
unfolding trim_suffix
trim_suffix-append [] c s = rw (bytes_eq_refl (c ∷ s))
trim_suffix-append (d ∷ x) c s = rw (longer_ne d x (c ∷ s), trim_suffix-append x c s)

-- What stands behind the last part of a join stands behind the join.
pub join-append :
    (sep : ℕ) (ps : List Bytes) (p t : Bytes)
    → join sep (ps ++ (p ++ t) ∷ []) ≡ join sep (ps ++ p ∷ []) ++ t
unfolding join
join-append sep [] p t = refl
join-append sep (q ∷ []) p t = rw append_assoc
join-append sep (q ∷ r ∷ ps) p t = rw (join-append sep (r ∷ ps) p t, append_assoc)
