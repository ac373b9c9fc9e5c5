-- ===== src/Archive/Directories.antt =====
-- internal/archive/directories.go: counts of live messages for each directory of the tree.
pub mod Index
pub mod Select
use picomx.Prelude.{
  ℕ, zero, suc, ◌+◌, ◌-◌, ◌*◌, ◌/◌, ◌%◌, ◌^◌, ◌≤◌, ◌<◌, ◌≡◌, refl, sym, ap, ◌∙◌, subst, ◌≢◌, ◌↔◌,
  ◌⊎◌, inl, inr, Bool, true, false, ◌&&◌, ◌||◌, not, Option, none, some, List, [], ◌∷◌, ◌++◌, map,
  reverse, append_assoc, append-nil, arith, ltb, leb, ◌==◌, if◌then◌else◌, ltb→lt, lt→ltb, leb→le,
  le→leb, ==_iff, Bool-cases, Option-cases, ◌>>=◌, >>=-eq-some, some_inj, length, get_elem?, set,
  replicate, take, drop, all, any, length-append, length-map, All, All-append,
}
use picomx.Text.Bytes.{Bytes, codes, bytes_eq, split}
use picomx.Text.Number.{max_uint64, parse_uint, format_uint}
use picomx.Archive.IdPath.{id_radix, fmt_digit}

-- A map from paths to counts: an association list in which a path stands once.
abbrev pub Counts : Type 0
Counts = List (Bytes × ℕ)

unfoldable pub count_of : Counts → Bytes → ℕ
unfolding bytes_eq
count_of [] path = 0
count_of ((p, n) ∷ c) path = if bytes_eq p path then n else count_of c path

unfoldable pub set_count : Counts → Bytes → ℕ → Counts
unfolding bytes_eq
set_count [] path n = (path, n) ∷ []
set_count ((p, k) ∷ c) path n =
    if bytes_eq p path then (path, n) ∷ c else (p, k) ∷ set_count c path n

unfoldable pub delete_count : Counts → Bytes → Counts
unfolding bytes_eq
delete_count [] path = []
delete_count ((p, k) ∷ c) path = if bytes_eq p path then c else (p, k) ∷ delete_count c path

-- filepath.Dir of a clean relative path; `none` is ".".
unfoldable pub dir : Bytes → Option Bytes
dir [] = none
dir (c ∷ s) = elim (dir s) [ some p ↦ some (c ∷ p) | none ↦ if c == b'/' then some [] else none ]

-- The loop `for path != "."`, with fuel: each directory is shorter than the path.
unfoldable pub ancestors_from : ℕ → Bytes → List Bytes
unfolding dir
ancestors_from zero path = []
ancestors_from (suc fuel) path =
    path ∷ elim (dir path) [ none ↦ [] | some p ↦ ancestors_from fuel p ]

unfoldable pub ancestors : Bytes → List Bytes
unfolding ancestors_from
ancestors path = ancestors_from (suc (length path)) path

-- add: one more message in a directory and all above it; a count is a uint64.
unfoldable pub add_all : Counts → List Bytes → Counts
unfolding count_of set_count
add_all c [] = c
add_all c (p ∷ ps) = add_all (set_count c p ((count_of c p + 1) % 2 ^ 64)) ps

unfoldable pub add : Counts → Bytes → Counts
unfolding add_all ancestors
add c path = add_all c (ancestors path)

-- One round of remove; `none` is the error "directory count underflow".
unfoldable pub remove_one : Counts → Bytes → Option Counts
unfolding count_of set_count delete_count
remove_one c p =
    let n = count_of c p in
    if n == 0
    then none
    else if n == 1
    then some (delete_count c p)
    else some (set_count c p (n - 1))

unfoldable pub remove_all : Counts → List Bytes → Option Counts
unfolding remove_one
remove_all c [] = some c
remove_all c (p ∷ ps) = remove_one c p >>= λ c'. remove_all c' ps

unfoldable pub remove : Counts → Bytes → Option Counts
unfolding remove_all ancestors
remove c path = remove_all c (ancestors path)
