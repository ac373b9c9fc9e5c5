-- ===== src/Archive/Directories/Index.antt =====
-- internal/archive/directories.go: validDirectory, buildDirectoryIndex and selectLeaf.
use picomx.Prelude.{
  ℕ, suc, ◌+◌, ◌-◌, ◌*◌, ◌/◌, ◌%◌, ◌^◌, Bool, true, false, ◌&&◌, ◌||◌, not, Option, none, some,
  List, [], ◌∷◌, ltb, leb, ◌==◌, if◌then◌else◌, ◌>>=◌, length,
}
use picomx.Text.Bytes.{Bytes, codes, bytes_eq, split}
use picomx.Text.Number.{max_uint64, parse_uint, format_uint}
use picomx.Archive.IdPath.{id_radix, fmt_digit}
use picomx.Archive.Directories.{Counts, count_of, set_count, ancestors}

-- The loop over the parts behind the depth: `first` says that no part was read yet.
unfoldable pub scan_prefix : Bool → ℕ → List Bytes → Option ℕ
unfolding parse_uint fmt_digit bytes_eq
scan_prefix first prefix [] = some prefix
scan_prefix first prefix (part ∷ parts) = parse_uint 16 1023 part >>= λ digit.
    if not (bytes_eq part (fmt_digit digit))
      || ((first && digit == 0) || ltb ((max_uint64 - digit) / id_radix) prefix)
    then none
    else scan_prefix false (prefix * id_radix + digit) parts

-- Whether a directory is a leaf, if it is one of an archive.
unfoldable pub check_depth : ℕ → Bytes → List Bytes → Option Bool
unfolding scan_prefix format_uint bytes_eq
check_depth depth part parts =
    if (ltb depth 1 || ltb 7 depth)
      || (not (bytes_eq part (format_uint 10 depth)) || ltb depth (suc (length parts)))
    then none
    else (scan_prefix true 0 parts >>= λ prefix.
        let leaf = suc (length parts) == depth in
        if leaf && ltb (max_uint64 / id_radix) prefix then none else some leaf)

unfoldable pub valid_parts : List Bytes → Option Bool
unfolding check_depth parse_uint
valid_parts [] = none
valid_parts (part ∷ parts) =
    parse_uint 10 (2 ^ 63 - 1) part >>= λ depth. check_depth depth part parts

unfoldable pub valid_directory : Bytes → Option Bool
unfolding valid_parts split
valid_directory path = valid_parts (split b'/' path)

pub record Leaf : Type 0 where
  pub path : Bytes
  pub count : ℕ
  pub accumulated : ℕ

pub record DirectoryIndex : Type 0 where
  pub leaves : List Leaf
  pub total : ℕ

-- Byte order of strings, `a < b`.
unfoldable pub bytes_ltb : Bytes → Bytes → Bool
bytes_ltb s [] = false
bytes_ltb [] (d ∷ t) = true
bytes_ltb (c ∷ s) (d ∷ t) = ltb c d || (c == d && bytes_ltb s t)

-- The first loop: the leaves, in the order of the map.
unfoldable pub leaf_entry : Bytes → ℕ → Bool → List (Bytes × ℕ) → Option (List (Bytes × ℕ))
unfolding bytes_eq
leaf_entry path count false rest = some rest
leaf_entry path count true rest =
    if ltb id_radix count || (bytes_eq path (codes "1") && count == id_radix)
    then none
    else some ((path, count) ∷ rest)

unfoldable pub collect_leaves : Counts → Option (List (Bytes × ℕ))
unfolding leaf_entry
collect_leaves [] = some []
collect_leaves ((path, count) ∷ c) = valid_directory path >>= λ leaf.
    if count == 0 then none else (collect_leaves c >>= leaf_entry path count leaf)

-- sort.Slice by path: the paths are distinct, so every sort gives this list.
unfoldable pub insert_leaf : Bytes × ℕ → List (Bytes × ℕ) → List (Bytes × ℕ)
unfolding bytes_ltb
insert_leaf e [] = e ∷ []
insert_leaf e (f ∷ fs) = if bytes_ltb f.0 e.0 then f ∷ insert_leaf e fs else e ∷ f ∷ fs

unfoldable pub sort_leaves : List (Bytes × ℕ) → List (Bytes × ℕ)
unfolding insert_leaf
sort_leaves [] = []
sort_leaves (e ∷ es) = insert_leaf e (sort_leaves es)

-- The second loop: running totals, which never pass the last ID.
unfoldable pub accumulate : ℕ → ℕ → List (Bytes × ℕ) → Option DirectoryIndex
accumulate last_id total [] = some (record { leaves = []; total = total })
accumulate last_id total ((path, count) ∷ es) =
    if ltb (last_id - total) count
    then none
    else (accumulate last_id (total + count) es >>= λ index. some (record index {
      leaves = record { path = path; count = count; accumulated = total + count } ∷ index.leaves;
    }))

-- `expected`: the counts that the leaves give to their directories and all above them.
unfoldable pub add_expected : ℕ → List Bytes → Counts → Counts
unfolding count_of set_count
add_expected n [] c = c
add_expected n (p ∷ ps) c = add_expected n ps (set_count c p ((count_of c p + n) % 2 ^ 64))

unfoldable pub expected_counts : List (Bytes × ℕ) → Counts → Counts
unfolding add_expected ancestors
expected_counts [] c = c
expected_counts ((path, count) ∷ es) c = expected_counts es (add_expected count (ancestors path) c)

unfoldable pub matches : Counts → Counts → Bool
unfolding count_of
matches counts [] = true
matches counts ((p, n) ∷ expected) = (count_of counts p == n) && matches counts expected

unfoldable pub check_expected : Counts → List (Bytes × ℕ) → DirectoryIndex → Option DirectoryIndex
unfolding expected_counts matches
check_expected counts leaves index =
    let expected = expected_counts leaves [] in
    if not (length expected == length counts)
    then none
    else if matches counts expected
    then some index
    else none

unfoldable pub build_directory_index : Counts → ℕ → Option DirectoryIndex
unfolding collect_leaves sort_leaves accumulate check_expected
build_directory_index counts last_id = collect_leaves counts >>= λ found.
    let leaves = sort_leaves found in accumulate last_id 0 leaves >>= check_expected counts leaves

-- sort.Search over the running totals, which grow: the first leaf whose total reaches `number`.
unfoldable pub search_leaf : List Leaf → ℕ → Option Leaf
search_leaf [] number = none
search_leaf (leaf ∷ leaves) number =
    if leb number leaf.accumulated then some leaf else search_leaf leaves number

-- The leaf with the message of this number, and its place in it. The uint64 subtractions do not
-- wrap for an index that was built.
unfoldable pub select_leaf : DirectoryIndex → ℕ → Option (Leaf × ℕ)
unfolding search_leaf
select_leaf index number =
    if number == 0 || ltb index.total number
    then none
    else (search_leaf index.leaves number >>= λ leaf.
        some (leaf, number - (leaf.accumulated - leaf.count) - 1))
