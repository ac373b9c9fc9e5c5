-- ===== src/Archive/Directories/Select.antt =====
-- The index finds each message number in its directory.
use picomx.Prelude.{
  ℕ, ◌+◌, ◌-◌, ◌≤◌, ◌<◌, ◌≡◌, refl, ap, inl, inr, false, ◌||◌, some, List, [], ◌∷◌, ◌++◌, arith,
  ltb, leb, ◌==◌, Bool-cases, ◌>>=◌, >>=-eq-some, some_inj, unless-eq-some,
}
use picomx.Text.Bytes.{Bytes}
use picomx.Archive.Directories.{Counts}
use picomx.Archive.Directories.Index.{
  Leaf, DirectoryIndex, accumulate, check_expected, collect_leaves, sort_leaves,
  build_directory_index, search_leaf, select_leaf,
}

-- The messages in the leaves of a list.
unfoldable pub sum_counts : List Leaf → ℕ
sum_counts [] = 0
sum_counts (l ∷ ls) = l.count + sum_counts ls

-- Running totals from a number of messages that stand before.
abbrev pub AreTotals : ℕ → List Leaf → Type 0
AreTotals before [] = Unit
AreTotals before (l ∷ ls) = (l.accumulated ≡ before + l.count) × AreTotals (before + l.count) ls

pub record IsIndex (last_id : ℕ) (index : DirectoryIndex) : Type 0 where
  pub totals : AreTotals 0 index.leaves
  pub total : index.total ≡ sum_counts index.leaves
  pub allocated : index.total ≤ last_id

accumulate-IsIndex :
    (last_id before : ℕ) (es : List (Bytes × ℕ)) (index : DirectoryIndex)
    → before ≤ last_id
    → accumulate last_id before es ≡ some index
    → AreTotals before index.leaves
      × (index.total ≡ before + sum_counts index.leaves)
      × (index.total ≤ last_id)
unfolding accumulate sum_counts
accumulate-IsIndex last_id before [] index h e = rw (← some_inj e) (tt, omega arith, h)
accumulate-IsIndex last_id before ((path, count) ∷ es) index h e =
    let (room, e') = unless-eq-some (ltb (last_id - before) count) e in
    let (rest, f, g) =
      >>=-eq-some (accumulate last_id (before + count) es)
        (λ index. some (record index {
          leaves =
              record { path = path; count = count; accumulated = before + count } ∷ index.leaves;
        }))
        e' in
    let (t, sum, le) = accumulate-IsIndex last_id (before + count) es rest (ground arith) f in
    rw (← some_inj g) ((refl, t), omega (arith, sum), le)

checked :
    (counts : Counts) (leaves : List (Bytes × ℕ)) (index index' : DirectoryIndex)
    → check_expected counts leaves index ≡ some index'
    → index ≡ index'
unfolding check_expected
checked counts leaves index index' h = ground arith

-- An index that is built has the running totals of its leaves, and no more messages than IDs.
pub build-IsIndex :
    (counts : Counts) (last_id : ℕ) (index : DirectoryIndex)
    → build_directory_index counts last_id ≡ some index
    → IsIndex last_id index
unfolding build_directory_index
build-IsIndex counts last_id index h =
    let (found, _, k) =
      >>=-eq-some (collect_leaves counts)
        (λ found.
          accumulate last_id 0 (sort_leaves found) >>= check_expected counts (sort_leaves found))
        h in
    let (index', e, c) =
      >>=-eq-some (accumulate last_id 0 (sort_leaves found))
        (check_expected counts (sort_leaves found)) k in
    let same_index : index' ≡ index = checked counts (sort_leaves found) index' index c in
    let (t, sum, le) = accumulate-IsIndex last_id 0 (sort_leaves found) index' (omega arith) e in
    rw (← same_index) (record { totals = t; total = omega (arith, sum); allocated = le })

-- The leaf of a number: the leaves before it, and those behind it.
pub record Selects (leaves : List Leaf) (before number : ℕ) (leaf : Leaf) (offset : ℕ)
    : Type 0 where
  pub above : List Leaf
  pub below : List Leaf
  pub place : leaves ≡ above ++ leaf ∷ below
  pub inside : offset < leaf.count
  pub position : number ≡ before + sum_counts above + offset + 1

search-Selects :
    (before number : ℕ) (leaves : List Leaf)
    → AreTotals before leaves
    → before < number
    → number ≤ before + sum_counts leaves
    → (leaf : Leaf) × (search_leaf leaves number ≡ some leaf)
      × Selects leaves before number leaf (number - (leaf.accumulated - leaf.count) - 1)
unfolding search_leaf sum_counts
search-Selects before number [] t h k = absurd (omega arith)
search-Selects before number (l ∷ ls) (e, t) h k = elim (Bool-cases (leb number l.accumulated)) [
  | inl here ↦ (
    l,
    rw here,
    record { above = []; below = ls; place = refl; inside = ground arith; position = ground arith },
  )
  | inr later ↦
      let (leaf, found, s) =
        search-Selects (before + l.count) number ls t (ground arith) (omega arith) in
      (
        leaf,
        rw later found,
        record {
          above = l ∷ s.above;
          below = s.below;
          place = ap (λ r. l ∷ r) s.place;
          inside = s.inside;
          position = omega (arith, s.position);
        },
      )
]

-- In an index that was built, every message number from 1 to the total is found: in one of the
-- leaves, at a place inside it, behind exactly as many messages as the number says.
pub select_leaf-Selects :
    (counts : Counts) (last_id : ℕ) (index : DirectoryIndex) (number : ℕ)
    → build_directory_index counts last_id ≡ some index
    → 0 < number
    → number ≤ index.total
    → (leaf : Leaf) × (offset : ℕ) × (select_leaf index number ≡ some (leaf, offset))
      × Selects index.leaves 0 number leaf offset
unfolding select_leaf
select_leaf-Selects counts last_id index number b h k =
    let v = build-IsIndex counts last_id index b in
    let (leaf, found, s) =
      search-Selects 0 number index.leaves v.totals h (omega (arith, v.total)) in
    let some_number : (number == 0 || ltb index.total number) ≡ false = ground arith in
    (leaf, number - (leaf.accumulated - leaf.count) - 1, rw (some_number, found), s)
