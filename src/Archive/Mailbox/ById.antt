-- ===== src/Archive/Mailbox/ById.antt =====
-- internal/archive/mailbox.go: messageByID searches the leaf of an ID.
use picomx.Prelude.{
  ◌≤◌, ◌||◌, ◌++◌, subst, some, ℕ, ◌<◌, ◌≡◌, refl, sym, inl, inr, true, false, List, [], ◌∷◌, arith,
  ltb, ◌==◌, if◌then◌else◌, ==_iff, Bool-cases, length, All,
}
use picomx.Text.Bytes.{Bytes, bytes_eq, bytes_eq_refl}
use picomx.Archive.Errors.{Error, Result, ok, err}
use picomx.Archive.MessagePath.{Message}
use picomx.Archive.Directories.Index.{Leaf, DirectoryIndex, bytes_ltb}
use picomx.Archive.Tree.Sorted.{Ascends}
use picomx.Archive.Mailbox.{
  Reading, Snapshot, check_count, search_id, pick_id, search_path, id_directory, id_leaf, find_leaf,
  message_by_id,
}
use picomx.Archive.Mailbox.Maildrop.{Gives, Refines}

-- The message with an ID, among all of them.
unfoldable pub find_id : ℕ → List Message → Result Message
find_id id [] = err Error.no_such_message
find_id id (m ∷ ms) = if m.id == id then ok m else find_id id ms

above-differs : (id n : ℕ) → id < n → (n == id) ≡ false
above-differs id n h = ground arith

below-differs : (n id : ℕ) → ltb n id ≡ true → (n == id) ≡ false
below-differs n id h = ground arith

All-above :
    (id n : ℕ) (ms : List Message)
    → ltb n id ≡ false
    → (n == id) ≡ false
    → All (λ m. n < m.id) ms
    → All (λ m. id < m.id) ms
All-above id n [] h e hm = tt
All-above id n (m ∷ ms) h e (hm, hs) = (ground arith, All-above id n ms h e hs)

above-none :
    (id : ℕ) (ms : List Message)
    → All (λ m. id < m.id) ms
    → find_id id ms ≡ err Error.no_such_message
unfolding find_id
above-none id [] h = refl
above-none id (m ∷ ms) (hm, h) = rw (above-differs id m.id hm) (above-none id ms h)

-- In ascending order the search finds what a look at every message finds.
pub pick_id-find_id : (id : ℕ) (ms : List Message) → Ascends ms → pick_id id ms ≡ find_id id ms
unfolding pick_id search_id find_id
pick_id-find_id id [] h = refl
pick_id-find_id id (m ∷ ms) (hm, h) = elim (Bool-cases (ltb m.id id)) [
  | inl below ↦
      rw (pick_id, search_id, below, below-differs m.id id below) (pick_id-find_id id ms h)
  | inr reached ↦ elim (Bool-cases (m.id == id)) [
    | inl e ↦ rw (pick_id, search_id, reached, e) refl
    | inr e ↦
        rw (pick_id, search_id, reached, e)
          (sym (above-none id ms (All-above id m.id ms reached e hm)))
  ]
]

bytes_ltb_irrefl : (s : Bytes) → bytes_ltb s s ≡ false
unfolding bytes_ltb
bytes_ltb_irrefl [] = refl
bytes_ltb_irrefl (c ∷ s) = ground (arith, bytes_ltb_irrefl s)

-- The search for a path ends at its leaf, if the leaves before it have lower paths.
search_path-reaches :
    (path : Bytes) (above below : List Leaf) (leaf : Leaf)
    → leaf.path ≡ path
    → All (λ l. bytes_ltb l.path path ≡ true) above
    → search_path path (above ++ leaf ∷ below) ≡ some leaf
unfolding search_path
search_path-reaches path [] below leaf e h = rw (search_path, e, bytes_ltb_irrefl path) refl
search_path-reaches path (l ∷ above) below leaf e (hl, h) =
    rw (search_path, hl) (search_path-reaches path above below leaf e h)

id_leaf-found :
    (index : DirectoryIndex) (id : ℕ) (above below : List Leaf) (leaf : Leaf)
    → index.leaves ≡ above ++ leaf ∷ below
    → leaf.path ≡ id_directory id
    → All (λ l. bytes_ltb l.path (id_directory id) ≡ true) above
    → id_leaf index id ≡ ok leaf
unfolding id_leaf
id_leaf-found index id above below leaf split e h =
    let same : bytes_eq leaf.path (id_directory id) ≡ true =
      subst (λ p. bytes_eq leaf.path p ≡ true) e (bytes_eq_refl leaf.path) in
    rw (id_leaf, split, search_path-reaches (id_directory id) above below leaf e h, same) refl

allocated-id : (id last : ℕ) → 0 < id → id ≤ last → (id == 0 || ltb last id) ≡ false
allocated-id id last h k = ground arith

find_leaf-found :
    (snapshot : Snapshot) (index : DirectoryIndex) (id : ℕ) (above below : List Leaf) (leaf : Leaf)
    → snapshot.index ≡ some index
    → 0 < id
    → id ≤ snapshot.last_id
    → index.leaves ≡ above ++ leaf ∷ below
    → leaf.path ≡ id_directory id
    → All (λ l. bytes_ltb l.path (id_directory id) ≡ true) above
    → find_leaf snapshot id ≡ ok leaf
unfolding find_leaf
find_leaf-found snapshot index id above below leaf hi h k split e ha =
    rw (find_leaf, hi, allocated-id id snapshot.last_id h k)
      (id_leaf-found index id above below leaf split e ha)

module _ (src : Reading) (Good : src.State → Type 0) (commit : Bytes) where
  check-ok :
      (leaf : Leaf) (ms : List Message) (r : Result (List Message))
      → r ≡ ok ms
      → length ms ≡ leaf.count
      → check_count leaf r ≡ ok ms
  unfolding check_count
  check-ok leaf ms r e h = rw (e, check_count, (==_iff (length ms) leaf.count).1 h) refl

  -- In a snapshot whose index has a leaf for the directory of an allocated ID, behind leaves of lower
  -- paths only, messageByID gives the message with this ID of that leaf, or no message when the leaf,
  -- whose listing ascends, has none.
  pub message_by_id-found :
      (snapshot : Snapshot) (index : DirectoryIndex) (id : ℕ) (above below : List Leaf)
      (leaf : Leaf) (ms : List Message) (s : src.State)
      → snapshot.commit ≡ commit
      → snapshot.index ≡ some index
      → 0 < id
      → id ≤ snapshot.last_id
      → index.leaves ≡ above ++ leaf ∷ below
      → leaf.path ≡ id_directory id
      → All (λ l. bytes_ltb l.path (id_directory id) ≡ true) above
      → Gives src Good commit leaf ms
      → Ascends ms
      → Good s
      → Refines src Good commit (find_id id ms) (message_by_id src snapshot id s)
  unfolding message_by_id
  message_by_id-found snapshot index id above below leaf ms s hc hi h k split e before (count, g) ha
        hs =
      let (listing, still) = g s hs in
      let hl = find_leaf-found snapshot index id above below leaf hi h k split e before in
      (
        rw (message_by_id, hl, hc, check-ok leaf ms _ listing count) (pick_id-find_id id ms ha),
        rw (message_by_id, hl, hc) still,
      )
