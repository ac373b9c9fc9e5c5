-- ===== src/Archive/Mailbox.antt =====
-- internal/archive/mailbox.go: looking messages up in a snapshot. Reading a directory is an interface
-- here: a state and an operation on it, which Archive/Tree/Cached fills.
pub mod Maildrop
pub mod Lookup
pub mod ListAt
pub mod ById
pub mod Open
use picomx.Prelude.{
  ℕ, zero, suc, ◌+◌, ◌-◌, ◌*◌, ◌/◌, ◌%◌, ◌^◌, ◌≤◌, ◌<◌, ◌≡◌, refl, sym, ap, ◌∙◌, subst, ◌≢◌, ◌↔◌,
  ◌⊎◌, inl, inr, Bool, true, false, ◌&&◌, ◌||◌, not, Option, none, some, List, [], ◌∷◌, ◌++◌, map,
  reverse, append_assoc, append-nil, arith, ltb, leb, ◌==◌, if◌then◌else◌, ltb→lt, lt→ltb, leb→le,
  le→leb, ==_iff, Bool-cases, Option-cases, some_inj, unless-eq-some, length, get_elem?, set,
  replicate, take, drop, all, any, length-append, length-map, All, All-append,
}
use picomx.Text.Bytes.{Bytes, codes, bytes_eq}
use picomx.Text.Number.{max_int64}
use picomx.Archive.Errors.{Error, Result, ok, err, ◌>>=◌}
use picomx.Archive.IdPath.{message_relative_path}
use picomx.Archive.MessagePath.{Message, message_from_path}
use picomx.Archive.Directories.{dir}
use picomx.Archive.Directories.Index.{Leaf, DirectoryIndex, bytes_ltb, select_leaf}

-- The messages of a directory of a commit, in ascending order of ID.
pub record Reading : Type 1 where
  pub State : Type 0
  pub directory : Bytes → Bytes → State → State × Result (List Message)

pub record Snapshot : Type 0 where
  pub last_id : ℕ
  pub total_octets : ℕ
  pub message_count : ℕ
  pub index : Option DirectoryIndex
  pub commit : Bytes

-- A listing is used only if it has as many messages as the count of its leaf.
unfoldable pub check_count : Leaf → Result (List Message) → Result (List Message)
check_count leaf listing =
    listing >>= λ ms. if length ms == leaf.count then ok ms else err Error.bad_counts

-- The message at an offset, which is one of the listing when the count is right.
unfoldable pub pick : ℕ → List Message → Result Message
pick offset ms = elim (get_elem? ms offset) [ none ↦ err Error.bad_counts | some m ↦ ok m ]

-- sort.Search over the leaves: the first whose path is not below.
unfoldable pub search_path : Bytes → List Leaf → Option Leaf
unfolding bytes_ltb
search_path path [] = none
search_path path (leaf ∷ leaves) =
    if bytes_ltb leaf.path path then search_path path leaves else some leaf

unfoldable pub search_id : ℕ → List Message → Option Message
search_id id [] = none
search_id id (m ∷ ms) = if ltb m.id id then search_id id ms else some m

-- The leaf of an ID, from the directory of its path.
unfoldable pub id_directory : ℕ → Bytes
unfolding message_relative_path dir
id_directory id = elim (message_relative_path id) [
  | none ↦ codes "."
  | some legacy ↦ elim (dir legacy) [ none ↦ codes "." | some path ↦ path ]
]

unfoldable pub id_leaf : DirectoryIndex → ℕ → Result Leaf
unfolding search_path id_directory bytes_eq
id_leaf index id = elim (search_path (id_directory id) index.leaves) [
  | none ↦ err Error.no_such_message
  | some leaf ↦ if bytes_eq leaf.path (id_directory id) then ok leaf else err Error.no_such_message
]

unfoldable pub pick_id : ℕ → List Message → Result Message
unfolding search_id
pick_id id ms = elim (search_id id ms) [
  | none ↦ err Error.no_such_message
  | some m ↦ if m.id == id then ok m else err Error.no_such_message
]

-- The guards of messageByID, and the leaf that it reads.
unfoldable pub find_leaf : Snapshot → ℕ → Result Leaf
unfolding id_leaf
find_leaf snapshot id = elim snapshot.index [
  | none ↦ err Error.no_such_message
  | some index ↦
      if id == 0 || ltb snapshot.last_id id then err Error.no_such_message else id_leaf index id
]

unfoldable pub select : Snapshot → ℕ → Option (Leaf × ℕ)
unfolding select_leaf
select snapshot number = elim snapshot.index [ none ↦ none | some index ↦ select_leaf index number ]

-- One more message number; a number is a uint64.
abbrev pub next_number : ℕ → ℕ
next_number number = (number + 1) % 2 ^ 64

-- The callback of ListAt, with what it keeps.
abbrev pub Visitor : Type 0 → Type 0
Visitor V = V → ℕ → ℕ → ℕ → V × Result (Unit {0})

module _ {V : Type 0} (visit : Visitor V) (last_id : ℕ) where
  abbrev pub Visited : Type 0
  Visited = (V × ℕ) × Result (Unit {0})

  unfoldable pub after_callback : ℕ → (V → Visited) → V × Result (Unit {0}) → Visited
  after_callback number rest (v, ok _) = rest v
  after_callback number rest (v, err e) = ((v, number), err e)

  -- The inner loop: the messages of one directory, after so many.
  unfoldable pub visit_messages : List Message → ℕ → V → Visited
  unfolding after_callback
  visit_messages [] number v = ((v, number), ok tt)
  visit_messages (m ∷ ms) number v = elim (ltb last_id m.id) [
    | true ↦ ((v, number), err Error.bad_counts)
    | false ↦
        after_callback (next_number number) (visit_messages ms (next_number number))
          (visit v (next_number number) m.id m.size)
  ]

module _ (src : Reading) where
  -- Lookup.
  unfoldable pub lookup : Snapshot → ℕ → src.State → src.State × Result Message
  unfolding select check_count pick
  lookup snapshot number s = elim (select snapshot number) [
    | none ↦ (s, err Error.no_such_message)
    | some (leaf, offset) ↦
        let (s', listing) = src.directory snapshot.commit leaf.path s in
        (s', (check_count leaf listing >>= pick offset))
  ]

  unfoldable pub message_by_id : Snapshot → ℕ → src.State → src.State × Result Message
  unfolding find_leaf check_count pick_id
  message_by_id snapshot id s = elim (find_leaf snapshot id) [
    | err e ↦ (s, err e)
    | ok leaf ↦
        let (s', listing) = src.directory snapshot.commit leaf.path s in
        (s', (check_count leaf listing >>= pick_id id))
  ]

  unfoldable pub size_at : Snapshot → ℕ → src.State → src.State × Result ℕ
  unfolding message_by_id
  size_at snapshot id s =
      let (s', found) = message_by_id snapshot id s in (s', (found >>= λ m. ok m.size))

  module _ {V : Type 0} (visit : Visitor V) where
    unfoldable pub after_visit :
        (ℕ → V → src.State → (src.State × V) × Result (Unit {0}))
        → src.State
        → (V × ℕ) × Result (Unit {0})
        → (src.State × V) × Result (Unit {0})
    after_visit rest s ((v, number), err e) = ((s, v), err e)
    after_visit rest s ((v, number), ok _) = rest number v s

    unfoldable pub visit_listing :
        ℕ
        → (ℕ → V → src.State → (src.State × V) × Result (Unit {0}))
        → ℕ
        → V
        → src.State × Result (List Message)
        → (src.State × V) × Result (Unit {0})
    unfolding after_visit visit_messages
    visit_listing last_id rest number v (s, err e) = ((s, v), err e)
    visit_listing last_id rest number v (s, ok ms) =
        after_visit rest s (visit_messages visit last_id ms number v)

    unfoldable pub visit_leaves :
        Snapshot → List Leaf → ℕ → V → src.State → (src.State × V) × Result (Unit {0})
    unfolding check_count visit_listing
    visit_leaves snapshot [] number v s = ((s, v), ok tt)
    visit_leaves snapshot (leaf ∷ leaves) number v s =
        let (s', listing) = src.directory snapshot.commit leaf.path s in
        visit_listing snapshot.last_id (visit_leaves snapshot leaves) number v
          (s', check_count leaf listing)

    -- ListAt.
    unfoldable pub list_at : Snapshot → V → src.State → (src.State × V) × Result (Unit {0})
    unfolding visit_leaves
    list_at snapshot v s = elim snapshot.index [
      | none ↦ ((s, v), err Error.no_such_message)
      | some index ↦ visit_leaves snapshot index.leaves 0 v s
    ]
