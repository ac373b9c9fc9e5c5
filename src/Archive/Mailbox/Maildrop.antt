-- ===== src/Archive/Mailbox/Maildrop.antt =====
-- internal/archive/mailbox.go: a snapshot against the list of its messages, the maildrop.
use picomx.Prelude.{
  ℕ, zero, suc, ◌+◌, ◌≤◌, ◌<◌, ◌≡◌, refl, sym, ap, ◌∙◌, none, some, List, [], ◌∷◌, ◌++◌,
  append_assoc, arith, length, get_elem?, length-append,
}
use picomx.Text.Bytes.{Bytes}
use picomx.Archive.Errors.{Error, Result, ok, err}
use picomx.Archive.MessagePath.{Message}
use picomx.Archive.Directories.{Counts}
use picomx.Archive.Directories.Index.{build_directory_index, Leaf, DirectoryIndex}
use picomx.Archive.Directories.Select.{build-IsIndex, sum_counts}
use picomx.Archive.Mailbox.{Reading, Snapshot, Visitor}

unfoldable pub concat : List (List Message) → List Message
concat [] = []
concat (ms ∷ mss) = ms ++ concat mss

-- What Lookup promises: the messages are numbered from 1.
unfoldable pub nth_message : List Message → ℕ → Result Message
nth_message ms zero = err Error.no_such_message
nth_message ms (suc n) = elim (get_elem? ms n) [ none ↦ err Error.no_such_message | some m ↦ ok m ]

-- What ListAt promises: the callback has each message with its number, until it fails. `next` is the
-- number behind another one.
module _ {V : Type 0} (visit : Visitor V) (next : ℕ → ℕ) where
  unfoldable pub continue_visit :
      (V → V × Result (Unit {0})) → V × Result (Unit {0}) → V × Result (Unit {0})
  continue_visit rest (v, ok _) = rest v
  continue_visit rest (v, err e) = (v, err e)

  unfoldable pub visit_numbered : List Message → ℕ → V → V × Result (Unit {0})
  unfolding continue_visit
  visit_numbered [] n v = (v, ok tt)
  visit_numbered (m ∷ ms) n v =
      continue_visit (visit_numbered ms (next n)) (visit v (next n) m.id m.size)

get-append-left :
    (xs ys : List Message) (i : ℕ) → i < length xs → get_elem? (xs ++ ys) i ≡ get_elem? xs i
get-append-left [] ys i h = absurd (omega arith)
get-append-left (x ∷ xs) ys zero h = refl
get-append-left (x ∷ xs) ys (suc i) h = get-append-left xs ys i (omega arith)

shift : (n i : ℕ) → suc n + i ≡ suc (n + i)
shift n i = omega arith

get-append-right :
    (xs ys : List Message) (i : ℕ) → get_elem? (xs ++ ys) (length xs + i) ≡ get_elem? ys i
get-append-right [] ys i = ap (get_elem? ys) (omega arith)
get-append-right (x ∷ xs) ys i =
    ap (get_elem? (x ∷ (xs ++ ys))) (shift (length xs) i) ∙ get-append-right xs ys i

pub get-some :
    (xs : List Message) (i : ℕ) → i < length xs → (m : Message) × (get_elem? xs i ≡ some m)
get-some [] i h = absurd (omega arith)
get-some (x ∷ xs) zero h = (x, refl)
get-some (x ∷ xs) (suc i) h = get-some xs i (omega arith)

pub get-none : (xs : List Message) (i : ℕ) → length xs ≤ i → get_elem? xs i ≡ none
get-none [] i h = refl
get-none (x ∷ xs) zero h = absurd (omega arith)
get-none (x ∷ xs) (suc i) h = get-none xs i (omega arith)

module _ (src : Reading) (Good : src.State → Type 0) (commit : Bytes) where
  -- Reading the directory of a leaf gives these messages, as many as the count says.
  abbrev pub Gives : Leaf → List Message → Type 0
  Gives leaf ms =
      (length ms ≡ leaf.count)
      × ((s : src.State)
          → Good s
          → ((src.directory commit leaf.path s).1 ≡ ok ms)
            × Good (src.directory commit leaf.path s).0)

  -- The messages of each leaf.
  unfoldable pub Shelves : List Leaf → List (List Message) → Type 0
  Shelves [] [] = Unit
  Shelves [] (ms ∷ mss) = ⊥
  Shelves (leaf ∷ leaves) [] = ⊥
  Shelves (leaf ∷ leaves) (ms ∷ mss) = Gives leaf ms × Shelves leaves mss

  -- A leaf with the messages before it and behind it.
  shelf_at :
      (above : List Leaf) (leaf : Leaf) (below : List Leaf) (mss : List (List Message))
      → Shelves (above ++ leaf ∷ below) mss
      → (before : List Message) × (ms : List Message) × (after : List Message) × (concat mss
          ≡ before ++ (ms ++ after))
        × (length before ≡ sum_counts above)
        × Gives leaf ms
  unfolding Shelves concat sum_counts
  shelf_at [] leaf below [] h = absurd h
  shelf_at [] leaf below (ms ∷ mss) (h, _) = ([], ms, concat mss, refl, refl, h)
  shelf_at (l ∷ above) leaf below [] h = absurd h
  shelf_at (l ∷ above) leaf below (ns ∷ mss) (hn, h) =
      let (before, ms, after, e, sum, g) = shelf_at above leaf below mss h in
      (
        ns ++ before,
        ms,
        after,
        ap (λ r. ns ++ r) e ∙ sym (append_assoc ns before _),
        omega (arith, length-append ns before, sum, hn.0),
        g,
      )

  length-concat :
      (leaves : List Leaf) (mss : List (List Message))
      → Shelves leaves mss
      → length (concat mss) ≡ sum_counts leaves
  unfolding Shelves concat sum_counts
  length-concat [] [] h = refl
  length-concat [] (ms ∷ mss) h = absurd h
  length-concat (l ∷ leaves) [] h = absurd h
  length-concat (l ∷ leaves) (ms ∷ mss) (hm, h) =
      omega (arith, length-append ms (concat mss), length-concat leaves mss h, hm.0)

  -- A snapshot of this commit with an index that was built, and the messages of its leaves.
  pub record IsView (snapshot : Snapshot) (index : DirectoryIndex) (mss : List (List Message))
      : Type 0 where
    pub counts : Counts
    pub same_commit : snapshot.commit ≡ commit
    pub indexed : snapshot.index ≡ some index
    pub built : build_directory_index counts snapshot.last_id ≡ some index
    pub shelves : Shelves index.leaves mss

  pub total_length :
      (snapshot : Snapshot) (index : DirectoryIndex) (mss : List (List Message))
      → IsView snapshot index mss
      → length (concat mss) ≡ index.total
  total_length snapshot index mss h =
      length-concat index.leaves mss h.shelves
      ∙ sym (build-IsIndex h.counts snapshot.last_id index h.built).total

  abbrev pub Refines : Result Message → src.State × Result Message → Type 0
  Refines expected p = (p.1 ≡ expected) × Good p.0

  -- The message at a place of a leaf, in its listing and in the maildrop.
  pub shelf_get :
      (above : List Leaf) (leaf : Leaf) (below : List Leaf) (mss : List (List Message)) (offset : ℕ)
      → Shelves (above ++ leaf ∷ below) mss
      → offset < leaf.count
      → (ms : List Message) × (m : Message) × Gives leaf ms
        × (get_elem? ms offset ≡ some m)
        × (get_elem? (concat mss) (sum_counts above + offset) ≡ some m)
  shelf_get above leaf below mss offset h inside =
      let (before, ms, after, whole, sum, g) = shelf_at above leaf below mss h in
      let (m, found) = get-some ms offset (omega (arith, inside, g.0)) in
      (
        ms,
        m,
        g,
        found,
        ap (λ l. get_elem? l (sum_counts above + offset)) whole
            ∙ ap (λ k. get_elem? (before ++ (ms ++ after)) (k + offset)) (sym sum)
            ∙ get-append-right before (ms ++ after) offset
            ∙ get-append-left ms after offset (omega (arith, inside, g.0))
            ∙ found,
      )
