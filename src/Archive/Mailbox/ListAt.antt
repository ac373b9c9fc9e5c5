-- ===== src/Archive/Mailbox/ListAt.antt =====
-- internal/archive/mailbox.go: ListAt gives its callback the messages of the maildrop in order.
use picomx.Prelude.{
  ℕ, suc, ◌+◌, ◌^◌, ◌≤◌, ◌<◌, ◌≡◌, refl, ap, ◌∙◌, false, List, [], ◌∷◌, ◌++◌, arith, ltb, ==_iff,
  length, All,
}
use picomx.Text.Bytes.{Bytes}
use picomx.Text.Number.{max_uint64}
use native.Mathlib.Nat.{mod-eq_of_lt}
use picomx.Archive.Errors.{Result, ok, err}
use picomx.Archive.MessagePath.{Message}
use picomx.Archive.Directories.Index.{Leaf, DirectoryIndex}
use picomx.Archive.Directories.Select.{build-IsIndex}
use picomx.Archive.Mailbox.{
  Reading, Snapshot, Visitor, check_count, after_callback, visit_messages, after_visit,
  visit_listing, visit_leaves, list_at, next_number,
}
use picomx.Archive.Mailbox.Maildrop.{
  concat, continue_visit, visit_numbered, Shelves, IsView, total_length,
}

-- Every ID of the maildrop was allocated.
abbrev pub AreAllocated : ℕ → List Message → Type 0
AreAllocated last_id ms = All (λ m. ltb last_id m.id ≡ false) ms

All-split : (P : Message → Type 0) (xs ys : List Message) → All P (xs ++ ys) → All P xs × All P ys
All-split P [] ys h = (tt, h)
All-split P (x ∷ xs) ys (hx, h) = let (a, b) = All-split P xs ys h in ((hx, a), b)

next_number-plain : (n : ℕ) → n < max_uint64 → next_number n ≡ suc n
next_number-plain n h = mod-eq_of_lt {n = n + 1} {m = 2 ^ 64} (omega arith) ∙ omega arith

module _ {V : Type 0} (visit : Visitor V) where
  -- Numbers that fit in 64 bits do not wrap.
  visit_numbered-plain :
      (ms : List Message) (n : ℕ) (v : V)
      → n + length ms ≤ max_uint64
      → visit_numbered visit next_number ms n v ≡ visit_numbered visit suc ms n v
  unfolding visit_numbered continue_visit
  visit_numbered-plain [] n v h = refl
  visit_numbered-plain (m ∷ ms) n v h =
      ap
        (λ k.
          continue_visit visit next_number (visit_numbered visit next_number ms k)
            (visit v k m.id m.size))
        (next_number-plain n (omega arith))
      ∙ same _ _ (λ w. visit_numbered-plain ms (suc n) w (omega arith))
          (visit v (suc n) m.id m.size)
    where
      same :
          (f g : V → V × Result (Unit {0}))
          → ((w : V) → f w ≡ g w)
          → (p : V × Result (Unit {0}))
          → continue_visit visit next_number f p ≡ continue_visit visit suc g p
      same f g h (w, ok _) = h w
      same f g h (w, err e) = refl

  -- What follows a directory that was visited.
  finish : (ℕ → V → V × Result (Unit {0})) → (V × ℕ) × Result (Unit {0}) → V × Result (Unit {0})
  finish k ((v, n), ok _) = k n v
  finish k ((v, n), err e) = (v, err e)

  module _ (last_id : ℕ) where
    finish-callback :
        (f : V → V × Result (Unit {0})) (g : V → (V × ℕ) × Result (Unit {0}))
        (k : ℕ → V → V × Result (Unit {0})) (n : ℕ)
        → ((w : V) → f w ≡ finish k (g w))
        → (p : V × Result (Unit {0}))
        → continue_visit visit next_number f p ≡ finish k (after_callback visit last_id n g p)
    unfolding continue_visit finish after_callback
    finish-callback f g k n h (w, ok _) = h w
    finish-callback f g k n h (w, err e) = refl

    visit_messages-numbered :
        (ms more : List Message) (n : ℕ) (v : V)
        → AreAllocated last_id ms
        → visit_numbered visit next_number (ms ++ more) n v
          ≡ finish (visit_numbered visit next_number more) (visit_messages visit last_id ms n v)
    unfolding visit_numbered visit_messages finish
    visit_messages-numbered [] more n v h = refl
    visit_messages-numbered (m ∷ ms) more n v (hm, h) =
        rw (visit_messages, hm)
          (finish-callback (visit_numbered visit next_number (ms ++ more) (next_number n))
            (visit_messages visit last_id ms (next_number n))
            (visit_numbered visit next_number more) (next_number n)
            (λ w. visit_messages-numbered ms more (next_number n) w h)
            (visit v (next_number n) m.id m.size))

-- The end of a run over the directories: what the callback kept and its answer, and a good reader.
module _ (src : Reading) (Good : src.State → Type 0) (commit : Bytes) {V : Type 0}
    (visit : Visitor V) where
  abbrev Run : Type 0
  Run = (src.State × V) × Result (Unit {0})

  abbrev pub Ends : V × Result (Unit {0}) → Run → Type 0
  Ends expected p = (p.0.1 ≡ expected.0) × (p.1 ≡ expected.1) × Good p.0.0

  after_visit-Ends :
      (k : ℕ → V → V × Result (Unit {0})) (rest : ℕ → V → src.State → Run) (s : src.State)
      → Good s
      → ((n : ℕ) (v : V) → Ends (k n v) (rest n v s))
      → (p : (V × ℕ) × Result (Unit {0})) → Ends (finish visit k p) (after_visit src visit rest s p)
  unfolding finish after_visit
  after_visit-Ends k rest s hs h ((v, n), ok _) = h n v
  after_visit-Ends k rest s hs h ((v, n), err e) = (refl, refl, hs)

  check_count-ok :
      (leaf : Leaf) (ms : List Message) (r : Result (List Message))
      → r ≡ ok ms
      → length ms ≡ leaf.count
      → check_count leaf r ≡ ok ms
  unfolding check_count
  check_count-ok leaf ms r e h = rw (e, check_count, (==_iff (length ms) leaf.count).1 h) refl

  visit_leaves-Ends :
      (snapshot : Snapshot) (leaves : List Leaf) (mss : List (List Message)) (n : ℕ) (v : V)
      (s : src.State)
      → snapshot.commit ≡ commit
      → Shelves src Good commit leaves mss
      → AreAllocated snapshot.last_id (concat mss)
      → Good s
      → Ends
          (visit_numbered visit next_number (concat mss) n v)
          (visit_leaves src visit snapshot leaves n v s)
  unfolding Shelves concat visit_leaves visit_listing visit_numbered
  visit_leaves-Ends snapshot [] [] n v s hc h ha hs = (refl, refl, hs)
  visit_leaves-Ends snapshot [] (ms ∷ mss) n v s hc h ha hs = absurd h
  visit_leaves-Ends snapshot (leaf ∷ leaves) [] n v s hc h ha hs = absurd h
  visit_leaves-Ends snapshot (leaf ∷ leaves) (ms ∷ mss) n v s hc ((count, g), h) ha hs =
      let (listing, still) = g s hs in
      let (here, later) = All-split (λ m. ltb snapshot.last_id m.id ≡ false) ms (concat mss) ha in
      rw
        (
          hc,
          check_count-ok leaf ms _ listing count,
          visit_messages-numbered visit snapshot.last_id ms (concat mss) n v here,
        )
        (after_visit-Ends (visit_numbered visit next_number (concat mss))
          (visit_leaves src visit snapshot leaves) (src.directory commit leaf.path s).0 still
          (λ k w.
            visit_leaves-Ends snapshot leaves mss k w (src.directory commit leaf.path s).0 hc h
              later still)
          (visit_messages visit snapshot.last_id ms n v))

  -- ListAt gives its callback every message of the maildrop, in order and numbered from 1.
  pub list_at-Ends :
      (snapshot : Snapshot) (index : DirectoryIndex) (mss : List (List Message)) (v : V)
      (s : src.State)
      → IsView src Good commit snapshot index mss
      → AreAllocated snapshot.last_id (concat mss)
      → snapshot.last_id ≤ max_uint64
      → Good s
      → Ends (visit_numbered visit suc (concat mss) 0 v) (list_at src visit snapshot v s)
  unfolding list_at
  list_at-Ends snapshot index mss v s h ha room hs =
      rw
        (
          list_at,
          h.indexed,
          ← visit_numbered-plain visit (concat mss) 0 v (
              omega (
                arith,
                total_length src Good commit snapshot index mss h,
                (build-IsIndex h.counts snapshot.last_id index h.built).allocated,
                room,
              )),
        )
        (visit_leaves-Ends snapshot index.leaves mss 0 v s h.same_commit h.shelves ha hs)
