-- ===== src/Archive/Mailbox/Lookup.antt =====
-- internal/archive/mailbox.go: Lookup finds the messages of the maildrop by their numbers.
use picomx.Prelude.{
  ℕ, zero, suc, ◌+◌, ◌≤◌, ◌<◌, ◌≡◌, refl, sym, ap, ◌∙◌, subst, inl, inr, true, false, ◌||◌, none,
  some, List, arith, ltb, ◌==◌, ltb→lt, ==_iff, Bool-cases, length, get_elem?,
}
use picomx.Text.Bytes.{Bytes}
use picomx.Archive.Errors.{Error, ok, err}
use picomx.Archive.MessagePath.{Message}
use picomx.Archive.Directories.Index.{Leaf, DirectoryIndex, select_leaf}
use picomx.Archive.Directories.Select.{select_leaf-Selects, sum_counts}
use picomx.Archive.Mailbox.{Reading, Snapshot, check_count, pick, select, lookup}
use picomx.Archive.Mailbox.Maildrop.{
  concat, nth_message, get-none, Gives, Shelves, shelf_get, IsView, total_length, Refines,
}

nth-found :
    (ms : List Message) (n : ℕ) (m : Message)
    → get_elem? ms n ≡ some m
    → nth_message ms (suc n) ≡ ok m
unfolding nth_message
nth-found ms n m e = rw (nth_message, e) refl

nth-none :
    (ms : List Message) (n : ℕ) → length ms ≤ n → nth_message ms (suc n) ≡ err Error.no_such_message
unfolding nth_message
nth-none ms n h = rw (nth_message, get-none ms n h) refl

ltb-ge : (a b : ℕ) → ltb a b ≡ false → b ≤ a
ltb-ge a b h = ground arith

select-eq :
    (snapshot : Snapshot) (index : DirectoryIndex) (number : ℕ)
    → snapshot.index ≡ some index
    → select snapshot number ≡ select_leaf index number
unfolding select
select-eq snapshot index number e = rw (select, e) refl

module _ (src : Reading) (Good : src.State → Type 0) (commit : Bytes) where
  lookup-found :
      (snapshot : Snapshot) (number offset : ℕ) (s : src.State) (leaf : Leaf) (ms : List Message)
      (m : Message)
      → snapshot.commit ≡ commit
      → Good s
      → select snapshot number ≡ some (leaf, offset)
      → Gives src Good commit leaf ms
      → get_elem? ms offset ≡ some m
      → ((lookup src snapshot number s).1 ≡ ok m) × Good (lookup src snapshot number s).0
  unfolding lookup check_count pick
  lookup-found snapshot number offset s leaf ms m hc hs sel g found =
      let (listing, still) = g.1 s hs in
      (
        rw (lookup, sel, hc, listing, (==_iff (length ms) leaf.count).1 g.0, pick, found) refl,
        rw (lookup, sel, hc) still,
      )

  lookup-in_range :
      (snapshot : Snapshot) (index : DirectoryIndex) (mss : List (List Message)) (n : ℕ)
      (s : src.State)
      → IsView src Good commit snapshot index mss
      → Good s
      → n < index.total
      → Refines src Good commit (nth_message (concat mss) (suc n)) (lookup src snapshot (suc n) s)
  lookup-in_range snapshot index mss n s h hs k =
      let (leaf, offset, sel, place) =
        select_leaf-Selects h.counts snapshot.last_id index (suc n) h.built (omega arith)
          (omega arith) in
      let (ms, m, g, found, at) =
        shelf_get src Good commit place.above leaf place.below mss offset
          (subst (λ l. Shelves src Good commit l mss) place.place h.shelves) place.inside in
      let (result, still) =
        lookup-found snapshot (suc n) offset s leaf ms m h.same_commit hs
          (select-eq snapshot index (suc n) h.indexed ∙ sel) g found in
      let here : n ≡ sum_counts place.above + offset = omega (arith, place.position) in
      (result ∙ sym (nth-found (concat mss) n m (ap (get_elem? (concat mss)) here ∙ at)), still)

  lookup-out :
      (snapshot : Snapshot) (number : ℕ) (s : src.State)
      → select snapshot number ≡ none
      → lookup src snapshot number s ≡ (s, err Error.no_such_message)
  unfolding lookup
  lookup-out snapshot number s e = rw (lookup, e) refl

  out_of_range :
      (snapshot : Snapshot) (index : DirectoryIndex) (number : ℕ) (ms : List Message)
      (s : src.State)
      → snapshot.index ≡ some index
      → Good s
      → (number == 0 || ltb index.total number) ≡ true
      → nth_message ms number ≡ err Error.no_such_message
      → Refines src Good commit (nth_message ms number) (lookup src snapshot number s)
  unfolding select_leaf
  out_of_range snapshot index number ms s hi hs e none' =
      subst (Refines src Good commit (nth_message ms number))
        (sym (
          lookup-out snapshot number s
            (select-eq snapshot index number hi ∙ rw (select_leaf, e) refl)))
        (sym none', hs)

  -- Lookup gives the message with this number of the maildrop, and no message for any other number.
  pub lookup-Refines :
      (snapshot : Snapshot) (index : DirectoryIndex) (mss : List (List Message)) (number : ℕ)
      (s : src.State)
      → IsView src Good commit snapshot index mss
      → Good s
      → Refines src Good commit (nth_message (concat mss) number) (lookup src snapshot number s)
  unfolding nth_message
  lookup-Refines snapshot index mss zero s h hs =
      out_of_range snapshot index 0 (concat mss) s h.indexed hs refl refl
  lookup-Refines snapshot index mss (suc n) s h hs = elim (Bool-cases (ltb n index.total)) [
    | inl e ↦ lookup-in_range snapshot index mss n s h hs (ltb→lt n index.total e)
    | inr e ↦ out_of_range snapshot index (suc n) (concat mss) s h.indexed hs (ground arith) (
        nth-none (concat mss) n (
          omega (arith, total_length src Good commit snapshot index mss h, ltb-ge n index.total e)))
  ]
