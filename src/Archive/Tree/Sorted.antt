-- ===== src/Archive/Tree/Sorted.antt =====
-- internal/archive/tree.go: the messages of a directory are in strictly ascending order of ID.
use picomx.Prelude.{
  suc, ◌≤◌, ◌<◌, ◌≡◌, refl, ap, ◌∙◌, subst, inl, inr, false, not, some, List, [], ◌∷◌, ◌++◌, arith,
  ltb, ◌==◌, Bool-cases, Option-cases, length, All,
}
use picomx.Text.Bytes.{Bytes, bytes_eq, codes}
use picomx.Archive.Errors.{Error, ok, >>=-eq-ok, fail_if-eq-ok, ok_inj}
use picomx.Archive.MessagePath.{Message, message_from_path}
use picomx.Archive.MessagePath.RoundTrip.{message_path-from_path}
use picomx.Archive.Tree.{
  TreeEntry, entry_message, entry_messages, insert_message, sort_messages, has_duplicate,
  directory_messages,
}

-- The IDs from a bound on, each less than the next.
abbrev pub Ascends : List Message → Type 0
Ascends [] = Unit
Ascends (m ∷ ms) = All (λ n. m.id < n.id) ms × Ascends ms

abbrev Weakly : List Message → Type 0
Weakly [] = Unit
Weakly (m ∷ ms) = All (λ n. m.id ≤ n.id) ms × Weakly ms

-- The message is the one that its own path names.
abbrev pub IsNamed : Message → Type 0
IsNamed m = message_from_path m.path ≡ some m

module _ (P : Message → Type 0) where
  insert-All : (m : Message) (ms : List Message) → P m → All P ms → All P (insert_message m ms)
  unfolding insert_message
  insert-All m [] hm h = (hm, tt)
  insert-All m (n ∷ ns) hm (hn, h) = elim (Bool-cases (ltb n.id m.id)) [
    | inl e ↦ rw e (hn, insert-All m ns hm h)
    | inr e ↦ rw e (hm, (hn, h))
  ]

  sort-All : (ms : List Message) → All P ms → All P (sort_messages ms)
  unfolding sort_messages
  sort-All [] h = tt
  sort-All (m ∷ ms) (hm, h) = insert-All m (sort_messages ms) hm (sort-All ms h)

All-map :
    (P Q : Message → Type 0) (f : (m : Message) → P m → Q m) (ms : List Message)
    → All P ms
    → All Q ms
All-map P Q f [] h = tt
All-map P Q f (m ∷ ms) (hm, h) = (f m hm, All-map P Q f ms h)

insert-Weakly : (m : Message) (ms : List Message) → Weakly ms → Weakly (insert_message m ms)
unfolding insert_message
insert-Weakly m [] h = (tt, tt)
insert-Weakly m (n ∷ ns) (hn, h) = elim (Bool-cases (ltb n.id m.id)) [
  | inl e ↦ rw e (insert-All (λ x. n.id ≤ x.id) m ns (ground arith) hn, insert-Weakly m ns h)
  | inr e ↦ rw e (
    ((ground arith), All-map (λ x. n.id ≤ x.id) (λ x. m.id ≤ x.id) (λ x hx. ground arith) ns hn),
    (hn, h),
  )
]

sort-Weakly : (ms : List Message) → Weakly (sort_messages ms)
unfolding sort_messages
sort-Weakly [] = tt
sort-Weakly (m ∷ ms) = insert-Weakly m (sort_messages ms) (sort-Weakly ms)

-- Without equal neighbours the order is strict.
Weakly-Ascends : (ms : List Message) → Weakly ms → has_duplicate ms ≡ false → Ascends ms
unfolding has_duplicate
Weakly-Ascends [] h d = tt
Weakly-Ascends (m ∷ []) h d = (tt, tt)
Weakly-Ascends (m ∷ n ∷ ns) ((hmn, hm), (hn, h)) d = elim (Bool-cases (m.id == n.id)) [
  | inl e ↦ cc (rw e at d)
  | inr e ↦ (
    (ground arith, All-map (λ x. n.id ≤ x.id) (λ x. m.id < x.id) (λ x hx. ground arith) ns hn),
    Weakly-Ascends (n ∷ ns) (hn, h) (rw e at d),
  )
]

length-insert : (m : Message) (ms : List Message) → length (insert_message m ms) ≡ suc (length ms)
unfolding insert_message
length-insert m [] = refl
length-insert m (n ∷ ns) = elim (Bool-cases (ltb n.id m.id)) [
  | inl e ↦ rw e (ap suc (length-insert m ns))
  | inr e ↦ rw e refl
]

length-sort : (ms : List Message) → length (sort_messages ms) ≡ length ms
unfolding sort_messages
length-sort [] = refl
length-sort (m ∷ ms) = length-insert m (sort_messages ms) ∙ ap suc (length-sort ms)

entry_message-IsNamed :
    (path : Bytes) (e : TreeEntry) (m : Message) → entry_message path e ≡ ok m → IsNamed m
unfolding entry_message
entry_message-IsNamed path e m h = elim (Bool-cases (not (bytes_eq e.mode (codes "100644")))) [
  | inl bad ↦ cc (rw (entry_message, bad) at h)
  | inr plain ↦ elim (Option-cases (message_from_path (path ++ b'/' ∷ e.name))) [
    | inl none' ↦ cc (rw (entry_message, plain, none') at h)
    | inr (n, found) ↦
        subst IsNamed (ok_inj (rw (entry_message, plain, found) at h))
          (ap message_from_path (message_path-from_path (path ++ b'/' ∷ e.name) n found).1 ∙ found)
  ]
]

entry_messages-IsNamed :
    (path : Bytes) (es : List TreeEntry) (ms : List Message)
    → entry_messages path es ≡ ok ms
    → All IsNamed ms × (length ms ≡ length es)
unfolding entry_messages
entry_messages-IsNamed path [] ms h =
    subst (λ l. All IsNamed l × (length l ≡ 0)) (ok_inj h) (tt, refl)
entry_messages-IsNamed path (e ∷ es) ms h =
    let (m, first, h') = >>=-eq-ok (entry_message path e) _ h in
    let (rest, more, last) = >>=-eq-ok (entry_messages path es) _ h' in
    let (named, count) = entry_messages-IsNamed path es rest more in
    subst (λ l. All IsNamed l × (length l ≡ suc (length es))) (ok_inj last)
      ((entry_message-IsNamed path e m first, named), ap suc count)

-- A directory that is accepted has a message for each entry, in strictly ascending order of ID, and
-- each is the one that its path names.
pub directory_messages-Ascends :
    (path : Bytes) (es : List TreeEntry) (ms : List Message)
    → directory_messages path es ≡ ok ms
    → Ascends ms × All IsNamed ms × (length ms ≡ length es)
unfolding directory_messages
directory_messages-Ascends path es ms h =
    let (found, read, h') = >>=-eq-ok (entry_messages path es) _ h in
    let (unique, last) =
      fail_if-eq-ok (has_duplicate (sort_messages found)) Error.duplicate_id h' in
    let (named, count) = entry_messages-IsNamed path es found read in
    subst (λ l. Ascends l × All IsNamed l × (length l ≡ length es)) (ok_inj last)
      (
        Weakly-Ascends (sort_messages found) (sort-Weakly found) unique,
        sort-All IsNamed found named,
        length-sort found ∙ count,
      )
