-- ===== src/Archive/Deletion/Retry.antt =====
-- internal/archive/mailbox.go: the rounds of DeleteAs, and which of them is the last.
use picomx.Prelude.{
  zero, suc, ◌+◌, Option, some, true, ℕ, ◌≤◌, ◌<◌, ◌≡◌, refl, sym, ap, ◌∙◌, subst, ◌⊎◌, inl, inr,
  false, ◌||◌, List, [], ◌∷◌, arith, ltb, ◌==◌, ==_iff, Bool-cases, Option-cases, All,
}
use picomx.Text.Bytes.{bytes_eq, bytes_eq→eq, bytes_eq_refl}
use picomx.Archive.Errors.{Error, Result, ok, err, >>=-eq-ok, ok_inj, Result-cases}
use picomx.Archive.MessagePath.{Message}
use picomx.Archive.Tree.Sorted.{Ascends}
use picomx.Archive.Store.{Store, Answers}
use picomx.Archive.Mailbox.{
  Reading, Snapshot, check_count, search_id, pick_id, find_leaf, message_by_id,
}
use picomx.Archive.Deletion.{
  snapshot_locked, delete_locked, insert_nat, sort_ids, after_find, resolve, Deletion,
  after_resolve, delete_rounds, delete_as, is_missing,
}

pick_id-id : (id : ℕ) (ms : List Message) (m : Message) → pick_id id ms ≡ ok m → m.id ≡ id
unfolding pick_id
pick_id-id id ms m h = elim (Option-cases (search_id id ms)) [
  | inl none' ↦ cc (rw (pick_id, none') at h)
  | inr (n, found) ↦ elim (Bool-cases (n.id == id)) [
    | inl e ↦ ap (λ x. x.id) (sym (ok_inj (rw (pick_id, found, e) at h))) ∙ (==_iff n.id id).0 e
    | inr e ↦ cc (rw (pick_id, found, e) at h)
  ]
]

abbrev AreSorted : ℕ → List ℕ → Type 0
AreSorted least [] = Unit
AreSorted least (n ∷ ns) = (least ≤ n) × AreSorted n ns

insert-AreSorted :
    (least n : ℕ) (ns : List ℕ) → least ≤ n → AreSorted least ns → AreSorted least (insert_nat n ns)
unfolding insert_nat
insert-AreSorted least n [] h k = (h, tt)
insert-AreSorted least n (m ∷ ms) h (hm, k) = elim (Bool-cases (ltb m n)) [
  | inl e ↦ rw e (hm, insert-AreSorted m n ms (ground arith) k)
  | inr e ↦ rw e (h, (ground arith, k))
]

sort_ids-AreSorted : (ns : List ℕ) → AreSorted 0 (sort_ids ns)
unfolding sort_ids
sort_ids-AreSorted [] = tt
sort_ids-AreSorted (n ∷ ns) =
    insert-AreSorted 0 n (sort_ids ns) (omega arith) (sort_ids-AreSorted ns)

weaker : (j k : ℕ) (ms : List Message) → j ≤ k → All (λ m. k < m.id) ms → All (λ m. j < m.id) ms
weaker j k [] h a = tt
weaker j k (m ∷ ms) h (hm, a) = (omega arith, weaker j k ms h a)

module _ (src : Reading) where
  message_by_id-id :
      (snapshot : Snapshot) (id : ℕ) (rs : src.State) (m : Message)
      → (message_by_id src snapshot id rs).1 ≡ ok m
      → m.id ≡ id
  unfolding message_by_id
  message_by_id-id snapshot id rs m h = elim (Result-cases (find_leaf snapshot id)) [
    | inr (e, refused) ↦ cc (rw (message_by_id, refused) at h)
    | inl (leaf, found) ↦
        let (ms, _, picked) =
          >>=-eq-ok (check_count leaf (src.directory snapshot.commit leaf.path rs).1) (pick_id id)
            (rw (message_by_id, found) at h) in
        pick_id-id id ms m picked
  ]

  abbrev Above : ℕ → List Message → Type 0
  Above previous ms = Ascends ms × All (λ m. previous < m.id) ms

  after_find-Above :
      (id previous : ℕ) (rest : src.State → src.State × Result (List Message))
      → previous < id
      → ((rs : src.State) (ms : List Message) → (rest rs).1 ≡ ok ms → Above id ms)
      → (p : src.State × Result Message) → ((m : Message) → p.1 ≡ ok m → m.id ≡ id)
      → (ms : List Message) → (after_find src rest p).1 ≡ ok ms
      → Above previous ms
  unfolding after_find
  after_find-Above id previous rest h above (rs, ok m) named ms run =
      let (found, e, last) = >>=-eq-ok (rest rs).1 _ run in
      let (asc, all') = above rs found e in
      subst (Above previous) (ok_inj last) (
        (subst (λ k. All (λ x. k < x.id) found) (sym (named m refl)) all', asc),
        (omega (arith, named m refl), weaker previous id found (omega arith) all'),
      )
  after_find-Above id previous rest h above (rs, err e) named ms run =
      elim (Bool-cases (is_missing e)) [
        | inl gone ↦
            let (asc, all') = above rs ms (rw gone at run) in
            (asc, weaker previous id ms (omega arith) all')
        | inr other ↦ cc (rw other at run)
      ]

  resolve-Above :
      (snapshot : Snapshot) (ids : List ℕ) (previous : ℕ) (rs : src.State) (ms : List Message)
      → AreSorted previous ids
      → (resolve src snapshot ids previous rs).1 ≡ ok ms
      → Above previous ms
  unfolding resolve
  resolve-Above snapshot [] previous rs ms h run = subst (Above previous) (ok_inj run) (tt, tt)
  resolve-Above snapshot (id ∷ ids) previous rs ms (least, h) run =
      elim (Bool-cases (id == 0 || ltb snapshot.last_id id)) [
        | inl bad ↦ cc (rw (resolve, bad) at run)
        | inr good ↦ elim (Bool-cases (id == previous)) [
          | inl e ↦
              resolve-Above snapshot ids previous rs ms
                (subst (λ k. AreSorted k ids) ((==_iff id previous).0 e) h)
                (rw (resolve, good, e) at run)
          | inr e ↦
              after_find-Above id previous (resolve src snapshot ids id) (ground arith)
                (λ rs' ms' run'. resolve-Above snapshot ids id rs' ms' h run')
                (message_by_id src snapshot id rs)
                (λ m found. message_by_id-id snapshot id rs m found) ms
                (rw (resolve, good, e) at run)
        ]
      ]

  -- The store when the lookups of a round start, after what others did in the rounds before it.
  unfoldable pub store_at : (ℕ → Store → Store) → Store → ℕ → Store
  store_at others s zero = s
  store_at others s (suc round) = others round (store_at others s round)

  -- Nobody commits while this round looks its messages up.
  abbrev pub IsQuiet : (ℕ → Store → Store) → Store → ℕ → Type 0
  IsQuiet others s round =
      (store_at others s (suc round)).head_id ≡ (store_at others s round).head_id

  -- A round that ended the loop: under the lock, in the store as the others left it, the deletion of
  -- the messages that were found in the snapshot from the start of the round, with the head unchanged.
  pub record IsLast (a : Answers) (ids : List ℕ) (others : ℕ → Store → Store) (s : Store)
      (d : Deletion src) : Type 0 where
    pub round : ℕ
    pub before : src.State
    pub after : src.State
    pub found : List Message
    pub quiet : IsQuiet others s round
    pub resolved :
        resolve src (snapshot_locked (store_at others s round)) ids 0 before ≡ (after, ok found)
    pub distinct : Ascends found
    pub store_result : d.0.0 ≡ (delete_locked (store_at others s (suc round)) a found).0
    pub result : d.1 ≡ (delete_locked (store_at others s (suc round)) a found).1

  -- A round whose lookups failed: the store is as the others left it.
  pub record IsRefused (ids : List ℕ) (others : ℕ → Store → Store) (s : Store) (d : Deletion src)
      : Type 0 where
    pub round : ℕ
    pub before : src.State
    pub error : Error
    pub refused :
        (resolve src (snapshot_locked (store_at others s round)) ids 0 before).1 ≡ err error
    pub store_result : d.0.0 ≡ store_at others s (suc round)
    pub result : d.1 ≡ err error

  abbrev pub Ended : Answers → List ℕ → (ℕ → Store → Store) → Store → Option (Deletion src) → Type 0
  Ended a ids others s o =
      (d : Deletion src) × (o ≡ some d) × (IsLast a ids others s d ⊎ IsRefused ids others s d)

  after_resolve-Ended :
      (a : Answers) (ids : List ℕ) (others : ℕ → Store → Store) (s : Store) (round : ℕ)
      (before : src.State) (retry : src.State → Option (Deletion src))
      → AreSorted 0 ids
      → ((rs : src.State)
          → bytes_eq (store_at others s (suc round)).head_id (store_at others s round).head_id
            ≡ false
          → Ended a ids others s (retry rs))
      → (p : src.State × Result (List Message))
      → resolve src (snapshot_locked (store_at others s round)) ids 0 before ≡ p
      → Ended a ids others s (
          after_resolve src a
            (store_at others s round).head_id
            (store_at others s (suc round))
            retry
            p)
  unfolding after_resolve
  after_resolve-Ended a ids others s round before retry sorted again (rs, err e) run = (
    ((store_at others s (suc round), rs), err e),
    refl,
    inr (record {
      round = round;
      before = before;
      error = e;
      refused = ap (λ p. p.1) run;
      store_result = refl;
      result = refl;
    }),
  )
  after_resolve-Ended a ids others s round before retry sorted again (rs, ok ms) run =
      let locked = store_at others s (suc round) in
      let seen = store_at others s round in
      elim (Bool-cases (bytes_eq locked.head_id seen.head_id)) [
        | inr differs ↦ rw differs (again rs differs)
        | inl e ↦ rw e (
          (((delete_locked locked a ms).0, rs), (delete_locked locked a ms).1),
          refl,
          inl (record {
            round = round;
            before = before;
            after = rs;
            found = ms;
            quiet = bytes_eq→eq locked.head_id seen.head_id e;
            resolved = run;
            distinct =
                (resolve-Above (snapshot_locked seen) ids 0 before ms sorted (ap (λ p. p.1) run)).0;
            store_result = refl;
            result = refl;
          }),
        )
      ]

  rounds-Ended :
      (a : Answers) (ids : List ℕ) (others : ℕ → Store → Store) (s : Store) (rs : src.State)
      (gap fuel round last : ℕ)
      → AreSorted 0 ids
      → IsQuiet others s last
      → round + gap ≡ last
      → gap < fuel
      → Ended a ids others s
          (delete_rounds src a ids others fuel round (store_at others s round) rs)
  unfolding delete_rounds store_at
  rounds-Ended a ids others s rs gap zero round last sorted quiet e h = absurd (omega (arith, h))
  rounds-Ended a ids others s rs zero (suc fuel) round last sorted quiet e h =
      after_resolve-Ended a ids others s round rs
        (delete_rounds src a ids others fuel (suc round) (store_at others s (suc round))) sorted
        (λ rs' differs.
          let here : IsQuiet others s round = subst (IsQuiet others s) (omega (arith, e)) quiet in
          cc (
            differs,
            subst (λ x. bytes_eq (store_at others s (suc round)).head_id x ≡ true) here
                (bytes_eq_refl (store_at others s (suc round)).head_id),
          ))
        _ refl
  rounds-Ended a ids others s rs (suc gap) (suc fuel) round last sorted quiet e h =
      after_resolve-Ended a ids others s round rs
        (delete_rounds src a ids others fuel (suc round) (store_at others s (suc round))) sorted
        (λ rs' differs.
          rounds-Ended a ids others s rs' gap fuel (suc round) last sorted quiet (omega (arith, e))
            (omega (arith, h)))
        _ refl

  -- Whatever other connections do to the store in each round, DeleteAs ends within the rounds up to one
  -- in which nobody commits: with an error of the lookups of a round, and the store as the others left
  -- it, or with the deletion, from the store as they left it, of messages that it found under the head
  -- that this store still has, each of them once.
  pub delete_as-Ended :
      (a : Answers) (ids : List ℕ) (others : ℕ → Store → Store) (last fuel : ℕ) (s : Store)
      (rs : src.State)
      → IsQuiet others s last
      → last < fuel
      → Ended a (sort_ids ids) others s (delete_as src a ids others fuel s rs)
  unfolding delete_as store_at
  delete_as-Ended a ids others last fuel s rs quiet h =
      rounds-Ended a (sort_ids ids) others s rs last fuel 0 last (sort_ids-AreSorted ids) quiet
        (omega arith) h
