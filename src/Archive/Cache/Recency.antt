-- ===== src/Archive/Cache/Recency.antt =====
-- What the cache holds after an operation.
use picomx.Prelude.{
  ◌+◌, ◌≤◌, ◌<◌, ◌≡◌, refl, ◌∙◌, ◌⊎◌, inl, inr, true, false, none, some, List, [], ◌∷◌, arith, ltb,
  Bool-cases, Option-cases, length,
}
use picomx.Text.Bytes.{bytes_eq_refl, bytes_eq→eq}
use picomx.Archive.MessagePath.{Message}
use picomx.Archive.Cache.{
  DirectoryKey, CachedDirectory, DirectoryCache, same_key, find_entry, take_out, move_to_front, get,
  drop_back, push_front, put,
}

same_key_refl : (k : DirectoryKey) → same_key k k ≡ true
unfolding same_key
same_key_refl k = rw (bytes_eq_refl k.path, bytes_eq_refl k.tree) refl

pub same_key-eq : (k l : DirectoryKey) → same_key k l ≡ true → (k.path ≡ l.path) × (k.tree ≡ l.tree)
unfolding same_key
same_key-eq k l p =
    (ground (arith, bytes_eq→eq k.path l.path), ground (arith, bytes_eq→eq k.tree l.tree))

-- A key that differs from another differs from what equals that other.
same_key-differs :
    (k l m : DirectoryKey) → same_key l k ≡ false → same_key k m ≡ true → same_key l m ≡ false
unfolding same_key
same_key-differs k l m h p =
    let (same_path, same_tree) = same_key-eq k m p in rw (← same_path, ← same_tree) h

length-take_out :
    (k : DirectoryKey) (es : List CachedDirectory) (ms : List Message)
    → find_entry k es ≡ some ms
    → length (take_out k es) + 1 ≡ length es
unfolding find_entry take_out
length-take_out k [] ms h = cc
length-take_out k (e ∷ es) ms h = elim (Bool-cases (same_key k e.key)) [
  | inl same ↦ rw same (omega arith)
  | inr other ↦
      let rest : find_entry k es ≡ some ms = (rw other at h) in
      rw other (omega (arith, length-take_out k es ms rest))
]

length-drop_back :
    (e : CachedDirectory) (es : List CachedDirectory) → length (drop_back (e ∷ es)) ≡ length es
unfolding drop_back
length-drop_back e [] = refl
length-drop_back e (f ∷ es) = omega (arith, length-drop_back f es)

find-take_out :
    (k l : DirectoryKey) (es : List CachedDirectory)
    → same_key l k ≡ false
    → find_entry l (take_out k es) ≡ find_entry l es
unfolding find_entry take_out
find-take_out k l [] h = refl
find-take_out k l (e ∷ es) h = elim (Bool-cases (same_key k e.key)) [
  | inl same ↦ rw (same, same_key-differs k l e.key h same) refl
  | inr other ↦ rw other (elim (Bool-cases (same_key l e.key)) [
    | inl here ↦ rw here refl
    | inr there ↦ rw there (find-take_out k l es h)
  ])
]

find-drop_back :
    (l : DirectoryKey) (es : List CachedDirectory)
    → (find_entry l (drop_back es) ≡ none) ⊎ (find_entry l (drop_back es) ≡ find_entry l es)
unfolding find_entry drop_back
find-drop_back l [] = inl refl
find-drop_back l (e ∷ []) = inl refl
find-drop_back l (e ∷ f ∷ es) = elim (Bool-cases (same_key l e.key)) [
  | inl same ↦ rw same (inr refl)
  | inr other ↦ rw other (find-drop_back l (f ∷ es))
]

get-move_to_front :
    (c : DirectoryCache) (k : DirectoryKey) (ms : List Message)
    → find_entry k (move_to_front c k ms).recency ≡ some ms
unfolding move_to_front find_entry
get-move_to_front c k ms = rw (same_key_refl k) refl

length-move_to_front :
    (c : DirectoryCache) (k : DirectoryKey) (ms old : List Message)
    → find_entry k c.recency ≡ some old
    → length (move_to_front c k ms).recency ≡ length c.recency
unfolding move_to_front
length-move_to_front c k ms old h = omega (arith, length-take_out k c.recency old h)

length-push_front :
    (c : DirectoryCache) (e : CachedDirectory)
    → length c.recency ≤ c.capacity
    → length (push_front c e).recency ≤ c.capacity
unfolding push_front
length-push_front c e h = elim (Bool-cases (ltb c.capacity (length (e ∷ c.recency)))) [
  | inl full ↦ rw full (omega (arith, length-drop_back e c.recency, h))
  | inr room ↦ rw room (ground arith)
]

-- A cache within its capacity stays within it, whatever is asked of it or put into it.
pub put-bound :
    (c : DirectoryCache) (k : DirectoryKey) (ms : List Message)
    → length c.recency ≤ c.capacity
    → (length (put c k ms).recency ≤ c.capacity) × (length (get c k).0.recency ≤ c.capacity)
unfolding put get
put-bound c k ms h = elim (Option-cases (find_entry k c.recency)) [
  | inl missing ↦
      rw (missing, put, get) (length-push_front c (record { key = k; messages = ms }) h, h)
  | inr (old, found) ↦
      rw (found, put, get)
        (
          omega (arith, length-move_to_front c k ms old found, h),
          omega (arith, length-move_to_front c k old old found, h),
        )
]

get-find : (c : DirectoryCache) (k : DirectoryKey) → (get c k).1 ≡ find_entry k c.recency
unfolding get
get-find c k = elim (Option-cases (find_entry k c.recency)) [
  | inl missing ↦ rw (missing, get) refl
  | inr (ms, found) ↦ rw (found, get) refl
]

find-push_front :
    (c : DirectoryCache) (k : DirectoryKey) (ms : List Message)
    → 0 < c.capacity
    → (es : List CachedDirectory) → c.recency ≡ es
    → find_entry k (push_front c (record { key = k; messages = ms })).recency ≡ some ms
unfolding push_front find_entry
find-push_front c k ms h [] e =
    let room : ltb c.capacity 1 ≡ false = ground arith in rw (e, room, same_key_refl k) refl
find-push_front c k ms h (f ∷ es) e =
    let entry : CachedDirectory = record { key = k; messages = ms } in
    elim (Bool-cases (ltb c.capacity (length (entry ∷ f ∷ es)))) [
      | inl full ↦ rw (e, full) (unfold drop_back in rw (same_key_refl k) refl)
      | inr room ↦ rw (e, room, same_key_refl k) refl
    ]

find-other-move :
    (c : DirectoryCache) (k l : DirectoryKey) (ms : List Message)
    → same_key l k ≡ false
    → find_entry l (move_to_front c k ms).recency ≡ find_entry l c.recency
unfolding move_to_front find_entry
find-other-move c k l ms h = rw h (find-take_out k l c.recency h)

find-other-push :
    (c : DirectoryCache) (k l : DirectoryKey) (ms : List Message)
    → same_key l k ≡ false
    → (find_entry l (push_front c (record { key = k; messages = ms })).recency ≡ none)
      ⊎ (find_entry l (push_front c (record { key = k; messages = ms })).recency
          ≡ find_entry l c.recency)
unfolding push_front find_entry
find-other-push c k l ms h =
    let e : CachedDirectory = record { key = k; messages = ms } in
    let skipped : find_entry l (e ∷ c.recency) ≡ find_entry l c.recency = rw h refl in
    elim (Bool-cases (ltb c.capacity (length (e ∷ c.recency)))) [
      | inr room ↦ inr (rw room (rw h refl))
      | inl full ↦ elim (find-drop_back l (e ∷ c.recency)) [
        | inl gone ↦ inl (rw full gone)
        | inr kept ↦ inr (rw full (kept ∙ skipped))
      ]
    ]

-- In a cache with room for an entry, what was put under a key is what the next lookup of the key
-- gives, and any other key gives what it gave before, or nothing.
pub put-get :
    (c : DirectoryCache) (k l : DirectoryKey) (ms : List Message)
    → 0 < c.capacity
    → same_key l k ≡ false
    → ((get (put c k ms) k).1 ≡ some ms)
      × (((get (put c k ms) l).1 ≡ none) ⊎ ((get (put c k ms) l).1 ≡ (get c l).1))
unfolding put
put-get c k l ms h other =
    rw (get-find (put c k ms) k, get-find (put c k ms) l, get-find c l)
      (elim (Option-cases (find_entry k c.recency)) [
        | inl missing ↦
            rw (missing, put)
              (find-push_front c k ms h c.recency refl, find-other-push c k l ms other)
        | inr (old, found) ↦
            rw (found, put) (get-move_to_front c k ms, inr (find-other-move c k l ms other))
      ])
