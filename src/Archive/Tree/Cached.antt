-- ===== src/Archive/Tree/Cached.antt =====
-- internal/archive/tree.go: `directory`, which reads a tree once and keeps its messages in the cache.
use picomx.Prelude.{
  ℕ, ◌≤◌, ◌≡◌, refl, sym, subst, inl, inr, true, false, Option, none, some, List, [], ◌∷◌, ◌++◌,
  ltb, Bool-cases, Option-cases, some_inj, length, All,
}
use picomx.Text.Bytes.{Bytes, codes}
use picomx.Text.Unicode.{Unicode, is_space}
use picomx.Archive.Errors.{Result, ok, err, ◌>>=◌}
use picomx.Archive.MessagePath.{Message}
use picomx.Archive.Cache.{
  DirectoryKey, CachedDirectory, DirectoryCache, get, put, find_entry, move_to_front, take_out,
  same_key, push_front, drop_back,
}
use picomx.Archive.Cache.Recency.{same_key-eq}
use picomx.Archive.Reader.{
  ObjectHeader, CatFile, ReadState, object_info, line_breaks, request, valid_object_id,
}
use picomx.Archive.Reader.Rounds.{idle, IsIdle, IsKind, object_info-idle}
use picomx.Archive.Reader.Framing.{header_line}
use picomx.Text.Number.{max_int64}
use picomx.Archive.Tree.{TreeEntry, tree, directory_messages}

entry_eq :
    (k : DirectoryKey) (e : CachedDirectory) (ms : List Message)
    → same_key k e.key ≡ true
    → e.messages ≡ ms
    → e ≡ record { key = k; messages = ms }
entry_eq k e ms same found = let (p, t) = same_key-eq k e.key same in cc

pub get_miss :
    (c : DirectoryCache) (k : DirectoryKey) → find_entry k c.recency ≡ none → get c k ≡ (c, none)
unfolding get
get_miss c k e = rw (get, e) refl

pub get_hit :
    (c : DirectoryCache) (k : DirectoryKey) (ms : List Message)
    → find_entry k c.recency ≡ some ms
    → get c k ≡ (move_to_front c k ms, some ms)
unfolding get
get_hit c k ms e = rw (get, e) refl

put_miss :
    (c : DirectoryCache) (k : DirectoryKey) (ms : List Message)
    → find_entry k c.recency ≡ none
    → put c k ms ≡ push_front c (record { key = k; messages = ms })
unfolding put
put_miss c k ms e = rw (put, e) refl

put_hit :
    (c : DirectoryCache) (k : DirectoryKey) (ms old : List Message)
    → find_entry k c.recency ≡ some old
    → put c k ms ≡ move_to_front c k ms
unfolding put
put_hit c k ms old e = rw (put, e) refl

module _ (P : CachedDirectory → Type 0) where
  find-All :
      (k : DirectoryKey) (es : List CachedDirectory) (ms : List Message)
      → All P es
      → find_entry k es ≡ some ms
      → P (record { key = k; messages = ms })
  unfolding find_entry
  find-All k [] ms h found = cc
  find-All k (e ∷ es) ms (he, h) found = elim (Bool-cases (same_key k e.key)) [
    | inl same ↦ subst P (entry_eq k e ms same (some_inj (rw same at found))) he
    | inr other ↦ find-All k es ms h (rw other at found)
  ]

  take_out-All : (k : DirectoryKey) (es : List CachedDirectory) → All P es → All P (take_out k es)
  unfolding take_out
  take_out-All k [] h = tt
  take_out-All k (e ∷ es) (he, h) = elim (Bool-cases (same_key k e.key)) [
    | inl same ↦ rw same h
    | inr other ↦ rw other (he, take_out-All k es h)
  ]

  drop_back-All : (es : List CachedDirectory) → All P es → All P (drop_back es)
  unfolding drop_back
  drop_back-All [] h = tt
  drop_back-All (e ∷ []) h = tt
  drop_back-All (e ∷ f ∷ es) (he, h) = (he, drop_back-All (f ∷ es) h)

  get-All : (c : DirectoryCache) (k : DirectoryKey) → All P c.recency → All P (get c k).0.recency
  unfolding move_to_front
  get-All c k h = elim (Option-cases (find_entry k c.recency)) [
    | inl e ↦ subst (λ p. All P p.0.recency) (sym (get_miss c k e)) h
    | inr (ms, e) ↦
        subst (λ p. All P p.0.recency) (sym (get_hit c k ms e))
          (find-All k c.recency ms h e, take_out-All k c.recency h)
  ]

  push_front-All :
      (c : DirectoryCache) (e : CachedDirectory)
      → All P c.recency
      → P e
      → All P (push_front c e).recency
  unfolding push_front
  push_front-All c e h he = elim (Bool-cases (ltb c.capacity (length (e ∷ c.recency)))) [
    | inl full ↦ rw full (drop_back-All (e ∷ c.recency) (he, h))
    | inr room ↦ rw room (he, h)
  ]

  put-All :
      (c : DirectoryCache) (k : DirectoryKey) (ms : List Message)
      → All P c.recency
      → P (record { key = k; messages = ms })
      → All P (put c k ms).recency
  unfolding move_to_front
  put-All c k ms h hk = elim (Option-cases (find_entry k c.recency)) [
    | inl e ↦
        subst (λ d. All P d.recency) (sym (put_miss c k ms e))
          (push_front-All c (record { key = k; messages = ms }) h hk)
    | inr (old, e) ↦
        subst (λ d. All P d.recency) (sym (put_hit c k ms old e)) (hk, take_out-All k c.recency h)
  ]

pub tree-IsKind : IsKind (codes "tree")
unfolding is_space
tree-IsKind = (((refl, refl), ((refl, refl), ((refl, refl), ((refl, refl), tt)))), λ e. cc)

module _ (u : Unicode) (cat : CatFile) (schedule : ℕ → ℕ × ℕ) where
  unfoldable pub tree_messages :
      Bytes → ReadState × Result (List TreeEntry × Bytes) → ReadState × Result (List Message)
  unfolding directory_messages
  tree_messages path (s, t) = (s, (t >>= λ p. directory_messages path p.0))

  -- The part behind a miss: the tree is read and its messages are sorted.
  unfoldable pub load_directory : DirectoryKey → ReadState → ReadState × Result (List Message)
  unfolding tree tree_messages
  load_directory key s = tree_messages key.path (tree u cat schedule key.tree s)

  unfoldable pub keep :
      DirectoryCache
      → DirectoryKey
      → ReadState × Result (List Message)
      → (ReadState × DirectoryCache) × Result (List Message)
  unfolding put
  keep cache key (s, ok ms) = ((s, put cache key ms), ok ms)
  keep cache key (s, err e) = ((s, cache), err e)

  unfoldable pub after_get :
      DirectoryKey
      → ReadState
      → DirectoryCache × Option (List Message)
      → (ReadState × DirectoryCache) × Result (List Message)
  unfolding load_directory keep
  after_get key s (cache, some ms) = ((s, cache), ok ms)
  after_get key s (cache, none) = keep cache key (load_directory key s)

  unfoldable pub after_info :
      Bytes
      → DirectoryCache
      → ReadState × Result ObjectHeader
      → (ReadState × DirectoryCache) × Result (List Message)
  unfolding after_get get
  after_info path cache (s, err e) = ((s, cache), err e)
  after_info path cache (s, ok header) =
      let key : DirectoryKey = record { path = path; tree = header.oid } in
      after_get key s (get cache key)

  unfoldable pub directory :
      Bytes
      → Bytes
      → ReadState
      → DirectoryCache
      → (ReadState × DirectoryCache) × Result (List Message)
  unfolding object_info after_info
  directory commit path s cache =
      after_info path cache (object_info u cat (commit ++ b':' ∷ path) (codes "tree") s)

  abbrev Held : CachedDirectory → Type 0
  Held e = (load_directory e.key idle).1 ≡ ok e.messages

  -- What the cache holds is what reading the trees would give.
  unfoldable pub IsCoherent : DirectoryCache → Type 0
  IsCoherent cache = All Held cache.recency

  -- The result is what reading the tree gives, and the cache holds only such results.
  abbrev Agrees : DirectoryKey → (ReadState × DirectoryCache) × Result (List Message) → Type 0
  Agrees key p = (p.1 ≡ (load_directory key idle).1) × IsCoherent p.0.1

  keep-Agrees :
      (key : DirectoryKey) (cache : DirectoryCache) (p : ReadState × Result (List Message))
      → p.1 ≡ (load_directory key idle).1
      → IsCoherent cache
      → Agrees key (keep cache key p)
  unfolding keep IsCoherent
  keep-Agrees key cache (s, ok ms) e h = (e, put-All Held cache key ms h (sym e))
  keep-Agrees key cache (s, err _) e h = (e, h)

  pub after_get-Agrees :
      (key : DirectoryKey) (cache : DirectoryCache)
      → IsCoherent cache
      → Agrees key (after_get key idle (get cache key))
  unfolding after_get IsCoherent
  after_get-Agrees key cache h = elim (Option-cases (find_entry key cache.recency)) [
    | inl e ↦
        subst (λ p. Agrees key (after_get key idle p)) (sym (get_miss cache key e))
          (keep-Agrees key cache (load_directory key idle) refl h)
    | inr (ms, e) ↦
        subst (λ p. Agrees key (after_get key idle p)) (sym (get_hit cache key ms e))
          (
            sym (find-All Held key cache.recency ms h e),
            subst (λ p. All Held p.0.recency) (get_hit cache key ms e) (get-All Held cache key h),
          )
  ]

  -- With a cache that holds only what reading the trees gives, a directory whose tree cat-file names
  -- has the messages that reading this tree gives, and the cache stays such a cache.
  pub directory-Agrees :
      (commit path oid : Bytes) (size : ℕ) (s : ReadState) (cache : DirectoryCache)
      → IsIdle cat s
      → line_breaks (commit ++ b':' ∷ path) ≡ false
      → cat.answer (request (codes "info") (commit ++ b':' ∷ path))
        ≡ some (header_line oid (codes "tree") size ++ 10 ∷ [])
      → valid_object_id oid ≡ true
      → size ≤ max_int64
      → IsCoherent cache
      → Agrees (record { path = path; tree = oid }) (directory commit path s cache)
  unfolding directory after_info
  directory-Agrees commit path oid size s cache hs hb ha ho hn h =
      let key : DirectoryKey = record { path = path; tree = oid } in
      subst (λ p. Agrees key (after_info path cache p))
        (sym (
          object_info-idle u cat (commit ++ b':' ∷ path) oid (codes "tree") size s hs hb tree-IsKind
            ha ho hn))
        (after_get-Agrees key cache h)
