-- ===== src/Archive/Tree/Source.antt =====
-- internal/archive/tree.go: directories read through cat-file and the cache serve the mailbox.
use picomx.Prelude.{
  ℕ, suc, ◌≤◌, ◌≡◌, refl, sym, ap, ◌∙◌, subst, inl, inr, true, false, some, List, [], ◌∷◌, ◌++◌,
  arith, ltb, Option-cases, length,
}
use picomx.Text.Bytes.{Bytes, Lacks, codes}
use picomx.Text.Unicode.{Unicode, is_space}
use picomx.Archive.Errors.{Result, ok, err, ◌>>=◌}
use picomx.Archive.MessagePath.{Message}
use picomx.Archive.Cache.{DirectoryKey, DirectoryCache, get, find_entry}
use picomx.Archive.Reader.{CatFile, ReadState, line_breaks, valid_object_id, request}
use picomx.Archive.Reader.Framing.{header_of, header_line, hex_oid, IsWord-Lacks}
use picomx.Archive.Reader.Lease.{opened, closed_reader, close-opened}
use picomx.Archive.Reader.Rounds.{
  idle, IsIdle, Answers, leased, read_object-opened, read_all-total, object_info-idle,
}
use picomx.Archive.Tree.{
  max_tree, finish_tree, close_tree, after_read_all, read_tree, use_tree, tree, directory_messages,
}
use picomx.Archive.Tree.Cached.{
  tree_messages, load_directory, keep, after_get, after_info, directory, IsCoherent, tree-IsKind,
  directory-Agrees, get_miss, get_hit,
}
use picomx.Archive.Mailbox.{Reading}

line_breaks-Lacks : (s : Bytes) → Lacks 13 s → Lacks 10 s → line_breaks s ≡ false
unfolding line_breaks
line_breaks-Lacks [] h k = refl
line_breaks-Lacks (c ∷ s) (hc, h) (kc, k) = rw (hc, kc) (line_breaks-Lacks s h k)

oid_plain : (oid : Bytes) → valid_object_id oid ≡ true → line_breaks oid ≡ false
unfolding is_space
oid_plain oid h =
    line_breaks-Lacks oid (IsWord-Lacks 13 refl oid (hex_oid oid h))
      (IsWord-Lacks 10 refl oid (hex_oid oid h))

small : (content : Bytes) → length content ≤ max_tree → ltb max_tree (length content) ≡ false
small content h = ground arith

module _ (u : Unicode) (cat : CatFile) (schedule : ℕ → ℕ × ℕ) where
  -- The interface of the mailbox, as the store fills it.
  abbrev pub reading : Reading
  reading = record {
    State = ReadState × DirectoryCache;
    directory = λ commit path s. directory u cat schedule commit path s.0 s.1;
  }

  -- cat-file has a directory of a commit: it answers its header, and the contents of its tree.
  pub record Serves (commit path oid content : Bytes) : Type 0 where
    pub plain : line_breaks (commit ++ b':' ∷ path) ≡ false
    pub info :
        cat.answer (request (codes "info") (commit ++ b':' ∷ path))
        ≡ some (header_line oid (codes "tree") (length content) ++ 10 ∷ [])
    pub contents : Answers cat oid oid (codes "tree") content
    pub bounded : length content ≤ max_tree

  -- The messages of a directory whose tree has these bytes.
  unfoldable pub listing : Bytes → Bytes → Bytes → Result (List Message)
  unfolding finish_tree directory_messages
  listing path oid content = finish_tree oid (ok content) >>= λ p. directory_messages path p.0

  read_tree-idle :
      (oid content : Bytes)
      → length content ≤ max_tree
      → read_tree schedule
          (leased content)
          (content ++ 10 ∷ [])
          (opened (header_of oid (codes "tree") (length content)) content)
        ≡ (idle, finish_tree oid (ok content))
  unfolding read_tree after_read_all close_tree closed_reader
  read_tree-idle oid content h =
      let header = header_of oid (codes "tree") (length content) in
      rw (read_tree, small content h)
        (ap (after_read_all (leased content))
            (read_all-total schedule header (suc (length content)) content (omega arith))
          ∙ ap (λ p. close_tree p (ok content)) (close-opened header [] (leased content)))

  load_directory-idle :
      (path oid content : Bytes)
      → Answers cat oid oid (codes "tree") content
      → length content ≤ max_tree
      → load_directory u cat schedule (record { path = path; tree = oid }) idle
        ≡ (idle, listing path oid content)
  unfolding load_directory tree use_tree tree_messages listing
  load_directory-idle path oid content ha h =
      ap (λ p. tree_messages u cat schedule path (use_tree schedule p))
        (read_object-opened u cat oid oid (codes "tree") content idle (refl, inl refl)
          (oid_plain oid ha.1) tree-IsKind ha)
      ∙ ap (tree_messages u cat schedule path) (read_tree-idle oid content h)

  abbrev pub IsGood : ReadState × DirectoryCache → Type 0
  IsGood s = IsIdle cat s.0 × IsCoherent u cat schedule s.1

  keep-idle :
      (key : DirectoryKey) (cache : DirectoryCache) (p : ReadState × Result (List Message))
      → p.0 ≡ idle
      → (keep u cat schedule cache key p).0.0 ≡ idle
  unfolding keep
  keep-idle key cache (s, ok ms) e = e
  keep-idle key cache (s, err _) e = e

  after_get-idle :
      (key : DirectoryKey) (cache : DirectoryCache)
      → (load_directory u cat schedule key idle).0 ≡ idle
      → (after_get u cat schedule key idle (get cache key)).0.0 ≡ idle
  unfolding after_get
  after_get-idle key cache h = elim (Option-cases (find_entry key cache.recency)) [
    | inl e ↦
        subst (λ p. (after_get u cat schedule key idle p).0.0 ≡ idle) (sym (get_miss cache key e))
          (keep-idle key cache (load_directory u cat schedule key idle) h)
    | inr (ms, e) ↦
        subst (λ p. (after_get u cat schedule key idle p).0.0 ≡ idle) (sym (get_hit cache key ms e))
          refl
  ]

  idle-IsIdle : (s : ReadState) → s ≡ idle → IsIdle cat s
  idle-IsIdle s e = subst (IsIdle cat) (sym e) (refl, inl refl)

  directory-idle :
      (commit path oid content : Bytes) (s : ReadState × DirectoryCache)
      → IsGood s
      → Serves commit path oid content
      → (directory u cat schedule commit path s.0 s.1).0.0 ≡ idle
  unfolding directory after_info
  directory-idle commit path oid content (s, cache) (hs, _) h =
      let key : DirectoryKey = record { path = path; tree = oid } in
      subst (λ p. (after_info u cat schedule path cache p).0.0 ≡ idle)
        (sym (
          object_info-idle u cat (commit ++ b':' ∷ path) oid (codes "tree") (length content) s hs
            h.plain tree-IsKind h.info h.contents.1 h.contents.2))
        (after_get-idle key cache
          (ap (λ p. p.0) (load_directory-idle path oid content h.contents h.bounded)))

  -- With a cache that holds only what reading the trees gives, a directory that cat-file serves has
  -- the messages of its tree, from the cache or not, and the reader and the cache stay good.
  pub directory-listing :
      (commit path oid content : Bytes) (s : ReadState × DirectoryCache)
      → IsGood s
      → Serves commit path oid content
      → ((directory u cat schedule commit path s.0 s.1).1 ≡ listing path oid content)
        × IsGood (directory u cat schedule commit path s.0 s.1).0
  directory-listing commit path oid content (s, cache) (hs, hc) h =
      let (result, coherent) =
        directory-Agrees u cat schedule commit path oid (length content) s cache hs h.plain h.info
          h.contents.1 h.contents.2 hc in
      (
        result ∙ ap (λ p. p.1) (load_directory-idle path oid content h.contents h.bounded),
        (idle-IsIdle _ (directory-idle commit path oid content (s, cache) (hs, hc) h), coherent),
      )
