-- ===== src/Pop3/Session/Effects.antt =====
-- What a session does to the store, one line after the other, and over a whole connection.
use picomx.Prelude.{
  ◌<◌, ◌≡◌, refl, ◌⊎◌, inl, inr, Bool, true, false, List, [], ◌∷◌, ◌++◌, if◌then◌else◌, length,
}
use picomx.Text.Bytes.{Bytes}
use picomx.Pop3.Mailbox.{Mailbox, Server, permanent_ids}
use picomx.Pop3.Session.{Session, Outcome, step}
use picomx.Pop3.Session.Invariant.{Reaches}
use picomx.Pop3.Session.Change.{
  IsQuit, Change, same, named, refused, locked_out, opened, marked, reset, committed, step-Change,
}

module _ (box : Mailbox) (server : Server) where
  open box use {Store, Snapshot, count, lookup, delete_as}

  Change-store :
      {E : Type 0} {s : Session box} {st : Store} {s' : Session box} {st' : Store} {go : Bool}
      → Change box server E s st s' st' go
      → (st' ≡ st)
        ⊎ ((st' ≡ (delete_as st (permanent_ids s.deleted) s.username).0)
            × (s.authenticated ≡ true)
            × (0 < length s.deleted)
            × (go ≡ false)
            × E)
  Change-store same = inl refl
  Change-store (named name h) = inl refl
  Change-store (refused h k) = inl refl
  Change-store (locked_out h k) = inl refl
  Change-store (opened password h k) = inl refl
  Change-store (marked n m h p q live found) = inl refl
  Change-store (reset h) = inl refl
  Change-store (committed q h k) = inr (refl, h, k, refl, q)

  -- A round of the loop leaves the store alone, or its line is a whole QUIT, it is the last of an
  -- authenticated session with marked messages, and the store is what DeleteAs makes of it for the
  -- marked IDs and this user.
  pub step-store :
      (s : Session box) (st : Store) (sent : Bool) (raw : Bytes)
      → ((step box server s st sent raw).store ≡ st)
        ⊎ (((step box server s st sent raw).store
              ≡ (delete_as st (permanent_ids s.deleted) s.username).0)
            × (s.authenticated ≡ true)
            × (0 < length s.deleted)
            × ((step box server s st sent raw).is_open ≡ false)
            × IsQuit box server raw)
  step-store s st sent raw = Change-store (step-Change box server s st sent raw)

  -- The lines of a connection, read one after the other until it ends.
  unfoldable pub serve : Session box → Store → List (Bool × Bytes) → Outcome box
  serve s st [] = record { session = s; store = st; output = []; is_open = true }
  serve s st ((sent, raw) ∷ rest) =
      let o = step box server s st sent raw in
      let o' = serve o.session o.store rest in
      if o.is_open then record o' { output = o.output ++ o'.output } else o

  -- What a connection may do to the store: nothing, or one DeleteAs for an authenticated session
  -- that it got to, with the IDs that this session had marked.
  abbrev pub Effect : Store → Store → Type 0
  Effect st st' =
      (st' ≡ st)
      ⊎ ((s : Session box) × (raw : Bytes) × Reaches box server s
          × IsQuit box server raw
          × (s.authenticated ≡ true)
          × (0 < length s.deleted)
          × (st' ≡ (delete_as st (permanent_ids s.deleted) s.username).0))
