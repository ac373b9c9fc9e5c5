-- ===== src/Pop3/Session/Invariant.antt =====
-- What holds of every session, whatever the client sends and whatever others do to the store.
use picomx.Prelude.{
  ℕ, suc, ◌+◌, ◌^◌, ◌<◌, ◌≡◌, refl, ap, inl, inr, Bool, true, false, some, [], ◌∷◌, arith, ◌==◌,
  Bool-cases, length, All,
}
use picomx.Text.Bytes.{Bytes}
use picomx.Archive.MessagePath.{Message}
use picomx.Pop3.Auth.{authenticate}
use picomx.Pop3.Mailbox.{Mailbox, Server, Deleted, mark}
use picomx.Pop3.Session.{Session, new_session, mark_message, step, stat_count}
use picomx.Pop3.Session.Change.{
  Change, same, named, refused, locked_out, opened, marked, reset, committed, step-Change,
}
use picomx.Pop3.Session.Marks.{
  numbers, Distinct, InRange, mark-Distinct, mark-InRange, length-le-count,
}

module _ (box : Mailbox) (server : Server) where
  open box use {Store, Snapshot, count, lookup}

  -- An ID that was looked up in a snapshot under its number.
  abbrev pub WasFound : Snapshot → ℕ × ℕ → Type 0
  WasFound snapshot e =
      (st : Store) × (m : Message) × (lookup st snapshot e.0 ≡ some m) × (e.1 ≡ m.id)

  pub record IsValid (s : Session box) : Type 0 where
    pub anonymous : s.authenticated ≡ false → s.deleted ≡ []
    pub known :
        s.authenticated ≡ true
        → (password : Bytes) × (authenticate server.sha256 server.credentials s.username password
            ≡ true)
    pub distinct : Distinct (numbers s.deleted)
    pub in_range : InRange (count s.snapshot) (numbers s.deleted)
    pub looked_up : All (WasFound s.snapshot) s.deleted
    pub tries_left : s.auth_failures < server.max_auth_failures

  -- The sessions that a connection gets to: others may change the store between two rounds.
  pub data Reaches : Session box → Type 0 where
    start : Reaches (new_session box)
    next :
        {s : Session box} (st : Store) (sent : Bool) (raw : Bytes)
        → Reaches s
        → (step box server s st sent raw).is_open ≡ true
        → Reaches (step box server s st sent raw).session

  new-IsValid : 0 < server.max_auth_failures → IsValid (new_session box)
  unfolding new_session numbers
  new-IsValid h = record {
    anonymous = λ e. refl;
    known = λ e. cc;
    distinct = tt;
    in_range = tt;
    looked_up = tt;
    tries_left = h;
  }

  mark-WasFound :
      (st : Store) (snapshot : Snapshot) (d : Deleted) (n : ℕ) (m : Message)
      → lookup st snapshot n ≡ some m
      → All (WasFound snapshot) d
      → All (WasFound snapshot) (mark d n m.id)
  unfolding mark
  mark-WasFound st snapshot [] n m h a = ((st, m, h, refl), tt)
  mark-WasFound st snapshot ((j, old) ∷ d) n m h (aj, a) = elim (Bool-cases (j == n)) [
    | inl e ↦ rw e ((st, m, h, refl), a)
    | inr e ↦ rw e (aj, mark-WasFound st snapshot d n m h a)
  ]

  Change-IsValid :
      {E : Type 0} {s : Session box} {st : Store} {s' : Session box} {st' : Store} {go : Bool}
      → Change box server E s st s' st' go
      → go ≡ true
      → IsValid s
      → IsValid s'
  unfolding numbers mark_message
  Change-IsValid same g v = v
  Change-IsValid (named name h) g v = record {
    anonymous = v.anonymous;
    known = λ e. cc;
    distinct = v.distinct;
    in_range = v.in_range;
    looked_up = v.looked_up;
    tries_left = v.tries_left;
  }
  Change-IsValid (refused h k) g v = record {
    anonymous = v.anonymous;
    known = λ e. cc;
    distinct = v.distinct;
    in_range = v.in_range;
    looked_up = v.looked_up;
    tries_left = k;
  }
  Change-IsValid (locked_out h k) g v = cc
  Change-IsValid {s = s} (opened password h k) g v =
      let nothing : s.deleted ≡ [] = v.anonymous h in
      record {
        anonymous = λ e. cc;
        known = λ e. (password, k);
        distinct = v.distinct;
        in_range = rw nothing tt;
        looked_up = rw nothing tt;
        tries_left = v.tries_left;
      }
  Change-IsValid {s = s} {st = st} (marked n m h p q live found) g v = record {
    anonymous = λ e. cc;
    known = v.known;
    distinct = mark-Distinct s.deleted n m.id v.distinct;
    in_range = mark-InRange (count s.snapshot) s.deleted n m.id p q v.in_range;
    looked_up = mark-WasFound st s.snapshot s.deleted n m found v.looked_up;
    tries_left = v.tries_left;
  }
  Change-IsValid (reset h) g v = record {
    anonymous = λ e. refl;
    known = v.known;
    distinct = tt;
    in_range = tt;
    looked_up = tt;
    tries_left = v.tries_left;
  }
  Change-IsValid (committed q h k) g v = v

  -- If the limit of failed passwords is above 0, every session that a connection reaches has no
  -- marks before it is authenticated; is authenticated only by a password that the credentials
  -- accept; has marks of distinct numbers of the maildrop, with IDs that were looked up under them;
  -- and has failed fewer passwords than the limit.
  pub Reaches-IsValid : {s : Session box} → 0 < server.max_auth_failures → Reaches s → IsValid s
  Reaches-IsValid h start = new-IsValid h
  Reaches-IsValid h (next {s = s} st sent raw r go) =
      Change-IsValid (step-Change box server s st sent raw) go (Reaches-IsValid h r)

  length-numbers : (d : Deleted) → length (numbers d) ≡ length d
  unfolding numbers
  length-numbers [] = refl
  length-numbers ((n, id) ∷ d) = ap suc (length-numbers d)

  -- If the limit of failed passwords is above 0 and the maildrop has fewer than 2 ^ 64 messages, then
  -- in every session that a connection reaches, the number of messages that STAT reports and the
  -- number of marked messages add up to the size of the maildrop: the subtraction does not wrap.
  pub Reaches-stat_count :
      {s : Session box}
      → 0 < server.max_auth_failures
      → Reaches s
      → count s.snapshot < 2 ^ 64
      → stat_count box s + length s.deleted ≡ count s.snapshot
  unfolding stat_count
  Reaches-stat_count {s} h r small =
      let v = Reaches-IsValid h r in
      omega (
        arith,
        length-numbers s.deleted,
        length-le-count (count s.snapshot) (numbers s.deleted) v.distinct v.in_range,
      )
