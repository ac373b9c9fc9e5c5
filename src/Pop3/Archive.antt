-- ===== src/Pop3/Archive.antt =====
-- The archive as the mailbox of the POP3 server, as cmd/picomxd/main.go passes it. The interface of the
-- session has no place for the reader and the cache behind a lookup: each lookup here starts from the
-- ones of the store, and those it leaves are dropped.
use picomx.Prelude.{
  ℕ, ◌≡◌, refl, ap, ◌∙◌, Bool, true, false, Option, none, some, List, [], ◌∷◌, ◌++◌, arith, ltb,
  length, take, length-append,
}
use picomx.Text.Bytes.{Bytes, codes}
use picomx.Text.Unicode.{Unicode}
use picomx.Text.Lines.{crlf, lines}
use picomx.Archive.Errors.{Result, ok, err}
use picomx.Archive.MessagePath.{Message}
use picomx.Archive.Cache.{DirectoryCache}
use picomx.Archive.Reader.{CatFile, ReadState, BlobReader, line_breaks}
use picomx.Archive.Reader.Rounds.{leased}
use picomx.Archive.Reader.Lease.{opened}
use picomx.Archive.Reader.Framing.{header_of}
use picomx.Archive.Reader.Rounds.{Answers}
use picomx.Archive.Directories.Index.{DirectoryIndex}
use picomx.Archive.Tree.Source.{reading, IsGood}
use picomx.Archive.Mailbox.{Snapshot}
use picomx.Archive.Mailbox.Maildrop.{concat, nth_message, IsView}
use picomx.Archive.Mailbox.Lookup.{lookup-Refines}
use picomx.Archive.Mailbox.Open.{open_message, is_listed, open_message-opened}
use picomx.Archive.Store as Delivered
use picomx.Archive.Mailbox as Lookups
use picomx.Archive.Deletion as Deletions
use picomx.Pop3.Stream.{Source, stream_message}
use picomx.Pop3.Stream.Client.{receive, completed, receive-stream_message}
use picomx.Pop3.Command.{decimal}
use picomx.Pop3.Mailbox.{Mailbox}
use picomx.Pop3.Session.{Session, retr_number, retr_message, retr_source, send_message, stream}

-- The store of the archive, with its reader and its cache.
pub record Archived : Type 0 where
  pub store : Delivered.Store
  pub reader : ReadState × DirectoryCache

unfoldable pub found : Result Message → Option Message
found (ok m) = some m
found (err e) = none

unfoldable pub succeeded : Result (Unit {0}) → Bool
succeeded (ok _) = true
succeeded (err e) = false

-- The callback that keeps the rows.
abbrev pub keep_row : List (ℕ × ℕ × ℕ) → ℕ → ℕ → ℕ → List (ℕ × ℕ × ℕ) × Result (Unit {0})
keep_row rows number id size = (rows ++ (number, id, size) ∷ [], ok tt)

unfoldable pub listed :
    {S : Type 0} → (S × List (ℕ × ℕ × ℕ)) × Result (Unit {0}) → List (ℕ × ℕ × ℕ) × Bool
unfolding succeeded
listed ((s, rows), answer) = (rows, succeeded answer)

-- What reads of the lease give until the end of the object, or an error where the pipe ends before.
unfoldable pub source_of : ℕ → Bytes → Source
source_of remaining output = record {
  content = take remaining output;
  fails = ltb (length output) remaining;
}

unfoldable pub opened_source : ReadState × Result BlobReader → Option Source
unfolding source_of
opened_source (s, err e) = none
opened_source (s, ok r) = elim s.reader [
  | none ↦ none
  | some output ↦ some (source_of r.remaining output)
]

-- The mailbox of a session has no place for the rounds of DeleteAs: nobody else commits during it, so
-- that its first round is the last. With no result the store would be as before.
unfoldable pub deleted_store :
    {R : Type 0} → (R → Archived) → Archived → Option (R × Result (Unit {0})) → Archived × Bool
unfolding succeeded
deleted_store pack s none = (s, false)
deleted_store pack s (some (r, answer)) = (pack r, succeeded answer)

module _ (u : Unicode) (cat : CatFile) (schedule : ℕ → ℕ × ℕ) (a : Delivered.Answers) where
  abbrev pub archive_mailbox : Mailbox
  archive_mailbox = record {
    Store = Archived;
    Snapshot = Snapshot;
    no_snapshot = record {
      last_id = 0;
      total_octets = 0;
      message_count = 0;
      index = none;
      commit = [];
    };
    count = λ snapshot. snapshot.message_count;
    total_octets = λ snapshot. snapshot.total_octets;
    take_snapshot = λ s. Deletions.snapshot_locked s.store;
    list_at = λ s snapshot.
        listed (Lookups.list_at (reading u cat schedule) keep_row snapshot [] s.reader);
    lookup = λ s snapshot number.
        found (Lookups.lookup (reading u cat schedule) snapshot number s.reader).1;
    open_message = λ s snapshot m. opened_source (open_message u cat snapshot m s.reader.0);
    delete_as = λ s ids user.
        deleted_store (λ p. record { store = p.0; reader = p.1 }) s
          (Deletions.delete_as (reading u cat schedule) a ids (λ round st. st) 1 s.store s.reader);
  }

take_all : (x t : Bytes) → take (length x) (x ++ t) ≡ x
take_all [] t = refl
take_all (c ∷ x) t = ap (λ l. c ∷ l) (take_all x t)

long_enough : (x t : Bytes) → ltb (length (x ++ t)) (length x) ≡ false
long_enough x t = rw (length-append x t) (ground arith)

opened_source-leased :
    (oid content : Bytes)
    → opened_source
        (leased content, ok (opened (header_of oid (codes "blob") (length content)) content))
      ≡ some (record { content = content; fails = false })
unfolding opened_source source_of
opened_source-leased oid content =
    rw (opened_source, source_of, take_all content (10 ∷ []), long_enough content (10 ∷ [])) refl

module _ (u : Unicode) (cat : CatFile) (schedule : ℕ → ℕ × ℕ) (a : Delivered.Answers) where
  abbrev mailbox : Mailbox
  mailbox = archive_mailbox u cat schedule a

  lookup-mailbox :
      (snapshot : Snapshot) (index : DirectoryIndex) (mss : List (List Message)) (n : ℕ)
      (s : Archived) (m : Message)
      → IsView (reading u cat schedule) (IsGood u cat schedule) snapshot.commit snapshot index mss
      → IsGood u cat schedule s.reader
      → nth_message (concat mss) n ≡ ok m
      → found (Lookups.lookup (reading u cat schedule) snapshot n s.reader).1 ≡ some m
  unfolding found
  lookup-mailbox snapshot index mss n s m view good h = ap found (
      (lookup-Refines (reading u cat schedule) (IsGood u cat schedule) snapshot.commit snapshot
        index mss n s.reader view good).0
      ∙ h)

  open-mailbox :
      (snapshot : Snapshot) (m : Message) (oid content : Bytes) (s : Archived)
      → IsGood u cat schedule s.reader
      → is_listed snapshot m ≡ true
      → line_breaks (snapshot.commit ++ b':' ∷ m.path) ≡ false
      → Answers cat (snapshot.commit ++ b':' ∷ m.path) oid (codes "blob") content
      → length content ≡ m.size
      → opened_source (open_message u cat snapshot m s.reader.0)
        ≡ some (record { content = content; fails = false })
  open-mailbox snapshot m oid content s good listed' hb ha size =
      ap opened_source
        (open_message-opened u cat snapshot m oid content s.reader.0 good.0 listed' hb ha size)
      ∙ opened_source-leased oid content

  -- RETR of a number of the maildrop, where the archive's reader is idle and its directories are those of
  -- the maildrop, and cat-file has a listed message of that number with its size: the first line says the
  -- size, and out of the rest a client has the content and stops exactly at its end.
  pub retr-archive :
      (session : Session mailbox) (index : DirectoryIndex) (mss : List (List Message)) (n : ℕ)
      (s : Archived) (m : Message) (oid content rest : Bytes) (sent : Bool)
      → IsView
          (reading u cat schedule)
          (IsGood u cat schedule)
          session.snapshot.commit
          session.snapshot
          index
          mss
      → IsGood u cat schedule s.reader
      → nth_message (concat mss) n ≡ ok m
      → is_listed session.snapshot m ≡ true
      → line_breaks (session.snapshot.commit ++ b':' ∷ m.path) ≡ false
      → Answers cat (session.snapshot.commit ++ b':' ∷ m.path) oid (codes "blob") content
      → length content ≡ m.size
      → (out : Bytes) × ((retr_number mailbox session s sent (some n)).output
          ≡ codes "+OK " ++ (decimal m.size ++ codes " octets") ++ (crlf ++ out))
        × (receive (lines (out ++ rest)) ≡ some (completed content, lines rest))
  unfolding retr_number retr_message retr_source send_message stream
  retr-archive session index mss n s m oid content rest sent view good h listed' hb ha size = (
    (stream_message (record { content = content; fails = false }) none).0,
    rw
        (
          lookup-mailbox session.snapshot index mss n s m view good h,
          open-mailbox session.snapshot m oid content s good listed' hb ha size,
        )
        refl,
    receive-stream_message content rest,
  )
