-- ===== src/Archive/Mailbox/Open.antt =====
-- internal/archive/mailbox.go: OpenMessage checks a message and leases a reader of its content.
use picomx.Prelude.{
  ◌≡◌, refl, ap, ◌∙◌, Bool, true, false, ◌&&◌, not, none, some, ◌∷◌, ◌++◌, ltb, ◌==◌, if◌then◌else◌,
  ==_iff, length,
}
use picomx.Text.Bytes.{Bytes, bytes_eq, codes}
use picomx.Text.Unicode.{Unicode, is_space}
use picomx.Archive.Errors.{Error, Result, ok, err}
use picomx.Archive.MessagePath.{Message, message_from_path}
use picomx.Archive.Reader.{CatFile, ReadState, BlobReader, read_blob, close_blob, line_breaks}
use picomx.Archive.Reader.Framing.{header_of}
use picomx.Archive.Reader.Lease.{opened}
use picomx.Archive.Reader.Rounds.{IsIdle, IsKind, Answers, leased, read_object-opened}
use picomx.Archive.Mailbox.{Snapshot}

unfoldable pub same_message : Message → Message → Bool
unfolding bytes_eq
same_message m n = (m.id == n.id && m.size == n.size) && bytes_eq m.path n.path

-- The first test: the message is the one of its path, and its ID was allocated.
unfoldable pub is_listed : Snapshot → Message → Bool
unfolding same_message
is_listed snapshot m = elim (message_from_path m.path) [
  | none ↦ false
  | some parsed ↦ same_message parsed m && not (ltb snapshot.last_id m.id)
]

-- The size of the object is a number of 63 bits, so no greater size of a message is equal to it.
unfoldable pub check_size : Message → ReadState × Result BlobReader → ReadState × Result BlobReader
unfolding close_blob
check_size m (s, err e) = (s, err e)
check_size m (s, ok r) = if r.remaining == m.size then (s, ok r) else elim s.reader [
  | none ↦ (s, err Error.size_mismatch)
  | some output ↦ ((close_blob output r s).0, err Error.size_mismatch)
]

unfoldable pub open_message :
    Unicode → CatFile → Snapshot → Message → ReadState → ReadState × Result BlobReader
unfolding is_listed check_size read_blob
open_message u cat snapshot m s =
    if is_listed snapshot m
    then check_size m (read_blob u cat snapshot.commit m.path s)
    else (s, err Error.no_such_message)

blob-IsKind : IsKind (codes "blob")
unfolding is_space
blob-IsKind = (((refl, refl), ((refl, refl), ((refl, refl), ((refl, refl), tt)))), λ e. cc)

check_size-opened :
    (m : Message) (oid content : Bytes)
    → length content ≡ m.size
    → check_size m
        (leased content, ok (opened (header_of oid (codes "blob") (length content)) content))
      ≡ (leased content, ok (opened (header_of oid (codes "blob") (length content)) content))
unfolding check_size
check_size-opened m oid content h = rw (check_size, (==_iff (length content) m.size).1 h) refl

pub open_message-opened :
    (u : Unicode) (cat : CatFile) (snapshot : Snapshot) (m : Message) (oid content : Bytes)
    (s : ReadState)
    → IsIdle cat s
    → is_listed snapshot m ≡ true
    → line_breaks (snapshot.commit ++ b':' ∷ m.path) ≡ false
    → Answers cat (snapshot.commit ++ b':' ∷ m.path) oid (codes "blob") content
    → length content ≡ m.size
    → open_message u cat snapshot m s
      ≡ (leased content, ok (opened (header_of oid (codes "blob") (length content)) content))
unfolding open_message read_blob
open_message-opened u cat snapshot m oid content s hs listed hb ha size =
    rw (open_message, listed)
      (ap (check_size m) (
          read_object-opened u cat (snapshot.commit ++ b':' ∷ m.path) oid (codes "blob") content s
            hs hb blob-IsKind ha)
        ∙ check_size-opened m oid content size)
