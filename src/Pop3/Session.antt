-- ===== src/Pop3/Session.antt =====
-- internal/pop3/server.go: serveConn, one step for each command line that is read.
pub mod Change
pub mod Marks
pub mod Invariant
pub mod Effects
use picomx.Prelude.{
  ℕ, zero, suc, ◌+◌, ◌-◌, ◌*◌, ◌/◌, ◌%◌, ◌^◌, ◌≤◌, ◌<◌, ◌≡◌, refl, sym, ap, ◌∙◌, subst, ◌≢◌, ◌↔◌,
  ◌⊎◌, inl, inr, Bool, true, false, ◌&&◌, ◌||◌, not, Option, none, some, List, [], ◌∷◌, ◌++◌, map,
  reverse, append_assoc, append-nil, arith, ltb, leb, ◌==◌, if◌then◌else◌, ltb→lt, lt→ltb, leb→le,
  le→leb, ==_iff, Bool-cases, Option-cases, ◌>>=◌, >>=-eq-some, some_inj, length, get_elem?, set,
  replicate, take, drop, all, any, length-append, length-map, All, All-append,
}
use picomx.Text.Bytes.{Bytes, codes, bytes_eq}
use picomx.Text.Lines.{crlf, dot_line}
use picomx.Text.Unicode.{Unicode, trim_space}
use picomx.Archive.MessagePath.{Message}
use picomx.Pop3.Stream.{Source, stream_message}
use picomx.Pop3.Mailbox.{Mailbox, Server, Deleted, permanent_id, mark, is_deleted, permanent_ids}
use picomx.Pop3.Auth.{Credentials, authenticate}
use picomx.Pop3.Command.{
  Verb, capa, user, pass, stat, list, uidl, retr, top, dele, rset, noop, quit, unknown, Line,
  too_long, broken, text, verb_of, read_command, split_command, message_id, top_arguments,
  unique_id, decimal,
}

module _ (box : Mailbox) where
  open box use {
    Store, Snapshot, no_snapshot, count, total_octets, take_snapshot, list_at, lookup, open_message,
    delete_as,
  }

  -- The variables of serveConn.
  pub record Session : Type 0 where
    pub username : Bytes
    pub authenticated : Bool
    pub snapshot : Snapshot
    pub deleted : Deleted
    pub deleted_octets : ℕ  -- uint64
    pub auth_failures : ℕ

  -- What a command does: the session and the store behind it, what is written, and whether the
  -- connection goes on.
  pub record Outcome : Type 0 where
    pub session : Session
    pub store : Store
    pub output : Bytes
    pub is_open : Bool

  unfoldable pub new_session : Session
  new_session = record {
    username = [];
    authenticated = false;
    snapshot = no_snapshot;
    deleted = [];
    deleted_octets = 0;
    auth_failures = 0;
  }

  unfoldable pub reply : Session → Store → Bytes → Outcome
  reply s st line = record { session = s; store = st; output = line ++ crlf; is_open = true }

  unfoldable pub hang_up : Session → Store → Bytes → Outcome
  hang_up s st line = record { session = s; store = st; output = line ++ crlf; is_open = false }

  -- A reply of several lines, whose caller leaves if it cannot be written. `sent` says that the
  -- connection takes it.
  unfoldable pub stream : Session → Store → Bool → Bytes → Bool → Outcome
  stream s st sent out complete = record {
    session = s;
    store = st;
    output = out;
    is_open = sent && complete;
  }

  unfoldable pub handle_capa : Session → Store → Bytes → Outcome
  unfolding reply
  handle_capa s st argument =
      if bytes_eq argument []
      then reply s st (
          codes "+OK Capability list follows"
          ++ crlf
          ++ (codes "USER"
              ++ crlf
              ++ (codes "UIDL"
                  ++ crlf
                  ++ (codes "TOP"
                      ++ crlf
                      ++ (codes "IMPLEMENTATION picomx" ++ crlf ++ codes ".")))))
      else reply s st (codes "-ERR invalid arguments")

  unfoldable pub handle_user : Server → Session → Store → Bytes → Outcome
  unfolding reply
  handle_user server s st argument =
      let name = trim_space server.unicode argument in
      if s.authenticated || bytes_eq name []
      then reply s st (codes "-ERR command not valid now")
      else reply (record s { username = name }) st (codes "+OK send PASS")

  -- A failed PASS counts, forgets the user name, and ends the connection at the limit.
  unfoldable pub refuse_pass : Server → Session → Store → Outcome
  unfolding reply hang_up
  refuse_pass server s st =
      let s' = record s { auth_failures = s.auth_failures + 1; username = [] } in
      if leb server.max_auth_failures s'.auth_failures
      then hang_up s' st (codes "-ERR authentication failed")
      else reply s' st (codes "-ERR authentication failed")

  unfoldable pub handle_pass : Server → Session → Store → Bytes → Outcome
  unfolding reply refuse_pass
  handle_pass server s st argument =
      if s.authenticated || (bytes_eq s.username [] || bytes_eq argument [])
      then reply s st (codes "-ERR command not valid now")
      else if authenticate server.sha256 server.credentials s.username argument
      then (let snapshot = take_snapshot st in
          reply (record s { authenticated = true; snapshot = snapshot }) st
            (codes "+OK maildrop ready with " ++ (decimal (count snapshot) ++ codes " messages")))
      else refuse_pass server s st

  -- The subtractions of STAT are on uint64.
  unfoldable pub stat_count : Session → ℕ
  stat_count s = (count s.snapshot + 2 ^ 64 - length s.deleted) % 2 ^ 64

  unfoldable pub stat_octets : Session → ℕ
  stat_octets s = (total_octets s.snapshot + 2 ^ 64 - s.deleted_octets) % 2 ^ 64

  unfoldable pub handle_stat : Session → Store → Bytes → Outcome
  unfolding reply
  handle_stat s st argument =
      if not s.authenticated || not (bytes_eq argument [])
      then reply s st (codes "-ERR command not valid now")
      else reply s st
          (codes "+OK " ++ (decimal (stat_count s) ++ (codes " " ++ decimal (stat_octets s))))

  -- The number in an argument, if it is of the maildrop and not marked.
  unfoldable pub live_number : Server → Session → Bytes → Option ℕ
  live_number server s argument = message_id server.unicode argument (count s.snapshot) >>= λ n.
      if is_deleted s.deleted n then none else some n

  unfoldable pub rows : Deleted → (ℕ → ℕ → ℕ → Bytes) → List (ℕ × ℕ × ℕ) → Bytes
  unfolding is_deleted
  rows d row [] = []
  rows d row ((number, id, size) ∷ rest) =
      if is_deleted d number
      then rows d row rest
      else row number id size ++ (crlf ++ rows d row rest)

  -- writeListing over ListAt.
  unfoldable pub write_listing : Session → Store → Bool → (ℕ → ℕ → ℕ → Bytes) → Outcome
  unfolding stream rows
  write_listing s st sent row =
      let (visited, complete) = list_at st s.snapshot in
      let head = codes "+OK listing follows" ++ (crlf ++ rows s.deleted row visited) in
      stream s st sent (if complete then head ++ dot_line else head) complete

  unfoldable pub reply_row : Session → Store → (ℕ → ℕ → ℕ → Bytes) → ℕ → Option Message → Outcome
  unfolding reply
  reply_row s st row n none = reply s st (codes "-ERR unable to inspect message")
  reply_row s st row n (some m) = reply s st (codes "+OK " ++ row n m.id m.size)

  unfoldable pub reply_one : Session → Store → (ℕ → ℕ → ℕ → Bytes) → Option ℕ → Outcome
  unfolding reply reply_row
  reply_one s st row none = reply s st (codes "-ERR no such message")
  reply_one s st row (some n) = reply_row s st row n (lookup st s.snapshot n)

  -- LIST and UIDL: one message, or all that are not marked.
  unfoldable pub handle_listing :
      Server → Session → Store → Bool → Bytes → (ℕ → ℕ → ℕ → Bytes) → Outcome
  unfolding reply write_listing reply_one
  handle_listing server s st sent argument row =
      if not s.authenticated
      then reply s st (codes "-ERR authenticate first")
      else if bytes_eq argument []
      then write_listing s st sent row
      else reply_one s st row (live_number server s argument)

  unfoldable pub list_row : ℕ → ℕ → ℕ → Bytes
  list_row number id size = decimal number ++ (codes " " ++ decimal size)

  unfoldable pub uidl_row : ℕ → ℕ → ℕ → Bytes
  uidl_row number id size = decimal number ++ (codes " " ++ unique_id id)

  -- The part that RETR and TOP share: what streamMessage writes behind the greeting.
  unfoldable pub send_message : Session → Store → Bool → Source → Bytes → Option ℕ → Outcome
  unfolding stream
  send_message s st sent source greeting limit =
      let (out, complete) = stream_message source limit in
      stream s st sent (greeting ++ (crlf ++ out)) complete

  unfoldable pub retr_source : Session → Store → Bool → ℕ → Option Source → Outcome
  unfolding reply send_message
  retr_source s st sent size none = reply s st (codes "-ERR unable to open message")
  retr_source s st sent size (some source) =
      send_message s st sent source (codes "+OK " ++ (decimal size ++ codes " octets")) none

  unfoldable pub retr_message : Session → Store → Bool → Option Message → Outcome
  unfolding reply retr_source
  retr_message s st sent none = reply s st (codes "-ERR unable to inspect message")
  retr_message s st sent (some m) = retr_source s st sent m.size (open_message st s.snapshot m)

  unfoldable pub retr_number : Session → Store → Bool → Option ℕ → Outcome
  unfolding reply retr_message
  retr_number s st sent none = reply s st (codes "-ERR no such message")
  retr_number s st sent (some n) = retr_message s st sent (lookup st s.snapshot n)

  unfoldable pub handle_retr : Server → Session → Store → Bool → Bytes → Outcome
  unfolding reply retr_number
  handle_retr server s st sent argument =
      if not s.authenticated
      then reply s st (codes "-ERR authenticate first")
      else retr_number s st sent (live_number server s argument)

  -- openMessage.
  unfoldable pub open_number : Session → Store → ℕ → Option Source
  open_number s st n = lookup st s.snapshot n >>= λ m. open_message st s.snapshot m

  unfoldable pub live_top : Server → Session → Bytes → Option (ℕ × ℕ)
  live_top server s argument = top_arguments server.unicode argument (count s.snapshot) >>= λ t.
      if is_deleted s.deleted t.0 then none else some t

  unfoldable pub top_source : Session → Store → Bool → ℕ → Option Source → Outcome
  unfolding reply send_message
  top_source s st sent body_lines none = reply s st (codes "-ERR unable to open message")
  top_source s st sent body_lines (some source) =
      send_message s st sent source (codes "+OK top of message follows") (some body_lines)

  unfoldable pub top_number : Session → Store → Bool → Option (ℕ × ℕ) → Outcome
  unfolding reply top_source
  top_number s st sent none = reply s st (codes "-ERR invalid arguments")
  top_number s st sent (some (n, body_lines)) = top_source s st sent body_lines (open_number s st n)

  unfoldable pub handle_top : Server → Session → Store → Bool → Bytes → Outcome
  unfolding reply top_number
  handle_top server s st sent argument =
      if not s.authenticated
      then reply s st (codes "-ERR authenticate first")
      else top_number s st sent (live_top server s argument)

  unfoldable pub mark_message : Session → ℕ → Message → Session
  mark_message s n m = record s {
    deleted = mark s.deleted n m.id;
    deleted_octets = (s.deleted_octets + m.size) % 2 ^ 64;
  }

  unfoldable pub dele_message : Session → Store → ℕ → Option Message → Outcome
  unfolding reply
  dele_message s st n none = reply s st (codes "-ERR unable to inspect message")
  dele_message s st n (some m) =
      reply (mark_message s n m) st (codes "+OK message marked for deletion")

  unfoldable pub dele_number : Session → Store → Option ℕ → Outcome
  unfolding reply dele_message
  dele_number s st none = reply s st (codes "-ERR no such message")
  dele_number s st (some n) = dele_message s st n (lookup st s.snapshot n)

  unfoldable pub handle_dele : Server → Session → Store → Bytes → Outcome
  unfolding reply dele_number
  handle_dele server s st argument =
      if not s.authenticated
      then reply s st (codes "-ERR authenticate first")
      else dele_number s st (live_number server s argument)

  unfoldable pub handle_rset : Session → Store → Bytes → Outcome
  unfolding reply
  handle_rset s st argument =
      if not s.authenticated || not (bytes_eq argument [])
      then reply s st (codes "-ERR command not valid now")
      else reply (record s { deleted = []; deleted_octets = 0 }) st
          (codes "+OK no messages deleted")

  unfoldable pub handle_noop : Session → Store → Bytes → Outcome
  unfolding reply
  handle_noop s st argument =
      if not s.authenticated || not (bytes_eq argument [])
      then reply s st (codes "-ERR command not valid now")
      else reply s st (codes "+OK")

  unfoldable pub quit_reply : Session → Store × Bool → Outcome
  unfolding hang_up
  quit_reply s (st, true) = hang_up s st (codes "+OK bye")
  quit_reply s (st, false) = hang_up s st (codes "-ERR unable to commit deletions")

  -- Only here does a session change the store. The order of a Go map is not modelled: DeleteAs
  -- sorts what it is given.
  unfoldable pub handle_quit : Session → Store → Bytes → Outcome
  unfolding reply hang_up quit_reply
  handle_quit s st argument =
      if not (bytes_eq argument [])
      then reply s st (codes "-ERR invalid arguments")
      else if s.authenticated && ltb 0 (length s.deleted)
      then quit_reply s (delete_as st (permanent_ids s.deleted) s.username)
      else hang_up s st (codes "+OK bye")

  unfoldable pub dispatch : Server → Session → Store → Bool → Verb → Bytes → Outcome
  dispatch server s st sent capa argument = handle_capa s st argument
  dispatch server s st sent user argument = handle_user server s st argument
  dispatch server s st sent pass argument = handle_pass server s st argument
  dispatch server s st sent stat argument = handle_stat s st argument
  dispatch server s st sent list argument = handle_listing server s st sent argument list_row
  dispatch server s st sent uidl argument = handle_listing server s st sent argument uidl_row
  dispatch server s st sent retr argument = handle_retr server s st sent argument
  dispatch server s st sent top argument = handle_top server s st sent argument
  dispatch server s st sent dele argument = handle_dele server s st argument
  dispatch server s st sent rset argument = handle_rset s st argument
  dispatch server s st sent noop argument = handle_noop s st argument
  dispatch server s st sent quit argument = handle_quit s st argument
  dispatch server s st sent unknown argument = reply s st (codes "-ERR command not implemented")

  unfoldable pub on_line : Server → Session → Store → Bool → Line → Outcome
  on_line server s st sent too_long = hang_up s st (codes "-ERR command too long")
  on_line server s st sent broken = record { session = s; store = st; output = []; is_open = false }
  on_line server s st sent (text line) =
      let (command, argument) = split_command server.unicode line in
      dispatch server s st sent (verb_of command) argument

  -- One round of the loop: `raw` is what stands in the stream up to the next line feed or its end.
  unfoldable pub step : Server → Session → Store → Bool → Bytes → Outcome
  unfolding on_line
  step server s st sent raw = on_line server s st sent (read_command raw)
