-- ===== src/Pop3/Session/Change.antt =====
-- How one round of the loop changes the variables of a session.
use picomx.Prelude.{
  ℕ, ◌+◌, ◌≤◌, ◌<◌, ◌≡◌, refl, inl, inr, Bool, true, false, ◌&&◌, ◌||◌, not, Option, none, some, [],
  arith, ltb, leb, if◌then◌else◌, Bool-cases, >>=-eq-some, length,
}
use picomx.Text.Number.{parse_uint, max_uint64}
use picomx.Text.Bytes.{Bytes, bytes_eq}
use picomx.Archive.MessagePath.{Message}
use picomx.Text.Unicode.{trim_space}
use picomx.Pop3.Stream.{Source}
use picomx.Pop3.Auth.{authenticate}
use picomx.Pop3.Mailbox.{Mailbox, Server, is_deleted, permanent_ids}
use picomx.Pop3.Command.{
  Verb, capa, user, pass, stat, list, uidl, retr, top, dele, rset, noop, quit, unknown, Line,
  too_long, broken, text, verb_of, split_command, read_command, message_id, in_range,
}
use picomx.Pop3.Session.{
  Session, Outcome, reply, hang_up, handle_capa, handle_user, refuse_pass, handle_pass, handle_stat,
  live_number, handle_listing, mark_message, reply_one, reply_row, retr_source, retr_message,
  retr_number, top_source, top_number, open_number, live_top, dele_message, dele_number, list_row,
  uidl_row, handle_retr, handle_top, handle_dele, handle_rset, handle_noop, handle_quit, quit_reply,
  dispatch, on_line, step,
}

module _ (box : Mailbox) (server : Server) where
  open box use {Store, count, take_snapshot, lookup, open_message, delete_as}

  -- How one command changes a session: the variables and the store behind it, and whether the
  -- connection goes on. Only a command of which E holds may commit.
  pub data Change (E : Type 0) (s : Session box) (st : Store)
      : Session box → Store → Bool → Type 0 where
    same : {go : Bool} → Change E s st s st go
    named :
        (name : Bytes)
        → s.authenticated ≡ false
        → Change E s st (record s { username = name }) st true
    refused :
        s.authenticated ≡ false
        → s.auth_failures + 1 < server.max_auth_failures
        → Change E s st (record s { auth_failures = s.auth_failures + 1; username = [] }) st true
    locked_out :
        s.authenticated ≡ false
        → server.max_auth_failures ≤ s.auth_failures + 1
        → Change E s st (record s { auth_failures = s.auth_failures + 1; username = [] }) st false
    opened :
        (password : Bytes)
        → s.authenticated ≡ false
        → authenticate server.sha256 server.credentials s.username password ≡ true
        → Change E s st (record s { authenticated = true; snapshot = take_snapshot st }) st true
    marked :
        (n : ℕ) (m : Message)
        → s.authenticated ≡ true
        → 0 < n
        → n ≤ count s.snapshot
        → is_deleted s.deleted n ≡ false
        → lookup st s.snapshot n ≡ some m
        → Change E s st (mark_message box s n m) st true
    reset :
        s.authenticated ≡ true
        → Change E s st (record s { deleted = []; deleted_octets = 0 }) st true
    committed :
        E
        → s.authenticated ≡ true
        → 0 < length s.deleted
        → Change E s st s (delete_as st (permanent_ids s.deleted) s.username).0 false

  abbrev pub Does : Type 0 → Session box → Store → Outcome box → Type 0
  Does E s st o = Change E s st o.session o.store o.is_open

  -- The line is the command QUIT.
  abbrev pub IsQuit : Bytes → Type 0
  IsQuit raw =
      (line : Bytes) × (read_command raw ≡ text line)
      × (verb_of (split_command server.unicode line).0 ≡ quit)

  message_id_range :
      (argument : Bytes) (last n : ℕ)
      → message_id server.unicode argument last ≡ some n
      → (0 < n) × (n ≤ last)
  unfolding message_id
  message_id_range argument last n h =
      let (id, _, k) =
        >>=-eq-some (parse_uint 10 max_uint64 (trim_space server.unicode argument)) (in_range last)
          h in
      in_range_sound id k
    where
      in_range_sound : (id : ℕ) → in_range last id ≡ some n → (0 < n) × (n ≤ last)
      in_range_sound id h = ground arith

  live_number_sound :
      (s : Session box) (argument : Bytes) (n : ℕ)
      → live_number box server s argument ≡ some n
      → (0 < n) × (n ≤ count s.snapshot) × (is_deleted s.deleted n ≡ false)
  unfolding live_number
  live_number_sound s argument n h =
      let (k, e, l) =
        >>=-eq-some (message_id server.unicode argument (count s.snapshot))
          (λ n. if is_deleted s.deleted n then none else some n) h in
      let (live, same_number) = unmarked (is_deleted s.deleted k) k l in
      let (pos, le) = message_id_range argument (count s.snapshot) k e in
      (rw (← same_number) pos, rw (← same_number) le, rw (← same_number) live)
    where
      unmarked : (b : Bool) (k : ℕ) → (if b then none else some k) ≡ some n → (b ≡ false) × (k ≡ n)
      unmarked b k h = ground arith

  module _ (E : Type 0) (s : Session box) (st : Store) where
    if-Change :
        (b : Bool) (x y : Outcome box)
        → (b ≡ true → Does E s st x)
        → (b ≡ false → Does E s st y)
        → Does E s st (if b then x else y)
    if-Change true x y h k = h refl
    if-Change false x y h k = k refl

    capa-Change : (argument : Bytes) → Does E s st (handle_capa box s st argument)
    unfolding handle_capa
    capa-Change argument = if-Change _ _ _ (λ _. same) (λ _. same)

    user-Change : (argument : Bytes) → Does E s st (handle_user box server s st argument)
    unfolding handle_user
    user-Change argument =
        if-Change _ _ _ (λ _. same) (λ e. named (trim_space server.unicode argument) (ground arith))

    refuse-Change : s.authenticated ≡ false → Does E s st (refuse_pass box server s st)
    unfolding refuse_pass
    refuse-Change h =
        if-Change (leb server.max_auth_failures (s.auth_failures + 1)) _ _
          (λ e. locked_out h (ground arith)) (λ e. refused h (ground arith))

    pass-Change : (argument : Bytes) → Does E s st (handle_pass box server s st argument)
    unfolding handle_pass
    pass-Change argument =
        if-Change (s.authenticated || (bytes_eq s.username [] || bytes_eq argument [])) _ _
          (λ _. same)
          (λ e.
            if-Change (authenticate server.sha256 server.credentials s.username argument) _ _
              (λ ok. opened argument (ground arith) ok) (λ _. refuse-Change (ground arith)))

    stat-Change : (argument : Bytes) → Does E s st (handle_stat box s st argument)
    unfolding handle_stat
    stat-Change argument = if-Change _ _ _ (λ _. same) (λ _. same)

    one-Change : (row : ℕ → ℕ → ℕ → Bytes) (o : Option ℕ) → Does E s st (reply_one box s st row o)
    unfolding reply_one
    one-Change row none = same
    one-Change row (some n) = found (lookup st s.snapshot n)
      where
        found : (o : Option Message) → Does E s st (reply_row box s st row n o)
        found none = same
        found (some m) = same

    listing-Change :
        (sent : Bool) (argument : Bytes) (row : ℕ → ℕ → ℕ → Bytes)
        → Does E s st (handle_listing box server s st sent argument row)
    unfolding handle_listing
    listing-Change sent argument row = elim (Bool-cases (not s.authenticated)) [
      | inl e ↦ rw e same
      | inr e ↦ elim (Bool-cases (bytes_eq argument [])) [
        | inl f ↦ rw (e, f) same
        | inr f ↦ rw (e, f) (one-Change row (live_number box server s argument))
      ]
    ]

    retr_number-Change : (sent : Bool) (o : Option ℕ) → Does E s st (retr_number box s st sent o)
    unfolding retr_number
    retr_number-Change sent none = same
    retr_number-Change sent (some n) = found (lookup st s.snapshot n)
      where
        opens : (size : ℕ) (o : Option Source) → Does E s st (retr_source box s st sent size o)
        opens size none = same
        opens size (some source) = same

        found : (o : Option Message) → Does E s st (retr_message box s st sent o)
        found none = same
        found (some m) = opens m.size (open_message st s.snapshot m)

    retr-Change :
        (sent : Bool) (argument : Bytes) → Does E s st (handle_retr box server s st sent argument)
    unfolding handle_retr
    retr-Change sent argument =
        if-Change _ _ _ (λ _. same)
          (λ _. retr_number-Change sent (live_number box server s argument))

    top_number-Change :
        (sent : Bool) (o : Option (ℕ × ℕ)) → Does E s st (top_number box s st sent o)
    unfolding top_number
    top_number-Change sent none = same
    top_number-Change sent (some (n, k)) = opens (open_number box s st n)
      where
        opens : (o : Option Source) → Does E s st (top_source box s st sent k o)
        opens none = same
        opens (some source) = same

    top-Change :
        (sent : Bool) (argument : Bytes) → Does E s st (handle_top box server s st sent argument)
    unfolding handle_top
    top-Change sent argument =
        if-Change _ _ _ (λ _. same) (λ _. top_number-Change sent (live_top box server s argument))

    dele_number-Change :
        (o : Option ℕ)
        → s.authenticated ≡ true
        → ((n : ℕ)
            → o ≡ some n
            → (0 < n) × (n ≤ count s.snapshot) × (is_deleted s.deleted n ≡ false))
        → Does E s st (dele_number box s st o)
    unfolding dele_number
    dele_number-Change none h live = same
    dele_number-Change (some n) h live = found (lookup st s.snapshot n) refl
      where
        found :
            (o : Option Message)
            → lookup st s.snapshot n ≡ o
            → Does E s st (dele_message box s st n o)
        found none e = same
        found (some m) e = marked n m h (live n refl).0 (live n refl).1 (live n refl).2 e

    dele-Change : (argument : Bytes) → Does E s st (handle_dele box server s st argument)
    unfolding handle_dele
    dele-Change argument =
        if-Change (not s.authenticated) _ _ (λ _. same)
          (λ e.
            dele_number-Change (live_number box server s argument) (ground arith)
              (live_number_sound s argument))

    rset-Change : (argument : Bytes) → Does E s st (handle_rset box s st argument)
    unfolding handle_rset
    rset-Change argument =
        if-Change (not s.authenticated || not (bytes_eq argument [])) _ _ (λ _. same)
          (λ e. reset (ground arith))

    noop-Change : (argument : Bytes) → Does E s st (handle_noop box s st argument)
    unfolding handle_noop
    noop-Change argument = if-Change _ _ _ (λ _. same) (λ _. same)

    quit_reply-Change :
        (r : Store × Bool) → Change E s st s r.0 false → Does E s st (quit_reply box s r)
    unfolding quit_reply
    quit_reply-Change (st', true) c = c
    quit_reply-Change (st', false) c = c

    quit-Change : (argument : Bytes) → E → Does E s st (handle_quit box s st argument)
    unfolding handle_quit
    quit-Change argument quits = elim (Bool-cases (not (bytes_eq argument []))) [
      | inl e ↦ rw e same
      | inr e ↦ elim (Bool-cases (s.authenticated && ltb 0 (length s.deleted))) [
        | inl f ↦
            rw (e, f)
              (quit_reply-Change (delete_as st (permanent_ids s.deleted) s.username)
                (committed quits (ground arith) (ground arith)))
        | inr f ↦ rw (e, f) same
      ]
    ]

    dispatch-Change :
        (sent : Bool) (v : Verb) (argument : Bytes)
        → (v ≡ quit → E)
        → Does E s st (dispatch box server s st sent v argument)
    unfolding dispatch reply
    dispatch-Change sent capa argument is_quit = capa-Change argument
    dispatch-Change sent user argument is_quit = user-Change argument
    dispatch-Change sent pass argument is_quit = pass-Change argument
    dispatch-Change sent stat argument is_quit = stat-Change argument
    dispatch-Change sent list argument is_quit = listing-Change sent argument (list_row box)
    dispatch-Change sent uidl argument is_quit = listing-Change sent argument (uidl_row box)
    dispatch-Change sent retr argument is_quit = retr-Change sent argument
    dispatch-Change sent top argument is_quit = top-Change sent argument
    dispatch-Change sent dele argument is_quit = dele-Change argument
    dispatch-Change sent rset argument is_quit = rset-Change argument
    dispatch-Change sent noop argument is_quit = noop-Change argument
    dispatch-Change sent quit argument is_quit = quit-Change argument (is_quit refl)
    dispatch-Change sent unknown argument is_quit = same

  -- Every round of the loop changes the variables of the session in one of these ways, and only the
  -- line QUIT commits.
  pub step-Change :
      (s : Session box) (st : Store) (sent : Bool) (raw : Bytes)
      → Does (IsQuit raw) s st (step box server s st sent raw)
  unfolding step hang_up
  step-Change s st sent raw = of_line (read_command raw) refl
    where
      of_line :
          (l : Line)
          → read_command raw ≡ l
          → Does (IsQuit raw) s st (on_line box server s st sent l)
      of_line too_long e = same
      of_line broken e = same
      of_line (text line) e =
          let (command, argument) = split_command server.unicode line in
          dispatch-Change (IsQuit raw) s st sent (verb_of command) argument (λ v. (line, e, v))
