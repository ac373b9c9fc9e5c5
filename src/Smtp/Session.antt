-- ===== src/Smtp/Session.antt =====
-- internal/smtp/server.go: serveConn, one step for each command line that is read.
pub mod Effects
pub mod Invariant
use picomx.Prelude.{
  ℕ, zero, suc, ◌+◌, ◌-◌, ◌*◌, ◌/◌, ◌%◌, ◌^◌, ◌≤◌, ◌<◌, ◌≡◌, refl, sym, ap, ◌∙◌, subst, ◌≢◌, ◌↔◌,
  ◌⊎◌, inl, inr, Bool, true, false, ◌&&◌, ◌||◌, not, Option, none, some, List, [], ◌∷◌, ◌++◌, map,
  reverse, append_assoc, append-nil, arith, ltb, leb, ◌==◌, if◌then◌else◌, ltb→lt, lt→ltb, leb→le,
  le→leb, ==_iff, Bool-cases, Option-cases, ◌>>=◌, >>=-eq-some, some_inj, unless-eq-some, length,
  get_elem?, set, replicate, take, drop, all, any, length-append, length-map, All, All-append,
}
use picomx.Text.Bytes.{Bytes, codes, bytes_eq, trim_suffix}
use picomx.Text.Number.{format_uint}
use picomx.Text.Lines.{lf, cr, crlf, concat}
use picomx.Text.Unicode.{Unicode, trim_space}
use picomx.Smtp.Data.{
  DataError, message_too_large, data_line_too_long, unexpected_eof, DataRead, read_limited_line_raw,
  read_data,
}
use picomx.Smtp.Address.{
  cut_at, normalize_domain, parse_path, split_command, valid_helo, ParameterError, unsupported,
  invalid_size, too_large, validate_mail_parameters,
}
use picomx.Smtp.Policy.{
  ConnectionInfo, RecipientRequest, MessageMetadata, RecipientAction, recipient_reject_policy,
  recipient_reject_unknown, recipient_temp_fail, recipient_accept, recipient_other, MessageAction,
  message_temp_fail, message_reject_policy, message_accept, message_other, evaluate_recipient,
  evaluate_message, envelope_address, envelope_addresses,
}
use picomx.Smtp.Server.{
  Delivery, Server, StageError, from_reader, over_budget, stage_failed, serves, Transaction,
  no_transaction, delivery_headers, max_command_line_bytes,
}

pub data Verb : Type 0 where
  ehlo helo starttls mail rcpt data_verb rset noop quit unknown : Verb

-- The cases of the switch over the command.
unfoldable pub verb_of : Bytes → Verb
unfolding bytes_eq
verb_of c =
    if bytes_eq c (codes "EHLO")
    then ehlo
    else if bytes_eq c (codes "HELO")
    then helo
    else if bytes_eq c (codes "STARTTLS")
    then starttls
    else if bytes_eq c (codes "MAIL")
    then mail
    else if bytes_eq c (codes "RCPT")
    then rcpt
    else if bytes_eq c (codes "DATA")
    then data_verb
    else if bytes_eq c (codes "RSET")
    then rset
    else if bytes_eq c (codes "NOOP")
    then noop
    else if bytes_eq c (codes "QUIT")
    then quit
    else unknown

-- The variables of serveConn.
pub record Session : Type 0 where
  pub greeted : Bool
  pub helo_name : Bytes
  pub encrypted : Bool
  pub tx : Transaction

-- What surrounds one command: the texts of the peer's address and of the time, what net.ParseIP
-- says, whether replies that are tested can be written, what the TLS connection carries if its
-- handshake succeeds, and the number of the question to the policy.
pub record Surroundings : Type 0 where
  pub remote : Bytes
  pub is_ip : Bytes → Bool
  pub received_at : Bytes
  pub sent : Bool
  pub tls_lines : Option (List Bytes)
  pub question : ℕ

unfoldable pub new_session : Session
unfolding no_transaction
new_session = record { greeted = false; helo_name = []; encrypted = false; tx = no_transaction }

unfoldable pub connection_info : Surroundings → Session → ConnectionInfo
connection_info w s = record { remote_ip = w.remote; helo = s.helo_name; tls = s.encrypted }

unfoldable pub capabilities : Server → Session → Bytes
unfolding format_uint
capabilities server s =
    codes "250-"
    ++ (server.hostname
        ++ (crlf
            ++ (codes "250-SIZE "
                ++ (format_uint 10 server.max_message_size
                    ++ (crlf
                        ++ (if server.has_tls && not s.encrypted
                            then codes "250-8BITMIME" ++ (crlf ++ codes "250 STARTTLS")
                            else codes "250 8BITMIME"))))))

unfoldable pub greet : Session → Bytes → Session
unfolding no_transaction
greet s argument = record s { greeted = true; helo_name = argument; tx = no_transaction }

unfoldable pub recipient_request : Unicode → Surroundings → Session → Bytes → RecipientRequest
unfolding connection_info envelope_address
recipient_request u w s address = record {
  connection = connection_info w s;
  envelope_from = envelope_address u s.tx.from;
  recipient = envelope_address u address;
}

unfoldable pub recipient_domain : Unicode → Bytes → Bytes
unfolding normalize_domain cut_at
recipient_domain u address = normalize_domain u (cut_at b'@' address).1

-- The text that Stage reads: the headers of the delivery, and the chunks of the reader.
unfoldable pub message_text : Server → Surroundings → Session → DataRead → Bytes
unfolding delivery_headers concat
message_text server w s r =
    delivery_headers server w.remote s.helo_name s.encrypted s.tx w.received_at ++ concat r.chunks

-- The reply to an error of Stage. The connection ends, since it may be anywhere in the message.
unfoldable pub stage_reply : StageError → Bytes
stage_reply over_budget = codes "452 4.3.1 daily receiving budget exceeded"
stage_reply stage_failed = codes "451 4.3.0 temporary local failure"
stage_reply (from_reader message_too_large) = codes "552 5.3.4 message exceeds size limit"
stage_reply (from_reader data_line_too_long) = codes "550 5.6.0 DATA line exceeds limit"
stage_reply (from_reader unexpected_eof) = codes "451 4.3.0 temporary local failure"

module _ (delivery : Delivery) where
  open delivery use {Store, Staged, size, content, check_receive, stage, discard, publish}

  -- What a command does: the session and the store behind it, what is written, the lines that are
  -- left to read, and whether the connection goes on.
  pub record Outcome : Type 0 where
    pub session : Session
    pub store : Store
    pub output : Bytes
    pub unread : List Bytes
    pub is_open : Bool

  unfoldable pub reply : Session → Store → List Bytes → Bytes → Outcome
  reply s st ls line = record {
    session = s;
    store = st;
    output = line ++ crlf;
    unread = ls;
    is_open = true;
  }

  unfoldable pub hang_up : Session → Store → List Bytes → Bytes → Outcome
  hang_up s st ls line = record {
    session = s;
    store = st;
    output = line ++ crlf;
    unread = ls;
    is_open = false;
  }

  unfoldable pub handle_hello :
      Unicode → Server → Surroundings → Session → Store → List Bytes → Bool → Bytes → Outcome
  unfolding valid_helo reply greet capabilities
  handle_hello u server w s st ls extended argument =
      if not (valid_helo u w.is_ip argument)
      then reply s st ls (codes "501 5.5.2 invalid hostname")
      else reply (greet s argument) st ls
          (if extended then capabilities server s else codes "250 " ++ server.hostname)

  unfoldable pub handshake : Session → Store → List Bytes → Option (List Bytes) → Outcome
  unfolding new_session reply hang_up
  handshake s st ls none = hang_up s st ls (codes "220 2.0.0 ready to start TLS")
  handshake s st ls (some tls_lines) =
      reply (record new_session { encrypted = true }) st tls_lines
        (codes "220 2.0.0 ready to start TLS")

  -- The lines that were read ahead without TLS are dropped with their reader.
  unfoldable pub handle_starttls :
      Server → Surroundings → Session → Store → List Bytes → Bytes → Outcome
  unfolding bytes_eq reply hang_up handshake
  handle_starttls server w s st ls argument =
      if not (bytes_eq argument []) || not server.has_tls || s.encrypted
      then reply s st ls (codes "502 5.5.1 STARTTLS unavailable")
      else if not w.sent
      then hang_up s st ls (codes "220 2.0.0 ready to start TLS")
      else handshake s st ls w.tls_lines

  unfoldable pub begin_mail : Session → Store → List Bytes → Bytes → Option ParameterError → Outcome
  unfolding reply
  begin_mail s st ls address none =
      reply (record s { tx = record { started = true; from = address; recipients = [] } }) st ls
        (codes "250 2.1.0 sender accepted")
  begin_mail s st ls address (some too_large) =
      reply s st ls (codes "552 5.3.4 message exceeds fixed maximum size")
  begin_mail s st ls address (some unsupported) =
      reply s st ls (codes "501 5.5.4 invalid MAIL parameters")
  begin_mail s st ls address (some invalid_size) =
      reply s st ls (codes "501 5.5.4 invalid MAIL parameters")

  unfoldable pub mail_path :
      Unicode → Server → Session → Store → List Bytes → Option (Bytes × Bytes) → Outcome
  unfolding reply begin_mail validate_mail_parameters
  mail_path u server s st ls none = reply s st ls (codes "501 5.5.2 invalid reverse-path")
  mail_path u server s st ls (some (address, params)) =
      begin_mail s st ls address (validate_mail_parameters u server.max_message_size params)

  unfoldable pub handle_mail : Unicode → Server → Session → Store → List Bytes → Bytes → Outcome
  unfolding reply mail_path parse_path
  handle_mail u server s st ls argument =
      if not s.greeted
      then reply s st ls (codes "503 5.5.1 send HELO/EHLO first")
      else mail_path u server s st ls (parse_path u argument (codes "FROM:") true)

  unfoldable pub decide_recipient : Session → Store → List Bytes → Bytes → RecipientAction → Outcome
  unfolding reply
  decide_recipient s st ls address recipient_accept =
      reply (record s { tx = record s.tx { recipients = s.tx.recipients ++ address ∷ [] } }) st ls
        (codes "250 2.1.5 recipient accepted")
  decide_recipient s st ls address recipient_reject_unknown =
      reply s st ls (codes "550 5.1.1 recipient unknown")
  decide_recipient s st ls address recipient_temp_fail =
      reply s st ls (codes "451 4.7.1 recipient temporarily rejected")
  decide_recipient s st ls address recipient_reject_policy =
      reply s st ls (codes "550 5.7.1 recipient rejected by policy")
  decide_recipient s st ls address (recipient_other n) =
      reply s st ls (codes "550 5.7.1 recipient rejected by policy")

  unfoldable pub rcpt_path :
      Unicode
      → Server
      → Surroundings
      → Session
      → Store
      → List Bytes
      → Option (Bytes × Bytes)
      → Outcome
  unfolding reply bytes_eq trim_space serves recipient_domain decide_recipient evaluate_recipient
      recipient_request
  rcpt_path u server w s st ls none = reply s st ls (codes "501 5.5.2 invalid forward-path")
  rcpt_path u server w s st ls (some (address, params)) =
      if not (bytes_eq (trim_space u params) [])
      then reply s st ls (codes "501 5.5.2 invalid forward-path")
      else if not (serves server (recipient_domain u address))
      then reply s st ls (codes "550 5.1.1 recipient domain not served")
      else if leb server.max_recipients (length s.tx.recipients)
      then reply s st ls (codes "452 4.5.3 too many recipients")
      else decide_recipient s st ls address
          (evaluate_recipient server.policy w.question (recipient_request u w s address))

  unfoldable pub handle_rcpt :
      Unicode → Server → Surroundings → Session → Store → List Bytes → Bytes → Outcome
  unfolding reply rcpt_path parse_path
  handle_rcpt u server w s st ls argument =
      if not s.tx.started
      then reply s st ls (codes "503 5.5.1 send MAIL first")
      else rcpt_path u server w s st ls (parse_path u argument (codes "TO:") false)

  unfoldable pub published : Session → List Bytes → Staged → Store × (Bool ⊎ (ℕ × Bytes)) → Outcome
  unfolding reply hang_up no_transaction
  published s ls m (st, inl over) = hang_up s (discard st m) ls (
      if over
      then codes "452 4.3.1 daily receiving budget exceeded"
      else codes "451 4.3.0 temporary local failure")
  published s ls m (st, inr _) =
      reply (record s { tx = no_transaction }) st ls (codes "250 2.0.0 message accepted")

  unfoldable pub decide_message : Session → Store → List Bytes → Staged → MessageAction → Outcome
  unfolding reply published no_transaction
  decide_message s st ls m message_accept = published s ls m (publish st m)
  decide_message s st ls m message_reject_policy =
      reply (record s { tx = no_transaction }) (discard st m) ls
        (codes "550 5.7.1 message rejected by policy")
  decide_message s st ls m message_temp_fail =
      reply (record s { tx = no_transaction }) (discard st m) ls
        (codes "451 4.7.1 message temporarily rejected")
  decide_message s st ls m (message_other n) =
      reply (record s { tx = no_transaction }) (discard st m) ls
        (codes "451 4.7.1 message temporarily rejected")

  unfoldable pub message_metadata : Unicode → Surroundings → Session → Staged → MessageMetadata
  unfolding connection_info envelope_address envelope_addresses
  message_metadata u w s m = record {
    connection = connection_info w s;
    envelope_from = envelope_address u s.tx.from;
    recipients = envelope_addresses u s.tx.recipients;
    received_at = w.received_at;
    octets = size m;
  }

  unfoldable pub staged_message :
      Unicode
      → Server
      → Surroundings
      → Session
      → List Bytes
      → Store × (StageError ⊎ Staged)
      → Outcome
  unfolding hang_up stage_reply decide_message evaluate_message message_metadata
  staged_message u server w s ls (st, inl e) = hang_up s st ls (stage_reply e)
  staged_message u server w s ls (st, inr m) =
      decide_message s st ls m
        (evaluate_message server.policy w.question (message_metadata u w s m) (content m))

  unfoldable pub receive_message :
      Unicode → Server → Surroundings → Session → Store → DataRead → Outcome
  unfolding staged_message message_text
  receive_message u server w s st r =
      staged_message u server w s r.unread (stage st (message_text server w s r) r.error)

  unfoldable pub handle_data :
      Unicode → Server → Surroundings → Session → Store → List Bytes → Bytes → Outcome
  unfolding reply hang_up receive_message read_data bytes_eq
  handle_data u server w s st ls argument =
      if not (bytes_eq argument []) || length s.tx.recipients == 0
      then reply s st ls (codes "503 5.5.1 valid MAIL and RCPT required")
      else if not (check_receive st)
      then reply s st ls (codes "452 4.3.1 receiving budget or storage temporarily unavailable")
      else if not w.sent
      then hang_up s st ls (codes "354 end with <CRLF>.<CRLF>")
      else (let out = receive_message u server w s st (read_data server.max_message_size 0 ls) in
          record out { output = codes "354 end with <CRLF>.<CRLF>" ++ (crlf ++ out.output) })

  unfoldable pub dispatch :
      Unicode → Server → Surroundings → Session → Store → List Bytes → Verb → Bytes → Outcome
  unfolding reply hang_up handle_hello handle_starttls handle_mail handle_rcpt handle_data
      no_transaction
  dispatch u server w s st ls ehlo argument = handle_hello u server w s st ls true argument
  dispatch u server w s st ls helo argument = handle_hello u server w s st ls false argument
  dispatch u server w s st ls starttls argument = handle_starttls server w s st ls argument
  dispatch u server w s st ls mail argument = handle_mail u server s st ls argument
  dispatch u server w s st ls rcpt argument = handle_rcpt u server w s st ls argument
  dispatch u server w s st ls data_verb argument = handle_data u server w s st ls argument
  dispatch u server w s st ls rset argument =
      reply (record s { tx = no_transaction }) st ls (codes "250 2.0.0 reset")
  dispatch u server w s st ls noop argument = reply s st ls (codes "250 2.0.0 ok")
  dispatch u server w s st ls quit argument = hang_up s st ls (codes "221 2.0.0 bye")
  dispatch u server w s st ls unknown argument =
      reply s st ls (codes "502 5.5.1 command not implemented")

  unfoldable pub run_command :
      Unicode → Server → Surroundings → Session → Store → List Bytes → Bytes × Bytes → Outcome
  unfolding dispatch verb_of
  run_command u server w s st ls (command, argument) =
      dispatch u server w s st ls (verb_of command) argument

  -- readLimitedLine, and what serveConn does with its error or with the line.
  unfoldable pub on_line :
      Unicode
      → Server
      → Surroundings
      → Session
      → Store
      → List Bytes
      → Bytes
      → Option DataError
      → Outcome
  unfolding hang_up run_command split_command trim_suffix
  on_line u server w s st ls raw none =
      run_command u server w s st ls
        (split_command u (trim_suffix (trim_suffix raw (lf ∷ [])) (cr ∷ [])))
  on_line u server w s st ls raw (some data_line_too_long) =
      hang_up s st ls (codes "500 5.5.2 command line too long")
  on_line u server w s st ls raw (some _) = record {
    session = s;
    store = st;
    output = [];
    unread = ls;
    is_open = false;
  }

  -- One round of the loop: the next line of the connection, with the lines behind it.
  unfoldable pub step :
      Unicode → Server → Surroundings → Session → Store → List Bytes → Bytes → Outcome
  unfolding on_line read_limited_line_raw
  step u server w s st ls raw =
      on_line u server w s st ls raw (read_limited_line_raw max_command_line_bytes raw)
