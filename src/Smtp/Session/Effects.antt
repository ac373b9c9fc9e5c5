-- ===== src/Smtp/Session/Effects.antt =====
-- What a connection does to the store: DATA alone stages, discards and publishes.
use picomx.Prelude.{
  ℕ, ◌≡◌, refl, sym, subst, ◌≢◌, ◌⊎◌, inl, inr, Bool, true, false, ◌||◌, not, Option, none, some,
  List, [], ◌∷◌, leb, ◌==◌, if◌then◌else◌, length,
}
use picomx.Text.Bytes.{Bytes, codes, bytes_eq, trim_suffix}
use picomx.Text.Lines.{lf, cr}
use picomx.Smtp.Address.{split_command}
use picomx.Text.Unicode.{Unicode, trim_space}
use picomx.Smtp.Data.{DataError, data_line_too_long, message_too_large, unexpected_eof, read_data}
use picomx.Smtp.Address.{
  parse_path, valid_helo, ParameterError, too_large, unsupported, invalid_size,
}
use picomx.Smtp.Policy.{
  RecipientAction, recipient_reject_policy, recipient_reject_unknown, recipient_temp_fail,
  recipient_accept, recipient_other, MessageAction, message_temp_fail, message_reject_policy,
  message_accept, message_other, evaluate_message,
}
use picomx.Smtp.Server.{Delivery, Server, StageError, serves}
use picomx.Smtp.Session.{
  Verb, ehlo, helo, starttls, mail, rcpt, data_verb, rset, noop, quit, unknown, verb_of, Session,
  Surroundings, Outcome, reply, hang_up, handle_hello, handshake, handle_starttls, begin_mail,
  mail_path, handle_mail, decide_recipient, recipient_domain, rcpt_path, handle_rcpt, message_text,
  message_metadata, published, decide_message, staged_message, receive_message, handle_data,
  dispatch, run_command, on_line, step,
}

module _ (delivery : Delivery) (u : Unicode) (server : Server) where
  open delivery use {Store, Staged, content, check_receive, stage, discard, publish, stage-complete}

  -- The text that DATA stages: the headers for the sender and the recipients, and what the reader of
  -- the lines gave, up to its end.
  abbrev pub text_of : Surroundings → Session → List Bytes → Bytes
  text_of w s ls = message_text server w s (read_data server.max_message_size 0 ls)

  abbrev pub verdict : Surroundings → Session → Staged → MessageAction
  verdict w s m =
      evaluate_message server.policy w.question (message_metadata delivery u w s m) (content m)

  -- The line is the command DATA, and the transaction has a recipient.
  pub record IsData (s : Session) (raw : Bytes) : Type 0 where
    pub is_data :
        verb_of (split_command u (trim_suffix (trim_suffix raw (lf ∷ [])) (cr ∷ []))).0 ≡ data_verb
    pub has_recipient : s.tx.recipients ≢ []

  -- The lines after DATA were read up to the line with the dot, within the limits, and staged.
  pub record IsStaged (w : Surroundings) (s : Session) (ls : List Bytes) (raw : Bytes)
      (st st1 : Store) (m : Staged) : Type 0 where
    pub command : IsData s raw
    pub ended : (read_data server.max_message_size 0 ls).error ≡ none
    pub same_text : content m ≡ text_of w s ls
    pub staged : stage st (text_of w s ls) none ≡ (st1, inr m)

  -- What one step may do to the store, for the session before it, the lines that follow and its line.
  pub data Effect (w : Surroundings) (s : Session) (ls : List Bytes) (raw : Bytes)
      : Store → Store → Type 0 where
    untouched : {st : Store} → Effect w s ls raw st st
    not_staged :
        {st : Store} (st1 : Store) (error : StageError)
        → IsData s raw
        → stage st (text_of w s ls) (read_data server.max_message_size 0 ls).error
          ≡ (st1, inl error)
        → Effect w s ls raw st st1
    discarded :
        {st : Store} (st1 : Store) (m : Staged)
        → IsStaged w s ls raw st st1 m
        → verdict w s m ≢ message_accept
        → Effect w s ls raw st (discard st1 m)
    not_published :
        {st : Store} (st1 st2 : Store) (m : Staged) (over : Bool)
        → IsStaged w s ls raw st st1 m
        → verdict w s m ≡ message_accept
        → publish st1 m ≡ (st2, inl over)
        → Effect w s ls raw st (discard st2 m)
    delivered :
        {st : Store} (st1 st2 : Store) (m : Staged) (id : ℕ) (path : Bytes)
        → IsStaged w s ls raw st st1 m
        → verdict w s m ≡ message_accept
        → publish st1 m ≡ (st2, inr (id, path))
        → Effect w s ls raw st st2

  -- A step that leaves the store alone.
  abbrev Leaves : Store → Outcome delivery → Type 0
  Leaves st out = out.store ≡ st

  if-Leaves :
      (st : Store) (b : Bool) (x y : Outcome delivery)
      → Leaves st x
      → Leaves st y
      → Leaves st (if b then x else y)
  if-Leaves st true x y lx ly = lx
  if-Leaves st false x y lx ly = ly

  begin_mail-Leaves :
      (s : Session) (st : Store) (ls : List Bytes) (a : Bytes) (o : Option ParameterError)
      → Leaves st (begin_mail delivery s st ls a o)
  unfolding begin_mail reply
  begin_mail-Leaves s st ls a none = refl
  begin_mail-Leaves s st ls a (some too_large) = refl
  begin_mail-Leaves s st ls a (some unsupported) = refl
  begin_mail-Leaves s st ls a (some invalid_size) = refl

  mail_path-Leaves :
      (s : Session) (st : Store) (ls : List Bytes) (o : Option (Bytes × Bytes))
      → Leaves st (mail_path delivery u server s st ls o)
  unfolding mail_path reply
  mail_path-Leaves s st ls none = refl
  mail_path-Leaves s st ls (some (a, p)) = begin_mail-Leaves s st ls a _

  decide_recipient-Leaves :
      (s : Session) (st : Store) (ls : List Bytes) (a : Bytes) (d : RecipientAction)
      → Leaves st (decide_recipient delivery s st ls a d)
  unfolding decide_recipient reply
  decide_recipient-Leaves s st ls a recipient_accept = refl
  decide_recipient-Leaves s st ls a recipient_reject_unknown = refl
  decide_recipient-Leaves s st ls a recipient_reject_policy = refl
  decide_recipient-Leaves s st ls a recipient_temp_fail = refl
  decide_recipient-Leaves s st ls a (recipient_other n) = refl

  rcpt_path-Leaves :
      (w : Surroundings) (s : Session) (st : Store) (ls : List Bytes) (o : Option (Bytes × Bytes))
      → Leaves st (rcpt_path delivery u server w s st ls o)
  unfolding rcpt_path reply
  rcpt_path-Leaves w s st ls none = refl
  rcpt_path-Leaves w s st ls (some (a, p)) =
      if-Leaves st (not (bytes_eq (trim_space u p) [])) _ _ refl (
        if-Leaves st (not (serves server (recipient_domain u a))) _ _ refl (
          if-Leaves st (leb server.max_recipients (length s.tx.recipients)) _ _ refl
            (decide_recipient-Leaves s st ls a _)))

  handshake-Leaves :
      (s : Session) (st : Store) (ls : List Bytes) (o : Option (List Bytes))
      → Leaves st (handshake delivery s st ls o)
  unfolding handshake reply hang_up
  handshake-Leaves s st ls none = refl
  handshake-Leaves s st ls (some l) = refl

  -- Every command but DATA.
  dispatch-Leaves :
      (w : Surroundings) (s : Session) (st : Store) (ls : List Bytes) (verb : Verb) (a : Bytes)
      → (verb ≡ data_verb) ⊎ Leaves st (dispatch delivery u server w s st ls verb a)
  unfolding dispatch handle_hello handle_starttls handle_mail handle_rcpt reply hang_up
  dispatch-Leaves w s st ls ehlo a = inr (if-Leaves st (not (valid_helo u w.is_ip a)) _ _ refl refl)
  dispatch-Leaves w s st ls helo a = inr (if-Leaves st (not (valid_helo u w.is_ip a)) _ _ refl refl)
  dispatch-Leaves w s st ls starttls a = inr (
      if-Leaves st (not (bytes_eq a []) || not server.has_tls || s.encrypted) _ _ refl
        (if-Leaves st (not w.sent) _ _ refl (handshake-Leaves s st ls w.tls_lines)))
  dispatch-Leaves w s st ls mail a = inr (
      if-Leaves st (not s.greeted) _ _ refl
        (mail_path-Leaves s st ls (parse_path u a (codes "FROM:") true)))
  dispatch-Leaves w s st ls rcpt a = inr (
      if-Leaves st (not s.tx.started) _ _ refl
        (rcpt_path-Leaves w s st ls (parse_path u a (codes "TO:") false)))
  dispatch-Leaves w s st ls data_verb a = inl refl
  dispatch-Leaves w s st ls rset a = inr refl
  dispatch-Leaves w s st ls noop a = inr refl
  dispatch-Leaves w s st ls quit a = inr refl
  dispatch-Leaves w s st ls unknown a = inr refl

  published-Effect :
      (w : Surroundings) (s : Session) (ls left : List Bytes) (raw : Bytes) (st st1 : Store)
      (m : Staged) (r : Store × (Bool ⊎ (ℕ × Bytes)))
      → IsStaged w s ls raw st st1 m
      → verdict w s m ≡ message_accept
      → publish st1 m ≡ r
      → Effect w s ls raw st (published delivery s left m r).store
  unfolding published reply hang_up
  published-Effect w s ls left raw st st1 m (st2, inl over) h accepted e =
      not_published st1 st2 m over h accepted e
  published-Effect w s ls left raw st st1 m (st2, inr (id, path)) h accepted e =
      delivered st1 st2 m id path h accepted e

  decide_message-Effect :
      (w : Surroundings) (s : Session) (ls left : List Bytes) (raw : Bytes) (st st1 : Store)
      (m : Staged) (d : MessageAction)
      → IsStaged w s ls raw st st1 m
      → verdict w s m ≡ d
      → Effect w s ls raw st (decide_message delivery s st1 left m d).store
  unfolding decide_message reply
  decide_message-Effect w s ls left raw st st1 m message_accept h e =
      published-Effect w s ls left raw st st1 m (publish st1 m) h e refl
  decide_message-Effect w s ls left raw st st1 m message_reject_policy h e =
      discarded st1 m h (λ accepted. cc)
  decide_message-Effect w s ls left raw st st1 m message_temp_fail h e =
      discarded st1 m h (λ accepted. cc)
  decide_message-Effect w s ls left raw st st1 m (message_other n) h e =
      discarded st1 m h (λ accepted. cc)

  staged_message-Effect :
      (w : Surroundings) (s : Session) (ls : List Bytes) (raw : Bytes) (st : Store)
      (r : Store × (StageError ⊎ Staged))
      → IsData s raw
      → stage st (text_of w s ls) (read_data server.max_message_size 0 ls).error ≡ r
      → Effect w s ls raw st
          (staged_message delivery u server w s
            (read_data server.max_message_size 0 ls).unread
            r).store
  unfolding staged_message hang_up
  staged_message-Effect w s ls raw st (st1, inl x) h e = not_staged st1 x h e
  staged_message-Effect w s ls raw st (st1, inr m) h e =
      let (ended, same) = stage-complete st st1 _ _ m e in
      decide_message-Effect w s ls _ raw st st1 m _
        (record {
          command = h;
          ended = ended;
          same_text = same;
          staged = subst (λ x. stage st (text_of w s ls) x ≡ (st1, inr m)) ended e;
        })
        refl

  if-Effect :
      (w : Surroundings) (s : Session) (ls : List Bytes) (raw : Bytes) (st : Store) (b : Bool)
      (x y : Outcome delivery)
      → Effect w s ls raw st x.store
      → (b ≡ false → Effect w s ls raw st y.store)
      → Effect w s ls raw st (if b then x else y).store
  if-Effect w s ls raw st true x y ex ey = ex
  if-Effect w s ls raw st false x y ex ey = ey refl

  some-recipients : (b : Bool) (rs : List Bytes) → (b || length rs == 0) ≡ false → rs ≢ []
  some-recipients true rs e = cc
  some-recipients false [] e = cc
  some-recipients false (r ∷ rs) e = λ none_left. cc

  abbrev IsDataLine : Bytes → Type 0
  IsDataLine raw =
      verb_of (split_command u (trim_suffix (trim_suffix raw (lf ∷ [])) (cr ∷ []))).0 ≡ data_verb

  handle_data-Effect :
      (w : Surroundings) (s : Session) (st : Store) (ls : List Bytes) (raw a : Bytes)
      → IsDataLine raw
      → Effect w s ls raw st (handle_data delivery u server w s st ls a).store
  unfolding handle_data receive_message reply hang_up
  handle_data-Effect w s st ls raw a line =
      if-Effect w s ls raw st (not (bytes_eq a []) || length s.tx.recipients == 0) _ _ untouched
        (λ tested. if-Effect w s ls raw st (not (check_receive st)) _ _ untouched (λ _.
          if-Effect w s ls raw st (not w.sent) _ _ untouched (λ _.
            staged_message-Effect w s ls raw st _
              (record {
                is_data = line;
                has_recipient = some-recipients (not (bytes_eq a [])) s.tx.recipients tested;
              })
              refl)))

  dispatch-Effect :
      (w : Surroundings) (s : Session) (st : Store) (ls : List Bytes) (raw : Bytes) (verb : Verb)
      (a : Bytes)
      → (verb ≡ data_verb → IsDataLine raw)
      → Effect w s ls raw st (dispatch delivery u server w s st ls verb a).store
  unfolding dispatch
  dispatch-Effect w s st ls raw verb a line = elim (dispatch-Leaves w s st ls verb a) [
    | inl e ↦
        subst (λ v. Effect w s ls raw st (dispatch delivery u server w s st ls v a).store) (sym e)
          (handle_data-Effect w s st ls raw a (line e))
    | inr e ↦ subst (λ q. Effect w s ls raw st q) (sym e) untouched
  ]

  run_command-Effect :
      (w : Surroundings) (s : Session) (st : Store) (ls : List Bytes) (raw : Bytes)
      (parts : Bytes × Bytes)
      → (verb_of parts.0 ≡ data_verb → IsDataLine raw)
      → Effect w s ls raw st (run_command delivery u server w s st ls parts).store
  unfolding run_command
  run_command-Effect w s st ls raw (command, argument) line =
      dispatch-Effect w s st ls raw (verb_of command) argument line

  on_line-Effect :
      (w : Surroundings) (s : Session) (st : Store) (ls : List Bytes) (raw : Bytes)
      (o : Option DataError)
      → Effect w s ls raw st (on_line delivery u server w s st ls raw o).store
  unfolding on_line hang_up
  on_line-Effect w s st ls raw none =
      run_command-Effect w s st ls raw
        (split_command u (trim_suffix (trim_suffix raw (lf ∷ [])) (cr ∷ []))) (λ e. e)
  on_line-Effect w s st ls raw (some data_line_too_long) = untouched
  on_line-Effect w s st ls raw (some message_too_large) = untouched
  on_line-Effect w s st ls raw (some unexpected_eof) = untouched

  -- Over a delivery store that stages only what its reader gave up to its end: one command line leaves
  -- the store as it is, or it is DATA in a transaction with a recipient, and then the store is one of
  -- these: what a staging of the message that failed left; behind a staged message that the policy does
  -- not accept, that message discarded without a publication; behind one that it accepts, what its
  -- publication left, with the message discarded when the publication failed. A message is staged only
  -- when the lines after DATA were read up to the line with the dot, within the limits, and it is then
  -- the headers for this sender and these recipients, followed by what was read.
  pub step-Effect :
      (w : Surroundings) (s : Session) (st : Store) (ls : List Bytes) (raw : Bytes)
      → Effect w s ls raw st (step delivery u server w s st ls raw).store
  unfolding step
  step-Effect w s st ls raw = on_line-Effect w s st ls raw _
