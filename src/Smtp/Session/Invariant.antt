-- ===== src/Smtp/Session/Invariant.antt =====
-- What holds of the transaction of a connection, command by command.
use picomx.Prelude.{
  ℕ, ◌≤◌, ◌<◌, ◌≡◌, refl, ap, ◌⊎◌, inl, inr, Bool, true, false, ◌||◌, not, Option, none, some, List,
  [], ◌∷◌, ◌++◌, arith, leb, ◌==◌, if◌then◌else◌, length, length-append, All, All-append,
}
use picomx.Text.Lines.{lf, cr}
use picomx.Text.Bytes.{trim_suffix, Bytes, codes, bytes_eq}
use picomx.Text.Unicode.{Unicode, trim_space}
use picomx.Smtp.Data.{DataError, data_line_too_long, message_too_large, unexpected_eof}
use picomx.Smtp.Address.{
  parse_path, valid_address, valid_helo, ParameterError, too_large, unsupported, invalid_size,
  split_command,
}
use picomx.Smtp.Address.Checks.{parse_path-valid}
use picomx.Smtp.Policy.{
  RecipientAction, recipient_reject_policy, recipient_reject_unknown, recipient_temp_fail,
  recipient_accept, recipient_other, MessageAction, message_temp_fail, message_reject_policy,
  message_accept, message_other, evaluate_recipient,
}
use picomx.Smtp.Server.{Delivery, Server, StageError, serves, no_transaction}
use picomx.Smtp.Session.{
  Verb, ehlo, helo, starttls, mail, rcpt, data_verb, rset, noop, quit, unknown, verb_of, Session,
  Surroundings, new_session, Outcome, reply, hang_up, greet, handle_hello, handshake,
  handle_starttls, begin_mail, mail_path, handle_mail, decide_recipient, recipient_request,
  recipient_domain, rcpt_path, handle_rcpt, published, decide_message, staged_message,
  receive_message, handle_data, dispatch, run_command, on_line, step,
}

not-false : (b : Bool) → not b ≡ false → b ≡ true
not-false true e = refl
not-false false e = cc

module _ (u : Unicode) (server : Server) where
  -- A recipient of a session: its address is valid, its domain is served, and the policy has
  -- accepted it once, for this peer, greeting, encryption and sender.
  pub record IsAccepted (remote : Bytes) (s : Session) (address : Bytes) : Type 0 where
    pub valid : valid_address u address ≡ true
    pub served : serves server (recipient_domain u address) ≡ true
    pub surroundings : Surroundings
    pub from_here : surroundings.remote ≡ remote
    pub decided :
        evaluate_recipient server.policy surroundings.question
          (recipient_request u surroundings s address)
        ≡ recipient_accept

  pub record IsValid (remote : Bytes) (s : Session) : Type 0 where
    pub bounded : length s.tx.recipients ≤ server.max_recipients
    pub accepted : All (IsAccepted remote s) s.tx.recipients
    pub greeted_first : s.tx.started ≡ true → s.greeted ≡ true
    pub started_first : s.tx.started ≡ false → s.tx.recipients ≡ []

  -- The recipients that are there do not matter to what was asked.
  carry-IsAccepted :
      (remote : Bytes) (s : Session) (rs : List Bytes) (a : Bytes)
      → IsAccepted remote s a
      → IsAccepted remote (record s { tx = record s.tx { recipients = rs } }) a
  unfolding recipient_request
  carry-IsAccepted remote s rs a v = record {
    valid = v.valid;
    served = v.served;
    surroundings = v.surroundings;
    from_here = v.from_here;
    decided = v.decided;
  }

  carry-All :
      (remote : Bytes) (s : Session) (rs addresses : List Bytes)
      → All (IsAccepted remote s) addresses
      → All (IsAccepted remote (record s { tx = record s.tx { recipients = rs } })) addresses
  carry-All remote s rs [] v = tt
  carry-All remote s rs (a ∷ addresses) (va, v) =
      (carry-IsAccepted remote s rs a va, carry-All remote s rs addresses v)

  forward-valid :
      (prefix argument x y : Bytes)
      → parse_path u argument prefix false ≡ some (x, y)
      → valid_address u x ≡ true
  forward-valid prefix argument x y e = elim (parse_path-valid u argument prefix x y false e) [
    | inl l ↦ (let never = l.1 in cc)
    | inr r ↦ r
  ]

  -- A session whose transaction is the empty one.
  empty-IsValid : (remote : Bytes) (s : Session) → s.tx ≡ no_transaction → IsValid remote s
  unfolding no_transaction
  empty-IsValid remote s e = record {
    bounded = rw e (omega arith);
    accepted = rw e tt;
    greeted_first = rw e (λ x. cc);
    started_first = λ x. ap (λ t. t.recipients) e;
  }

  module _ (delivery : Delivery) (remote : Bytes) where
    open delivery use {Store, Staged, check_receive, stage, discard, publish}

    abbrev Good : Outcome delivery → Type 0
    Good out = IsValid remote out.session

    if-Good :
        (b : Bool) (x y : Outcome delivery)
        → Good x
        → (b ≡ false → Good y)
        → Good (if b then x else y)
    if-Good true x y gx gy = gx
    if-Good false x y gx gy = gy refl

    handle_hello-Good :
        (w : Surroundings) (s : Session) (st : Store) (ls : List Bytes) (e : Bool) (a : Bytes)
        → IsValid remote s
        → Good (handle_hello delivery u server w s st ls e a)
    unfolding handle_hello greet reply hang_up
    handle_hello-Good w s st ls e a v =
        if-Good (not (valid_helo u w.is_ip a)) _ _ (v) (λ _. (empty-IsValid remote _ refl))

    handshake-Good :
        (s : Session) (st : Store) (ls : List Bytes) (o : Option (List Bytes))
        → IsValid remote s
        → Good (handshake delivery s st ls o)
    unfolding handshake new_session reply hang_up
    handshake-Good s st ls none v = v
    handshake-Good s st ls (some l) v = (empty-IsValid remote _ refl)

    handle_starttls-Good :
        (w : Surroundings) (s : Session) (st : Store) (ls : List Bytes) (a : Bytes)
        → IsValid remote s
        → Good (handle_starttls delivery server w s st ls a)
    unfolding handle_starttls reply hang_up
    handle_starttls-Good w s st ls a v =
        if-Good (not (bytes_eq a []) || not server.has_tls || s.encrypted) _ _ (v)
          (λ _. if-Good (not w.sent) _ _ (v) (λ _. handshake-Good s st ls w.tls_lines v))

    begin_mail-Good :
        (s : Session) (st : Store) (ls : List Bytes) (a : Bytes) (o : Option ParameterError)
        → s.greeted ≡ true
        → IsValid remote s
        → Good (begin_mail delivery s st ls a o)
    unfolding begin_mail reply hang_up
    begin_mail-Good s st ls a none g v = (record {
      bounded = omega arith;
      accepted = tt;
      greeted_first = λ _. g;
      started_first = λ _. refl;
    })
    begin_mail-Good s st ls a (some too_large) g v = v
    begin_mail-Good s st ls a (some unsupported) g v = v
    begin_mail-Good s st ls a (some invalid_size) g v = v

    mail_path-Good :
        (s : Session) (st : Store) (ls : List Bytes) (o : Option (Bytes × Bytes))
        → s.greeted ≡ true
        → IsValid remote s
        → Good (mail_path delivery u server s st ls o)
    unfolding mail_path reply hang_up
    mail_path-Good s st ls none g v = v
    mail_path-Good s st ls (some (a, p)) g v = begin_mail-Good s st ls a _ g v

    handle_mail-Good :
        (s : Session) (st : Store) (ls : List Bytes) (a : Bytes)
        → IsValid remote s
        → Good (handle_mail delivery u server s st ls a)
    unfolding handle_mail reply hang_up
    handle_mail-Good s st ls a v = if-Good (not s.greeted) _ _ (v) (λ g.
        mail_path-Good s st ls (parse_path u a (codes "FROM:") true) (not-false s.greeted g) v)

    decide_recipient-Good :
        (w : Surroundings) (s : Session) (st : Store) (ls : List Bytes) (a : Bytes)
        (d : RecipientAction)
        → w.remote ≡ remote
        → valid_address u a ≡ true
        → serves server (recipient_domain u a) ≡ true
        → length s.tx.recipients < server.max_recipients
        → evaluate_recipient server.policy w.question (recipient_request u w s a) ≡ d
        → s.tx.started ≡ true
        → IsValid remote s
        → Good (decide_recipient delivery s st ls a d)
    unfolding decide_recipient recipient_request reply hang_up
    decide_recipient-Good w s st ls a recipient_accept here valid served room asked started v =
        let old : All
            (IsAccepted remote
              (record s { tx = record s.tx { recipients = s.tx.recipients ++ a ∷ [] } }))
            s.tx.recipients =
          carry-All remote s (s.tx.recipients ++ a ∷ []) s.tx.recipients v.accepted in
        (record {
          bounded = omega (arith, length-append s.tx.recipients (a ∷ []), room);
          accepted = All-append _ s.tx.recipients (a ∷ []) old (
            record {
              valid = valid;
              served = served;
              surroundings = w;
              from_here = here;
              decided = asked;
            },
            tt,
          );
          greeted_first = v.greeted_first;
          started_first = λ x. cc;
        })
    decide_recipient-Good w s st ls a recipient_reject_unknown h x d r q e v = v
    decide_recipient-Good w s st ls a recipient_reject_policy h x d r q e v = v
    decide_recipient-Good w s st ls a recipient_temp_fail h x d r q e v = v
    decide_recipient-Good w s st ls a (recipient_other n) h x d r q e v = v

    rcpt_path-Good :
        (w : Surroundings) (s : Session) (st : Store) (ls : List Bytes) (o : Option (Bytes × Bytes))
        → w.remote ≡ remote
        → ((a p : Bytes) → o ≡ some (a, p) → valid_address u a ≡ true)
        → s.tx.started ≡ true
        → IsValid remote s
        → Good (rcpt_path delivery u server w s st ls o)
    unfolding rcpt_path reply hang_up
    rcpt_path-Good w s st ls none here valid started v = v
    rcpt_path-Good w s st ls (some (a, p)) here valid started v =
        if-Good (not (bytes_eq (trim_space u p) [])) _ _ (v) (λ _.
          if-Good (not (serves server (recipient_domain u a))) _ _ (v) (λ served.
            if-Good (leb server.max_recipients (length s.tx.recipients)) _ _ (v) (λ room.
              decide_recipient-Good w s st ls a _ here (valid a p refl)
                (not-false (serves server (recipient_domain u a)) served) (ground arith) refl
                started v)))

    handle_rcpt-Good :
        (w : Surroundings) (s : Session) (st : Store) (ls : List Bytes) (a : Bytes)
        → w.remote ≡ remote
        → IsValid remote s
        → Good (handle_rcpt delivery u server w s st ls a)
    unfolding handle_rcpt reply hang_up
    handle_rcpt-Good w s st ls a here v = if-Good (not s.tx.started) _ _ (v) (λ started.
        rcpt_path-Good w s st ls (parse_path u a (codes "TO:") false) here
          (forward-valid (codes "TO:") a) (not-false s.tx.started started) v)

    published-Good :
        (s : Session) (ls : List Bytes) (m : Staged) (r : Store × (Bool ⊎ (ℕ × Bytes)))
        → IsValid remote s
        → Good (published delivery s ls m r)
    unfolding published reply hang_up
    published-Good s ls m (st, inl over) v = v
    published-Good s ls m (st, inr id) v = (empty-IsValid remote _ refl)

    decide_message-Good :
        (s : Session) (st : Store) (ls : List Bytes) (m : Staged) (d : MessageAction)
        → IsValid remote s
        → Good (decide_message delivery s st ls m d)
    unfolding decide_message reply hang_up
    decide_message-Good s st ls m message_accept v = published-Good s ls m (publish st m) v
    decide_message-Good s st ls m message_reject_policy v = (empty-IsValid remote _ refl)
    decide_message-Good s st ls m message_temp_fail v = (empty-IsValid remote _ refl)
    decide_message-Good s st ls m (message_other n) v = (empty-IsValid remote _ refl)

    staged_message-Good :
        (w : Surroundings) (s : Session) (ls : List Bytes) (r : Store × (StageError ⊎ Staged))
        → IsValid remote s
        → Good (staged_message delivery u server w s ls r)
    unfolding staged_message reply hang_up
    staged_message-Good w s ls (st, inl e) v = v
    staged_message-Good w s ls (st, inr m) v = decide_message-Good s st ls m _ v

    handle_data-Good :
        (w : Surroundings) (s : Session) (st : Store) (ls : List Bytes) (a : Bytes)
        → IsValid remote s
        → Good (handle_data delivery u server w s st ls a)
    unfolding handle_data receive_message reply hang_up
    handle_data-Good w s st ls a v =
        if-Good (not (bytes_eq a []) || length s.tx.recipients == 0) _ _ (v) (λ _.
          if-Good (not (check_receive st)) _ _ (v)
            (λ _. if-Good (not w.sent) _ _ (v) (λ _. staged_message-Good w s _ _ v)))

    dispatch-Good :
        (w : Surroundings) (s : Session) (st : Store) (ls : List Bytes) (verb : Verb) (a : Bytes)
        → w.remote ≡ remote
        → IsValid remote s
        → Good (dispatch delivery u server w s st ls verb a)
    unfolding dispatch reply hang_up
    dispatch-Good w s st ls ehlo a here v = handle_hello-Good w s st ls true a v
    dispatch-Good w s st ls helo a here v = handle_hello-Good w s st ls false a v
    dispatch-Good w s st ls starttls a here v = handle_starttls-Good w s st ls a v
    dispatch-Good w s st ls mail a here v = handle_mail-Good s st ls a v
    dispatch-Good w s st ls rcpt a here v = handle_rcpt-Good w s st ls a here v
    dispatch-Good w s st ls data_verb a here v = handle_data-Good w s st ls a v
    dispatch-Good w s st ls rset a here v = (empty-IsValid remote _ refl)
    dispatch-Good w s st ls noop a here v = v
    dispatch-Good w s st ls quit a here v = v
    dispatch-Good w s st ls unknown a here v = v

    run_command-Good :
        (w : Surroundings) (s : Session) (st : Store) (ls : List Bytes) (parts : Bytes × Bytes)
        → w.remote ≡ remote
        → IsValid remote s
        → Good (run_command delivery u server w s st ls parts)
    unfolding run_command
    run_command-Good w s st ls (command, argument) here v =
        dispatch-Good w s st ls (verb_of command) argument here v

    on_line-Good :
        (w : Surroundings) (s : Session) (st : Store) (ls : List Bytes) (raw : Bytes)
        (o : Option DataError)
        → w.remote ≡ remote
        → IsValid remote s
        → Good (on_line delivery u server w s st ls raw o)
    unfolding on_line run_command reply hang_up
    on_line-Good w s st ls raw none here v =
        run_command-Good w s st ls
          (split_command u (trim_suffix (trim_suffix raw (lf ∷ [])) (cr ∷ []))) here v
    on_line-Good w s st ls raw (some data_line_too_long) here v = v
    on_line-Good w s st ls raw (some message_too_large) here v = v
    on_line-Good w s st ls raw (some unexpected_eof) here v = v

    -- Every command line of the peer keeps the invariant of a session: no more recipients than the
    -- limit, each of a valid address in a served domain and accepted by the policy for this peer,
    -- greeting, encryption and sender; a transaction only after a greeting, and recipients only in
    -- a transaction.
    pub step-IsValid :
        (w : Surroundings) (s : Session) (st : Store) (ls : List Bytes) (raw : Bytes)
        → w.remote ≡ remote
        → IsValid remote s
        → IsValid remote (step delivery u server w s st ls raw).session
    unfolding step reply hang_up
    step-IsValid w s st ls raw here v = on_line-Good w s st ls raw _ here v
