-- ===== src/Pop3/Tests.antt =====
-- A small maildrop, and connections to it.
mod Archive
use picomx.Prelude.{
  ℕ, ◌+◌, ◌-◌, ◌*◌, ◌^◌, ◌<◌, ◌≡◌, refl, ◌⊎◌, Bool, true, false, Option, none, some, List, [], ◌∷◌,
  ◌++◌, map, arith, length, get_elem?,
}
use picomx.Text.Bytes.{Bytes, codes}
use picomx.Text.Lines.{crlf, lines}
use picomx.Text.Ascii.{ascii}
use picomx.Archive.MessagePath.{Message}
use picomx.Pop3.Stream.{Source, stream_message}
use picomx.Pop3.Stream.Client.{receive, completed, receive-stream_message}
use picomx.Pop3.Mailbox.{Mailbox, Server, permanent_ids}
use picomx.Pop3.Session.{Session, new_session, step, stat_count}
use picomx.Pop3.Session.Invariant.{
  IsValid, Reaches, start, next, Reaches-IsValid, Reaches-stat_count,
}
use picomx.Pop3.Session.Change.{IsQuit}
use picomx.Pop3.Session.Effects.{step-store}

-- A store is the list of its IDs, and a snapshot is a store.
abbrev toy_message : Option ℕ → Option Message
toy_message none = none
toy_message (some id) = some (record { id = id; size = 3; path = [] })

abbrev toy_mailbox : Mailbox
toy_mailbox = record {
  Store = List ℕ;
  Snapshot = List ℕ;
  no_snapshot = [];
  count = length;
  total_octets = λ ids. 3 * length ids;
  take_snapshot = λ ids. ids;
  list_at = λ st ids. (map (λ id. (id, id, 3)) ids, true);
  lookup = λ st ids n. toy_message (get_elem? ids (n - 1));
  open_message = λ st ids m. some (record { content = codes "a"; fails = false });
  delete_as = λ st ids user. ([], true);
}

abbrev toy_server : Server
toy_server = record {
  unicode = ascii;
  sha256 = λ s. s;
  hostname = codes "mail";
  credentials = record {
    configured = true;
    username_hash = codes "bob";
    password_hash = codes "secret";
  };
  max_auth_failures = 3;
}

abbrev three_ids : List ℕ
three_ids = 4 ∷ 7 ∷ 9 ∷ []

abbrev user_line : Bytes
user_line = codes "USER bob" ++ crlf

abbrev named_session : Session toy_mailbox
named_session =
    (step toy_mailbox toy_server (new_session toy_mailbox) three_ids true user_line).session

user_keeps_open :
    (step toy_mailbox toy_server (new_session toy_mailbox) three_ids true user_line).is_open ≡ true
unfolding picomx.Text.Bytes.bytes_eq picomx.Text.Bytes.split picomx.Text.Bytes.join
    picomx.Text.Bytes.trim_suffix picomx.Text.Bytes.has_prefix picomx.Text.Bytes.cut
    picomx.Text.Number.digit_value picomx.Text.Number.digit_char picomx.Text.Number.scan_digits
    picomx.Text.Number.parse_uint picomx.Text.Number.format_digits picomx.Text.Number.format_uint
    lines picomx.Text.Lines.ends_with_lf picomx.Text.Lines.concat picomx.Text.Unicode.is_ascii
    picomx.Text.Unicode.upper_char picomx.Text.Unicode.lower_char picomx.Text.Unicode.is_space
    picomx.Text.Unicode.trim_left picomx.Text.Unicode.trim_ascii picomx.Text.Unicode.words_ascii
    picomx.Text.Unicode.to_upper picomx.Text.Unicode.to_lower picomx.Text.Unicode.trim_space
    picomx.Text.Unicode.fields picomx.Text.Unicode.equal_fold picomx.Pop3.Auth.hex_decode
    picomx.Pop3.Auth.new_credentials picomx.Pop3.Auth.authenticate picomx.Pop3.Command.verb_of
    picomx.Pop3.Command.read_command picomx.Pop3.Command.split_command picomx.Pop3.Command.in_range
    picomx.Pop3.Command.message_id picomx.Pop3.Command.top_fields picomx.Pop3.Command.top_arguments
    picomx.Pop3.Command.unique_id picomx.Pop3.Command.decimal picomx.Pop3.Mailbox.permanent_id
    picomx.Pop3.Mailbox.mark picomx.Pop3.Mailbox.is_deleted permanent_ids picomx.Pop3.Stream.stuff
    picomx.Pop3.Stream.limit_reached picomx.Pop3.Stream.advance picomx.Pop3.Stream.write_lines
    stream_message new_session picomx.Pop3.Session.reply picomx.Pop3.Session.hang_up
    picomx.Pop3.Session.stream picomx.Pop3.Session.handle_capa picomx.Pop3.Session.handle_user
    picomx.Pop3.Session.refuse_pass picomx.Pop3.Session.handle_pass stat_count
    picomx.Pop3.Session.stat_octets picomx.Pop3.Session.handle_stat picomx.Pop3.Session.live_number
    picomx.Pop3.Session.rows picomx.Pop3.Session.write_listing picomx.Pop3.Session.reply_row
    picomx.Pop3.Session.reply_one picomx.Pop3.Session.handle_listing picomx.Pop3.Session.list_row
    picomx.Pop3.Session.uidl_row picomx.Pop3.Session.send_message picomx.Pop3.Session.retr_source
    picomx.Pop3.Session.retr_message picomx.Pop3.Session.retr_number picomx.Pop3.Session.handle_retr
    picomx.Pop3.Session.open_number picomx.Pop3.Session.live_top picomx.Pop3.Session.top_source
    picomx.Pop3.Session.top_number picomx.Pop3.Session.handle_top picomx.Pop3.Session.mark_message
    picomx.Pop3.Session.dele_message picomx.Pop3.Session.dele_number picomx.Pop3.Session.handle_dele
    picomx.Pop3.Session.handle_rset picomx.Pop3.Session.handle_noop picomx.Pop3.Session.quit_reply
    picomx.Pop3.Session.handle_quit picomx.Pop3.Session.dispatch picomx.Pop3.Session.on_line step
user_keeps_open = refl

named-Reaches : Reaches toy_mailbox toy_server named_session
named-Reaches = next three_ids true user_line start user_keeps_open

Reaches-IsValid_example : IsValid toy_mailbox toy_server named_session
Reaches-IsValid_example = Reaches-IsValid toy_mailbox toy_server (omega arith) named-Reaches

nothing_counted : length named_session.snapshot < 2 ^ 64
unfolding picomx.Text.Bytes.bytes_eq picomx.Text.Bytes.split picomx.Text.Bytes.join
    picomx.Text.Bytes.trim_suffix picomx.Text.Bytes.has_prefix picomx.Text.Bytes.cut
    picomx.Text.Number.digit_value picomx.Text.Number.digit_char picomx.Text.Number.scan_digits
    picomx.Text.Number.parse_uint picomx.Text.Number.format_digits picomx.Text.Number.format_uint
    lines picomx.Text.Lines.ends_with_lf picomx.Text.Lines.concat picomx.Text.Unicode.is_ascii
    picomx.Text.Unicode.upper_char picomx.Text.Unicode.lower_char picomx.Text.Unicode.is_space
    picomx.Text.Unicode.trim_left picomx.Text.Unicode.trim_ascii picomx.Text.Unicode.words_ascii
    picomx.Text.Unicode.to_upper picomx.Text.Unicode.to_lower picomx.Text.Unicode.trim_space
    picomx.Text.Unicode.fields picomx.Text.Unicode.equal_fold picomx.Pop3.Auth.hex_decode
    picomx.Pop3.Auth.new_credentials picomx.Pop3.Auth.authenticate picomx.Pop3.Command.verb_of
    picomx.Pop3.Command.read_command picomx.Pop3.Command.split_command picomx.Pop3.Command.in_range
    picomx.Pop3.Command.message_id picomx.Pop3.Command.top_fields picomx.Pop3.Command.top_arguments
    picomx.Pop3.Command.unique_id picomx.Pop3.Command.decimal picomx.Pop3.Mailbox.permanent_id
    picomx.Pop3.Mailbox.mark picomx.Pop3.Mailbox.is_deleted permanent_ids picomx.Pop3.Stream.stuff
    picomx.Pop3.Stream.limit_reached picomx.Pop3.Stream.advance picomx.Pop3.Stream.write_lines
    stream_message new_session picomx.Pop3.Session.reply picomx.Pop3.Session.hang_up
    picomx.Pop3.Session.stream picomx.Pop3.Session.handle_capa picomx.Pop3.Session.handle_user
    picomx.Pop3.Session.refuse_pass picomx.Pop3.Session.handle_pass stat_count
    picomx.Pop3.Session.stat_octets picomx.Pop3.Session.handle_stat picomx.Pop3.Session.live_number
    picomx.Pop3.Session.rows picomx.Pop3.Session.write_listing picomx.Pop3.Session.reply_row
    picomx.Pop3.Session.reply_one picomx.Pop3.Session.handle_listing picomx.Pop3.Session.list_row
    picomx.Pop3.Session.uidl_row picomx.Pop3.Session.send_message picomx.Pop3.Session.retr_source
    picomx.Pop3.Session.retr_message picomx.Pop3.Session.retr_number picomx.Pop3.Session.handle_retr
    picomx.Pop3.Session.open_number picomx.Pop3.Session.live_top picomx.Pop3.Session.top_source
    picomx.Pop3.Session.top_number picomx.Pop3.Session.handle_top picomx.Pop3.Session.mark_message
    picomx.Pop3.Session.dele_message picomx.Pop3.Session.dele_number picomx.Pop3.Session.handle_dele
    picomx.Pop3.Session.handle_rset picomx.Pop3.Session.handle_noop picomx.Pop3.Session.quit_reply
    picomx.Pop3.Session.handle_quit picomx.Pop3.Session.dispatch picomx.Pop3.Session.on_line step
nothing_counted = omega arith

Reaches-stat_count_example :
    stat_count toy_mailbox named_session + length named_session.deleted
    ≡ length named_session.snapshot
Reaches-stat_count_example =
    Reaches-stat_count toy_mailbox toy_server (omega arith) named-Reaches nothing_counted

abbrev marked_session : Session toy_mailbox
marked_session = record {
  username = codes "bob";
  authenticated = true;
  snapshot = three_ids;
  deleted = (2, 7) ∷ [];
  deleted_octets = 3;
  auth_failures = 0;
}

step-store_example :
    ((step toy_mailbox toy_server marked_session three_ids true (codes "QUIT" ++ crlf)).store
      ≡ three_ids)
    ⊎ (((step toy_mailbox toy_server marked_session three_ids true (codes "QUIT" ++ crlf)).store
          ≡ [])
        × (marked_session.authenticated ≡ true)
        × (0 < length marked_session.deleted)
        × ((step toy_mailbox toy_server marked_session three_ids true
              (codes "QUIT" ++ crlf)).is_open
            ≡ false)
        × IsQuit toy_mailbox toy_server (codes "QUIT" ++ crlf))
step-store_example =
    step-store toy_mailbox toy_server marked_session three_ids true (codes "QUIT" ++ crlf)

abbrev dialogue : List (Bool × Bytes)
dialogue =
    (true, user_line)
    ∷ (true, codes "PASS secret" ++ crlf)
    ∷ (true, codes "DELE 2" ++ crlf)
    ∷ (true, codes "QUIT" ++ crlf)
    ∷ []

abbrev dotted_message : Bytes
dotted_message = codes "Subject: a" ++ crlf ++ crlf ++ codes ".." ++ crlf ++ codes ".end"

receive-stream_message_example :
    receive (
      lines (
        (stream_message (record { content = dotted_message; fails = false }) none).0
        ++ codes "+OK"))
    ≡ some (completed dotted_message, lines (codes "+OK"))
receive-stream_message_example = receive-stream_message dotted_message (codes "+OK")
