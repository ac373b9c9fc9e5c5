-- ===== src/Smtp/Tests.antt =====
-- A small store, a policy and a server, and commands to it.
mod Archive
use picomx.Prelude.{
  ◌+◌, ◌≤◌, ◌≡◌, refl, sym, ap, ◌⊎◌, inl, inr, true, false, Option, none, some, List, [], ◌∷◌, ◌++◌,
  map, arith, length, All,
}
use picomx.Text.Bytes.{Bytes, codes}
use picomx.Text.Lines.{crlf, lines, dot_line}
use picomx.Text.Ascii.{ascii}
use picomx.Pop3.Stream.{stuff}
use picomx.Smtp.Data.{DataError, read_data}
use picomx.Smtp.Data.Bounds.{total, IsStored, total-read_data, read_data-IsStored}
use picomx.Smtp.Data.RoundTrip.{IsSendable, read_data-stuff}
use picomx.Smtp.Address.{parse_path, valid_address}
use picomx.Smtp.Policy.{default_smtp_policy}
use picomx.Smtp.Server.{pos, Options, new_server, Delivery, Server, StageError, from_reader}
use picomx.Smtp.Session.{Session, Surroundings, step}
use picomx.Smtp.Session.Invariant.{IsValid, step-IsValid}
use picomx.Smtp.Session.Effects.{Effect, step-Effect}

-- A store that keeps the texts that are published.
abbrev toy_stage : List Bytes → Bytes → Option DataError → List Bytes × (StageError ⊎ Bytes)
toy_stage st text none = (st, inr text)
toy_stage st text (some e) = (st, inl (from_reader e))

staged_value : Bytes → StageError ⊎ Bytes → Bytes
staged_value d (inl e) = d
staged_value d (inr m) = m

toy_stage_complete :
    (st st' : List Bytes) (text : Bytes) (error : Option DataError) (m : Bytes)
    → toy_stage st text error ≡ (st', inr m)
    → (error ≡ none) × (m ≡ text)
unfolding staged_value
toy_stage_complete st st' text none m e = (refl, sym (ap (λ r. staged_value text r.1) e))
toy_stage_complete st st' text (some x) m e = cc

abbrev toy_delivery : Delivery
toy_delivery = record {
  Store = List Bytes;
  Staged = Bytes;
  size = length;
  content = λ m. m;
  check_receive = λ st. true;
  stage = toy_stage;
  discard = λ st m. st;
  publish = λ st m. (m ∷ st, inr (length st + 1, []));
  stage-complete = toy_stage_complete;
}

abbrev pub toy_smtp_server : Server
toy_smtp_server = record {
  hostname = codes "mx.test";
  domains = codes "b.test" ∷ [];
  has_tls = false;
  max_message_size = 1000;
  max_recipients = 2;
  policy = default_smtp_policy;
}

abbrev pub quiet : Surroundings
quiet = record {
  remote = codes "192.0.2.1";
  is_ip = λ s. false;
  received_at = codes "now";
  sent = true;
  tls_lines = none;
  question = 0;
}

abbrev mail_session : Session
mail_session = record {
  greeted = true;
  helo_name = codes "a.test";
  encrypted = false;
  tx = record { started = true; from = codes "x@a.test"; recipients = [] };
}

mail_session-IsValid : IsValid ascii toy_smtp_server (codes "192.0.2.1") mail_session
mail_session-IsValid = record {
  bounded = omega arith;
  accepted = tt;
  greeted_first = λ e. refl;
  started_first = λ e. refl;
}

abbrev rcpt_line : Bytes
rcpt_line = codes "RCPT TO:<y@b.test>" ++ crlf

step-IsValid_example :
    IsValid ascii toy_smtp_server
      (codes "192.0.2.1")
      (step toy_delivery ascii toy_smtp_server quiet mail_session [] [] rcpt_line).session
step-IsValid_example =
    step-IsValid ascii toy_smtp_server toy_delivery (codes "192.0.2.1") quiet mail_session [] []
      rcpt_line refl mail_session-IsValid

abbrev pub rcpt_session : Session
rcpt_session = record {
  greeted = true;
  helo_name = codes "a.test";
  encrypted = false;
  tx = record { started = true; from = codes "x@a.test"; recipients = codes "y@b.test" ∷ [] };
}

abbrev pub data_lines : List Bytes
data_lines = (codes "Subject: a" ++ crlf) ∷ crlf ∷ (codes "..b" ++ crlf) ∷ dot_line ∷ []

step-Effect_example :
    Effect toy_delivery ascii toy_smtp_server quiet rcpt_session data_lines
      (codes "DATA" ++ crlf)
      []
      (step toy_delivery ascii toy_smtp_server quiet rcpt_session [] data_lines
        (codes "DATA" ++ crlf)).store
step-Effect_example =
    step-Effect toy_delivery ascii toy_smtp_server quiet rcpt_session [] data_lines
      (codes "DATA" ++ crlf)

total-read_data_example : 10 + total (read_data 30 10 data_lines).chunks ≤ 30
total-read_data_example = total-read_data 30 10 data_lines (omega arith)

abbrev sent_bytes : Bytes
sent_bytes = codes "a" ++ crlf ++ codes "..b" ++ crlf ++ dot_line

read_data-IsStored_example : All IsStored (read_data 1000 0 (lines sent_bytes)).chunks
read_data-IsStored_example = read_data-IsStored 1000 sent_bytes

dot_b-IsSendable : IsSendable (codes ".b" ++ crlf)
dot_b-IsSendable = record {
  text = codes ".b";
  ends = refl;
  no_lf = (refl, (refl, tt));
  fits = omega arith;
}

dot_b_fits : 0 + total ((codes ".b" ++ crlf) ∷ []) ≤ 1000
unfolding total
dot_b_fits = omega arith

read_data-stuff_example :
    read_data 1000 0 (map stuff ((codes ".b" ++ crlf) ∷ []) ++ dot_line ∷ [])
    ≡ record { chunks = (codes ".b" ++ crlf) ∷ []; error = none; unread = [] }
read_data-stuff_example =
    read_data-stuff 1000 0 ((codes ".b" ++ crlf) ∷ []) [] (dot_b-IsSendable, tt) dot_b_fits

-- The end of an address is not looked at before its space is taken off.
spaced_domain : valid_address ascii (codes "y@b.test ") ≡ true
unfolding picomx.Text.Bytes.bytes_eq picomx.Text.Bytes.split picomx.Text.Bytes.join
    picomx.Text.Bytes.trim_suffix picomx.Text.Bytes.has_prefix picomx.Text.Bytes.cut
    picomx.Text.Number.digit_value picomx.Text.Number.digit_char picomx.Text.Number.scan_digits
    picomx.Text.Number.parse_uint picomx.Text.Number.format_digits picomx.Text.Number.format_uint
    lines picomx.Text.Lines.ends_with_lf picomx.Text.Lines.concat picomx.Text.Unicode.is_ascii
    picomx.Text.Unicode.upper_char picomx.Text.Unicode.lower_char picomx.Text.Unicode.is_space
    picomx.Text.Unicode.trim_left picomx.Text.Unicode.trim_ascii picomx.Text.Unicode.words_ascii
    picomx.Text.Unicode.to_upper picomx.Text.Unicode.to_lower picomx.Text.Unicode.trim_space
    picomx.Text.Unicode.fields picomx.Text.Unicode.equal_fold picomx.Smtp.Address.is_lower
    picomx.Smtp.Address.is_upper picomx.Smtp.Address.is_digit picomx.Smtp.Address.is_domain_char
    picomx.Smtp.Address.contains_byte picomx.Smtp.Address.is_local_char
    picomx.Smtp.Address.has_suffix picomx.Smtp.Address.contains_two_dots
    picomx.Smtp.Address.count_byte picomx.Smtp.Address.valid_label picomx.Smtp.Address.valid_domain
    picomx.Smtp.Address.cut_at picomx.Smtp.Address.valid_local picomx.Smtp.Address.normalize_domain
    valid_address picomx.Smtp.Address.accept_path picomx.Smtp.Address.bracketed parse_path
    picomx.Smtp.Address.split_command picomx.Smtp.Address.valid_helo picomx.Text.Number.parse_size
    picomx.Smtp.Address.validate_size picomx.Smtp.Address.validate_parameter
    picomx.Smtp.Address.validate_words picomx.Smtp.Address.validate_mail_parameters
spaced_domain = refl

abbrev toy_options : Options
toy_options = record {
  hostname = codes "mx.test";
  domains = codes "B.test." ∷ [];
  has_delivery = true;
  has_tls = false;
  max_message_size = pos 1000;
  max_recipients = pos 2;
  policy = default_smtp_policy;
}

toy_options_built : new_server ascii toy_options ≡ some toy_smtp_server
unfolding picomx.Text.Bytes.bytes_eq picomx.Text.Bytes.split picomx.Text.Bytes.join
    picomx.Text.Bytes.trim_suffix picomx.Text.Bytes.has_prefix picomx.Text.Bytes.cut
    picomx.Text.Unicode.is_ascii picomx.Text.Unicode.upper_char picomx.Text.Unicode.lower_char
    picomx.Text.Unicode.is_space picomx.Text.Unicode.trim_left picomx.Text.Unicode.trim_ascii
    picomx.Text.Unicode.words_ascii picomx.Text.Unicode.to_upper picomx.Text.Unicode.to_lower
    picomx.Text.Unicode.trim_space picomx.Text.Unicode.fields picomx.Text.Unicode.equal_fold
    picomx.Smtp.Address.is_lower picomx.Smtp.Address.is_upper picomx.Smtp.Address.is_digit
    picomx.Smtp.Address.is_domain_char picomx.Smtp.Address.contains_byte
    picomx.Smtp.Address.is_local_char picomx.Smtp.Address.has_suffix
    picomx.Smtp.Address.contains_two_dots picomx.Smtp.Address.count_byte
    picomx.Smtp.Address.valid_label picomx.Smtp.Address.valid_domain picomx.Smtp.Address.cut_at
    picomx.Smtp.Address.valid_local picomx.Smtp.Address.normalize_domain valid_address
    picomx.Smtp.Address.accept_path picomx.Smtp.Address.bracketed parse_path
    picomx.Smtp.Address.split_command picomx.Smtp.Address.valid_helo picomx.Text.Number.parse_size
    picomx.Smtp.Address.validate_size picomx.Smtp.Address.validate_parameter
    picomx.Smtp.Address.validate_words picomx.Smtp.Address.validate_mail_parameters
    picomx.Smtp.Server.add_domain picomx.Smtp.Server.read_domains picomx.Smtp.Server.or_default
    picomx.Smtp.Server.build_server picomx.Smtp.Server.new_server picomx.Smtp.Server.serves
    picomx.Smtp.Server.no_transaction picomx.Smtp.Server.delivered_to
    picomx.Smtp.Server.delivery_headers
toy_options_built = refl
