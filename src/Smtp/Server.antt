-- ===== src/Smtp/Server.antt =====
-- internal/smtp/server.go: the options, NewServer, the interface to the store and the headers.
use picomx.Prelude.{
  ◌&&◌, ℕ, ◌*◌, ◌^◌, ◌≡◌, ◌⊎◌, inr, Bool, false, Option, none, some, List, [], ◌∷◌, ◌++◌, ◌==◌,
  if◌then◌else◌, ◌>>=◌, any,
}
use picomx.Text.Bytes.{Bytes, codes, bytes_eq}
use picomx.Text.Lines.{crlf}
use picomx.Text.Unicode.{Unicode}
use picomx.Smtp.Address.{valid_domain, normalize_domain}
use picomx.Smtp.Policy.{SmtpPolicy}
use picomx.Smtp.Data.{DataError}

abbrev pub default_max_message_bytes : ℕ
default_max_message_bytes = 25 * 2 ^ 20

abbrev pub default_max_recipients : ℕ
default_max_recipients = 20

abbrev pub max_command_line_bytes : ℕ
max_command_line_bytes = 512

-- Why a message was not staged: the reader failed, the day's budget is spent, or anything else.
pub data StageError : Type 0 where
  from_reader : DataError → StageError
  over_budget : StageError
  stage_failed : StageError

-- Delivery: the store behind the server. `stage` is given what the reader gives and the error that
-- ends it. The law says that a message is staged only when its reader came to its end, and is
-- what the reader gave.
pub record Delivery : Type 1 where
  pub Store : Type 0
  pub Staged : Type 0
  pub size : Staged → ℕ
  pub content : Staged → Bytes
  pub check_receive : Store → Bool
  pub stage : Store → Bytes → Option DataError → Store × (StageError ⊎ Staged)
  pub discard : Store → Staged → Store
  pub publish : Store → Staged → Store × (Bool ⊎ (ℕ × Bytes))  -- true for ErrDailyLimit
  pub stage-complete :
      (st st' : Store) (text : Bytes) (error : Option DataError) (m : Staged)
      → stage st text error ≡ (st', inr m)
      → (error ≡ none) × (content m ≡ text)

-- The integers of the options: pos n is n, and negsuc n is -(n + 1).
pub data ℤ : Type 0 where
  pos negsuc : ℕ → ℤ

-- The options but for the policy that is taken when none is given, the number of connections, the idle
-- timeout and the log.
pub record Options : Type 0 where
  pub hostname : Bytes
  pub domains : List Bytes
  pub has_delivery : Bool
  pub has_tls : Bool
  pub max_message_size : ℤ
  pub max_recipients : ℤ
  pub policy : SmtpPolicy

pub record Server : Type 0 where
  pub hostname : Bytes
  pub domains : List Bytes
  pub has_tls : Bool
  pub max_message_size : ℕ
  pub max_recipients : ℕ
  pub policy : SmtpPolicy

module _ (u : Unicode) where
  unfoldable pub add_domain : Bytes → Option (List Bytes) → Option (List Bytes)
  unfolding valid_domain normalize_domain
  add_domain raw rest =
      if valid_domain (normalize_domain u raw)
      then (rest >>= λ ds. some (normalize_domain u raw ∷ ds))
      else none

  -- The map of the domains that are served.
  unfoldable pub read_domains : List Bytes → Option (List Bytes)
  unfolding add_domain
  read_domains [] = some []
  read_domains (raw ∷ raws) = add_domain raw (read_domains raws)

  unfoldable pub or_default : ℤ → ℕ → ℕ
  or_default (pos given) fallback = if given == 0 then fallback else given
  or_default (negsuc n) fallback = fallback

  unfoldable pub build_server : Options → List Bytes → Option Server
  unfolding or_default normalize_domain
  build_server options [] = none
  build_server options (d ∷ ds) = some (record {
    hostname = normalize_domain u options.hostname;
    domains = d ∷ ds;
    has_tls = options.has_tls;
    max_message_size = or_default options.max_message_size default_max_message_bytes;
    max_recipients = or_default options.max_recipients default_max_recipients;
    policy = options.policy;
  })

  -- NewServer, for options with a policy.
  unfoldable pub new_server : Options → Option Server
  unfolding read_domains build_server valid_domain normalize_domain
  new_server options =
      if valid_domain (normalize_domain u options.hostname) && options.has_delivery
      then read_domains options.domains >>= build_server options
      else none

-- The lookup in the map of the domains.
unfoldable pub serves : Server → Bytes → Bool
unfolding bytes_eq
serves server domain = any (λ d. bytes_eq d domain) server.domains

pub record Transaction : Type 0 where
  pub started : Bool
  pub from : Bytes
  pub recipients : List Bytes

unfoldable pub no_transaction : Transaction
no_transaction = record { started = false; from = []; recipients = [] }

unfoldable pub delivered_to : List Bytes → Bytes
delivered_to [] = []
delivered_to (r ∷ rs) = codes "Delivered-To: " ++ (r ++ (crlf ++ delivered_to rs))

-- deliveryHeaders; `received_at` is the formatted time.
unfoldable pub delivery_headers : Server → Bytes → Bytes → Bool → Transaction → Bytes → Bytes
unfolding delivered_to
delivery_headers server remote helo encrypted tx received_at =
    codes "Return-Path: <"
    ++ (tx.from
        ++ (codes ">"
            ++ (crlf
                ++ (delivered_to tx.recipients
                    ++ (codes "Received: from "
                        ++ (helo
                            ++ (codes " (["
                                ++ (remote
                                    ++ (codes "]) by "
                                        ++ (server.hostname
                                            ++ (codes " with "
                                                ++ ((if encrypted then codes "E" else [])
                                                    ++ (codes "SMTP; "
                                                        ++ (received_at ++ crlf))))))))))))))
