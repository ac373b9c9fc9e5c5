-- ===== src/Smtp/Policy.antt =====
-- internal/config/policy.go, and how internal/smtp/server.go asks the policy.
use picomx.Prelude.{ℕ, Bool, ◌&&◌, Option, none, some, List, [], ◌∷◌, ◌++◌, map, if◌then◌else◌}
use picomx.Text.Bytes.{Bytes, bytes_eq}
use picomx.Text.Unicode.{Unicode}
use picomx.Smtp.Address.{cut_at, normalize_domain}

pub record Address : Type 0 where
  pub local : Bytes
  pub domain : Bytes

-- The text of an address: String of policy.go.
unfoldable pub address_text : Address → Bytes
unfolding bytes_eq
address_text a =
    if bytes_eq a.local [] && bytes_eq a.domain [] then [] else a.local ++ b'@' ∷ a.domain

-- `remote_ip` is the text that netip.ParseAddr reads.
pub record ConnectionInfo : Type 0 where
  pub remote_ip : Bytes
  pub helo : Bytes
  pub tls : Bool

pub record RecipientRequest : Type 0 where
  pub connection : ConnectionInfo
  pub envelope_from : Address
  pub recipient : Address

pub record MessageMetadata : Type 0 where
  pub connection : ConnectionInfo
  pub envelope_from : Address
  pub recipients : List Address
  pub received_at : Bytes
  pub octets : ℕ

-- The actions are numbers in Go, so a policy may answer with one that has no name.
pub data RecipientAction : Type 0 where
  recipient_reject_policy recipient_reject_unknown recipient_temp_fail recipient_accept :
      RecipientAction
  recipient_other : ℕ → RecipientAction

pub data MessageAction : Type 0 where
  message_temp_fail message_reject_policy message_accept : MessageAction
  message_other : ℕ → MessageAction

-- A local policy. It may answer differently each time, so it is given the number of the question,
-- and it gives none when it panics. The content of a message is what its reader opens.
pub record SmtpPolicy : Type 0 where
  pub recipient_action : ℕ → RecipientRequest → Option RecipientAction
  pub message_action : ℕ → MessageMetadata → Bytes → Option MessageAction

-- defaultSMTPPolicy.
unfoldable pub default_smtp_policy : SmtpPolicy
default_smtp_policy = record {
  recipient_action = λ n request. some recipient_accept;
  message_action = λ n metadata content. some message_accept;
}

-- A policy that panics fails for the moment.
unfoldable pub evaluate_recipient : SmtpPolicy → ℕ → RecipientRequest → RecipientAction
evaluate_recipient policy n request = elim (policy.recipient_action n request) [
  | none ↦ recipient_temp_fail
  | some action ↦ action
]

unfoldable pub evaluate_message : SmtpPolicy → ℕ → MessageMetadata → Bytes → MessageAction
evaluate_message policy n metadata content = elim (policy.message_action n metadata content) [
  | none ↦ message_temp_fail
  | some action ↦ action
]

unfoldable pub split_address : Unicode → Bytes × Bytes → Address
unfolding normalize_domain
split_address u (local, domain) = record { local = local; domain = normalize_domain u domain }

unfoldable pub envelope_address : Unicode → Bytes → Address
unfolding cut_at bytes_eq split_address
envelope_address u address =
    if bytes_eq address []
    then record { local = []; domain = [] }
    else split_address u (cut_at b'@' address)

unfoldable pub envelope_addresses : Unicode → List Bytes → List Address
unfolding envelope_address
envelope_addresses u addresses = map (envelope_address u) addresses
