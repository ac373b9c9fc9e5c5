-- ===== src/Pop3/Mailbox.antt =====
-- internal/pop3/server.go: the mailbox that a server serves, and the map of marked messages.
use picomx.Prelude.{ℕ, Bool, not, Option, List, [], ◌∷◌, ◌==◌, if◌then◌else◌}
use picomx.Text.Bytes.{Bytes}
use picomx.Text.Unicode.{Unicode}
use picomx.Archive.MessagePath.{Message}
use picomx.Pop3.Stream.{Source}
use picomx.Pop3.Auth.{Credentials}

-- The interface `mailbox`. A failed call is `none` or `false`; what ListAt visited before it failed
-- has been visited.
pub record Mailbox : Type 1 where
  pub Store : Type 0
  pub Snapshot : Type 0
  pub no_snapshot : Snapshot
  pub count : Snapshot → ℕ
  pub total_octets : Snapshot → ℕ
  pub take_snapshot : Store → Snapshot
  pub list_at : Store → Snapshot → List (ℕ × ℕ × ℕ) × Bool
  pub lookup : Store → Snapshot → ℕ → Option Message
  pub open_message : Store → Snapshot → Message → Option Source
  pub delete_as : Store → List ℕ → Bytes → Store × Bool

pub record Server : Type 0 where
  pub unicode : Unicode
  pub sha256 : Bytes → Bytes
  pub hostname : Bytes
  pub credentials : Credentials
  pub max_auth_failures : ℕ

-- The map `deleted` from message numbers to permanent IDs; a missing number is 0.
abbrev pub Deleted : Type 0
Deleted = List (ℕ × ℕ)

unfoldable pub permanent_id : Deleted → ℕ → ℕ
permanent_id [] n = 0
permanent_id ((m, id) ∷ d) n = if m == n then id else permanent_id d n

unfoldable pub mark : Deleted → ℕ → ℕ → Deleted
mark [] n id = (n, id) ∷ []
mark ((m, old) ∷ d) n id = if m == n then (n, id) ∷ d else (m, old) ∷ mark d n id

unfoldable pub is_deleted : Deleted → ℕ → Bool
unfolding permanent_id
is_deleted d n = not (permanent_id d n == 0)

unfoldable pub permanent_ids : Deleted → List ℕ
permanent_ids [] = []
permanent_ids ((n, id) ∷ d) = id ∷ permanent_ids d
