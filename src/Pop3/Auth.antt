-- ===== src/Pop3/Auth.antt =====
-- internal/pop3/auth.go: one username and the SHA-256 digest of one app password. The digest
-- function is a parameter, and nothing is assumed of it.
use picomx.Prelude.{
  ◌+◌, ◌*◌, Bool, true, false, ◌&&◌, ◌||◌, Option, none, some, [], ◌∷◌, leb, ◌==◌, if◌then◌else◌,
  ◌>>=◌, length, replicate,
}
use picomx.Text.Bytes.{Bytes, bytes_eq}
use picomx.Text.Number.{digit_value}
use picomx.Text.Unicode.{Unicode, trim_space}

pub record Credentials : Type 0 where
  pub configured : Bool
  pub username_hash : Bytes
  pub password_hash : Bytes

-- hex.DecodeString.
unfoldable pub hex_decode : Bytes → Option Bytes
unfolding digit_value
hex_decode [] = some []
hex_decode (c ∷ []) = none
hex_decode (c ∷ d ∷ s) = digit_value c >>= λ hi. digit_value d >>= λ lo.
    if leb 16 hi || leb 16 lo then none else (hex_decode s >>= λ rest. some ((hi * 16 + lo) ∷ rest))

abbrev pub unconfigured : Credentials
unconfigured = record {
  configured = false;
  username_hash = replicate 32 0;
  password_hash = replicate 32 0;
}

module _ (u : Unicode) (sha256 : Bytes → Bytes) where
  unfoldable pub new_credentials : Bytes → Bytes → Option Credentials
  new_credentials username password_sha256 =
      let name = trim_space u username in
      let text = trim_space u password_sha256 in
      if bytes_eq name [] || bytes_eq text []
      then some unconfigured
      else (hex_decode text >>= λ digest.
          if length digest == 32
          then some
              (record { configured = true; username_hash = sha256 name; password_hash = digest })
          else none)

-- The three comparisons are joined by `&` on 0 and 1.
unfoldable pub authenticate : (Bytes → Bytes) → Credentials → Bytes → Bytes → Bool
unfolding bytes_eq
authenticate sha256 c username password =
    bytes_eq (sha256 username) c.username_hash
    && (bytes_eq (sha256 password) c.password_hash && c.configured)
