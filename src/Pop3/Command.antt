-- ===== src/Pop3/Command.antt =====
-- internal/pop3/server.go: command lines, message numbers and the texts of replies.
use picomx.Prelude.{
  ℕ, ◌&&◌, Option, none, some, List, [], ◌∷◌, ◌++◌, ltb, leb, if◌then◌else◌, ◌>>=◌, length,
}
use picomx.Text.Bytes.{Bytes, codes, bytes_eq, cut, trim_suffix}
use picomx.Text.Number.{max_uint64, parse_uint, format_uint}
use picomx.Text.Lines.{lf, cr, ends_with_lf}
use picomx.Text.Unicode.{Unicode, to_upper, trim_space, fields}

abbrev pub max_command_bytes : ℕ
max_command_bytes = 255

pub data Verb : Type 0 where
  capa user pass stat list uidl retr top dele rset noop quit unknown : Verb

-- The cases of the switch over the command.
unfoldable pub verb_of : Bytes → Verb
unfolding bytes_eq
verb_of c =
    if bytes_eq c (codes "CAPA")
    then capa
    else if bytes_eq c (codes "USER")
    then user
    else if bytes_eq c (codes "PASS")
    then pass
    else if bytes_eq c (codes "STAT")
    then stat
    else if bytes_eq c (codes "LIST")
    then list
    else if bytes_eq c (codes "UIDL")
    then uidl
    else if bytes_eq c (codes "RETR")
    then retr
    else if bytes_eq c (codes "TOP")
    then top
    else if bytes_eq c (codes "DELE")
    then dele
    else if bytes_eq c (codes "RSET")
    then rset
    else if bytes_eq c (codes "NOOP")
    then noop
    else if bytes_eq c (codes "QUIT")
    then quit
    else unknown

pub data Line : Type 0 where
  too_long : Line
  broken : Line
  text : Bytes → Line

-- readCommand on what stands up to the next line feed, or to the end of the stream.
unfoldable pub read_command : Bytes → Line
unfolding ends_with_lf trim_suffix bytes_eq
read_command raw =
    if ltb max_command_bytes (length raw)
    then too_long
    else if ends_with_lf raw
    then text (trim_suffix (trim_suffix raw (lf ∷ [])) (cr ∷ []))
    else broken

unfoldable pub split_command : Unicode → Bytes → Bytes × Bytes
unfolding cut to_upper
split_command u line = elim (cut b' ' line) [
  | none ↦ (to_upper u line, [])
  | some (command, argument) ↦ (to_upper u command, argument)
]

unfoldable pub in_range : ℕ → ℕ → Option ℕ
in_range last id = if ltb 0 id && leb id last then some id else none

-- messageID: a number from 1 to `last`.
unfoldable pub message_id : Unicode → Bytes → ℕ → Option ℕ
unfolding in_range parse_uint trim_space
message_id u argument last = parse_uint 10 max_uint64 (trim_space u argument) >>= in_range last

unfoldable pub top_fields : Unicode → List Bytes → ℕ → Option (ℕ × ℕ)
unfolding message_id parse_uint
top_fields u (number ∷ count ∷ []) last =
    message_id u number last >>= λ id. parse_uint 10 max_uint64 count >>= λ n. some (id, n)
top_fields u _ last = none

unfoldable pub top_arguments : Unicode → Bytes → ℕ → Option (ℕ × ℕ)
unfolding top_fields fields
top_arguments u argument last = top_fields u (fields u argument) last

unfoldable pub unique_id : ℕ → Bytes
unfolding format_uint
unique_id id = codes "picomx-" ++ format_uint 36 id

-- A number between two texts, as fmt.Sprintf writes it.
unfoldable pub decimal : ℕ → Bytes
unfolding format_uint
decimal n = format_uint 10 n
