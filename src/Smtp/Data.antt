-- ===== src/Smtp/Data.antt =====
-- internal/smtp/server.go: dataReader, which reads the message behind DATA line by line.
pub mod Bounds
pub mod RoundTrip
use picomx.Prelude.{
  ℕ, zero, suc, ◌+◌, ◌-◌, ◌*◌, ◌/◌, ◌%◌, ◌^◌, ◌≤◌, ◌<◌, ◌≡◌, refl, sym, ap, ◌∙◌, subst, ◌≢◌, ◌↔◌,
  ◌⊎◌, inl, inr, Bool, true, false, ◌&&◌, ◌||◌, not, Option, none, some, List, [], ◌∷◌, ◌++◌, map,
  reverse, append_assoc, append-nil, arith, ltb, leb, ◌==◌, if◌then◌else◌, ltb→lt, lt→ltb, leb→le,
  le→leb, ==_iff, Bool-cases, Option-cases, ◌>>=◌, >>=-eq-some, some_inj, length, get_elem?, set,
  replicate, take, drop, all, any, length-append, length-map, All, All-append,
}
use picomx.Text.Bytes.{Bytes, codes, bytes_eq, trim_suffix}
use picomx.Text.Lines.{lf, cr, dot, crlf, dot_line, ends_with_lf}

abbrev pub max_data_line_bytes : ℕ
max_data_line_bytes = 1000

pub data DataError : Type 0 where
  message_too_large data_line_too_long unexpected_eof : DataError

-- bytes.TrimSuffix(line, "\n"), bytes.TrimSuffix(line, "\r"), and CRLF behind what is left.
unfoldable pub canonical_data_line : Bytes → Bytes
unfolding trim_suffix bytes_eq
canonical_data_line line = trim_suffix (trim_suffix line (lf ∷ [])) (cr ∷ []) ++ crlf

-- Of two dots at the front of a line one is dropped.
unfoldable pub undot : Bytes → Bytes
undot [] = []
undot (c ∷ []) = c ∷ []
undot (c ∷ d ∷ s) = if (c == dot) && (d == dot) then d ∷ s else c ∷ d ∷ s

-- What readLimitedLineRaw makes of what stands up to the next line feed, or to the end of the
-- stream. The buffer holds more than the limit, so a full buffer is a line over the limit.
unfoldable pub read_limited_line_raw : ℕ → Bytes → Option DataError
unfolding ends_with_lf
read_limited_line_raw limit line =
    if ltb limit (length line)
    then some data_line_too_long
    else if ends_with_lf line
    then none
    else some unexpected_eof

pub data Read : Type 0 where
  end_of_data : Read
  pending : Bytes → Read
  refuse : DataError → Read

-- One line of Read. `max_bytes` and `bytes_read` are the fields of the reader.
unfoldable pub read_line : ℕ → ℕ → Bytes → Read
read_line max_bytes bytes_read line = elim (read_limited_line_raw max_data_line_bytes line) [
  | some e ↦ refuse e
  | none ↦
      if bytes_eq line dot_line || bytes_eq line (dot ∷ lf ∷ [])
      then end_of_data
      else (let canonical = canonical_data_line (undot line) in
          if ltb max_data_line_bytes (length canonical)
          then refuse data_line_too_long
          else if ltb max_bytes (bytes_read + length canonical)
          then refuse message_too_large
          else pending canonical)
]

-- The chunks that the reader gives, the error that ended it, if any, and the lines left unread.
pub record DataRead : Type 0 where
  pub chunks : List Bytes
  pub error : Option DataError
  pub unread : List Bytes

unfoldable pub add_chunk : Bytes → DataRead → DataRead
add_chunk chunk r = record r { chunks = chunk ∷ r.chunks }

unfoldable pub read_data : ℕ → ℕ → List Bytes → DataRead
unfolding add_chunk
read_data max_bytes bytes_read [] = record { chunks = []; error = some unexpected_eof; unread = [] }
read_data max_bytes bytes_read (line ∷ ls) = elim (read_line max_bytes bytes_read line) [
  | end_of_data ↦ record { chunks = []; error = none; unread = ls }
  | pending chunk ↦ add_chunk chunk (read_data max_bytes (bytes_read + length chunk) ls)
  | refuse e ↦ record { chunks = []; error = some e; unread = ls }
]
