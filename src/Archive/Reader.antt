-- ===== src/Archive/Reader.antt =====
-- internal/archive/read.go: reading objects through one `git cat-file --batch-command`. What the
-- program writes for a request is a parameter. The lock of the reader makes its requests follow one
-- another; the timer that stops an idle reader is left out.
pub mod Framing
pub mod Lease
pub mod Rounds
use picomx.Prelude.{
  ℕ, zero, suc, ◌+◌, ◌-◌, ◌*◌, ◌/◌, ◌%◌, ◌^◌, ◌≤◌, ◌<◌, ◌≡◌, refl, sym, ap, ◌∙◌, subst, ◌≢◌, ◌↔◌,
  ◌⊎◌, inl, inr, Bool, true, false, ◌&&◌, ◌||◌, not, Option, none, some, List, [], ◌∷◌, ◌++◌, map,
  reverse, append_assoc, append-nil, arith, ltb, leb, ◌==◌, if◌then◌else◌, ltb→lt, lt→ltb, leb→le,
  le→leb, ==_iff, Bool-cases, Option-cases, some_inj, unless-eq-some, length, get_elem?, set,
  replicate, take, drop, all, any, length-append, length-map, All, All-append,
}
use picomx.Text.Bytes.{Bytes, codes, bytes_eq, cut}
use picomx.Text.Number.{parse_size}
use picomx.Text.Unicode.{Unicode, fields}
use picomx.Archive.Errors.{Error, Result, ok, err, ◌>>=◌}

pub record ObjectHeader : Type 0 where
  pub oid : Bytes
  pub kind : Bytes
  pub size : ℕ

-- The child process: whether it starts, and what it writes for a request line; `none` is a request
-- that cannot be written to it.
pub record CatFile : Type 0 where
  pub starts : Bool
  pub answer : Bytes → Option Bytes

-- The reader with the output that was not read yet, while there is one.
pub record ReadState : Type 0 where
  pub read_closed : Bool
  pub reader : Option Bytes

pub record BlobReader : Type 0 where
  pub header : ObjectHeader
  pub remaining : ℕ
  pub closed : Bool
  pub close_error : Option Error

unfoldable pub is_hex_char : ℕ → Bool
is_hex_char c = (leb b'0' c && leb c b'9') || (leb b'a' c && leb c b'f')

unfoldable pub valid_object_id : Bytes → Bool
unfolding is_hex_char
valid_object_id id = (length id == 40 || length id == 64) && all is_hex_char id

unfoldable pub missing : Bytes
missing = codes " missing"

-- The output that is left, after a result.
abbrev pub Answer : Type 0 → Type 0
Answer A = Bytes × Result A

unfoldable pub read_header : Bytes → List Bytes → Result ObjectHeader
unfolding valid_object_id
read_header kind (oid ∷ k ∷ digits ∷ []) =
    if not (valid_object_id oid) || not (bytes_eq k kind)
    then err Error.bad_object
    else elim (parse_size digits) [
      | none ↦ err Error.bad_object
      | some size ↦ ok (record { oid = oid; kind = k; size = size })
    ]
read_header kind _ = err Error.bad_object

unfoldable pub line_breaks : Bytes → Bool
line_breaks spec = any (λ c. c == 13 || c == 10) spec

unfoldable pub request : Bytes → Bytes → Bytes
request command spec = command ++ b' ' ∷ (spec ++ 10 ∷ [])

-- readerLocked: the reader that runs, or a new one that has written nothing.
unfoldable pub reader_locked : CatFile → ReadState → ReadState × Result Bytes
reader_locked cat s = if s.read_closed then (s, err Error.archive_closed) else elim s.reader [
  | some output ↦ (s, ok output)
  | none ↦ if cat.starts then (record s { reader = some [] }, ok []) else (s, err Error.io_failed)
]

-- abortReaderLocked.
unfoldable pub abort_reader : ReadState → ReadState
abort_reader s = record s { reader = none }

-- closeReaderLocked; `waits` says whether the process ends well.
unfoldable pub close_reader : Bool → ReadState → ReadState × Result (Unit {0})
close_reader waits s = elim s.reader [
  | none ↦ (s, ok tt)
  | some output ↦ (record s { reader = none }, (if waits then ok tt else err Error.io_failed))
]

-- What a failed request leaves: `missing` keeps the reader, any other error stops it.
unfoldable pub settle : ReadState → Answer ObjectHeader → ReadState × Result ObjectHeader
unfolding abort_reader
settle s (output, ok header) = (record s { reader = some output }, ok header)
settle s (output, err Error.no_such_message) =
    (record s { reader = some output }, err Error.no_such_message)
settle s (output, err e) = (abort_reader s, err e)

unfoldable pub new_blob_reader : ObjectHeader → BlobReader
new_blob_reader header = record {
  header = header;
  remaining = header.size;
  closed = false;
  close_error = none;
}

unfoldable pub lease : ReadState × Result ObjectHeader → ReadState × Result BlobReader
unfolding new_blob_reader
lease (s, ok header) = (s, ok (new_blob_reader header))
lease (s, err e) = (s, err e)

module _ (u : Unicode) where
  -- The reply to a request: a line, `missing` or a header.
  unfoldable pub read_reply : Bytes → Bytes → Bytes → Answer ObjectHeader
  unfolding missing read_header fields
  read_reply spec kind output = elim (cut 10 output) [
    | none ↦ ([], err Error.io_failed)
    | some (line, rest) ↦
        if bytes_eq line (spec ++ missing)
        then (rest, err Error.no_such_message)
        else (rest, read_header kind (fields u line))
  ]

  unfoldable pub query_object : CatFile → Bytes → Bytes → Bytes → Bytes → Answer ObjectHeader
  unfolding line_breaks request read_reply
  query_object cat command spec kind output =
      if line_breaks spec
      then (output, err Error.bad_object)
      else elim (cat.answer (request command spec)) [
        | none ↦ (output, err Error.io_failed)
        | some reply ↦ read_reply spec kind (output ++ reply)
      ]

  unfoldable pub ask_reader :
      CatFile → Bytes → Bytes → Bytes → ReadState × Result Bytes → ReadState × Result ObjectHeader
  unfolding query_object settle
  ask_reader cat command spec kind (s, err e) = (s, err e)
  ask_reader cat command spec kind (s, ok output) =
      settle s (query_object cat command spec kind output)

  unfoldable pub ask : CatFile → Bytes → Bytes → Bytes → ReadState → ReadState × Result ObjectHeader
  unfolding reader_locked ask_reader
  ask cat command spec kind s = ask_reader cat command spec kind (reader_locked cat s)

  unfoldable pub object_info : CatFile → Bytes → Bytes → ReadState → ReadState × Result ObjectHeader
  unfolding ask
  object_info cat spec kind s = ask cat (codes "info") spec kind s

  unfoldable pub read_object : CatFile → Bytes → Bytes → ReadState → ReadState × Result BlobReader
  unfolding ask lease
  read_object cat spec kind s = lease (ask cat (codes "contents") spec kind s)

  unfoldable pub read_blob : CatFile → Bytes → Bytes → ReadState → ReadState × Result BlobReader
  unfolding read_object
  read_blob cat commit path s = read_object cat (commit ++ b':' ∷ path) (codes "blob") s

-- What Read returns.
pub data Outcome : Type 0 where
  bytes : Bytes → Outcome
  closed_file end_of_file unexpected_end : Outcome

-- One read of the pipe: no more than asked for, and one byte at least while there is one; how many
-- of them is up to the pipe.
unfoldable pub pipe_count : ℕ → ℕ → ℕ → ℕ
pipe_count arrived room available =
    let n = if ltb arrived room then suc arrived else room in
    if ltb available n then available else n

-- The buffer is cut to what is left of the object.
unfoldable pub read_count : ℕ → ℕ → ℕ → ℕ → ℕ
unfolding pipe_count
read_count arrived buffer remaining available =
    pipe_count arrived (if ltb remaining buffer then remaining else buffer) available

unfoldable pub read_pipe : ℕ → Bytes → BlobReader → (Bytes × BlobReader) × Outcome
read_pipe n output r =
    ((drop n output, record r { remaining = r.remaining - n }), bytes (take n output))

-- Read with a buffer of this size.
unfoldable pub read : ℕ → ℕ → Bytes → BlobReader → (Bytes × BlobReader) × Outcome
unfolding read_count read_pipe
read arrived buffer output r =
    if r.closed
    then ((output, r), closed_file)
    else if buffer == 0
    then ((output, r), bytes [])
    else if r.remaining == 0
    then ((output, r), end_of_file)
    else if length output == 0
    then ((output, r), unexpected_end)
    else read_pipe (read_count arrived buffer r.remaining (length output)) output r

-- The rest of the object and the line feed behind it; `none` is an error.
unfoldable pub drain : ℕ → Bytes → Option Bytes
drain remaining output =
    if ltb (length output) remaining
    then none
    else elim (drop remaining output) [ [] ↦ none | c ∷ rest ↦ if c == 10 then some rest else none ]

-- Close; `output` is what the pipe of the reader holds.
unfoldable pub close_blob : Bytes → BlobReader → ReadState → ReadState × BlobReader
unfolding drain abort_reader
close_blob output r s = if r.closed then (s, r) else elim (drain r.remaining output) [
  | some rest ↦ (record s { reader = some rest }, record r { closed = true })
  | none ↦ (abort_reader s, record r { closed = true; close_error = some Error.bad_object })
]
