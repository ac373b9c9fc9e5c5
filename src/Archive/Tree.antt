-- ===== src/Archive/Tree.antt =====
-- internal/archive/tree.go: the entries of a Git tree, and the messages of a directory.
pub mod Cached
pub mod Source
pub mod Sorted
pub mod Encoding
pub mod Decoding
use picomx.Prelude.{
  ℕ, zero, suc, ◌+◌, ◌-◌, ◌*◌, ◌/◌, ◌%◌, ◌^◌, ◌≤◌, ◌<◌, ◌≡◌, refl, sym, ap, ◌∙◌, subst, ◌≢◌, ◌↔◌,
  ◌⊎◌, inl, inr, Bool, true, false, ◌&&◌, ◌||◌, not, Option, none, some, List, [], ◌∷◌, ◌++◌, map,
  reverse, append_assoc, append-nil, arith, ltb, leb, ◌==◌, if◌then◌else◌, ltb→lt, lt→ltb, leb→le,
  le→leb, ==_iff, Bool-cases, Option-cases, some_inj, unless-eq-some, length, get_elem?, set,
  replicate, take, drop, all, any, length-append, length-map, All, All-append,
}
use picomx.Text.Bytes.{Bytes, codes, bytes_eq, cut}
use picomx.Text.Number.{digit_char}
use picomx.Text.Unicode.{Unicode}
use picomx.Archive.Errors.{Error, Result, ok, err, ◌>>=◌, ◌>>◌, fail_if}
use picomx.Archive.IdPath.{id_radix}
use picomx.Archive.MessagePath.{Message, message_from_path}
use picomx.Archive.Cache.{DirectoryKey, DirectoryCache, get, put}
use picomx.Archive.Reader.{
  ObjectHeader, CatFile, ReadState, BlobReader, object_info, read_object, close_blob,
}
use picomx.Archive.Reader.Lease.{Read, read_all}

pub record TreeEntry : Type 0 where
  pub mode : Bytes
  pub name : Bytes
  pub oid : Bytes

-- hex.EncodeToString.
unfoldable pub hex : Bytes → Bytes
unfolding digit_char
hex [] = []
hex (b ∷ s) = digit_char (b / 16) ∷ digit_char (b % 16) ∷ hex s

unfoldable pub member : Bytes → List Bytes → Bool
unfolding bytes_eq
member name seen = any (bytes_eq name) seen

unfoldable pub bad_name : Bytes → Bool
unfolding bytes_eq
bad_name name =
    length name == 0
    || any (λ c. (c == b'/' || c == 13) || c == 10) name
    || (bytes_eq name (codes ".") || bytes_eq name (codes ".."))

unfoldable pub is_mode : Bytes → Bool
unfolding bytes_eq
is_mode mode = bytes_eq mode (codes "40000") || bytes_eq mode (codes "100644")

unfoldable pub refused_entry : List Bytes → Bytes → Bytes → Bool
unfolding bad_name member is_mode
refused_entry seen mode name = (bad_name name || member name seen) || not (is_mode mode)

-- One entry, from its mode and name and from what stands behind the zero byte.
unfoldable pub make_entry : ℕ → List Bytes → Bytes → Bytes × Bytes → Result (TreeEntry × Bytes)
unfolding refused_entry hex
make_entry hash_bytes seen rest (mode, name) =
    if refused_entry seen mode name
    then err Error.bad_tree
    else ok (
      record { mode = mode; name = name; oid = hex (take hash_bytes rest) },
      drop hash_bytes rest,
    )

unfoldable pub read_entry : ℕ → List Bytes → Bytes × Bytes → Result (TreeEntry × Bytes)
unfolding make_entry cut
read_entry hash_bytes seen (head, rest) =
    if ltb (length rest) hash_bytes then err Error.bad_tree else elim (cut b' ' head) [
      | none ↦ err Error.bad_tree
      | some parts ↦ make_entry hash_bytes seen rest parts
    ]

unfoldable pub next_entry : ℕ → List Bytes → Bytes → Result (TreeEntry × Bytes)
unfolding read_entry cut
next_entry hash_bytes seen data' = elim (cut 0 data') [
  | none ↦ err Error.bad_tree
  | some parts ↦ read_entry hash_bytes seen parts
]

-- The loop, with fuel: each round takes one byte at least. `seen` holds the names read so far.
unfoldable pub parse_entries : ℕ → ℕ → List Bytes → Bytes → Result (List TreeEntry)
unfolding next_entry
parse_entries zero hash_bytes seen data' = err Error.bad_tree
parse_entries (suc fuel) hash_bytes seen [] = ok []
parse_entries (suc fuel) hash_bytes seen (c ∷ s) = next_entry hash_bytes seen (c ∷ s) >>= λ p.
    parse_entries fuel hash_bytes (p.0.name ∷ seen) p.1 >>= λ es. ok (p.0 ∷ es)

unfoldable pub parse_tree : Bytes → ℕ → Result (List TreeEntry)
unfolding parse_entries
parse_tree data' hash_bytes = parse_entries (suc (length data')) hash_bytes [] data'

abbrev pub max_tree : ℕ
max_tree = 256 * 1024

-- The entries and the ID of a tree whose bytes were read.
unfoldable pub finish_tree : Bytes → Result Bytes → Result (List TreeEntry × Bytes)
unfolding parse_tree
finish_tree oid read_bytes = read_bytes >>= λ data'.
    parse_tree data' (length oid / 2) >>= λ entries.
    fail_if (ltb (id_radix + 3) (length entries)) Error.bad_tree >> ok (entries, oid)

-- An error of Close is one of the tree.
unfoldable pub close_tree :
    ReadState × BlobReader → Result Bytes → ReadState × Result (List TreeEntry × Bytes)
unfolding finish_tree
close_tree (s, r) read_bytes =
    (s, elim r.close_error [ none ↦ finish_tree r.header.oid read_bytes | some e ↦ err e ])

unfoldable pub after_read_all : ReadState → Read → ReadState × Result (List TreeEntry × Bytes)
unfolding close_blob close_tree
after_read_all s ((output, r), read_bytes) = close_tree (close_blob output r s) read_bytes

-- The reader of the tree, on what the pipe holds.
unfoldable pub read_tree :
    (ℕ → ℕ × ℕ) → ReadState → Bytes → BlobReader → ReadState × Result (List TreeEntry × Bytes)
unfolding after_read_all read_all close_blob
read_tree schedule s output r =
    if ltb max_tree r.remaining
    then ((close_blob output r s).0, err Error.bad_tree)
    else after_read_all s (read_all schedule (suc r.remaining) output r)

unfoldable pub use_tree :
    (ℕ → ℕ × ℕ) → ReadState × Result BlobReader → ReadState × Result (List TreeEntry × Bytes)
unfolding read_tree
use_tree schedule (s, err e) = (s, err e)
use_tree schedule (s, ok r) = elim s.reader [
  | none ↦ (s, err Error.bad_object)
  | some output ↦ read_tree schedule s output r
]

unfoldable pub tree :
    Unicode
    → CatFile
    → (ℕ → ℕ × ℕ)
    → Bytes
    → ReadState
    → ReadState × Result (List TreeEntry × Bytes)
unfolding use_tree read_object
tree u cat schedule spec s = use_tree schedule (read_object u cat spec (codes "tree") s)

-- The loop over the entries of a directory of messages.
unfoldable pub entry_message : Bytes → TreeEntry → Result Message
unfolding bytes_eq message_from_path
entry_message path e =
    if not (bytes_eq e.mode (codes "100644"))
    then err Error.bad_tree
    else elim (message_from_path (path ++ b'/' ∷ e.name)) [
      | none ↦ err Error.not_a_message
      | some m ↦ ok m
    ]

unfoldable pub entry_messages : Bytes → List TreeEntry → Result (List Message)
unfolding entry_message
entry_messages path [] = ok []
entry_messages path (e ∷ es) =
    entry_message path e >>= λ m. entry_messages path es >>= λ ms. ok (m ∷ ms)

-- sort.Slice by ID; messages with one ID end the operation, so their order is of no matter.
unfoldable pub insert_message : Message → List Message → List Message
insert_message m [] = m ∷ []
insert_message m (n ∷ ns) = if ltb n.id m.id then n ∷ insert_message m ns else m ∷ n ∷ ns

unfoldable pub sort_messages : List Message → List Message
unfolding insert_message
sort_messages [] = []
sort_messages (m ∷ ms) = insert_message m (sort_messages ms)

unfoldable pub has_duplicate : List Message → Bool
has_duplicate [] = false
has_duplicate (m ∷ []) = false
has_duplicate (m ∷ n ∷ ns) = m.id == n.id || has_duplicate (n ∷ ns)

-- The messages of a directory, in ascending order of ID.
unfoldable pub directory_messages : Bytes → List TreeEntry → Result (List Message)
unfolding entry_messages sort_messages has_duplicate
directory_messages path entries = entry_messages path entries >>= λ ms.
    let sorted = sort_messages ms in fail_if (has_duplicate sorted) Error.duplicate_id >> ok sorted
