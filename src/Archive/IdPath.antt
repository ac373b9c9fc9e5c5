-- ===== src/Archive/IdPath.antt =====
-- internal/archive/idpath.go: the path of a message in the Git tree, and back.
pub mod Digits
pub mod RoundTrip
use picomx.Prelude.{
  ℕ, zero, suc, ◌+◌, ◌-◌, ◌*◌, ◌/◌, ◌%◌, Bool, ◌||◌, List, [], ◌∷◌, ◌++◌, map, reverse, Option,
  none, some, ltb, ◌==◌, if◌then◌else◌, ◌>>=◌, length, replicate,
}
use picomx.Text.Bytes.{Bytes, codes, bytes_eq, split, join, trim_suffix}
use picomx.Text.Number.{max_uint64, parse_uint, format_uint}

abbrev pub id_radix : ℕ
id_radix = 1024

-- The loop `for id > 0`, least digit first. A number of 64 bits has at most 7 digits.
unfoldable pub id_digits : ℕ → ℕ → List ℕ
id_digits zero id = []
id_digits (suc fuel) id =
    let rest = id_digits fuel (id / id_radix) in if id == 0 then [] else (id % id_radix) ∷ rest

-- fmt.Sprintf("%03x", digit), and fmtDigit of directories.go.
unfoldable pub fmt_digit : ℕ → Bytes
unfolding format_uint
fmt_digit digit = let text = format_uint 16 digit in replicate (3 - length text) b'0' ++ text

abbrev pub eml : Bytes
eml = codes ".eml"

-- The components behind the depth, greatest digit first; the last one has the suffix.
unfoldable pub components : List ℕ → List Bytes
unfolding fmt_digit
components [] = []
components (d ∷ ds) = map fmt_digit (reverse ds) ++ ((fmt_digit d ++ eml) ∷ [])

-- The parts are not empty and hold no dots alone, so filepath.Join only joins them.
unfoldable pub message_relative_path : ℕ → Option Bytes
message_relative_path id =
    if id == 0
    then none
    else (let digits = id_digits 7 id in
        some (join b'/' (format_uint 10 (length digits) ∷ components digits)))

-- One round of the loop of messageIDFromPath.
unfoldable pub next_id : ℕ → Bytes → Option ℕ
next_id id part = parse_uint 16 1023 (trim_suffix part eml) >>= λ digit.
    if ltb ((max_uint64 - digit) / id_radix) id then none else some (id * id_radix + digit)

unfoldable pub fold_parts : ℕ → List Bytes → Option ℕ
fold_parts id [] = some id
fold_parts id (part ∷ parts) = next_id id part >>= λ id'. fold_parts id' parts

-- The last test: the path is the one that the ID has.
unfoldable pub check_path : Bytes → ℕ → Option ℕ
check_path path id =
    message_relative_path id >>= λ expected. if bytes_eq expected path then some id else none

unfoldable pub id_from_parts : Bytes → List Bytes → Option ℕ
id_from_parts path [] = none
id_from_parts path (depth ∷ []) = none
id_from_parts path (depth ∷ part ∷ parts) = fold_parts 0 (part ∷ parts) >>= λ id. check_path path id

unfoldable pub message_id_from_path : Bytes → Option ℕ
message_id_from_path path = id_from_parts path (split b'/' path)
