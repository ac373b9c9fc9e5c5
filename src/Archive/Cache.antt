-- ===== src/Archive/Cache.antt =====
-- internal/archive/cache.go: the directories that were read last. The list of recency holds the
-- entries, and the map only says where in the list a key stands, so the list models both.
pub mod Recency
use picomx.Prelude.{
  ℕ, zero, suc, ◌+◌, ◌-◌, ◌*◌, ◌/◌, ◌%◌, ◌^◌, ◌≤◌, ◌<◌, ◌≡◌, refl, sym, ap, ◌∙◌, subst, ◌≢◌, ◌↔◌,
  ◌⊎◌, inl, inr, Bool, true, false, ◌&&◌, ◌||◌, not, Option, none, some, List, [], ◌∷◌, ◌++◌, map,
  reverse, append_assoc, append-nil, arith, ltb, leb, ◌==◌, if◌then◌else◌, ltb→lt, lt→ltb, leb→le,
  le→leb, ==_iff, Bool-cases, Option-cases, ◌>>=◌, >>=-eq-some, some_inj, unless-eq-some, length,
  get_elem?, set, replicate, take, drop, all, any, length-append, length-map, All, All-append,
}
use picomx.Text.Bytes.{Bytes, bytes_eq}
use picomx.Archive.MessagePath.{Message}

abbrev pub directory_cache_capacity : ℕ
directory_cache_capacity = 64

pub record DirectoryKey : Type 0 where
  pub path : Bytes
  pub tree : Bytes

pub record CachedDirectory : Type 0 where
  pub key : DirectoryKey
  pub messages : List Message

pub record DirectoryCache : Type 0 where
  pub capacity : ℕ
  pub recency : List CachedDirectory

unfoldable pub new_directory_cache : ℕ → DirectoryCache
new_directory_cache capacity = record { capacity = capacity; recency = [] }

unfoldable pub same_key : DirectoryKey → DirectoryKey → Bool
unfolding bytes_eq
same_key k l = bytes_eq k.path l.path && bytes_eq k.tree l.tree

-- The lookup in the map.
unfoldable pub find_entry : DirectoryKey → List CachedDirectory → Option (List Message)
unfolding same_key
find_entry k [] = none
find_entry k (e ∷ es) = if same_key k e.key then some e.messages else find_entry k es

unfoldable pub take_out : DirectoryKey → List CachedDirectory → List CachedDirectory
unfolding same_key
take_out k [] = []
take_out k (e ∷ es) = if same_key k e.key then es else e ∷ take_out k es

-- The entry of a key that is there, at the front and with these messages.
unfoldable pub move_to_front : DirectoryCache → DirectoryKey → List Message → DirectoryCache
unfolding take_out
move_to_front c k ms = record c {
  recency = record { key = k; messages = ms } ∷ take_out k c.recency;
}

unfoldable pub get : DirectoryCache → DirectoryKey → DirectoryCache × Option (List Message)
unfolding find_entry move_to_front
get c k = elim (find_entry k c.recency) [
  | none ↦ (c, none)
  | some ms ↦ (move_to_front c k ms, some ms)
]

unfoldable pub drop_back : List CachedDirectory → List CachedDirectory
drop_back [] = []
drop_back (e ∷ []) = []
drop_back (e ∷ f ∷ es) = e ∷ drop_back (f ∷ es)

-- A new entry at the front; the last one goes when there are too many.
unfoldable pub push_front : DirectoryCache → CachedDirectory → DirectoryCache
unfolding drop_back
push_front c e =
    if ltb c.capacity (length (e ∷ c.recency))
    then record c { recency = drop_back (e ∷ c.recency) }
    else record c { recency = e ∷ c.recency }

unfoldable pub put : DirectoryCache → DirectoryKey → List Message → DirectoryCache
unfolding find_entry move_to_front push_front
put c k ms = elim (find_entry k c.recency) [
  | some _ ↦ move_to_front c k ms
  | none ↦ push_front c (record { key = k; messages = ms })
]
