-- ===== src/Archive/Maintenance.antt =====
-- internal/archive/maintenance.go: one garbage collection, and when the next one is tried. Which locks
-- are free and how each call of Git ends are arguments.
use picomx.Prelude.{
  ◌⊎◌, ℕ, ◌*◌, ◌^◌, ◌≡◌, Bool, true, false, ◌&&◌, ◌||◌, not, Option, none, some, ◌==◌,
  if◌then◌else◌,
}
use picomx.Text.Bytes.{Bytes, bytes_eq}
use picomx.Archive.Errors.{Error}
use picomx.Archive.Reader.{ReadState}

-- The fields of the store that maintenance reads and writes.
pub record Upkeep : Type 0 where
  pub closed : Bool
  pub importer : Bool
  pub reading : ReadState
  pub failure : Option Error
  pub head_id : Bytes
  pub last_maintenance_head : Bytes
  pub commits_since_maintenance : ℕ

pub record Calls : Type 0 where
  pub read_free : Bool
  pub store_free : Bool
  pub git_free : Bool
  pub cancelled : Bool
  pub importer_closes : Bool
  pub reader_closes : Bool
  pub collects : Bool

pub data Maintained : Type 0 where
  completed busy : Maintained
  stopped : Error → Maintained

-- The collection itself, behind the processes that were closed.
unfoldable pub collect_garbage : Calls → Upkeep → Upkeep × Maintained
collect_garbage c s =
    if c.collects
    then (record s { last_maintenance_head = s.head_id; commits_since_maintenance = 0 }, completed)
    else (s, stopped Error.io_failed)

unfoldable pub close_reading : Calls → Upkeep → Upkeep × Maintained
unfolding collect_garbage
close_reading c s = elim s.reading.reader [
  | none ↦ collect_garbage c s
  | some output ↦
      let s' = record s { reading = record s.reading { reader = none } } in
      if c.reader_closes then collect_garbage c s' else (s', stopped Error.io_failed)
]

-- The importer is closed first; when that fails, the store has failed.
unfoldable pub close_processes : Calls → Upkeep → Upkeep × Maintained
unfolding close_reading
close_processes c s =
    if not s.importer
    then close_reading c s
    else if c.importer_closes
    then close_reading c (record s { importer = false })
    else (
      record s { importer = false; failure = some Error.importer_failed },
      stopped Error.importer_failed,
    )

unfoldable pub unless_cancelled : Calls → Upkeep → Bool → Upkeep × Maintained
unfolding close_processes
unless_cancelled c s true = (s, stopped Error.io_failed)
unless_cancelled c s false = close_processes c s

unfoldable pub maintain_open : Calls → Upkeep → Option Error → Upkeep × Maintained
unfolding unless_cancelled bytes_eq
maintain_open c s (some e) = (s, stopped e)
maintain_open c s none =
    if bytes_eq s.last_maintenance_head s.head_id
    then (s, completed)
    else unless_cancelled c s c.cancelled

unfoldable pub maintain : Calls → Upkeep → Upkeep × Maintained
unfolding maintain_open
maintain c s =
    if not (c.read_free && (c.store_free && c.git_free))
    then (s, busy)
    else if s.closed || s.reading.read_closed
    then (s, stopped Error.archive_closed)
    else maintain_open c s s.failure

abbrev pub second : ℕ
second = 10 ^ 9

-- How long RunMaintenance waits behind an attempt.
unfoldable pub retry_delay : ℕ → Maintained → ℕ
retry_delay interval completed = interval
retry_delay interval busy = 60 * second
retry_delay interval (stopped e) = 3600 * second

unfoldable pub effective_interval : ℕ → ℕ
effective_interval interval = if interval == 0 then 6 * 3600 * second else interval

-- What a completed attempt has done: nothing for a head that was recorded, or a collection, with both
-- processes closed.
abbrev pub IsCompleted : Calls → Upkeep → Upkeep → Type 0
IsCompleted c s s' =
    ((s.last_maintenance_head ≡ s.head_id) × (s' ≡ s))
    ⊎ ((c.collects ≡ true)
        × (s'.last_maintenance_head ≡ s.head_id)
        × (s'.commits_since_maintenance ≡ 0)
        × (s'.importer ≡ false)
        × (s'.reading.reader ≡ none)
        × (s'.head_id ≡ s.head_id)
        × (s'.failure ≡ none))

-- What an attempt has done, by its result.
unfoldable pub IsMaintained : Calls → Upkeep → Upkeep × Maintained → Type 0
IsMaintained c s (s', completed) = IsCompleted c s s'
IsMaintained c s (s', busy) = s' ≡ s
IsMaintained c s (s', stopped e) =
    (s'.last_maintenance_head ≡ s.last_maintenance_head)
    × (s'.commits_since_maintenance ≡ s.commits_since_maintenance)
    × ((s'.failure ≡ s.failure) ⊎ ((s.importer ≡ true) × (c.importer_closes ≡ false)))

-- The store while its processes are being closed.
record IsClosing (s t : Upkeep) : Type 0 where
  same_head : t.head_id ≡ s.head_id
  healthy : t.failure ≡ none
  was_healthy : s.failure ≡ none
  same_record : t.last_maintenance_head ≡ s.last_maintenance_head
  same_count : t.commits_since_maintenance ≡ s.commits_since_maintenance
  no_importer : t.importer ≡ false
