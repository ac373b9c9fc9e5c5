-- ===== src/Archive/Quota.antt =====
-- internal/archive/quota.go: the daily budget of received bytes.
use picomx.Prelude.{ℕ, ◌-◌, ◌*◌, ◌^◌, Bool, ◌&&◌, Option, none, some, ltb, leb, if◌then◌else◌}
use picomx.Text.Bytes.{Bytes}
use picomx.Archive.Directories.Index.{bytes_ltb}

abbrev pub minimum_receipt_charge : ℕ
minimum_receipt_charge = 4096

abbrev pub default_max_daily_bytes : ℕ
default_max_daily_bytes = 50 * 2 ^ 20

-- `day` is a text YYYY-MM-DD, compared as Go compares strings.
pub record DailyReceipt : Type 0 where
  pub day : Bytes
  pub charged_bytes : ℕ

-- The day to charge and what is charged to it: a receipt of a later day than the clock's stays.
unfoldable pub receipt_usage : Option DailyReceipt → Bytes → Bytes × ℕ
unfolding bytes_ltb
receipt_usage none today = (today, 0)
receipt_usage (some usage) today =
    if bytes_ltb usage.day today then (today, 0) else (usage.day, usage.charged_bytes)

-- canReserveLocked, for a limit, what is reserved, what is used and what is asked for.
unfoldable pub can_reserve : ℕ → ℕ → ℕ → ℕ → Bool
can_reserve limit reserved used extra =
    leb used limit && (leb reserved (limit - used) && leb extra (limit - used - reserved))

-- What a message costs: its bytes, and at least the minimum.
unfoldable pub charge : ℕ → ℕ
charge bytes = if ltb bytes minimum_receipt_charge then minimum_receipt_charge else bytes
