-- ===== src/Tls/Manager.antt =====
-- internal/tlscert/manager.go: the certificate that the servers share, its reload and its warnings.
-- The locks make each of these steps a whole; a time is a number of nanoseconds.
use picomx.Prelude.{
  ℕ, ◌+◌, ◌*◌, ◌^◌, Bool, true, false, ◌&&◌, ◌||◌, not, Option, none, some, List, [], ◌∷◌, ltb, leb,
  ◌==◌, if◌then◌else◌,
}
use picomx.Text.Bytes.{Bytes, bytes_eq}
use picomx.Text.Unicode.{Unicode}
use picomx.Tls.Hostnames.{normalize_hostnames}
use picomx.Tls.Load.{
  LoadedCertificate, LoadError, Load, failed, loaded, not_valid_now, bad_hostname, Machine,
  load_certificate,
}

pub data Level : Type 0 where
  expired one_day seven_days thirty_days : Level

pub data Event : Type 0 where
  reloaded : Bytes → Event
  warned : ℕ → Level → Event
  reload_failed : LoadError → Event

-- `last_warning` is the key of the last warning, a time and a level. `log` has the last event first.
pub record Manager : Type 0 where
  pub cert_dir : Bytes
  pub hostnames : List Bytes
  pub current : LoadedCertificate
  pub last_warning : Option (ℕ × Level)
  pub log : List Event

abbrev pub hours : ℕ → ℕ
hours n = n * 3600 * 10 ^ 9

-- What is left of the time to `not_after` is compared as a sum, since it may be below zero.
unfoldable pub expiration_level : ℕ → ℕ → Option Level
expiration_level not_after now =
    if leb not_after now
    then some expired
    else if leb not_after (now + hours 24)
    then some one_day
    else if leb not_after (now + hours (7 * 24))
    then some seven_days
    else if leb not_after (now + hours (30 * 24))
    then some thirty_days
    else none

unfoldable pub level_number : Level → ℕ
level_number expired = 0
level_number one_day = 1
level_number seven_days = 2
level_number thirty_days = 3

unfoldable pub same_warning : Option (ℕ × Level) → ℕ → Level → Bool
unfolding level_number
same_warning none not_after level = false
same_warning (some (t, l)) not_after level = t == not_after && level_number l == level_number level

-- reportExpiration: a warning is logged once for each certificate and level.
unfoldable pub report_expiration : ℕ → Manager → Manager
unfolding expiration_level same_warning
report_expiration now m = elim (expiration_level m.current.leaf.not_after now) [
  | none ↦ m
  | some level ↦
      if same_warning m.last_warning m.current.leaf.not_after level then m else record m {
        last_warning = some (m.current.leaf.not_after, level);
        log = warned m.current.leaf.not_after level ∷ m.log;
      }
]

unfoldable pub unchanged : LoadedCertificate → LoadedCertificate → Bool
unfolding bytes_eq
unchanged c d = bytes_eq c.hash d.hash && bytes_eq c.directory d.directory

unfoldable pub is_valid_at : ℕ → LoadedCertificate → Bool
is_valid_at now c = not (ltb now c.leaf.not_before || leb c.leaf.not_after now)

unfoldable pub swap : ℕ → Manager → LoadedCertificate → Manager
unfolding report_expiration
swap now m next =
    report_expiration now
      (record m { current = next; last_warning = none; log = reloaded next.directory ∷ m.log })

-- Reload: the manager, and whether the certificate was swapped.
unfoldable pub offer : ℕ → Manager → Load LoadedCertificate → Manager × Load Bool
unfolding unchanged is_valid_at swap
offer now m (failed e) = (m, failed e)
offer now m (loaded next) =
    if unchanged m.current next
    then (m, loaded false)
    else if is_valid_at now next
    then (swap now m next, loaded true)
    else (m, failed not_valid_now)

module _ (u : Unicode) where
  unfoldable pub reload : Machine → ℕ → Manager → Manager × Load Bool
  unfolding offer load_certificate
  reload machine now m = offer now m (load_certificate u machine m.cert_dir m.hostnames)

  unfoldable pub first_report : ℕ → Bytes → List Bytes → Load LoadedCertificate → Load Manager
  unfolding report_expiration
  first_report now cert_dir names (failed e) = failed e
  first_report now cert_dir names (loaded c) = loaded (
      report_expiration now (record {
        cert_dir = cert_dir;
        hostnames = names;
        current = c;
        last_warning = none;
        log = [];
      }))

  -- New.
  unfoldable pub new_manager : Machine → ℕ → Bytes → List Bytes → Load Manager
  unfolding first_report load_certificate normalize_hostnames
  new_manager machine now cert_dir hostnames = elim (normalize_hostnames u hostnames) [
    | none ↦ failed bad_hostname
    | some names ↦ first_report now cert_dir names (load_certificate u machine cert_dir names)
  ]

  unfoldable pub log_failure : Manager × Load Bool → Manager
  log_failure (m, loaded swapped) = m
  log_failure (m, failed e) = record m { log = reload_failed e ∷ m.log }

  -- One tick of RunReloadLoop, with what is on disk and the time then.
  unfoldable pub tick : Machine × ℕ → Manager → Manager
  unfolding reload log_failure report_expiration
  tick (machine, now) m = report_expiration now (log_failure (reload machine now m))

  unfoldable pub run_reload_loop : List (Machine × ℕ) → Manager → Manager
  unfolding tick
  run_reload_loop [] m = m
  run_reload_loop (t ∷ ts) m = run_reload_loop ts (tick t m)

-- The certificate that a TLS handshake is given.
unfoldable pub get_certificate : Manager → LoadedCertificate
get_certificate m = m.current
