-- ===== src/Systemd.antt =====
-- internal/systemd/listeners.go: the listeners that systemd passed to the process. The environment
-- and the sockets behind file descriptors are arguments.
use picomx.Prelude.{
  ℕ, zero, suc, ◌+◌, ◌<◌, ◌≡◌, refl, ap, ◌∙◌, inl, inr, Option, none, some, List, [], ◌∷◌, ◌++◌,
  arith, ◌==◌, if◌then◌else◌, Option-cases, ◌>>=◌, length, length-append,
}
use picomx.Text.Bytes.{Bytes}
use picomx.Text.Number.{parse_size}

abbrev pub listen_fds_start : ℕ
listen_fds_start = 3

pub data Listened (L : Type 0) : Type 0 where
  refused : Listened L
  listening : List L → Listened L

-- strconv.Atoi, for a result above 0; every other result is refused by the caller too.
unfoldable pub positive_number : Bytes → Option ℕ
unfolding parse_size
positive_number raw = parse_size raw >>= λ n. if n == 0 then none else some n

-- `file_listener` turns a descriptor into a listener.
module _ {L : Type 0} (file_listener : ℕ → Option L) where
  -- The loop, with the listeners opened so far; the second part are those that were closed again.
  unfoldable pub open_descriptors : ℕ → ℕ → List L → Listened L × List L
  open_descriptors zero index opened = (listening opened, [])
  open_descriptors (suc rounds) index opened = elim (file_listener (listen_fds_start + index)) [
    | none ↦ (refused, opened)
    | some l ↦ open_descriptors rounds (index + 1) (opened ++ l ∷ [])
  ]

  unfoldable pub listen_count : Option ℕ → Listened L × List L
  unfolding open_descriptors
  listen_count none = (refused, [])
  listen_count (some count) = open_descriptors count 0 []

  -- Listeners, for the texts of LISTEN_PID and LISTEN_FDS and the number of this process.
  unfoldable pub listeners : Bytes → Bytes → ℕ → Listened L × List L
  unfolding listen_count positive_number
  listeners pid_raw fds_raw pid = elim (positive_number pid_raw) [
    | none ↦ (refused, [])
    | some n ↦ if n == pid then listen_count (positive_number fds_raw) else (refused, [])
  ]

  -- What was opened is either in use or closed again: no listener is lost.
  unfoldable pub Accounts : ℕ → ℕ → List L → Listened L × List L → Type 0
  Accounts rounds index opened (listening ls, closed) =
      (closed ≡ []) × (length ls ≡ length opened + rounds)
  Accounts rounds index opened (refused, closed) =
      (j : ℕ) × (j < rounds)
      × (file_listener (listen_fds_start + (index + j)) ≡ none)
      × (length closed ≡ length opened + j)

  later :
      (rounds index : ℕ) (opened : List L) (l : L) (p : Listened L × List L)
      → Accounts rounds (index + 1) (opened ++ l ∷ []) p
      → Accounts (suc rounds) index opened p
  unfolding Accounts
  later rounds index opened l (listening ls, closed) (none', count) =
      (none', omega (arith, count, length-append opened (l ∷ [])))
  later rounds index opened l (refused, closed) (j, small, stopped, count) = (
    suc j,
    omega arith,
    ap (λ k. file_listener (listen_fds_start + k)) (omega arith) ∙ stopped,
    omega (arith, count, length-append opened (l ∷ [])),
  )

  -- The loop either has a listener for each descriptor, or stops at the first one that is none and
  -- closes exactly the listeners that it has opened.
  pub open_descriptors-Accounts :
      (rounds index : ℕ) (opened : List L)
      → Accounts rounds index opened (open_descriptors rounds index opened)
  unfolding open_descriptors Accounts
  open_descriptors-Accounts zero index opened = (refl, omega arith)
  open_descriptors-Accounts (suc rounds) index opened =
      elim (Option-cases (file_listener (listen_fds_start + index))) [
        | inl e ↦
            rw (open_descriptors, e)
              (
                0,
                omega arith,
                ap (λ k. file_listener (listen_fds_start + k)) (omega arith) ∙ e,
                omega arith,
              )
        | inr (l, e) ↦
            rw (open_descriptors, e)
              (later rounds index opened l (open_descriptors rounds (index + 1) (opened ++ l ∷ []))
                (open_descriptors-Accounts rounds (index + 1) (opened ++ l ∷ [])))
      ]
