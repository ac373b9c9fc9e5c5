-- ===== src/Picomxd.antt =====
-- cmd/picomxd/main.go: the options of the program and the listeners that it opens. The sockets are
-- parameters; a listener is known by the port of its address, if it is a TCP address.
use picomx.Prelude.{
  ℕ, ◌≡◌, refl, inl, inr, Bool, true, false, ◌&&◌, Option, none, some, List, [], ◌∷◌, ◌++◌, ◌==◌,
  if◌then◌else◌, Option-cases, length, any, All, All-append,
}
use picomx.Text.Bytes.{Bytes, split}
use picomx.Text.Unicode.{Unicode, trim_space}
use picomx.Systemd.{Listened, refused, listening, positive_number}

-- parsePositiveInt64, and parsePositiveInt, whose int has 64 bits.
unfoldable pub parse_positive_int : Bytes → Option ℕ
unfolding positive_number
parse_positive_int raw = positive_number raw

unfoldable pub keep_names : Unicode → List Bytes → List Bytes
unfolding trim_space
keep_names u [] = []
keep_names u (raw ∷ raws) =
    let name = trim_space u raw in
    let rest = keep_names u raws in if length name == 0 then rest else name ∷ rest

unfoldable pub split_domains : Unicode → Bytes → List Bytes
unfolding keep_names split
split_domains u raw = keep_names u (split b',' raw)

pub data Protocol : Type 0 where
  smtp pop3s : Protocol

pub record ServiceListener (L : Type 0) : Type 0 where
  pub protocol : Protocol
  pub listener : L

unfoldable pub is_protocol : Protocol → Protocol → Bool
is_protocol smtp smtp = true
is_protocol smtp pop3s = false
is_protocol pop3s smtp = false
is_protocol pop3s pop3s = true

-- The protocol of a TCP port; `none` is another kind of address.
unfoldable pub protocol_for : Option ℕ → Option Protocol
protocol_for none = none
protocol_for (some port) = some (if port == 995 then pop3s else smtp)

module _ {L : Type 0} where
  unfoldable pub has_protocol : Protocol → List (ServiceListener L) → Bool
  unfolding is_protocol
  has_protocol kind ls = any (λ l. is_protocol l.protocol kind) ls

  -- The loop over the listeners of systemd. Beside the result are the listeners that were closed.
  unfoldable pub classify :
      (L → Option ℕ)
      → List L
      → List (ServiceListener L)
      → Listened (ServiceListener L) × List (ServiceListener L)
  unfolding protocol_for
  classify port_of [] done = (listening done, [])
  classify port_of (l ∷ ls) done = elim (protocol_for (port_of l)) [
    | none ↦ (refused, done)
    | some kind ↦ classify port_of ls (done ++ record { protocol = kind; listener = l } ∷ [])
  ]

  -- The loop over the two addresses; an empty one is not configured.
  unfoldable pub open_addresses :
      (Bytes → Option L)
      → List (Protocol × Bytes)
      → List (ServiceListener L)
      → Listened (ServiceListener L) × List (ServiceListener L)
  open_addresses listen [] done = (listening done, [])
  open_addresses listen ((kind, address) ∷ more) done =
      let skip = open_addresses listen more done in
      if length address == 0 then skip else elim (listen address) [
        | none ↦ (refused, done)
        | some l ↦
            open_addresses listen more (done ++ record { protocol = kind; listener = l } ∷ [])
      ]

  unfoldable pub classify_activated :
      (L → Option ℕ) → Listened L → Listened (ServiceListener L) × List (ServiceListener L)
  unfolding classify
  classify_activated port_of refused = (refused, [])
  classify_activated port_of (listening ls) = classify port_of ls []

  -- openListeners.
  unfoldable pub open_listeners :
      (Bytes → Option L)
      → (L → Option ℕ)
      → Listened L
      → Bytes
      → Bytes
      → Listened (ServiceListener L) × List (ServiceListener L)
  unfolding open_addresses classify_activated
  open_listeners listen port_of activated smtp_address pop3_address =
      if length smtp_address == 0 && length pop3_address == 0
      then classify_activated port_of activated
      else open_addresses listen ((smtp, smtp_address) ∷ (pop3s, pop3_address) ∷ []) []

-- The ports of the listeners by protocol: 995 is POP3S, and every other one is SMTP.
abbrev IsClassified : {L : Type 0} → (L → Option ℕ) → ServiceListener L → Type 0
IsClassified port_of l = protocol_for (port_of l.listener) ≡ some l.protocol

abbrev AreClassified :
    {L : Type 0} → (L → Option ℕ) → Listened (ServiceListener L) × List (ServiceListener L) → Type 0
AreClassified port_of (refused, closed) = All (IsClassified port_of) closed
AreClassified port_of (listening ls, closed) = All (IsClassified port_of) ls × (closed ≡ [])

-- Every activated listener serves the protocol of its port; when one is not a TCP listener, those
-- before it are closed and none serves.
pub classify-AreClassified :
    {L : Type 0} (port_of : L → Option ℕ) (ls : List L) (done : List (ServiceListener L))
    → All (IsClassified port_of) done
    → AreClassified port_of (classify port_of ls done)
unfolding classify
classify-AreClassified port_of [] done h = (h, refl)
classify-AreClassified port_of (l ∷ ls) done h = elim (Option-cases (protocol_for (port_of l))) [
  | inl e ↦ rw (classify, e) h
  | inr (kind, e) ↦
      rw (classify, e)
        (classify-AreClassified port_of ls _ (
          All-append (IsClassified port_of) done (record { protocol = kind; listener = l } ∷ []) h
            (e, tt)))
]
