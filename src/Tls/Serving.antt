-- ===== src/Tls/Serving.antt =====
-- internal/tlscert/manager.go: what every certificate that is served has, and how often it warns.
use picomx.Prelude.{
  ◌≤◌, ◌<◌, suc, get_elem?, All, ℕ, ◌≡◌, refl, sym, ap, ◌∙◌, subst, ◌≢◌, ◌⊎◌, inl, inr, true, false,
  none, some, List, [], ◌∷◌, arith, Bool-cases, Option-cases,
}
use picomx.Text.Bytes.{Bytes}
use picomx.Text.Unicode.{Unicode}
use picomx.Tls.Hostnames.{normalize_hostnames}
use picomx.Tls.Load.{
  LoadedCertificate, LoadError, Load, failed, loaded, Machine, load_certificate, Covers,
  load_certificate-Covers,
}
use picomx.Tls.Manager.{
  Level, Manager, expiration_level, same_warning, report_expiration, unchanged, is_valid_at, swap,
  offer, reload, first_report, new_manager, log_failure, tick, run_reload_loop, warned,
}

-- The certificate is the first one, or what the machine of one of the ticks had to load, with the time
-- of that tick in its validity.
abbrev pub Trusted :
    (u : Unicode)
    → (Machine × ℕ → Type 0)
    → LoadedCertificate
    → Bytes
    → List Bytes
    → LoadedCertificate
    → Type 0
Trusted u Tick first cert_dir hostnames c =
    (c ≡ first)
    ⊎ ((t : Machine × ℕ) × Tick t
        × (load_certificate u t.0 cert_dir hostnames ≡ loaded c)
        × (c.leaf.not_before ≤ t.1)
        × (t.1 < c.leaf.not_after))

-- The certificate covers the host names of the manager, and is trusted.
pub record IsServing (u : Unicode) (Tick : Machine × ℕ → Type 0) (first : LoadedCertificate)
    (m : Manager) : Type 0 where
  pub names : List Bytes
  pub normalized : normalize_hostnames u m.hostnames ≡ some names
  pub covers : Covers names m.current
  pub trusted : Trusted u Tick first m.cert_dir m.hostnames m.current

Seen-IsServing :
    (u : Unicode) (Tick : Machine × ℕ → Type 0) (first : LoadedCertificate) (m n : Manager)
    → m.hostnames ≡ n.hostnames
    → m.current ≡ n.current
    → m.cert_dir ≡ n.cert_dir
    → IsServing u Tick first m
    → IsServing u Tick first n
Seen-IsServing u Tick first m n hh hc hd h = record {
  names = h.names;
  normalized = ap (normalize_hostnames u) (sym hh) ∙ h.normalized;
  covers = subst (Covers h.names) hc h.covers;
  trusted =
      subst (λ d. Trusted u Tick first d n.hostnames n.current) hd
        (subst (λ l. Trusted u Tick first m.cert_dir l n.current) hh
          (subst (Trusted u Tick first m.cert_dir m.hostnames) hc h.trusted));
}

report-Seen :
    (now : ℕ) (m : Manager)
    → (m.hostnames ≡ (report_expiration now m).hostnames)
      × (m.current ≡ (report_expiration now m).current)
      × (m.cert_dir ≡ (report_expiration now m).cert_dir)
unfolding report_expiration
report-Seen now m = elim (Option-cases (expiration_level m.current.leaf.not_after now)) [
  | inl e ↦ rw (report_expiration, e) (refl, refl, refl)
  | inr (level, e) ↦
      elim (Bool-cases (same_warning m.last_warning m.current.leaf.not_after level)) [
        | inl k ↦ rw (report_expiration, e, k) (refl, refl, refl)
        | inr k ↦ rw (report_expiration, e, k) (refl, refl, refl)
      ]
]

loaded_or : {A : Type 0} → A → Load A → A
loaded_or a (loaded b) = b
loaded_or a (failed e) = a

loaded_inj : {A : Type 0} {a b : A} → loaded a ≡ loaded b → a ≡ b
unfolding loaded_or
loaded_inj {a} {b} p = ap (loaded_or a) p

report-IsServing :
    (u : Unicode) (Tick : Machine × ℕ → Type 0) (first : LoadedCertificate) (now : ℕ) (m : Manager)
    → IsServing u Tick first m
    → IsServing u Tick first (report_expiration now m)
report-IsServing u Tick first now m h =
    let (hh, hc, hd) = report-Seen now m in
    Seen-IsServing u Tick first m (report_expiration now m) hh hc hd h

is_valid_at_sound :
    (now : ℕ) (c : LoadedCertificate)
    → is_valid_at now c ≡ true
    → (c.leaf.not_before ≤ now) × (now < c.leaf.not_after)
unfolding is_valid_at
is_valid_at_sound now c h = ground arith

swap-IsServing :
    (u : Unicode) (Tick : Machine × ℕ → Type 0) (first : LoadedCertificate) (t : Machine × ℕ)
    (m : Manager) (next : LoadedCertificate) (names : List Bytes)
    → Tick t
    → normalize_hostnames u m.hostnames ≡ some names
    → Covers names next
    → load_certificate u t.0 m.cert_dir m.hostnames ≡ loaded next
    → is_valid_at t.1 next ≡ true
    → IsServing u Tick first (swap t.1 m next)
unfolding swap
swap-IsServing u Tick first t m next names ht h c hl v =
    let valid = is_valid_at_sound t.1 next v in
    report-IsServing u Tick first t.1 (record m { current = next; last_warning = none; log = _ })
      (record {
        names = names;
        normalized = h;
        covers = c;
        trusted = inr (t, ht, hl, valid.0, valid.1);
      })

offer-IsServing :
    (u : Unicode) (Tick : Machine × ℕ → Type 0) (first : LoadedCertificate) (t : Machine × ℕ)
    (m : Manager) (l : Load LoadedCertificate)
    → Tick t
    → IsServing u Tick first m
    → load_certificate u t.0 m.cert_dir m.hostnames ≡ l
    → IsServing u Tick first (log_failure u (offer t.1 m l))
unfolding offer log_failure
offer-IsServing u Tick first t m (failed e) ht h hl =
    Seen-IsServing u Tick first m (log_failure u (m, failed e)) refl refl refl h
offer-IsServing u Tick first t m (loaded next) ht h hl =
    elim (Bool-cases (unchanged m.current next)) [
      | inl same ↦ rw same h
      | inr differs ↦ elim (Bool-cases (is_valid_at t.1 next)) [
        | inl v ↦
            rw (differs, v)
              (swap-IsServing u Tick first t m next h.names ht h.normalized
                (load_certificate-Covers u t.0 m.cert_dir m.hostnames h.names next h.normalized hl)
                hl v)
        | inr v ↦
            rw (differs, v)
              (Seen-IsServing u Tick first m
                (log_failure u (offer t.1 m (failed LoadError.not_valid_now))) refl refl refl h)
      ]
    ]

tick-IsServing :
    (u : Unicode) (Tick : Machine × ℕ → Type 0) (first : LoadedCertificate) (t : Machine × ℕ)
    (m : Manager)
    → Tick t
    → IsServing u Tick first m
    → IsServing u Tick first (tick u t m)
unfolding tick reload
tick-IsServing u Tick first (machine, now) m ht h = report-IsServing u Tick first now _ (
    offer-IsServing u Tick first (machine, now) m
      (load_certificate u machine m.cert_dir m.hostnames) ht h refl)

run_reload_loop-IsServing :
    (u : Unicode) (Tick : Machine × ℕ → Type 0) (first : LoadedCertificate)
    (ts : List (Machine × ℕ)) (m : Manager)
    → All Tick ts
    → IsServing u Tick first m
    → IsServing u Tick first (run_reload_loop u ts m)
unfolding run_reload_loop
run_reload_loop-IsServing u Tick first [] m ticks h = h
run_reload_loop-IsServing u Tick first (t ∷ ts) m (ht, ticks) h =
    run_reload_loop-IsServing u Tick first ts (tick u t m) ticks
      (tick-IsServing u Tick first t m ht h)

-- The ticks of a list.
abbrev pub IsTick : List (Machine × ℕ) → Machine × ℕ → Type 0
IsTick ts t = (k : ℕ) × (get_elem? ts k ≡ some t)

later-IsTick :
    (t : Machine × ℕ) (ts us : List (Machine × ℕ)) → All (IsTick ts) us → All (IsTick (t ∷ ts)) us
later-IsTick t ts [] h = tt
later-IsTick t ts (x ∷ us) ((k, e), h) = ((suc k, e), later-IsTick t ts us h)

every-IsTick : (ts : List (Machine × ℕ)) → All (IsTick ts) ts
every-IsTick [] = tt
every-IsTick (t ∷ ts) = ((0, refl), later-IsTick t ts ts (every-IsTick ts))

first_report-IsServing :
    (u : Unicode) (Tick : Machine × ℕ → Type 0) (now : ℕ) (cert_dir : Bytes)
    (names covered : List Bytes) (l : Load LoadedCertificate) (m : Manager)
    → normalize_hostnames u names ≡ some covered
    → ((c : LoadedCertificate) → l ≡ loaded c → Covers covered c)
    → first_report u now cert_dir names l ≡ loaded m
    → IsServing u Tick m.current m
unfolding first_report
first_report-IsServing u Tick now cert_dir names covered (failed e) m hn covers h = cc
first_report-IsServing u Tick now cert_dir names covered (loaded c) m hn covers h =
    subst (λ n. IsServing u Tick n.current n) (loaded_inj h)
      (let start : Manager = record {
        cert_dir = cert_dir;
        hostnames = names;
        current = c;
        last_warning = none;
        log = [];
      } in
        let (_, hc, _) = report-Seen now start in
        subst (λ d. IsServing u Tick d (report_expiration now start)) hc
          (report-IsServing u Tick c now start (record {
            names = covered;
            normalized = hn;
            covers = covers c refl;
            trusted = inl refl;
          })))

-- A name list that cannot be normalized gives no certificate.
no_names :
    (u : Unicode) (machine : Machine) (now : ℕ) (cert_dir : Bytes) (names : List Bytes)
    (m : Manager)
    → normalize_hostnames u names ≡ none
    → first_report u now cert_dir names (load_certificate u machine cert_dir names) ≢ loaded m
unfolding load_certificate first_report
no_names u machine now cert_dir names m e h = cc (rw (load_certificate, e) at h)

new_manager-IsServing :
    (u : Unicode) (Tick : Machine × ℕ → Type 0) (machine : Machine) (now : ℕ) (cert_dir : Bytes)
    (hostnames : List Bytes) (m : Manager)
    → new_manager u machine now cert_dir hostnames ≡ loaded m
    → IsServing u Tick m.current m
unfolding new_manager
new_manager-IsServing u Tick machine now cert_dir hostnames m h =
    elim (Option-cases (normalize_hostnames u hostnames)) [
      | inl e ↦ cc (rw (new_manager, e) at h)
      | inr (names, e) ↦ elim (Option-cases (normalize_hostnames u names)) [
        | inl none' ↦
            absurd (no_names u machine now cert_dir names m none' (rw (new_manager, e) at h))
        | inr (covered, k) ↦
            first_report-IsServing u Tick now cert_dir names covered
              (load_certificate u machine cert_dir names) m k
              (λ c hl. load_certificate-Covers u machine cert_dir names covered c k hl)
              (rw (new_manager, e) at h)
      ]
    ]

-- A manager that New made, whatever is on disk at each tick of its reload loop, serves a certificate
-- that covers its host names, and that is its first one, or is what one of the ticks had on disk, with
-- the time of that tick in its validity.
pub run_reload_loop-new_manager :
    (u : Unicode) (machine : Machine) (now : ℕ) (cert_dir : Bytes) (hostnames : List Bytes)
    (m : Manager) (ts : List (Machine × ℕ))
    → new_manager u machine now cert_dir hostnames ≡ loaded m
    → IsServing u (IsTick ts) m.current (run_reload_loop u ts m)
run_reload_loop-new_manager u machine now cert_dir hostnames m ts h =
    run_reload_loop-IsServing u (IsTick ts) m.current ts m (every-IsTick ts)
      (new_manager-IsServing u (IsTick ts) machine now cert_dir hostnames m h)

same_warning_refl : (t : ℕ) (l : Level) → same_warning (some (t, l)) t l ≡ true
unfolding same_warning
same_warning_refl t l = ground arith

report-none :
    (now : ℕ) (m : Manager)
    → expiration_level m.current.leaf.not_after now ≡ none
    → report_expiration now m ≡ m
unfolding report_expiration
report-none now m e = rw (report_expiration, e) refl

report-same :
    (now : ℕ) (m : Manager) (level : Level)
    → expiration_level m.current.leaf.not_after now ≡ some level
    → same_warning m.last_warning m.current.leaf.not_after level ≡ true
    → report_expiration now m ≡ m
unfolding report_expiration
report-same now m level e k = rw (report_expiration, e, k) refl

abbrev warn : Level → Manager → Manager
warn level m = record m {
  last_warning = some (m.current.leaf.not_after, level);
  log = warned m.current.leaf.not_after level ∷ m.log;
}

report-new :
    (now : ℕ) (m : Manager) (level : Level)
    → expiration_level m.current.leaf.not_after now ≡ some level
    → same_warning m.last_warning m.current.leaf.not_after level ≡ false
    → report_expiration now m ≡ warn level m
unfolding report_expiration
report-new now m level e k = rw (report_expiration, e, k) refl

-- A second report at the same time adds no warning.
pub report-again :
    (now : ℕ) (m : Manager)
    → report_expiration now (report_expiration now m) ≡ report_expiration now m
report-again now m = elim (Option-cases (expiration_level m.current.leaf.not_after now)) [
  | inl e ↦ ap (report_expiration now) (report-none now m e)
  | inr (level, e) ↦
      elim (Bool-cases (same_warning m.last_warning m.current.leaf.not_after level)) [
        | inl k ↦ ap (report_expiration now) (report-same now m level e k)
        | inr k ↦
            let first = report-new now m level e k in
            ap (report_expiration now) first
            ∙ report-same now (warn level m) level e
                (same_warning_refl m.current.leaf.not_after level)
            ∙ sym first
      ]
]
