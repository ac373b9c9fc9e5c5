-- ===== src/Smtp/Archive.antt =====
-- The archive as the delivery store of the SMTP server, as cmd/picomxd/main.go passes it, where the
-- temporary files can be written. The reader of a message is the text it gives and the error that ends
-- it, and the text is copied at once; the day and the answers of Git are arguments.
pub mod Budget
use picomx.Prelude.{
  ℕ, zero, suc, ◌≡◌, refl, sym, ap, ◌∙◌, subst, ◌⊎◌, inl, inr, Bool, true, false, Option, none,
  some, List, [], ◌∷◌, ◌++◌, append-nil, if◌then◌else◌, Bool-cases, length, get_elem?, set,
}
use picomx.Text.Bytes.{Bytes}
use picomx.Archive.Errors.{Error, daily_limit, Result, ok, err, Result-cases, ok_inj}
use picomx.Archive.Store.{
  StagedMessage, Answers, check_receive, begin_stage, create_file, take_chunk, read_chunk,
  finish_stage, discard, publish,
}
use picomx.Archive.Quota.{minimum_receipt_charge, charge}
use picomx.Archive.Store.{add_uint64, sub_uint64, can_reserve_now}
use picomx.Archive.Store as Delivered
use picomx.Smtp.Data.{DataError}
use picomx.Smtp.Server.{Delivery, StageError, from_reader, over_budget, stage_failed}

unfoldable pub is_over : Error → Bool
is_over daily_limit = true
is_over e = false

-- What Stage returns for an error of the store.
unfoldable pub refusal : Error → StageError
unfolding is_over
refusal e = if is_over e then over_budget else stage_failed

-- A staged message: its place in the store, and its size and content as Size and Open give them.
abbrev pub Handle : Type 0
Handle = ℕ × StagedMessage

unfoldable pub kept : ℕ → Delivered.Store → Delivered.Store × (StageError ⊎ Handle)
kept h s = elim (get_elem? s.staged h) [ none ↦ (s, inl stage_failed) | some m ↦ (s, inr (h, m)) ]

-- Behind the copy: an error of it drops the message.
unfoldable pub copied :
    ℕ
    → Option DataError
    → Delivered.Store × Result (Unit {0})
    → Delivered.Store × (StageError ⊎ Handle)
unfolding refusal discard finish_stage kept
copied h error (s, err e) = (discard s h, inl (refusal e))
copied h (some x) (s, ok _) = (discard s h, inl (from_reader x))
copied h none (s, ok _) = kept h (finish_stage s h)

unfoldable pub begun :
    Bytes
    → Bytes
    → Option DataError
    → Delivered.Store × Result ℕ
    → Delivered.Store × (StageError ⊎ Handle)
unfolding refusal copied create_file read_chunk
begun today text error (s, err e) = (s, inl (refusal e))
begun today text error (s, ok h) = copied h error (read_chunk (create_file s h) today h text)

-- Stage.
unfoldable pub stage_text :
    Bytes → Delivered.Store → Bytes → Option DataError → Delivered.Store × (StageError ⊎ Handle)
unfolding begun begin_stage
stage_text today s text error = begun today text error (begin_stage s today)

unfoldable pub answered :
    Delivered.Store × Result (ℕ × Bytes) → Delivered.Store × (Bool ⊎ (ℕ × Bytes))
unfolding is_over
answered (s, ok (id, path)) = (s, inr (id, path))
answered (s, err e) = (s, inl (is_over e))

unfoldable pub is_granted : Result (Unit {0}) → Bool
is_granted (ok _) = true
is_granted (err e) = false

get_elem-set :
    (ms : List StagedMessage) (h : ℕ) (m m' : StagedMessage)
    → get_elem? ms h ≡ some m
    → get_elem? (set ms h m') h ≡ some m'
get_elem-set [] h m m' e = cc
get_elem-set (n ∷ ms) zero m m' e = refl
get_elem-set (n ∷ ms) (suc h) m m' e = get_elem-set ms h m m' e

get_elem-last :
    (ms : List StagedMessage) (m : StagedMessage) → get_elem? (ms ++ m ∷ []) (length ms) ≡ some m
get_elem-last [] m = refl
get_elem-last (n ∷ ms) m = get_elem-last ms m

-- The message at a place has this content, and is not done.
abbrev pub Holds : Delivered.Store → ℕ → Bytes → Type 0
Holds s h content =
    (m : StagedMessage) × (get_elem? s.staged h ≡ some m) × (m.content ≡ content) × (m.done ≡ false)

abbrev fresh : StagedMessage
fresh = record {
  size = 0;
  reserved = minimum_receipt_charge;
  done = false;
  has_file = false;
  consumed = 0;
  content = [];
}

pub begin_stage-Holds :
    (s s' : Delivered.Store) (today : Bytes) (h : ℕ)
    → begin_stage s today ≡ (s', ok h)
    → Holds s' h []
unfolding begin_stage
begin_stage-Holds s s' today h e = elim (Result-cases (check_receive s today)) [
  | inr (x, refused) ↦ cc (rw (begin_stage, refused) at e)
  | inl (u, granted) ↦
      subst (λ p. (k : ℕ) → p.1 ≡ ok k → Holds p.0 k []) (rw (begin_stage, granted) at e)
        (λ k f.
          subst
            (λ n.
              (x : StagedMessage) × (get_elem? (s.staged ++ fresh ∷ []) n ≡ some x)
              × (x.content ≡ [])
              × (x.done ≡ false))
            (ok_inj f) (fresh, get_elem-last s.staged fresh, refl, refl))
        h refl
]

pub create_file-Holds :
    (s : Delivered.Store) (h : ℕ) (content : Bytes)
    → Holds s h content
    → Holds (create_file s h) h content
unfolding create_file
create_file-Holds s h content (m, e, same, live) =
    rw (create_file, e) (record m { has_file = true }, get_elem-set s.staged h m _ e, same, live)

finish_stage-Holds :
    (s : Delivered.Store) (h : ℕ) (content : Bytes)
    → Holds s h content
    → Holds (finish_stage s h) h content
unfolding finish_stage
finish_stage-Holds s h content (m, e, same, live) =
    rw (finish_stage, e) (record m { size = m.consumed }, get_elem-set s.staged h m _ e, same, live)

take_chunk-Holds :
    (s s' : Delivered.Store) (today : Bytes) (h : ℕ) (m : StagedMessage) (chunk : Bytes)
    → get_elem? s.staged h ≡ some m
    → m.done ≡ false
    → take_chunk s today h m chunk ≡ (s', ok tt)
    → Holds s' h (m.content ++ chunk)
unfolding take_chunk
take_chunk-Holds s s' today h m chunk e live run =
    let cost = charge (add_uint64 m.consumed (length chunk)) in
    elim (Bool-cases (can_reserve_now s today (sub_uint64 cost m.reserved))) [
      | inr over ↦ cc (rw (take_chunk, over) at run)
      | inl fits ↦
          subst (λ st. Holds st h (m.content ++ chunk))
            (ap (λ p. p.0) (rw (take_chunk, fits) at run))
            (_, get_elem-set s.staged h m _ e, refl, live)
    ]

read_chunk-Holds :
    (s s' : Delivered.Store) (today : Bytes) (h : ℕ) (content text : Bytes)
    → Holds s h content
    → read_chunk s today h text ≡ (s', ok tt)
    → Holds s' h (content ++ text)
unfolding read_chunk
read_chunk-Holds s s' today h content [] (m, e, same, live) run =
    subst (λ st. Holds st h (content ++ [])) (ap (λ p. p.0) run)
      (m, e, same ∙ sym (append-nil content), live)
read_chunk-Holds s s' today h content (c ∷ text) (m, e, same, live) run =
    subst (λ t. Holds s' h (t ++ c ∷ text)) same
      (take_chunk-Holds s s' today h m (c ∷ text) e live (rw (read_chunk, e) at run))

-- A message that Stage gives is whole: its reader came to its end, and it is what the reader gave.
abbrev IsWhole : Bytes → Option DataError → Delivered.Store × (StageError ⊎ Handle) → Type 0
IsWhole text error p = (m : Handle) → p.1 ≡ inr m → (error ≡ none) × (m.1.content ≡ text)

value_or : Handle → StageError ⊎ Handle → Handle
value_or d (inl e) = d
value_or d (inr m) = m

kept-IsWhole :
    (h : ℕ) (s : Delivered.Store) (text : Bytes) → Holds s h text → IsWhole text none (kept h s)
unfolding kept value_or
kept-IsWhole h s text (m, e, same, live) r run =
    let found : kept h s ≡ (s, inr (h, m)) = rw (kept, e) refl in
    (refl, ap (λ q. (value_or r q).1.content) (sym run ∙ ap (λ p. p.1) found) ∙ same)

copied-IsWhole :
    (h : ℕ) (text : Bytes) (error : Option DataError) (p : Delivered.Store × Result (Unit {0}))
    → ((s : Delivered.Store) → p ≡ (s, ok tt) → Holds s h text)
    → IsWhole text error (copied h error p)
unfolding copied
copied-IsWhole h text error (s, err e) holds r run = cc
copied-IsWhole h text (some x) (s, ok u) holds r run = cc
copied-IsWhole h text none (s, ok u) holds r run =
    kept-IsWhole h (finish_stage s h) text (finish_stage-Holds s h text (holds s refl)) r run

begun-IsWhole :
    (s : Delivered.Store) (today text : Bytes) (error : Option DataError)
    (p : Delivered.Store × Result ℕ)
    → begin_stage s today ≡ p
    → IsWhole text error (begun today text error p)
unfolding begun
begun-IsWhole s today text error (s1, err e) run r out = cc
begun-IsWhole s today text error (s1, ok h) run r out =
    copied-IsWhole h text error (read_chunk (create_file s1 h) today h text)
      (λ s2 e.
        read_chunk-Holds (create_file s1 h) s2 today h [] text
          (create_file-Holds s1 h [] (begin_stage-Holds s s1 today h run)) e)
      r out

-- A message that Stage of the archive gives has been read to the end of its reader, and its content is
-- what the reader gave.
pub stage_text-IsWhole :
    (today : Bytes) (s s' : Delivered.Store) (text : Bytes) (error : Option DataError) (m : Handle)
    → stage_text today s text error ≡ (s', inr m)
    → (error ≡ none) × (m.1.content ≡ text)
unfolding stage_text
stage_text-IsWhole today s s' text error m run =
    begun-IsWhole s today text error (begin_stage s today) refl m (ap (λ p. p.1) run)

-- The delivery store of the SMTP server.
abbrev pub archive_delivery : Bytes → Answers → Delivery
archive_delivery today a = record {
  Store = Delivered.Store;
  Staged = Handle;
  size = λ m. m.1.size;
  content = λ m. m.1.content;
  check_receive = λ s. is_granted (check_receive s today);
  stage = stage_text today;
  discard = λ s m. discard s m.0;
  publish = λ s m. answered (publish s today m.0 a);
  stage-complete = λ s s' text error m run. stage_text-IsWhole today s s' text error m run;
}
