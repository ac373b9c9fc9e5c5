-- ===== src/Archive/Reader/Rounds.antt =====
-- internal/archive/read.go: a request and its lease on an idle reader leave an idle reader.
use picomx.Prelude.{
  ℕ, zero, suc, ◌≤◌, ◌<◌, ◌≡◌, refl, sym, ap, ◌∙◌, ◌≢◌, ◌⊎◌, inl, inr, Bool, true, false, none,
  some, List, [], ◌∷◌, ◌++◌, arith, if◌then◌else◌, length, drop,
}
use picomx.Text.Bytes.{Bytes, codes}
use picomx.Text.Number.{max_int64}
use picomx.Text.Unicode.{Unicode}
use picomx.Text.Words.{IsWord}
use picomx.Archive.Errors.{ok}
use picomx.Archive.Reader.{
  ObjectHeader, CatFile, ReadState, valid_object_id, line_breaks, request, reader_locked,
  query_object, settle, ask, read_object, lease, ask_reader, new_blob_reader, read, read_count,
  object_info,
}
use picomx.Archive.Reader.Framing.{object_reply, header_of, read_reply-header, header_line}
use picomx.Archive.Reader.Lease.{
  length-drop, closed_result, run_and_close, use_opened, use_object, add_bytes, after_read,
  read_all, opened, count_bounds, pipe-Leased, positive, read-pipe, run_reads-prefix, closed_reader,
  close-opened,
}

-- The reader is open and has nothing left to read, or it can be started.
abbrev pub IsIdle : CatFile → ReadState → Type 0
IsIdle cat s =
    (s.read_closed ≡ false) × ((s.reader ≡ some []) ⊎ ((s.reader ≡ none) × (cat.starts ≡ true)))

abbrev pub idle : ReadState
idle = record { read_closed = false; reader = some [] }

if_no {ℓ} : {A : Type ℓ} (x y : A) (b : Bool) → b ≡ false → (if b then x else y) ≡ y
if_no x y true e = cc
if_no x y false e = refl

state_eq : (s : ReadState) → s.read_closed ≡ false → s.reader ≡ some [] → s ≡ idle
state_eq s still e = cc

pub reader_locked-IsIdle :
    (cat : CatFile) (s : ReadState) → IsIdle cat s → reader_locked cat s ≡ (idle, ok [])
unfolding reader_locked
reader_locked-IsIdle cat s (still, inl e) =
    rw (still, e) (ap (λ r. (r, ok [])) (state_eq s still e))
reader_locked-IsIdle cat s (still, inr (e, starts)) =
    rw (e, starts)
      (if_no _ _ s.read_closed still
        ∙ ap (λ b. (record { read_closed = b; reader = some [] }, ok [])) still)

abbrev pub leased : Bytes → ReadState
leased content = record { read_closed = false; reader = some (content ++ 10 ∷ []) }

-- cat-file's answer to a request for contents, as it documents it.
abbrev pub Answers : CatFile → Bytes → Bytes → Bytes → Bytes → Type 0
Answers cat spec oid kind content =
    (cat.answer (request (codes "contents") spec) ≡ some (object_reply oid kind content))
    × (valid_object_id oid ≡ true)
    × (length content ≤ max_int64)

-- The kind is a word.
abbrev pub IsKind : Bytes → Type 0
IsKind kind = IsWord kind × (kind ≢ [])

query-object :
    (u : Unicode) (cat : CatFile) (spec oid kind content : Bytes)
    → line_breaks spec ≡ false
    → IsKind kind
    → Answers cat spec oid kind content
    → query_object u cat (codes "contents") spec kind []
      ≡ (content ++ 10 ∷ [], ok (header_of oid kind (length content)))
unfolding query_object
query-object u cat spec oid kind content hb hk (ha, ho, hc) =
    rw (query_object, hb, ha)
      (read_reply-header u spec oid kind (length content) (content ++ 10 ∷ []) ho hk.0 hk.1 hc)

pub read_object-opened :
    (u : Unicode) (cat : CatFile) (spec oid kind content : Bytes) (s : ReadState)
    → IsIdle cat s
    → line_breaks spec ≡ false
    → IsKind kind
    → Answers cat spec oid kind content
    → read_object u cat spec kind s
      ≡ (leased content, ok (opened (header_of oid kind (length content)) content))
unfolding read_object lease ask ask_reader query_object settle new_blob_reader
read_object-opened u cat spec oid kind content s hs hb hk (ha, ho, hc) =
    ap (λ p. lease (ask_reader u cat (codes "contents") spec kind p))
      (reader_locked-IsIdle cat s hs)
    ∙ ap (λ p. lease (settle idle p)) (query-object u cat spec oid kind content hb hk (ha, ho, hc))

-- When cat-file answers a request for an object as it documents it, readObject on an idle reader
-- gives its header, any reads give the next bytes of its content, and Close leaves an idle reader.
pub use_object-framing :
    (u : Unicode) (cat : CatFile) (spec oid kind content : Bytes) (reads : List (ℕ × ℕ))
    (s : ReadState)
    → IsIdle cat s
    → line_breaks spec ≡ false
    → IsKind kind
    → Answers cat spec oid kind content
    → (got : Bytes) × (rest : Bytes) × (content ≡ got ++ rest)
      × (use_object u cat spec kind reads s
          ≡ (idle, ok (header_of oid kind (length content), got, none)))
unfolding use_object use_opened run_and_close closed_result closed_reader
use_object-framing u cat spec oid kind content reads s hs hb hk ha =
    let header = header_of oid kind (length content) in
    let (rest, got, e, run) = run_reads-prefix header reads content in
    (
      got,
      rest,
      e,
      ap (use_opened reads) (read_object-opened u cat spec oid kind content s hs hb hk ha)
          ∙ ap (λ p. run_and_close p (leased content)) run
          ∙ ap (closed_result got) (close-opened header rest (leased content)),
    )

-- io.ReadAll ends within one read more than there are bytes, and gives all that is left.
pub read_all-total :
    (schedule : ℕ → ℕ × ℕ) (header : ObjectHeader) (fuel : ℕ) (rest : Bytes)
    → length rest < fuel
    → read_all schedule fuel (rest ++ 10 ∷ []) (opened header rest)
      ≡ ((10 ∷ [], opened header []), ok rest)
unfolding read_all after_read add_bytes read
read_all-total schedule header zero rest h = absurd (omega arith)
read_all-total schedule header (suc fuel) [] h =
    rw (read_all, read, positive (schedule fuel).1) refl
read_all-total schedule header (suc fuel) (c ∷ rest) h =
    let n =
      read_count (schedule fuel).0 (suc (schedule fuel).1) (suc (length rest))
        (suc (suc (length rest))) in
    let bounds = count_bounds (schedule fuel).0 (schedule fuel).1 (length rest) in
    let (whole, run) = pipe-Leased header n (c ∷ rest) bounds.1 in
    let rest_run =
      read_all-total schedule header fuel (drop n (c ∷ rest))
        (omega (arith, length-drop n (c ∷ rest))) in
    rw
      (
        read_all,
        read-pipe header (schedule fuel).0 (schedule fuel).1 c rest ∙ run,
        add_bytes,
        rest_run,
      )
      (ap (λ l. ((10 ∷ [], opened header []), ok l)) (sym whole))

query-header :
    (u : Unicode) (cat : CatFile) (spec oid kind : Bytes) (size : ℕ)
    → line_breaks spec ≡ false
    → IsKind kind
    → cat.answer (request (codes "info") spec) ≡ some (header_line oid kind size ++ 10 ∷ [])
    → valid_object_id oid ≡ true
    → size ≤ max_int64
    → query_object u cat (codes "info") spec kind [] ≡ ([], ok (header_of oid kind size))
unfolding query_object
query-header u cat spec oid kind size hb hk ha ho hn =
    rw (query_object, hb, ha) (read_reply-header u spec oid kind size [] ho hk.0 hk.1 hn)

-- A request for the header alone, answered as documented, leaves an idle reader.
pub object_info-idle :
    (u : Unicode) (cat : CatFile) (spec oid kind : Bytes) (size : ℕ) (s : ReadState)
    → IsIdle cat s
    → line_breaks spec ≡ false
    → IsKind kind
    → cat.answer (request (codes "info") spec) ≡ some (header_line oid kind size ++ 10 ∷ [])
    → valid_object_id oid ≡ true
    → size ≤ max_int64
    → object_info u cat spec kind s ≡ (idle, ok (header_of oid kind size))
unfolding object_info ask ask_reader settle query_object
object_info-idle u cat spec oid kind size s hs hb hk ha ho hn =
    ap (λ p. ask_reader u cat (codes "info") spec kind p) (reader_locked-IsIdle cat s hs)
    ∙ ap (λ p. settle idle p) (query-header u cat spec oid kind size hb hk ha ho hn)
