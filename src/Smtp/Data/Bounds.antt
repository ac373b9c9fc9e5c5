-- ===== src/Smtp/Data/Bounds.antt =====
-- What the data reader lets through, for every input.
use picomx.Prelude.{
  ℕ, ◌+◌, ◌≤◌, ◌≡◌, refl, ap, ◌∙◌, ◌⊎◌, inl, inr, true, ◌&&◌, List, [], ◌∷◌, ◌++◌, arith, ◌==◌,
  ==_iff, Bool-cases, length, All,
}
use picomx.Text.Bytes.{Bytes, Lacks, bytes_eq, trim_suffix, trim_suffix-append}
use picomx.Text.Lines.{
  lf, cr, dot, crlf, lines, IsLine, IsPartial, AreLines, lines-AreLines, IsPartial-ends,
  ends_with_lf,
}
use picomx.Smtp.Data.{
  read_data, Read, end_of_data, refuse, read_line, read_limited_line_raw, canonical_data_line,
  undot, max_data_line_bytes, pending,
}

unfoldable pub total : List Bytes → ℕ
total [] = 0
total (c ∷ cs) = length c + total cs

read_line_fits :
    (max_bytes bytes_read : ℕ) (line chunk : Bytes)
    → read_line max_bytes bytes_read line ≡ pending chunk
    → (bytes_read + length chunk ≤ max_bytes) × (length chunk ≤ max_data_line_bytes)
unfolding read_line
read_line_fits max_bytes bytes_read line chunk h = ground arith

chunk_step :
    (max_bytes bytes_read : ℕ) (line : Bytes) (ls : List Bytes)
    → ((chunk : Bytes) × (read_line max_bytes bytes_read line ≡ pending chunk)
        × ((read_data max_bytes bytes_read (line ∷ ls)).chunks
            ≡ chunk ∷ (read_data max_bytes (bytes_read + length chunk) ls).chunks))
      ⊎ ((read_data max_bytes bytes_read (line ∷ ls)).chunks ≡ [])
unfolding read_data
chunk_step max_bytes bytes_read line ls = go (read_line max_bytes bytes_read line) refl
  where
    go :
        (r : Read)
        → read_line max_bytes bytes_read line ≡ r
        → ((chunk : Bytes) × (read_line max_bytes bytes_read line ≡ pending chunk)
            × ((read_data max_bytes bytes_read (line ∷ ls)).chunks
                ≡ chunk ∷ (read_data max_bytes (bytes_read + length chunk) ls).chunks))
          ⊎ ((read_data max_bytes bytes_read (line ∷ ls)).chunks ≡ [])
    go end_of_data e = inr (rw (e, read_data) refl)
    go (pending chunk) e = inl (chunk, e, rw (e, read_data) refl)
    go (refuse x) e = inr (rw (e, read_data) refl)

-- The bytes that a reader lets through, with those before if they did not, never pass its limit, whatever the client sends and however
-- the data ends.
pub total-read_data :
    (max_bytes bytes_read : ℕ) (ls : List Bytes)
    → bytes_read ≤ max_bytes
    → bytes_read + total (read_data max_bytes bytes_read ls).chunks ≤ max_bytes
unfolding total
total-read_data max_bytes bytes_read [] h = unfold read_data in omega arith
total-read_data max_bytes bytes_read (line ∷ ls) h =
    elim (chunk_step max_bytes bytes_read line ls) [
      | inl (chunk, e, k) ↦
          let (fits, _) = read_line_fits max_bytes bytes_read line chunk e in
          rw k (omega (arith, total-read_data max_bytes (bytes_read + length chunk) ls fits))
      | inr k ↦ rw k (omega arith)
    ]

-- A line that is stored: no line feed but in the CRLF at its end, and no more than 1000 bytes.
pub record IsStored (chunk : Bytes) : Type 0 where
  pub text : Bytes
  pub ends : chunk ≡ text ++ crlf
  pub no_lf : Lacks lf text
  pub fits : length chunk ≤ max_data_line_bytes

IsLine-text : (l : Bytes) → IsLine l → (text : Bytes) × (l ≡ text ++ lf ∷ []) × Lacks lf text
IsLine-text [] h = absurd h
IsLine-text (c ∷ []) h = ([], ap (λ n. n ∷ []) ((==_iff c lf).0 h), tt)
IsLine-text (c ∷ d ∷ l) (hc, h) =
    let (text, e, k) = IsLine-text (d ∷ l) h in (c ∷ text, ap (λ s. c ∷ s) e, (hc, k))

undot-IsLine : (l : Bytes) → IsLine l → IsLine (undot l)
unfolding undot
undot-IsLine [] h = h
undot-IsLine (c ∷ []) h = h
undot-IsLine (c ∷ d ∷ l) (hc, h) = elim (Bool-cases ((c == dot) && (d == dot))) [
  | inl e ↦ rw e h
  | inr e ↦ rw e (hc, h)
]

trim_suffix-Lacks : (b : ℕ) (s suffix : Bytes) → Lacks b s → Lacks b (trim_suffix s suffix)
unfolding trim_suffix
trim_suffix-Lacks b [] suffix h = tt
trim_suffix-Lacks b (c ∷ s) suffix (hc, h) = elim (Bool-cases (bytes_eq (c ∷ s) suffix)) [
  | inl e ↦ rw e tt
  | inr e ↦ rw e (hc, trim_suffix-Lacks b s suffix h)
]

canonical-IsLine :
    (l : Bytes) → IsLine l → (text : Bytes) × (canonical_data_line l ≡ text ++ crlf) × Lacks lf text
unfolding canonical_data_line
canonical-IsLine l h =
    let (text, e, k) = IsLine-text l h in
    (
      trim_suffix text (cr ∷ []),
      rw (e, trim_suffix-append text lf []),
      trim_suffix-Lacks lf text (cr ∷ []) k,
    )

read_line_canonical :
    (max_bytes bytes_read : ℕ) (line chunk : Bytes)
    → read_line max_bytes bytes_read line ≡ pending chunk
    → (chunk ≡ canonical_data_line (undot line)) × (ends_with_lf line ≡ true)
unfolding read_line read_limited_line_raw
read_line_canonical max_bytes bytes_read line chunk h = ground arith

pending-IsStored :
    (max_bytes bytes_read : ℕ) (line chunk : Bytes)
    → (IsLine line ⊎ IsPartial line)
    → read_line max_bytes bytes_read line ≡ pending chunk
    → IsStored chunk
pending-IsStored max_bytes bytes_read line chunk (inl l) h =
    let (e, _) = read_line_canonical max_bytes bytes_read line chunk h in
    let (text, k, n) = canonical-IsLine (undot line) (undot-IsLine line l) in
    record {
      text = text;
      ends = e ∙ k;
      no_lf = n;
      fits = (read_line_fits max_bytes bytes_read line chunk h).1;
    }
pending-IsStored max_bytes bytes_read line chunk (inr l) h =
    cc (IsPartial-ends line l, (read_line_canonical max_bytes bytes_read line chunk h).1)

AreLines-head : (l : Bytes) (ls : List Bytes) → AreLines (l ∷ ls) → IsLine l ⊎ IsPartial l
AreLines-head l [] h = h
AreLines-head l (m ∷ ls) (h, _) = inl h

AreLines-tail : (l : Bytes) (ls : List Bytes) → AreLines (l ∷ ls) → AreLines ls
AreLines-tail l [] h = tt
AreLines-tail l (m ∷ ls) (_, h) = h

IsStored-lines :
    (max_bytes bytes_read : ℕ) (ls : List Bytes)
    → AreLines ls
    → All IsStored (read_data max_bytes bytes_read ls).chunks
IsStored-lines max_bytes bytes_read [] a = unfold read_data in tt
IsStored-lines max_bytes bytes_read (line ∷ ls) a = elim (chunk_step max_bytes bytes_read line ls) [
  | inl (chunk, e, k) ↦ rw k (
    pending-IsStored max_bytes bytes_read line chunk (AreLines-head line ls a) e,
    IsStored-lines max_bytes (bytes_read + length chunk) ls (AreLines-tail line ls a),
  )
  | inr k ↦ rw k tt
]

-- Whatever bytes a client sends, each line that is stored ends in CRLF, holds no other line feed
-- and has at most 1000 bytes.
pub read_data-IsStored :
    (max_bytes : ℕ) (stream : Bytes) → All IsStored (read_data max_bytes 0 (lines stream)).chunks
read_data-IsStored max_bytes stream =
    IsStored-lines max_bytes 0 (lines stream) (lines-AreLines stream)
