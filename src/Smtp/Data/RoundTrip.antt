-- ===== src/Smtp/Data/RoundTrip.antt =====
-- A message that a client stuffs is read back by the reader of DATA.
use picomx.Prelude.{
  ℕ, ◌+◌, ◌≤◌, ◌<◌, ◌≡◌, refl, ap, ◌∙◌, true, false, none, List, [], ◌∷◌, ◌++◌, map, append_assoc,
  arith, ltb, length, All,
}
use picomx.Text.Bytes.{Bytes, Lacks, bytes_eq, trim_suffix-append}
use picomx.Text.Lines.{lf, cr, dot, crlf, dot_line, ends_with_lf, IsLine-ends, Lacks-IsLine}
use picomx.Smtp.Data.{
  pending, end_of_data, add_chunk, read_data, read_line, read_limited_line_raw, canonical_data_line,
  undot, max_data_line_bytes, ends_with_lf,
}
use picomx.Smtp.Data.Bounds.{total}
use picomx.Pop3.Stream.{stuff}
use picomx.Pop3.Stream.Client.{stuff-IsLine, stuff_ne}

-- A line of a message: CRLF at its end and no other line feed, with room for one more dot.
pub record IsSendable (l : Bytes) : Type 0 where
  pub text : Bytes
  pub ends : l ≡ text ++ crlf
  pub no_lf : Lacks lf text
  pub fits : length l < max_data_line_bytes

undot-stuff : (text : Bytes) → undot (stuff (text ++ crlf)) ≡ text ++ crlf
unfolding undot stuff
undot-stuff [] = refl
undot-stuff (c ∷ []) = ground arith
undot-stuff (c ∷ d ∷ text) = ground arith

canonical_crlf : (text : Bytes) → canonical_data_line (text ++ crlf) ≡ text ++ crlf
unfolding canonical_data_line
canonical_crlf text =
    let split : text ++ crlf ≡ (text ++ cr ∷ []) ++ lf ∷ [] = simp append_assoc in
    rw (split, trim_suffix-append (text ++ cr ∷ []) lf [], trim_suffix-append text cr []) split

length-stuff : (l : Bytes) → length (stuff l) ≤ length l + 1
unfolding stuff
length-stuff [] = omega arith
length-stuff (c ∷ l) = ground arith

stuff_ne_bare : (l : Bytes) → bytes_eq (stuff l) (dot ∷ lf ∷ []) ≡ false
unfolding stuff bytes_eq
stuff_ne_bare [] = refl
stuff_ne_bare (c ∷ l) = ground arith

module _ (max_bytes bytes_read : ℕ) (l : Bytes) (h : IsSendable l) where
  stuffed_ends : ends_with_lf (stuff l) ≡ true
  stuffed_ends = IsLine-ends (stuff l) (stuff-IsLine l (rw h.ends (Lacks-IsLine h.text h.no_lf)))

  stuffed_canonical : canonical_data_line (undot (stuff l)) ≡ l
  stuffed_canonical =
      let e : l ≡ h.text ++ crlf = h.ends in
      rw e (ap canonical_data_line (undot-stuff h.text) ∙ canonical_crlf h.text)

  stuffed_passes : read_limited_line_raw max_data_line_bytes (stuff l) ≡ none
  unfolding read_limited_line_raw
  stuffed_passes =
      let fits : ltb max_data_line_bytes (length (stuff l)) ≡ false =
        ground (arith, length-stuff l, h.fits) in
      rw (fits, stuffed_ends)

  read_line-stuff :
      bytes_read + length l ≤ max_bytes → read_line max_bytes bytes_read (stuff l) ≡ pending l
  unfolding read_line
  read_line-stuff k =
      let fits : ltb max_data_line_bytes (length l) ≡ false = ground (arith, h.fits) in
      let room : ltb max_bytes (bytes_read + length l) ≡ false = ground arith in
      rw (stuffed_passes, read_line)
        (rw (stuff_ne l, stuff_ne_bare l, stuffed_canonical, fits, room) refl)

read_line-dot : (max_bytes bytes_read : ℕ) → read_line max_bytes bytes_read dot_line ≡ end_of_data
unfolding read_line read_limited_line_raw bytes_eq
read_line-dot max_bytes bytes_read = refl

-- A message of lines that a client may send is stored byte for byte, if its size is within the
-- limit, and the reader stops behind the line of one dot.
pub read_data-stuff :
    (max_bytes bytes_read : ℕ) (ls rest : List Bytes)
    → All IsSendable ls
    → bytes_read + total ls ≤ max_bytes
    → read_data max_bytes bytes_read (map stuff ls ++ dot_line ∷ rest)
      ≡ record { chunks = ls; error = none; unread = rest }
unfolding read_data total
read_data-stuff max_bytes bytes_read [] rest h k =
    rw (read_line-dot max_bytes bytes_read, read_data) refl
read_data-stuff max_bytes bytes_read (l ∷ ls) rest (hl, h) k =
    rw (read_line-stuff max_bytes bytes_read l hl (omega arith), read_data)
      (rw (read_data-stuff max_bytes (bytes_read + length l) ls rest h (omega arith))
        (unfold add_chunk in refl))
