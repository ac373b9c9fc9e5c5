-- ===== src/Pop3/Stream.antt =====
-- internal/pop3/server.go: streamMessage, the body of the RETR and TOP replies.
pub mod Client
use picomx.Prelude.{
  ℕ, zero, suc, ◌+◌, ◌-◌, ◌*◌, ◌/◌, ◌%◌, ◌^◌, ◌≤◌, ◌<◌, ◌≡◌, refl, sym, ap, ◌∙◌, subst, ◌≢◌, ◌↔◌,
  ◌⊎◌, inl, inr, Bool, true, false, ◌&&◌, ◌||◌, not, Option, none, some, List, [], ◌∷◌, ◌++◌, map,
  reverse, append_assoc, append-nil, arith, ltb, leb, ◌==◌, if◌then◌else◌, ltb→lt, lt→ltb, leb→le,
  le→leb, ==_iff, Bool-cases, Option-cases, ◌>>=◌, >>=-eq-some, some_inj, length, get_elem?, set,
  replicate, take, drop, all, any, length-append, length-map, All, All-append,
}
use picomx.Text.Bytes.{Bytes, codes, bytes_eq}
use picomx.Text.Number.{max_uint64}
use picomx.Text.Lines.{lf, dot, crlf, dot_line, lines, ends_with_lf}

-- What the reader of a message gives: bytes, and then EOF or an error.
pub record Source : Type 0 where
  pub content : Bytes
  pub fails : Bool

-- The variables of the loop.
pub record Progress : Type 0 where
  pub in_body : Bool
  pub body_lines : ℕ  -- uint64
  pub last_ended_with_lf : Bool

abbrev pub start : Progress
start = record { in_body = false; body_lines = 0; last_ended_with_lf = true }

-- A line that begins with a dot gets another one.
unfoldable pub stuff : Bytes → Bytes
stuff [] = []
stuff (c ∷ s) = if c == dot then dot ∷ c ∷ s else c ∷ s

unfoldable pub limit_reached : Option ℕ → Progress → Bool
limit_reached none p = false
limit_reached (some limit) p = p.in_body && leb limit p.body_lines

unfoldable pub advance : Progress → Bytes → Progress
unfolding ends_with_lf bytes_eq
advance p line =
    if p.in_body
    then record p {
      body_lines = (p.body_lines + 1) % 2 ^ 64;
      last_ended_with_lf = ends_with_lf line;
    }
    else record p { in_body = bytes_eq line crlf; last_ended_with_lf = ends_with_lf line }

-- The loop over the lines: what is written, the variables at its end, and whether it broke off at
-- the limit.
unfoldable pub write_lines : Option ℕ → Progress → List Bytes → Bytes × Progress × Bool
unfolding stuff limit_reached advance
write_lines limit p [] = ([], p, false)
write_lines limit p (line ∷ ls) =
    let rest = write_lines limit (advance p line) ls in
    if limit_reached limit p then ([], p, true) else (stuff line ++ rest.0, rest.1, rest.2)

-- What is written behind the greeting line, and whether the stream was completed. A read error
-- ends it without the dot, unless the limit was reached before it.
unfoldable pub stream_message : Source → Option ℕ → Bytes × Bool
unfolding write_lines lines
stream_message source limit =
    let (out, p, broke) = write_lines limit start (lines source.content) in
    if source.fails && not broke
    then (out, false)
    else (out ++ ((if p.last_ended_with_lf then [] else crlf) ++ dot_line), true)
