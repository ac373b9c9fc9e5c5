-- ===== src/Pop3/Stream/Client.antt =====
-- The stream against a client of RFC 1939: it ends where the server ends it, and gives the message.
use picomx.Prelude.{
  ℕ, ◌≡◌, refl, sym, ap, ◌∙◌, inl, inr, true, false, ◌||◌, Option, none, some, List, [], ◌∷◌, ◌++◌,
  append_assoc, append-nil, arith, ◌==◌, if◌then◌else◌, Bool-cases,
}
use picomx.Text.Bytes.{Bytes, bytes_eq}
use picomx.Text.Lines.{
  dot, crlf, dot_line, lines, ends_with_lf, concat, IsLine, IsPartial, AreLines, concat-lines,
  lines-append, lines-AreLines, IsLine-ends, IsPartial-ends, IsPartial-crlf,
}
use picomx.Pop3.Stream.{Progress, start, stuff, advance, write_lines, stream_message}

-- The client drops the first dot of a line, and stops at the line of one dot.
pub unstuff : Bytes → Bytes
unstuff [] = []
unstuff (c ∷ s) = if c == dot then s else c ∷ s

unfoldable pub receive : List Bytes → Option (Bytes × List Bytes)
unfolding unstuff bytes_eq
receive [] = none
receive (l ∷ ls) =
    if bytes_eq l dot_line
    then some ([], ls)
    else elim (receive ls) [ none ↦ none | some (m, r) ↦ some (unstuff l ++ m, r) ]

-- The message as the client gets it: with CRLF behind a last line that has no line feed.
unfoldable pub completed : Bytes → Bytes
completed s = if ends_with_lf s || bytes_eq s [] then s else s ++ crlf

unstuff-stuff : (l : Bytes) → unstuff (stuff l) ≡ l
unfolding unstuff stuff
unstuff-stuff [] = refl
unstuff-stuff (c ∷ l) = ground arith

pub stuff-IsLine : (l : Bytes) → IsLine l → IsLine (stuff l)
unfolding stuff
stuff-IsLine [] h = h
stuff-IsLine (c ∷ l) h = elim (Bool-cases (c == dot)) [ inl e ↦ rw e (refl, h) | inr e ↦ rw e h ]

-- A stuffed line is never the line of one dot.
pub stuff_ne : (l : Bytes) → bytes_eq (stuff l) dot_line ≡ false
unfolding stuff bytes_eq
stuff_ne [] = refl
stuff_ne (c ∷ l) = ground arith

-- A stuffed line is received as the line.
receive-stuff :
    (l : Bytes) (ls : List Bytes) (m : Bytes) (r : List Bytes)
    → receive ls ≡ some (m, r)
    → receive (stuff l ∷ ls) ≡ some (l ++ m, r)
unfolding receive
receive-stuff l ls m r h = rw (stuff_ne l, h, unstuff-stuff l)

stuff-append : (l t : Bytes) → IsPartial l → stuff (l ++ t) ≡ stuff l ++ t
unfolding stuff
stuff-append [] t h = absurd h
stuff-append (c ∷ l) t h = ground arith

-- What is written from here on: the lines left, and the end of the stream.
left : Progress → List Bytes → Bytes → Bytes
left p ls rest =
    let (out, q, broke) = write_lines none p ls in
    out ++ (((if q.last_ended_with_lf then [] else crlf) ++ dot_line) ++ rest)

-- The lines of a message, the last one made a line.
complete : List Bytes → Bytes
complete [] = []
complete (l ∷ []) = if ends_with_lf l then l else l ++ crlf
complete (l ∷ m ∷ ls) = l ++ complete (m ∷ ls)

advance_lf : (p : Progress) (l : Bytes) → (advance p l).last_ended_with_lf ≡ ends_with_lf l
unfolding advance
advance_lf p l = ground arith

left-nil :
    (p : Progress) (rest : Bytes)
    → p.last_ended_with_lf ≡ true
    → receive (lines (left p [] rest)) ≡ some ([], lines rest)
unfolding left write_lines
left-nil p rest h = rw (h, lines-append dot_line rest (refl, (refl, refl))) (unfold receive in refl)

left-cons :
    (p : Progress) (l : Bytes) (ls : List Bytes) (rest : Bytes)
    → left p (l ∷ ls) rest ≡ stuff l ++ left (advance p l) ls rest
unfolding left
left-cons p l ls rest = unfold write_lines in append_assoc (stuff l) _ _

-- One full line, and then what follows it.
receive-line :
    (l s m : Bytes) (r : List Bytes)
    → IsLine l
    → receive (lines s) ≡ some (m, r)
    → receive (lines (stuff l ++ s)) ≡ some (l ++ m, r)
receive-line l s m r h k =
    rw (lines-append (stuff l) s (stuff-IsLine l h)) (receive-stuff l (lines s) m r k)

left_partial :
    (p : Progress) (l rest : Bytes)
    → p.last_ended_with_lf ≡ false
    → IsPartial l
    → stuff l ++ left p [] rest ≡ stuff (l ++ crlf) ++ left start [] rest
unfolding left write_lines
left_partial p l rest h k =
    rw (h, stuff-append l crlf k, append_assoc (stuff l) crlf (dot_line ++ rest))

received :
    (p : Progress) (l : Bytes) (ls : List Bytes) (rest : Bytes)
    → AreLines (l ∷ ls)
    → receive (lines (left p (l ∷ ls) rest)) ≡ some (complete (l ∷ ls), lines rest)
unfolding complete
received p l [] rest (inl h) = rw (left-cons p l [] rest) (
    receive-line l (left (advance p l) [] rest) [] (lines rest) h
      (left-nil (advance p l) rest (advance_lf p l ∙ IsLine-ends l h))
    ∙ rw (IsLine-ends l h, append-nil))
received p l [] rest (inr h) =
    rw
      (
        left-cons p l [] rest,
        left_partial (advance p l) l rest (advance_lf p l ∙ IsPartial-ends l h) h,
      )
      (receive-line (l ++ crlf) (left start [] rest) [] (lines rest) (IsPartial-crlf l h)
          (left-nil start rest refl)
        ∙ rw (IsPartial-ends l h, append-nil))
received p l (m ∷ ls) rest (h, a) = rw (left-cons p l (m ∷ ls) rest) (
    receive-line l (left (advance p l) (m ∷ ls) rest) (complete (m ∷ ls)) (lines rest) h
      (received (advance p l) m ls rest a))

ends-append : (s : Bytes) (c : ℕ) (t : Bytes) → ends_with_lf (s ++ (c ∷ t)) ≡ ends_with_lf (c ∷ t)
unfolding ends_with_lf
ends-append [] c t = refl
ends-append (d ∷ []) c t = refl
ends-append (d ∷ e ∷ s) c t = ends-append (e ∷ s) c t

completed-append :
    (l : Bytes) (c : ℕ) (t : Bytes) → completed (l ++ (c ∷ t)) ≡ l ++ completed (c ∷ t)
unfolding completed bytes_eq
completed-append [] c t = refl
completed-append (d ∷ l) c t = elim (Bool-cases (ends_with_lf (c ∷ t))) [
  | inl e ↦ rw (ends-append (d ∷ l) c t, e)
  | inr e ↦ rw (ends-append (d ∷ l) c t, e, append_assoc)
]

empty_line : (ls : List Bytes) → AreLines ([] ∷ ls) → ⊥
empty_line [] (inl h) = h
empty_line [] (inr h) = h
empty_line (m ∷ ls) (h, _) = h

complete-concat :
    (l : Bytes) (ls : List Bytes)
    → AreLines (l ∷ ls)
    → complete (l ∷ ls) ≡ completed (concat (l ∷ ls))
unfolding complete concat
complete-concat [] ls a = absurd (empty_line ls a)
complete-concat (c ∷ l) [] a = rw append-nil (unfold completed bytes_eq in ground arith)
complete-concat (c ∷ l) ([] ∷ ls) (_, a) = absurd (empty_line ls a)
complete-concat (c ∷ l) ((d ∷ m) ∷ ls) (_, a) =
    ap (λ t. (c ∷ l) ++ t) (complete-concat (d ∷ m) ls a)
    ∙ sym (completed-append (c ∷ l) d (m ++ concat ls))

received_all :
    (ls : List Bytes) (rest : Bytes)
    → AreLines ls
    → receive (lines (left start ls rest)) ≡ some (completed (concat ls), lines rest)
unfolding ends_with_lf
received_all [] rest a = unfold completed concat bytes_eq in left-nil start rest refl
received_all (l ∷ ls) rest a =
    received start l ls rest a ∙ ap (λ m. some (m, lines rest)) (complete-concat l ls a)

-- For every message that is read without an error, a client that reads the reply to RETR stops
-- exactly at its end, with the rest of the connection unread, and has the message, with CRLF added
-- if its last line had no line feed.
pub receive-stream_message :
    (content rest : Bytes)
    → receive
        (lines ((stream_message (record { content = content; fails = false }) none).0 ++ rest))
      ≡ some (completed content, lines rest)
receive-stream_message content rest = rw stream-left (
    received_all (lines content) rest (lines-AreLines content)
    ∙ ap (λ s. some (completed s, lines rest)) (concat-lines content))
  where
    stream-left :
        (stream_message (record { content = content; fails = false }) none).0 ++ rest
        ≡ left start (lines content) rest
    stream-left =
        unfold stream_message left in append_assoc (write_lines none start (lines content)).0 _ rest
