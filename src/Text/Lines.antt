-- ===== src/Text/Lines.antt =====
-- Lines of a byte stream, as bufio's ReadSlice('\n') and ReadBytes('\n') give them one by one.
use picomx.Prelude.{
  ℕ, ◌≡◌, refl, ap, ◌∙◌, ◌⊎◌, inl, inr, Bool, true, false, List, [], ◌∷◌, ◌++◌, ◌==◌, if◌then◌else◌,
  Bool-cases,
}
use picomx.Text.Bytes.{Bytes, Lacks}

abbrev pub lf : ℕ
lf = 10

abbrev pub cr : ℕ
cr = 13

abbrev pub dot : ℕ
dot = b'.'

abbrev pub crlf : Bytes
crlf = cr ∷ lf ∷ []

abbrev pub dot_line : Bytes
dot_line = dot ∷ crlf

push : ℕ → List Bytes → List Bytes
push c [] = (c ∷ []) ∷ []
push c (l ∷ ls) = (c ∷ l) ∷ ls

-- Each line with the line feed that ends it; the last one may have none.
unfoldable pub lines : Bytes → List Bytes
unfolding push
lines [] = []
lines (c ∷ s) = if c == lf then (c ∷ []) ∷ lines s else push c (lines s)

-- The end of a line: `line[len(line)-1] == '\n'`.
unfoldable pub ends_with_lf : Bytes → Bool
ends_with_lf [] = false
ends_with_lf (c ∷ []) = c == lf
ends_with_lf (c ∷ d ∷ s) = ends_with_lf (d ∷ s)

unfoldable pub concat : List Bytes → Bytes
concat [] = []
concat (l ∷ ls) = l ++ concat ls

-- A line with its line feed, and no other.
abbrev pub IsLine : Bytes → Type 0
IsLine [] = ⊥
IsLine (c ∷ []) = (c == lf) ≡ true
IsLine (c ∷ d ∷ s) = ((c == lf) ≡ false) × IsLine (d ∷ s)

-- A last line that its line feed is missing from.
abbrev pub IsPartial : Bytes → Type 0
IsPartial [] = ⊥
IsPartial (c ∷ []) = (c == lf) ≡ false
IsPartial (c ∷ d ∷ s) = ((c == lf) ≡ false) × IsPartial (d ∷ s)

abbrev pub AreLines : List Bytes → Type 0
AreLines [] = Unit
AreLines (l ∷ []) = IsLine l ⊎ IsPartial l
AreLines (l ∷ m ∷ ls) = IsLine l × AreLines (m ∷ ls)

pub concat-lines : (s : Bytes) → concat (lines s) ≡ s
unfolding lines concat
concat-lines [] = refl
concat-lines (c ∷ s) = elim (Bool-cases (c == lf)) [
  | inl e ↦ rw (e, concat-lines s)
  | inr e ↦ rw e (concat-push c (lines s) ∙ ap (λ t. c ∷ t) (concat-lines s))
]
  where
    concat-push : (c : ℕ) (ls : List Bytes) → concat (push c ls) ≡ c ∷ concat ls
    concat-push c [] = refl
    concat-push c (l ∷ ls) = refl

-- A full line at the front of a stream is read first.
pub lines-append : (l s : Bytes) → IsLine l → lines (l ++ s) ≡ l ∷ lines s
unfolding lines
lines-append [] s h = absurd h
lines-append (c ∷ []) s h = rw h
lines-append (c ∷ d ∷ l) s (hc, hl) = rw (hc, lines-append (d ∷ l) s hl)

pub IsLine-cons : (c : ℕ) (l : Bytes) → (c == lf) ≡ false → IsLine l → IsLine (c ∷ l)
IsLine-cons c [] h a = absurd a
IsLine-cons c (d ∷ l) h a = (h, a)

IsPartial-cons : (c : ℕ) (l : Bytes) → (c == lf) ≡ false → IsPartial l → IsPartial (c ∷ l)
IsPartial-cons c [] h a = absurd a
IsPartial-cons c (d ∷ l) h a = (h, a)

AreLines-cons : (l : Bytes) (ls : List Bytes) → IsLine l → AreLines ls → AreLines (l ∷ ls)
AreLines-cons l [] h a = inl h
AreLines-cons l (m ∷ ls) h a = (h, a)

AreLines-push : (c : ℕ) (ls : List Bytes) → (c == lf) ≡ false → AreLines ls → AreLines (push c ls)
unfolding push
AreLines-push c [] h a = inr h
AreLines-push c (l ∷ []) h (inl a) = inl (IsLine-cons c l h a)
AreLines-push c (l ∷ []) h (inr a) = inr (IsPartial-cons c l h a)
AreLines-push c (l ∷ m ∷ ls) h (a, b) = (IsLine-cons c l h a, b)

-- A stream is cut into full lines and at most one partial line, the last.
pub lines-AreLines : (s : Bytes) → AreLines (lines s)
unfolding lines
lines-AreLines [] = tt
lines-AreLines (c ∷ s) = elim (Bool-cases (c == lf)) [
  | inl e ↦ rw e (AreLines-cons (c ∷ []) (lines s) e (lines-AreLines s))
  | inr e ↦ rw e (AreLines-push c (lines s) e (lines-AreLines s))
]

pub IsLine-ends : (l : Bytes) → IsLine l → ends_with_lf l ≡ true
unfolding ends_with_lf
IsLine-ends [] h = absurd h
IsLine-ends (c ∷ []) h = h
IsLine-ends (c ∷ d ∷ l) (_, h) = IsLine-ends (d ∷ l) h

pub IsPartial-ends : (l : Bytes) → IsPartial l → ends_with_lf l ≡ false
unfolding ends_with_lf
IsPartial-ends [] h = absurd h
IsPartial-ends (c ∷ []) h = h
IsPartial-ends (c ∷ d ∷ l) (_, h) = IsPartial-ends (d ∷ l) h

-- A partial line becomes a line when CRLF is written behind it.
pub IsPartial-crlf : (l : Bytes) → IsPartial l → IsLine (l ++ crlf)
IsPartial-crlf [] h = absurd h
IsPartial-crlf (c ∷ []) h = (h, (refl, refl))
IsPartial-crlf (c ∷ d ∷ l) (hc, h) = (hc, IsPartial-crlf (d ∷ l) h)

-- Text without a line feed becomes a line when CRLF is written behind it.
pub Lacks-IsLine : (text : Bytes) → Lacks lf text → IsLine (text ++ crlf)
Lacks-IsLine [] h = (refl, refl)
Lacks-IsLine (c ∷ text) (hc, h) = IsLine-cons c (text ++ crlf) hc (Lacks-IsLine text h)
