-- ===== src/Pop3/Session/Marks.antt =====
-- The numbers that a session has marked: distinct, of the maildrop, and so not too many.
use picomx.Prelude.{
  ℕ, zero, suc, ◌≤◌, ◌<◌, ◌≡◌, inl, inr, false, List, [], ◌∷◌, arith, ◌==◌, if◌then◌else◌,
  Bool-cases, length, All,
}
use picomx.Text.Bytes.{Lacks}
use picomx.Pop3.Mailbox.{Deleted, mark}

-- The numbers that are marked.
unfoldable pub numbers : Deleted → List ℕ
numbers [] = []
numbers ((n, id) ∷ d) = n ∷ numbers d

abbrev pub Distinct : List ℕ → Type 0
Distinct [] = Unit
Distinct (n ∷ ns) = Lacks n ns × Distinct ns

-- The numbers that a maildrop of `count` messages has.
abbrev pub InRange : ℕ → List ℕ → Type 0
InRange count = All (λ n. (0 < n) × (n ≤ count))

mark-Lacks :
    (d : Deleted) (n id m : ℕ)
    → (n == m) ≡ false
    → Lacks m (numbers d)
    → Lacks m (numbers (mark d n id))
unfolding numbers mark
mark-Lacks [] n id m h k = (h, tt)
mark-Lacks ((j, old) ∷ d) n id m h (hj, k) = elim (Bool-cases (j == n)) [
  | inl e ↦ rw e (h, k)
  | inr e ↦ rw e (hj, mark-Lacks d n id m h k)
]

-- Marking one more message keeps the numbers distinct.
pub mark-Distinct :
    (d : Deleted) (n id : ℕ) → Distinct (numbers d) → Distinct (numbers (mark d n id))
unfolding numbers mark
mark-Distinct [] n id h = (tt, tt)
mark-Distinct ((j, old) ∷ d) n id (k, h) = elim (Bool-cases (j == n)) [
  | inl e ↦ rw e (let same_number : j ≡ n = ground arith in rw (← same_number) (k, h))
  | inr e ↦ rw e (mark-Lacks d n id j (ground arith) k, mark-Distinct d n id h)
]

pub mark-InRange :
    (count : ℕ) (d : Deleted) (n id : ℕ)
    → 0 < n
    → n ≤ count
    → InRange count (numbers d)
    → InRange count (numbers (mark d n id))
unfolding numbers mark
mark-InRange count [] n id p q h = ((p, q), tt)
mark-InRange count ((j, old) ∷ d) n id p q (hj, h) = elim (Bool-cases (j == n)) [
  | inl e ↦ rw e ((p, q), h)
  | inr e ↦ rw e (hj, mark-InRange count d n id p q h)
]

-- Distinct numbers from 1 to `count` are at most `count` many.
without : ℕ → List ℕ → List ℕ
without n [] = []
without n (m ∷ ms) = if m == n then ms else m ∷ without n ms

length-without : (n : ℕ) (ms : List ℕ) → length ms ≤ suc (length (without n ms))
unfolding without
length-without n [] = omega arith
length-without n (m ∷ ms) = ground (arith, length-without n ms)

without-Lacks : (n k : ℕ) (ms : List ℕ) → Lacks k ms → Lacks k (without n ms)
unfolding without
without-Lacks n k [] h = tt
without-Lacks n k (m ∷ ms) (hm, h) = elim (Bool-cases (m == n)) [
  | inl e ↦ rw e h
  | inr e ↦ rw e (hm, without-Lacks n k ms h)
]

without-Distinct : (n : ℕ) (ms : List ℕ) → Distinct ms → Distinct (without n ms)
unfolding without
without-Distinct n [] h = tt
without-Distinct n (m ∷ ms) (k, h) = elim (Bool-cases (m == n)) [
  | inl e ↦ rw e h
  | inr e ↦ rw e (without-Lacks n m ms k, without-Distinct n ms h)
]

below : (c : ℕ) (ms : List ℕ) → Lacks (suc c) ms → InRange (suc c) ms → InRange c ms
below c [] k h = tt
below c (m ∷ ms) (km, k) ((p, q), h) = ((p, ground arith), below c ms k h)

without-InRange :
    (c : ℕ) (ms : List ℕ) → Distinct ms → InRange (suc c) ms → InRange c (without (suc c) ms)
unfolding without
without-InRange c [] d h = tt
without-InRange c (m ∷ ms) (k, d) ((p, q), h) = elim (Bool-cases (m == suc c)) [
  | inl e ↦ rw e (let top : m ≡ suc c = ground arith in below c ms (rw top at k) h)
  | inr e ↦ rw e ((p, ground arith), without-InRange c ms d h)
]

pub length-le-count : (c : ℕ) (ms : List ℕ) → Distinct ms → InRange c ms → length ms ≤ c
length-le-count zero [] d h = omega arith
length-le-count zero (m ∷ ms) d ((p, q), h) = absurd (omega arith)
length-le-count (suc c) ms d h = omega (
  arith,
  length-without (suc c) ms,
  length-le-count c (without (suc c) ms) (without-Distinct (suc c) ms d) (without-InRange c ms d h),
)
