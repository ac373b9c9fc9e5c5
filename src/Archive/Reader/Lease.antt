-- ===== src/Archive/Reader/Lease.antt =====
-- internal/archive/read.go: from readObject to Close, with any reads in between.
use picomx.Prelude.{
  ℕ, zero, suc, ◌+◌, ◌-◌, ◌≤◌, ◌≡◌, refl, sym, ap, ◌∙◌, true, false, Option, none, some, List, [],
  ◌∷◌, ◌++◌, append_assoc, arith, ltb, ◌==◌, length, take, drop, length-append,
}
use picomx.Text.Bytes.{Bytes}
use picomx.Text.Unicode.{Unicode}
use picomx.Archive.Errors.{Error, Result, ok, err, ◌>>=◌}
use picomx.Archive.Reader.{
  ObjectHeader, CatFile, ReadState, BlobReader, read_object, drain, close_blob, read, pipe_count,
  Outcome, bytes, closed_file, end_of_file, unexpected_end, read_count, read_pipe,
}

take-append : (n : ℕ) (x t : Bytes) → n ≤ length x → take n (x ++ t) ++ drop n x ≡ x
take-append zero x t h = refl
take-append (suc n) [] t h = absurd (omega arith)
take-append (suc n) (c ∷ x) t h = ap (λ l. c ∷ l) (take-append n x t (omega arith))

drop-append : (n : ℕ) (x t : Bytes) → n ≤ length x → drop n (x ++ t) ≡ drop n x ++ t
drop-append zero x t h = refl
drop-append (suc n) [] t h = absurd (omega arith)
drop-append (suc n) (c ∷ x) t h = drop-append n x t (omega arith)

pub length-drop : (n : ℕ) (x : Bytes) → length (drop n x) ≡ length x - n
length-drop zero x = omega arith
length-drop (suc n) [] = omega arith
length-drop (suc n) (c ∷ x) = omega (arith, length-drop n x)

drop_all : (x t : Bytes) → drop (length x) (x ++ t) ≡ t
drop_all [] t = refl
drop_all (c ∷ x) t = drop_all x t

-- The bytes that one Read gives.
got_bytes : Outcome → Bytes
got_bytes (bytes b) = b
got_bytes closed_file = []
got_bytes end_of_file = []
got_bytes unexpected_end = []

-- Reads one after another: for each, what the pipe holds ready and the size of the buffer.
unfoldable pub run_reads : List (ℕ × ℕ) → Bytes → BlobReader → (Bytes × BlobReader) × Bytes
unfolding read got_bytes
run_reads [] output r = ((output, r), [])
run_reads ((arrived, buffer) ∷ more) output r =
    let ((output', r'), o) = read arrived buffer output r in
    let (end, got) = run_reads more output' r' in (end, got_bytes o ++ got)

unfoldable pub closed_result :
    Bytes → ReadState × BlobReader → ReadState × Result (ObjectHeader × Bytes × Option Error)
closed_result got (s, r) = (s, ok (r.header, got, r.close_error))

unfoldable pub run_and_close :
    (Bytes × BlobReader) × Bytes
    → ReadState
    → ReadState × Result (ObjectHeader × Bytes × Option Error)
unfolding close_blob closed_result
run_and_close ((output, r), got) s = closed_result got (close_blob output r s)

unfoldable pub use_opened :
    List (ℕ × ℕ)
    → ReadState × Result BlobReader
    → ReadState × Result (ObjectHeader × Bytes × Option Error)
unfolding run_reads run_and_close
use_opened reads (s, err e) = (s, err e)
use_opened reads (s, ok r) = elim s.reader [
  | none ↦ (s, err Error.io_failed)
  | some output ↦ run_and_close (run_reads reads output r) s
]

-- A caller of readObject that does these reads and then Close.
unfoldable pub use_object :
    Unicode
    → CatFile
    → Bytes
    → Bytes
    → List (ℕ × ℕ)
    → ReadState
    → ReadState × Result (ObjectHeader × Bytes × Option Error)
unfolding read_object use_opened
use_object u cat spec kind reads s = use_opened reads (read_object u cat spec kind s)

abbrev pub Read : Type 0
Read = (Bytes × BlobReader) × Result Bytes

unfoldable pub add_bytes : Bytes → Read → Read
add_bytes b (end, all_bytes) = (end, (all_bytes >>= λ more. ok (b ++ more)))

-- What follows one read in io.ReadAll.
unfoldable pub after_read : (Bytes × BlobReader) × Outcome → (Bytes → BlobReader → Read) → Read
unfolding add_bytes
after_read ((output, r), bytes b) again = add_bytes b (again output r)
after_read ((output, r), end_of_file) again = ((output, r), ok [])
after_read ((output, r), unexpected_end) again = ((output, r), err Error.io_failed)
after_read ((output, r), closed_file) again = ((output, r), err Error.io_failed)

-- io.ReadAll: `schedule` says what each read finds ready and how much room, less one, its buffer has.
unfoldable pub read_all : (ℕ → ℕ × ℕ) → ℕ → Bytes → BlobReader → Read
unfolding read after_read
read_all schedule zero output r = ((output, r), err Error.io_failed)
read_all schedule (suc fuel) output r =
    after_read (read (schedule fuel).0 (suc (schedule fuel).1) output r) (read_all schedule fuel)

-- An open reader of which `rest` was not read.
abbrev pub opened : ObjectHeader → Bytes → BlobReader
opened header rest = record {
  header = header;
  remaining = length rest;
  closed = false;
  close_error = none;
}

pub count_bounds :
    (arrived buffer m : ℕ)
    → (1 ≤ read_count arrived (suc buffer) (suc m) (suc (suc m)))
      × (read_count arrived (suc buffer) (suc m) (suc (suc m)) ≤ suc m)
unfolding read_count pipe_count
count_bounds arrived buffer m = (ground arith, ground arith)

pub pipe-Leased :
    (header : ObjectHeader) (n : ℕ) (rest : Bytes)
    → n ≤ length rest
    → (rest ≡ take n (rest ++ 10 ∷ []) ++ drop n rest)
      × (read_pipe n (rest ++ 10 ∷ []) (opened header rest) ≡ (
        (drop n rest ++ 10 ∷ [], opened header (drop n rest)),
        bytes (take n (rest ++ 10 ∷ [])),
      ))
unfolding read_pipe
pipe-Leased header n rest h = (
  sym (take-append n rest (10 ∷ []) h),
  rw (drop-append n rest (10 ∷ []) h, length-drop n rest) refl,
)

pub positive : (n : ℕ) → (suc n == 0) ≡ false
positive n = ground arith

pub read-pipe :
    (header : ObjectHeader) (arrived buffer c : ℕ) (rest : Bytes)
    → read arrived (suc buffer) ((c ∷ rest) ++ 10 ∷ []) (opened header (c ∷ rest))
      ≡ read_pipe
          (read_count arrived (suc buffer) (suc (length rest)) (suc (suc (length rest))))
          ((c ∷ rest) ++ 10 ∷ [])
          (opened header (c ∷ rest))
unfolding read
read-pipe header arrived buffer c rest =
    rw
      (
        positive buffer,
        positive (length rest),
        length-append rest (10 ∷ []),
        positive (length rest + 1),
      )
      (ap
        (λ n.
          read_pipe (read_count arrived (suc buffer) (suc (length rest)) n) (c ∷ (rest ++ 10 ∷ []))
            (opened header (c ∷ rest)))
        (omega arith))

-- One Read: what it gives are the next bytes of the object, and one at least where there is room.
ReadsOn : ObjectHeader → ℕ → ℕ → Bytes → Type 0
ReadsOn header arrived buffer rest =
    (rest' : Bytes) × (o : Outcome) × (rest ≡ got_bytes o ++ rest')
    × (read arrived buffer (rest ++ 10 ∷ []) (opened header rest)
        ≡ ((rest' ++ 10 ∷ [], opened header rest'), o))

read-ReadsOn :
    (header : ObjectHeader) (arrived buffer : ℕ) (rest : Bytes) → ReadsOn header arrived buffer rest
unfolding ReadsOn read got_bytes
read-ReadsOn header arrived zero rest = (rest, bytes [], refl, refl)
read-ReadsOn header arrived (suc buffer) [] = ([], end_of_file, refl, rw (positive buffer) refl)
read-ReadsOn header arrived (suc buffer) (c ∷ rest) =
    let n = read_count arrived (suc buffer) (suc (length rest)) (suc (suc (length rest))) in
    let (whole, run) =
      pipe-Leased header n (c ∷ rest) (count_bounds arrived buffer (length rest)).1 in
    (
      drop n (c ∷ rest),
      bytes (take n ((c ∷ rest) ++ 10 ∷ [])),
      whole,
      read-pipe header arrived buffer c rest ∙ run,
    )

pub run_reads-prefix :
    (header : ObjectHeader) (reads : List (ℕ × ℕ)) (rest : Bytes)
    → (rest' : Bytes) × (got : Bytes) × (rest ≡ got ++ rest')
      × (run_reads reads (rest ++ 10 ∷ []) (opened header rest)
          ≡ ((rest' ++ 10 ∷ [], opened header rest'), got))
unfolding run_reads ReadsOn
run_reads-prefix header [] rest = (rest, [], refl, refl)
run_reads-prefix header ((arrived, buffer) ∷ more) rest =
    let (mid, o, e, run) = read-ReadsOn header arrived buffer rest in
    let (end, got, e', run') = run_reads-prefix header more mid in
    (
      end,
      got_bytes o ++ got,
      e ∙ ap (λ l. got_bytes o ++ l) e' ∙ sym (append_assoc (got_bytes o) got end),
      rw (run, run') refl,
    )

longer : (n : ℕ) → ltb (n + 1) n ≡ false
longer n = ground arith

unfoldable pub closed_reader : ObjectHeader → Bytes → BlobReader
closed_reader header rest = record {
  header = header;
  remaining = length rest;
  closed = true;
  close_error = none;
}

pub close-opened :
    (header : ObjectHeader) (rest : Bytes) (s : ReadState)
    → close_blob (rest ++ 10 ∷ []) (opened header rest) s
      ≡ (record s { reader = some [] }, closed_reader header rest)
unfolding close_blob drain closed_reader
close-opened header rest s =
    rw (length-append rest (10 ∷ []), longer (length rest), drop_all rest (10 ∷ [])) refl
