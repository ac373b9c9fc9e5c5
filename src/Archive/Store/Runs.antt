-- ===== src/Archive/Store/Runs.antt =====
-- Operations of concurrent connections on one store, in the order in which they take its lock.
use picomx.Prelude.{
  ◌≡◌, Bool, true, false, not, none, some, inl, inr, Bool-cases, get_elem?, if◌then◌else◌, arith, ℕ,
  List, [], ◌∷◌,
}
use picomx.Text.Bytes.{Bytes}
use picomx.Archive.Store.{
  StagedMessage, Store, Answers, discard, begin_stage, create_file, read_chunk, finish_stage,
  publish,
}
use picomx.Archive.Store.Budget.{
  IsBudgeted, discard-IsBudgeted, create_file-IsBudgeted, finish_stage-IsBudgeted,
}
use picomx.Archive.Store.Staging.{begin_stage-IsBudgeted, read_chunk-IsBudgeted}
use picomx.Archive.Store.Publication.{publish-IsBudgeted}

-- One operation, with the day that the clock shows then. A message is named by its place.
pub data Operation : Type 0 where
  reserve_first : Bytes → Operation
  open_file : ℕ → Operation
  copy_chunk : Bytes → ℕ → Bytes → Operation
  close_file : ℕ → Operation
  drop_message : ℕ → Operation
  publish_one : Bytes → ℕ → Answers → Operation

-- Only Stage reads, while nobody else has the message: one that is done is not read any more.
unfoldable pub is_live : Store → ℕ → Bool
is_live s h = elim (get_elem? s.staged h) [ none ↦ false | some m ↦ not m.done ]

is_live_sound :
    (s : Store) (h : ℕ) (m : StagedMessage)
    → is_live s h ≡ true
    → get_elem? s.staged h ≡ some m
    → m.done ≡ false
unfolding is_live
is_live_sound s h m live e = live_of m.done (rw (is_live, e) at live)
  where
    live_of : (b : Bool) → not b ≡ true → b ≡ false
    live_of b k = ground arith

unfoldable pub perform : Store → Operation → Store
unfolding is_live begin_stage create_file read_chunk finish_stage discard publish
perform s (reserve_first today) = (begin_stage s today).0
perform s (open_file h) = create_file s h
perform s (copy_chunk today h chunk) = if is_live s h then (read_chunk s today h chunk).0 else s
perform s (close_file h) = finish_stage s h
perform s (drop_message h) = discard s h
perform s (publish_one today h a) = (publish s today h a).0

unfoldable pub perform_all : Store → List Operation → Store
unfolding perform
perform_all s [] = s
perform_all s (op ∷ ops) = perform_all (perform s op) ops

perform-IsBudgeted : (s : Store) (op : Operation) → IsBudgeted s → IsBudgeted (perform s op)
unfolding perform
perform-IsBudgeted s (reserve_first today) v = begin_stage-IsBudgeted s today v
perform-IsBudgeted s (open_file h) v = create_file-IsBudgeted s h v
perform-IsBudgeted s (copy_chunk today h chunk) v = elim (Bool-cases (is_live s h)) [
  | inl e ↦ rw e (read_chunk-IsBudgeted s today h chunk (λ m k. is_live_sound s h m e k) v)
  | inr e ↦ rw e v
]
perform-IsBudgeted s (close_file h) v = finish_stage-IsBudgeted s h v
perform-IsBudgeted s (drop_message h) v = discard-IsBudgeted s h v
perform-IsBudgeted s (publish_one today h a) v = publish-IsBudgeted s today h a v

-- From a store whose reservations add up and fit the limit, as do its charges, every sequence of
-- operations, on whatever days and with whatever answers, leads to such a store again: the counter
-- is the sum of what the staged messages hold, it is within the daily limit and so are the charges.
pub perform_all-IsBudgeted :
    (s : Store) (ops : List Operation) → IsBudgeted s → IsBudgeted (perform_all s ops)
unfolding perform_all
perform_all-IsBudgeted s [] v = v
perform_all-IsBudgeted s (op ∷ ops) v =
    perform_all-IsBudgeted (perform s op) ops (perform-IsBudgeted s op v)
