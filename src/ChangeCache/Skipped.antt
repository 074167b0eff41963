-- ===== src/ChangeCache/Skipped.antt =====
-- `SkippedSequenceList` of db/change_cache.go. The map beside the list, from a sequence to its
-- element, holds what the list holds: membership is read from the list.
use sync_gateway.Prelude.{
  ℕ, ◌+◌, ◌-◌, Bool, true, false, Option, none, some, List, [], ◌∷◌, ltb, ◌==◌, if◌then◌else◌,
}

pub record SkippedSequence : Type 0 where
  pub seq : ℕ
  pub time_added : ℕ

-- The first element; 0 if there is none.
unfoldable pub get_oldest : List SkippedSequence → ℕ
get_oldest [] = 0
get_oldest (x ∷ l) = x.seq

unfoldable pub was_skipped : ℕ → List SkippedSequence → Bool
was_skipped s [] = false
was_skipped s (x ∷ l) = if x.seq == s then true else was_skipped s l

unfoldable pub remove_skipped : ℕ → List SkippedSequence → List SkippedSequence
remove_skipped s [] = []
remove_skipped s (x ∷ l) = if x.seq == s then l else x ∷ remove_skipped s l

-- `Push`: at the end, and only above the last sequence; `none` is the error.
unfoldable pub try_push : SkippedSequence → List SkippedSequence → Option (List SkippedSequence)
try_push x [] = some (x ∷ [])
try_push x (y ∷ []) = if ltb y.seq x.seq then some (y ∷ x ∷ []) else none
try_push x (y ∷ z ∷ l) = elim (try_push x (z ∷ l)) [ none ↦ none | some r ↦ some (y ∷ r) ]

-- `PushSkipped` drops the error.
unfoldable pub push : SkippedSequence → List SkippedSequence → List SkippedSequence
unfolding try_push
push x l = elim (try_push x l) [ none ↦ l | some r ↦ r ]

-- `RemoveSequences`: the list, and how many were removed.
unfoldable pub remove_sequences : List ℕ → List SkippedSequence → List SkippedSequence × ℕ
unfolding was_skipped remove_skipped
remove_sequences [] l = (l, 0)
remove_sequences (s ∷ ss) l =
    let (r, n) = remove_sequences ss (remove_skipped s l) in
    (r, if was_skipped s l then n + 1 else n)

-- `getOlderThan`: the sequences at the front that were added more than the wait ago.
unfoldable pub get_older_than : ℕ → ℕ → List SkippedSequence → List ℕ
get_older_than now wait [] = []
get_older_than now wait (x ∷ l) =
    if ltb wait (now - x.time_added) then x.seq ∷ get_older_than now wait l else []
