-- ===== src/ChangeCache/Clean.antt =====
-- `CleanSkippedSequenceQueue` of db/change_cache.go. The query of the channel view and the documents
-- that it reads are parameters. `none` is an error of the query or of the document's read. The
-- method holds no lock: its parts are steps of their own, between which entries may arrive.
use sync_gateway.Prelude.{
  ℕ, zero, suc, ◌+◌, Bool, true, Option, none, some, List, [], ◌∷◌, ◌++◌, if◌then◌else◌, length,
  take, Str,
}
use sync_gateway.LogEntry.{LogEntry, ChannelMap}
use sync_gateway.ChannelCache.View.{has_seq}
use sync_gateway.ChangeCache.Skipped.{remove_sequences, get_older_than}
use sync_gateway.ChangeCache.{ChangeCache, process_entry, union}

unfoldable pub skipped_seq_clean_view_batch : ℕ
skipped_seq_clean_view_batch = 50

unfoldable pub get_skipped_sequences_older_than_max_wait : ℕ → ChangeCache → List ℕ
get_skipped_sequences_older_than_max_wait now c =
    get_older_than now c.options.skipped_seq_max_wait c.skipped_seqs

-- What follows a batch.
unfoldable pub after_batch : ℕ → List ℕ → List ℕ
after_batch zero l = l
after_batch (suc n) [] = []
after_batch (suc n) (s ∷ l) = after_batch n l

-- The queried sequences that are not in the result.
unfoldable pub not_found : List LogEntry → List ℕ → List ℕ
not_found entries [] = []
not_found entries (s ∷ batch) =
    let rest = not_found entries batch in if has_seq s entries then rest else s ∷ rest

-- The loop over the batches: the entries found, and the pending removals. Each round takes at least
-- one sequence, so the length is enough fuel.
unfoldable pub query_batches :
    (List ℕ → Option (List LogEntry)) → ℕ → List ℕ → List LogEntry × List ℕ
query_batches query zero old = ([], [])
query_batches query (suc fuel) [] = ([], [])
query_batches query (suc fuel) (s ∷ old) =
    let batch = take skipped_seq_clean_view_batch (s ∷ old) in
    let (found, removals) =
      query_batches query fuel (after_batch skipped_seq_clean_view_batch (s ∷ old)) in
    elim (query batch) as (λ o. List LogEntry × List ℕ) [
      | none ↦ (found, removals)
      | some entries ↦ (entries ++ found, not_found entries batch ++ removals)
    ]

-- The entries found and the pending removals for the sequences that are too old.
unfoldable pub look_up_old :
    (List ℕ → Option (List LogEntry)) → Bool → List ℕ → List LogEntry × List ℕ
look_up_old query disable_clean_skipped_query old =
    if disable_clean_skipped_query then ([], old) else query_batches query (length old) old

-- The entry with the channels of its document, as it is processed.
unfoldable pub as_skipped : LogEntry → ChannelMap → LogEntry
as_skipped entry channels = record entry { skipped = true; channels = channels }

-- `processEntry` for the entries found, each at the clock's next reading.
unfoldable pub process_found :
    (Str → Option ChannelMap) → (ℕ → ℕ) → ℕ → List LogEntry → ChangeCache → ChangeCache × List Str
process_found get_document clock i [] c = (c, [])
process_found get_document clock i (entry ∷ found) c =
    elim (get_document entry.doc_id) as (λ o. ChangeCache × List Str) [
      | none ↦ process_found get_document clock (i + 1) found c
      | some channels ↦
          let (c', changed) = process_entry (clock i) (as_skipped entry channels) c in
          let (c'', more) = process_found get_document clock (i + 1) found c' in
          (c'', union changed more)
    ]

-- `RemoveSkippedSequences`.
unfoldable pub remove_skipped_sequences : List ℕ → ChangeCache → ChangeCache × ℕ
remove_skipped_sequences sequences c =
    let (l, removed) = remove_sequences sequences c.skipped_seqs in
    (record c { skipped_seqs = l }, removed)

-- The whole clean: the cache, the changed channels, and how many sequences were abandoned.
unfoldable pub clean_skipped_sequence_queue :
    (List ℕ → Option (List LogEntry))
    → (Str → Option ChannelMap)
    → (ℕ → ℕ)
    → Bool
    → ChangeCache
    → ChangeCache × List Str × ℕ
clean_skipped_sequence_queue query get_document clock disable_clean_skipped_query c =
    let old = get_skipped_sequences_older_than_max_wait (clock 0) c in
    let (found, removals) = look_up_old query disable_clean_skipped_query old in
    let (c', changed) = process_found get_document clock 1 found c in
    let (c'', removed) = remove_skipped_sequences removals c' in (c'', changed, removed)
