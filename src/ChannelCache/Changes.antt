-- ===== src/ChannelCache/Changes.antt =====
-- `GetChanges` of db/channel_cache.go. Between the two reads of the cache, and before the results of
-- the query are prepended, the locks are free: the cache as it is at each of these moments is an
-- argument. The query of the channel is a parameter.
use mathlib.Core.List.{reverse}
use sync_gateway.Prelude.{
  ℕ, ◌+◌, ◌-◌, Bool, not, ◌&&◌, ◌||◌, Option, none, some, List, [], ◌∷◌, ◌++◌, ltb, leb, ◌==◌,
  if◌then◌else◌, length, take,
}
use sync_gateway.LogEntry.{LogEntry}
use sync_gateway.ChannelCache.{ChannelCache}
use sync_gateway.ChannelCache.Reads.{get_cached_changes}
use sync_gateway.ChannelCache.Backfill.{prepend_changes}

-- `ChangesOptions`, as far as it is read here; `since` is its `SafeSequence`.
pub record ChangesOptions : Type 0 where
  pub since : ℕ
  pub limit : ℕ
  pub active_only : Bool

-- `getCachedChanges`.
unfoldable pub read_cache : ChangesOptions → ChannelCache → ℕ × List LogEntry
unfolding get_cached_changes
read_cache o c = get_cached_changes o.since (if o.active_only then 0 else o.limit) c

-- The cached changes without the first if it is the last of the query; its results stand newest
-- first.
unfoldable pub drop_overlap : List LogEntry → List LogEntry → List LogEntry
drop_overlap [] cached = cached
drop_overlap (v ∷ vs) [] = []
drop_overlap (v ∷ vs) (x ∷ xs) = if x.sequence == v.sequence then xs else x ∷ xs

-- The results of the query and then those of the cache, up to the limit.
unfoldable pub concatenate : ℕ → List LogEntry → List LogEntry → List LogEntry
unfolding drop_overlap
concatenate limit found cached =
    let room = limit - length found in
    let rest = drop_overlap (reverse found) cached in
    if (limit == 0 || ltb 0 room) && ltb 0 (length cached)
    then found
      ++ (if ltb 0 limit && ltb 0 room && ltb room (length rest) then take room rest else rest)
    else found

-- `resultFromView[numResults-1].Sequence`, of a list that stands newest first.
unfoldable pub newest_sequence : ℕ → List LogEntry → ℕ
newest_sequence default [] = default
newest_sequence default (e ∷ es) = e.sequence

unfoldable pub result_valid_to : ChangesOptions → ℕ → List LogEntry → ℕ
unfolding newest_sequence
result_valid_to o end_seq found =
    if not (o.limit == 0) && leb o.limit (length found)
    then newest_sequence end_seq (reverse found)
    else end_seq

-- What follows a query that answers: the cache and the result.
unfoldable pub after_query :
    ChangesOptions
    → ℕ
    → List LogEntry
    → List LogEntry
    → ChannelCache
    → Option (List LogEntry) × ChannelCache
unfolding concatenate result_valid_to prepend_changes
after_query o end_seq cached found c = (
  some (concatenate o.limit found cached),
  if ltb (length cached) c.options.max_length
      then (prepend_changes (reverse found) (o.since + 1) (result_valid_to o end_seq found) c).0
      else c,
)

-- What follows the two reads of the cache. `none` is the error of the query, or of a feed that was
-- terminated.
unfoldable pub after_reads :
    (query : ℕ → ℕ → ℕ → Bool → Option (List LogEntry))
    → (terminated : Bool) → ChangesOptions
    → ℕ × List LogEntry
    → ℕ × List LogEntry
    → ChannelCache
    → Option (List LogEntry) × ChannelCache
unfolding after_query
after_reads query terminated o first second c =
    let start_seq = o.since + 1 in
    if leb first.0 start_seq
    then (some first.1, c)
    else if leb second.0 start_seq
    then (some second.1, c)
    else if terminated
    then (none, c)
    else elim (query start_seq second.0 o.limit o.active_only) [
      | none ↦ (none, c)
      | some found ↦ after_query o second.0 second.1 found c
    ]

-- The caches are those of the two reads and of the end.
unfoldable pub get_changes :
    (query : ℕ → ℕ → ℕ → Bool → Option (List LogEntry))
    → (terminated : Bool) → ChangesOptions
    → ChannelCache
    → ChannelCache
    → ChannelCache
    → Option (List LogEntry) × ChannelCache
unfolding read_cache after_reads
get_changes query terminated o first second c =
    after_reads query terminated o (read_cache o first) (read_cache o second) c
