-- ===== src/ChannelCache/Backfill.antt =====
-- `prependChanges` of db/channel_cache.go: the results of a query fed back into the cache. The
-- results stand newest first, like the cache's entries.
pub mod Loop
pub mod Empty
pub mod Filled
use sync_gateway.Prelude.{
  ℕ, suc, ◌+◌, ◌-◌, Bool, true, false, List, [], ◌∷◌, ◌++◌, ◌&&◌, not, ltb, leb, if◌then◌else◌, Str,
  length, take,
}
use sync_gateway.Prelude.Int.{pos}
use sync_gateway.LogEntry.{LogEntry}
use sync_gateway.ChannelCache.{ChannelCache, Stats, has_id, add_id, update_utilization}

unfoldable pub add_doc_ids : List LogEntry → List Str → List Str
add_doc_ids [] ids = ids
add_doc_ids (e ∷ es) ids = add_id e.doc_id (add_doc_ids es ids)

-- `changes[0].Sequence` of a list that stands newest first: the last entry's.
unfoldable pub oldest_sequence : ℕ → List LogEntry → ℕ
oldest_sequence from [] = from
oldest_sequence from (e ∷ es) = oldest_sequence e.sequence es

-- The branch for an empty cache.
unfoldable pub fill_empty : List LogEntry → ℕ → ChannelCache → ChannelCache × ℕ
unfolding add_doc_ids oldest_sequence
fill_empty changes from c =
    let excess = ltb c.options.max_length (length changes) in
    let kept = if excess then take c.options.max_length changes else changes in
    (
      record c {
        logs = kept;
        valid_from = if excess then oldest_sequence from kept else from;
        cached_doc_ids = add_doc_ids kept c.cached_doc_ids;
      },
      length kept,
    )

-- What the loop over the results has collected.
pub record Prepended : Type 0 where
  pub entries : List LogEntry
  pub from : ℕ
  pub cached_doc_ids : List Str
  pub stats : Stats

-- The loop, with room for so many more entries; the sequence from which the results are valid rises
-- to the last entry taken when the room is used up.
unfoldable pub prepend_loop : ℕ → ℕ → ℕ → List Str → Stats → List LogEntry → Prepended
prepend_loop valid_from room from ids stats [] = record {
  entries = [];
  from = from;
  cached_doc_ids = ids;
  stats = stats;
}
prepend_loop valid_from room from ids stats (e ∷ es) =
    let skip = prepend_loop valid_from room from ids stats es in
    let ids' = add_id e.doc_id ids in
    let stats' = update_utilization e (pos 1) stats in
    let more = prepend_loop valid_from (room - 1) from ids' stats' es in
    if ltb e.sequence valid_from && not (has_id e.doc_id ids)
    then (if leb room 1
        then record { entries = e ∷ []; from = e.sequence; cached_doc_ids = ids'; stats = stats' }
        else record more { entries = e ∷ more.entries })
    else skip

-- The branch for a cache with entries and room.
unfoldable pub fill_rest : List LogEntry → ℕ → ChannelCache → ChannelCache × ℕ
unfolding prepend_loop
fill_rest changes from c =
    let p =
      prepend_loop c.valid_from (c.options.max_length - length c.logs) from c.cached_doc_ids c.stats
        changes in
    (
      record c {
        logs = c.logs ++ p.entries;
        valid_from = p.from;
        cached_doc_ids = p.cached_doc_ids;
        stats = p.stats;
      },
      length p.entries,
    )

-- The branches on the entries in the cache.
unfoldable pub prepend_onto : List LogEntry → List LogEntry → ℕ → ChannelCache → ChannelCache × ℕ
unfolding fill_empty fill_rest
prepend_onto [] changes from c = fill_empty changes from c
prepend_onto (e ∷ es) changes from c =
    if leb c.options.max_length (length c.logs)
    then (c, 0)
    else if leb c.valid_from from
    then (c, 0)
    else fill_rest changes from c

-- The changes, and the sequences from and to which they are valid; the new cache, and the number of
-- entries that were added.
unfoldable pub prepend_changes : List LogEntry → ℕ → ℕ → ChannelCache → ChannelCache × ℕ
unfolding prepend_onto
prepend_changes [] from to c =
    (if ltb from c.valid_from && leb c.valid_from to then record c { valid_from = from } else c, 0)
prepend_changes (e ∷ es) from to c =
    if ltb to c.valid_from then (c, 0) else prepend_onto c.logs (e ∷ es) from c
