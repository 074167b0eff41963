-- ===== src/ChannelCache/Purge.antt =====
-- `pruneCacheAge` and `Remove` of db/channel_cache.go. The clock is read once per call.
use sync_gateway.Prelude.{
  ℕ, zero, suc, ◌+◌, ◌-◌, Bool, List, [], ◌∷◌, ◌&&◌, ltb, leb, length, drop, if◌then◌else◌, Str,
  false,
}
use sync_gateway.Prelude.Int.{negsuc}
use sync_gateway.LogEntry.{LogEntry}
use sync_gateway.ChannelCache.{ChannelCache, Stats, has_id, delete_id, update_utilization, prune_to}

-- `time.Since(c.logs[0].TimeReceived) > age`, of the last of the entries that are left.
unfoldable pub is_aged : ℕ → ℕ → List LogEntry → Bool
is_aged now age [] = false
is_aged now age (e ∷ es) = ltb age (now - e.time_received)

unfoldable pub may_prune : ℕ → ChannelCache → Bool
unfolding is_aged
may_prune now c =
    ltb c.options.min_length (length c.logs)
    && is_aged now c.options.age (drop (length c.logs - 1) c.logs)

-- The loop, with fuel for each entry; a round drops the oldest entry.
unfoldable pub prune_age_loop : ℕ → ℕ → ChannelCache → ChannelCache
unfolding may_prune prune_to
prune_age_loop zero now c = c
prune_age_loop (suc fuel) now c =
    let rest = prune_age_loop fuel now (prune_to (length c.logs - 1) c) in
    if may_prune now c then rest else c

unfoldable pub prune_cache_age : ℕ → ChannelCache → ChannelCache
unfolding prune_age_loop
prune_cache_age now c =
    if leb c.options.max_length c.options.min_length
    then c
    else prune_age_loop (length c.logs) now c

-- The documents of the request that are in the cache.
unfoldable pub found_docs : List Str → List Str → List Str
found_docs cached [] = []
found_docs cached (d ∷ ds) =
    let rest = found_docs cached ds in if has_id d cached then d ∷ rest else rest

-- What the sweep of `Remove` has left and counted.
pub record Sweep : Type 0 where
  pub logs : List LogEntry
  pub cached_doc_ids : List Str
  pub stats : Stats
  pub count : ℕ

-- The sweep, from the newest entry on. An entry received after the start of the purge stays.
unfoldable pub sweep : List Str → ℕ → List Str → Stats → ℕ → List LogEntry → Sweep
sweep found start_time ids stats count [] = record {
  logs = [];
  cached_doc_ids = ids;
  stats = stats;
  count = count;
}
sweep found start_time ids stats count (e ∷ es) =
    let rest = sweep found start_time ids stats count es in
    let removed =
      sweep found start_time (delete_id e.doc_id ids) (update_utilization e (negsuc 0) stats)
        (count + 1) es in
    if has_id e.doc_id found && leb e.time_received start_time
    then removed
    else record rest { logs = e ∷ rest.logs }

unfoldable pub remove : List Str → ℕ → ChannelCache → ChannelCache × ℕ
unfolding sweep found_docs
remove [] start_time c = (c, 0)
remove (d ∷ ds) start_time c =
    let s =
      sweep (found_docs c.cached_doc_ids (d ∷ ds)) start_time c.cached_doc_ids c.stats 0 c.logs in
    (record c { logs = s.logs; cached_doc_ids = s.cached_doc_ids; stats = s.stats }, s.count)
