-- ===== src/ChannelCache.antt =====
-- db/channel_cache.go: the cache of one channel's recent changes. Lists of log entries stand newest
-- first, the order in which the code walks its slices, so an index counts from the other end here.
-- A method that holds the cache's lock is one step. The set of cached document ids is a list.
pub mod View
pub mod Insert
pub mod Valid
pub mod Prune
pub mod Complete
pub mod Purge
pub mod Reads
pub mod Age
pub mod Removal
pub mod Hit
pub mod Backfill
pub mod Changes
pub mod Answer
use sync_gateway.Prelude.{
  ℕ, ◌+◌, ◌-◌, ◌<◌, ◌≤◌, Bool, true, false, not, ◌&&◌, Option, none, some, List, [], ◌∷◌, ◌++◌, ltb,
  leb, ◌==◌, if◌then◌else◌, Str, str_eq, length, take, drop,
}
use sync_gateway.Prelude.Int.{ℤ, pos, negsuc, ◌+ℤ◌}
use sync_gateway.LogEntry.{LogEntry, is_removed, is_deleted, as_removal}
use sync_gateway.LateLog.{LateLog, initialize_late_logs}

pub record Options : Type 0 where
  pub min_length : ℕ
  pub max_length : ℕ
  pub age : ℕ

-- The three counters of the cache's utilization, as far as this channel adds to them.
pub record Stats : Type 0 where
  pub removals : ℤ
  pub tombstones : ℤ
  pub actives : ℤ

pub record ChannelCache : Type 0 where
  pub channel_name : Str
  pub logs : List LogEntry
  pub valid_from : ℕ
  pub cached_doc_ids : List Str
  pub options : Options
  pub stats : Stats
  pub late : LateLog

unfoldable pub default_options : Options
default_options = record { min_length = 50; max_length = 500; age = 60000000000 }

unfoldable pub or_default : ℕ → ℕ → ℕ
or_default given default = if ltb 0 given then given else default

unfoldable pub new_channel_cache : Str → ℕ → Options → ChannelCache
unfolding or_default default_options
new_channel_cache name valid_from o = record {
  channel_name = name;
  logs = [];
  valid_from = valid_from;
  cached_doc_ids = [];
  options = record {
    min_length = or_default o.min_length default_options.min_length;
    max_length = or_default o.max_length default_options.max_length;
    age = or_default o.age default_options.age;
  };
  stats = record { removals = pos 0; tombstones = pos 0; actives = pos 0 };
  late = initialize_late_logs;
}

-- `map[string]struct{}`: membership, insertion and deletion.
unfoldable pub has_id : Str → List Str → Bool
has_id d [] = false
has_id d (i ∷ ids) = if str_eq i d then true else has_id d ids

unfoldable pub add_id : Str → List Str → List Str
add_id d ids = if has_id d ids then ids else d ∷ ids

unfoldable pub delete_id : Str → List Str → List Str
delete_id d [] = []
delete_id d (i ∷ ids) = let rest = delete_id d ids in if str_eq i d then rest else i ∷ rest

unfoldable pub update_utilization : LogEntry → ℤ → Stats → Stats
update_utilization entry delta s =
    if is_removed entry
    then record s { removals = s.removals +ℤ delta }
    else if is_deleted entry
    then record s { tombstones = s.tombstones +ℤ delta }
    else record s { actives = s.actives +ℤ delta }

-- The newest entry of a document, and the entries without it.
unfoldable pub find_doc : Str → List LogEntry → Option LogEntry
find_doc d [] = none
find_doc d (e ∷ es) = if str_eq e.doc_id d then some e else find_doc d es

unfoldable pub remove_doc : Str → List LogEntry → List LogEntry
remove_doc d [] = []
remove_doc d (e ∷ es) = if str_eq e.doc_id d then es else e ∷ remove_doc d es

-- What the walk of `insertChange` comes to: a later revision is cached, or the entries with the
-- change among them, and the older entry of the document that it replaces, if there is one.
pub data Insertion : Type 0 where
  later_cached : Insertion
  inserted : List LogEntry → Insertion
  replaced : LogEntry → List LogEntry → Insertion

unfoldable pub keep : LogEntry → Insertion → Insertion
keep e later_cached = later_cached
keep e (inserted l) = inserted (e ∷ l)
keep e (replaced o l) = replaced o (e ∷ l)

-- The rest of the walk once the place is found: the document is looked for among older entries.
unfoldable pub insert_here : Bool → LogEntry → List LogEntry → Insertion
insert_here false change logs = inserted (change ∷ logs)
insert_here true change logs = elim (find_doc change.doc_id logs) [
  | none ↦ inserted (change ∷ logs)
  | some o ↦
      if leb change.sequence o.sequence
      then later_cached
      else replaced o (change ∷ remove_doc change.doc_id logs)
]

unfoldable pub insert_walk : Bool → LogEntry → List LogEntry → Insertion
insert_walk doc_id_exists change [] = inserted (change ∷ [])
insert_walk doc_id_exists change (e ∷ es) =
    let rest = keep e (insert_walk doc_id_exists change es) in
    if ltb e.sequence change.sequence
    then insert_here doc_id_exists change (e ∷ es)
    else if doc_id_exists && str_eq e.doc_id change.doc_id
    then later_cached
    else rest

unfoldable pub after_insertion : LogEntry → ChannelCache → Insertion → ChannelCache
after_insertion change c later_cached = c
after_insertion change c (inserted l) = record c { logs = l }
after_insertion change c (replaced o l) = record c {
  logs = l;
  stats = update_utilization o (negsuc 0) c.stats;
}

-- The deferred block runs on every path.
unfoldable pub insert_change : ChannelCache → LogEntry → ChannelCache
unfolding after_insertion
insert_change c change =
    let c' =
      after_insertion change c
        (insert_walk (has_id change.doc_id c.cached_doc_ids) change c.logs) in
    record c' {
      cached_doc_ids = add_id change.doc_id c'.cached_doc_ids;
      stats = update_utilization change (pos 1) c'.stats;
    }

unfoldable pub adjust_first_seq : ChannelCache → LogEntry → ChannelCache
adjust_first_seq c change =
    if ltb change.sequence c.valid_from then record c { valid_from = change.sequence } else c

-- The end of `_appendChange`: a new entry at the end.
unfoldable pub append_new : ChannelCache → LogEntry → ChannelCache
append_new c change = record c {
  logs = change ∷ c.logs;
  cached_doc_ids = add_id change.doc_id c.cached_doc_ids;
  stats = update_utilization change (pos 1) c.stats;
}

-- The loop of `_appendChange` over the entries, for a document that is in the cache.
unfoldable pub append_known : ChannelCache → LogEntry → ChannelCache
unfolding append_new
append_known c change = elim (find_doc change.doc_id c.logs) [
  | none ↦ append_new c change
  | some o ↦ record c {
    logs = change ∷ remove_doc change.doc_id c.logs;
    stats = update_utilization change (pos 1) (update_utilization o (negsuc 0) c.stats);
  }
]

unfoldable pub append_after : ChannelCache → LogEntry → List LogEntry → ChannelCache
unfolding append_new append_known adjust_first_seq insert_change
append_after c change [] = append_new (adjust_first_seq c change) change
append_after c change (e ∷ es) =
    if leb change.sequence e.sequence
    then insert_change c change
    else if has_id change.doc_id c.cached_doc_ids
    then append_known c change
    else append_new c change

unfoldable pub append_change : ChannelCache → LogEntry → ChannelCache
unfolding append_after
append_change c change = append_after c change c.logs

-- The loop of `_pruneCacheLength` over the entries that go.
unfoldable pub forget : List LogEntry → ChannelCache → ChannelCache
forget [] c = c
forget (e ∷ es) c =
    let c' = forget es c in
    record c' {
      cached_doc_ids = delete_id e.doc_id c'.cached_doc_ids;
      stats = update_utilization e (negsuc 0) c'.stats;
    }

-- `n` entries stay, the rest goes.
unfoldable pub prune_excess : ℕ → List LogEntry → ChannelCache → ChannelCache
unfolding forget
prune_excess n [] c = c
prune_excess n (e ∷ es) c = record (forget (e ∷ es) c) {
  valid_from = e.sequence + 1;
  logs = take n c.logs;
}

unfoldable pub prune_to : ℕ → ChannelCache → ChannelCache
unfolding prune_excess
prune_to n c = prune_excess n (drop n c.logs) c

unfoldable pub prune_cache_length : ChannelCache → ChannelCache
unfolding prune_to
prune_cache_length c =
    if ltb c.options.max_length (length c.logs) then prune_to c.options.max_length c else c

unfoldable pub would_be_immediately_pruned : ChannelCache → LogEntry → Bool
would_be_immediately_pruned c change = not (leb c.valid_from change.sequence)

unfoldable pub add_to_cache : ChannelCache → LogEntry → Bool → ChannelCache
unfolding would_be_immediately_pruned append_change prune_cache_length
add_to_cache c change is_removal =
    if would_be_immediately_pruned c change
    then c
    else prune_cache_length (append_change c (if is_removal then as_removal change else change))
