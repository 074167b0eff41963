-- ===== src/Tests/Caches.antt =====
-- A cache of two entries, feeds on a late log, and sets of channels.
use sync_gateway.Prelude.{
  ℕ, ◌≡◌, ◌<◌, refl, true, Option, none, some, List, [], ◌∷◌, arith, Str, codes, str_eq, str_eq_iff,
  zero, suc,
}
use sync_gateway.Lru.{
  LruCache, lookup, push_front, purge_over, delete_key, remove_element, put as lru_put,
}
use sync_gateway.Lru.Refines.{IsValid, recent_put, contents, put-recent_put}
use sync_gateway.LateLog.{
  LateLog, LateLogEntry, initialize_late_logs, init_late_sequence_client, add_late_sequence,
  get_late_sequences_since, last_sequence, update_last, add_listener,
}
use sync_gateway.Prelude.Int.{pos}
use sync_gateway.LateLog.Counts.{count, has_entry}
use sync_gateway.LateLog.Listeners.{Feeds, Reach, here, next, start, IsCounted}
use sync_gateway.LateLog.Reached.{Reach-IsCounted, add_late_sequence-get_late_sequences_since}
use sync_gateway.TimedSet.{TimedSet}
use sync_gateway.RevisionCache.{
  RevisionCache, DocumentRevision, Loaded, Body, new_revision_cache_shard, no_revision, same_id,
  body_shallow_copy, get_from_cache, get_cached, put, nothing_loaded, get_key, get_value,
  load_value, load, is_loaded, as_document_revision, copy_body, record_stats, remove_value,
  set_value, new_value,
}
use sync_gateway.RevisionCache.Valid.{IsSound}
use sync_gateway.RevisionCache.Calls.{stored, perform, IsFine, perform-IsSound}
use sync_gateway.RevisionCache.Answers.{as_stored, read_anew, put-get_cached, get_from_cache-failed}
use sync_gateway.RevisionCache.Sharded.{ShardedRevisionCache, IsSharded, shard_at}

abbrev lru : LruCache Str ℕ
lru = record {
  cache =
      record { id = 1; key = codes "b"; value = 20 }
      ∷ record { id = 0; key = codes "a"; value = 10 }
      ∷ [];
  lru_list =
      record { id = 1; key = codes "b"; value = 20 }
      ∷ record { id = 0; key = codes "a"; value = 10 }
      ∷ [];
  capacity = 2;
  next_id = 2;
}

lru-IsValid : IsValid str_eq lru
unfolding lookup str_eq
lru-IsValid = record {
  linked = record {
    cache_keys = (refl, (refl, tt));
    list_keys = (refl, (refl, tt));
    ids = ((refl, tt), (tt, tt));
    below = (omega arith, (omega arith, tt));
    entries = λ k. refl;
    count = refl;
  };
  bounded = omega arith;
}

put-recent_put_example :
    (d : LruCache Str ℕ) × (lru_put str_eq (codes "c") 30 lru ≡ some d)
    × IsValid str_eq d
    × (contents d.lru_list ≡ recent_put 2 str_eq (codes "c") 30 (contents lru.lru_list))
put-recent_put_example = put-recent_put str_eq str_eq_iff (codes "c") 30 lru lru-IsValid

-- One feed that has started on a new log.
abbrev one_feed : Feeds
one_feed = record {
  log = record {
    entries = record { sequence = 0; listener_count = 1 } ∷ [];
    last_late_sequence = 0;
  };
  seen = 0 ∷ [];
}

one_feed-Reach : Reach one_feed
unfolding initialize_late_logs init_late_sequence_client last_sequence update_last add_listener
one_feed-Reach =
    next here
      (start (record { log = initialize_late_logs; seen = [] }) 0 one_feed.log refl (omega arith))

Reach-IsCounted_example : IsCounted one_feed
Reach-IsCounted_example = Reach-IsCounted one_feed-Reach

add_late_sequence-get_late_sequences_since_example :
    (es : List LateLogEntry) × (l : LateLog) × (get_late_sequences_since 0
        (add_late_sequence 7 one_feed.log)
      ≡ some (es, 7, l))
    × (has_entry 7 es ≡ true)
unfolding count has_entry
add_late_sequence-get_late_sequences_since_example =
    add_late_sequence-get_late_sequences_since 0 7 one_feed-Reach (omega arith) refl

abbrev channel_set : TimedSet
channel_set = (codes "ABC", record { vb_no = none; sequence = 5 }) ∷ []

-- A shard of two revisions whose loader finds nothing.
abbrev shard : RevisionCache
shard = new_revision_cache_shard 2 (
    some (λ key. record {
      body = none;
      history = none;
      channels = [];
      attachments = none;
      expiry = none;
      err = some (codes "404");
    }))

shard-IsSound : IsSound shard
unfolding new_revision_cache_shard
shard-IsSound = record {
  valid = record {
    linked = record {
      cache_keys = tt;
      list_keys = tt;
      ids = tt;
      below = tt;
      entries = λ k. refl;
      count = refl;
    };
    bounded = omega arith;
  };
  keys = tt;
  capacity = omega arith;
}

abbrev doc_rev : DocumentRevision
doc_rev = record {
  rev_id = codes "1-a";
  body = some [];
  history = some (record { start = pos 1; ids = codes "a" ∷ [] });
  channels = codes "ABC" ∷ [];
  expiry = none;
  attachments = none;
  delta = none;
}

doc_rev-IsFine : IsFine (stored (codes "d") doc_rev)
unfolding str_eq
doc_rev-IsFine = (refl, (λ q. cc), (λ q. cc))

abbrev same_body : Option Body → Option Body
same_body b = b

perform-IsSound_example :
    (rc : RevisionCache) × (perform same_body (stored (codes "d") doc_rev) shard ≡ some rc)
    × IsSound rc
perform-IsSound_example =
    perform-IsSound same_body (stored (codes "d") doc_rev) shard doc_rev-IsFine shard-IsSound

put-get_cached_example :
    (rc' : RevisionCache) × (rc'' : RevisionCache) × (put (codes "d") doc_rev shard ≡ some rc')
    × (get_cached same_body (codes "d") (codes "1-a") rc'
        ≡ some ((as_stored (codes "d") doc_rev [], none), rc''))
unfolding str_eq lookup new_revision_cache_shard
put-get_cached_example =
    put-get_cached same_body (codes "d") doc_rev [] (record { start = pos 1; ids = codes "a" ∷ [] })
      shard shard-IsSound refl refl refl refl

abbrev failing : Loaded
failing = record {
  body = none;
  history = none;
  channels = [];
  attachments = none;
  expiry = none;
  err = some (codes "404");
}

abbrev after_failure : RevisionCache
after_failure = record {
  lru = record { cache = []; lru_list = []; capacity = 2; next_id = 1 };
  values =
      set_value 0 (record { key = (codes "d", codes "1-a"); content = failing; delta = none })
        (set_value 0 (new_value (codes "d", codes "1-a")) shard.values);
  loader_func = shard.loader_func;
  cache_hits = 0;
  cache_misses = 1;
}

get_from_cache-failed_example :
    (lookup same_id (codes "d", codes "1-a") after_failure.lru.cache ≡ none)
    × (get_cached same_body (codes "d") (codes "1-a") after_failure
        ≡ some ((no_revision, none), after_failure))
    × (rc'' : RevisionCache) × (get_from_cache same_body
          (codes "d")
          (codes "1-a")
          body_shallow_copy
          true
          after_failure
        ≡ some (
          read_anew same_body shard.loader_func body_shallow_copy (codes "d", codes "1-a"),
          rc'',
        ))
unfolding no_revision get_from_cache get_value get_key load_value load is_loaded
    as_document_revision copy_body record_stats remove_value set_value new_value nothing_loaded
    new_revision_cache_shard lookup str_eq push_front purge_over same_id delete_key remove_element
get_from_cache-failed_example =
    get_from_cache-failed same_body (codes "d") (codes "1-a") body_shallow_copy body_shallow_copy
      true (record no_revision { rev_id = codes "1-a" }) (codes "404") shard after_failure
      shard-IsSound refl refl

-- Each document in the shard 0.
abbrev to_first : Str → ℕ → ℕ
to_first docid n = 0

abbrev one_shard : ShardedRevisionCache
one_shard = record { caches = shard ∷ []; num_shards = 1 }

one_shard-IsSharded : IsSharded one_shard
unfolding shard_at
one_shard-IsSharded = record { shards = λ i b. (shard, only i b, shard-IsSound) }
  where
    only : (i : ℕ) → i < 1 → shard_at i (shard ∷ []) ≡ some shard
    only zero b = refl
    only (suc i) b = absurd (omega arith)
