-- ===== src/Tests/Channel.antt =====
-- A channel's cache of two entries, through db/channel_cache.go's operations.
use mathlib.Core.List.{reverse}
use sync_gateway.Prelude.{
  ℕ, ◌+◌, ◌<◌, ◌≤◌, ◌≡◌, refl, Bool, true, false, Option, some, List, [], ◌∷◌, arith, ltb,
  if◌then◌else◌, Str, codes, str_eq, str_eq_iff, length,
}
use sync_gateway.LogEntry.{LogEntry, as_removal}
use sync_gateway.ChannelCache.{ChannelCache, Options, new_channel_cache, add_to_cache}
use sync_gateway.ChannelCache as Channel
use sync_gateway.ChannelCache.Reads.{get_cached_changes, newer, older, valid_after, limit_to}
use sync_gateway.ChannelCache.Purge.{prune_cache_age, remove, may_prune}
use sync_gateway.ChannelCache.Backfill.{prepend_changes}
use sync_gateway.ChannelCache.View.{seq_of, has_seq, has_doc, Sorted}
use sync_gateway.ChannelCache.Valid.{IsValid}
use sync_gateway.ChannelCache.Complete.{
  latest, IsComplete, new_channel_cache-IsComplete, add_to_cache-IsComplete,
}
use sync_gateway.ChannelCache.Hit.{cache_hit_lem}
use sync_gateway.ChannelCache.Age.{prune_cache_age-IsComplete}
use sync_gateway.ChannelCache.Removal.{is_purged, remove-IsValid}
use sync_gateway.ChannelCache.Changes.{get_changes}
use sync_gateway.ChannelCache.Answer.{Answered, get_changes-Answered}
use sync_gateway.ChannelCache.Backfill.Filled.{FromQuery, prepend_changes-IsComplete}

program : Unit {0}
unfolding Channel.or_default Channel.has_id Channel.add_id Channel.delete_id
    Channel.update_utilization Channel.find_doc Channel.remove_doc Channel.keep Channel.insert_here
    Channel.insert_walk Channel.after_insertion Channel.insert_change Channel.adjust_first_seq
    Channel.append_new Channel.append_known Channel.append_after Channel.append_change
    Channel.forget Channel.prune_excess Channel.prune_to Channel.prune_cache_length
    new_channel_cache add_to_cache Channel.would_be_immediately_pruned Channel.default_options
    as_removal newer older valid_after limit_to get_cached_changes seq_of has_seq has_doc latest
    str_eq
program = tt

abbrev change : ℕ → Str → LogEntry
change sequence doc_id = record {
  sequence = sequence;
  doc_id = doc_id;
  rev_id = codes "1-abc";
  flags = 0;
  time_received = sequence;
  channels = [];
  skipped = false;
}

abbrev options : Options
options = record { min_length = 1; max_length = 2; age = 10 }

abbrev old : LogEntry
old = change 3 (codes "b")

abbrev history : List LogEntry
history = change 9 (codes "b") ∷ change 7 (codes "a") ∷ old ∷ []

abbrev empty : ChannelCache
empty = new_channel_cache (codes "news") 5 options

abbrev one : ChannelCache
one = add_to_cache empty (change 7 (codes "a")) false

abbrev two : ChannelCache
two = add_to_cache one (change 9 (codes "b")) false

empty_cache-IsComplete :
    IsValid (new_channel_cache (codes "news") 5 options)
    × IsComplete (new_channel_cache (codes "news") 5 options) (old ∷ [])
unfolding latest
empty_cache-IsComplete =
    new_channel_cache-IsComplete (codes "news") 5 options (old ∷ []) (omega arith)
      (λ d. ground arith)

one-IsComplete : IsValid one × IsComplete one (change 7 (codes "a") ∷ old ∷ [])
unfolding program
one-IsComplete =
    let i = empty_cache-IsComplete in
    add_to_cache-IsComplete empty (change 7 (codes "a")) false (old ∷ []) i.0 i.1 refl

two-IsComplete : IsValid two × IsComplete two history
unfolding program
two-IsComplete =
    let i = one-IsComplete in
    add_to_cache-IsComplete one (change 9 (codes "b")) false (change 7 (codes "a") ∷ old ∷ []) i.0
      i.1 refl

-- A change that arrives late replaces an entry of its document.
add_to_cache-IsComplete_example :
    IsValid (add_to_cache two (change 8 (codes "a")) true)
    × IsComplete (add_to_cache two (change 8 (codes "a")) true) (change 8 (codes "a") ∷ history)
unfolding program
add_to_cache-IsComplete_example =
    add_to_cache-IsComplete two (change 8 (codes "a")) true history two-IsComplete.0
      two-IsComplete.1 refl

late_change :
    (add_to_cache two (change 8 (codes "a")) true).logs
    ≡ change 9 (codes "b") ∷ as_removal (change 8 (codes "a")) ∷ []
unfolding program
late_change = refl

cache_hit_lem_example :
    Sorted (reverse (get_cached_changes 6 0 two).1)
    × ((d : Str)
        → seq_of d (reverse (get_cached_changes 6 0 two).1)
          ≡ (if ltb 6 (latest d history) then latest d history else 0))
unfolding program
cache_hit_lem_example = cache_hit_lem 6 two history two-IsComplete.0 two-IsComplete.1 (omega arith)

prune_cache_age-IsComplete_example :
    let r = prune_cache_age 20 two in
    IsValid r
    × IsComplete r history
    × (two.options.min_length ≤ length two.logs → two.options.min_length ≤ length r.logs)
    × (two.options.min_length < two.options.max_length → may_prune 20 r ≡ false)
prune_cache_age-IsComplete_example =
    prune_cache_age-IsComplete 20 two history two-IsComplete.0 two-IsComplete.1

remove-IsValid_example :
    let r = remove (codes "a" ∷ []) 8 two in
    IsValid r.0
    × ((d : Str)
        → seq_of d r.0.logs
          ≡ (if is_purged (codes "a" ∷ []) 8 d two.logs then 0 else seq_of d two.logs))
    × (r.1 + length r.0.logs ≡ length two.logs)
remove-IsValid_example = remove-IsValid (codes "a" ∷ []) 8 two two-IsComplete.0

-- What a query from 2 to 9 finds when the cache holds one entry.
found : FromQuery 2 9 (change 7 (codes "a") ∷ old ∷ []) (change 7 (codes "a") ∷ old ∷ [])
unfolding program
found = record {
  positive = omega arith;
  sorted = (omega arith, tt);
  distinct = (refl, (refl, tt));
  at_least = (omega arith, (omega arith, tt));
  exact = λ d. ground (arith, str_eq_iff (codes "a") d, str_eq_iff (codes "b") d);
}

prepend_changes-IsComplete_example :
    let r = (prepend_changes (change 7 (codes "a") ∷ old ∷ []) 2 9 one).0 in
    IsValid r × IsComplete r (change 7 (codes "a") ∷ old ∷ []) × (r.valid_from ≤ one.valid_from)
unfolding program
prepend_changes-IsComplete_example =
    prepend_changes-IsComplete one (change 7 (codes "a") ∷ old ∷ [])
      (change 7 (codes "a") ∷ old ∷ []) 2 9 one-IsComplete.0 one-IsComplete.1 (omega arith) found

-- The query from 2 to 5, the cache's `validFrom`.
abbrev query : ℕ → ℕ → ℕ → Bool → Option (List LogEntry)
query start_seq end_seq limit active_only = some (old ∷ [])

queried : FromQuery 2 5 (change 7 (codes "a") ∷ old ∷ []) (old ∷ [])
unfolding program
queried = record {
  positive = omega arith;
  sorted = tt;
  distinct = (refl, tt);
  at_least = (omega arith, tt);
  exact = λ d. ground (arith, str_eq_iff (codes "a") d, str_eq_iff (codes "b") d);
}

get_changes-Answered_example :
    Answered 1
      (change 7 (codes "a") ∷ old ∷ [])
      (get_changes query false (record { since = 1; limit = 0; active_only = false }) one one one)
unfolding program
get_changes-Answered_example =
    get_changes-Answered query 1 false one one (change 7 (codes "a") ∷ old ∷ []) (old ∷ [])
      one-IsComplete.0 one-IsComplete.1 one-IsComplete.0 one-IsComplete.1 (omega arith) refl queried
