-- ===== src/Tests/Feeds.antt =====
-- Two feeds that share a sequence, merged.
use sync_gateway.Prelude.{ℕ, ◌≡◌, refl, false, Option, none, some, List, [], ◌∷◌, arith, Str, codes}
use sync_gateway.LogEntry.{LogEntry}
use sync_gateway.SequenceId.{int_before, safe_sequence}
use sync_gateway.ChangesFeed.{ChangeEntry, Iteration, Outcome, merge_feeds}
use sync_gateway.ChangesFeed.Heads.{plain, AllRise}
use sync_gateway.ChangesFeed.Merge.{SentRises, merge_feeds-SentRises}
use sync_gateway.ChangesFeed.Complete.{AllSent, AllWithin, merge_feeds-AllSent}

abbrev entry : ℕ → LogEntry
entry sequence = record {
  sequence = sequence;
  doc_id = codes "a";
  rev_id = codes "1-abc";
  flags = 0;
  time_received = 0;
  channels = [];
  skipped = false;
}

abbrev change : ℕ → Option (List Str) → ChangeEntry
change sequence removed = record {
  seq = plain 0 sequence;
  id = codes "a";
  deleted = false;
  removed = removed;
  changes = codes "1-abc" ∷ [];
  all_removed = false;
}

abbrev two_feeds : List (List ChangeEntry)
two_feeds =
    (change 3 none ∷ change 7 (some (codes "ABC" ∷ [])) ∷ [])
    ∷ (change 5 none ∷ change 7 none ∷ [])
    ∷ []

two_feeds-AllRise : AllRise two_feeds
unfolding int_before safe_sequence
two_feeds-AllRise = (
  ((refl, refl), (refl, tt), ((refl, refl), tt, tt)),
  (((refl, refl), (refl, tt), ((refl, refl), tt, tt)), tt),
)

abbrev iteration : Iteration
iteration = record { active_only = false; current_cached_sequence = 9; low_sequence = 2 }

merge_feeds-SentRises_example :
    (o : Outcome) × (merge_feeds iteration (plain 0 0) 0 two_feeds ≡ some o) × SentRises o.sent
merge_feeds-SentRises_example =
    merge_feeds-SentRises iteration (plain 0 0) 0 two_feeds two_feeds-AllRise

two_feeds-AllWithin : AllWithin 9 two_feeds
unfolding int_before safe_sequence
two_feeds-AllWithin = (
  (refl, omega arith, (refl, omega arith, tt)),
  ((refl, omega arith, (refl, omega arith, tt)), tt),
)

merge_feeds-AllSent_example :
    (o : Outcome) × (merge_feeds iteration (plain 0 0) 0 two_feeds ≡ some o)
    × AllSent o.sent two_feeds
merge_feeds-AllSent_example =
    merge_feeds-AllSent iteration (plain 0 0) two_feeds refl two_feeds-AllRise two_feeds-AllWithin
