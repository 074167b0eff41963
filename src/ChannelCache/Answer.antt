-- ===== src/ChannelCache/Answer.antt =====
-- What `GetChanges` of db/channel_cache.go answers.
pub mod Join
use mathlib.Core.List.{reverse, reverse-reverse, reverse-append, append-nil}
use sync_gateway.Prelude.{
  ℕ, suc, ◌+◌, ◌<◌, ◌≤◌, ◌≡◌, refl, sym, ◌∙◌, ap, Bool, true, false, Option, some, List, [], ◌∷◌,
  ◌++◌, arith, ltb, leb, if◌then◌else◌, length, Bool-cases, inl, inr, leb→le, leb-false, ◌⊎◌,
}
use sync_gateway.LogEntry.{LogEntry}
use sync_gateway.ChannelCache.{ChannelCache}
use sync_gateway.ChannelCache.Reads.{newer, older, valid_after, limit_to, get_cached_changes}
use sync_gateway.ChannelCache.Backfill.{prepend_changes}
use sync_gateway.ChannelCache.Changes.{
  ChangesOptions, read_cache, drop_overlap, concatenate, result_valid_to, after_query, after_reads,
  get_changes,
}
use sync_gateway.ChannelCache.Valid.{IsOrdered, IsValid}
use sync_gateway.ChannelCache.Complete.{latest, IsComplete}
use sync_gateway.ChannelCache.Hit.{cache_hit_lem}
use sync_gateway.ChannelCache.Backfill.Filled.{FromQuery, prepend_changes-IsComplete}
use Join.{Answers, joined}

older-cases : (v s : ℕ) (l : List LogEntry) → (valid_after v (older s l) ≤ s + 1) ⊎ (older s l ≡ [])
unfolding older valid_after
older-cases v s [] = inr refl
older-cases v s (e ∷ es) = elim (Bool-cases (ltb s e.sequence)) [
  | inl new ↦ rw new (older-cases v s es)
  | inr old ↦ rw old (inl (ground arith))
]

newer_all : (s : ℕ) (l : List LogEntry) → older s l ≡ [] → newer s l ≡ l
unfolding older newer
newer_all s [] h = refl
newer_all s (e ∷ es) h = ground (arith, newer_all s es)

-- A read that misses gives all that is cached, valid from the cache's `validFrom`.
miss_lem :
    (since : ℕ) (c : ChannelCache)
    → leb (get_cached_changes since 0 c).0 (since + 1) ≡ false
    → get_cached_changes since 0 c ≡ (c.valid_from, reverse c.logs)
unfolding get_cached_changes valid_after limit_to
miss_lem since c m = elim (older-cases c.valid_from since c.logs) [
  | inl hit ↦ absurd (ground arith)
  | inr none ↦ rw (none, newer_all since c.logs none) refl
]

abbrev unlimited : ℕ → Bool → ChangesOptions
unlimited since a = record { since = since; limit = 0; active_only = a }

drop_overlap-nil : (f : List LogEntry) → drop_overlap f [] ≡ []
unfolding drop_overlap
drop_overlap-nil [] = refl
drop_overlap-nil (e ∷ es) = refl

concatenate_unlimited :
    (found cached : List LogEntry)
    → concatenate 0 found cached ≡ found ++ drop_overlap (reverse found) cached
unfolding concatenate
concatenate_unlimited found [] = rw (drop_overlap-nil) (sym (append-nil found))
concatenate_unlimited found (x ∷ xs) =
    let some_cached : ltb 0 (length (x ∷ xs)) ≡ true = ground arith in rw some_cached refl

-- A result and the cache that is left.
pub record Answered (since : ℕ) (h : List LogEntry) (r : Option (List LogEntry) × ChannelCache)
    : Type 0 where
  pub result : List LogEntry
  pub given : r.0 ≡ some result
  pub answers : Answers since h (reverse result)
  pub valid : IsValid r.1
  pub complete : IsComplete r.1 h

module _ (since : ℕ) (a : Bool) (c : ChannelCache) (h : List LogEntry) (v : IsValid c)
    (k : IsComplete c h) where
  hit-Answered :
      (d : ChannelCache)
      → IsValid d
      → IsComplete d h
      → leb (get_cached_changes since 0 d).0 (since + 1) ≡ true
      → Answered since h (some (get_cached_changes since 0 d).1, c)
  hit-Answered d w m hit =
      let (s, e) = cache_hit_lem since d h w m (leb→le _ _ hit) in
      record {
        result = (get_cached_changes since 0 d).1;
        given = refl;
        answers = record { sorted = s; exact = e };
        valid = v;
        complete = k;
      }

  query-Answered :
      (found : List LogEntry)
      → since + 1 < c.valid_from
      → 0 < c.options.max_length
      → FromQuery (since + 1) c.valid_from h (reverse found)
      → Answered since h (after_query (unlimited since a) c.valid_from (reverse c.logs) found c)
  unfolding after_query result_valid_to
  query-Answered found lt m q =
      let back = reverse-reverse c.logs in
      let j =
        joined since c.valid_from h (reverse found) lt q.sorted q.exact (reverse found)
          (reverse c.logs) refl (rw back v.ordered.at_least) (rw back v.ordered.sorted)
          (λ d. rw back (k d)) in
      let p = prepend_changes-IsComplete c h (reverse found) (since + 1) c.valid_from v k m q in
      record {
        result = concatenate 0 found (reverse c.logs);
        given = refl;
        answers = rw (concatenate_unlimited found (reverse c.logs), reverse-append found) j;
        valid = elim (Bool-cases (ltb (length (reverse c.logs)) c.options.max_length)) [
          | inl room ↦ rw room p.0
          | inr full ↦ rw full v
        ];
        complete = elim (Bool-cases (ltb (length (reverse c.logs)) c.options.max_length)) [
          | inl room ↦ rw room p.1
          | inr full ↦ rw full k
        ];
      }

get_changes-unlimited :
    (query : ℕ → ℕ → ℕ → Bool → Option (List LogEntry)) (since : ℕ) (a : Bool)
    (first c : ChannelCache)
    → get_changes query false (unlimited since a) first c c
      ≡ after_reads query false
          (unlimited since a)
          (get_cached_changes since 0 first)
          (get_cached_changes since 0 c)
          c
unfolding get_changes read_cache
get_changes-unlimited query since true first c = refl
get_changes-unlimited query since false first c = refl

-- `GetChanges` without a limit, while the channel's history does not change: from caches that are
-- valid and complete for the history, at its first read and from its second read on, with room for
-- an entry, and with a query that answers for the range it is asked for and has the shape of a query's
-- results, it returns, in rising sequence, exactly the documents that changed after `since`, each at
-- its latest change; and it leaves the cache valid and complete.
pub get_changes-Answered :
    (query : ℕ → ℕ → ℕ → Bool → Option (List LogEntry)) (since : ℕ) (active_only : Bool)
    (first c : ChannelCache) (h found : List LogEntry)
    → IsValid first
    → IsComplete first h
    → IsValid c
    → IsComplete c h
    → 0 < c.options.max_length
    → query (since + 1) c.valid_from 0 active_only ≡ some found
    → FromQuery (since + 1) c.valid_from h (reverse found)
    → Answered since h (get_changes query false (unlimited since active_only) first c c)
get_changes-Answered query since a first c h found w n v k m e q =
    let reads = get_changes-unlimited query since a first c in
    elim (Bool-cases (leb (get_cached_changes since 0 first).0 (since + 1))) [
      | inl hit ↦
          rw (reads) (unfold after_reads in rw hit (hit-Answered since a c h v k first w n hit))
      | inr miss ↦ elim (Bool-cases (leb (get_cached_changes since 0 c).0 (since + 1))) [
        | inl hit ↦
            rw (reads)
              (unfold after_reads in rw (miss, hit) (hit-Answered since a c h v k c v k hit))
        | inr again ↦
            let l = miss_lem since c again in
            rw (reads, l) (queried (get_cached_changes since 0 first) miss (rw l at again))
      ]
    ]
  where
    queried :
        (r : ℕ × List LogEntry)
        → leb r.0 (since + 1) ≡ false
        → leb c.valid_from (since + 1) ≡ false
        → Answered since h
            (after_reads query false (unlimited since a) r (c.valid_from, reverse c.logs) c)
    queried r miss from =
        unfold after_reads in
        rw (miss, from, e) (query-Answered since a c h v k found (leb-false _ _ from) m q)
