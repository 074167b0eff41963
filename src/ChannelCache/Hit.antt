-- ===== src/ChannelCache/Hit.antt =====
-- What a read of db/channel_cache.go's cache answers.
use mathlib.Core.List.{reverse, reverse-reverse}
use sync_gateway.Prelude.{
  ℕ, suc, ◌+◌, ◌≤◌, ◌≡◌, refl, ◌∙◌, List, [], ◌∷◌, ◌++◌, arith, ltb, if◌then◌else◌, Str,
}
use sync_gateway.LogEntry.{LogEntry}
use sync_gateway.ChannelCache.{ChannelCache}
use sync_gateway.ChannelCache.Reads.{newer, older, valid_after, get_cached_changes}
use sync_gateway.ChannelCache.View.{
  seq_of, Below, Sorted, AtLeast, Below-Sorted, Sorted-mono, seq_of-lt,
}
use sync_gateway.ChannelCache.Valid.{IsValid}
use sync_gateway.ChannelCache.Prune.{visible}
use sync_gateway.ChannelCache.Complete.{latest, IsComplete}

newer-append-older : (s : ℕ) (l : List LogEntry) → newer s l ++ older s l ≡ l
unfolding newer older
newer-append-older s [] = refl
newer-append-older s (e ∷ es) = ground (arith, newer-append-older s es)

seq_of-newer :
    (d : Str) (s : ℕ) (l : List LogEntry)
    → Sorted l
    → seq_of d (newer s l) ≡ (if ltb s (seq_of d l) then seq_of d l else 0)
unfolding newer seq_of
seq_of-newer d s [] o = ground arith
seq_of-newer d s (e ∷ es) o = ground (
  arith,
  seq_of-newer d s es (Below-Sorted e.sequence es o),
  seq_of-lt (suc e.sequence) d (e ∷ es) (omega arith) (omega arith, o),
)

-- The entry below the ones returned, if there is one, has passed to the reader; else the cache is
-- asked from `validFrom`.
valid_after-older :
    (v s : ℕ) (l : List LogEntry)
    → AtLeast v l
    → Sorted l
    → valid_after v (older s l) ≤ s + 1
    → v ≤ s + 1
unfolding older valid_after
valid_after-older v s [] a o h = h
valid_after-older v s (e ∷ es) a o h =
    ground (arith, valid_after-older v s es a.1 (Below-Sorted e.sequence es o))

newer-Below : (n s : ℕ) (l : List LogEntry) → Below n l → Below n (newer s l)
unfolding newer
newer-Below n s [] b = tt
newer-Below n s (e ∷ es) b = ground (arith, newer-Below e.sequence s es b.1)

-- A read without a limit that a valid cache, complete for a history, answers alone (its result is
-- valid from no later than the sequence after `since`) gives, in rising sequence, exactly the documents of the channel
-- that changed after `since`, each at its most recent change.
pub cache_hit_lem :
    (since : ℕ) (c : ChannelCache) (h : List LogEntry)
    → IsValid c
    → IsComplete c h
    → (get_cached_changes since 0 c).0 ≤ since + 1
    → Sorted (reverse (get_cached_changes since 0 c).1)
      × ((d : Str)
          → seq_of d (reverse (get_cached_changes since 0 c).1)
            ≡ (if ltb since (latest d h) then latest d h else 0))
unfolding get_cached_changes
cache_hit_lem since c h v k hit = rw (reverse-reverse (newer since c.logs)) (
  Sorted-mono c.logs (newer since c.logs) (λ n. newer-Below n since c.logs) v.ordered.sorted,
  λ d. seq_of-newer d since c.logs v.ordered.sorted ∙ rw (k d) (shown d),
)
  where
    reaches : c.valid_from ≤ since + 1
    reaches = valid_after-older c.valid_from since c.logs v.ordered.at_least v.ordered.sorted hit

    shown :
        (d : Str)
        → (if ltb since (visible c.valid_from (latest d h))
            then visible c.valid_from (latest d h)
            else 0)
          ≡ (if ltb since (latest d h) then latest d h else 0)
    shown d = ground (arith, reaches)
