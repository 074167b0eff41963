-- ===== src/ChannelCache/Complete.antt =====
-- The guarantees that the comment above `channelCache` in db/channel_cache.go states: one entry to a
-- document, its most recent revision, and every change from `validFrom` on.
use sync_gateway.Prelude.{
  ℕ, ◌<◌, ◌≤◌, ◌≡◌, refl, ◌∙◌, Bool, true, false, List, [], ◌∷◌, arith, leb, if◌then◌else◌, Str,
  str_eq, Bool-cases, leb→le, inl, inr,
}
use sync_gateway.LogEntry.{LogEntry, as_removal}
use sync_gateway.ChannelCache.{
  ChannelCache, Options, has_id, new_channel_cache, append_change, prune_cache_length, add_to_cache,
  would_be_immediately_pruned,
}
use sync_gateway.ChannelCache.View.{seq_of, has_doc, has_seq, larger}
use sync_gateway.ChannelCache.Valid.{IsValid, append_change-Appends, append_change-IsOrdered}
use sync_gateway.ChannelCache.Prune.{visible, prune_cache_length-IsValid, seq_of-prune_cache_length}

-- The sequence of a document's most recent change in a history of the channel.
unfoldable pub latest : Str → List LogEntry → ℕ
latest d [] = 0
latest d (e ∷ h) = if str_eq e.doc_id d then larger (latest d h) e.sequence else latest d h

-- Of each document the cache shows its most recent change if that is not older than `validFrom`,
-- and nothing otherwise.
abbrev pub IsComplete : ChannelCache → List LogEntry → Type 0
IsComplete c h = (d : Str) → seq_of d c.logs ≡ visible c.valid_from (latest d h)

new-IsComplete :
    (name : Str) (v : ℕ) (o : Options) (d : Str) (h : List LogEntry)
    → ((k : Str) → latest k h < v)
    → seq_of d (new_channel_cache name v o).logs
      ≡ visible (new_channel_cache name v o).valid_from (latest d h)
unfolding new_channel_cache seq_of
new-IsComplete name v o d h old = ground (arith, old d)

-- A new cache is valid, and complete for any history older than its `validFrom`.
pub new_channel_cache-IsComplete :
    (name : Str) (v : ℕ) (o : Options) (h : List LogEntry)
    → 0 < v
    → ((d : Str) → latest d h < v)
    → IsValid (new_channel_cache name v o) × IsComplete (new_channel_cache name v o) h
unfolding new_channel_cache has_doc has_id
new_channel_cache-IsComplete name v o h p old = (
  record {
    ordered = record { positive = p; sorted = tt; distinct = tt; ids = λ d. refl; at_least = tt };
    bounded = omega arith;
  },
  λ d. new-IsComplete name v o d h old,
)

module _ (c : ChannelCache) (change : LogEntry) where
  visible-ignored :
      (d : Str) (h : List LogEntry)
      → change.sequence < c.valid_from
      → visible c.valid_from (latest d h) ≡ visible c.valid_from (latest d (change ∷ h))
  unfolding latest
  visible-ignored d h lt = ground arith

  visible-added :
      (d : Str) (h : List LogEntry) (w : ℕ)
      → 0 < c.valid_from
      → c.valid_from ≤ change.sequence
      → c.valid_from ≤ w
      → visible w (
          if str_eq change.doc_id d
          then larger (visible c.valid_from (latest d h)) change.sequence
          else visible c.valid_from (latest d h))
        ≡ visible w (latest d (change ∷ h))
  unfolding latest
  visible-added d h w p le lw = ground arith

  added-IsComplete :
      (h : List LogEntry)
      → IsValid c
      → IsComplete c h
      → has_seq change.sequence c.logs ≡ false
      → c.valid_from ≤ change.sequence
      → IsValid (prune_cache_length (append_change c change))
        × IsComplete (prune_cache_length (append_change c change)) (change ∷ h)
  added-IsComplete h v k f le =
      let p : 0 < change.sequence = omega (arith, v.ordered.positive) in
      let a = append_change-Appends c change v.ordered p f le in
      let o = append_change-IsOrdered c change v.ordered p f le in
      (
        prune_cache_length-IsValid (append_change c change) o,
        λ d.
            let (s, w) = seq_of-prune_cache_length (append_change c change) d o in
            s
            ∙ rw (a.inserts.shows d, k d)
                (visible-added d h _ v.ordered.positive le (omega (arith, w, a.valid_from))),
      )

-- Adding a change whose sequence is not cached keeps the cache valid (entries in strictly rising
-- sequence, one to a document, at most `ChannelCacheMaxLength`, the id set exact) and complete for
-- the history with the change, whether it is appended, inserted, ignored or refused as too old.
pub add_to_cache-IsComplete :
    (c : ChannelCache) (change : LogEntry) (is_removal : Bool) (h : List LogEntry)
    → IsValid c
    → IsComplete c h
    → has_seq change.sequence c.logs ≡ false
    → IsValid (add_to_cache c change is_removal)
      × IsComplete (add_to_cache c change is_removal) (change ∷ h)
unfolding add_to_cache would_be_immediately_pruned as_removal latest
add_to_cache-IsComplete c change is_removal h v k f =
    elim (Bool-cases (leb c.valid_from change.sequence)) [
      | inr old ↦ rw old (v, λ d. k d ∙ visible-ignored c change d h (ground arith))
      | inl new ↦ rw new (added is_removal (leb→le _ _ new))
    ]
  where
    added :
        (b : Bool)
        → c.valid_from ≤ change.sequence
        → IsValid (prune_cache_length (append_change c (if b then as_removal change else change)))
          × IsComplete
              (prune_cache_length (append_change c (if b then as_removal change else change)))
              (change ∷ h)
    added true = added-IsComplete c (as_removal change) h v k f
    added false = added-IsComplete c change h v k f
