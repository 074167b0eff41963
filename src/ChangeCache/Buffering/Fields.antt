-- ===== src/ChangeCache/Buffering/Fields.antt =====
-- What handing an entry to the channel caches leaves alone.
use sync_gateway.Prelude.{
  ◌+◌, ◌≡◌, refl, ◌∙◌, Bool, true, false, List, [], ◌∷◌, leb, if◌then◌else◌, Str, str_eq,
  Bool-cases, inl, inr,
}
use sync_gateway.LogEntry.{LogEntry, ChannelMap}
use sync_gateway.ChangeCache.{
  ChangeCache, add_to_channel, add_to_channels, add_to_star, add_entry, is_removal, is_affected,
  star,
}
use sync_gateway.ChannelCache.{add_id}

-- The buffering state of two caches is the same.
pub record SameBuffer (c r : ChangeCache) : Type 0 where
  pub next_sequence : r.next_sequence ≡ c.next_sequence
  pub initial_sequence : r.initial_sequence ≡ c.initial_sequence
  pub received_seqs : r.received_seqs ≡ c.received_seqs
  pub pending_logs : r.pending_logs ≡ c.pending_logs
  pub skipped_seqs : r.skipped_seqs ≡ c.skipped_seqs
  pub options : r.options ≡ c.options
  pub logs_disabled : r.logs_disabled ≡ c.logs_disabled

SameBuffer-refl : (c : ChangeCache) → SameBuffer c c
SameBuffer-refl c = record {
  next_sequence = refl;
  initial_sequence = refl;
  received_seqs = refl;
  pending_logs = refl;
  skipped_seqs = refl;
  options = refl;
  logs_disabled = refl;
}

SameBuffer-trans : (c d e : ChangeCache) → SameBuffer c d → SameBuffer d e → SameBuffer c e
SameBuffer-trans c d e p q = record {
  next_sequence = q.next_sequence ∙ p.next_sequence;
  initial_sequence = q.initial_sequence ∙ p.initial_sequence;
  received_seqs = q.received_seqs ∙ p.received_seqs;
  pending_logs = q.pending_logs ∙ p.pending_logs;
  skipped_seqs = q.skipped_seqs ∙ p.skipped_seqs;
  options = q.options ∙ p.options;
  logs_disabled = q.logs_disabled ∙ p.logs_disabled;
}

add_to_channel-SameBuffer :
    (change : LogEntry) (name : Str) (b : Bool) (c : ChangeCache)
    → SameBuffer c (add_to_channel change name b c)
unfolding add_to_channel
add_to_channel-SameBuffer change name b c = record {
  next_sequence = refl;
  initial_sequence = refl;
  received_seqs = refl;
  pending_logs = refl;
  skipped_seqs = refl;
  options = refl;
  logs_disabled = refl;
}

add_to_channels-SameBuffer :
    (change : LogEntry) (m : ChannelMap) (c : ChangeCache)
    → SameBuffer c (add_to_channels change m c).0
unfolding add_to_channels
add_to_channels-SameBuffer change [] c = SameBuffer-refl c
add_to_channels-SameBuffer change ((name, removal) ∷ m) c =
    SameBuffer-trans c _ _ (one (is_affected change.sequence removal)) (
      add_to_channels-SameBuffer change m (
        if is_affected change.sequence removal
        then add_to_channel change name (is_removal removal) c
        else c))
  where
    one :
        (b : Bool)
        → SameBuffer c (if b then add_to_channel change name (is_removal removal) c else c)
    one true = add_to_channel-SameBuffer change name (is_removal removal) c
    one false = SameBuffer-refl c

add_to_star-SameBuffer :
    (change : LogEntry) (r : ChangeCache × List Str) → SameBuffer r.0 (add_to_star change r).0
unfolding add_to_star
add_to_star-SameBuffer change (c, added) = one c.options.star_channel_log
  where
    one :
        (b : Bool)
        → SameBuffer c
            (if◌then◌else◌ {A = ChangeCache × List Str} b
              (add_to_channel change star false c, add_id star added)
              (c, added)).0
    one true = add_to_channel-SameBuffer change star false c
    one false = SameBuffer-refl c

-- `_addToCache` moves the next sequence behind the entry's, if it is not there already, and leaves
-- the rest of the buffering state alone.
pub add_entry-SameBuffer :
    (change : LogEntry) (c : ChangeCache)
    → SameBuffer
        (record c {
          next_sequence =
              if leb c.next_sequence change.sequence then change.sequence + 1 else c.next_sequence;
        })
        (add_entry change c).0
unfolding add_entry
add_entry-SameBuffer change c = elim (Bool-cases (leb c.next_sequence change.sequence)) [
  | inl ahead ↦ rw ahead (rest (record c { next_sequence = change.sequence + 1 }))
  | inr behind ↦ rw behind (rest c)
]
  where
    rest :
        (c' : ChangeCache)
        → SameBuffer c'
            (if str_eq change.doc_id []
              then (c', [])
              else add_to_star
                  (record change { channels = [] })
                  (add_to_channels (record change { channels = [] }) change.channels c')).0
    rest c' = elim (Bool-cases (str_eq change.doc_id [])) [
      | inl unused ↦ rw unused (SameBuffer-refl c')
      | inr doc ↦ rw doc (
          SameBuffer-trans c' _ _ (add_to_channels-SameBuffer _ change.channels c') (
            add_to_star-SameBuffer _
              (add_to_channels (record change { channels = [] }) change.channels c')))
    ]
