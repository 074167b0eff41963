-- ===== src/ChangeCache.antt =====
-- db/change_cache.go: sequence buffering. Entries arrive from the feed in any order; those ahead of
-- the next sequence wait in `pendingLogs`, and a sequence that is waited for too long is skipped.
-- A method that holds `c.lock` is one step, and the clock is read once in a step. The heap
-- `pendingLogs` (container/heap) is a list in rising sequence, its minimum first; the entries' own
-- sequences are distinct there. Maps are association lists.
pub mod Skipped
pub mod Buffering
pub mod Process
pub mod Clean
pub mod Received
pub mod Advances
pub mod Lossy
pub mod Run
use sync_gateway.Prelude.{
  ℕ, zero, suc, ◌+◌, ◌-◌, Bool, true, false, not, ◌&&◌, ◌||◌, Option, none, some, List, [], ◌∷◌,
  ◌++◌, ltb, leb, ◌==◌, if◌then◌else◌, Str, str_eq, codes, length,
}
use sync_gateway.LogEntry.{LogEntry, ChannelMap, ChannelRemoval}
use sync_gateway.ChannelCache.{ChannelCache, new_channel_cache, add_to_cache, add_id}
use sync_gateway.ChannelCache as Channel
use sync_gateway.LateLog.{add_late_sequence}
use Skipped.{SkippedSequence, push, remove_skipped, was_skipped}

pub record Options : Type 0 where
  pub channel_options : Channel.Options
  pub pending_seq_max_wait : ℕ
  pub pending_seq_max_num : ℕ
  pub skipped_seq_max_wait : ℕ
  -- the variable `EnableStarChannelLog`
  pub star_channel_log : Bool

pub record ChangeCache : Type 0 where
  pub logs_disabled : Bool
  pub next_sequence : ℕ
  pub initial_sequence : ℕ
  pub received_seqs : List ℕ
  pub pending_logs : List LogEntry
  pub channel_caches : List (Str × ChannelCache)
  pub skipped_seqs : List SkippedSequence
  pub options : Options

unfoldable pub set_initial_sequence : ℕ → ChangeCache → ChangeCache
set_initial_sequence initial c = record c {
  initial_sequence = initial;
  next_sequence = initial + 1;
}

unfoldable pub has_received : ℕ → List ℕ → Bool
has_received s [] = false
has_received s (r ∷ rs) = if r == s then true else has_received s rs

-- `heap.Push`.
unfoldable pub push_pending : LogEntry → List LogEntry → List LogEntry
push_pending change [] = change ∷ []
push_pending change (e ∷ es) =
    if leb change.sequence e.sequence then change ∷ e ∷ es else e ∷ push_pending change es

-- `_getChannelCache` followed by an update of the cache that it returns.
unfoldable pub update_channel :
    ChangeCache
    → Str
    → (ChannelCache → ChannelCache)
    → List (Str × ChannelCache)
    → List (Str × ChannelCache)
unfolding new_channel_cache
update_channel c name f [] =
    (name, f (new_channel_cache name (c.initial_sequence + 1) c.options.channel_options)) ∷ []
update_channel c name f ((n, cache) ∷ caches) =
    let rest = (n, cache) ∷ update_channel c name f caches in
    if str_eq n name then (n, f cache) ∷ caches else rest

-- One channel of an entry in `_addToCache`.
unfoldable pub add_to_channel : LogEntry → Str → Bool → ChangeCache → ChangeCache
unfolding update_channel add_to_cache add_late_sequence
add_to_channel change name is_removal c =
    let f = λ (cache : ChannelCache). add_to_cache cache change is_removal in
    let late = λ (cache : ChannelCache). record cache {
      late = add_late_sequence change.sequence cache.late;
    } in
    record c {
      channel_caches =
          update_channel c name (if change.skipped then (λ cache. late (f cache)) else f)
            c.channel_caches;
    }

unfoldable pub is_removal : Option ChannelRemoval → Bool
is_removal none = false
is_removal (some r) = true

-- `removal == nil || removal.Seq == change.Sequence`.
unfoldable pub is_affected : ℕ → Option ChannelRemoval → Bool
is_affected sequence none = true
is_affected sequence (some r) = r.seq == sequence

-- The loop over the entry's channels; the set of the channels that it was added to.
unfoldable pub add_to_channels : LogEntry → ChannelMap → ChangeCache → ChangeCache × List Str
unfolding is_removal is_affected add_to_channel
add_to_channels change [] c = (c, [])
add_to_channels change ((name, removal) ∷ m) c =
    let affected = is_affected change.sequence removal in
    let c' = if affected then add_to_channel change name (is_removal removal) c else c in
    let (r, added) = add_to_channels change m c' in
    (r, if affected then add_id name added else added)

abbrev pub star : Str
star = codes "*"

unfoldable pub add_to_star : LogEntry → ChangeCache × List Str → ChangeCache × List Str
unfolding add_to_channel
add_to_star change (c, added) =
    if c.options.star_channel_log
    then (add_to_channel change star false c, add_id star added)
    else (c, added)

-- `_addToCache`: the cache, and the channels that changed. An entry with no document id stands for an
-- unused sequence.
unfoldable pub add_entry : LogEntry → ChangeCache → ChangeCache × List Str
unfolding add_to_channels add_to_star
add_entry change c =
    let c' =
      if leb c.next_sequence change.sequence
      then record c { next_sequence = change.sequence + 1 }
      else c in
    let change' = record change { channels = [] } in
    if str_eq change.doc_id []
    then (c', [])
    else add_to_star change' (add_to_channels change' change.channels c')

-- `Update` of a set by another.
unfoldable pub union : List Str → List Str → List Str
union [] s = s
union (n ∷ ns) s = add_id n (union ns s)

-- Whether the first pending entry is next, or else the wait for the next sequence is over.
unfoldable pub is_next : LogEntry → ChangeCache → Bool
is_next e c = e.sequence == c.next_sequence

unfoldable pub is_overdue : ℕ → LogEntry → ChangeCache → Bool
is_overdue now e c =
    ltb c.options.pending_seq_max_num (length c.pending_logs)
    || leb c.options.pending_seq_max_wait (now - e.time_received)

unfoldable pub skip_next : ℕ → ChangeCache → ChangeCache
unfolding push
skip_next now c = record c {
  skipped_seqs = push (record { seq = c.next_sequence; time_added = now }) c.skipped_seqs;
  next_sequence = c.next_sequence + 1;
}

-- The loop of `_addPendingLogs`, on fuel; `pending` is the list of the cache it is called with.
unfoldable pub add_pending_loop :
    ℕ → ℕ → ChangeCache → List LogEntry → List Str → ChangeCache × List Str
add_pending_loop zero now c pending changed = (c, changed)
add_pending_loop (suc fuel) now c [] changed = (c, changed)
add_pending_loop (suc fuel) now c (e ∷ es) changed =
    let popped = add_entry e (record c { pending_logs = es }) in
    let next = add_pending_loop fuel now popped.0 es (union popped.1 changed) in
    let skipped = add_pending_loop fuel now (skip_next now c) (e ∷ es) changed in
    if is_next e c then next else if is_overdue now e c then skipped else (c, changed)

-- The largest pending sequence.
unfoldable pub top_pending : ℕ → List LogEntry → ℕ
top_pending top [] = top
top_pending top (e ∷ es) = top_pending e.sequence es

-- Each round raises the next sequence, which does not pass the largest pending one by more than 1.
unfoldable pub add_pending_logs : ℕ → ChangeCache → ChangeCache × List Str
add_pending_logs now c =
    add_pending_loop (top_pending 0 c.pending_logs + 1 - c.next_sequence) now c c.pending_logs []

-- The branches of `processEntry` for an entry that is received for the first time.
unfoldable pub add_next : ℕ → LogEntry → ChangeCache → ChangeCache × List Str
add_next now change c =
    let (c', changed) = add_entry change c in
    let (c'', more) = add_pending_logs now c' in (c'', union more changed)

unfoldable pub defer : ℕ → LogEntry → ChangeCache → ChangeCache × List Str
defer now change c =
    let c' = record c { pending_logs = push_pending change c.pending_logs } in
    if ltb c.options.pending_seq_max_num (length c'.pending_logs)
    then add_pending_logs now c'
    else (c', [])

unfoldable pub add_out_of_order : LogEntry → ChangeCache → ChangeCache × List Str
add_out_of_order change c =
    let late =
      if was_skipped change.sequence c.skipped_seqs
      then record change { skipped = true }
      else change in
    let (c', changed) = add_entry late c in
    (record c' { skipped_seqs = remove_skipped change.sequence c'.skipped_seqs }, changed)

unfoldable pub process_new : ℕ → LogEntry → ChangeCache → ChangeCache × List Str
process_new now change c =
    if change.sequence == c.next_sequence || c.next_sequence == 0
    then add_next now change c
    else if ltb c.next_sequence change.sequence
    then defer now change c
    else if ltb c.initial_sequence change.sequence
    then add_out_of_order change c
    else (c, [])

unfoldable pub process_entry : ℕ → LogEntry → ChangeCache → ChangeCache × List Str
process_entry now change c =
    if c.logs_disabled
    then (c, [])
    else if has_received change.sequence c.received_seqs
    then (c, [])
    else process_new now change (record c { received_seqs = change.sequence ∷ c.received_seqs })
