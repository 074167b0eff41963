-- ===== src/ChangeCache/Run.antt =====
-- Runs of db/change_cache.go's buffer from the start of the cache: entries arrive, and the queue of
-- skipped sequences is cleaned.
use sync_gateway.Prelude.{
  ℕ, ◌+◌, ◌<◌, ◌≡◌, ap, ◌∙◌, Bool, false, not, ◌||◌, Option, List, [], ◌∷◌, arith, if◌then◌else◌,
  Str, Bool-cases, Option-cases, inl, inr,
}
use mathlib.Core.List.{append-nil}
use sync_gateway.LogEntry.{LogEntry, ChannelMap}
use sync_gateway.ChannelCache.View.{has_seq}
use sync_gateway.ChangeCache.Skipped.{
  SkippedSequence, was_skipped, remove_skipped, remove_sequences, get_oldest,
}
use sync_gateway.ChangeCache.{ChangeCache, set_initial_sequence, has_received, process_entry}
use sync_gateway.ChangeCache.Buffering.Queue.{From-above, get_oldest-le}
use sync_gateway.ChangeCache.Process.{IsBuffered}
use sync_gateway.ChangeCache.Clean.{
  get_skipped_sequences_older_than_max_wait, look_up_old, as_skipped, process_found,
  remove_skipped_sequences, clean_skipped_sequence_queue,
}
use sync_gateway.ChangeCache.Lossy.{
  IsLossy, has_received-append, remove_skipped-absent, lose-IsLossy, process_entry-IsLossy,
}

-- A removal by itself is the last step of a clean between whose steps other entries arrived.
pub data Event : Type 0 where
  arrives : ℕ → LogEntry → Event
  removes : List ℕ → Event
  cleans : (List ℕ → Option (List LogEntry)) → (Str → Option ChannelMap) → (ℕ → ℕ) → Bool → Event

unfoldable pub step : Event → ChangeCache → ChangeCache
step (arrives now change) c = (process_entry now change c).0
step (removes sequences) c = (remove_skipped_sequences sequences c).0
step (cleans query get_document clock disable) c =
    (clean_skipped_sequence_queue query get_document clock disable c).0

unfoldable pub run : List Event → ChangeCache → ChangeCache
run [] c = c
run (e ∷ l) c = run l (step e c)

-- The sequences that a removal takes off the list, before those that are gone already.
unfoldable pub removed_from : List ℕ → List SkippedSequence → List ℕ → List ℕ
removed_from [] k gone = gone
removed_from (s ∷ ss) k gone =
    removed_from ss (remove_skipped s k) (if was_skipped s k then s ∷ gone else gone)

unfoldable pub abandoned_by : Event → ChangeCache → List ℕ → List ℕ
unfolding removed_from
abandoned_by (arrives now change) c gone = gone
abandoned_by (removes sequences) c gone = removed_from sequences c.skipped_seqs gone
abandoned_by (cleans query get_document clock disable) c gone =
    let old = get_skipped_sequences_older_than_max_wait (clock 0) c in
    let (found, removals) = look_up_old query disable old in
    removed_from removals (process_found get_document clock 1 found c).0.skipped_seqs gone

-- The sequences that the removals of a run abandon.
unfoldable pub abandoned : List Event → ChangeCache → List ℕ → List ℕ
abandoned [] c gone = gone
abandoned (e ∷ l) c gone = abandoned l (step e c) (abandoned_by e c gone)

remove_skipped_sequences-IsLossy :
    (sequences gone : List ℕ) (c : ChangeCache)
    → IsLossy gone c
    → IsLossy (removed_from sequences c.skipped_seqs gone) (remove_skipped_sequences sequences c).0
unfolding remove_skipped_sequences remove_sequences removed_from
remove_skipped_sequences-IsLossy [] gone c v = v
remove_skipped_sequences-IsLossy (s ∷ ss) gone c v =
    elim (Bool-cases (was_skipped s c.skipped_seqs)) [
      | inl skipped ↦ rw skipped (
          remove_skipped_sequences-IsLossy ss (s ∷ gone)
            (record c { skipped_seqs = remove_skipped s c.skipped_seqs })
            (lose-IsLossy gone c v s skipped))
      | inr absent ↦
          rw (absent, remove_skipped-absent s c.skipped_seqs absent)
            (remove_skipped_sequences-IsLossy ss gone c v)
    ]

process_found-IsLossy :
    (get_document : Str → Option ChannelMap) (clock : ℕ → ℕ) (i : ℕ) (found : List LogEntry)
    (gone : List ℕ) (c : ChangeCache)
    → IsLossy gone c
    → IsLossy gone (process_found get_document clock i found c).0
unfolding process_found
process_found-IsLossy get_document clock i [] gone c v = v
process_found-IsLossy get_document clock i (e ∷ es) gone c v =
    elim (Option-cases (get_document e.doc_id)) [
      | inl failed ↦
          rw (process_found, failed) (process_found-IsLossy get_document clock (i + 1) es gone c v)
      | inr (channels, read) ↦
          let c' = (process_entry (clock i) (as_skipped e channels) c).0 in
          rw (process_found, read)
            (process_found-IsLossy get_document clock (i + 1) es gone c'
              (process_entry-IsLossy (clock i) (as_skipped e channels) gone c v))
    ]

step-IsLossy :
    (e : Event) (gone : List ℕ) (c : ChangeCache)
    → IsLossy gone c
    → IsLossy (abandoned_by e c gone) (step e c)
unfolding step abandoned_by clean_skipped_sequence_queue
step-IsLossy (arrives now change) gone c v = process_entry-IsLossy now change gone c v
step-IsLossy (removes sequences) gone c v = remove_skipped_sequences-IsLossy sequences gone c v
step-IsLossy (cleans query get_document clock disable) gone c v =
    let old = get_skipped_sequences_older_than_max_wait (clock 0) c in
    let (found, removals) = look_up_old query disable old in
    remove_skipped_sequences-IsLossy removals gone (process_found get_document clock 1 found c).0
      (process_found-IsLossy get_document clock 1 found gone c v)

run-IsLossy :
    (l : List Event) (gone : List ℕ) (c : ChangeCache)
    → IsLossy gone c
    → IsLossy (abandoned l c gone) (run l c)
unfolding run abandoned
run-IsLossy [] gone c v = v
run-IsLossy (e ∷ l) gone c v =
    run-IsLossy l (abandoned_by e c gone) (step e c) (step-IsLossy e gone c v)

pub start-IsBuffered :
    (initial : ℕ) (c : ChangeCache)
    → c.received_seqs ≡ []
    → c.pending_logs ≡ []
    → c.skipped_seqs ≡ []
    → IsBuffered (set_initial_sequence initial c)
unfolding set_initial_sequence has_received has_seq was_skipped
start-IsBuffered initial c r p k = record {
  accounted = record {
    started = omega arith;
    waiting = rw p tt;
    known = λ s le. rw (r, p);
    missing = λ s lo hi. absurd (omega arith);
    rising = rw k tt;
  };
  behind = rw p tt;
  few = rw p (omega arith);
}

IsBuffered-IsLossy : (c : ChangeCache) → IsBuffered c → IsLossy [] c
unfolding has_received
IsBuffered-IsLossy c v = record { buffered = rw (append-nil c.received_seqs) v; passed = λ s g. cc }

-- After any run of arrivals and of cleans of the skipped queue from the start, whatever the query and
-- the documents give, take a sequence above the initial one and below the next one. It is not pending,
-- and it is in the list of skipped sequences just if it was neither received nor abandoned by a removal.
-- Below the oldest of the list (`getOldestSkippedSequence`, 0 if there is none) it is not in the list.
pub run_lem :
    (initial : ℕ) (c : ChangeCache) (l : List Event) (s : ℕ)
    → c.received_seqs ≡ []
    → c.pending_logs ≡ []
    → c.skipped_seqs ≡ []
    → let start = set_initial_sequence initial c in
      let r = run l start in
      r.initial_sequence < s
      → s < r.next_sequence
      → (has_seq s r.pending_logs ≡ false)
        × (was_skipped s r.skipped_seqs
            ≡ not (has_received s r.received_seqs || has_received s (abandoned l start [])))
        × (s < get_oldest r.skipped_seqs → was_skipped s r.skipped_seqs ≡ false)
run_lem initial c l s r p k lo hi =
    let start = set_initial_sequence initial c in
    let w = run-IsLossy l [] start (IsBuffered-IsLossy start (start-IsBuffered initial c r p k)) in
    let v = w.buffered in
    (
      From-above s _ _ v.behind (omega arith),
      v.accounted.missing s lo hi
          ∙ ap not (has_received-append s (run l start).received_seqs (abandoned l start [])),
      λ h. ground (arith, get_oldest-le s _ _ _ v.accounted.rising),
    )
