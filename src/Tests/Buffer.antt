-- ===== src/Tests/Buffer.antt =====
-- Runs of db/change_cache.go's buffer.
use sync_gateway.Prelude.{
  ℕ, ◌<◌, ◌≡◌, refl, true, false, not, ◌||◌, some, List, [], ◌∷◌, arith, str_eq,
}
use sync_gateway.LogEntry.{LogEntry}
use sync_gateway.ChannelCache.View.{has_seq}
use sync_gateway.ChangeCache.{
  ChangeCache, set_initial_sequence, process_entry, has_received, add_pending_logs,
}
use sync_gateway.ChangeCache as Cache
use sync_gateway.ChangeCache.Skipped.{
  was_skipped, get_oldest, remove_skipped, remove_sequences, get_older_than, try_push, push,
}
use sync_gateway.ChangeCache.Buffering.Loop.{Drains, add_pending_logs-Drains}
use sync_gateway.ChangeCache.Process.{IsBuffered, process_entry-IsBuffered}
use sync_gateway.ChangeCache.Clean.{
  skipped_seq_clean_view_batch, get_skipped_sequences_older_than_max_wait, after_batch, not_found,
  query_batches, look_up_old, as_skipped, process_found, remove_skipped_sequences,
  clean_skipped_sequence_queue,
}
use sync_gateway.ChangeCache.Run.{
  Event, arrives, cleans, step, run, removed_from, abandoned_by, abandoned, start-IsBuffered,
  run_lem,
}

program : Unit {0}
unfolding set_initial_sequence process_entry run step abandoned abandoned_by removed_from
    clean_skipped_sequence_queue get_skipped_sequences_older_than_max_wait look_up_old query_batches
    after_batch not_found skipped_seq_clean_view_batch process_found as_skipped
    remove_skipped_sequences remove_sequences get_older_than has_received add_pending_logs
    was_skipped get_oldest remove_skipped try_push push has_seq Cache.process_new Cache.add_next
    Cache.defer Cache.add_out_of_order Cache.push_pending Cache.add_entry Cache.add_pending_loop
    Cache.top_pending Cache.is_next Cache.is_overdue Cache.skip_next Cache.union
    Cache.add_to_channels Cache.add_to_star Cache.add_to_channel Cache.is_affected Cache.is_removal
    str_eq
program = tt

-- An unused sequence: `docID` is empty.
abbrev unused : ℕ → LogEntry
unused sequence = record {
  sequence = sequence;
  doc_id = [];
  rev_id = [];
  flags = 0;
  time_received = 0;
  channels = [];
  skipped = false;
}

abbrev fresh : ChangeCache
fresh = record {
  logs_disabled = false;
  next_sequence = 0;
  initial_sequence = 0;
  received_seqs = [];
  pending_logs = [];
  channel_caches = [];
  skipped_seqs = [];
  options = record {
    channel_options = record { min_length = 50; max_length = 500; age = 60 };
    pending_seq_max_wait = 5;
    pending_seq_max_num = 1;
    skipped_seq_max_wait = 3600;
    star_channel_log = true;
  };
}

abbrev started : ChangeCache
started = set_initial_sequence 4 fresh

-- 7 and 8 are too many to wait: 5 and 6 are skipped, and 5 arrives late.
abbrev arrivals : List Event
arrivals = arrives 1 (unused 7) ∷ arrives 1 (unused 8) ∷ arrives 2 (unused 5) ∷ []

arrivals_end :
    ((run arrivals started).next_sequence ≡ 9)
    × (get_oldest (run arrivals started).skipped_seqs ≡ 6)
unfolding program
arrivals_end = (refl, refl)

started-IsBuffered : IsBuffered started
started-IsBuffered = start-IsBuffered 4 fresh refl refl refl

abbrev waiting : ChangeCache
waiting = (process_entry 1 (unused 7) started).0

waiting-IsBuffered : IsBuffered waiting
waiting-IsBuffered = process_entry-IsBuffered 1 (unused 7) started started-IsBuffered

process_entry-IsBuffered_example : IsBuffered (process_entry 1 (unused 8) waiting).0
process_entry-IsBuffered_example = process_entry-IsBuffered 1 (unused 8) waiting waiting-IsBuffered

-- At time 9 the wait for 5 is over.
add_pending_logs-Drains_example : Drains 9 waiting (add_pending_logs 9 waiting).0
add_pending_logs-Drains_example = add_pending_logs-Drains 9 waiting waiting-IsBuffered.accounted

-- At time 4000 the wait for 5 and 6 is over: the query finds 5, and 6 is abandoned.
abbrev events : List Event
events =
    arrives 1 (unused 7)
    ∷ arrives 1 (unused 8)
    ∷ cleans (λ batch. some (unused 5 ∷ [])) (λ doc_id. some []) (λ i. 4000) false
    ∷ []

events_end :
    ((run events started).next_sequence ≡ 9)
    × (abandoned events started [] ≡ 6 ∷ [])
    × ((run events started).skipped_seqs ≡ [])
unfolding program
events_end = (refl, refl, refl)

run_lem_example :
    let r = run events started in
    (has_seq 6 r.pending_logs ≡ false)
    × (was_skipped 6 r.skipped_seqs
        ≡ not (has_received 6 r.received_seqs || has_received 6 (abandoned events started [])))
    × (6 < get_oldest r.skipped_seqs → was_skipped 6 r.skipped_seqs ≡ false)
unfolding program
run_lem_example = run_lem 4 fresh events 6 refl refl refl (omega arith) (omega arith)
