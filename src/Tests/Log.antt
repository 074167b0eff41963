-- ===== src/Tests/Log.antt =====
-- A change log of three entries, through channels/change_log.go's operations.
use sync_gateway.Prelude.{ℕ, ◌≡◌, false, [], ◌∷◌, arith, if◌then◌else◌, ◌==◌, codes}
use sync_gateway.LogEntry.{LogEntry}
use sync_gateway.ChangeLog.{ChangeLog, entries_after}
use sync_gateway.ChangeLog.Window.{IsRising, above, has_sequence, entries_after-above}

abbrev entry : ℕ → LogEntry
entry sequence = record {
  sequence = sequence;
  doc_id = codes "a";
  rev_id = codes "1-abc";
  flags = 0;
  time_received = 0;
  channels = [];
  skipped = false;
}

abbrev log : ChangeLog
log = record { since = 3; entries = entry 4 ∷ entry 6 ∷ entry 9 ∷ [] }

log-IsRising : IsRising log
log-IsRising = (omega arith, (omega arith, (omega arith, tt)))

entries_after-above_example : entries_after 6 log ≡ (
    if 6 == log.since
    then above 6 log.entries
    else if has_sequence 6 log.entries
    then above 6 log.entries
    else [])
entries_after-above_example = entries_after-above 6 log log-IsRising
