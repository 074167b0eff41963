-- ===== src/LateLog.antt =====
-- db/channel_cache.go: the log of late-arriving sequences, oldest first as in the source, and the
-- changes feeds that listen on it. A method that holds `lateLogLock` is one step. The listener counts
-- are uint64 values; their wrap-around at 0 is written out.
pub mod Counts
pub mod Purging
pub mod Listeners
pub mod Reached
use sync_gateway.Prelude.{
  ℕ, ◌+◌, ◌-◌, ◌^◌, ◌%◌, Option, none, some, List, [], ◌∷◌, ◌++◌, ◌==◌, if◌then◌else◌,
}

-- An entry with the number of feeds whose last seen late sequence it is.
pub record LateLogEntry : Type 0 where
  pub sequence : ℕ
  pub listener_count : ℕ

pub record LateLog : Type 0 where
  pub entries : List LateLogEntry
  pub last_late_sequence : ℕ

unfoldable pub initialize_late_logs : LateLog
initialize_late_logs = record {
  entries = record { sequence = 0; listener_count = 0 } ∷ [];
  last_late_sequence = 0;
}

unfoldable pub add_listener : LateLogEntry → LateLogEntry
add_listener e = record e { listener_count = (e.listener_count + 1) % 2 ^ 64 }

unfoldable pub remove_listener : LateLogEntry → LateLogEntry
remove_listener e = record e { listener_count = (e.listener_count + (2 ^ 64 - 1)) % 2 ^ 64 }

-- `_purgeLateLogEntries`: entries at the front without listeners go, but one entry stays.
unfoldable pub purge : List LateLogEntry → List LateLogEntry
purge [] = []
purge (e ∷ []) = e ∷ []
purge (e ∷ f ∷ es) = let rest = purge (f ∷ es) in if e.listener_count == 0 then rest else e ∷ f ∷ es

unfoldable pub add_late_sequence : ℕ → LateLog → LateLog
unfolding purge
add_late_sequence sequence l = record {
  entries = purge (l.entries ++ record { sequence = sequence; listener_count = 0 } ∷ []);
  last_late_sequence = sequence;
}

-- The first entry of a sequence with `f` applied to it; `none` if there is no such entry.
unfoldable pub update_first :
    (LateLogEntry → LateLogEntry) → ℕ → List LateLogEntry → Option (List LateLogEntry)
update_first f sequence [] = none
update_first f sequence (e ∷ es) =
    let rest = elim (update_first f sequence es) as (λ o. Option (List LateLogEntry)) [
      | none ↦ none
      | some l ↦ some (e ∷ l)
    ] in
    if e.sequence == sequence then some (f e ∷ es) else rest

unfoldable pub update_last : (LateLogEntry → LateLogEntry) → List LateLogEntry → List LateLogEntry
update_last f [] = []
update_last f (e ∷ []) = f e ∷ []
update_last f (e ∷ g ∷ es) = e ∷ update_last f (g ∷ es)

unfoldable pub last_sequence : List LateLogEntry → ℕ
last_sequence [] = 0
last_sequence (e ∷ []) = e.sequence
last_sequence (e ∷ f ∷ es) = last_sequence (f ∷ es)

-- The entries after the first one of a sequence.
unfoldable pub entries_after : ℕ → List LateLogEntry → Option (List LateLogEntry)
entries_after since [] = none
entries_after since (e ∷ es) =
    let rest = entries_after since es in if e.sequence == since then some es else rest

-- `none` is the error "Missing previous sequence - rollback required". The listener leaves the entry
-- of the sequence that it has seen, and joins the last one.
unfoldable pub get_late_sequences_since : ℕ → LateLog → Option (List LateLogEntry × ℕ × LateLog)
unfolding entries_after update_first update_last last_sequence remove_listener add_listener
get_late_sequences_since since l =
    let moved = elim (update_first remove_listener since l.entries) as (λ o. List LateLogEntry) [
      | none ↦ l.entries
      | some es ↦ update_last add_listener es
    ] in
    if since == l.last_late_sequence
    then some ([], since, l)
    else elim (entries_after since l.entries) as (λ o. Option (List LateLogEntry × ℕ × LateLog)) [
      | none ↦ none
      | some es ↦ some (es, last_sequence l.entries, record l { entries = moved })
    ]

-- A new changes feed starts at the last entry.
unfoldable pub init_late_sequence_client : LateLog → ℕ × LateLog
unfolding update_last last_sequence add_listener
init_late_sequence_client l =
    (last_sequence l.entries, record l { entries = update_last add_listener l.entries })

-- `none` is the error "Sequence not found".
unfoldable pub release_late_sequence_client : ℕ → LateLog → Option LateLog
unfolding update_first remove_listener
release_late_sequence_client sequence l = elim (update_first remove_listener sequence l.entries) [
  | none ↦ none
  | some es ↦ some (record l { entries = es })
]
