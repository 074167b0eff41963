-- ===== src/ChangeLog.antt =====
-- channels/change_log.go: a log of entries in the order in which they were added, oldest first, and
-- the sequence after which it is valid. `assertValid` panics: `none` is the panic.
pub mod Window
use sync_gateway.Prelude.{
  ℕ, ◌+◌, ◌-◌, Bool, true, false, not, ◌&&◌, ◌||◌, Option, none, some, List, [], ◌∷◌, ◌++◌, ltb,
  leb, ◌==◌, if◌then◌else◌, Str, str_eq, length, take, drop,
}
use sync_gateway.LogEntry.{LogEntry, ChannelMap, ChannelRemoval}

pub record ChangeLog : Type 0 where
  pub since : ℕ
  pub entries : List LogEntry

-- `kMaxFlag` is 63.
abbrev pub max_flag : ℕ
max_flag = 63

unfoldable pub check_valid : LogEntry → Bool
check_valid e =
    ltb 0 e.sequence && not (str_eq e.doc_id []) && not (str_eq e.rev_id []) && leb e.flags max_flag

unfoldable pub is_removed_at : ℕ → Option ChannelRemoval → Bool
is_removed_at seq none = false
is_removed_at seq (some r) = r.seq == seq

-- The channels; the revision id is that of the last of them in the order of the map.
unfoldable pub channels_removed_at_sequence : ℕ → ChannelMap → ChannelMap
unfolding is_removed_at
channels_removed_at_sequence seq [] = []
channels_removed_at_sequence seq ((name, removal) ∷ m) =
    let rest = channels_removed_at_sequence seq m in
    if is_removed_at seq removal then (name, removal) ∷ rest else rest

unfoldable pub last_or : ℕ → List LogEntry → ℕ
last_or since [] = since
last_or since (e ∷ es) = last_or e.sequence es

unfoldable pub last_sequence : ChangeLog → ℕ
unfolding last_or
last_sequence l = last_or l.since l.entries

unfoldable pub is_empty : List LogEntry → Bool
is_empty [] = true
is_empty (e ∷ es) = false

unfoldable pub add : LogEntry → ChangeLog → Option ChangeLog
unfolding check_valid is_empty
add e l =
    if check_valid e
    then some (record {
      since = if is_empty l.entries || e.sequence == l.since then e.sequence - 1 else l.since;
      entries = l.entries ++ e ∷ [];
    })
    else none

unfoldable pub add_entries : List LogEntry → ChangeLog → ChangeLog
unfolding is_empty
add_entries [] l = l
add_entries (e ∷ es) l = record {
  since = if is_empty l.entries then e.sequence - 1 else l.since;
  entries = l.entries ++ e ∷ es;
}

-- `Since` raised to the largest of the sequences.
unfoldable pub raise_since : ℕ → List LogEntry → ℕ
raise_since since [] = since
raise_since since (e ∷ es) = raise_since (if ltb since e.sequence then e.sequence else since) es

-- The new log, and how many entries were removed.
unfoldable pub truncate_to : ℕ → ChangeLog → ChangeLog × ℕ
unfolding raise_since
truncate_to max_length l =
    let remove = length l.entries - max_length in
    if ltb 0 remove
    then (
      record {
        since = raise_since l.since (take remove l.entries);
        entries = drop remove l.entries;
      },
      remove,
    )
    else (l, 0)

unfoldable pub after_entry : ℕ → List LogEntry → List LogEntry
after_entry after [] = []
after_entry after (e ∷ es) =
    let rest = after_entry after es in if e.sequence == after then es else rest

unfoldable pub entries_after : ℕ → ChangeLog → List LogEntry
unfolding after_entry
entries_after after l = if after == l.since then l.entries else after_entry after l.entries

unfoldable pub filter_after : ℕ → ChangeLog → ChangeLog
unfolding entries_after
filter_after after l = record {
  since = if ltb l.since after then after else l.since;
  entries = entries_after after l;
}

unfoldable pub has_empty : List LogEntry → Bool
has_empty [] = false
has_empty (e ∷ es) = if str_eq e.doc_id [] then true else has_empty es

unfoldable pub has_empty_entries : ChangeLog → Bool
unfolding has_empty
has_empty_entries l = has_empty l.entries

unfoldable pub remove_empty : List LogEntry → List LogEntry
remove_empty [] = []
remove_empty (e ∷ es) = if str_eq e.doc_id [] then remove_empty es else e ∷ remove_empty es

unfoldable pub copy_removing_empty_entries : ChangeLog → ChangeLog
unfolding remove_empty
copy_removing_empty_entries l = record l { entries = remove_empty l.entries }
