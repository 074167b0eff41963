-- ===== src/ChangesFeed.antt =====
-- db/changes.go: one iteration of `SimpleMultiChangesFeed`, which merges the feeds of the channels,
-- for a request for no bodies and no conflicting revisions. A feed is the list of the entries that it
-- still gives: its head is `current[i]`, and the empty list is a feed that has closed. The limit, the
-- stable sequence and the low sequence of the iteration are arguments; the terminator is not modelled.
pub mod Heads
pub mod Rounds
pub mod Merge
pub mod Channel
pub mod Complete
use sync_gateway.Prelude.{
  ℕ, zero, suc, ◌+◌, ◌-◌, ◌^◌, Bool, true, false, not, ◌&&◌, ◌||◌, Option, none, some, List, [],
  ◌∷◌, ltb, ◌==◌, if◌then◌else◌, Str, length,
}
use sync_gateway.LogEntry.{LogEntry, is_removed, is_deleted}
use sync_gateway.SequenceId.{
  SequenceId, SequenceType, undefined, int_sequence_type, clock_sequence_type, int_before,
}
use sync_gateway.ChangeCache.{union}

-- An entry, without the body and the flags that the merge does not read; a nil set is `none`.
pub record ChangeEntry : Type 0 where
  pub seq : SequenceId
  pub id : Str
  pub deleted : Bool
  pub removed : Option (List Str)
  pub changes : List Str
  pub all_removed : Bool

unfoldable pub make_change_entry : LogEntry → SequenceId → Str → ChangeEntry
make_change_entry e seq_id channel = record {
  seq = seq_id;
  id = e.doc_id;
  deleted = is_deleted e;
  removed = if is_removed e then some (channel ∷ []) else none;
  changes = e.rev_id ∷ [];
  all_removed = false;
}

-- The feed of a channel: a sequence that triggered the read stands on the entries before it.
unfoldable pub channel_feed : ℕ → Str → List LogEntry → List ChangeEntry
channel_feed triggered_by channel [] = []
channel_feed triggered_by channel (e ∷ es) =
    let t = if ltb e.sequence triggered_by then triggered_by else 0 in
    let seq_id : SequenceId = record {
      seq_type = undefined;
      triggered_by = t;
      low_seq = 0;
      seq = e.sequence;
    } in
    make_change_entry e seq_id channel ∷ channel_feed t channel es

abbrev pub max_sequence_id : SequenceId
max_sequence_id = record { seq_type = undefined; triggered_by = 0; low_seq = 0; seq = 2 ^ 64 - 1 }

unfoldable pub same_type : SequenceType → SequenceType → Bool
same_type undefined undefined = true
same_type int_sequence_type int_sequence_type = true
same_type clock_sequence_type clock_sequence_type = true
same_type _ _ = false

-- `==` of the structs.
unfoldable pub same_seq : SequenceId → SequenceId → Bool
same_seq s t =
    same_type s.seq_type t.seq_type
    && (s.triggered_by == t.triggered_by && (s.low_seq == t.low_seq && s.seq == t.seq))

-- The loop for the minimum: the index and the entry that it has found.
unfoldable pub find_min :
    ℕ → SequenceId → Option (ℕ × ChangeEntry) → List (List ChangeEntry) → Option (ℕ × ChangeEntry)
find_min i min_seq min_entry [] = min_entry
find_min i min_seq min_entry ([] ∷ feeds) = find_min (i + 1) min_seq min_entry feeds
find_min i min_seq min_entry ((cur ∷ es) ∷ feeds) =
    let kept = find_min (i + 1) min_seq min_entry feeds in
    let taken = find_min (i + 1) cur.seq (some (i, cur)) feeds in
    if int_before cur.seq min_seq then taken else kept

-- What the entry takes over from another feed's entry of its sequence.
unfoldable pub merge_removed : Bool → ChangeEntry → ChangeEntry → ChangeEntry
merge_removed is_min cur e = elim (cur.removed) [
  | none ↦ record e { all_removed = false }
  | some r ↦ if is_min then e else record e {
    removed = elim e.removed as (λ o. Option (List Str)) [
      | none ↦ some r
      | some s ↦ some (union r s)
    ];
  }
]

-- The loop that clears the entries of the sequence.
unfoldable pub clear_current :
    ℕ
    → ℕ
    → SequenceId
    → List (List ChangeEntry)
    → ChangeEntry
    → List (List ChangeEntry) × ChangeEntry
clear_current i min_index min_seq [] e = ([], e)
clear_current i min_index min_seq ([] ∷ feeds) e =
    let (rest, e') = clear_current (i + 1) min_index min_seq feeds e in ([] ∷ rest, e')
clear_current i min_index min_seq ((cur ∷ es) ∷ feeds) e =
    let same = same_seq cur.seq min_seq in
    let merged = if same then merge_removed (i == min_index) cur e else e in
    let (rest, e') = clear_current (i + 1) min_index min_seq feeds merged in
    ((if same then es else cur ∷ es) ∷ rest, e')

unfoldable pub mark_removed : ChangeEntry → ChangeEntry
mark_removed e = elim (e.removed) [ none ↦ e | some r ↦ record e { all_removed = true } ]

pub record Iteration : Type 0 where
  pub active_only : Bool
  pub current_cached_sequence : ℕ
  pub low_sequence : ℕ

-- What an iteration has sent, with the state that it leaves; `stopped` if the limit was hit.
pub record Outcome : Type 0 where
  pub sent : List ChangeEntry
  pub since : SequenceId
  pub limit : ℕ
  pub post_stable_seqs_found : Bool
  pub stopped : Bool

-- An entry in front of what is sent after it.
unfoldable pub send : ChangeEntry → Option Outcome → Option Outcome
send e none = none
send e (some o) = some (record o { sent = e ∷ o.sent })

-- The loop, on fuel: `none` is no fuel.
unfoldable pub merge_loop :
    ℕ → Iteration → SequenceId → ℕ → Bool → List (List ChangeEntry) → Option Outcome
merge_loop zero it since limit post_stable feeds = none
merge_loop (suc fuel) it since limit post_stable feeds =
    elim (find_min 0 max_sequence_id none feeds) [
      | none ↦ some (record {
        sent = [];
        since = since;
        limit = limit;
        post_stable_seqs_found = post_stable;
        stopped = false;
      })
      | some (i, found) ↦
          let (rest, e) = clear_current 0 i found.seq feeds (mark_removed found) in
          if it.active_only && (e.deleted || e.all_removed)
          then merge_loop fuel it since limit post_stable rest
          else if ltb it.current_cached_sequence e.seq.seq
          then merge_loop fuel it since limit true rest
          else let since' = if int_before since found.seq then found.seq else since in
            let shown = record e { seq = record e.seq { low_seq = it.low_sequence } } in
            if limit == 1
            then some (record {
              sent = shown ∷ [];
              since = since';
              limit = 0;
              post_stable_seqs_found = post_stable;
              stopped = true;
            })
            else send shown (merge_loop fuel it since' (limit - 1) post_stable rest)
    ]

unfoldable pub count_entries : List (List ChangeEntry) → ℕ
count_entries [] = 0
count_entries (feed ∷ feeds) = length feed + count_entries feeds

unfoldable pub merge_feeds : Iteration → SequenceId → ℕ → List (List ChangeEntry) → Option Outcome
merge_feeds it since limit feeds = merge_loop (suc (count_entries feeds)) it since limit false feeds
