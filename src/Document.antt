-- ===== src/Document.antt =====
-- db/document.go: the channels, the access and the flags of a document. Maps are association lists,
-- walked in the order of the list; a change in place returns the new map, and a nil map is `none`.
pub mod Channels
use Prim.Native.Nat.{bit_and, bit_or}
use sync_gateway.Prelude.{
  ℕ, ◌-◌, ◌==◌, Bool, true, false, not, ◌||◌, ◌&&◌, Option, none, some, List, [], ◌∷◌, ◌++◌,
  if◌then◌else◌, Str, str_eq, codes, length,
}
use sync_gateway.Prelude.Int.{ℤ}
use sync_gateway.LogEntry.{ChannelMap, ChannelRemoval, deleted_flag}
use sync_gateway.ChannelCache.{has_id}
use sync_gateway.TimedSet.{TimedSet, update_at_sequence, at_sequence}
use sync_gateway.RevTree.{RevInfo, get_history}
use sync_gateway.RevTree.Encoding.{encode_revisions}
use sync_gateway.RevisionCache.{Body, JsonValue, string, raw, Revisions}

-- The names that a principal is granted, with the sequence of each grant.
abbrev pub UserAccessMap : Type 0
UserAccessMap = List (Str × TimedSet)

abbrev pub AccessMap : Type 0
AccessMap = List (Str × List Str)

pub record Document : Type 0 where
  pub id : Str
  pub current_rev : Str
  pub newest_rev : Str
  pub flags : ℕ
  pub sequence : ℕ
  pub unused_sequences : List ℕ
  pub recent_sequences : List ℕ
  pub history : List RevInfo
  pub channels : Option ChannelMap
  pub access : UserAccessMap
  pub role_access : UserAccessMap
  pub tombstoned_at : ℤ

unfoldable pub has_flag : ℕ → Document → Bool
has_flag flag doc = not (bit_and doc.flags flag == 0)

unfoldable pub set_flag : ℕ → Bool → Document → Document
set_flag flag state doc = record doc {
  flags = if state then bit_or doc.flags flag else doc.flags - bit_and doc.flags flag;
}

-- `m[channel]`: `none` if it is missing, `some none` for a channel that the document is in.
unfoldable pub find_channel : Str → ChannelMap → Option (Option ChannelRemoval)
find_channel ch [] = none
find_channel ch ((name, v) ∷ m) = if str_eq name ch then some v else find_channel ch m

unfoldable pub assign_channel : Str → Option ChannelRemoval → ChannelMap → ChannelMap
assign_channel ch v [] = (ch, v) ∷ []
assign_channel ch v ((name, w) ∷ m) =
    let rest = (name, w) ∷ assign_channel ch v m in if str_eq name ch then (name, v) ∷ m else rest

-- The channels that are no longer current, marked.
unfoldable pub leave_channels : ChannelRemoval → List Str → ChannelMap → ChannelMap × List Str
leave_channels removal new_channels [] = ([], [])
leave_channels removal new_channels ((name, some v) ∷ m) =
    let (rest, changed) = leave_channels removal new_channels m in ((name, some v) ∷ rest, changed)
leave_channels removal new_channels ((name, none) ∷ m) =
    let (rest, changed) = leave_channels removal new_channels m in
    if has_id name new_channels
    then ((name, none) ∷ rest, changed)
    else ((name, some removal) ∷ rest, name ∷ changed)

unfoldable pub is_joined : Option (Option ChannelRemoval) → Bool
is_joined none = false
is_joined (some none) = true
is_joined (some (some removal)) = false

-- The channels that were not current, entered.
unfoldable pub join_channels : List Str → ChannelMap → ChannelMap × List Str
join_channels [] m = (m, [])
join_channels (name ∷ new_channels) m =
    let rest = join_channels new_channels m in
    if is_joined (find_channel name rest.0)
    then rest
    else (assign_channel name none rest.0, name ∷ rest.1)

unfoldable pub removal_of : Document → ChannelRemoval
removal_of doc = record {
  seq = doc.sequence;
  rev_id = doc.current_rev;
  deleted = has_flag deleted_flag doc;
}

-- The document, and the channels that have changed.
unfoldable pub update_channels : List Str → Document → Document × List Str
update_channels new_channels doc =
    let (left, changed) = elim (doc.channels) as (λ o. ChannelMap × List Str) [
      | none ↦ ([], [])
      | some old ↦ leave_channels (removal_of doc) new_channels old
    ] in
    let (joined, entered) = join_channels new_channels left in
    (record doc { channels = some joined }, changed ++ entered)

-- The channels that a revision left, and whether one of them was left by a deletion.
unfoldable pub removed_at : Str → ChannelMap → List Str × Bool
removed_at revid [] = ([], false)
removed_at revid ((name, none) ∷ m) = removed_at revid m
removed_at revid ((name, some v) ∷ m) =
    let (names, deleted) = removed_at revid m in
    if str_eq v.rev_id revid then (name ∷ names, v.deleted || deleted) else (names, deleted)

pub record Removal : Type 0 where
  pub body : Body
  pub history : Revisions
  pub channels : List Str

pub data RemovalResult : Type 0 where
  no_removal : RemovalResult
  history_error : RemovalResult
  removal : Removal → RemovalResult

unfoldable pub or_self : Str → List Str → List Str
or_self revid [] = revid ∷ []
or_self revid (r ∷ revs) = r ∷ revs

-- `IsChannelRemoval`.
unfoldable pub is_channel_removal : (Str → Option (ℤ × Str)) → Str → Document → RemovalResult
is_channel_removal scan revid doc =
    let (names, deleted) = elim (doc.channels) as (λ o. List Str × Bool) [
      | none ↦ ([], false)
      | some m ↦ removed_at revid m
    ] in
    let (revs, cycle) = get_history revid doc.history in
    let body =
      (codes "_id", string doc.id)
      ∷ (codes "_rev", string revid)
      ∷ (codes "_removed", raw (codes "true"))
      ∷ (if deleted then (codes "_deleted", raw (codes "true")) ∷ [] else []) in
    if length names == 0
    then no_removal
    else if cycle
    then history_error
    else removal (record {
      body = body;
      history = encode_revisions scan (or_self revid revs);
      channels = names;
    })

-- `newAccess[name]`: nil for a missing name.
unfoldable pub names_for : Str → AccessMap → List Str
names_for name [] = []
names_for name ((n, names) ∷ access) = if str_eq n name then names else names_for name access

unfoldable pub has_access : Str → UserAccessMap → Bool
has_access name [] = false
has_access name ((n, set) ∷ m) = if str_eq n name then true else has_access name m

-- The principals that the map has: those without access left go.
unfoldable pub update_existing : AccessMap → ℕ → UserAccessMap → UserAccessMap × List Str
update_existing new_access sequence [] = ([], [])
update_existing new_access sequence ((name, access) ∷ m) =
    let (rest, names) = update_existing new_access sequence m in
    let (access', changed) = update_at_sequence (names_for name new_access) sequence access in
    (
      (if changed && length access' == 0 then rest else (name, access') ∷ rest),
      if changed then name ∷ names else names,
    )

-- The principals that only the new access has.
unfoldable pub add_new : AccessMap → ℕ → UserAccessMap × List Str → UserAccessMap × List Str
add_new [] sequence (m, names) = (m, names)
add_new ((name, access) ∷ new_access) sequence (m, names) =
    let r = add_new new_access sequence (m, names) in
    if has_access name r.0 then r else ((name, at_sequence access sequence) ∷ r.0, name ∷ r.1)

-- `updateAccess`: the map, and the principals whose access has changed.
unfoldable pub update_access : AccessMap → ℕ → UserAccessMap → UserAccessMap × List Str
update_access new_access sequence m =
    add_new new_access sequence (update_existing new_access sequence m)
