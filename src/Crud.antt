-- ===== src/Crud.antt =====
-- db/crud.go: what a write does to a document, and the comparison of revisions with other databases.
-- Left to parameters are the scanning of revision ids and the digest of a body; a callback's work on
-- the bucket (imports and attachments), which may fail before or after its work on the tree, is left
-- out. A write that fails stores no document.
pub mod Growth
pub mod Sequences
pub mod Proposals
pub mod Missing
pub mod Unbranched
pub mod Conflicts
use sync_gateway.Prelude.{
  ℕ, ◌+◌, ◌==◌, Bool, true, false, not, ◌&&◌, ◌||◌, Option, none, some, List, [], ◌∷◌,
  if◌then◌else◌, Str, str_eq,
}
use sync_gateway.Prelude.Int.{ℤ, pos, ◌+ℤ◌}
use sync_gateway.LogEntry.{deleted_flag}
use sync_gateway.RevId.{ltb_ℤ, parse_rev_id}
use sync_gateway.RevTree.{
  RevInfo, get_info, contains, is_leaf, get_leaves, AddError, Added, added, refused, add_revision,
}
use sync_gateway.RevTree.Winner.{winning_revision}
use sync_gateway.Document.{Document, has_flag, set_flag}

abbrev pub hidden_flag : ℕ
hidden_flag = 4

abbrev pub conflict_flag : ℕ
conflict_flag = 8

abbrev pub branched_flag : ℕ
branched_flag = 16

-- `doc.History[revid].Deleted`; a missing revision, which would be a nil pointer, gives false.
unfoldable pub is_tombstone : Str → List RevInfo → Bool
is_tombstone revid t = elim (get_info revid t) as (λ o. Bool) [ none ↦ false | some i ↦ i.deleted ]

unfoldable pub is_active_leaf : Str → List Str → List RevInfo → Bool
is_active_leaf parent [] t = false
is_active_leaf parent (leaf ∷ leaves) t =
    if str_eq leaf parent && not (is_tombstone leaf t) then true else is_active_leaf parent leaves t

-- `IsIllegalConflict`; the first argument is `AllowConflicts`.
unfoldable pub is_illegal_conflict : Bool → Document → Str → Bool → Bool → Bool
is_illegal_conflict allow_conflicts doc parent deleted no_conflicts =
    if allow_conflicts && not no_conflicts
    then false
    else if str_eq parent doc.current_rev || str_eq doc.current_rev []
    then false
    else if not deleted
    then true
    else not (is_active_leaf parent (get_leaves doc.history) doc.history)

-- What a callback comes to: the tree, and the id of the new revision.
pub data Update : Type 0 where
  bad_request : Update
  conflict : Update
  update_cancel : Update
  add_failed : AddError → Update
  updated : List RevInfo → Str → Update

unfoldable pub new_info : Str → Str → Bool → RevInfo
new_info id parent deleted = record {
  id = id;
  parent = parent;
  deleted = deleted;
  body = none;
  body_key = [];
  channels = [];
  depth = 0;
}

unfoldable pub added_as : Str → Added → Update
added_as new_rev (added t) = updated t new_rev
added_as new_rev (refused e) = add_failed e

-- The callback of `Put`, on a body with the given `_rev` and `_deleted`.
unfoldable pub put :
    (Str → Option (ℤ × Str)) → (ℤ → Str → Str) → Bool → Str → Bool → Document → Update
put scan create_rev_id allow_conflicts match_rev deleted doc =
    let generation = (parse_rev_id scan match_rev).0 in
    let add = λ (generation' : ℤ) (parent : Str).
      let new_rev = create_rev_id generation' parent in
      added_as new_rev (add_revision (new_info new_rev parent deleted) doc.history) in
    if ltb_ℤ generation (pos 0)
    then bad_request
    else if str_eq match_rev []
    then if str_eq doc.current_rev []
      then add (generation +ℤ pos 1) []
      else if not (is_tombstone doc.current_rev doc.history)
      then conflict
      else add ((parse_rev_id scan doc.current_rev).0 +ℤ pos 1) doc.current_rev
    else if not (is_leaf match_rev doc.history)
        || is_illegal_conflict allow_conflicts doc match_rev deleted false
    then conflict
    else add (generation +ℤ pos 1) match_rev

-- The revisions of a history that are new, the newest first, and the one that they branch from.
unfoldable pub split_known : List RevInfo → List Str → List Str × Str
split_known t [] = ([], [])
split_known t (revid ∷ doc_history) =
    let (new_revs, parent) = split_known t doc_history in
    if contains revid t then ([], revid) else (revid ∷ new_revs, parent)

unfoldable pub newest_or : Str → List Str → Str
newest_or parent [] = parent
newest_or parent (revid ∷ revs) = revid

-- The loop of `PutExistingRev`, which adds the oldest of the new revisions first.
unfoldable pub add_revs : Bool → Str → List Str → List RevInfo → Added
add_revs deleted parent [] t = added t
add_revs deleted parent (revid ∷ older) t = elim (add_revs false parent older t) as (λ r. Added) [
  | refused e ↦ refused e
  | added t' ↦ add_revision (new_info revid (newest_or parent older) deleted) t'
]

unfoldable pub is_empty : List Str → Bool
is_empty [] = true
is_empty (revid ∷ revs) = false

-- The callback of `PutExistingRev`, on a history of the new revision and its ancestors.
unfoldable pub put_existing_rev :
    (Str → Option (ℤ × Str)) → Bool → Str → List Str → Bool → Bool → Document → Update
put_existing_rev scan allow_conflicts new_rev ancestors deleted no_conflicts doc =
    let (new_revs, parent) = split_known doc.history (new_rev ∷ ancestors) in
    if ltb_ℤ (parse_rev_id scan new_rev).0 (pos 0)
    then bad_request
    else if is_empty new_revs
    then update_cancel
    else if is_illegal_conflict allow_conflicts doc parent deleted no_conflicts
    then conflict
    else added_as new_rev (add_revs deleted parent new_revs doc.history)

-- The part of the document's update that picks the current revision and sets the flags. The second
-- argument is the time.
unfoldable pub update_current :
    (Str → Option (ℤ × Str)) → ℤ → List RevInfo → Str → Document → Document
update_current scan now t new_rev doc =
    let (current, branched, in_conflict) = winning_revision scan t in
    let doc' : Document = record doc { history = t; current_rev = current } in
    let flagged =
      set_flag branched_flag branched (
        set_flag conflict_flag in_conflict (set_flag deleted_flag (is_tombstone current t) doc')) in
    let timed : Document = record flagged {
      tombstoned_at = if has_flag deleted_flag flagged then now else pos 0;
    } in
    let is_current = str_eq current new_rev in
    set_flag hidden_flag (not is_current)
      (record timed { newest_rev = if is_current then [] else new_rev })

unfoldable pub stored : (Str → Option (ℤ × Str)) → ℤ → Document → Update → Document
stored scan now doc bad_request = doc
stored scan now doc conflict = doc
stored scan now doc update_cancel = doc
stored scan now doc (add_failed e) = doc
stored scan now doc (updated t new_rev) = update_current scan now t new_rev doc
