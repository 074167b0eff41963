-- ===== src/Crud/Proposals.antt =====
-- db/crud.go: what other databases are told about revisions that they might send. Sets and the maps
-- that stand for them are lists without repetitions; the document's loading is its result.
use sync_gateway.Prelude.{
  Bool, true, false, not, ◌&&◌, Option, List, [], ◌∷◌, if◌then◌else◌, Str, str_eq,
}
use sync_gateway.Prelude.Int.{ℤ, pos, ◌+ℤ◌}
use sync_gateway.ChannelCache.{has_id, add_id}
use sync_gateway.RevId.{ltb_ℤ, parse_rev_id}
use sync_gateway.RevTree.{RevInfo, contains}
use sync_gateway.RevTree.Winner.{leaf_infos}
use sync_gateway.Document.{Document}
use sync_gateway.Crud.{is_tombstone}

pub data Loaded : Type 0 where
  doc_missing : Loaded
  doc_error : Loaded
  loaded : Document → Loaded

pub data ProposedRevStatus : Type 0 where
  proposed_rev_ok proposed_rev_exists proposed_rev_conflict proposed_rev_error : ProposedRevStatus

unfoldable pub check_proposed_rev : Loaded → Str → Str → ProposedRevStatus
check_proposed_rev doc_missing revid parent = proposed_rev_ok
check_proposed_rev doc_error revid parent = proposed_rev_error
check_proposed_rev (loaded doc) revid parent =
    if str_eq doc.current_rev revid
    then proposed_rev_exists
    else if str_eq doc.current_rev parent
    then proposed_rev_ok
    else if str_eq parent [] && is_tombstone doc.current_rev doc.history
    then proposed_rev_ok
    else proposed_rev_conflict

-- A leaf that may be an ancestor of an unknown revision of the generation, or its parent.
unfoldable pub add_possible :
    (Str → Option (ℤ × Str)) → List Str → ℤ → RevInfo → List Str → List Str
add_possible scan revids gen leaf possible =
    let possible_gen = (parse_rev_id scan leaf.id).0 in
    if has_id leaf.id revids
    then possible
    else if ltb_ℤ possible_gen gen && not (ltb_ℤ (possible_gen +ℤ pos 100) gen)
    then add_id leaf.id possible
    else if not (ltb_ℤ possible_gen gen)
        && not (ltb_ℤ gen possible_gen)
        && not (str_eq leaf.parent [])
    then add_id leaf.parent possible
    else possible

unfoldable pub add_leaves :
    (Str → Option (ℤ × Str)) → List Str → ℤ → List RevInfo → List Str → List Str
add_leaves scan revids gen [] possible = possible
add_leaves scan revids gen (leaf ∷ leaves) possible =
    add_leaves scan revids gen leaves (add_possible scan revids gen leaf possible)

-- The loop over the asked revisions, of which the second list is left.
unfoldable pub diff_loop :
    (Str → Option (ℤ × Str)) → List RevInfo → List Str → List Str → List Str × List Str
diff_loop scan t revids [] = ([], [])
diff_loop scan t revids (revid ∷ rest) =
    let (missing, possible) = diff_loop scan t revids rest in
    let gen = (parse_rev_id scan revid).0 in
    if contains revid t then (missing, possible) else (
      revid ∷ missing,
      if ltb_ℤ (pos 1) gen then add_leaves scan revids gen (leaf_infos t t) possible else possible,
    )

-- `RevDiff`: the missing revisions and the possible ancestors. The second argument is whether the
-- document is a design document that a user asks for.
unfoldable pub rev_diff : (Str → Option (ℤ × Str)) → Bool → Loaded → List Str → List Str × List Str
rev_diff scan true doc revids = ([], [])
rev_diff scan false doc_missing revids = (revids, [])
rev_diff scan false doc_error revids = (revids, [])
rev_diff scan false (loaded doc) revids = diff_loop scan doc.history revids revids
