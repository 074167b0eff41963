-- ===== src/Tests/Tree.antt =====
-- A tree of three revisions, through db/revtree.go's operations.
use sync_gateway.Prelude.{
  arith, ◌-◌, ◌≡◌, refl, Bool, true, false, not, ◌&&◌, Option, none, some, List, [], ◌∷◌,
  if◌then◌else◌, Str, codes, str_eq, inl, inr, ltb, length,
}
use sync_gateway.Prelude.Int.{ℤ, pos, ◌+ℤ◌}
use sync_gateway.RevId.{parse_rev_id, gen_of_rev_id}
use sync_gateway.RevTree.{
  RevInfo, add_revision, added, refused, AddError, contains, is_leaf, is_parent, get_info,
  get_leaves, get_leaves_filtered, leaves_of, find_ancestor_from_set, get_history,
}
use sync_gateway.RevTree.Pruning.{
  prune_revisions, compute_depths_and_find_leaves, walk_leaves, walk_depths, clear_depths,
  set_depth, prune_deep, snip_if_pruned, drop_old, is_minus_one,
  find_shortest_non_tombstoned_branch, shortest_loop, drop_tombstones, drop_if_old, drop_deep,
  delete_branch, drop_branch, remove_info, snip,
}
use sync_gateway.RevTree.Pruning.Safe.{prune_revisions-panicked}
use sync_gateway.RevTree.Pruning.Snipped.{IsPruned, prune_revisions-IsPruned}
use sync_gateway.RevTree.Leaves.{IsTree, is_addable, add_revision-IsTree}
use sync_gateway.RevTree.Ancestors.{
  lineage, first_among, ancestry, find_ancestor_from_set_lem, get_history_lem,
}
use sync_gateway.RevTree.Winner.{leaf_infos, winning_revision}
use sync_gateway.RevTree.Winner.Best.{NoneAbove, IsIn, count_active, winning_revision_lem}

abbrev revision : Str → Str → Bool → RevInfo
revision id parent deleted = record {
  id = id;
  parent = parent;
  deleted = deleted;
  body = none;
  body_key = [];
  channels = [];
  depth = 0;
}

abbrev fork : List RevInfo
fork =
    revision (codes "2-b") (codes "1-a") true
    ∷ revision (codes "2-a") (codes "1-a") false
    ∷ revision (codes "1-a") [] false
    ∷ []

fork-IsTree : IsTree fork
unfolding str_eq contains
fork-IsTree = (refl, refl, inr refl, (refl, refl, inr refl, (refl, refl, inl refl, tt)))

-- What a scan reads from ids of one digit, a dash and a digest.
abbrev scan_digit : Str → Option (ℤ × Str)
scan_digit [] = none
scan_digit (d ∷ []) = none
scan_digit (d ∷ dash ∷ digest) = some (pos (d - 48), digest)

add_revision-IsTree_example :
    let i = revision (codes "3-c") (codes "2-a") false in
    (is_addable i fork ≡ false → (e : AddError) × (add_revision i fork ≡ refused e))
    × (is_addable i fork ≡ true
        → (add_revision i fork ≡ added (i ∷ fork))
          × IsTree (i ∷ fork)
          × ((r : Str)
              → is_leaf r (i ∷ fork)
                ≡ (if str_eq i.id r then true else is_leaf r fork && not (str_eq i.parent r))))
add_revision-IsTree_example =
    add_revision-IsTree (revision (codes "3-c") (codes "2-a") false) fork fork-IsTree

find_ancestor_from_set_lem_example :
    find_ancestor_from_set fork (codes "2-b") (codes "1-a" ∷ [])
    ≡ first_among (codes "1-a" ∷ []) (lineage (codes "2-b") fork)
find_ancestor_from_set_lem_example =
    find_ancestor_from_set_lem fork (codes "2-b") (codes "1-a" ∷ []) fork-IsTree

get_history_lem_example : get_history (codes "2-a") fork ≡ (ancestry (codes "2-a") fork, false)
get_history_lem_example = get_history_lem fork (codes "2-a") fork-IsTree

winning_revision_lem_example :
    let leaves = revision (codes "2-a") (codes "1-a") false ∷ [] in
    let i = revision (codes "2-b") (codes "1-a") true in
    (best : RevInfo) × ((winning_revision scan_digit fork).0 ≡ best.id)
    × IsIn scan_digit best (i ∷ leaves)
    × NoneAbove scan_digit best (i ∷ leaves)
    × ((winning_revision scan_digit fork).1 ≡ ltb 1 (length (i ∷ leaves)))
    × ((winning_revision scan_digit fork).2 ≡ ltb 1 (count_active scan_digit (i ∷ leaves)))
unfolding leaf_infos is_parent str_eq parse_rev_id
winning_revision_lem_example =
    winning_revision_lem scan_digit fork (revision (codes "2-a") (codes "1-a") false ∷ [])
      (revision (codes "2-b") (codes "1-a") true) refl refl

-- A branch of three revisions, of which two may stay.
abbrev line : List RevInfo
line =
    revision (codes "3-c") (codes "2-b") false
    ∷ revision (codes "2-b") (codes "1-a") false
    ∷ revision (codes "1-a") [] false
    ∷ []

abbrev scan_generation : Str → Option ℤ
scan_generation [] = none
scan_generation (d ∷ s) = some (pos (d - 48))

line_pruned : ltb 0 (prune_revisions scan_digit scan_generation 2 line).pruned ≡ true
unfolding str_eq contains prune_revisions compute_depths_and_find_leaves walk_leaves get_leaves
    walk_depths get_info clear_depths set_depth prune_deep snip_if_pruned drop_old is_minus_one
    find_shortest_non_tombstoned_branch shortest_loop gen_of_rev_id ◌+ℤ◌ drop_tombstones drop_if_old
    drop_deep parse_rev_id delete_branch drop_branch remove_info snip get_leaves_filtered is_parent
    leaves_of
line_pruned = refl

prune_revisions-IsPruned_example :
    IsPruned line (prune_revisions scan_digit scan_generation 2 line).tree
unfolding str_eq contains
prune_revisions-IsPruned_example =
    prune_revisions-IsPruned scan_digit scan_generation 2 line
      (refl, refl, inr refl, (refl, refl, inr refl, (refl, refl, inl refl, tt))) line_pruned

prune_revisions-panicked_example :
    (prune_revisions scan_digit scan_generation 2 line).panicked ≡ false
unfolding str_eq contains
prune_revisions-panicked_example =
    prune_revisions-panicked scan_digit scan_generation 2 line
      (refl, refl, inr refl, (refl, refl, inr refl, (refl, refl, inl refl, tt))) (omega arith)
