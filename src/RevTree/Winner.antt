-- ===== src/RevTree/Winner.antt =====
-- `winningRevision` of db/revtree.go. The leaves come in the order of the tree's list, one that the
-- walk of the map may take; the scanning of ids is the parameter of db/revision.go's.
pub mod Best
use sync_gateway.Prelude.{
  ℕ, ◌+◌, Bool, true, false, not, ◌&&◌, ◌||◌, Option, List, [], ◌∷◌, ltb, ◌==◌, if◌then◌else◌, Str,
}
use sync_gateway.Prelude.Int.{ℤ, pos}
use sync_gateway.RevId.{ltb_ℤ, compare_rev_ids}
use sync_gateway.RevTree.{RevInfo, is_parent}

-- The leaves that `forEachLeaf` calls back for, of a list of revisions of the tree.
unfoldable pub leaf_infos : List RevInfo → List RevInfo → List RevInfo
unfolding is_parent
leaf_infos tree [] = []
leaf_infos tree (i ∷ t) =
    let rest = leaf_infos tree t in if is_parent i.id tree then rest else i ∷ rest

-- The variables that the callback writes.
pub record Winner : Type 0 where
  pub winner : Str
  pub winner_exists : Bool
  pub leaf_count : ℕ
  pub active_leaf_count : ℕ

unfoldable pub is_same : Bool → Bool → Bool
is_same true b = b
is_same false b = not b

unfoldable pub takes_over : (Str → Option (ℤ × Str)) → RevInfo → Winner → Bool
unfolding compare_rev_ids is_same
takes_over scan i w =
    (not i.deleted && not w.winner_exists)
    || (is_same (not i.deleted) w.winner_exists
        && ltb_ℤ (pos 0) (compare_rev_ids scan i.id w.winner))

unfoldable pub visit_leaf : (Str → Option (ℤ × Str)) → Winner → RevInfo → Winner
unfolding takes_over
visit_leaf scan w i =
    let counted = record w {
      leaf_count = w.leaf_count + 1;
      active_leaf_count = if i.deleted then w.active_leaf_count else w.active_leaf_count + 1;
    } in
    if takes_over scan i w
    then record counted { winner = i.id; winner_exists = not i.deleted }
    else counted

unfoldable pub visit_leaves : (Str → Option (ℤ × Str)) → Winner → List RevInfo → Winner
unfolding visit_leaf
visit_leaves scan w [] = w
visit_leaves scan w (i ∷ leaves) = visit_leaves scan (visit_leaf scan w i) leaves

-- The winner, whether the tree is branched, and whether it is in conflict.
unfoldable pub winning_revision : (Str → Option (ℤ × Str)) → List RevInfo → Str × Bool × Bool
unfolding visit_leaves leaf_infos
winning_revision scan t =
    let w =
      visit_leaves scan
        (record { winner = []; winner_exists = false; leaf_count = 0; active_leaf_count = 0 })
        (leaf_infos t t) in
    (w.winner, ltb 1 w.leaf_count, ltb 1 w.active_leaf_count)
