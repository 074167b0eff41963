-- ===== src/RevTree/Pruning.antt =====
-- db/revtree.go: the pruning of revision trees. What was pruned is a count; the body keys of pruned
-- tombstones are the second part. Walks to the root have fuel for each revision and one more. A leaf
-- that is gone by the time of its test is a nil pointer there: the run panics, which `panicked` records,
-- and the rest of the record then means nothing.
pub mod Keeps
pub mod Snipped
pub mod Shallow
pub mod Branches
pub mod Safe
use sync_gateway.Prelude.{
  ℕ, zero, suc, ◌+◌, ◌^◌, ◌-◌, ◌==◌, Bool, true, false, not, ◌&&◌, ◌||◌, Option, none, some, List,
  [], ◌∷◌, ltb, leb, if◌then◌else◌, Str, str_eq, length,
}
use sync_gateway.Prelude.Int.{ℤ, pos, negsuc, sub_ℕ, ◌+ℤ◌}
use sync_gateway.RevId.{ltb_ℤ, gen_of_rev_id, parse_rev_id}
use sync_gateway.RevTree.{RevInfo, get_info, contains, get_leaves}

unfoldable pub clear_depths : List RevInfo → List RevInfo
clear_depths [] = []
clear_depths (i ∷ t) = let i' : RevInfo = record i { depth = 2 ^ 32 - 1 } in i' ∷ clear_depths t

unfoldable pub set_depth : Str → ℕ → List RevInfo → List RevInfo
set_depth revid depth [] = []
set_depth revid depth (i ∷ t) =
    let i' : RevInfo = record i { depth = if str_eq i.id revid then depth else i.depth } in
    i' ∷ set_depth revid depth t

-- The walk from a leaf, with the largest depth so far.
unfoldable pub walk_depths : ℕ → Str → ℕ → ℕ → List RevInfo → ℕ × List RevInfo
walk_depths zero revid depth max_depth t = (max_depth, t)
walk_depths (suc fuel) revid depth max_depth t =
    elim (get_info revid t) as (λ o. ℕ × List RevInfo) [
      | none ↦ (max_depth, t)
      | some node ↦
          let more =
            walk_depths fuel node.parent (depth + 1)
              (if ltb max_depth depth then depth else max_depth) (set_depth revid depth t) in
          if leb node.depth depth then (max_depth, t) else more
    ]

unfoldable pub walk_leaves : ℕ → List Str → ℕ → List RevInfo → ℕ × List RevInfo
walk_leaves fuel [] max_depth t = (max_depth, t)
walk_leaves fuel (revid ∷ leaves) max_depth t =
    let (max_depth', t') = walk_depths fuel revid 1 max_depth t in
    walk_leaves fuel leaves max_depth' t'

unfoldable pub compute_depths_and_find_leaves : List RevInfo → ℕ × List Str × List RevInfo
compute_depths_and_find_leaves t =
    let leaves = get_leaves t in
    let (max_depth, t') = walk_leaves (suc (length t)) leaves 0 (clear_depths t) in
    (max_depth, leaves, t')

unfoldable pub shortest_loop : (Str → Option ℤ) → List RevInfo → List Str → ℤ × Bool → ℤ × Bool
shortest_loop scan t [] found = found
shortest_loop scan t (revid ∷ leaves) found =
    let gen = gen_of_rev_id scan revid in
    elim (get_info revid t) as (λ o. ℤ × Bool) [
      | none ↦ shortest_loop scan t leaves found
      | some info ↦ shortest_loop scan t leaves (
          if not info.deleted && ltb_ℤ (pos 0) gen && ltb_ℤ gen found.0 then (gen, true) else found)
    ]

unfoldable pub find_shortest_non_tombstoned_branch : (Str → Option ℤ) → List RevInfo → ℤ × Bool
find_shortest_non_tombstoned_branch scan t =
    shortest_loop scan t (get_leaves t) (pos (2 ^ 31 - 1), false)

unfoldable pub longest_loop : (Str → Option ℤ) → List RevInfo → List Str → ℤ → ℤ
longest_loop scan t [] longest = longest
longest_loop scan t (revid ∷ leaves) longest =
    let gen = gen_of_rev_id scan revid in
    elim (get_info revid t) as (λ o. ℤ) [
      | none ↦ longest_loop scan t leaves longest
      | some info ↦
          longest_loop scan t leaves (if info.deleted && ltb_ℤ longest gen then gen else longest)
    ]

unfoldable pub find_longest_tombstoned_branch : (Str → Option ℤ) → List RevInfo → ℤ
find_longest_tombstoned_branch scan t = longest_loop scan t (get_leaves t) (pos 0)

unfoldable pub remove_info : Str → List RevInfo → List RevInfo
remove_info revid [] = []
remove_info revid (i ∷ t) =
    let rest = remove_info revid t in if str_eq i.id revid then rest else i ∷ rest

unfoldable pub delete_branch : ℕ → Str → List RevInfo → ℕ × List RevInfo
delete_branch zero revid t = (0, t)
delete_branch (suc fuel) revid t = elim (get_info revid t) as (λ o. ℕ × List RevInfo) [
  | none ↦ (0, t)
  | some node ↦
      let (pruned, t') = delete_branch fuel node.parent (remove_info revid t) in (pruned + 1, t')
]

unfoldable pub drop_deep : ℕ → List RevInfo → ℕ × List RevInfo
drop_deep max_depth [] = (0, [])
drop_deep max_depth (i ∷ t) =
    let (pruned, rest) = drop_deep max_depth t in
    if ltb max_depth i.depth then (pruned + 1, rest) else (pruned, i ∷ rest)

pub record Pruned : Type 0 where
  pub pruned : ℕ
  pub body_keys : List (Str × Str)
  pub tree : List RevInfo
  pub panicked : Bool

unfoldable pub drop_branch : ℕ → Str → RevInfo → Pruned → Pruned
drop_branch fuel revid leaf p =
    let (n, t) = delete_branch fuel leaf.id p.tree in
    record {
      pruned = p.pruned + n;
      body_keys =
          if str_eq leaf.body_key [] then p.body_keys else (revid, leaf.body_key) ∷ p.body_keys;
      tree = t;
      panicked = p.panicked;
    }

-- One leaf of the loop that deletes old tombstoned branches.
unfoldable pub drop_if_old : (Str → Option (ℤ × Str)) → ℕ → ℤ → Str → Pruned → Pruned
drop_if_old scan fuel threshold revid p = elim (get_info revid p.tree) as (λ o. Pruned) [
  | none ↦ record p { panicked = true }
  | some leaf ↦
      if leaf.deleted && ltb_ℤ (parse_rev_id scan leaf.id).0 threshold
      then drop_branch fuel revid leaf p
      else p
]

unfoldable pub drop_tombstones : (Str → Option (ℤ × Str)) → ℕ → ℤ → List Str → Pruned → Pruned
drop_tombstones scan fuel threshold [] p = p
drop_tombstones scan fuel threshold (revid ∷ leaves) p =
    drop_tombstones scan fuel threshold leaves (drop_if_old scan fuel threshold revid p)

-- Parents that are gone are forgotten.
unfoldable pub snip : List RevInfo → List RevInfo → List RevInfo
snip tree [] = []
snip tree (i ∷ t) =
    let i' : RevInfo = record i {
      parent = if not (str_eq i.parent []) && not (contains i.parent tree) then [] else i.parent;
    } in
    i' ∷ snip tree t

unfoldable pub is_minus_one : ℤ → Bool
is_minus_one (pos n) = false
is_minus_one (negsuc n) = n == 0

unfoldable pub drop_old : (Str → Option (ℤ × Str)) → ℕ → ℤ → List Str → Pruned → Pruned
drop_old scan fuel threshold leaves p =
    if is_minus_one threshold then p else drop_tombstones scan fuel threshold leaves p

unfoldable pub snip_if_pruned : Pruned → Pruned
snip_if_pruned p = if ltb 0 p.pruned then record p { tree = snip p.tree p.tree } else p

unfoldable pub prune_deep :
    (Str → Option (ℤ × Str)) → (Str → Option ℤ) → ℕ → List Str → List RevInfo → Pruned
prune_deep scan scan_gen max_depth leaves t =
    let (gen, found) = find_shortest_non_tombstoned_branch scan_gen t in
    let threshold = if found then gen +ℤ sub_ℕ 0 max_depth else negsuc 0 in
    let (n, kept) = drop_deep max_depth t in
    snip_if_pruned (
      drop_old scan (suc (length t)) threshold leaves
        (record { pruned = n; body_keys = []; tree = kept; panicked = false }))

unfoldable pub prune_revisions :
    (Str → Option (ℤ × Str)) → (Str → Option ℤ) → ℕ → List RevInfo → Pruned
prune_revisions scan scan_gen max_depth t =
    let (deepest, leaves, t') = compute_depths_and_find_leaves t in
    if leb (length t) max_depth
    then record { pruned = 0; body_keys = []; tree = t; panicked = false }
    else if leb deepest max_depth
    then record { pruned = 0; body_keys = []; tree = t'; panicked = false }
    else prune_deep scan scan_gen max_depth leaves t'
