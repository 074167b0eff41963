-- ===== src/RevTree/Pruning/Safe.antt =====
-- The leaves that the pruning of db/revtree.go tests for their age.
use sync_gateway.Prelude.{
  ℕ, suc, ◌^◌, ◌-◌, ◌<◌, ◌≡◌, refl, ap, sym, ◌∙◌, inl, inr, true, false, ◌&&◌, Option, List, [],
  ◌∷◌, arith, ltb, leb, if◌then◌else◌, Str, str_eq, str_eq_iff, str_eq_refl, length, Bool-cases,
}
use mathlib.Core.Path.{subst}
use sync_gateway.Prelude.Int.{ℤ, sub_ℕ, ◌+ℤ◌, negsuc}
use sync_gateway.RevId.{ltb_ℤ, parse_rev_id}
use sync_gateway.RevTree.{RevInfo, is_parent, is_among, get_leaves, get_leaves_filtered}
use sync_gateway.RevTree.Leaves.{IsTree}
use sync_gateway.RevTree.Pruning.{
  clear_depths, walk_leaves, delete_branch, drop_deep, Pruned, drop_branch, drop_if_old,
  drop_tombstones, drop_old, is_minus_one, snip_if_pruned, prune_deep, prune_revisions,
  compute_depths_and_find_leaves, find_shortest_non_tombstoned_branch,
}
use sync_gateway.RevTree.Pruning.Keeps.{
  IsLoose, IsTree-IsLoose, clear_depths-Keeps, walk_leaves-Keeps, drop_deep-Keeps, Keeps-trans,
  delete_branch-Keeps, no_clash,
}
use sync_gateway.RevTree.Pruning.Branches.{get_info-delete_branch}
use sync_gateway.RevTree.Pruning.Shallow.{
  HasWithin, get_info-id, walk_leaves-shallow, drop_deep-HasWithin, clear_depths-HasWithin,
  leaves_of-is_parent, leaves_of-contains, IsDistinct, leaves_of-IsDistinct,
}

-- The leaves that are still to be tested are there, and no parents.
record Live (leaves : List Str) (t : List RevInfo) : Type 0 where
  loose : IsLoose t
  distinct : IsDistinct leaves
  there : (r : Str) → is_among r leaves ≡ true → HasWithin 1 r t
  childless : (r : Str) → is_among r leaves ≡ true → is_parent r t ≡ false

later : (r x : Str) (leaves : List Str) → is_among r leaves ≡ true → is_among r (x ∷ leaves) ≡ true
unfolding is_among
later r x leaves h = ground (arith, h)

differs :
    (r x : Str) (leaves : List Str)
    → is_among x leaves ≡ false
    → is_among r leaves ≡ true
    → str_eq x r ≡ false
differs r x leaves n h = elim (Bool-cases (str_eq x r)) [
  | inl same ↦ absurd (no_clash n (ap (λ s. is_among s leaves) ((str_eq_iff x r).0 same) ∙ h))
  | inr other ↦ other
]

Live-rest : (x : Str) (leaves : List Str) (t : List RevInfo) → Live (x ∷ leaves) t → Live leaves t
Live-rest x leaves t v = record {
  loose = v.loose;
  distinct = v.distinct.1;
  there = λ r a. v.there r (later r x leaves a);
  childless = λ r a. v.childless r (later r x leaves a);
}

Live-delete_branch :
    (fuel : ℕ) (x : Str) (leaves : List Str) (t : List RevInfo)
    → Live (x ∷ leaves) t
    → Live leaves (delete_branch fuel x t).1
Live-delete_branch fuel x leaves t v =
    let (w, l) = delete_branch-Keeps fuel x t v.loose in
    record {
      loose = l;
      distinct = v.distinct.1;
      there = λ r a.
          let (i, e, le) = v.there r (later r x leaves a) in
          (
            i,
            get_info-delete_branch fuel r x t v.loose (v.childless r (later r x leaves a))
                  (differs r x leaves v.distinct.0 a)
                ∙ e,
            le,
          );
      childless = λ r a. (w r).1 (v.childless r (later r x leaves a));
    }

drop_if_old-Live :
    (scan : Str → Option (ℤ × Str)) (fuel : ℕ) (threshold : ℤ) (x : Str) (leaves : List Str)
    (p : Pruned)
    → Live (x ∷ leaves) p.tree
    → Live leaves (drop_if_old scan fuel threshold x p).tree
      × ((drop_if_old scan fuel threshold x p).panicked ≡ p.panicked)
unfolding drop_if_old drop_branch
drop_if_old-Live scan fuel threshold x leaves p v =
    let (leaf, e, le) = v.there x (here x) in
    let q : leaf.id ≡ x = get_info-id x p.tree leaf e in
    elim (Bool-cases (leaf.deleted && ltb_ℤ (parse_rev_id scan leaf.id).0 threshold)) [
      | inl old ↦
          simp (drop_if_old, e, old)
            (
              subst (λ s. Live leaves (delete_branch fuel s p.tree).1) (sym q)
                  (Live-delete_branch fuel x leaves p.tree v),
              refl,
            )
      | inr young ↦ simp (drop_if_old, e, young) (Live-rest x leaves p.tree v, refl)
    ]
  where
    here : (s : Str) → is_among s (s ∷ leaves) ≡ true
    here s = unfold is_among in rw (str_eq_refl s) refl

drop_tombstones-panicked :
    (scan : Str → Option (ℤ × Str)) (fuel : ℕ) (threshold : ℤ) (leaves : List Str) (p : Pruned)
    → Live leaves p.tree
    → (drop_tombstones scan fuel threshold leaves p).panicked ≡ p.panicked
unfolding drop_tombstones
drop_tombstones-panicked scan fuel threshold [] p v = refl
drop_tombstones-panicked scan fuel threshold (x ∷ leaves) p v =
    let (v', q) = drop_if_old-Live scan fuel threshold x leaves p v in
    drop_tombstones-panicked scan fuel threshold leaves (drop_if_old scan fuel threshold x p) v' ∙ q

prune_deep-panicked :
    (scan : Str → Option (ℤ × Str)) (scan_gen : Str → Option ℤ) (d : ℕ) (leaves : List Str)
    (t : List RevInfo)
    → Live leaves (drop_deep d t).1
    → (prune_deep scan scan_gen d leaves t).panicked ≡ false
unfolding prune_deep drop_old snip_if_pruned
prune_deep-panicked scan scan_gen d leaves t v =
    let (gen, found) = find_shortest_non_tombstoned_branch scan_gen t in
    let threshold = if found then gen +ℤ sub_ℕ 0 d else negsuc 0 in
    let start : Pruned = record {
      pruned = (drop_deep d t).0;
      body_keys = [];
      tree = (drop_deep d t).1;
      panicked = false;
    } in
    let dropped = drop_old scan (suc (length t)) threshold leaves start in
    snipped dropped ∙ old threshold start v
  where
    snipped : (p : Pruned) → (snip_if_pruned p).panicked ≡ p.panicked
    snipped p =
        unfold snip_if_pruned in
        elim (Bool-cases (ltb 0 p.pruned)) [
          | inl some_pruned ↦ simp some_pruned refl
          | inr none_pruned ↦ simp none_pruned refl
        ]

    old :
        (threshold : ℤ) (p : Pruned)
        → Live leaves p.tree
        → (drop_old scan (suc (length t)) threshold leaves p).panicked ≡ p.panicked
    old threshold p v =
        unfold drop_old in
        elim (Bool-cases (is_minus_one threshold)) [
          | inl no_threshold ↦ simp no_threshold refl
          | inr q ↦ simp q (drop_tombstones-panicked scan (suc (length t)) threshold leaves p v)
        ]

-- For a maximal depth above 0, `pruneRevisions` on a tree does not panic: each leaf is still in the
-- tree when it is tested for its age.
pub prune_revisions-panicked :
    (scan : Str → Option (ℤ × Str)) (scan_gen : Str → Option ℤ) (max_depth : ℕ) (t : List RevInfo)
    → IsTree t
    → 0 < max_depth
    → (prune_revisions scan scan_gen max_depth t).panicked ≡ false
unfolding prune_revisions compute_depths_and_find_leaves get_leaves get_leaves_filtered
prune_revisions-panicked scan scan_gen d t w lt =
    let l = IsTree-IsLoose t w in
    let leaves = get_leaves t in
    let fuel = length t in
    let walked = walk_leaves (suc fuel) leaves 0 (clear_depths t) in
    let f = λ (revid : Str). true in
    let k = clear_depths-Keeps t l in
    let k' =
      Keeps-trans t (clear_depths t) walked.1 k
        (walk_leaves-Keeps (suc fuel) leaves 0 (clear_depths t) k.1) in
    let (u, m) = Keeps-trans t walked.1 _ k' (drop_deep-Keeps d walked.1 k'.1) in
    let has = λ (r : Str) (a : is_among r leaves ≡ true).
      clear_depths-HasWithin r t (leaves_of-contains f t r t a) in
    let v : Live leaves (drop_deep d walked.1).1 = record {
      loose = m;
      distinct = leaves_of-IsDistinct f t t l;
      there = λ r a.
          drop_deep-HasWithin d r walked.1 lt
            (walk_leaves-shallow (2 ^ 32 - 1) fuel leaves 0 (clear_depths t) has r a);
      childless = λ r a. (u r).1 (leaves_of-is_parent f t r t a);
    } in
    elim (Bool-cases (leb (length t) d)) [
      | inl small ↦ simp small refl
      | inr large ↦ elim (Bool-cases (leb walked.0 d)) [
        | inl shallow ↦ simp (large, shallow) refl
        | inr deep ↦ simp (large, deep) (prune_deep-panicked scan scan_gen d leaves walked.1 v)
      ]
    ]
