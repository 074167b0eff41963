-- ===== src/RevTree/Pruning/Snipped.antt =====
-- Pruning in db/revtree.go keeps a revision tree a tree.
use sync_gateway.Prelude.{
  ℕ, suc, ◌≡◌, refl, ap, sym, ◌∙◌, ◌⊎◌, inl, inr, true, false, not, ◌&&◌, Option, List, [], ◌∷◌,
  ltb, leb, if◌then◌else◌, Str, str_eq, str_eq_iff, str_eq_refl, Bool-cases, arith, length,
}
use sync_gateway.Prelude.Int.{ℤ, sub_ℕ, ◌+ℤ◌, negsuc}
use sync_gateway.RevTree.{RevInfo, contains, is_parent, get_leaves}
use sync_gateway.RevTree.Leaves.{IsTree}
use sync_gateway.RevTree.Pruning.{
  clear_depths, walk_leaves, drop_deep, Pruned, snip, drop_old, snip_if_pruned, prune_deep,
  prune_revisions, compute_depths_and_find_leaves, find_shortest_non_tombstoned_branch,
  is_minus_one,
}
use sync_gateway.RevTree.Pruning.Keeps.{
  IsLoose, IsTree-IsLoose, IsWithin, Keeps, clear_depths-Keeps, drop_deep-Keeps, Keeps-trans,
  walk_leaves-Keeps, drop_tombstones-Keeps, contains-snip, no_clash,
}

-- A parent that the tree has is among the older revisions.
older_parent :
    (i : RevInfo) (t : List RevInfo) (r : Str)
    → is_parent i.id (i ∷ t) ≡ false
    → is_parent r (i ∷ t) ≡ true
    → contains r (i ∷ t) ≡ true
    → contains r t ≡ true
unfolding contains
older_parent i t r n p c = elim (Bool-cases (str_eq i.id r)) [
  | inl q ↦ absurd (no_clash n (ap (λ z. is_parent z (i ∷ t)) ((str_eq_iff i.id r).0 q) ∙ p))
  | inr q ↦ rw q at c
]

-- Without dangling parents, a loose tree is a tree again.
snip-IsTree :
    (tree t : List RevInfo)
    → IsLoose t
    → ((r : Str) → contains r tree ≡ true → is_parent r t ≡ true → contains r t ≡ true)
    → IsTree (snip tree t)
unfolding snip is_parent
snip-IsTree tree [] l h = tt
snip-IsTree tree (i ∷ t) (n, c, o, l) h =
    let own : is_parent i.parent (i ∷ t) ≡ true = rw (str_eq_refl i.parent) refl in
    let rest = snip-IsTree tree t l (λ r. λ k. λ p.
      let p' : is_parent r (i ∷ t) ≡ true = ground (arith, p) in
      older_parent i t r o p' (h r k p')) in
    let gone = not (str_eq i.parent []) && not (contains i.parent tree) in
    let parent = if gone then [] else i.parent in
    let kept : (str_eq parent [] ≡ true) ⊎ (contains parent (snip tree t) ≡ true) =
      elim (Bool-cases (str_eq i.parent [])) [
        | inl root ↦ inl (rw (root) root)
        | inr child ↦ elim (Bool-cases (contains i.parent tree)) [
          | inl there ↦ inr (
              rw (child, there)
                (contains-snip tree t i.parent
                  ∙ older_parent i t i.parent o own (h i.parent there own)))
          | inr away ↦ inl (rw (child, away) (str_eq_refl []))
        ]
      ] in
    (n, contains-snip tree t i.id ∙ c, kept, rest)

within_has :
    (s t : List RevInfo) (r : Str) → IsWithin s t → contains r s ≡ true → contains r t ≡ true
within_has s t r w h = elim (Bool-cases (contains r t)) [
  | inl q ↦ q
  | inr q ↦ absurd (no_clash ((w r).0 q) h)
]

-- What pruning leaves of a tree.
abbrev pub IsPruned : List RevInfo → List RevInfo → Type 0
IsPruned t s = IsTree s × ((r : Str) → contains r s ≡ true → contains r t ≡ true)

snipped : (t s : List RevInfo) → Keeps t s → IsPruned t (snip s s)
snipped t s (w, l) = (
  snip-IsTree s s l (λ r. λ k. λ p. k),
  λ r. λ h. within_has s t r w (sym (contains-snip s s r) ∙ h),
)

drop_old-Keeps :
    (scan : Str → Option (ℤ × Str)) (fuel : ℕ) (threshold : ℤ) (leaves : List Str) (p : Pruned)
    → IsLoose p.tree
    → Keeps p.tree (drop_old scan fuel threshold leaves p).tree
unfolding drop_old
drop_old-Keeps scan fuel threshold leaves p l = elim (Bool-cases (is_minus_one threshold)) [
  | inl q ↦ simp q (λ r. (λ h. h, λ h. h), l)
  | inr q ↦ simp q (drop_tombstones-Keeps scan fuel threshold leaves p l)
]

snip_if_pruned-IsPruned :
    (t : List RevInfo) (p : Pruned)
    → Keeps t p.tree
    → ltb 0 (snip_if_pruned p).pruned ≡ true
    → IsPruned t (snip_if_pruned p).tree
unfolding snip_if_pruned
snip_if_pruned-IsPruned t p k h = elim (Bool-cases (ltb 0 p.pruned)) [
  | inl q ↦ simp q (snipped t p.tree k)
  | inr q ↦ absurd (no_clash refl (simp q at h))
]

prune_deep-IsPruned :
    (scan : Str → Option (ℤ × Str)) (scan_gen : Str → Option ℤ) (d : ℕ) (leaves : List Str)
    (t : List RevInfo)
    → IsLoose t
    → ltb 0 (prune_deep scan scan_gen d leaves t).pruned ≡ true
    → IsPruned t (prune_deep scan scan_gen d leaves t).tree
unfolding prune_deep
prune_deep-IsPruned scan scan_gen d leaves t l h =
    let (gen, found) = find_shortest_non_tombstoned_branch scan_gen t in
    let threshold = if found then gen +ℤ sub_ℕ 0 d else negsuc 0 in
    let start : Pruned = record {
      pruned = (drop_deep d t).0;
      body_keys = [];
      tree = (drop_deep d t).1;
      panicked = false;
    } in
    let fuel = suc (length t) in
    let k = drop_deep-Keeps d t l in
    snip_if_pruned-IsPruned t (drop_old scan fuel threshold leaves start)
      (Keeps-trans t (drop_deep d t).1 _ k (drop_old-Keeps scan fuel threshold leaves start k.1)) h

-- Whenever `pruneRevisions` prunes a tree, it leaves a tree: no parents are missing. It has no
-- revision that was not there.
pub prune_revisions-IsPruned :
    (scan : Str → Option (ℤ × Str)) (scan_gen : Str → Option ℤ) (max_depth : ℕ) (t : List RevInfo)
    → IsTree t
    → ltb 0 (prune_revisions scan scan_gen max_depth t).pruned ≡ true
    → IsPruned t (prune_revisions scan scan_gen max_depth t).tree
unfolding prune_revisions compute_depths_and_find_leaves
prune_revisions-IsPruned scan scan_gen d t w h =
    let l = IsTree-IsLoose t w in
    let k = clear_depths-Keeps t l in
    let leaves = get_leaves t in
    let walked = walk_leaves (suc (length t)) leaves 0 (clear_depths t) in
    let k' =
      Keeps-trans t (clear_depths t) walked.1 k
        (walk_leaves-Keeps (suc (length t)) leaves 0 (clear_depths t) k.1) in
    elim (Bool-cases (leb (length t) d)) [
      | inl small ↦ absurd (no_clash refl (simp (small) at h))
      | inr large ↦ elim (Bool-cases (leb walked.0 d)) [
        | inl shallow ↦ absurd (no_clash refl (simp (large, shallow) at h))
        | inr deep ↦
            let (a, b) =
              prune_deep-IsPruned scan scan_gen d leaves walked.1 k'.1 (simp (large, deep) at h) in
            simp (large, deep) ((a, λ r. λ c. within_has walked.1 t r k'.0 (b r c)))
      ]
    ]
