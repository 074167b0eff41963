-- ===== src/RevTree/Pruning/Branches.antt =====
-- Look-ups in a tree that db/revtree.go's `DeleteBranch` takes a branch from.
use sync_gateway.Prelude.{
  ℕ, zero, suc, ◌≡◌, refl, ap, sym, ◌∙◌, inl, inr, false, some, List, [], ◌∷◌, arith, if◌then◌else◌,
  Str, str_eq, str_eq_iff, Bool-cases, Option-cases,
}
use mathlib.Core.Option.{some-injective}
use sync_gateway.RevTree.{RevInfo, get_info, is_parent}
use sync_gateway.RevTree.Pruning.{remove_info, delete_branch}
use sync_gateway.RevTree.Pruning.Keeps.{IsLoose, remove_info-Keeps}

get_info-remove_info :
    (r revid : Str) (t : List RevInfo)
    → str_eq revid r ≡ false
    → get_info r (remove_info revid t) ≡ get_info r t
unfolding get_info remove_info
get_info-remove_info r revid [] n = refl
get_info-remove_info r revid (x ∷ t) n =
    let q = get_info-remove_info r revid t n in
    elim (Bool-cases (str_eq x.id revid)) [
      | inl same ↦
          let e : x.id ≡ revid = (str_eq_iff x.id revid).0 same in
          let other : str_eq x.id r ≡ false = ap (λ s. str_eq s r) e ∙ n in rw (same, other) q
      | inr there ↦ rw there (ap (λ o. if str_eq x.id r then some x else o) q)
    ]

-- A revision that the tree has names no parent that is no parent.
get_info-is_parent :
    (r s : Str) (t : List RevInfo) (node : RevInfo)
    → get_info s t ≡ some node
    → is_parent r t ≡ false
    → str_eq node.parent r ≡ false
unfolding get_info is_parent
get_info-is_parent r s [] node h p = cc
get_info-is_parent r s (x ∷ t) node h p = elim (Bool-cases (str_eq x.id s)) [
  | inl same ↦
      let q : x ≡ node = some-injective _ _ (rw same at h) in
      ap (λ z. str_eq z.parent r) (sym q) ∙ ground (arith, p)
  | inr other ↦ get_info-is_parent r s t node (rw other at h) (ground (arith, p))
]

-- A revision that is no parent stays when another branch is deleted.
pub get_info-delete_branch :
    (fuel : ℕ) (r revid : Str) (t : List RevInfo)
    → IsLoose t
    → is_parent r t ≡ false
    → str_eq revid r ≡ false
    → get_info r (delete_branch fuel revid t).1 ≡ get_info r t
unfolding delete_branch
get_info-delete_branch zero r revid t l p n = refl
get_info-delete_branch (suc fuel) r revid t l p n = elim (Option-cases (get_info revid t)) [
  | inl e ↦ rw (delete_branch, e) refl
  | inr (node, e) ↦
      let (w, l') = remove_info-Keeps revid t l in
      rw (delete_branch, e)
        (get_info-delete_branch fuel r node.parent (remove_info revid t) l' ((w r).1 p)
            (get_info-is_parent r revid t node e p)
          ∙ get_info-remove_info r revid t n)
]
