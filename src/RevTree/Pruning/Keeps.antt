-- ===== src/RevTree/Pruning/Keeps.antt =====
-- What the steps of the pruning in db/revtree.go take away, and what they keep.
use sync_gateway.Prelude.{
  ℕ, zero, suc, ◌+◌, ◌≡◌, refl, ap, ◌∙◌, inl, inr, Bool, true, false, ◌&&◌, Option, List, [], ◌∷◌,
  ltb, leb, if◌then◌else◌, Str, str_eq, Bool-cases, Option-cases, arith,
}
use sync_gateway.Prelude.Int.{ℤ}
use sync_gateway.RevId.{ltb_ℤ, parse_rev_id}
use sync_gateway.RevTree.{RevInfo, get_info, contains, is_parent}
use sync_gateway.RevTree.Leaves.{IsTree, own_parent}
use sync_gateway.RevTree.Pruning.{
  clear_depths, set_depth, walk_depths, walk_leaves, remove_info, delete_branch, drop_deep, Pruned,
  drop_tombstones, drop_branch, drop_if_old, snip,
}

-- Every id is new and not empty, and no older revision's parent. Parents may be missing.
abbrev pub IsLoose : List RevInfo → Type 0
IsLoose [] = Unit {0}
IsLoose (i ∷ t) =
    (str_eq i.id [] ≡ false)
    × (contains i.id t ≡ false)
    × (is_parent i.id (i ∷ t) ≡ false)
    × IsLoose t

pub IsTree-IsLoose : (t : List RevInfo) → IsTree t → IsLoose t
IsTree-IsLoose [] w = tt
IsTree-IsLoose (i ∷ t) w = (w.0, w.1, own_parent i t w, IsTree-IsLoose t w.3)

-- A part of a tree: all that it has, the tree has.
abbrev pub IsWithin : List RevInfo → List RevInfo → Type 0
IsWithin s t =
    (r : Str)
    → (contains r t ≡ false → contains r s ≡ false)
      × (is_parent r t ≡ false → is_parent r s ≡ false)

without :
    {x y : Bool} (c : Bool)
    → (y ≡ false → x ≡ false)
    → (if c then true else y) ≡ false
    → (if c then true else x) ≡ false
without true f h = h
without false f h = f h

IsWithin-cons :
    (i j : RevInfo) (s t : List RevInfo)
    → j.id ≡ i.id
    → j.parent ≡ i.parent
    → IsWithin s t
    → IsWithin (j ∷ s) (i ∷ t)
unfolding contains is_parent
IsWithin-cons i j s t e p w r =
    let (a, b) = w r in
    (λ h. rw e (without (str_eq i.id r) a h), λ h. rw p (without (str_eq i.parent r) b h))

IsWithin-left : (i : RevInfo) (s t : List RevInfo) → IsWithin s t → IsWithin s (i ∷ t)
unfolding contains is_parent
IsWithin-left i s t w r = (λ h. ground (arith, h, (w r).0), λ h. ground (arith, h, (w r).1))

IsLoose-cons :
    (i j : RevInfo) (s t : List RevInfo)
    → j.id ≡ i.id
    → j.parent ≡ i.parent
    → IsLoose (i ∷ t)
    → IsWithin s t
    → IsLoose s
    → IsLoose (j ∷ s)
IsLoose-cons i j s t e p (n, c, o, l) w u = (
  rw e n,
  rw e ((w i.id).0 c),
  ap (λ z. is_parent z (j ∷ s)) e ∙ (IsWithin-cons i j s t e p w i.id).1 o,
  u,
)

-- What a step makes of a loose tree: a loose part of it.
abbrev pub Keeps : List RevInfo → List RevInfo → Type 0
Keeps t s = IsWithin s t × IsLoose s

pub clear_depths-Keeps : (t : List RevInfo) → IsLoose t → Keeps t (clear_depths t)
unfolding clear_depths
clear_depths-Keeps [] l = (λ r. (λ h. h, λ h. h), tt)
clear_depths-Keeps (i ∷ t) l =
    let (w, u) = clear_depths-Keeps t l.3 in
    (
      IsWithin-cons i _ (clear_depths t) t refl refl w,
      IsLoose-cons i _ (clear_depths t) t refl refl l w u,
    )

set_depth-Keeps :
    (revid : Str) (d : ℕ) (t : List RevInfo) → IsLoose t → Keeps t (set_depth revid d t)
unfolding set_depth
set_depth-Keeps revid d [] l = (λ r. (λ h. h, λ h. h), tt)
set_depth-Keeps revid d (i ∷ t) l =
    let (w, u) = set_depth-Keeps revid d t l.3 in
    (
      IsWithin-cons i _ (set_depth revid d t) t refl refl w,
      IsLoose-cons i _ (set_depth revid d t) t refl refl l w u,
    )

pub remove_info-Keeps : (revid : Str) (t : List RevInfo) → IsLoose t → Keeps t (remove_info revid t)
unfolding remove_info
remove_info-Keeps revid [] l = (λ r. (λ h. h, λ h. h), tt)
remove_info-Keeps revid (i ∷ t) l =
    let (w, u) = remove_info-Keeps revid t l.3 in
    elim (Bool-cases (str_eq i.id revid)) [
      | inl q ↦ rw q (IsWithin-left i (remove_info revid t) t w, u)
      | inr q ↦ rw q (
        IsWithin-cons i i (remove_info revid t) t refl refl w,
        IsLoose-cons i i (remove_info revid t) t refl refl l w u,
      )
    ]

pub drop_deep-Keeps : (d : ℕ) (t : List RevInfo) → IsLoose t → Keeps t (drop_deep d t).1
unfolding drop_deep
drop_deep-Keeps d [] l = (λ r. (λ h. h, λ h. h), tt)
drop_deep-Keeps d (i ∷ t) l =
    let (w, u) = drop_deep-Keeps d t l.3 in
    let s = (drop_deep d t).1 in
    elim (Bool-cases (ltb d i.depth)) [
      | inl q ↦ rw q (IsWithin-left i s t w, u)
      | inr q ↦ rw q (IsWithin-cons i i s t refl refl w, IsLoose-cons i i s t refl refl l w u)
    ]

pub Keeps-trans : (s t u : List RevInfo) → Keeps s t → Keeps t u → Keeps s u
Keeps-trans s t u (w, a) (v, b) = (λ r. (λ h. (v r).0 ((w r).0 h), λ h. (v r).1 ((w r).1 h)), b)

pub delete_branch-Keeps :
    (fuel : ℕ) (revid : Str) (t : List RevInfo) → IsLoose t → Keeps t (delete_branch fuel revid t).1
unfolding delete_branch
delete_branch-Keeps zero revid t l = (λ r. (λ h. h, λ h. h), l)
delete_branch-Keeps (suc fuel) revid t l = elim (Option-cases (get_info revid t)) [
  | inl e ↦ rw (delete_branch, e) (λ r. (λ h. h, λ h. h), l)
  | inr (node, e) ↦
      let k = remove_info-Keeps revid t l in
      rw (delete_branch, e)
        (Keeps-trans t (remove_info revid t) _ k
          (delete_branch-Keeps fuel node.parent (remove_info revid t) k.1))
]

walk_depths-Keeps :
    (fuel : ℕ) (revid : Str) (d m : ℕ) (t : List RevInfo)
    → IsLoose t
    → Keeps t (walk_depths fuel revid d m t).1
unfolding walk_depths
walk_depths-Keeps zero revid d m t l = (λ r. (λ h. h, λ h. h), l)
walk_depths-Keeps (suc fuel) revid d m t l = elim (Option-cases (get_info revid t)) [
  | inl e ↦ rw (walk_depths, e) (λ r. (λ h. h, λ h. h), l)
  | inr (node, e) ↦ elim (Bool-cases (leb node.depth d)) [
    | inl q ↦ rw (walk_depths, e, q) (λ r. (λ h. h, λ h. h), l)
    | inr q ↦
        let k = set_depth-Keeps revid d t l in
        rw (walk_depths, e, q)
          (Keeps-trans t (set_depth revid d t) _ k (
            walk_depths-Keeps fuel node.parent (d + 1) (if ltb m d then d else m)
              (set_depth revid d t) k.1))
  ]
]

pub walk_leaves-Keeps :
    (fuel : ℕ) (leaves : List Str) (m : ℕ) (t : List RevInfo)
    → IsLoose t
    → Keeps t (walk_leaves fuel leaves m t).1
unfolding walk_leaves
walk_leaves-Keeps fuel [] m t l = (λ r. (λ h. h, λ h. h), l)
walk_leaves-Keeps fuel (revid ∷ leaves) m t l =
    let k = walk_depths-Keeps fuel revid 1 m t l in
    let w = walk_depths fuel revid 1 m t in
    Keeps-trans t w.1 _ k (walk_leaves-Keeps fuel leaves w.0 w.1 k.1)

drop_if_old-Keeps :
    (scan : Str → Option (ℤ × Str)) (fuel : ℕ) (threshold : ℤ) (revid : Str) (p : Pruned)
    → IsLoose p.tree
    → Keeps p.tree (drop_if_old scan fuel threshold revid p).tree
unfolding drop_if_old drop_branch
drop_if_old-Keeps scan fuel threshold revid p l = elim (Option-cases (get_info revid p.tree)) [
  | inl e ↦ simp (drop_if_old, e) (λ r. (λ h. h, λ h. h), l)
  | inr (leaf, e) ↦
      elim (Bool-cases (leaf.deleted && ltb_ℤ (parse_rev_id scan leaf.id).0 threshold)) [
        | inl q ↦ simp (drop_if_old, e, q) (delete_branch-Keeps fuel leaf.id p.tree l)
        | inr q ↦ simp (drop_if_old, e, q) (λ r. (λ h. h, λ h. h), l)
      ]
]

pub drop_tombstones-Keeps :
    (scan : Str → Option (ℤ × Str)) (fuel : ℕ) (threshold : ℤ) (leaves : List Str) (p : Pruned)
    → IsLoose p.tree
    → Keeps p.tree (drop_tombstones scan fuel threshold leaves p).tree
unfolding drop_tombstones
drop_tombstones-Keeps scan fuel threshold [] p l = (λ r. (λ h. h, λ h. h), l)
drop_tombstones-Keeps scan fuel threshold (revid ∷ leaves) p l =
    let k = drop_if_old-Keeps scan fuel threshold revid p l in
    let q = drop_if_old scan fuel threshold revid p in
    Keeps-trans p.tree q.tree _ k (drop_tombstones-Keeps scan fuel threshold leaves q k.1)

pub contains-snip : (tree t : List RevInfo) (r : Str) → contains r (snip tree t) ≡ contains r t
unfolding snip contains
contains-snip tree [] r = refl
contains-snip tree (i ∷ t) r = rw (contains-snip tree t r) refl

pub no_clash : {b : Bool} → b ≡ false → b ≡ true → ⊥
no_clash n r = cc
