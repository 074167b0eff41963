-- ===== src/RevTree/Leaves.antt =====
-- How db/revtree.go's `addRevision` changes a tree and its leaves.
use sync_gateway.Prelude.{
  ◌≡◌, refl, ap, sym, ◌∙◌, ◌⊎◌, inl, inr, Bool, true, false, not, ◌&&◌, ◌||◌, List, [], ◌∷◌, arith,
  if◌then◌else◌, Str, str_eq, str_eq_iff, Bool-cases,
}
use sync_gateway.RevTree.{
  RevInfo, contains, is_parent, is_leaf, add_revision, Added, added, refused, AddError, empty_revid,
  already_contains, parent_missing,
}

-- Every id is new and not empty, and every parent that is not empty is an older revision: so there
-- are no cycles.
abbrev pub IsTree : List RevInfo → Type 0
IsTree [] = Unit {0}
IsTree (i ∷ t) =
    (str_eq i.id [] ≡ false)
    × (contains i.id t ≡ false)
    × ((str_eq i.parent [] ≡ true) ⊎ (contains i.parent t ≡ true))
    × IsTree t

pub contains-cons :
    (r : Str) (i : RevInfo) (t : List RevInfo)
    → contains r (i ∷ t) ≡ false
    → (str_eq i.id r ≡ false) × (contains r t ≡ false)
unfolding contains
contains-cons r i t c = ground arith

-- What is not in the tree is no revision's parent.
pub absent_parent :
    (r : Str) (t : List RevInfo)
    → IsTree t
    → str_eq r [] ≡ false
    → contains r t ≡ false
    → is_parent r t ≡ false
unfolding is_parent
absent_parent r [] w n c = refl
absent_parent r (i ∷ t) w n c = elim (Bool-cases (str_eq i.parent r)) [
  | inl p ↦
      let e : i.parent ≡ r = (str_eq_iff i.parent r).0 p in
      elim w.2 [
        | inl root ↦ let f : str_eq r [] ≡ true = rw e at root in cc
        | inr old ↦
            let f : contains r t ≡ true = rw e at old in let g = (contains-cons r i t c).1 in cc
      ]
  | inr p ↦ rw p (absent_parent r t w.3 n (contains-cons r i t c).1)
]

pub own_parent : (i : RevInfo) (t : List RevInfo) → IsTree (i ∷ t) → is_parent i.id (i ∷ t) ≡ false
unfolding is_parent
own_parent i t w = elim (Bool-cases (str_eq i.parent i.id)) [
  | inl p ↦
      let e : i.parent ≡ i.id = (str_eq_iff i.parent i.id).0 p in
      elim w.2 [
        | inl root ↦ let f : str_eq i.id [] ≡ true = rw e at root in let g = w.0 in cc
        | inr old ↦ let f : contains i.id t ≡ true = rw e at old in let g = w.1 in cc
      ]
  | inr p ↦ rw p (absent_parent i.id t w.3 w.0 w.1)
]

no_leaf : (c p q : Bool) → c && not (if q then true else p) ≡ (c && not p) && not q
no_leaf true true true = refl
no_leaf true true false = refl
no_leaf true false true = refl
no_leaf true false false = refl
no_leaf false p q = refl

-- The leaves of a tree with one more revision.
is_leaf-cons :
    (i : RevInfo) (t : List RevInfo) (r : Str)
    → IsTree (i ∷ t)
    → is_leaf r (i ∷ t) ≡ (if str_eq i.id r then true else is_leaf r t && not (str_eq i.parent r))
unfolding is_leaf
is_leaf-cons i t r w = elim (Bool-cases (str_eq i.id r)) [
  | inl same ↦
      let e : i.id ≡ r = (str_eq_iff i.id r).0 same in
      let none : is_parent r (i ∷ t) ≡ false =
        ap (λ s. is_parent s (i ∷ t)) (sym e) ∙ own_parent i t w in
      rw (same, none) refl
  | inr other ↦ rw other (no_leaf (contains r t) (is_parent r t) (str_eq i.parent r))
]

-- A new id that is not empty, under no parent or one that is in the tree.
unfoldable pub is_addable : RevInfo → List RevInfo → Bool
is_addable i t =
    not (str_eq i.id []) && not (contains i.id t) && (str_eq i.parent [] || contains i.parent t)

addable_parts :
    (a b c d : Bool)
    → not a && not b && (c || d) ≡ true
    → (a ≡ false) × (b ≡ false) × ((c ≡ true) ⊎ (d ≡ true)) × (not c && not d ≡ false)
addable_parts true b c d h = cc
addable_parts false true c d h = cc
addable_parts false false true d h = (refl, refl, inl refl, refl)
addable_parts false false false true h = (refl, refl, inr refl, refl)
addable_parts false false false false h = cc

refused_by :
    (a b c d : Bool) (t : Added)
    → not a && not b && (c || d) ≡ false
    → (e : AddError) × ((if a
          then refused empty_revid
          else if b
          then refused already_contains
          else if not c && not d
          then refused parent_missing
          else t)
        ≡ refused e)
refused_by true b c d t h = (empty_revid, refl)
refused_by false true c d t h = (already_contains, refl)
refused_by false false true d t h = cc
refused_by false false false true t h = cc
refused_by false false false false t h = (parent_missing, refl)

accepts-IsTree :
    (i : RevInfo) (t : List RevInfo) → IsTree t → is_addable i t ≡ true → IsTree (i ∷ t)
unfolding is_addable
accepts-IsTree i t w h =
    let p =
      addable_parts (str_eq i.id []) (contains i.id t) (str_eq i.parent []) (contains i.parent t)
        h in
    (p.0, p.1, p.2, w)

accepts :
    (i : RevInfo) (t : List RevInfo) → is_addable i t ≡ true → add_revision i t ≡ added (i ∷ t)
unfolding is_addable add_revision
accepts i t h =
    let p =
      addable_parts (str_eq i.id []) (contains i.id t) (str_eq i.parent []) (contains i.parent t)
        h in
    rw (p.0, p.1, p.3) refl

refuses :
    (i : RevInfo) (t : List RevInfo)
    → is_addable i t ≡ false
    → (e : AddError) × (add_revision i t ≡ refused e)
unfolding is_addable add_revision
refuses i t h =
    refused_by (str_eq i.id []) (contains i.id t) (str_eq i.parent []) (contains i.parent t)
      (added (i ∷ t)) h

-- `addRevision` on a tree (every id is new and not empty, and every parent that is not empty is an
-- older revision, so there are no cycles) refuses a revision that has an empty or known id or an
-- unknown parent. It accepts any other, and leaves a tree, whose leaves are the new revision and the
-- earlier leaves without its parent.
pub add_revision-IsTree :
    (i : RevInfo) (t : List RevInfo)
    → IsTree t
    → (is_addable i t ≡ false → (e : AddError) × (add_revision i t ≡ refused e))
      × (is_addable i t ≡ true
          → (add_revision i t ≡ added (i ∷ t))
            × IsTree (i ∷ t)
            × ((r : Str)
                → is_leaf r (i ∷ t)
                  ≡ (if str_eq i.id r then true else is_leaf r t && not (str_eq i.parent r))))
add_revision-IsTree i t w = (
  refuses i t,
  λ h. let w' = accepts-IsTree i t w h in (accepts i t h, w', λ r. is_leaf-cons i t r w'),
)
