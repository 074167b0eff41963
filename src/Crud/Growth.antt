-- ===== src/Crud/Growth.antt =====
-- The tree and the leaves after the loop of db/crud.go's `PutExistingRev`.
use sync_gateway.Prelude.{
  ◌+◌, ◌≡◌, ◌≤◌, refl, ap, sym, ◌∙◌, ◌⊎◌, inl, inr, Bool, true, false, Option, List, [], ◌∷◌, arith,
  if◌then◌else◌, Str, str_eq, str_eq_iff, str_eq_refl, Bool-cases,
}
use sync_gateway.Prelude.Int.{ℤ}
use sync_gateway.RevTree.{
  RevInfo, contains, is_parent, add_revision, AddError, Added, added, refused,
}
use sync_gateway.RevTree.Leaves.{IsTree, is_addable, add_revision-IsTree, own_parent, contains-cons}
use sync_gateway.RevTree.Winner.{leaf_infos}
use sync_gateway.RevTree.Winner.Best.{count_active, IsIn}
use sync_gateway.Crud.{new_info, newest_or, add_revs}

-- The revisions but those of an id.
unfoldable pub without_id : Str → List RevInfo → List RevInfo
without_id p [] = []
without_id p (i ∷ l) = let rest = without_id p l in if str_eq i.id p then rest else i ∷ rest

unfoldable has_info : Str → List RevInfo → Bool
has_info r [] = false
has_info r (i ∷ l) = if str_eq i.id r then true else has_info r l

-- A revision more takes its parent's place among the leaves.
pub leaf_infos-cons :
    (i : RevInfo) (tree t : List RevInfo)
    → leaf_infos (i ∷ tree) t ≡ without_id i.parent (leaf_infos tree t)
unfolding leaf_infos is_parent without_id
leaf_infos-cons i tree [] = refl
leaf_infos-cons i tree (j ∷ t) =
    let h = leaf_infos-cons i tree t in
    elim (Bool-cases (str_eq i.parent j.id)) [
      | inl p ↦
          let q : str_eq j.id i.parent ≡ true =
            (str_eq_iff j.id i.parent).1 (sym ((str_eq_iff i.parent j.id).0 p)) in
          elim (Bool-cases (is_parent j.id tree)) [ inl c ↦ rw (p, c) h | inr c ↦ rw (p, c, q) h ]
      | inr p ↦
          let q : str_eq j.id i.parent ≡ false = elim (Bool-cases (str_eq j.id i.parent)) [
            | inl e ↦
                let f : str_eq i.parent j.id ≡ true =
                  (str_eq_iff i.parent j.id).1 (sym ((str_eq_iff j.id i.parent).0 e)) in
                cc
            | inr e ↦ e
          ] in
          elim (Bool-cases (is_parent j.id tree)) [
            | inl c ↦ rw (p, c) h
            | inr c ↦ rw (p, c, q) (ap (λ l. j ∷ l) h)
          ]
    ]

leaf_infos_new :
    (i : RevInfo) (t : List RevInfo)
    → IsTree (i ∷ t)
    → leaf_infos (i ∷ t) (i ∷ t) ≡ i ∷ without_id i.parent (leaf_infos t t)
unfolding leaf_infos
leaf_infos_new i t w = rw (own_parent i t w) (ap (λ l. i ∷ l) (leaf_infos-cons i t t))

without_id_absent : (r : Str) (l : List RevInfo) → has_info r l ≡ false → without_id r l ≡ l
unfolding has_info without_id
without_id_absent r [] h = refl
without_id_absent r (i ∷ l) h = elim (Bool-cases (str_eq i.id r)) [
  | inl e ↦ absurd (ground (arith, e, h))
  | inr e ↦ rw e (ap (λ z. i ∷ z) (without_id_absent r l (ground (arith, e, h))))
]

-- What is not in the tree is not among its leaves.
has_info-leaf_infos :
    (r : Str) (tree t : List RevInfo)
    → contains r t ≡ false
    → has_info r (leaf_infos tree t) ≡ false
unfolding has_info leaf_infos contains
has_info-leaf_infos r tree [] h = refl
has_info-leaf_infos r tree (i ∷ t) h = let k = has_info-leaf_infos r tree t in ground arith

has_info-without_id :
    (r p : Str) (l : List RevInfo) → has_info r l ≡ false → has_info r (without_id p l) ≡ false
unfolding has_info without_id
has_info-without_id r p [] h = refl
has_info-without_id r p (i ∷ l) h = let k = has_info-without_id r p l in ground arith

pub count_active-without_id :
    (scan : Str → Option (ℤ × Str)) (p : Str) (l : List RevInfo)
    → count_active scan (without_id p l) ≤ count_active scan l
unfolding count_active without_id
count_active-without_id scan p [] = omega arith
count_active-without_id scan p (i ∷ l) = let k = count_active-without_id scan p l in ground arith

-- Without one that is active, one less is active.
pub count_active_taken :
    (scan : Str → Option (ℤ × Str)) (b : RevInfo) (l : List RevInfo)
    → IsIn scan b l
    → b.deleted ≡ false
    → count_active scan (without_id b.id l) + 1 ≤ count_active scan l
unfolding count_active without_id
count_active_taken scan b [] m a = elim m [ ]
count_active_taken scan b (i ∷ l) m a = elim m [
  | inl e ↦
      let k = count_active-without_id scan b.id l in
      let q : str_eq i.id b.id ≡ true = (str_eq_iff i.id b.id).1 (ap (λ z. z.id) (sym e)) in
      let d : i.deleted ≡ false = ap (λ z. z.deleted) (sym e) ∙ a in rw (q, d) (omega arith)
  | inr m' ↦ let k = count_active_taken scan b l m' a in ground arith
]

pub added_same : {t u : List RevInfo} → added t ≡ added u → t ≡ u
added_same e = cc

pub not_refused : (e : AddError) (t : List RevInfo) → refused e ≡ added t → ⊥
not_refused e t h = cc

add_revision-added :
    (i : RevInfo) (t t' : List RevInfo)
    → IsTree t
    → add_revision i t ≡ added t'
    → (is_addable i t ≡ true) × (t' ≡ i ∷ t)
add_revision-added i t t' w h = elim (Bool-cases (is_addable i t)) [
  | inl q ↦ (q, added_same (sym h ∙ ((add_revision-IsTree i t w).1 q).0))
  | inr q ↦ let r = (add_revision-IsTree i t w).0 q in absurd (not_refused r.0 t' (sym r.1 ∙ h))
]

pub Added-cases :
    (r : Added) → ((e : AddError) × (r ≡ refused e)) ⊎ ((t : List RevInfo) × (r ≡ added t))
Added-cases (refused e) = inl (e, refl)
Added-cases (added t) = inr (t, refl)

-- The leaves of a tree to which a line of revisions was added under a parent.
unfoldable pub grown_leaves : Bool → Str → List Str → List RevInfo → List RevInfo
grown_leaves deleted parent [] l = l
grown_leaves deleted parent (r ∷ older) l =
    new_info r (newest_or parent older) deleted ∷ without_id parent l

-- The newest of the revisions has an id, which is not in the tree.
abbrev pub IsFresh : List Str → List RevInfo → Type 0
IsFresh [] t = Unit {0}
IsFresh (r ∷ older) t = (str_eq r [] ≡ false) × (contains r t ≡ false)

pub record Grown (deleted : Bool) (parent : Str) (revs : List Str) (t t' : List RevInfo)
    : Type 0 where
  pub tree : IsTree t'
  pub kept : (r : Str) → contains r t' ≡ false → contains r t ≡ false
  pub leaves : leaf_infos t' t' ≡ grown_leaves deleted parent revs (leaf_infos t t)
  pub fresh : IsFresh revs t

without_newest :
    (parent : Str) (older : List Str) (t : List RevInfo)
    → IsFresh older t
    → without_id (newest_or parent older) (grown_leaves false parent older (leaf_infos t t))
      ≡ without_id parent (leaf_infos t t)
unfolding newest_or grown_leaves new_info without_id
without_newest parent [] t f = refl
without_newest parent (r ∷ older) t f =
    let a = has_info-without_id r parent (leaf_infos t t) (has_info-leaf_infos r t t f.1) in
    rw (str_eq_refl r) (without_id_absent r (without_id parent (leaf_infos t t)) a)

pub add_revs-Grown :
    (deleted : Bool) (parent : Str) (revs : List Str) (t t' : List RevInfo)
    → IsTree t
    → add_revs deleted parent revs t ≡ added t'
    → Grown deleted parent revs t t'
unfolding add_revs grown_leaves new_info newest_or
add_revs-Grown deleted parent [] t t' w h =
    rw (sym (added_same h)) (record { tree = w; kept = λ r. λ c. c; leaves = refl; fresh = tt })
add_revs-Grown deleted parent (r ∷ older) t t' w h =
    let ih = add_revs-Grown false parent older t in
    let i = new_info r (newest_or parent older) deleted in
    elim (Added-cases (add_revs false parent older t)) [
      | inl (e, q) ↦ absurd (not_refused e t' (rw q at h))
      | inr (u, q) ↦
          let g = ih u w q in
          let (ok, e) = add_revision-added i u t' g.tree (rw q at h) in
          let tree = ((add_revision-IsTree i u g.tree).1 ok).1 in
          let kept : (s : Str) → contains s (i ∷ u) ≡ false → contains s t ≡ false =
            λ s. λ c. g.kept s (contains-cons s i u c).1 in
          rw e (record {
            tree = tree;
            kept = kept;
            leaves =
                leaf_infos_new i u tree
                ∙ ap (λ l. i ∷ without_id (newest_or parent older) l) g.leaves
                ∙ ap (λ l. i ∷ l) (without_newest parent older t g.fresh);
            fresh = (tree.0, g.kept r tree.1);
          })
    ]
