-- ===== src/RevTree/Ancestors.antt =====
-- The walks up a revision tree in db/revtree.go, against the line of ancestors of a revision.
use sync_gateway.Prelude.{
  ℕ, zero, suc, ◌-◌, ◌≤◌, ◌≡◌, refl, ap, sym, ◌∙◌, inl, inr, true, false, some, List, [], ◌∷◌,
  arith, if◌then◌else◌, ◌==◌, Str, str_eq, str_eq_iff, str_eq_refl, length, Bool-cases,
  Option-cases,
}
use sync_gateway.RevTree.{
  RevInfo, get_info, is_parent, is_among, find_ancestor_loop, find_ancestor_from_set,
  get_history_loop, get_history,
}
use sync_gateway.RevTree.Leaves.{IsTree, absent_parent, own_parent}

-- A revision and its ancestors, from the newest on. Of a revision that is not in the tree only the
-- id is known.
unfoldable pub lineage : Str → List RevInfo → List Str
lineage revid [] = if str_eq revid [] then [] else revid ∷ []
lineage revid (i ∷ t) = if str_eq i.id revid then revid ∷ lineage i.parent t else lineage revid t

-- The first of the ids that is in a set; `[]` if none is.
unfoldable pub first_among : List Str → List Str → Str
first_among ancestors [] = []
first_among ancestors (r ∷ rs) = if is_among r ancestors then r else first_among ancestors rs

str_eq_comm : (a b : Str) → str_eq a b ≡ false → str_eq b a ≡ false
str_eq_comm a b h = elim (Bool-cases (str_eq b a)) [
  | inl same ↦
      let e = (str_eq_iff b a).0 same in let f : true ≡ false = sym (rw e (str_eq_refl a)) ∙ h in cc
  | inr other ↦ other
]

parent_of_info :
    (r p : Str) (t : List RevInfo) (j : RevInfo)
    → is_parent p t ≡ false
    → get_info r t ≡ some j
    → str_eq j.parent p ≡ false
unfolding is_parent get_info
parent_of_info r p [] j n g = cc
parent_of_info r p (i ∷ t) j n g = elim (Bool-cases (str_eq i.parent p)) [
  | inl same ↦ let e : true ≡ false = rw same at n in cc
  | inr other ↦
      let m : is_parent p t ≡ false = rw other at n in
      elim (Bool-cases (str_eq i.id r)) [
        | inl here ↦
            let e : some i ≡ some j = rw here at g in
            let k : i ≡ j = cc in ap (λ (x : RevInfo). str_eq x.parent p) (sym k) ∙ other
        | inr there ↦ parent_of_info r p t j m (rw there at g)
      ]
]

module _ (ancestors : List Str) (i : RevInfo) (t : List RevInfo) (w : IsTree (i ∷ t)) where
  own : is_parent i.id t ≡ false
  own = absent_parent i.id t w.3 w.0 w.1

  -- A walk that starts below the newest revision does not meet it.
  find_ancestor_loop-cons :
      (fuel : ℕ) (r : Str)
      → str_eq i.id r ≡ false
      → find_ancestor_loop fuel (i ∷ t) r ancestors ≡ find_ancestor_loop fuel t r ancestors
  unfolding find_ancestor_loop
  find_ancestor_loop-cons zero r n = refl
  find_ancestor_loop-cons (suc fuel) r n = elim (Bool-cases (str_eq r [])) [
    | inl end ↦ rw end refl
    | inr going ↦ elim (Bool-cases (is_among r ancestors)) [
      | inl found ↦ rw (going, found) refl
      | inr more ↦ elim (Option-cases (get_info r t)) [
        | inl unknown ↦ rw (going, more, n, unknown) refl
        | inr (j, e) ↦
            rw (going, more, n, e)
              (find_ancestor_loop-cons fuel j.parent
                (str_eq_comm j.parent i.id (parent_of_info r i.id t j own e)))
      ]
    ]
  ]

  get_history_loop-cons :
      (fuel room : ℕ) (r : Str)
      → str_eq i.id r ≡ false
      → get_history_loop fuel room (i ∷ t) r ≡ get_history_loop fuel room t r
  unfolding get_history_loop
  get_history_loop-cons zero room r n = refl
  get_history_loop-cons (suc fuel) room r n = elim (Bool-cases (str_eq r [])) [
    | inl end ↦ rw end refl
    | inr going ↦ elim (Option-cases (get_info r t)) [
      | inl unknown ↦ rw (going, n, unknown) refl
      | inr (j, e) ↦
          rw
            (
              going,
              n,
              e,
              get_history_loop-cons fuel (room - 1) j.parent
                  (str_eq_comm j.parent i.id (parent_of_info r i.id t j own e)),
            )
            refl
    ]
  ]

-- The first step of a walk from the newest revision.
module _ (i : RevInfo) (t : List RevInfo) (w : IsTree (i ∷ t)) (r : Str)
    (here : str_eq i.id r ≡ true) where
  named : str_eq r [] ≡ false
  named = ap (λ s. str_eq s []) (sym ((str_eq_iff i.id r).0 here)) ∙ w.0

  other_parent : str_eq i.id i.parent ≡ false
  other_parent = str_eq_comm i.parent i.id (not_parent (own_parent i t w))
    where
      not_parent : is_parent i.id (i ∷ t) ≡ false → str_eq i.parent i.id ≡ false
      not_parent h =
          unfold is_parent in
          elim (Bool-cases (str_eq i.parent i.id)) [
            | inl same ↦ let e : true ≡ false = rw same at h in cc
            | inr other ↦ other
          ]

  find_ancestor_loop-here :
      (fuel : ℕ) (ancestors : List Str)
      → find_ancestor_loop (suc fuel) (i ∷ t) r ancestors
        ≡ (if is_among r ancestors then r else find_ancestor_loop fuel t i.parent ancestors)
  unfolding get_info
  find_ancestor_loop-here fuel ancestors =
      unfold find_ancestor_loop in
      rw (named, here)
        (rw (find_ancestor_loop-cons ancestors i t w fuel i.parent other_parent) refl)

  get_history_loop-here :
      (fuel room : ℕ)
      → get_history_loop (suc fuel) (suc room) (i ∷ t) r
        ≡ (r ∷ (get_history_loop fuel room t i.parent).0, (get_history_loop fuel room t i.parent).1)
  unfolding get_info
  get_history_loop-here fuel room =
      let some_room : (suc room == 0) ≡ false = ground arith in
      let less : suc room - 1 ≡ room = omega arith in
      unfold get_history_loop in
      rw (named, here, some_room, less)
        (rw (get_history_loop-cons [] i t w fuel room i.parent other_parent) refl)

find_ancestor_loop_lem :
    (ancestors : List Str) (t : List RevInfo) (fuel : ℕ) (r : Str)
    → IsTree t
    → length t ≤ fuel
    → find_ancestor_loop (suc fuel) t r ancestors ≡ first_among ancestors (lineage r t)
unfolding lineage first_among
find_ancestor_loop_lem ancestors [] fuel r w le =
    unfold find_ancestor_loop get_info in
    elim (Bool-cases (str_eq r [])) [ inl end ↦ rw end refl | inr going ↦ rw going refl ]
find_ancestor_loop_lem ancestors (i ∷ t) zero r w le = absurd (omega arith)
find_ancestor_loop_lem ancestors (i ∷ t) (suc fuel) r w le = elim (Bool-cases (str_eq i.id r)) [
  | inl here ↦
      rw
        (
          find_ancestor_loop-here i t w r here (suc fuel) ancestors,
          here,
          find_ancestor_loop_lem ancestors t fuel i.parent w.3 (omega arith),
        )
        refl
  | inr older ↦
      rw (find_ancestor_loop-cons ancestors i t w (suc (suc fuel)) r older, older)
        (find_ancestor_loop_lem ancestors t (suc fuel) r w.3 (omega arith))
]

-- `findAncestorFromSet` on a tree ends within its fuel, and gives the first of a revision and its
-- ancestors, from the newest on, that is in the set, or the empty id if none is.
pub find_ancestor_from_set_lem :
    (t : List RevInfo) (r : Str) (ancestors : List Str)
    → IsTree t
    → find_ancestor_from_set t r ancestors ≡ first_among ancestors (lineage r t)
unfolding find_ancestor_from_set
find_ancestor_from_set_lem t r ancestors w =
    find_ancestor_loop_lem ancestors t (length t) r w (omega arith)

-- The revisions from one up to its root, those that are in the tree.
unfoldable pub ancestry : Str → List RevInfo → List Str
ancestry revid [] = []
ancestry revid (i ∷ t) = if str_eq i.id revid then revid ∷ ancestry i.parent t else ancestry revid t

get_history_loop_lem :
    (t : List RevInfo) (fuel room : ℕ) (r : Str)
    → IsTree t
    → length t ≤ fuel
    → length t ≤ room
    → get_history_loop (suc fuel) room t r ≡ (ancestry r t, false)
unfolding ancestry
get_history_loop_lem [] fuel room r w le lr =
    unfold get_history_loop get_info in
    elim (Bool-cases (str_eq r [])) [ inl end ↦ rw end refl | inr going ↦ rw going refl ]
get_history_loop_lem (i ∷ t) zero room r w le lr = absurd (omega arith)
get_history_loop_lem (i ∷ t) (suc fuel) zero r w le lr = absurd (omega arith)
get_history_loop_lem (i ∷ t) (suc fuel) (suc room) r w le lr = elim (Bool-cases (str_eq i.id r)) [
  | inl here ↦
      rw
        (
          get_history_loop-here i t w r here (suc fuel) room,
          here,
          get_history_loop_lem t fuel room i.parent w.3 (omega arith) (omega arith),
        )
        refl
  | inr older ↦
      rw (get_history_loop-cons [] i t w (suc (suc fuel)) (suc room) r older, older)
        (get_history_loop_lem t (suc fuel) (suc room) r w.3 (omega arith) (omega arith))
]

-- `getHistory` on a tree ends within its fuel, reports no cycle, and gives the revision and its
-- ancestors up to a root, from the newest on; of an unknown revision it gives none.
pub get_history_lem :
    (t : List RevInfo) (r : Str) → IsTree t → get_history r t ≡ (ancestry r t, false)
unfolding get_history
get_history_lem t r w = get_history_loop_lem t (length t) (length t) r w (omega arith) (omega arith)
