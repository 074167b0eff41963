-- ===== src/Crud/Unbranched.antt =====
-- Documents with at most one leaf that is not deleted, when db/crud.go adds revisions to them.
use sync_gateway.Prelude.{
  ℕ, ◌+◌, ◌≡◌, ◌≤◌, refl, ap, sym, ◌∙◌, ◌⊎◌, inl, inr, Bool, true, false, Option, List, [], ◌∷◌,
  arith, if◌then◌else◌, Str, str_eq, str_eq_iff, Bool-cases, Option-cases,
}
use sync_gateway.Prelude.Int.{ℤ, pos, negsuc}
use sync_gateway.RevId.{parse_rev_id, ltb_ℤ}
use sync_gateway.RevTree.{RevInfo, is_parent}
use sync_gateway.RevTree.Leaves.{IsTree}
use sync_gateway.RevTree.Winner.{leaf_infos}
use sync_gateway.RevTree.Winner.Best.{count_active, IsIn, NoneAbove, outranks, winning_revision_lem}
use sync_gateway.Document.{Document, set_flag}
use sync_gateway.Crud.{
  new_info, newest_or, add_revs, is_illegal_conflict, update_current, stored, added_as,
}
use sync_gateway.Crud.Growth.{
  without_id, grown_leaves, add_revs-Grown, count_active-without_id, count_active_taken,
  Added-cases,
}

module _ (scan : Str → Option (ℤ × Str)) where
  -- A tree without leaves has no current revision. Of any other, it is a leaf, one that is not
  -- deleted if there is such a leaf.
  abbrev pub IsCurrent : Str → List RevInfo → Type 0
  IsCurrent current l =
      ((l ≡ []) × (str_eq current [] ≡ true))
      ⊎ ((b : RevInfo) × (b.id ≡ current)
          × IsIn scan b l
          × ((b.deleted ≡ false) ⊎ (count_active scan l ≡ 0)))

  -- The history is a tree, the current revision is one that it can be, and at most one leaf is not
  -- deleted.
  abbrev pub IsUnbranched : Document → Type 0
  IsUnbranched doc =
      IsTree doc.history
      × IsCurrent doc.current_rev (leaf_infos doc.history doc.history)
      × (count_active scan (leaf_infos doc.history doc.history) ≤ 1)

  nonempty_leaf :
      (b : RevInfo) (tree t : List RevInfo)
      → IsTree t
      → IsIn scan b (leaf_infos tree t)
      → str_eq b.id [] ≡ false
  unfolding leaf_infos
  nonempty_leaf b tree [] w m = elim m [ ]
  nonempty_leaf b tree (i ∷ t) w m = elim (Bool-cases (is_parent i.id tree)) [
    | inl p ↦ nonempty_leaf b tree t w.3 (rw p at m)
    | inr p ↦
        let m' : (b ≡ i) ⊎ IsIn scan b (leaf_infos tree t) = rw p at m in
        elim m' [ inl e ↦ rw e w.0 | inr n ↦ nonempty_leaf b tree t w.3 n ]
  ]

  pub legal_cases :
      (doc : Document) (parent : Str) (deleted no_conflicts : Bool)
      → is_illegal_conflict false doc parent deleted no_conflicts ≡ false
      → (parent ≡ doc.current_rev) ⊎ (doc.current_rev ≡ []) ⊎ (deleted ≡ true)
  unfolding is_illegal_conflict
  legal_cases doc parent deleted nc h = elim (Bool-cases (str_eq parent doc.current_rev)) [
    | inl p ↦ inl ((str_eq_iff parent doc.current_rev).0 p)
    | inr p ↦ elim (Bool-cases (str_eq doc.current_rev [])) [
      | inl q ↦ inr (inl ((str_eq_iff doc.current_rev []).0 q))
      | inr q ↦ inr (inr (ground arith))
    ]
  ]

  count_empty :
      (parent : Str) (l : List RevInfo) → l ≡ [] → count_active scan (without_id parent l) ≡ 0
  unfolding without_id count_active
  count_empty parent l e = rw e refl

  at_most : (deleted : Bool) (n : ℕ) → n ≡ 0 → n + (if deleted then 0 else 1) ≤ 1
  at_most true n e = omega arith
  at_most false n e = omega arith

  -- The leaves that are not deleted, when a revision takes its parent's place.
  count_grown :
      (doc : Document) (parent : Str) (deleted : Bool)
      → IsUnbranched doc
      → (parent ≡ doc.current_rev) ⊎ (doc.current_rev ≡ []) ⊎ (deleted ≡ true)
      → count_active scan (without_id parent (leaf_infos doc.history doc.history))
          + (if deleted then 0 else 1)
        ≤ 1
  unfolding str_eq
  count_grown doc parent deleted (w, c, s) h =
      let l = leaf_infos doc.history doc.history in
      let n = count_active scan (without_id parent l) in
      let k = count_active-without_id scan parent l in
      elim c [
        | inl empty ↦ at_most deleted n (count_empty parent l empty.0)
        | inr (b, e, m, d) ↦ elim h [
          | inl p ↦ elim d [
            | inl active ↦
                let j : count_active scan (without_id b.id l) + 1 ≤ count_active scan l =
                  count_active_taken scan b l m active in
                let q : n ≡ count_active scan (without_id b.id l) =
                  ap (λ z. count_active scan (without_id z l)) (p ∙ sym e) in
                at_most deleted n (omega (arith, j, q, s))
            | inr gone ↦ at_most deleted n (omega (arith, k, gone))
          ]
          | inr (inl q) ↦
              let f = nonempty_leaf b doc.history doc.history w m in
              let g : str_eq b.id [] ≡ true = (str_eq_iff b.id []).1 (e ∙ q) in cc
          | inr (inr q) ↦ rw q (omega (arith, k, s))
        ]
      ]

  none_active :
      (best : RevInfo) (l : List RevInfo)
      → NoneAbove scan best l
      → best.deleted ≡ true
      → count_active scan l ≡ 0
  unfolding count_active outranks
  none_active best [] n d = refl
  none_active best (i ∷ l) n d = let k = none_active best l n.1 d in ground arith

  count_new :
      (r parent p : Str) (deleted : Bool) (l : List RevInfo)
      → count_active scan (new_info r parent deleted ∷ without_id p l)
        ≡ count_active scan (without_id p l) + (if deleted then 0 else 1)
  unfolding count_active new_info
  count_new r parent p true l = omega arith
  count_new r parent p false l = refl

  -- A new leaf that takes its parent's place in a tree, with the current revision picked again.
  grown-IsUnbranched :
      (now : ℤ) (doc : Document) (parent r p : Str) (deleted : Bool) (t : List RevInfo)
      → IsUnbranched doc
      → (parent ≡ doc.current_rev) ⊎ (doc.current_rev ≡ []) ⊎ (deleted ≡ true)
      → IsTree t
      → leaf_infos t t
        ≡ new_info r p deleted ∷ without_id parent (leaf_infos doc.history doc.history)
      → ltb_ℤ (pos 0) (parse_rev_id scan r).0 ≡ true
      → IsUnbranched (update_current scan now t r doc)
  unfolding update_current set_flag
  grown-IsUnbranched now doc parent r p deleted t u h w e g =
      let l = without_id parent (leaf_infos doc.history doc.history) in
      let k = count_grown doc parent deleted u h in
      let j = count_new r p parent deleted (leaf_infos doc.history doc.history) in
      let (best, is_best, m, above, branched, twice) =
        winning_revision_lem scan t l (new_info r p deleted) e (unfold new_info in g) in
      let d : (best.deleted ≡ false) ⊎ (count_active scan (leaf_infos t t) ≡ 0) =
        elim (Bool-cases best.deleted) [
          | inl gone ↦ inr (rw e (none_active best (new_info r p deleted ∷ l) above gone))
          | inr active ↦ inl active
        ] in
      (w, inr (best, sym is_best, rw e m, d), rw e (omega (arith, k, j)))

  above_zero : (g : ℤ) → ltb_ℤ g (pos 1) ≡ false → ltb_ℤ (pos 0) g ≡ true
  above_zero (pos n) h = ground arith
  above_zero (negsuc n) h = ground arith

  negative : ltb_ℤ (negsuc 0) (pos 0) ≡ false → ⊥
  negative h = ground arith

  gen_positive :
      (r : Str)
      → str_eq r [] ≡ false
      → ltb_ℤ (parse_rev_id scan r).0 (pos 0) ≡ false
      → ltb_ℤ (pos 0) (parse_rev_id scan r).0 ≡ true
  unfolding parse_rev_id
  gen_positive r n g = elim (Option-cases (scan r)) [
    | inl e ↦ absurd (ground (arith, g, n, e))
    | inr ((x, id), e) ↦ elim (Bool-cases (ltb_ℤ x (pos 1))) [
      | inl low ↦ absurd (negative (rw (n, e, low) at g))
      | inr high ↦ rw (n, e, high) (above_zero x high)
    ]
  ]

  -- What a callback that adds a line of revisions leaves.
  pub added-IsUnbranched :
      (now : ℤ) (doc : Document) (parent r : Str) (older : List Str) (deleted : Bool)
      → IsUnbranched doc
      → (parent ≡ doc.current_rev) ⊎ (doc.current_rev ≡ []) ⊎ (deleted ≡ true)
      → ltb_ℤ (parse_rev_id scan r).0 (pos 0) ≡ false
      → IsUnbranched
          (stored scan now doc (added_as r (add_revs deleted parent (r ∷ older) doc.history)))
  added-IsUnbranched now doc parent r older deleted u h g =
      elim (Added-cases (add_revs deleted parent (r ∷ older) doc.history)) [
        | inl (e, q) ↦ rw q (unfold stored added_as in u)
        | inr (t, q) ↦
            let w = add_revs-Grown deleted parent (r ∷ older) doc.history t u.0 q in
            rw q (
              unfold added_as stored in
              grown-IsUnbranched now doc parent r (newest_or parent older) deleted t u h w.tree
                (w.leaves ∙ unfold grown_leaves in refl) (gen_positive r w.fresh.0 g))
      ]
