-- ===== src/Crud/Conflicts.antt =====
-- The conflicts that db/crud.go refuses where they are not allowed.
use sync_gateway.Prelude.{
  ◌≡◌, refl, ◌⊎◌, inl, inr, Bool, true, false, Option, List, [], ◌∷◌, arith, Str, str_eq,
  str_eq_iff, Bool-cases,
}
use sync_gateway.Prelude.Int.{ℤ, pos, negsuc, ◌+ℤ◌}
use sync_gateway.RevId.{parse_rev_id, ltb_ℤ}
use sync_gateway.RevTree.{RevInfo, is_leaf, contains, add_revision}
use sync_gateway.Document.{Document}
use sync_gateway.Crud.{
  new_info, newest_or, add_revs, is_illegal_conflict, stored, put_existing_rev, put, is_tombstone,
  split_known, is_empty, added_as,
}
use sync_gateway.Crud.Unbranched.{IsUnbranched, legal_cases, added-IsUnbranched}

module _ (scan : Str → Option (ℤ × Str)) where
  unknown_first :
      (r : Str) (older : List Str) (t : List RevInfo)
      → ((split_known t (r ∷ older)).0 ≡ [])
        ⊎ ((split_known t (r ∷ older)).0 ≡ r ∷ (split_known t older).0)
  unfolding split_known
  unknown_first r older t = elim (Bool-cases (contains r t)) [
    | inl k ↦ inl (rw k refl)
    | inr k ↦ inr (rw k refl)
  ]

  -- Where conflicts are not allowed, `PutExistingRev` keeps a document's history a tree of which at
  -- most one leaf is not deleted, with a leaf for its current revision, one that is not deleted if
  -- there is such a leaf. Whatever the new revision, its history and the request, the write is
  -- refused or leaves such a document.
  pub put_existing_rev-IsUnbranched :
      (now : ℤ) (doc : Document) (new_rev : Str) (ancestors : List Str)
      (deleted no_conflicts : Bool)
      → IsUnbranched scan doc
      → IsUnbranched scan (
          stored scan now doc
            (put_existing_rev scan false new_rev ancestors deleted no_conflicts doc))
  unfolding put_existing_rev
  put_existing_rev-IsUnbranched now doc new_rev ancestors deleted nc u =
      let parent = (split_known doc.history (new_rev ∷ ancestors)).1 in
      elim (Bool-cases (ltb_ℤ (parse_rev_id scan new_rev).0 (pos 0))) [
        | inl bad ↦ rw bad (unfold stored in u)
        | inr gen ↦ elim (unknown_first new_rev ancestors doc.history) [
          | inl k ↦ rw (gen, k) (unfold is_empty stored in u)
          | inr k ↦ elim (Bool-cases (is_illegal_conflict false doc parent deleted nc)) [
            | inl refuse ↦ rw (gen, k, refuse) (unfold is_empty stored in u)
            | inr legal ↦
                rw (gen, k, legal)
                  (unfold is_empty in
                    added-IsUnbranched scan now doc parent new_rev
                      (split_known doc.history ancestors).0 deleted u
                      (legal_cases scan doc parent deleted nc legal) gen)
          ]
        ]
      ]

  next_generation : (g : ℤ) → ltb_ℤ g (pos 0) ≡ false → ltb_ℤ (pos 0) (g +ℤ pos 1) ≡ true
  unfolding ◌+ℤ◌
  next_generation (pos n) h = ground arith
  next_generation (negsuc n) h = ground arith

  added_one-IsUnbranched :
      (create_rev_id : ℤ → Str → Str) (now : ℤ) (doc : Document) (g : ℤ) (parent : Str)
      (deleted : Bool)
      → ((g : ℤ) (p : Str)
          → ltb_ℤ (pos 0) g ≡ true
          → ltb_ℤ (parse_rev_id scan (create_rev_id g p)).0 (pos 0) ≡ false)
      → IsUnbranched scan doc
      → (parent ≡ doc.current_rev) ⊎ (doc.current_rev ≡ []) ⊎ (deleted ≡ true)
      → ltb_ℤ g (pos 0) ≡ false
      → IsUnbranched scan (
          stored scan now doc (
            added_as (create_rev_id (g +ℤ pos 1) parent) (
              add_revision
                (new_info (create_rev_id (g +ℤ pos 1) parent) parent deleted)
                doc.history)))
  unfolding add_revs newest_or
  added_one-IsUnbranched create now doc g parent deleted makes u h above =
      added-IsUnbranched scan now doc parent (create (g +ℤ pos 1) parent) [] deleted u h
        (makes (g +ℤ pos 1) parent (next_generation g above))

  -- Where conflicts are not allowed, `Put` too keeps a document's history a tree of which at most one
  -- leaf is not deleted, with such a leaf for its current revision if there is one, whatever the
  -- revision that it is to match. The ids that are made of a generation above 0 have one that is not
  -- negative, and so has the current revision.
  pub put-IsUnbranched :
      (create_rev_id : ℤ → Str → Str) (now : ℤ) (doc : Document) (match_rev : Str) (deleted : Bool)
      → ((g : ℤ) (p : Str)
          → ltb_ℤ (pos 0) g ≡ true
          → ltb_ℤ (parse_rev_id scan (create_rev_id g p)).0 (pos 0) ≡ false)
      → ltb_ℤ (parse_rev_id scan doc.current_rev).0 (pos 0) ≡ false
      → IsUnbranched scan doc
      → IsUnbranched scan (stored scan now doc (put scan create_rev_id false match_rev deleted doc))
  unfolding put
  put-IsUnbranched create now doc match_rev deleted makes known u =
      let add =
        λ (g : ℤ) (parent : Str). added_one-IsUnbranched create now doc g parent deleted makes u in
      let generation = (parse_rev_id scan match_rev).0 in
      elim (Bool-cases (ltb_ℤ generation (pos 0))) [
        | inl bad ↦ rw bad (unfold stored in u)
        | inr gen ↦ elim (Bool-cases (str_eq match_rev [])) [
          | inl unmatched ↦ elim (Bool-cases (str_eq doc.current_rev [])) [
            | inl q ↦
                rw (gen, unmatched, q)
                  (add generation [] (inr (inl ((str_eq_iff doc.current_rev []).0 q))) gen)
            | inr q ↦ elim (Bool-cases (is_tombstone doc.current_rev doc.history)) [
              | inl gone ↦
                  rw (gen, unmatched, q, gone)
                    (add (parse_rev_id scan doc.current_rev).0 doc.current_rev (inl refl) known)
              | inr active ↦ rw (gen, unmatched, q, active) (unfold stored in u)
            ]
          ]
          | inr given ↦ elim (Bool-cases (is_leaf match_rev doc.history)) [
            | inl leaf ↦ elim (Bool-cases (is_illegal_conflict false doc match_rev deleted false)) [
              | inl refuse ↦ rw (gen, given, leaf, refuse) (unfold stored in u)
              | inr legal ↦
                  rw (gen, given, leaf, legal)
                    (add generation match_rev (legal_cases scan doc match_rev deleted false legal)
                      gen)
            ]
            | inr inner ↦ rw (gen, given, inner) (unfold stored in u)
          ]
        ]
      ]
