-- ===== src/RevTree/Winner/Best.antt =====
-- The revision that db/revtree.go's `winningRevision` picks.
use sync_gateway.Prelude.{
  ℕ, ◌+◌, ◌≡◌, refl, ◌∙◌, Bool, true, false, not, ◌&&◌, ◌||◌, Option, List, [], ◌∷◌, arith, ltb,
  if◌then◌else◌, Str, str_eq, inl, inr, ◌⊎◌, Bool-cases, length,
}
use sync_gateway.Prelude.Int.{ℤ, pos}
use sync_gateway.RevId.{ltb_ℤ, parse_rev_id, compare_parsed, compare_rev_ids}
use sync_gateway.RevId.Order.{Above, compare_parsed_trans, compared_self}
use sync_gateway.RevTree.{RevInfo}
use sync_gateway.RevTree.Winner.{
  Winner, leaf_infos, takes_over, visit_leaf, visit_leaves, winning_revision, is_same,
}

module _ (scan : Str → Option (ℤ × Str)) where
  -- A revision goes before another if only the other is deleted, or if both are or neither is and
  -- its id is above the other's.
  unfoldable pub outranks : RevInfo → RevInfo → Bool
  outranks i j =
      (not i.deleted && j.deleted)
      || (is_same i.deleted j.deleted && ltb_ℤ (pos 0) (compare_rev_ids scan i.id j.id))

  compared-Above :
      (i j : Str)
      → ltb_ℤ (pos 0) (compare_rev_ids scan i j) ≡ true
      → Above (parse_rev_id scan i) (parse_rev_id scan j)
  unfolding compare_rev_ids compare_parsed
  compared-Above i j h = ground arith

  ids_trans :
      (i j k : Str)
      → ltb_ℤ (pos 0) (compare_rev_ids scan i j) ≡ true
      → ltb_ℤ (pos 0) (compare_rev_ids scan j k) ≡ true
      → ltb_ℤ (pos 0) (compare_rev_ids scan i k) ≡ true
  unfolding compare_rev_ids
  ids_trans i j k h l =
      rw
        (compare_parsed_trans (parse_rev_id scan i) (parse_rev_id scan j) (parse_rev_id scan k)
          (compared-Above i j h) (compared-Above j k l))
        refl

  outranks_trans :
      (i j k : RevInfo) → outranks i j ≡ true → outranks j k ≡ true → outranks i k ≡ true
  unfolding outranks is_same
  outranks_trans i j k h l = ground (arith, ids_trans i.id j.id k.id)

  outranks_irrefl : (i : RevInfo) → outranks i i ≡ false
  unfolding outranks is_same compare_rev_ids
  outranks_irrefl i = rw (compared_self (parse_rev_id scan i.id)) (ground arith)

  -- No revision of the list goes before this one.
  abbrev pub NoneAbove : RevInfo → List RevInfo → Type 0
  NoneAbove b [] = Unit {0}
  NoneAbove b (i ∷ l) = (outranks i b ≡ false) × NoneAbove b l

  abbrev pub IsIn : RevInfo → List RevInfo → Type 0
  IsIn c [] = ⊥
  IsIn c (i ∷ l) = (c ≡ i) ⊎ IsIn c l

  -- The callback has this revision for its winner.
  abbrev Leads : RevInfo → Winner → Type 0
  Leads b w = (w.winner ≡ b.id) × (w.winner_exists ≡ not b.deleted)

  unfoldable pub count_active : List RevInfo → ℕ
  count_active [] = 0
  count_active (i ∷ l) = if i.deleted then count_active l else count_active l + 1

  takes_over-outranks :
      (i b : RevInfo) (w : Winner) → Leads b w → takes_over scan i w ≡ outranks i b
  unfolding takes_over outranks is_same
  takes_over-outranks i b w l =
      rw (l.0, l.1) (same i.deleted b.deleted (ltb_ℤ (pos 0) (compare_rev_ids scan i.id b.id)))
    where
      same :
          (d e c : Bool)
          → (not d && not (not e)) || (is_same (not d) (not e) && c)
            ≡ (not d && e) || (is_same d e && c)
      same true true c = refl
      same true false c = refl
      same false true c = refl
      same false false c = refl

  NoneAbove-higher :
      (i b : RevInfo) (l : List RevInfo) → outranks i b ≡ true → NoneAbove b l → NoneAbove i l
  NoneAbove-higher i b [] h n = tt
  NoneAbove-higher i b (j ∷ l) h n =
      (ground (arith, outranks_trans j i b), NoneAbove-higher i b l h n.1)

  not_above : (i b : RevInfo) → outranks i b ≡ true → outranks b i ≡ false
  not_above i b h = ground (arith, outranks_trans b i b, outranks_irrefl b)

  taken : (i b : RevInfo) (w : Winner) → takes_over scan i w ≡ true → Leads i (visit_leaf scan w i)
  unfolding visit_leaf
  taken i b w h = rw h (refl, refl)

  kept :
      (i b : RevInfo) (w : Winner)
      → Leads b w
      → takes_over scan i w ≡ false
      → Leads b (visit_leaf scan w i)
  unfolding visit_leaf
  kept i b w l h = rw h l

  visit_leaf-count :
      (w : Winner) (i : RevInfo)
      → ((visit_leaf scan w i).leaf_count ≡ w.leaf_count + 1)
        × ((visit_leaf scan w i).active_leaf_count
            ≡ (if i.deleted then w.active_leaf_count else w.active_leaf_count + 1))
  unfolding visit_leaf
  visit_leaf-count w i = elim (Bool-cases (takes_over scan i w)) [
    | inl h ↦ rw h (refl, refl)
    | inr h ↦ rw h (refl, refl)
  ]

  -- What a walk over more leaves comes to, after some were seen.
  record Picks (b : RevInfo) (seen leaves : List RevInfo) (r : Winner) : Type 0 where
    best : RevInfo
    leads : Leads best r
    above_seen : NoneAbove best seen
    above_leaves : NoneAbove best leaves
    from : (best ≡ b) ⊎ IsIn best leaves

  visit_leaves-Picks :
      (leaves seen : List RevInfo) (b : RevInfo) (w : Winner)
      → Leads b w
      → NoneAbove b seen
      → Picks b seen leaves (visit_leaves scan w leaves)
  unfolding visit_leaves
  visit_leaves-Picks [] seen b w l n = record {
    best = b;
    leads = l;
    above_seen = n;
    above_leaves = tt;
    from = inl refl;
  }
  visit_leaves-Picks (i ∷ leaves) seen b w l n = elim (Bool-cases (outranks i b)) [
    | inl over ↦
        let p =
          visit_leaves-Picks leaves (i ∷ seen) i (visit_leaf scan w i)
            (taken i b w (takes_over-outranks i b w l ∙ over))
            (outranks_irrefl i, NoneAbove-higher i b seen over n) in
        record {
          best = p.best;
          leads = p.leads;
          above_seen = p.above_seen.1;
          above_leaves = (p.above_seen.0, p.above_leaves);
          from = elim p.from [ inl e ↦ inr (inl e) | inr m ↦ inr (inr m) ];
        }
    | inr stays ↦
        let p =
          visit_leaves-Picks leaves (i ∷ seen) b (visit_leaf scan w i)
            (kept i b w l (takes_over-outranks i b w l ∙ stays)) (stays, n) in
        record {
          best = p.best;
          leads = p.leads;
          above_seen = p.above_seen.1;
          above_leaves = (p.above_seen.0, p.above_leaves);
          from = elim p.from [ inl e ↦ inl e | inr m ↦ inr (inr m) ];
        }
  ]

  visit_leaves-count :
      (leaves : List RevInfo) (w : Winner)
      → ((visit_leaves scan w leaves).leaf_count ≡ w.leaf_count + length leaves)
        × ((visit_leaves scan w leaves).active_leaf_count
            ≡ w.active_leaf_count + count_active leaves)
  unfolding visit_leaves count_active
  visit_leaves-count [] w = omega arith
  visit_leaves-count (i ∷ leaves) w =
      ground (arith, visit_leaves-count leaves (visit_leaf scan w i), visit_leaf-count w i)

  abbrev none_yet : Winner
  none_yet = record { winner = []; winner_exists = false; leaf_count = 0; active_leaf_count = 0 }

  above_empty : (x : ℤ × Str) → ltb_ℤ (pos 0) x.0 ≡ true → compare_parsed x (pos 0, []) ≡ pos 1
  unfolding compare_parsed
  above_empty (g, s) h = rw h refl

  above_nothing :
      (id : Str)
      → ltb_ℤ (pos 0) (parse_rev_id scan id).0 ≡ true
      → compare_rev_ids scan id [] ≡ pos 1
  unfolding compare_rev_ids str_eq
  above_nothing id g = above_empty (parse_rev_id scan id) g

  first_takes_over :
      (i : RevInfo)
      → ltb_ℤ (pos 0) (parse_rev_id scan i.id).0 ≡ true
      → takes_over scan i none_yet ≡ true
  unfolding takes_over
  first_takes_over i g = rw (above_nothing i.id g) (either i.deleted)
    where
      either :
          (d : Bool)
          → (not d && not false) || (is_same (not d) false && ltb_ℤ (pos 0) (pos 1)) ≡ true
      either true = unfold is_same in refl
      either false = refl

  -- Of a tree with a leaf, the leaf that comes first having a generation above 0, `winningRevision`
  -- picks a leaf that no leaf goes before: no leaf that is not deleted if it is deleted, and no leaf
  -- with a higher generation, or the same one and a higher digest, that is deleted as it is. The tree
  -- is branched if it has more than one leaf, and in conflict if more than one is not deleted.
  pub winning_revision_lem :
      (t leaves : List RevInfo) (i : RevInfo)
      → leaf_infos t t ≡ i ∷ leaves
      → ltb_ℤ (pos 0) (parse_rev_id scan i.id).0 ≡ true
      → (best : RevInfo) × ((winning_revision scan t).0 ≡ best.id)
        × IsIn best (i ∷ leaves)
        × NoneAbove best (i ∷ leaves)
        × ((winning_revision scan t).1 ≡ ltb 1 (length (i ∷ leaves)))
        × ((winning_revision scan t).2 ≡ ltb 1 (count_active (i ∷ leaves)))
  unfolding winning_revision visit_leaves
  winning_revision_lem t leaves i e g =
      let p =
        visit_leaves-Picks leaves (i ∷ []) i (visit_leaf scan none_yet i)
          (taken i i none_yet (first_takes_over i g)) (outranks_irrefl i, tt) in
      let n = visit_leaves-count (i ∷ leaves) none_yet in
      (
        p.best,
        rw e p.leads.0,
        p.from,
        (p.above_seen.0, p.above_leaves),
        rw e (ground (arith, n)),
        rw e (ground (arith, n)),
      )
