-- ===== src/Crud/Missing.antt =====
-- What db/crud.go's `RevDiff` tells of a document.
use sync_gateway.Prelude.{
  ◌≡◌, refl, ap, sym, ◌∙◌, Bool, true, false, not, ◌&&◌, Option, List, [], ◌∷◌, Str, str_eq,
  str_eq_iff, str_eq_refl, arith, Bool-cases, inl, inr,
}
use sync_gateway.Prelude.Int.{ℤ, pos, ◌+ℤ◌}
use sync_gateway.ChannelCache.{has_id, add_id}
use sync_gateway.RevId.{ltb_ℤ, parse_rev_id}
use sync_gateway.RevTree.{RevInfo, contains, is_parent}
use sync_gateway.RevTree.Leaves.{IsTree}
use sync_gateway.RevTree.Winner.{leaf_infos}
use sync_gateway.Document.{Document}
use sync_gateway.Crud.Proposals.{loaded, add_possible, add_leaves, diff_loop, rev_diff}

-- Every revision of a list is in the tree.
abbrev pub AllKnown : List RevInfo → List Str → Type 0
AllKnown t [] = Unit {0}
AllKnown t (revid ∷ revs) = (contains revid t ≡ true) × AllKnown t revs

add_id-AllKnown :
    (t : List RevInfo) (revid : Str) (revs : List Str)
    → contains revid t ≡ true
    → AllKnown t revs
    → AllKnown t (add_id revid revs)
unfolding add_id
add_id-AllKnown t revid revs c k = elim (Bool-cases (has_id revid revs)) [
  | inl q ↦ rw q k
  | inr q ↦ rw q (c, k)
]

-- The leaves and their parents are in the tree.
abbrev KnownLeaves : List RevInfo → List RevInfo → Type 0
KnownLeaves t [] = Unit {0}
KnownLeaves t (i ∷ l) =
    (contains i.id t ≡ true)
    × (str_eq i.parent [] ≡ false → contains i.parent t ≡ true)
    × KnownLeaves t l

third : (a b c : Bool) → not a && not b && not c ≡ true → c ≡ false
third true b c h = cc
third false true c h = cc
third false false true h = cc
third false false false h = refl

add_possible-AllKnown :
    (scan : Str → Option (ℤ × Str)) (t : List RevInfo) (revids : List Str) (gen : ℤ) (i : RevInfo)
    (possible : List Str)
    → contains i.id t ≡ true
    → (str_eq i.parent [] ≡ false → contains i.parent t ≡ true)
    → AllKnown t possible
    → AllKnown t (add_possible scan revids gen i possible)
unfolding add_possible
add_possible-AllKnown scan t revids gen i possible c p k =
    let g = (parse_rev_id scan i.id).0 in
    let beside = not (ltb_ℤ g gen) && not (ltb_ℤ gen g) && not (str_eq i.parent []) in
    elim (Bool-cases (has_id i.id revids)) [
      | inl q ↦ rw q k
      | inr q ↦ elim (Bool-cases (ltb_ℤ g gen && not (ltb_ℤ (g +ℤ pos 100) gen))) [
        | inl near ↦ rw (q, near) (add_id-AllKnown t i.id possible c k)
        | inr far ↦ elim (Bool-cases beside) [
          | inl same ↦
              rw (q, far, same)
                (add_id-AllKnown t i.parent possible
                  (p (third (ltb_ℤ g gen) (ltb_ℤ gen g) (str_eq i.parent []) same)) k)
          | inr beyond ↦ rw (q, far, beyond) k
        ]
      ]
    ]

add_leaves-AllKnown :
    (scan : Str → Option (ℤ × Str)) (t : List RevInfo) (revids : List Str) (gen : ℤ)
    (leaves : List RevInfo) (possible : List Str)
    → KnownLeaves t leaves
    → AllKnown t possible
    → AllKnown t (add_leaves scan revids gen leaves possible)
unfolding add_leaves
add_leaves-AllKnown scan t revids gen [] possible l k = k
add_leaves-AllKnown scan t revids gen (i ∷ leaves) possible (c, p, l) k =
    add_leaves-AllKnown scan t revids gen leaves (add_possible scan revids gen i possible) l
      (add_possible-AllKnown scan t revids gen i possible c p k)

leaf_infos-KnownLeaves :
    (t tree s : List RevInfo)
    → IsTree s
    → ((r : Str) → contains r s ≡ true → contains r t ≡ true)
    → KnownLeaves t (leaf_infos tree s)
unfolding leaf_infos contains
leaf_infos-KnownLeaves t tree [] w sub = tt
leaf_infos-KnownLeaves t tree (i ∷ s) w sub =
    let sub' : (r : Str) → contains r s ≡ true → contains r t ≡ true =
      λ r. λ c. sub r (ground (arith, c)) in
    let rest = leaf_infos-KnownLeaves t tree s w.3 sub' in
    elim (Bool-cases (is_parent i.id tree)) [
      | inl q ↦ rw q rest
      | inr q ↦ rw q (
        sub i.id (rw (str_eq_refl i.id) refl),
        λ n. elim w.2 [ inl root ↦ absurd (no_root n root) | inr old ↦ sub' i.parent old ],
        rest,
      )
    ]
  where
    no_root : {b : Bool} → b ≡ false → b ≡ true → ⊥
    no_root n r = cc

has_id-diff_loop :
    (scan : Str → Option (ℤ × Str)) (t : List RevInfo) (revids : List Str) (revid : Str)
    (rest : List Str)
    → has_id revid (diff_loop scan t revids rest).0 ≡ (has_id revid rest && not (contains revid t))
unfolding diff_loop has_id
has_id-diff_loop scan t revids revid [] = refl
has_id-diff_loop scan t revids revid (r ∷ rest) =
    let i = has_id-diff_loop scan t revids revid rest in
    elim (Bool-cases (str_eq r revid)) [
      | inl same ↦
          let e : contains r t ≡ contains revid t =
            ap (λ z. contains z t) ((str_eq_iff r revid).0 same) in
          elim (Bool-cases (contains r t)) [
            | inl q ↦ rw (q, same, sym e ∙ q) (i ∙ rw (sym e ∙ q) (none_left (has_id revid rest)))
            | inr q ↦ rw (q, same, sym e ∙ q) refl
          ]
      | inr other ↦ elim (Bool-cases (contains r t)) [
        | inl q ↦ rw (q, other) i
        | inr q ↦ rw (q, other) i
      ]
    ]
  where
    none_left : (b : Bool) → b && false ≡ false
    none_left true = refl
    none_left false = refl

diff_loop-AllKnown :
    (scan : Str → Option (ℤ × Str)) (t : List RevInfo) (revids rest : List Str)
    → IsTree t
    → AllKnown t (diff_loop scan t revids rest).1
unfolding diff_loop
diff_loop-AllKnown scan t revids [] w = tt
diff_loop-AllKnown scan t revids (r ∷ rest) w =
    let i = diff_loop-AllKnown scan t revids rest w in
    let g = (parse_rev_id scan r).0 in
    let leaves = leaf_infos-KnownLeaves t t t w (λ x. λ c. c) in
    elim (Bool-cases (contains r t)) [
      | inl q ↦ rw q i
      | inr q ↦ elim (Bool-cases (ltb_ℤ (pos 1) g)) [
        | inl above ↦
            rw (q, above)
              (add_leaves-AllKnown scan t revids g (leaf_infos t t) (diff_loop scan t revids rest).1
                leaves i)
        | inr low ↦ rw (q, low) i
      ]
    ]

-- `RevDiff` of a document whose history is a tree reports an asked revision as missing just if the tree
-- does not have it, and names only revisions of the tree as possible ancestors.
pub rev_diff_lem :
    (scan : Str → Option (ℤ × Str)) (doc : Document) (revids : List Str)
    → IsTree doc.history
    → ((revid : Str)
        → has_id revid (rev_diff scan false (loaded doc) revids).0
          ≡ (has_id revid revids && not (contains revid doc.history)))
      × AllKnown doc.history (rev_diff scan false (loaded doc) revids).1
unfolding rev_diff
rev_diff_lem scan doc revids w = (
  λ revid. has_id-diff_loop scan doc.history revids revid revids,
  diff_loop-AllKnown scan doc.history revids revids w,
)
