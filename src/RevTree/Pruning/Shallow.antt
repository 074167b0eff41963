-- ===== src/RevTree/Pruning/Shallow.antt =====
-- Depths and leaves in db/revtree.go's `computeDepthsAndFindLeaves`.
use sync_gateway.Prelude.{
  ℕ, zero, suc, ◌+◌, ◌^◌, ◌-◌, ◌<◌, ◌≤◌, ◌≡◌, refl, ap, sym, ◌∙◌, inl, inr, Bool, true, false, not,
  ◌&&◌, some, List, [], ◌∷◌, arith, ltb, leb, if◌then◌else◌, Str, str_eq, str_eq_iff, str_eq_refl,
  Bool-cases, Option-cases,
}
use mathlib.Core.Path.{subst}
use mathlib.Core.Option.{some-injective}
use sync_gateway.RevTree.{RevInfo, get_info, contains, is_parent, is_among, leaves_of}
use sync_gateway.RevTree.Pruning.{clear_depths, set_depth, walk_depths, walk_leaves, drop_deep}
use sync_gateway.RevTree.Pruning.Keeps.{IsLoose, no_clash}

-- The tree has the revision, at no more than the depth.
abbrev pub HasWithin : ℕ → Str → List RevInfo → Type 0
HasWithin b r t = (i : RevInfo) × (get_info r t ≡ some i) × (i.depth ≤ b)

pub get_info-id : (r : Str) (t : List RevInfo) (i : RevInfo) → get_info r t ≡ some i → i.id ≡ r
unfolding get_info
get_info-id r [] i h = cc
get_info-id r (x ∷ t) i h = elim (Bool-cases (str_eq x.id r)) [
  | inl same ↦
      let q : x ≡ i = some-injective _ _ (rw same at h) in
      ap (λ z. z.id) (sym q) ∙ (str_eq_iff x.id r).0 same
  | inr other ↦ get_info-id r t i (rw other at h)
]

get_info-set_depth :
    (r revid : Str) (d : ℕ) (t : List RevInfo) (i : RevInfo)
    → get_info r t ≡ some i
    → get_info r (set_depth revid d t)
      ≡ some (record i { depth = if str_eq i.id revid then d else i.depth })
unfolding get_info set_depth
get_info-set_depth r revid d [] i h = cc
get_info-set_depth r revid d (x ∷ t) i h = elim (Bool-cases (str_eq x.id r)) [
  | inl same ↦
      let q : x ≡ i = some-injective _ _ (rw same at h) in
      rw same (
        ap (λ (z : RevInfo). some (record z { depth = if str_eq z.id revid then d else z.depth }))
          q)
  | inr other ↦ rw other (get_info-set_depth r revid d t i (rw other at h))
]

-- A depth that is lowered stays within the bound.
set_depth-HasWithin :
    (b : ℕ) (r revid : Str) (d : ℕ) (t : List RevInfo) (node : RevInfo)
    → get_info revid t ≡ some node
    → leb node.depth d ≡ false
    → HasWithin b r t
    → HasWithin b r (set_depth revid d t)
set_depth-HasWithin b r revid d t node e h (i, f, le) = (
  record i { depth = if str_eq i.id revid then d else i.depth },
  get_info-set_depth r revid d t i f,
  elim (Bool-cases (str_eq i.id revid)) [
    | inl same ↦
        let q : revid ≡ r = sym ((str_eq_iff i.id revid).0 same) ∙ get_info-id r t i f in
        let n : node ≡ i = some-injective _ _ (sym e ∙ ap (λ s. get_info s t) q ∙ f) in
        let m : node.depth ≡ i.depth = ap (λ z. z.depth) n in rw same (ground arith)
    | inr other ↦ rw other le
  ],
)

module _ (b : ℕ) (r : Str) where
  walk_depths-HasWithin :
      (fuel : ℕ) (revid : Str) (d m : ℕ) (t : List RevInfo)
      → HasWithin b r t
      → HasWithin b r (walk_depths fuel revid d m t).1
  unfolding walk_depths
  walk_depths-HasWithin zero revid d m t h = h
  walk_depths-HasWithin (suc fuel) revid d m t h = elim (Option-cases (get_info revid t)) [
    | inl e ↦ rw (walk_depths, e) h
    | inr (node, e) ↦ elim (Bool-cases (leb node.depth d)) [
      | inl q ↦ rw (walk_depths, e, q) h
      | inr q ↦
          rw (walk_depths, e, q)
            (walk_depths-HasWithin fuel node.parent (d + 1) (if ltb m d then d else m)
              (set_depth revid d t) (set_depth-HasWithin b r revid d t node e q h))
    ]
  ]

  walk_leaves-HasWithin :
      (fuel : ℕ) (leaves : List Str) (m : ℕ) (t : List RevInfo)
      → HasWithin b r t
      → HasWithin b r (walk_leaves fuel leaves m t).1
  unfolding walk_leaves
  walk_leaves-HasWithin fuel [] m t h = h
  walk_leaves-HasWithin fuel (x ∷ leaves) m t h =
      let w = walk_depths fuel x 1 m t in
      walk_leaves-HasWithin fuel leaves w.0 w.1 (walk_depths-HasWithin fuel x 1 m t h)

-- A walk from a revision leaves it with a depth of 1 at most.
walk_depths-start :
    (b : ℕ) (fuel : ℕ) (revid : Str) (m : ℕ) (t : List RevInfo)
    → HasWithin b revid t
    → HasWithin 1 revid (walk_depths (suc fuel) revid 1 m t).1
unfolding walk_depths
walk_depths-start b fuel revid m t (node, e, le) = elim (Bool-cases (leb node.depth 1)) [
  | inl q ↦ rw (walk_depths, e, q) (node, e, ground arith)
  | inr q ↦
      let same : str_eq node.id revid ≡ true =
        (str_eq_iff node.id revid).1 (get_info-id revid t node e) in
      rw (walk_depths, e, q)
        (walk_depths-HasWithin 1 revid fuel node.parent 2 (if ltb m 1 then 1 else m)
          (set_depth revid 1 t)
          (_, get_info-set_depth revid revid 1 t node e, rw same (omega arith)))
]

pub walk_leaves-shallow :
    (b fuel : ℕ) (leaves : List Str) (m : ℕ) (t : List RevInfo)
    → ((r : Str) → is_among r leaves ≡ true → HasWithin b r t)
    → (r : Str) → is_among r leaves ≡ true
    → HasWithin 1 r (walk_leaves (suc fuel) leaves m t).1
unfolding walk_leaves is_among
walk_leaves-shallow b fuel [] m t h r a = cc
walk_leaves-shallow b fuel (x ∷ leaves) m t h r a =
    let w = walk_depths (suc fuel) x 1 m t in
    elim (Bool-cases (str_eq x r)) [
      | inl same ↦
          let q : x ≡ r = (str_eq_iff x r).0 same in
          subst (λ s. HasWithin 1 s (walk_leaves (suc fuel) leaves w.0 w.1).1) q
            (walk_leaves-HasWithin 1 x (suc fuel) leaves w.0 w.1
              (walk_depths-start b fuel x m t (h x (rw (str_eq_refl x) refl))))
      | inr other ↦
          walk_leaves-shallow b fuel leaves w.0 w.1
            (λ s k. walk_depths-HasWithin b s (suc fuel) x 1 m t (h s (ground (arith, k)))) r
            (rw other at a)
    ]

-- A shallow revision is not dropped for its depth.
pub drop_deep-HasWithin :
    (d : ℕ) (r : Str) (t : List RevInfo) → 0 < d → HasWithin 1 r t → HasWithin 1 r (drop_deep d t).1
unfolding drop_deep get_info
drop_deep-HasWithin d r [] lt (i, e, le) = cc
drop_deep-HasWithin d r (x ∷ t) lt (i, e, le) = elim (Bool-cases (str_eq x.id r)) [
  | inl same ↦
      let q : x ≡ i = some-injective _ _ (rw same at e) in
      let m : x.depth ≡ i.depth = ap (λ z. z.depth) q in
      let k : ltb d x.depth ≡ false = ground arith in rw (k, same) (i, ap some q, le)
  | inr other ↦
      let h = drop_deep-HasWithin d r t lt (i, (rw other at e), le) in
      elim (Bool-cases (ltb d x.depth)) [ inl q ↦ rw q h | inr q ↦ rw (q, other) h ]
]

pub clear_depths-HasWithin :
    (r : Str) (t : List RevInfo) → contains r t ≡ true → HasWithin (2 ^ 32 - 1) r (clear_depths t)
unfolding clear_depths contains get_info
clear_depths-HasWithin r [] c = cc
clear_depths-HasWithin r (x ∷ t) c = elim (Bool-cases (str_eq x.id r)) [
  | inl same ↦ rw same (record x { depth = 2 ^ 32 - 1 }, refl, omega arith)
  | inr other ↦ rw other (clear_depths-HasWithin r t (rw other at c))
]

module _ (f : Str → Bool) (tree : List RevInfo) (r : Str) where
  pub leaves_of-is_parent :
      (t : List RevInfo) → is_among r (leaves_of f tree t) ≡ true → is_parent r tree ≡ false
  unfolding leaves_of is_among
  leaves_of-is_parent [] h = cc
  leaves_of-is_parent (i ∷ t) h = elim (Bool-cases (not (is_parent i.id tree) && f i.id)) [
    | inl leaf ↦
        let k = rw leaf at h in
        elim (Bool-cases (str_eq i.id r)) [
          | inl same ↦
              ap (λ s. is_parent s tree) (sym ((str_eq_iff i.id r).0 same)) ∙ ground (arith, leaf)
          | inr other ↦ leaves_of-is_parent t (rw other at k)
        ]
    | inr inner ↦ leaves_of-is_parent t (rw inner at h)
  ]

  pub leaves_of-contains :
      (t : List RevInfo) → is_among r (leaves_of f tree t) ≡ true → contains r t ≡ true
  unfolding leaves_of is_among contains
  leaves_of-contains [] h = cc
  leaves_of-contains (i ∷ t) h = elim (Bool-cases (not (is_parent i.id tree) && f i.id)) [
    | inl leaf ↦
        let k = rw leaf at h in
        elim (Bool-cases (str_eq i.id r)) [
          | inl same ↦ rw same refl
          | inr other ↦ rw other (leaves_of-contains t (rw other at k))
        ]
    | inr inner ↦ ground (arith, leaves_of-contains t (rw inner at h))
  ]

-- No id twice.
abbrev pub IsDistinct : List Str → Type 0
IsDistinct [] = Unit {0}
IsDistinct (r ∷ rs) = (is_among r rs ≡ false) × IsDistinct rs

pub leaves_of-IsDistinct :
    (f : Str → Bool) (tree t : List RevInfo) → IsLoose t → IsDistinct (leaves_of f tree t)
unfolding leaves_of
leaves_of-IsDistinct f tree [] l = tt
leaves_of-IsDistinct f tree (i ∷ t) l =
    let d = leaves_of-IsDistinct f tree t l.3 in
    elim (Bool-cases (not (is_parent i.id tree) && f i.id)) [
      | inl leaf ↦ rw leaf (elim (Bool-cases (is_among i.id (leaves_of f tree t))) [
        | inl again ↦ absurd (no_clash l.1 (leaves_of-contains f tree i.id t again))
        | inr new ↦ (new, d)
      ])
      | inr inner ↦ rw inner d
    ]
