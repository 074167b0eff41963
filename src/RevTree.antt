-- ===== src/RevTree.antt =====
-- db/revtree.go: revision trees. A tree is the list of its revisions, the newest first: the map from
-- ids has no order. Where the code walks the map, the list's order is one that the walk may take.
pub mod Leaves
pub mod Ancestors
pub mod Winner
pub mod Encoding
pub mod Pruning
use sync_gateway.Prelude.{
  ℕ, zero, suc, ◌+◌, ◌-◌, ◌==◌, Bool, true, false, not, ◌&&◌, Option, none, some, List, [], ◌∷◌,
  if◌then◌else◌, Str, str_eq, length,
}

pub record RevInfo : Type 0 where
  pub id : Str
  pub parent : Str
  pub deleted : Bool
  -- nil is `none`
  pub body : Option Str
  pub body_key : Str
  pub channels : List Str
  pub depth : ℕ

unfoldable pub is_root : RevInfo → Bool
is_root i = str_eq i.parent []

unfoldable pub get_info : Str → List RevInfo → Option RevInfo
get_info revid [] = none
get_info revid (i ∷ t) = if str_eq i.id revid then some i else get_info revid t

unfoldable pub contains : Str → List RevInfo → Bool
contains revid [] = false
contains revid (i ∷ t) = if str_eq i.id revid then true else contains revid t

unfoldable pub get_parent : Str → List RevInfo → Str
unfolding get_info
get_parent revid t = elim (get_info revid t) [ none ↦ [] | some i ↦ i.parent ]

unfoldable pub is_parent : Str → List RevInfo → Bool
is_parent revid [] = false
is_parent revid (i ∷ t) = if str_eq i.parent revid then true else is_parent revid t

unfoldable pub is_leaf : Str → List RevInfo → Bool
unfolding contains is_parent
is_leaf revid t = contains revid t && not (is_parent revid t)

-- The revisions of a list that no revision of the tree has for its parent.
unfoldable pub leaves_of : (Str → Bool) → List RevInfo → List RevInfo → List Str
unfolding is_parent
leaves_of filter tree [] = []
leaves_of filter tree (i ∷ t) =
    let rest = leaves_of filter tree t in
    if not (is_parent i.id tree) && filter i.id then i.id ∷ rest else rest

unfoldable pub get_leaves_filtered : (Str → Bool) → List RevInfo → List Str
unfolding leaves_of
get_leaves_filtered filter t = leaves_of filter t t

unfoldable pub get_leaves : List RevInfo → List Str
unfolding get_leaves_filtered
get_leaves t = get_leaves_filtered (λ revid. true) t

pub data AddError : Type 0 where
  empty_revid already_contains parent_missing : AddError

pub data Added : Type 0 where
  added : List RevInfo → Added
  refused : AddError → Added

unfoldable pub add_revision : RevInfo → List RevInfo → Added
unfolding contains
add_revision i t =
    if str_eq i.id []
    then refused empty_revid
    else if contains i.id t
    then refused already_contains
    else if not (str_eq i.parent []) && not (contains i.parent t)
    then refused parent_missing
    else added (i ∷ t)

unfoldable pub is_among : Str → List Str → Bool
is_among s [] = false
is_among s (a ∷ rest) = if str_eq a s then true else is_among s rest

-- The loop of `findAncestorFromSet`, with fuel for each revision and one more; `[]` is "".
unfoldable pub find_ancestor_loop : ℕ → List RevInfo → Str → List Str → Str
unfolding is_among get_info
find_ancestor_loop zero t revid ancestors = []
find_ancestor_loop (suc fuel) t revid ancestors =
    if str_eq revid []
    then []
    else if is_among revid ancestors
    then revid
    else elim (get_info revid t) [
      | none ↦ []
      | some i ↦ find_ancestor_loop fuel t i.parent ancestors
    ]

unfoldable pub find_ancestor_from_set : List RevInfo → Str → List Str → Str
unfolding find_ancestor_loop
find_ancestor_from_set t revid ancestors = find_ancestor_loop (suc (length t)) t revid ancestors

-- The revision ids, from the newest on, and whether a cycle was found, with fuel for each revision
-- and one more; `room` is how many more ids fit.
unfoldable pub get_history_loop : ℕ → ℕ → List RevInfo → Str → List Str × Bool
unfolding get_info
get_history_loop zero room t revid = ([], true)
get_history_loop (suc fuel) room t revid =
    if str_eq revid [] then ([], false) else elim (get_info revid t) [
      | none ↦ ([], false)
      | some i ↦
          let (rest, cycle) = get_history_loop fuel (room - 1) t i.parent in
          if room == 0 then (revid ∷ [], true) else (revid ∷ rest, cycle)
    ]

unfoldable pub get_history : Str → List RevInfo → List Str × Bool
unfolding get_history_loop
get_history revid t = get_history_loop (suc (length t)) (length t) t revid
