-- ===== src/Auth/Access.antt =====
-- What auth/user.go's answers about channels have to do with each other.
use sync_gateway.Prelude.{
  ℕ, ◌<◌, ◌≡◌, refl, ap, sym, ◌∙◌, ◌==◌, inl, inr, Bool, true, false, ◌&&◌, ◌||◌, Option, List, [],
  ◌∷◌, ltb, arith, if◌then◌else◌, Str, str_eq, str_eq_iff, Bool-cases, Option-cases,
}
use sync_gateway.TimedSet.{
  TimedSet, VbSequence, contains_channel, sequence_of, add_at_sequence, add_channel, add_one_at,
  find, assign, new_vb_simple_sequence,
}
use sync_gateway.TimedSet.Updates.{find-assign}
use sync_gateway.Auth.{
  Role, User, or_empty, can_see_channel, get_roles, any_can_see, user_can_see_channel,
  inherit_channels, inherited_channels, user_star_channel,
}

-- Every channel was granted at a sequence above 0.
abbrev pub IsGranted : TimedSet → Type 0
IsGranted [] = Unit {0}
IsGranted ((name, v) ∷ set) = (0 < v.sequence) × IsGranted set

abbrev pub AllGranted : List Role → Type 0
AllGranted [] = Unit {0}
AllGranted (role ∷ roles) = IsGranted (or_empty role.channels) × AllGranted roles

contains_channel-assign :
    (ch name : Str) (v : VbSequence) (set : TimedSet)
    → contains_channel ch (assign name v set)
      ≡ (if str_eq name ch then true else contains_channel ch set)
unfolding contains_channel
contains_channel-assign ch name v set = elim (Bool-cases (str_eq name ch)) [
  | inl q ↦ rw (contains_channel, find-assign ch name v set, q) refl
  | inr q ↦ rw (contains_channel, find-assign ch name v set, q) refl
]

pub found_absent : {b : Bool} → b ≡ false → b ≡ true → ⊥
found_absent h k = cc

contains_channel-sequence_of :
    (ch : Str) (set : TimedSet) → contains_channel ch set ≡ false → sequence_of ch set ≡ 0
unfolding contains_channel sequence_of
contains_channel-sequence_of ch set h = elim (Option-cases (find ch set)) [
  | inl e ↦ rw (sequence_of, e) refl
  | inr (v, e) ↦ absurd (found_absent h (rw (contains_channel, e) refl))
]

contains_same :
    (s t : Str) (set : TimedSet)
    → str_eq s t ≡ true
    → contains_channel s set ≡ contains_channel t set
contains_same s t set q = ap (λ c. contains_channel c set) ((str_eq_iff s t).0 q)

-- A channel that is added at a sequence above 0 is in the set.
pub contains_channel-add_channel :
    (ch name : Str) (at : ℕ) (set : TimedSet)
    → 0 < at
    → contains_channel ch (add_channel name at set).0
      ≡ (if str_eq name ch then true else contains_channel ch set)
unfolding add_channel
contains_channel-add_channel ch name at set p =
    elim (Bool-cases (ltb 0 at && (sequence_of name set == 0 || ltb at (sequence_of name set)))) [
      | inl q ↦ rw q (contains_channel-assign ch name (new_vb_simple_sequence at) set)
      | inr q ↦
          let there : contains_channel name set ≡ true =
            elim (Bool-cases (contains_channel name set)) [
              | inl there ↦ there
              | inr gone ↦
                  let z = contains_channel-sequence_of name set gone in
                  absurd (ground (arith, q, z, p))
            ] in
          rw q (elim (Bool-cases (str_eq name ch)) [
            | inl same ↦ rw same (sym (contains_same name ch set same) ∙ there)
            | inr other ↦ rw other refl
          ])
    ]

granted_at :
    (v : VbSequence) (at : ℕ) → 0 < v.sequence → 0 < (if ltb v.sequence at then at else v.sequence)
granted_at v at p = ground arith

contains_channel-add_one_at :
    (ch name : Str) (v : VbSequence) (at : ℕ) (set : TimedSet)
    → 0 < v.sequence
    → contains_channel ch (add_one_at name v at set).0
      ≡ (if str_eq name ch then true else contains_channel ch set)
unfolding add_one_at
contains_channel-add_one_at ch name v at set p = elim (Option-cases v.vb_no) [
  | inl n ↦
      rw (add_one_at, n)
        (contains_channel-add_channel ch name (if ltb v.sequence at then at else v.sequence) set
          (granted_at v at p))
  | inr (n, e) ↦ rw (add_one_at, e) (contains_channel-assign ch name v set)
]

pub contains_channel-cons :
    (ch name : Str) (v : VbSequence) (set : TimedSet)
    → contains_channel ch ((name, v) ∷ set)
      ≡ (if str_eq name ch then true else contains_channel ch set)
unfolding contains_channel find
contains_channel-cons ch name v set = elim (Bool-cases (str_eq name ch)) [
  | inl q ↦ rw (contains_channel, find, q) refl
  | inr q ↦ rw (contains_channel, find, q) refl
]

pub or_false : (b : Bool) → b ≡ (b || false)
or_false true = refl
or_false false = refl

pub empty_set : (ch : Str) → contains_channel ch [] ≡ false
unfolding contains_channel find
empty_set ch = refl

added_or : (b c d : Bool) → ((if b then true else c) || d) ≡ (c || (if b then true else d))
added_or true true d = refl
added_or true false d = refl
added_or false c d = refl

-- A set of grants comes in whole.
contains_channel-add_at_sequence :
    (ch : Str) (other : TimedSet) (at : ℕ) (set : TimedSet)
    → IsGranted other
    → contains_channel ch (add_at_sequence other at set).0
      ≡ (contains_channel ch set || contains_channel ch other)
unfolding add_at_sequence
contains_channel-add_at_sequence ch [] at set g =
    or_false (contains_channel ch set) ∙ ap (λ b. contains_channel ch set || b) (sym (empty_set ch))
contains_channel-add_at_sequence ch ((name, v) ∷ other) at set (p, g) =
    let i = contains_channel-add_at_sequence ch other at (add_one_at name v at set).0 g in
    let k = contains_channel-add_one_at ch name v at set p in
    let j = contains_channel-cons ch name v other in
    i
    ∙ ap (λ b. b || contains_channel ch other) k
    ∙ added_or (str_eq name ch) (contains_channel ch set) (contains_channel ch other)
    ∙ ap (λ b. contains_channel ch set || b) (sym j)

unfoldable any_contains : Str → List Role → Bool
any_contains ch [] = false
any_contains ch (role ∷ roles) =
    contains_channel ch (or_empty role.channels) || any_contains ch roles

pub or_assoc : (a b c : Bool) → ((a || b) || c) ≡ (a || (b || c))
or_assoc true b c = refl
or_assoc false b c = refl

contains_channel-inherit_channels :
    (ch : Str) (roles_since : TimedSet) (roles : List Role) (channels : TimedSet)
    → AllGranted roles
    → contains_channel ch (inherit_channels roles_since roles channels)
      ≡ (contains_channel ch channels || any_contains ch roles)
unfolding inherit_channels any_contains
contains_channel-inherit_channels ch since [] channels g = or_false (contains_channel ch channels)
contains_channel-inherit_channels ch since (role ∷ roles) channels (p, g) =
    let at = sequence_of role.name since in
    let set = or_empty role.channels in
    contains_channel-inherit_channels ch since roles (add_at_sequence set at channels).0 g
    ∙ ap (λ b. b || any_contains ch roles) (contains_channel-add_at_sequence ch set at channels p)
    ∙ or_assoc (contains_channel ch channels) (contains_channel ch set) (any_contains ch roles)

pub seen : (a b c d : Bool) → (if a || b then true else (c || d)) ≡ ((a || c) || (b || d))
seen true b c d = refl
seen false true true d = refl
seen false true false d = refl
seen false false c d = refl

any_can_see-any_contains :
    (ch : Str) (roles : List Role)
    → any_can_see ch roles ≡ (any_contains ch roles || any_contains user_star_channel roles)
unfolding any_can_see any_contains can_see_channel
any_can_see-any_contains ch [] = refl
any_can_see-any_contains ch (role ∷ roles) =
    let i = any_can_see-any_contains ch roles in
    rw i (
      seen (contains_channel ch (or_empty role.channels))
        (contains_channel user_star_channel (or_empty role.channels)) (any_contains ch roles)
        (any_contains user_star_channel roles))

-- `CanSeeChannel` of a user agrees with the channels that `InheritedChannels` lists, the user's and
-- those of the roles: it holds of a channel just if they have the channel or the star channel.
-- The channels of the roles were granted at sequences above 0.
pub user_can_see_channel-inherited_channels :
    (get_role : Str → Option Role) (ch : Str) (user : User)
    → AllGranted (get_roles get_role user).0
    → user_can_see_channel get_role ch user ≡ (
        contains_channel ch (inherited_channels get_role user)
        || contains_channel user_star_channel (inherited_channels get_role user))
unfolding user_can_see_channel inherited_channels can_see_channel
user_can_see_channel-inherited_channels get_role ch user g =
    let roles = (get_roles get_role user).0 in
    let own = or_empty user.role.channels in
    let i =
      λ (c : Str). contains_channel-inherit_channels c (or_empty user.roles_since) roles own g in
    rw (i ch, i user_star_channel, any_can_see-any_contains ch roles)
      (seen (contains_channel ch own) (contains_channel user_star_channel own)
        (any_contains ch roles) (any_contains user_star_channel roles))
