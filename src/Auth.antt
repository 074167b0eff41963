-- ===== src/Auth.antt =====
-- auth/role.go, auth/user.go and the parts of auth/auth.go that compute and save what principals may
-- see. The bucket, the sync function's grants and the roles that `GetRole` finds are parameters. A nil
-- map is `none`, and maps are walked in the order of their lists. Passwords, sessions, tokens and the
-- vbucket clocks are not modelled.
pub mod Access
pub mod Filter
pub mod Rebuild
pub mod Saving
use sync_gateway.Prelude.{
  ℕ, zero, suc, ◌==◌, Bool, true, false, not, ◌&&◌, ◌||◌, Option, none, some, List, [], ◌∷◌, ltb,
  if◌then◌else◌, Str, str_eq, codes,
}
use sync_gateway.ChannelCache.{has_id}
use sync_gateway.TimedSet.{
  TimedSet, VbSequence, contains_channel, sequence_of, add_at_sequence, add_channel, add_set,
  update_if_present, all_channels, find,
}

abbrev pub user_star_channel : Str
user_star_channel = codes "*"

abbrev pub document_star_channel : Str
document_star_channel = codes "!"

pub record Role : Type 0 where
  pub name : Str
  pub explicit_channels : Option TimedSet
  pub channels : Option TimedSet
  pub previous_channels : Option TimedSet
  pub cas : ℕ

-- `roles` are those that have been looked up.
pub record User : Type 0 where
  pub role : Role
  pub email : Str
  pub explicit_roles : Option TimedSet
  pub roles_since : Option TimedSet
  pub roles : Option (List Role)

unfoldable pub or_empty : Option TimedSet → TimedSet
or_empty none = []
or_empty (some set) = set

-- `CanSeeChannel` of a role, nil being `none`.
unfoldable pub can_see_channel : Str → Option Role → Bool
unfolding or_empty
can_see_channel ch none = true
can_see_channel ch (some role) =
    contains_channel ch (or_empty role.channels)
    || contains_channel user_star_channel (or_empty role.channels)

unfoldable pub can_see_channel_since : Str → Role → ℕ
unfolding or_empty
can_see_channel_since ch role =
    if sequence_of ch (or_empty role.channels) == 0
    then sequence_of user_star_channel (or_empty role.channels)
    else sequence_of ch (or_empty role.channels)

unfoldable pub look_up_roles : (Str → Option Role) → TimedSet → List Role
look_up_roles get_role [] = []
look_up_roles get_role ((name, v) ∷ set) =
    let rest = look_up_roles get_role set in
    elim (get_role name) as (λ o. List Role) [ none ↦ rest | some role ↦ role ∷ rest ]

-- `GetRoles`, which keeps the roles that it looks up; a failing lookup, which would panic, is left out.
unfoldable pub get_roles : (Str → Option Role) → User → List Role × User
unfolding or_empty
get_roles get_role user = elim (user.roles) as (λ o. List Role × User) [
  | some roles ↦ (roles, user)
  | none ↦
      let roles = look_up_roles get_role (or_empty user.roles_since) in
      (roles, record user { roles = some roles })
]

unfoldable pub any_can_see : Str → List Role → Bool
any_can_see ch [] = false
any_can_see ch (role ∷ roles) =
    if can_see_channel ch (some role) then true else any_can_see ch roles

-- `CanSeeChannel` of a user.
unfoldable pub user_can_see_channel : (Str → Option Role) → Str → User → Bool
user_can_see_channel get_role ch user =
    if can_see_channel ch (some user.role) then true else any_can_see ch (get_roles get_role user).0

unfoldable pub min_since : Str → List Role → ℕ → ℕ
min_since ch [] min_seq = min_seq
min_since ch (role ∷ roles) min_seq =
    let seq = can_see_channel_since ch role in
    min_since ch roles (if ltb 0 seq && (ltb seq min_seq || min_seq == 0) then seq else min_seq)

unfoldable pub user_can_see_channel_since : (Str → Option Role) → Str → User → ℕ
user_can_see_channel_since get_role ch user =
    min_since ch (get_roles get_role user).0 (can_see_channel_since ch user.role)

pub data Authorized : Type 0 where
  authorized : Authorized
  unauthorized : Authorized
  forbidden : Authorized

unfoldable pub unauth_error : Role → Authorized
unauth_error role = if str_eq role.name [] then unauthorized else forbidden

unfoldable pub forbidden_channels : (Str → Bool) → List Str → List Str
forbidden_channels can_see [] = []
forbidden_channels can_see (ch ∷ channels) =
    let rest = forbidden_channels can_see channels in if not (can_see ch) then ch ∷ rest else rest

unfoldable pub none_forbidden : Role → List Str → Authorized
none_forbidden role [] = authorized
none_forbidden role (ch ∷ channels) = unauth_error role

unfoldable pub authorize_all_channels : (Str → Option Role) → List Str → User → Authorized
authorize_all_channels get_role channels user =
    none_forbidden user.role
      (forbidden_channels (λ ch. user_can_see_channel get_role ch user) channels)

unfoldable pub any_visible : (Str → Bool) → List Str → Bool
any_visible can_see [] = false
any_visible can_see (ch ∷ channels) = if can_see ch then true else any_visible can_see channels

unfoldable pub authorize_any_channel : (Str → Option Role) → List Str → User → Authorized
unfolding or_empty
authorize_any_channel get_role [] user =
    if contains_channel user_star_channel (or_empty user.role.channels)
    then authorized
    else unauth_error user.role
authorize_any_channel get_role (ch ∷ channels) user =
    if any_visible (λ c. user_can_see_channel get_role c user) (ch ∷ channels)
    then authorized
    else unauth_error user.role

-- The loop of `InheritedChannels`.
unfoldable pub inherit_channels : TimedSet → List Role → TimedSet → TimedSet
unfolding or_empty
inherit_channels roles_since [] channels = channels
inherit_channels roles_since (role ∷ roles) channels =
    inherit_channels roles_since roles
      (add_at_sequence (or_empty role.channels) (sequence_of role.name roles_since) channels).0

unfoldable pub inherited_channels : (Str → Option Role) → User → TimedSet
inherited_channels get_role user =
    inherit_channels (or_empty user.roles_since) (get_roles get_role user).0
      (or_empty user.role.channels)

unfoldable pub expand_wild_card_channel : (Str → Option Role) → List Str → User → List Str
expand_wild_card_channel get_role channels user =
    if has_id user_star_channel channels
    then all_channels (inherited_channels get_role user)
    else channels

unfoldable pub filter_loop : (Str → Option Role) → List Str → User → TimedSet → TimedSet
filter_loop get_role [] user output = output
filter_loop get_role (ch ∷ channels) user output =
    if str_eq ch user_star_channel
    then inherited_channels get_role user
    else filter_loop get_role channels user
        (add_channel ch (user_can_see_channel_since get_role ch user) output).0

unfoldable pub filter_to_available_channels : (Str → Option Role) → List Str → User → TimedSet
filter_to_available_channels get_role channels user = filter_loop get_role channels user []

unfoldable pub missing_from : TimedSet → List Str → List Str
missing_from channels [] = []
missing_from channels (ch ∷ names) =
    let rest = missing_from channels names in
    if contains_channel ch channels then rest else ch ∷ rest

unfoldable pub get_added_channels : (Str → Option Role) → TimedSet → User → List Str
get_added_channels get_role channels user =
    missing_from channels (all_channels (inherited_channels get_role user))

-- `rebuildChannels`: `none` is the error of the channel computer, a parameter that may be nil.
unfoldable pub rebuild_channels : Option (Role → Option TimedSet) → Role → Option Role
unfolding or_empty
rebuild_channels computer role =
    let previous = or_empty role.previous_channels in
    let explicit = update_if_present previous (or_empty role.explicit_channels) in
    let finish = λ (channels : TimedSet).
      let built : Role = record role {
        channels = some (add_channel document_star_channel 1 channels).0;
        previous_channels = none;
      } in
      built in
    elim computer as (λ o. Option Role) [
      | none ↦ some (finish explicit)
      | some compute ↦ elim (compute role) as (λ o. Option Role) [
        | none ↦ none
        | some view ↦ some (finish (add_set (update_if_present previous view) explicit).0)
      ]
    ]

unfoldable pub add_explicit : Option TimedSet → TimedSet → TimedSet
add_explicit none roles = roles
add_explicit (some explicit) roles = (add_set explicit roles).0

-- `rebuildRoles`: the computed roles may be nil too. `setRolesSince` forgets the roles looked up.
unfoldable pub rebuild_roles : Option (User → Option (Option TimedSet)) → User → Option User
unfolding or_empty
rebuild_roles computer user =
    let finish = λ (roles : Option TimedSet).
      let built : User = record user {
        roles_since = some (add_explicit user.explicit_roles (or_empty roles));
        roles = none;
      } in
      built in
    elim computer as (λ o. Option User) [
      | none ↦ some (finish none)
      | some compute ↦ elim (compute user) as (λ o. Option User) [
        | none ↦ none
        | some roles ↦ some (finish roles)
      ]
    ]
