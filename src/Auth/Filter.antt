-- ===== src/Auth/Filter.antt =====
-- The channels that auth/user.go's `FilterToAvailableChannels` lets through.
use sync_gateway.Prelude.{
  ℕ, zero, suc, ◌≡◌, refl, ap, sym, ◌∙◌, ◌==◌, inl, inr, Bool, true, false, ◌&&◌, ◌||◌, Option,
  some, List, [], ◌∷◌, ltb, arith, if◌then◌else◌, Str, str_eq, str_eq_iff, Bool-cases,
}
use sync_gateway.ChannelCache.{has_id}
use sync_gateway.TimedSet.{TimedSet, contains_channel, sequence_of, add_channel, find}
use sync_gateway.TimedSet.Updates.{sequence_of-cons}
use sync_gateway.Auth.{
  Role, User, or_empty, can_see_channel, get_roles, any_can_see, user_can_see_channel,
  inherited_channels, user_star_channel, can_see_channel_since, min_since,
  user_can_see_channel_since, filter_loop, filter_to_available_channels,
}
use sync_gateway.Auth.Access.{
  IsGranted, AllGranted, contains_channel-add_channel, contains_channel-cons, or_false, empty_set,
  found_absent,
}

sequence_of-contains_channel :
    (ch : Str) (set : TimedSet)
    → IsGranted set
    → ltb 0 (sequence_of ch set) ≡ contains_channel ch set
sequence_of-contains_channel ch [] g = unfold sequence_of contains_channel find in refl
sequence_of-contains_channel ch ((name, v) ∷ set) (p, g) =
    let i = sequence_of-contains_channel ch set g in
    elim (Bool-cases (str_eq name ch)) [
      | inl same ↦
          rw (sequence_of-cons ch name v set, contains_channel-cons ch name v set, same)
            (ground (arith, p))
      | inr other ↦
          rw (sequence_of-cons ch name v set, contains_channel-cons ch name v set, other) i
    ]

either_since : (a b : ℕ) → ltb 0 (if a == 0 then b else a) ≡ (ltb 0 a || ltb 0 b)
either_since a b = ground arith

-- A role sees the channels that it can see since a sequence above 0.
can_see_channel_since_lem :
    (ch : Str) (role : Role)
    → IsGranted (or_empty role.channels)
    → ltb 0 (can_see_channel_since ch role) ≡ can_see_channel ch (some role)
unfolding can_see_channel_since can_see_channel
can_see_channel_since_lem ch role g =
    let set = or_empty role.channels in
    either_since (sequence_of ch set) (sequence_of user_star_channel set)
    ∙ rw
        (
          sequence_of-contains_channel ch set g,
          sequence_of-contains_channel user_star_channel set g,
        )
        refl

or_if : (a b c : Bool) → ((a || b) || c) ≡ (a || (if b then true else c))
or_if true b c = refl
or_if false true c = refl
or_if false false c = refl

least_since :
    (s m : ℕ) → ltb 0 (if ltb 0 s && (ltb s m || m == 0) then s else m) ≡ (ltb 0 m || ltb 0 s)
least_since s m = ground arith

min_since_lem :
    (ch : Str) (roles : List Role) (m : ℕ)
    → AllGranted roles
    → ltb 0 (min_since ch roles m) ≡ (ltb 0 m || any_can_see ch roles)
unfolding min_since any_can_see
min_since_lem ch [] m g = or_false (ltb 0 m)
min_since_lem ch (role ∷ roles) m (p, g) =
    let s = can_see_channel_since ch role in
    min_since_lem ch roles (if ltb 0 s && (ltb s m || m == 0) then s else m) g
    ∙ rw (least_since s m, can_see_channel_since_lem ch role p)
        (or_if (ltb 0 m) (can_see_channel ch (some role)) (any_can_see ch roles))

-- So does a user, with the roles.
user_can_see_channel_since_lem :
    (get_role : Str → Option Role) (ch : Str) (user : User)
    → IsGranted (or_empty user.role.channels)
    → AllGranted (get_roles get_role user).0
    → ltb 0 (user_can_see_channel_since get_role ch user) ≡ user_can_see_channel get_role ch user
unfolding user_can_see_channel_since user_can_see_channel
user_can_see_channel_since_lem get_role ch user p g =
    min_since_lem ch (get_roles get_role user).0 (can_see_channel_since ch user.role) g
    ∙ rw (can_see_channel_since_lem ch user.role p) (
        or_if false (can_see_channel ch (some user.role))
          (any_can_see ch (get_roles get_role user).0))

add_channel_unseen : (name : Str) (set : TimedSet) → (add_channel name 0 set).0 ≡ set
unfolding add_channel
add_channel_unseen name set = refl

contains_channel_added :
    (ch name : Str) (at : ℕ) (set : TimedSet)
    → contains_channel ch (add_channel name at set).0
      ≡ (contains_channel ch set || (str_eq name ch && ltb 0 at))
contains_channel_added ch name zero set = elim (Bool-cases (str_eq name ch)) [
  | inl q ↦ rw (add_channel_unseen name set, q) (or_false (contains_channel ch set))
  | inr q ↦ rw (add_channel_unseen name set, q) (or_false (contains_channel ch set))
]
contains_channel_added ch name (suc n) set =
    contains_channel-add_channel ch name (suc n) set (omega arith)
    ∙ either (str_eq name ch) (contains_channel ch set) (ltb 0 (suc n)) (ground arith)
  where
    either : (a b c : Bool) → c ≡ true → (if a then true else b) ≡ (b || (a && c))
    either true true c h = refl
    either true false c h = sym h
    either false true c h = refl
    either false false c h = refl

seen_by : (a b c d : Bool) → ((a || (b && c)) || (d && c)) ≡ (a || ((if b then true else d) && c))
seen_by true b c d = refl
seen_by false true true d = refl
seen_by false true false true = refl
seen_by false true false false = refl
seen_by false false c d = refl

-- What is seen of a channel under its other name.
seen_named :
    (sees : Str → Bool) (name ch : Str) (at : ℕ)
    → ltb 0 at ≡ sees name
    → (str_eq name ch && ltb 0 at) ≡ (str_eq name ch && sees ch)
seen_named sees name ch at h = elim (Bool-cases (str_eq name ch)) [
  | inl q ↦ rw (q, h) (ap sees ((str_eq_iff name ch).0 q))
  | inr q ↦ rw q refl
]

filter_loop_lem :
    (get_role : Str → Option Role) (ch : Str) (channels : List Str) (user : User)
    (output : TimedSet)
    → IsGranted (or_empty user.role.channels)
    → AllGranted (get_roles get_role user).0
    → has_id user_star_channel channels ≡ false
    → contains_channel ch (filter_loop get_role channels user output) ≡ (
        contains_channel ch output || (has_id ch channels && user_can_see_channel get_role ch user))
unfolding filter_loop has_id
filter_loop_lem get_role ch [] user output p g h = or_false (contains_channel ch output)
filter_loop_lem get_role ch (name ∷ channels) user output p g h =
    let at = user_can_see_channel_since get_role name user in
    let sees = λ (c : Str). user_can_see_channel get_role c user in
    let rest = filter_loop_lem get_role ch channels user (add_channel name at output).0 p g in
    elim (Bool-cases (str_eq name user_star_channel)) [
      | inl star ↦ absurd (found_absent (rw star at h) refl)
      | inr other ↦ rw other (
          rest (rw other at h)
          ∙ ap (λ b. b || (has_id ch channels && sees ch))
              (contains_channel_added ch name at output)
          ∙ ap (λ b. (contains_channel ch output || b) || (has_id ch channels && sees ch))
              (seen_named sees name ch at (user_can_see_channel_since_lem get_role name user p g))
          ∙ seen_by (contains_channel ch output) (str_eq name ch) (sees ch) (has_id ch channels))
    ]

filter_star :
    (get_role : Str → Option Role) (channels : List Str) (user : User) (output : TimedSet)
    → has_id user_star_channel channels ≡ true
    → filter_loop get_role channels user output ≡ inherited_channels get_role user
unfolding filter_loop has_id
filter_star get_role [] user output h = cc
filter_star get_role (name ∷ channels) user output h =
    let at = user_can_see_channel_since get_role name user in
    let rest = filter_star get_role channels user (add_channel name at output).0 in
    elim (Bool-cases (str_eq name user_star_channel)) [
      | inl star ↦ rw star refl
      | inr other ↦ rw other (rest (rw other at h))
    ]

-- Of a request without the star channel, `FilterToAvailableChannels` lets just those channels through
-- that the user can see, on their own or through a role. Of a request with it, it lets through the
-- channels that the user inherits. The channels of the user and of the roles were granted at sequences
-- above 0.
pub filter_to_available_channels_lem :
    (get_role : Str → Option Role) (channels : List Str) (user : User)
    → IsGranted (or_empty user.role.channels)
    → AllGranted (get_roles get_role user).0
    → (has_id user_star_channel channels ≡ false
        → (ch : Str)
        → contains_channel ch (filter_to_available_channels get_role channels user)
          ≡ (has_id ch channels && user_can_see_channel get_role ch user))
      × (has_id user_star_channel channels ≡ true
          → filter_to_available_channels get_role channels user ≡ inherited_channels get_role user)
unfolding filter_to_available_channels
filter_to_available_channels_lem get_role channels user p g = (
  λ h. λ ch. filter_loop_lem get_role ch channels user [] p g h ∙ rw (empty_set ch) refl,
  filter_star get_role channels user [],
)
