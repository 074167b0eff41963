-- ===== src/Tests/Access.antt =====
-- A user with a role, a save that fails, and a waiter, through auth's operations and those of
-- db/change_listener.go.
use sync_gateway.Prelude.{
  ℕ, ◌≡◌, ◌<◌, ◌⊎◌, refl, true, false, ◌&&◌, ◌||◌, Option, none, some, [], ◌∷◌, if◌then◌else◌, Str,
  codes, str_eq, arith,
}
use sync_gateway.ChannelCache.{has_id}
use sync_gateway.TimedSet.{
  TimedSet, VbSequence, new_vb_simple_sequence, contains_channel, sequence_of,
}
use sync_gateway.TimedSet.Updates.{IsSimple, earliest}
use sync_gateway.Auth.{
  Role, User, or_empty, get_roles, user_can_see_channel, inherited_channels, user_star_channel,
  document_star_channel, filter_to_available_channels, rebuild_channels, look_up_roles,
}
use sync_gateway.Auth.Access.{AllGranted, user_can_see_channel-inherited_channels}
use sync_gateway.Auth.Filter.{filter_to_available_channels_lem}
use sync_gateway.Auth.Rebuild.{granted_since, rebuild_channels_lem}
use sync_gateway.Auth.Saving.{
  Change, change_failed, changed, cas_update_loop, SaveResult, save_failed, Reloaded, reload_failed,
  cas_update_principal, cas_update_principal_lem,
}
use sync_gateway.ChangeListener.{ChangeListener, key_count, current_count, wait_pass}
use sync_gateway.ChangeListener.Notified.{IsCounted, notify_all, any_common}
use sync_gateway.ChangeListener.Woken.{wait_pass-notify_all}

abbrev at : ℕ → VbSequence
unfolding new_vb_simple_sequence
at n = new_vb_simple_sequence n

abbrev editors : Role
editors = record {
  name = codes "editors";
  explicit_channels = some ((codes "drafts", at 2) ∷ []);
  channels = some ((codes "drafts", at 2) ∷ (codes "news", at 5) ∷ []);
  previous_channels = none;
  cas = 1;
}

abbrev get_role : Str → Option Role
get_role name = some editors

abbrev ann : User
ann = record {
  role = record {
    name = codes "ann";
    explicit_channels = some ((codes "own", at 1) ∷ []);
    channels = some ((codes "own", at 1) ∷ []);
    previous_channels = none;
    cas = 3;
  };
  email = [];
  explicit_roles = none;
  roles_since = some ((codes "editors", at 4) ∷ []);
  roles = none;
}

editors_granted : AllGranted (get_roles get_role ann).0
unfolding get_roles look_up_roles or_empty new_vb_simple_sequence
editors_granted = ((omega arith, (omega arith, tt)), tt)

user_can_see_channel-inherited_channels_example :
    user_can_see_channel get_role (codes "news") ann ≡ (
      contains_channel (codes "news") (inherited_channels get_role ann)
      || contains_channel user_star_channel (inherited_channels get_role ann))
user_can_see_channel-inherited_channels_example =
    user_can_see_channel-inherited_channels get_role (codes "news") ann editors_granted

filter_to_available_channels_lem_example :
    let channels = codes "own" ∷ codes "secret" ∷ [] in
    (has_id user_star_channel channels ≡ false
      → (ch : Str)
      → contains_channel ch (filter_to_available_channels get_role channels ann)
        ≡ (has_id ch channels && user_can_see_channel get_role ch ann))
    × (has_id user_star_channel channels ≡ true
        → filter_to_available_channels get_role channels ann ≡ inherited_channels get_role ann)
unfolding or_empty new_vb_simple_sequence
filter_to_available_channels_lem_example =
    filter_to_available_channels_lem get_role (codes "own" ∷ codes "secret" ∷ []) ann
      (omega arith, tt) editors_granted

abbrev compute_view : Role → Option TimedSet
compute_view role = some ((codes "news", at 5) ∷ [])

rebuild_channels_lem_example :
    (compute_view editors ≡ none → rebuild_channels (some compute_view) editors ≡ none)
    × ((view : TimedSet)
        → compute_view editors ≡ some view
        → IsSimple view
        → (rebuilt : Role) × (rebuild_channels (some compute_view) editors ≡ some rebuilt)
          × ((ch : Str)
              → granted_since ch rebuilt ≡ (
                  if str_eq document_star_channel ch
                  then earliest
                      (earliest
                        (sequence_of ch (or_empty editors.explicit_channels))
                        (sequence_of ch view))
                      1
                  else earliest
                      (sequence_of ch (or_empty editors.explicit_channels))
                      (sequence_of ch view))))
rebuild_channels_lem_example = rebuild_channels_lem compute_view editors refl

-- A store of one number, whose saves always fail, and a callback that fails.
abbrev always_failing : ℕ → ℕ → SaveResult ℕ × ℕ
always_failing p s = (save_failed 500, s)

abbrev reload_404 : ℕ → Reloaded ℕ ℕ
reload_404 s = reload_failed 404

abbrev refuse : Option ℕ → Change ℕ ℕ
refuse q = change_failed 400

cas_update_principal_lem_example :
    ((q : Option ℕ) × (refuse q ≡ change_failed 400))
    ⊎ ((t : ℕ) × (reload_404 t ≡ reload_failed 400))
unfolding cas_update_principal cas_update_loop
cas_update_principal_lem_example =
    cas_update_principal_lem ℕ ℕ ℕ always_failing reload_404 refuse (some 1) 0 400 refl

abbrev accept : Option ℕ → Change ℕ ℕ
accept q = changed 2

-- The error of the save is lost.
lost_error : (cas_update_principal ℕ ℕ ℕ always_failing reload_404 accept (some 1) 0).0 ≡ none
unfolding cas_update_principal cas_update_loop
lost_error = refl

abbrev quiet : ChangeListener
quiet = record {
  counter = 3;
  terminate_check_counter = 0;
  key_counts = (codes "a", 2) ∷ (codes "b", 3) ∷ [];
  track_docs = false;
}

quiet-IsCounted : IsCounted quiet
unfolding key_count
quiet-IsCounted key = ground arith

wait_pass-notify_all_example :
    let keys = codes "a" ∷ [] in
    let sets = (codes "b" ∷ []) ∷ (codes "a" ∷ codes "c" ∷ []) ∷ [] in
    (any_common keys sets ≡ false
      → wait_pass keys (current_count keys quiet) 0 (notify_all sets quiet) ≡ none)
    × (any_common keys sets ≡ true
        → (count : ℕ) × (current_count keys quiet < count)
          × (wait_pass keys (current_count keys quiet) 0 (notify_all sets quiet) ≡ some (count, 0)))
wait_pass-notify_all_example =
    wait_pass-notify_all (codes "a" ∷ []) ((codes "b" ∷ []) ∷ (codes "a" ∷ codes "c" ∷ []) ∷ [])
      quiet quiet-IsCounted (omega arith)
