-- ===== src/Auth/Rebuild.antt =====
-- The channels that auth/auth.go's `rebuildChannels` computes.
use sync_gateway.Prelude.{
  ℕ, ◌≡◌, refl, ap, ◌∙◌, Option, none, some, [], ◌∷◌, if◌then◌else◌, Str, str_eq,
}
use sync_gateway.TimedSet.{TimedSet, sequence_of, add_channel, add_set, update_if_present, find}
use sync_gateway.TimedSet.Updates.{IsSimple, earliest, sequence_of-add_set, add_channel-earliest}
use sync_gateway.Auth.{Role, or_empty, rebuild_channels, document_star_channel}

update_if_present_none : (set : TimedSet) → update_if_present [] set ≡ set
unfolding update_if_present find
update_if_present_none [] = refl
update_if_present_none ((ch, v) ∷ set) = ap (λ z. (ch, v) ∷ z) (update_if_present_none set)

-- The sequence from which a principal has a channel.
unfoldable pub granted_since : Str → Role → ℕ
unfolding or_empty
granted_since ch role = sequence_of ch (or_empty role.channels)

-- `rebuildChannels` of a principal without previous channels gives each channel the earlier of the
-- sequences of its explicit grant and of the computed one, where 0 stands for none; the public
-- document channel has one no later than 1. The computed set has each channel once, and no vbucket
-- numbers. A computation that fails is an error.
pub rebuild_channels_lem :
    (compute : Role → Option TimedSet) (role : Role)
    → role.previous_channels ≡ none
    → (compute role ≡ none → rebuild_channels (some compute) role ≡ none)
      × ((view : TimedSet)
          → compute role ≡ some view
          → IsSimple view
          → (rebuilt : Role) × (rebuild_channels (some compute) role ≡ some rebuilt)
            × ((ch : Str)
                → granted_since ch rebuilt ≡ (
                    if str_eq document_star_channel ch
                    then earliest
                        (earliest
                          (sequence_of ch (or_empty role.explicit_channels))
                          (sequence_of ch view))
                        1
                    else earliest
                        (sequence_of ch (or_empty role.explicit_channels))
                        (sequence_of ch view))))
unfolding rebuild_channels granted_since
rebuild_channels_lem compute role p =
    let previous : or_empty role.previous_channels ≡ [] = ap or_empty p ∙ unfold or_empty in refl in
    (
      λ h. rw h refl,
      λ view. λ h. λ w.
          let explicit = or_empty role.explicit_channels in
          let added = (add_set view explicit).0 in
          let rebuilt : Role = record role {
            channels = some (add_channel document_star_channel 1 added).0;
            previous_channels = none;
          } in
          (
            rebuilt,
            rw h (simp (previous, update_if_present_none view, update_if_present_none explicit)),
            λ ch.
                (unfold or_empty in refl)
                ∙ add_channel-earliest ch document_star_channel 1 added
                ∙ rw (sequence_of-add_set ch view explicit w) refl,
          ),
    )
