-- ===== src/ChangesFeed/Channel.antt =====
-- The feed of one channel in db/changes.go.
use sync_gateway.Prelude.{
  ℕ, ◌<◌, ◌≡◌, ◌⊎◌, refl, true, List, [], ◌∷◌, ltb, if◌then◌else◌, Str, arith,
}
use sync_gateway.LogEntry.{LogEntry}
use sync_gateway.SequenceId.{int_before, safe_sequence}
use sync_gateway.ChangesFeed.{make_change_entry, channel_feed}
use sync_gateway.ChangesFeed.Heads.{plain, Above, Rises, Above-lower}

-- Every entry of a log has a higher sequence.
abbrev pub AllAfter : ℕ → List LogEntry → Type 0
AllAfter n [] = Unit {0}
AllAfter n (e ∷ es) = (n < e.sequence) × AllAfter n es

abbrev pub LogRises : List LogEntry → Type 0
LogRises [] = Unit {0}
LogRises (e ∷ es) = AllAfter e.sequence es × LogRises es

plain-before :
    (t n m : ℕ)
    → n < m
    → (t ≡ 0) ⊎ (n < t)
    → int_before (plain t n) (plain (if ltb m t then t else 0) m) ≡ true
unfolding int_before safe_sequence
plain-before t n m h c = ground arith

feed-Above :
    (t n : ℕ) (channel : Str) (es : List LogEntry)
    → AllAfter n es
    → LogRises es
    → (t ≡ 0) ⊎ (n < t)
    → Above (plain t n) (channel_feed t channel es)
unfolding channel_feed make_change_entry
feed-Above t n channel [] a r c = tt
feed-Above t n channel (e ∷ es) a r c =
    let u = if ltb e.sequence t then t else 0 in
    let h = plain-before t n e.sequence a.0 c in
    (
      h,
      Above-lower (plain t n) (plain u e.sequence) _ h
          (feed-Above u e.sequence channel es r.0 r.1 (ground arith)),
    )

-- From a log of rising sequences the feed of a channel rises in the order of the compound sequences,
-- those that a sequence triggered and those after it alike, and no entry has a low sequence.
pub channel_feed-Rises :
    (triggered_by : ℕ) (channel : Str) (log : List LogEntry)
    → LogRises log
    → Rises (channel_feed triggered_by channel log)
unfolding channel_feed make_change_entry
channel_feed-Rises t channel [] r = tt
channel_feed-Rises t channel (e ∷ es) r =
    let u = if ltb e.sequence t then t else 0 in
    (
      (refl, refl),
      feed-Above u e.sequence channel es r.0 r.1 (ground arith),
      channel_feed-Rises u channel es r.1,
    )
