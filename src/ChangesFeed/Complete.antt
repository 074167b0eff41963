-- ===== src/ChangesFeed/Complete.antt =====
-- That the merge of the feeds in db/changes.go leaves nothing out.
use mathlib.Core.Path.{subst}
use sync_gateway.Prelude.{
  ℕ, zero, suc, ◌+◌, ◌≤◌, ◌<◌, ◌≡◌, ◌⊎◌, refl, ap, sym, ◌∙◌, Bool, true, false, ◌&&◌, ◌||◌, none,
  some, List, [], ◌∷◌, ltb, ◌==◌, if◌then◌else◌, arith, Bool-cases, inl, inr,
}
use sync_gateway.SequenceId.{SequenceId, int_before}
use sync_gateway.ChangesFeed.{
  ChangeEntry, Iteration, Outcome, max_sequence_id, same_seq, merge_removed, clear_current,
  mark_removed, send, merge_loop, count_entries, merge_feeds,
}
use sync_gateway.ChangesFeed.Heads.{IsPlain, AllRise, NoneBefore, IsHead, same_seq_sound}
use sync_gateway.ChangesFeed.Rounds.{
  find_min-Minimum, clear_current-AllAbove, count-clear_current_found, clear_current-seq,
  IsHead-IsPlain,
}
use sync_gateway.ChangesFeed.Merge.{own, mark_removed-seq, own-plain}

-- A sequence is among what is sent.
abbrev pub WasSent : SequenceId → List ChangeEntry → Type 0
WasSent s [] = ⊥
WasSent s (e ∷ es) = (own e.seq ≡ s) ⊎ WasSent s es

-- Every entry of a feed, and of all feeds, is.
abbrev pub FeedSent : List ChangeEntry → List ChangeEntry → Type 0
FeedSent sent [] = Unit {0}
FeedSent sent (e ∷ es) = WasSent e.seq sent × FeedSent sent es

abbrev pub AllSent : List ChangeEntry → List (List ChangeEntry) → Type 0
AllSent sent [] = Unit {0}
AllSent sent (feed ∷ feeds) = FeedSent sent feed × AllSent sent feeds

-- Every entry comes before the highest sequence there is, and is not above the stable one.
abbrev pub Within : ℕ → List ChangeEntry → Type 0
Within stable [] = Unit {0}
Within stable (e ∷ es) =
    (int_before e.seq max_sequence_id ≡ true) × (e.seq.seq ≤ stable) × Within stable es

abbrev pub AllWithin : ℕ → List (List ChangeEntry) → Type 0
AllWithin stable [] = Unit {0}
AllWithin stable (feed ∷ feeds) = Within stable feed × AllWithin stable feeds

FeedSent-more :
    (e : ChangeEntry) (sent es : List ChangeEntry) → FeedSent sent es → FeedSent (e ∷ sent) es
FeedSent-more e sent [] f = tt
FeedSent-more e sent (x ∷ es) f = (inr f.0, FeedSent-more e sent es f.1)

AllSent-more :
    (e : ChangeEntry) (sent : List ChangeEntry) (feeds : List (List ChangeEntry))
    → AllSent sent feeds
    → AllSent (e ∷ sent) feeds
AllSent-more e sent [] f = tt
AllSent-more e sent (feed ∷ feeds) f =
    (FeedSent-more e sent feed f.0, AllSent-more e sent feeds f.1)

-- When no head comes before the highest sequence, there are no entries.
all_empty :
    (stable : ℕ) (feeds : List (List ChangeEntry))
    → NoneBefore max_sequence_id feeds
    → AllWithin stable feeds
    → AllSent [] feeds
all_empty stable [] n w = tt
all_empty stable ([] ∷ feeds) n w = (tt, all_empty stable feeds n w.1)
all_empty stable ((c ∷ es) ∷ feeds) n w = let h = w.0.0 in let k = n.0 in cc

-- What was cleared has the sequence, and the rest is left.
clear_current-AllSent :
    (i k : ℕ) (s : SequenceId) (sent : List ChangeEntry) (feeds : List (List ChangeEntry))
    (e : ChangeEntry)
    → IsPlain s
    → AllRise feeds
    → WasSent s sent
    → AllSent sent (clear_current i k s feeds e).0
    → AllSent sent feeds
unfolding clear_current
clear_current-AllSent i k s sent [] e p r w a = tt
clear_current-AllSent i k s sent ([] ∷ feeds) e p r w a =
    (tt, clear_current-AllSent (i + 1) k s sent feeds e p r.1 w a.1)
clear_current-AllSent i k s sent ((c ∷ es) ∷ feeds) e p r w a =
    elim (Bool-cases (same_seq c.seq s)) [
      | inl same ↦
          let q = same_seq_sound c.seq s r.0.0 p same in
          let b = rw same at a in
          (
            (subst (λ z. WasSent z sent) (sym q) w, b.0),
            clear_current-AllSent (i + 1) k s sent feeds (merge_removed (i == k) c e) p r.1 w b.1,
          )
      | inr other ↦
          let b = rw other at a in (b.0, clear_current-AllSent (i + 1) k s sent feeds e p r.1 w b.1)
    ]

clear_current-AllWithin :
    (i k stable : ℕ) (s : SequenceId) (feeds : List (List ChangeEntry)) (e : ChangeEntry)
    → AllWithin stable feeds
    → AllWithin stable (clear_current i k s feeds e).0
unfolding clear_current
clear_current-AllWithin i k stable s [] e w = tt
clear_current-AllWithin i k stable s ([] ∷ feeds) e w =
    (tt, clear_current-AllWithin (i + 1) k stable s feeds e w.1)
clear_current-AllWithin i k stable s ((c ∷ es) ∷ feeds) e w = elim (Bool-cases (same_seq c.seq s)) [
  | inl same ↦
      rw same
        (w.0.2, clear_current-AllWithin (i + 1) k stable s feeds (merge_removed (i == k) c e) w.1)
  | inr other ↦ rw other (w.0, clear_current-AllWithin (i + 1) k stable s feeds e w.1)
]

IsHead-Within :
    (stable : ℕ) (e : ChangeEntry) (feeds : List (List ChangeEntry))
    → IsHead e feeds
    → AllWithin stable feeds
    → e.seq.seq ≤ stable
IsHead-Within stable e [] h w = absurd h
IsHead-Within stable e ([] ∷ feeds) h w = IsHead-Within stable e feeds h w.1
IsHead-Within stable e ((c ∷ es) ∷ feeds) h w = elim h [
  | inl q ↦ subst (λ z. z.seq.seq ≤ stable) q w.0.1
  | inr l ↦ IsHead-Within stable e feeds l w.1
]

merge_loop-AllSent :
    (fuel : ℕ) (it : Iteration) (since : SequenceId) (post_stable : Bool)
    (feeds : List (List ChangeEntry))
    → it.active_only ≡ false
    → AllRise feeds
    → AllWithin it.current_cached_sequence feeds
    → count_entries feeds < fuel
    → (o : Outcome) × (merge_loop fuel it since 0 post_stable feeds ≡ some o) × AllSent o.sent feeds
unfolding merge_loop send
merge_loop-AllSent zero it since post_stable feeds n r w b = absurd (omega (arith, b))
merge_loop-AllSent (suc fuel) it since post_stable feeds n r w b =
    let m = find_min-Minimum 0 max_sequence_id none feeds in
    elim m.outcome [
      | inl (q, z) ↦
          let a =
            all_empty it.current_cached_sequence feeds (subst (λ s. NoneBefore s feeds) z m.least)
              w in
          rw (merge_loop, q) (_, refl, a)
      | inr (k, found, q, z, h) ↦
          let p = IsHead-IsPlain found feeds h r in
          let e = mark_removed found in
          let c = clear_current 0 k found.seq feeds e in
          let t =
            clear_current-AllAbove 0 k found.seq feeds e p
              (subst (λ s. NoneBefore s feeds) (sym z) m.least) r in
          let f : count_entries c.0 < fuel =
            omega (arith, count-clear_current_found 0 k found feeds e p h, b) in
          let u : c.1.seq ≡ found.seq =
            clear_current-seq 0 k found.seq feeds e ∙ mark_removed-seq found in
          let v : c.1.seq.seq ≡ found.seq.seq = ap (λ s. s.seq) u in
          let stable : ltb it.current_cached_sequence c.1.seq.seq ≡ false =
            ground (arith, v, IsHead-Within it.current_cached_sequence found feeds h w) in
          let since' = if int_before since found.seq then found.seq else since in
          let (o, g, a) =
            merge_loop-AllSent fuel it since' post_stable c.0 n t.1
              (clear_current-AllWithin 0 k it.current_cached_sequence found.seq feeds e w) f in
          let shown = record c.1 { seq = record c.1.seq { low_seq = it.low_sequence } } in
          let all : (it.active_only && (c.1.deleted || c.1.all_removed)) ≡ false =
            ap (λ x. x && (c.1.deleted || c.1.all_removed)) n in
          rw (merge_loop, q, all, stable)
            (
              record o { sent = shown ∷ o.sent },
              ap (send shown) g,
              clear_current-AllSent 0 k found.seq (shown ∷ o.sent) feeds e p r
                  (inl (own-plain c.1.seq found.seq p u)) (AllSent-more shown o.sent c.0 a),
            )
    ]

-- Without a limit, and without the filter on active revisions, the merge of feeds that each rise, of
-- entries before the highest sequence there is and not above the stable one, sends every entry's
-- sequence.
pub merge_feeds-AllSent :
    (it : Iteration) (since : SequenceId) (feeds : List (List ChangeEntry))
    → it.active_only ≡ false
    → AllRise feeds
    → AllWithin it.current_cached_sequence feeds
    → (o : Outcome) × (merge_feeds it since 0 feeds ≡ some o) × AllSent o.sent feeds
unfolding merge_feeds
merge_feeds-AllSent it since feeds n r w =
    merge_loop-AllSent (suc (count_entries feeds)) it since false feeds n r w (omega arith)
