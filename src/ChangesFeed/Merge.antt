-- ===== src/ChangesFeed/Merge.antt =====
-- What the merge of the feeds in db/changes.go sends.
use mathlib.Core.Path.{subst}
use sync_gateway.Prelude.{
  ℕ, zero, suc, ◌-◌, ◌<◌, ◌≡◌, refl, ap, sym, ◌∙◌, Bool, true, false, ◌&&◌, ◌||◌, Option, none,
  some, List, [], ◌∷◌, ltb, ◌==◌, if◌then◌else◌, arith, Bool-cases, Option-cases, inl, inr,
}
use sync_gateway.SequenceId.{SequenceId, int_before}
use sync_gateway.ChangesFeed.{
  ChangeEntry, Iteration, Outcome, max_sequence_id, clear_current, mark_removed, send, merge_loop,
  count_entries, merge_feeds,
}
use sync_gateway.ChangesFeed.Heads.{IsPlain, AllRise, AllAbove, NoneBefore, IsHead}
use sync_gateway.ChangesFeed.Rounds.{
  find_min-Minimum, clear_current-AllAbove, count-clear_current_found, clear_current-seq,
  IsHead-IsPlain, IsHead-AllAbove, AllAbove-lower,
}

-- A sequence without the low sequence that the request put on it.
abbrev pub own : SequenceId → SequenceId
own s = record s { low_seq = 0 }

-- All that is sent comes after a sequence, and is in order.
abbrev pub SentAbove : SequenceId → List ChangeEntry → Type 0
SentAbove s [] = Unit {0}
SentAbove s (e ∷ es) = (int_before s (own e.seq) ≡ true) × SentAbove s es

abbrev pub SentRises : List ChangeEntry → Type 0
SentRises [] = Unit {0}
SentRises (e ∷ es) = SentAbove (own e.seq) es × SentRises es

pub mark_removed-seq : (e : ChangeEntry) → (mark_removed e).seq ≡ e.seq
unfolding mark_removed
mark_removed-seq e = elim (Option-cases (e.removed)) [
  | inl h ↦ simp (mark_removed, h)
  | inr (r, h) ↦ simp (mark_removed, h)
]

pub own-plain : (s t : SequenceId) → IsPlain t → s ≡ t → own s ≡ t
own-plain s t p q = ap own q ∙ ap (λ l. record t { low_seq = l }) (sym p.0)

-- A round that found an entry: what is left of the feeds, and the entry as it is sent.
record Round (found : ChangeEntry) (feeds rest : List (List ChangeEntry)) (e : ChangeEntry)
    : Type 0 where
  plain_seq : IsPlain found.seq
  seq : own e.seq ≡ found.seq
  rises : AllRise rest
  above : AllAbove found.seq rest
  fewer : count_entries rest < count_entries feeds
  lower : (s : SequenceId) → AllAbove s feeds → int_before s found.seq ≡ true

round :
    (k : ℕ) (found : ChangeEntry) (feeds : List (List ChangeEntry))
    → AllRise feeds
    → NoneBefore found.seq feeds
    → IsHead found feeds
    → let c = clear_current 0 k found.seq feeds (mark_removed found) in Round found feeds c.0 c.1
round k found feeds r n h =
    let p = IsHead-IsPlain found feeds h r in
    let e = mark_removed found in
    let c = clear_current-AllAbove 0 k found.seq feeds e p n r in
    record {
      plain_seq = p;
      seq =
          own-plain _ found.seq p
            (clear_current-seq 0 k found.seq feeds e ∙ mark_removed-seq found);
      rises = c.1;
      above = c.0;
      fewer = count-clear_current_found 0 k found feeds e p h;
      lower = λ s a. IsHead-AllAbove s found feeds h a;
    }

-- What the loop comes to.
abbrev Merged : List (List ChangeEntry) → Option Outcome → Type 0
Merged feeds r =
    (o : Outcome) × (r ≡ some o)
    × SentRises o.sent
    × ((s : SequenceId) → AllAbove s feeds → SentAbove s o.sent)

-- An entry that is dropped, and one that is sent before the rest.
dropped :
    (found : ChangeEntry) (feeds rest : List (List ChangeEntry)) (e : ChangeEntry)
    (r : Option Outcome)
    → Round found feeds rest e
    → Merged rest r
    → Merged feeds r
dropped found feeds rest e r d (o, q, m, a) =
    (o, q, m, λ s b. a s (AllAbove-lower s found.seq rest (d.lower s b) d.above))

sent_first :
    (found : ChangeEntry) (feeds rest : List (List ChangeEntry)) (e : ChangeEntry) (low : ℕ)
    (r : Option Outcome)
    → Round found feeds rest e
    → Merged rest r
    → Merged feeds (send (record e { seq = record e.seq { low_seq = low } }) r)
unfolding send
sent_first found feeds rest e low r d (o, q, m, a) = (
  _,
  ap (send (record e { seq = record e.seq { low_seq = low } })) q,
  (subst (λ z. SentAbove z o.sent) (sym d.seq) (a found.seq d.above), m),
  λ s b. (
    ap (int_before s) d.seq ∙ d.lower s b,
    a s (AllAbove-lower s found.seq rest (d.lower s b) d.above),
  ),
)

merge_loop-Merged :
    (fuel : ℕ) (it : Iteration) (since : SequenceId) (limit : ℕ) (post_stable : Bool)
    (feeds : List (List ChangeEntry))
    → AllRise feeds
    → count_entries feeds < fuel
    → Merged feeds (merge_loop fuel it since limit post_stable feeds)
unfolding merge_loop
merge_loop-Merged zero it since limit post_stable feeds r b = absurd (omega (arith, b))
merge_loop-Merged (suc fuel) it since limit post_stable feeds r b =
    let m = find_min-Minimum 0 max_sequence_id none feeds in
    elim m.outcome [
      | inl (q, z) ↦
          rw (merge_loop, q)
            (
              record {
                sent = [];
                since = since;
                limit = limit;
                post_stable_seqs_found = post_stable;
                stopped = false;
              },
              refl,
              tt,
              λ s a. tt,
            )
      | inr (k, found, q, z, h) ↦
          let c = clear_current 0 k found.seq feeds (mark_removed found) in
          let d = round k found feeds r (subst (λ s. NoneBefore s feeds) (sym z) m.least) h in
          let f : count_entries c.0 < fuel = omega (arith, d.fewer, b) in
          let since' = if int_before since found.seq then found.seq else since in
          elim (Bool-cases (it.active_only && (c.1.deleted || c.1.all_removed))) [
            | inl inactive ↦
                rw (merge_loop, q, inactive)
                  (dropped found feeds c.0 c.1 _ d
                    (merge_loop-Merged fuel it since limit post_stable c.0 d.rises f))
            | inr active ↦ elim (Bool-cases (ltb it.current_cached_sequence c.1.seq.seq)) [
              | inl late ↦
                  rw (merge_loop, q, active, late)
                    (dropped found feeds c.0 c.1 _ d
                      (merge_loop-Merged fuel it since limit true c.0 d.rises f))
              | inr stable ↦ elim (Bool-cases (limit == 1)) [
                | inl last ↦
                    rw (merge_loop, q, active, stable, last)
                      (_, refl, (tt, tt), λ s a. (ap (int_before s) d.seq ∙ d.lower s a, tt))
                | inr more ↦
                    rw (merge_loop, q, active, stable, more)
                      (sent_first found feeds c.0 c.1 it.low_sequence _ d
                        (merge_loop-Merged fuel it since' (limit - 1) post_stable c.0 d.rises f))
              ]
            ]
          ]
    ]

-- Feeds that each rise in the order of sequences, with no low sequence in their entries, are merged
-- within the fuel, whatever is filtered out, and what is sent rises strictly in that order, its own low
-- sequence aside: no sequence is sent twice.
pub merge_feeds-SentRises :
    (it : Iteration) (since : SequenceId) (limit : ℕ) (feeds : List (List ChangeEntry))
    → AllRise feeds
    → (o : Outcome) × (merge_feeds it since limit feeds ≡ some o) × SentRises o.sent
unfolding merge_feeds
merge_feeds-SentRises it since limit feeds r =
    let (o, q, m, a) =
      merge_loop-Merged (suc (count_entries feeds)) it since limit false feeds r (omega arith) in
    (o, q, m)
