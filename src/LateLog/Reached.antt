-- ===== src/LateLog/Reached.antt =====
-- The states of the late log of db/channel_cache.go that feeds and arrivals lead to.
use mathlib.Core.Path.{subst}
use sync_gateway.Prelude.{
  ℕ, ◌<◌, ◌≡◌, refl, ap, sym, ◌∙◌, true, false, Option, none, some, List, [], ◌∷◌, arith, ◌==◌,
  ==_iff, Bool-cases, inl, inr,
}
use sync_gateway.LateLog.{
  LateLog, LateLogEntry, initialize_late_logs, add_late_sequence, get_late_sequences_since,
  release_late_sequence_client, add_listener, update_last, last_sequence,
}
use sync_gateway.LateLog.Counts.{count, without, has_entry, Left}
use sync_gateway.LateLog.Purging.{has_entry-after}
use sync_gateway.LateLog.Listeners.{
  Feeds, Step, start, ask, stop, arrive, Reach, here, next, IsCounted, start-IsCounted,
  left-IsCounted, leaves, asked, arrive-IsCounted, stay-IsCounted, move-IsCounted,
}

-- The state after a feed has asked.
unfoldable answered : Feeds → ℕ → Option (List LateLogEntry × ℕ × LateLog) → Feeds
answered f c none = f
answered f c (some (es, s, l)) = record { log = l; seen = s ∷ without c f.seen }

ask-IsCounted :
    (f : Feeds) (c : ℕ)
    → 0 < count c f.seen
    → IsCounted f
    → IsCounted (answered f c (get_late_sequences_since c f.log))
ask-IsCounted f c p v = elim (Bool-cases (c == f.log.last_late_sequence)) [
  | inl last ↦
      subst (λ o. IsCounted (answered f c o)) (sym (current last))
        (unfold answered in stay-IsCounted f c p v)
  | inr other ↦
      let (es, e, q) = asked f c v p other in
      subst (λ o. IsCounted (answered f c o)) (sym q)
        (unfold answered in move-IsCounted f c (leaves f c v p) p v)
]
  where
    current :
        (c == f.log.last_late_sequence) ≡ true
        → get_late_sequences_since c f.log ≡ some ([], c, f.log)
    current q = unfold get_late_sequences_since in rw q refl

-- The state after a feed has stopped.
unfoldable stopped : Feeds → ℕ → Option LateLog → Feeds
stopped f c none = f
stopped f c (some l) = record { log = l; seen = without c f.seen }

released :
    (f : Feeds) (c : ℕ) (d : Left c f.seen f.log.entries)
    → release_late_sequence_client c f.log ≡ some (record f.log { entries = d.rest })
unfolding release_late_sequence_client
released f c d = rw (release_late_sequence_client, d.found) refl

stop-IsCounted :
    (f : Feeds) (c : ℕ)
    → 0 < count c f.seen
    → IsCounted f
    → IsCounted (stopped f c (release_late_sequence_client c f.log))
stop-IsCounted f c p v =
    let d = leaves f c v p in
    subst (λ o. IsCounted (stopped f c o)) (sym (released f c d))
      (unfold stopped in left-IsCounted f c d v)

started : Feeds → ℕ × LateLog → Feeds
started f (s, l) = record { log = l; seen = s ∷ f.seen }

Step-IsCounted : {f g : Feeds} → Step f g → IsCounted f → IsCounted g
unfolding answered stopped started
Step-IsCounted (start f s l e b) v = subst (λ o. IsCounted (started f o)) e (start-IsCounted f b v)
Step-IsCounted (ask f c s l es p e) v =
    subst (λ o. IsCounted (answered f c o)) e (ask-IsCounted f c p v)
Step-IsCounted (stop f c l p e) v =
    subst (λ o. IsCounted (stopped f c o)) e (stop-IsCounted f c p v)
Step-IsCounted (arrive f s n) v = arrive-IsCounted f s n v

initial-IsCounted : IsCounted (record { log = initialize_late_logs; seen = [] })
unfolding initialize_late_logs count has_entry last_sequence
initial-IsCounted = record {
  counted = (refl, tt);
  distinct = (refl, tt);
  listed = λ s p. absurd (omega (arith, p));
  last = refl;
  bounded = omega arith;
  ends = refl;
}

-- However the feeds start, ask and stop, and the late sequences arrive, each entry of the log counts
-- exactly the feeds that last saw it, without wrapping, and each feed's entry is in the log.
pub Reach-IsCounted : {f : Feeds} → Reach f → IsCounted f
Reach-IsCounted here = initial-IsCounted
Reach-IsCounted (next r s) = Step-IsCounted s (Reach-IsCounted r)

answer-after :
    (f : Feeds) (c : ℕ)
    → IsCounted f
    → 0 < count c f.seen
    → (c == f.log.last_late_sequence) ≡ false
    → (es : List LateLogEntry) × (l : LateLog) × (get_late_sequences_since c f.log
        ≡ some (es, f.log.last_late_sequence, l))
      × (has_entry f.log.last_late_sequence es ≡ true)
answer-after f c v p n =
    let (es, e, q) = asked f c v p n in
    let m : (last_sequence f.log.entries == c) ≡ false = ground (arith, v.last, n) in
    let l : LateLog = record f.log { entries = update_last add_listener (leaves f c v p).rest } in
    (
      es,
      l,
      q ∙ ap (λ k. some (es, k, l)) (sym v.last),
      ap (λ k. has_entry k es) v.last ∙ has_entry-after c f.log.entries es e m (v.listed c p),
    )

-- In a state that feeds and arrivals lead to, let a late sequence arrive that the log does not hold.
-- A feed that listens and asks next gets no rollback error: it gets entries that hold the
-- new sequence, and its next position is that sequence.
pub add_late_sequence-get_late_sequences_since :
    {f : Feeds} (c s : ℕ)
    → Reach f
    → 0 < count c f.seen
    → has_entry s f.log.entries ≡ false
    → (es : List LateLogEntry) × (l : LateLog) × (get_late_sequences_since c
          (add_late_sequence s f.log)
        ≡ some (es, s, l))
      × (has_entry s es ≡ true)
add_late_sequence-get_late_sequences_since {f} c s r p n =
    let v = Reach-IsCounted r in
    let (es, l, q, h) =
      answer-after (record { log = add_late_sequence s f.log; seen = f.seen }) c
        (arrive-IsCounted f s n v) p (unfold add_late_sequence in new) in
    (es, l, unfold add_late_sequence in q, unfold add_late_sequence in h)
  where
    new : (c == s) ≡ false
    new = elim (Bool-cases (c == s)) [
      | inl same ↦
          let e : c ≡ s = (==_iff _ _).0 same in
          let h : has_entry s f.log.entries ≡ true =
            ap (λ k. has_entry k f.log.entries) (sym e) ∙ (Reach-IsCounted r).listed c p in
          cc
      | inr other ↦ other
    ]
