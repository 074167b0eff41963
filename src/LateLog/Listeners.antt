-- ===== src/LateLog/Listeners.antt =====
-- Changes feeds that listen on the late log of db/channel_cache.go.
use mathlib.Core.Path.{subst}
use sync_gateway.Prelude.{
  ℕ, ◌+◌, ◌^◌, ◌<◌, ◌≡◌, refl, ap, sym, ◌∙◌, true, false, some, List, [], ◌∷◌, ◌++◌, arith, ◌==◌,
  ==_iff, if◌then◌else◌, length, Bool-cases, inl, inr,
}
use sync_gateway.LateLog.{
  LateLog, LateLogEntry, initialize_late_logs, add_late_sequence, get_late_sequences_since,
  init_late_sequence_client, release_late_sequence_client, add_listener, update_last, last_sequence,
  entries_after,
}
use sync_gateway.LateLog.Counts.{
  count, without, has_entry, Distinct, Counted, count-without, length-without, length-without_found,
  count-stay, Counted-same, has_entry-update_last, update_last-Distinct, last_sequence-update_last,
  update_last-Counted, Left, update_first-Left,
}
use sync_gateway.LateLog.Purging.{
  purge-append_ends, purge-Purged, append-Counted, has_entry-append, append-Distinct,
  last_sequence-append, entries_after-some,
}

-- The log, and for each feed that listens the late sequence that it last saw.
pub record Feeds : Type 0 where
  pub log : LateLog
  pub seen : List ℕ

-- What may happen: a feed starts, asks for the late sequences since the one that it last saw, or
-- stops; or a late sequence arrives, one that the log does not hold.
pub data Step : Feeds → Feeds → Type 0 where
  start :
      (f : Feeds) (s : ℕ) (l : LateLog)
      → init_late_sequence_client f.log ≡ (s, l)
      → length f.seen + 1 < 2 ^ 64
      → Step f (record { log = l; seen = s ∷ f.seen })
  ask :
      (f : Feeds) (c s : ℕ) (l : LateLog) (es : List LateLogEntry)
      → 0 < count c f.seen
      → get_late_sequences_since c f.log ≡ some (es, s, l)
      → Step f (record { log = l; seen = s ∷ without c f.seen })
  stop :
      (f : Feeds) (c : ℕ) (l : LateLog)
      → 0 < count c f.seen
      → release_late_sequence_client c f.log ≡ some l
      → Step f (record { log = l; seen = without c f.seen })
  arrive :
      (f : Feeds) (s : ℕ)
      → has_entry s f.log.entries ≡ false
      → Step f (record { log = add_late_sequence s f.log; seen = f.seen })

pub data Reach : Feeds → Type 0 where
  here : Reach (record { log = initialize_late_logs; seen = [] })
  next : {f g : Feeds} → Reach f → Step f g → Reach g

-- Every entry counts its listeners, the sequences are distinct, and each feed's is among them.
pub record IsCounted (f : Feeds) : Type 0 where
  pub counted : Counted f.seen f.log.entries
  pub distinct : Distinct f.log.entries
  pub listed : (s : ℕ) → 0 < count s f.seen → has_entry s f.log.entries ≡ true
  pub last : f.log.last_late_sequence ≡ last_sequence f.log.entries
  pub bounded : length f.seen < 2 ^ 64
  pub ends : has_entry (last_sequence f.log.entries) f.log.entries ≡ true

pub start-IsCounted :
    (f : Feeds)
    → length f.seen + 1 < 2 ^ 64
    → IsCounted f
    → let (s, l) = init_late_sequence_client f.log in
      IsCounted (record { log = l; seen = s ∷ f.seen })
unfolding init_late_sequence_client count
start-IsCounted f b v = record {
  counted = update_last-Counted f.seen f.log.entries b v.distinct v.counted;
  distinct = update_last-Distinct f.log.entries v.distinct;
  listed = λ s p. has_entry-update_last s f.log.entries ∙ listed s p;
  last = v.last ∙ sym (last_sequence-update_last f.log.entries);
  bounded = omega arith;
  ends =
      rw (last_sequence-update_last f.log.entries)
        (has_entry-update_last (last_sequence f.log.entries) f.log.entries ∙ v.ends);
}
  where
    listed :
        (s : ℕ)
        → 0 < (if last_sequence f.log.entries == s then count s f.seen + 1 else count s f.seen)
        → has_entry s f.log.entries ≡ true
    listed s p = elim (Bool-cases (last_sequence f.log.entries == s)) [
      | inl same ↦
          let q : last_sequence f.log.entries ≡ s = (==_iff _ _).0 same in
          ap (λ k. has_entry k f.log.entries) (sym q) ∙ v.ends
      | inr other ↦ v.listed s (rw other at p)
    ]

-- A feed that last saw a sequence leaves its entry.
pub left-IsCounted :
    (f : Feeds) (c : ℕ) (d : Left c f.seen f.log.entries)
    → IsCounted f
    → IsCounted (record { log = record f.log { entries = d.rest }; seen = without c f.seen })
left-IsCounted f c d v = record {
  counted = d.counted;
  distinct = d.distinct;
  listed = λ s p. d.entries s ∙ v.listed s (ground (arith, count-without s c f.seen));
  last = v.last ∙ sym d.last;
  bounded = omega (arith, v.bounded, length-without c f.seen);
  ends = rw d.last (d.entries (last_sequence f.log.entries) ∙ v.ends);
}

pub leaves : (f : Feeds) (c : ℕ) → IsCounted f → 0 < count c f.seen → Left c f.seen f.log.entries
leaves f c v p =
    update_first-Left c f.seen f.log.entries v.bounded p (v.listed c p) v.distinct v.counted

-- A feed that asks for what it has not seen gets it, and moves to the last entry.
pub asked :
    (f : Feeds) (c : ℕ) (v : IsCounted f) (p : 0 < count c f.seen)
    → (c == f.log.last_late_sequence) ≡ false
    → (es : List LateLogEntry) × (entries_after c f.log.entries ≡ some es)
      × (get_late_sequences_since c f.log
          ≡ some (
            es,
            last_sequence f.log.entries,
            record f.log { entries = update_last add_listener (leaves f c v p).rest },
          ))
asked f c v p n =
    let (es, e) = entries_after-some c f.log.entries (v.listed c p) in
    (es, e, unfold get_late_sequences_since in rw (n, e, (leaves f c v p).found) refl)

pub arrive-IsCounted :
    (f : Feeds) (s : ℕ)
    → has_entry s f.log.entries ≡ false
    → IsCounted f
    → IsCounted (record { log = add_late_sequence s f.log; seen = f.seen })
unfolding add_late_sequence
arrive-IsCounted f s n v =
    let e : LateLogEntry = record { sequence = s; listener_count = 0 } in
    let u : count s f.seen ≡ 0 = ground (arith, v.listed s) in
    let p =
      purge-Purged f.seen (f.log.entries ++ e ∷ []) (append-Distinct e f.log.entries n v.distinct)
        (append-Counted f.seen e f.log.entries (sym u) v.counted) in
    record {
      counted = p.counted;
      distinct = p.distinct;
      listed = λ r q. p.keeps r q (has_entry-append r e f.log.entries ∙ rw (v.listed r q) refl);
      last = sym (p.last ∙ last_sequence-append e f.log.entries);
      bounded = v.bounded;
      ends = purge-append_ends e f.log.entries;
    }

pub stay-IsCounted :
    (f : Feeds) (c : ℕ)
    → 0 < count c f.seen
    → IsCounted f
    → IsCounted (record { log = f.log; seen = c ∷ without c f.seen })
stay-IsCounted f c p v = record {
  counted = Counted-same f.seen _ f.log.entries (λ r. count-stay r c f.seen p) v.counted;
  distinct = v.distinct;
  listed = λ s q. v.listed s (rw (count-stay s c f.seen p) at q);
  last = v.last;
  bounded = omega (arith, v.bounded, length-without_found c f.seen p);
  ends = v.ends;
}

pub move-IsCounted :
    (f : Feeds) (c : ℕ) (d : Left c f.seen f.log.entries)
    → 0 < count c f.seen
    → IsCounted f
    → IsCounted (record {
      log = record f.log { entries = update_last add_listener d.rest };
      seen = last_sequence f.log.entries ∷ without c f.seen;
    })
unfolding init_late_sequence_client
move-IsCounted f c d p v =
    let g : Feeds = record { log = record f.log { entries = d.rest }; seen = without c f.seen } in
    let b : length (without c f.seen) + 1 < 2 ^ 64 =
      omega (arith, v.bounded, length-without_found c f.seen p) in
    let m : IsCounted (record {
      log = record f.log { entries = update_last add_listener d.rest };
      seen = last_sequence d.rest ∷ without c f.seen;
    }) =
      start-IsCounted g b (left-IsCounted f c d v) in
    subst
      (λ s. IsCounted (record {
        log = record f.log { entries = update_last add_listener d.rest };
        seen = s ∷ without c f.seen;
      }))
      d.last m
