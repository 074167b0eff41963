-- ===== src/ChannelCache/Backfill/Loop.antt =====
-- The loop of db/channel_cache.go's `prependChanges`.
use sync_gateway.Prelude.{
  ℕ, ◌-◌, ◌<◌, ◌≤◌, ◌≡◌, refl, true, false, List, [], ◌∷◌, ◌&&◌, not, arith, ltb, leb,
  if◌then◌else◌, Str, str_eq_iff, length, Bool-cases, inl, inr,
}
use sync_gateway.Prelude.Int.{pos}
use sync_gateway.LogEntry.{LogEntry}
use sync_gateway.ChannelCache.{Stats, has_id, add_id, update_utilization}
use sync_gateway.ChannelCache.Backfill.{Prepended, prepend_loop}
use sync_gateway.ChannelCache.View.{
  seq_of, has_doc, Below, Sorted, AtLeast, Distinct, Below-mono, Below-Sorted, seq_of-lt,
  seq_of_absent,
}
use sync_gateway.ChannelCache.Valid.{has_id-add_id}
use sync_gateway.ChannelCache.Prune.{visible}

-- A sequence below `v`: 0 otherwise.
abbrev pub under : ℕ → ℕ → ℕ
under v s = if ltb s v then s else 0

-- What the loop promises: of the documents that are not cached it takes the results below the
-- cache's `validFrom`, down to the sequence from which it then says that they are valid.
pub record Collects (v room from : ℕ) (cached : List Str) (l : List LogEntry) (r : Prepended)
    : Type 0 where
  pub shows :
      (d : Str)
      → seq_of d r.entries ≡ (if has_id d cached then 0 else visible r.from (under v (seq_of d l)))
  pub fresh : (d : Str) → has_id d cached ≡ true → has_doc d r.entries ≡ false
  pub ids :
      (d : Str)
      → has_id d r.cached_doc_ids ≡ (if has_doc d r.entries then true else has_id d cached)
  pub distinct : Distinct r.entries
  pub bounded : length r.entries ≤ room
  pub below : (n : ℕ) → Below n l → Below n r.entries
  pub below_from : Below v r.entries
  pub at_least : AtLeast r.from r.entries
  pub rises : from ≤ r.from
  pub low : from ≤ v → r.from ≤ v
  pub falls : (n : ℕ) → from ≤ n → Below n l → r.from ≤ n

pub prepend_loop-Collects :
    (v room from : ℕ) (cached : List Str) (stats : Stats) (l : List LogEntry)
    → 0 < from
    → 0 < room
    → Sorted l
    → Distinct l
    → AtLeast from l
    → Collects v room from cached l (prepend_loop v room from cached stats l)
unfolding prepend_loop seq_of has_doc
prepend_loop-Collects v room from cached stats [] p q s u a = record {
  shows = λ d. ground arith;
  fresh = λ d h. refl;
  ids = λ d. refl;
  distinct = tt;
  bounded = omega arith;
  below = λ n b. tt;
  below_from = tt;
  at_least = tt;
  rises = omega arith;
  low = λ le. le;
  falls = λ n le b. le;
}
prepend_loop-Collects v room from cached stats (e ∷ es) p q s u a =
    elim (Bool-cases (ltb e.sequence v && not (has_id e.doc_id cached))) [
      | inr passed ↦
          let i =
            prepend_loop-Collects v room from cached stats es p q (Below-Sorted e.sequence es s) u.1
              a.1 in
          rw passed (record {
            shows = λ d.
                ground (arith, i.shows d, str_eq_iff e.doc_id d, seq_of_absent e.doc_id es u.0);
            fresh = i.fresh;
            ids = i.ids;
            distinct = i.distinct;
            bounded = i.bounded;
            below = λ n b. i.below n (Below-mono e.sequence n es (omega arith) b.1);
            below_from = i.below_from;
            at_least = i.at_least;
            rises = i.rises;
            low = i.low;
            falls = λ n le b. i.falls n le (Below-mono e.sequence n es (omega arith) b.1);
          })
      | inl taken ↦ elim (Bool-cases (leb room 1)) [
        | inl full ↦
            rw (taken, full)
              (record {
                shows = λ d. ground (
                  arith,
                  str_eq_iff e.doc_id d,
                  seq_of-lt e.sequence d es (omega (arith, a.0)) s,
                );
                fresh = λ d h. ground (arith, str_eq_iff e.doc_id d);
                ids = λ d. ground (arith, has_id-add_id d e.doc_id cached);
                distinct = (refl, tt);
                bounded = omega arith;
                below = λ n b. (b.0, tt);
                below_from = (ground arith, tt);
                at_least = (omega arith, tt);
                rises = a.0;
                low = λ le. ground arith;
                falls = λ n le b. omega arith;
              })
        | inr more ↦
            let i =
              prepend_loop-Collects v (room - 1) from (add_id e.doc_id cached)
                (update_utilization e (pos 1) stats) es p (ground arith)
                (Below-Sorted e.sequence es s) u.1 a.1 in
            rw (taken, more)
              (record {
                shows = λ d. ground (
                  arith,
                  i.shows d,
                  has_id-add_id d e.doc_id cached,
                  str_eq_iff e.doc_id d,
                  i.falls e.sequence a.0 s,
                  seq_of_absent e.doc_id es u.0,
                );
                fresh = λ d h.
                    ground
                      (arith, i.fresh d, has_id-add_id d e.doc_id cached, str_eq_iff e.doc_id d);
                ids = λ d.
                    ground (arith, i.ids d, has_id-add_id d e.doc_id cached, str_eq_iff e.doc_id d);
                distinct = (
                  i.fresh e.doc_id (
                      ground (
                        arith,
                        has_id-add_id e.doc_id e.doc_id cached,
                        str_eq_iff e.doc_id e.doc_id,
                      )),
                  i.distinct,
                );
                bounded = ground (arith, i.bounded);
                below = λ n b. (b.0, i.below e.sequence b.1);
                below_from = (ground arith, i.below e.sequence s);
                at_least = (i.falls e.sequence a.0 s, i.at_least);
                rises = i.rises;
                low = i.low;
                falls = λ n le b. i.falls n le (Below-mono e.sequence n es (omega arith) b.1);
              })
      ]
    ]
