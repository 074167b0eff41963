-- ===== src/ChannelCache/Removal.antt =====
-- The purge of documents by `Remove` of db/channel_cache.go.
use sync_gateway.Prelude.{
  ℕ, ◌+◌, ◌≡◌, refl, ◌∙◌, Bool, true, false, List, [], ◌∷◌, ◌&&◌, arith, leb, if◌then◌else◌, Str,
  str_eq, str_eq_iff, length, Bool-cases, inl, inr,
}
use sync_gateway.Prelude.Int.{negsuc}
use sync_gateway.LogEntry.{LogEntry}
use sync_gateway.ChannelCache.{ChannelCache, Stats, has_id, delete_id, update_utilization}
use sync_gateway.ChannelCache.Purge.{Sweep, sweep, found_docs, remove}
use sync_gateway.ChannelCache.View.{
  seq_of, has_doc, Below, AtLeast, Distinct, Below-mono, seq_of_absent, Sorted-mono,
}
use sync_gateway.ChannelCache.Valid.{IsValid, has_id-delete_id}

-- Whether the purge of `docs` that began at `start_time` takes the document out of the entries.
unfoldable pub is_purged : List Str → ℕ → Str → List LogEntry → Bool
is_purged docs start_time d [] = false
is_purged docs start_time d (e ∷ es) =
    if str_eq e.doc_id d
    then has_id d docs && leb e.time_received start_time
    else is_purged docs start_time d es

pub record Swept (found : List Str) (start_time : ℕ) (cached : List Str) (count : ℕ)
    (l : List LogEntry) (r : Sweep) : Type 0 where
  pub shows :
      (d : Str) → seq_of d r.logs ≡ (if is_purged found start_time d l then 0 else seq_of d l)
  pub holds :
      (d : Str) → has_doc d r.logs ≡ (if is_purged found start_time d l then false else has_doc d l)
  pub ids :
      (d : Str)
      → has_id d r.cached_doc_ids
        ≡ (if is_purged found start_time d l then false else has_id d cached)
  pub distinct : Distinct r.logs
  pub below : (n : ℕ) → Below n l → Below n r.logs
  pub at_least : (v : ℕ) → AtLeast v l → AtLeast v r.logs
  pub counts : r.count + length r.logs ≡ count + length l

module _ (found : List Str) (start_time : ℕ) where
  is_purged_absent :
      (d : Str) (l : List LogEntry) → has_doc d l ≡ false → is_purged found start_time d l ≡ false
  unfolding is_purged has_doc
  is_purged_absent d [] h = refl
  is_purged_absent d (e ∷ es) h = ground (arith, is_purged_absent d es)

  sweep-Swept :
      (cached : List Str) (stats : Stats) (count : ℕ) (l : List LogEntry)
      → Distinct l
      → Swept found start_time cached count l (sweep found start_time cached stats count l)
  unfolding sweep is_purged seq_of has_doc
  sweep-Swept cached stats count [] u = record {
    shows = λ d. refl;
    holds = λ d. refl;
    ids = λ d. refl;
    distinct = tt;
    below = λ n b. tt;
    at_least = λ v a. tt;
    counts = refl;
  }
  sweep-Swept cached stats count (e ∷ es) u =
      elim (Bool-cases (has_id e.doc_id found && leb e.time_received start_time)) [
        | inl goes ↦
            let i =
              sweep-Swept (delete_id e.doc_id cached) (update_utilization e (negsuc 0) stats)
                (count + 1) es u.1 in
            rw goes (record {
              shows = λ d. ground (
                arith,
                i.shows d,
                str_eq_iff e.doc_id d,
                is_purged_absent e.doc_id es u.0,
                seq_of_absent e.doc_id es u.0,
              );
              holds = λ d.
                  ground
                    (arith, i.holds d, str_eq_iff e.doc_id d, is_purged_absent e.doc_id es u.0);
              ids = λ d. ground (
                arith,
                i.ids d,
                has_id-delete_id d e.doc_id cached,
                str_eq_iff e.doc_id d,
                is_purged_absent e.doc_id es u.0,
              );
              distinct = i.distinct;
              below = λ n b. i.below n (Below-mono e.sequence n es (omega arith) b.1);
              at_least = λ v a. i.at_least v a.1;
              counts = omega (arith, i.counts);
            })
        | inr stays ↦
            let i = sweep-Swept cached stats count es u.1 in
            rw stays (record {
              shows = λ d. ground (arith, i.shows d, str_eq_iff e.doc_id d);
              holds = λ d. ground (arith, i.holds d, str_eq_iff e.doc_id d);
              ids = λ d.
                  ground (arith, i.ids d, str_eq_iff e.doc_id d, is_purged_absent e.doc_id es u.0);
              distinct = (ground (arith, i.holds e.doc_id), i.distinct);
              below = λ n b. (b.0, i.below e.sequence b.1);
              at_least = λ v a. (a.0, i.at_least v a.1);
              counts = omega (arith, i.counts);
            })
      ]

has_id-found_docs :
    (cached : List Str) (d : Str) (ds : List Str)
    → has_id d (found_docs cached ds) ≡ has_id d ds && has_id d cached
unfolding found_docs has_id
has_id-found_docs cached d [] = refl
has_id-found_docs cached d (k ∷ ds) = ground (arith, has_id-found_docs cached d ds, str_eq_iff k d)

found-purged :
    (cached docs : List Str) (start_time : ℕ) (d : Str) (l : List LogEntry)
    → (has_doc d l ≡ true → has_id d cached ≡ true)
    → is_purged (found_docs cached docs) start_time d l ≡ is_purged docs start_time d l
unfolding is_purged has_doc
found-purged cached docs start_time d [] h = refl
found-purged cached docs start_time d (e ∷ es) h = elim (Bool-cases (str_eq e.doc_id d)) [
  | inl same ↦
      let in_cache : has_id d cached ≡ true = h (rw same) in
      ground (arith, has_id-found_docs cached d docs)
  | inr other ↦
      rw (other, is_purged) (found-purged cached docs start_time d es (λ k. h (rw other k)))
]

none_purged : (start_time : ℕ) (d : Str) (l : List LogEntry) → is_purged [] start_time d l ≡ false
unfolding is_purged has_id
none_purged start_time d [] = refl
none_purged start_time d (e ∷ es) = ground (arith, none_purged start_time d es)

-- `Remove` on a valid cache takes out exactly the entries of the given documents that were received by the start of
-- the purge, keeps the others with the cache valid, and returns how many it took.
pub remove-IsValid :
    (docs : List Str) (start_time : ℕ) (c : ChannelCache)
    → IsValid c
    → let r = remove docs start_time c in
      IsValid r.0
      × ((d : Str)
          → seq_of d r.0.logs ≡ (if is_purged docs start_time d c.logs then 0 else seq_of d c.logs))
      × (r.1 + length r.0.logs ≡ length c.logs)
unfolding remove
remove-IsValid [] start_time c v =
    (v, λ d. ground (arith, none_purged start_time d c.logs), omega arith)
remove-IsValid (d ∷ ds) start_time c v =
    let found = found_docs c.cached_doc_ids (d ∷ ds) in
    let i = sweep-Swept found start_time c.cached_doc_ids c.stats 0 c.logs v.ordered.distinct in
    (
      record {
        ordered = record {
          positive = v.ordered.positive;
          sorted = Sorted-mono c.logs _ i.below v.ordered.sorted;
          distinct = i.distinct;
          ids = λ k. ground (arith, i.ids k, i.holds k, v.ordered.ids k);
          at_least = i.at_least c.valid_from v.ordered.at_least;
        };
        bounded = omega (arith, i.counts, v.bounded);
      },
      λ k.
          i.shows k
          ∙ rw (
              found-purged c.cached_doc_ids (d ∷ ds) start_time k c.logs
                (λ h. v.ordered.ids k ∙ h)),
      omega (arith, i.counts),
    )
