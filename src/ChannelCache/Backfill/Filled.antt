-- ===== src/ChannelCache/Backfill/Filled.antt =====
-- A backfill by db/channel_cache.go's `prependChanges` keeps the guarantees of the cache.
use sync_gateway.Prelude.{
  ℕ, suc, ◌-◌, ◌<◌, ◌≤◌, ◌≡◌, refl, ap, ◌∙◌, true, false, List, [], ◌∷◌, ◌++◌, ◌&&◌, arith, ltb,
  leb, if◌then◌else◌, Str, str_eq_refl, length, length-append, length-take, take, Bool-cases, inl,
  inr, leb→le, leb-false,
}
use sync_gateway.LogEntry.{LogEntry}
use sync_gateway.ChannelCache.{ChannelCache, has_id}
use sync_gateway.ChannelCache.Backfill.{
  fill_empty, fill_rest, prepend_onto, prepend_changes, oldest_sequence, add_doc_ids,
}
use sync_gateway.ChannelCache.Backfill.Loop.{prepend_loop-Collects}
use sync_gateway.ChannelCache.Backfill.Empty.{
  seq_of-kept, kept-AtLeast, oldest_sequence-ge, oldest_sequence-le, has_id-add_doc_ids,
}
use sync_gateway.ChannelCache.View.{
  seq_of, has_doc, Below, Sorted, AtLeast, Distinct, Below-mono, Below-Sorted, seq_of_absent,
}
use sync_gateway.ChannelCache.Valid.{IsValid}
use sync_gateway.ChannelCache.Prune.{take-Below, take-Sorted, take-Distinct}
use sync_gateway.ChannelCache.Complete.{latest, IsComplete}

-- The results of the channel query from `from` to `to`, newest first: of each document its most
-- recent change in the channel, if that lies in the range.
pub record FromQuery (from to : ℕ) (h changes : List LogEntry) : Type 0 where
  pub positive : 0 < from
  pub sorted : Sorted changes
  pub distinct : Distinct changes
  pub at_least : AtLeast from changes
  pub exact :
      (d : Str)
      → seq_of d changes ≡ (if leb from (latest d h) && leb (latest d h) to then latest d h else 0)

pub seq_of-append :
    (d : Str) (l r : List LogEntry)
    → seq_of d (l ++ r) ≡ (if has_doc d l then seq_of d l else seq_of d r)
unfolding seq_of has_doc
seq_of-append d [] r = refl
seq_of-append d (e ∷ es) r = ground (arith, seq_of-append d es r)

pub has_doc-append :
    (d : Str) (l r : List LogEntry)
    → has_doc d (l ++ r) ≡ (if has_doc d l then true else has_doc d r)
unfolding has_doc
has_doc-append d [] r = refl
has_doc-append d (e ∷ es) r = ground (arith, has_doc-append d es r)

append-Distinct :
    (l r : List LogEntry)
    → Distinct l
    → Distinct r
    → ((d : Str) → has_doc d l ≡ true → has_doc d r ≡ false)
    → Distinct (l ++ r)
unfolding has_doc
append-Distinct [] r u w a = w
append-Distinct (e ∷ es) r u w a = (
  has_doc-append e.doc_id es r ∙ rw u.0 (a e.doc_id (rw (str_eq_refl e.doc_id))),
  append-Distinct es r u.1 w (λ d h. a d (ground arith)),
)

append-Below :
    (v n : ℕ) (l r : List LogEntry) → v ≤ n → Below n l → AtLeast v l → Below v r → Below n (l ++ r)
append-Below v n [] r le b a w = Below-mono v n r le w
append-Below v n (e ∷ es) r le b a w = (b.0, append-Below v e.sequence es r a.0 b.1 a.1 w)

append-AtLeast :
    (v w : ℕ) (l r : List LogEntry) → v ≤ w → AtLeast w l → AtLeast v r → AtLeast v (l ++ r)
append-AtLeast v w [] r le a b = b
append-AtLeast v w (e ∷ es) r le a b = (omega (arith, a.0), append-AtLeast v w es r le a.1 b)

append-Sorted : (v : ℕ) (l r : List LogEntry) → Sorted l → AtLeast v l → Below v r → Sorted (l ++ r)
append-Sorted v [] r s a w = Below-Sorted v r w
append-Sorted v (e ∷ es) r s a w = append-Below v e.sequence es r a.0 s a.1 w

has_doc-AtLeast :
    (d : Str) (v : ℕ) (l : List LogEntry) → has_doc d l ≡ true → AtLeast v l → v ≤ seq_of d l
unfolding has_doc seq_of
has_doc-AtLeast d v [] h a = cc
has_doc-AtLeast d v (e ∷ es) h a = ground (arith, has_doc-AtLeast d v es)

module _ (c : ChannelCache) (h changes : List LogEntry) (from to : ℕ) (v : IsValid c)
    (k : IsComplete c h) (q : FromQuery from to h changes) where
  fill_rest-IsComplete :
      from < c.valid_from
      → c.valid_from ≤ to
      → length c.logs < c.options.max_length
      → let r = (fill_rest changes from c).0 in
        IsValid r × IsComplete r h × (r.valid_from ≤ c.valid_from)
  unfolding fill_rest
  fill_rest-IsComplete lt le room =
      let i =
        prepend_loop-Collects c.valid_from (c.options.max_length - length c.logs) from
          c.cached_doc_ids c.stats changes q.positive (omega arith) q.sorted q.distinct
          q.at_least in
      let low = i.low (omega arith) in
      (
        record {
          ordered = record {
            positive = omega (arith, i.rises, q.positive);
            sorted =
                append-Sorted c.valid_from c.logs _ v.ordered.sorted v.ordered.at_least
                  i.below_from;
            distinct =
                append-Distinct c.logs _ v.ordered.distinct i.distinct
                  (λ d e. i.fresh d (v.ordered.ids d ∙ e));
            ids = λ d. i.ids d ∙ rw has_doc-append (ground (arith, v.ordered.ids d, i.fresh d));
            at_least = append-AtLeast _ c.valid_from c.logs _ low v.ordered.at_least i.at_least;
          };
          bounded = omega (arith, length-append {0} c.logs, i.bounded);
        },
        λ d. rw seq_of-append (
            ground (
              arith,
              i.shows d,
              v.ordered.ids d,
              k d,
              q.exact d,
              low,
              i.rises,
              has_doc-AtLeast d c.valid_from c.logs,
              seq_of_absent d c.logs,
            )),
        low,
      )

pub AtLeast-mono : (v w : ℕ) (l : List LogEntry) → v ≤ w → AtLeast w l → AtLeast v l
AtLeast-mono v w [] le a = tt
AtLeast-mono v w (e ∷ es) le a = (omega (arith, a.0), AtLeast-mono v w es le a.1)

module _ (c : ChannelCache) (h : List LogEntry) (e : LogEntry) (es : List LogEntry) (from to : ℕ)
    (v : IsValid c) (k : IsComplete c h) (q : FromQuery from to h (e ∷ es)) (empty : c.logs ≡ [])
    (le : c.valid_from ≤ to) where
  none_later : (d : Str) → latest d h < c.valid_from
  unfolding seq_of
  none_later d = ground (arith, k d, v.ordered.positive)

  newest_older : e.sequence < c.valid_from
  unfolding seq_of
  newest_older =
      ground
        (arith, none_later e.doc_id, q.exact e.doc_id, str_eq_refl e.doc_id, v.ordered.positive)

  ids_of : (l : List LogEntry) (d : Str) → has_id d (add_doc_ids l c.cached_doc_ids) ≡ has_doc d l
  unfolding has_doc
  ids_of l d =
      has_id-add_doc_ids d l c.cached_doc_ids
      ∙ ground (arith, v.ordered.ids d, ap (has_doc d) empty)

  kept_all :
      length (e ∷ es) ≤ c.options.max_length
      → let r = (fill_empty (e ∷ es) from c).0 in
        IsValid r × IsComplete r h × (r.valid_from ≤ c.valid_from)
  unfolding fill_empty
  kept_all fits =
      let same : ltb c.options.max_length (length (e ∷ es)) ≡ false = ground arith in
      rw same (
        record {
          ordered = record {
            positive = q.positive;
            sorted = q.sorted;
            distinct = q.distinct;
            ids = λ d. ids_of (e ∷ es) d;
            at_least = q.at_least;
          };
          bounded = fits;
        },
        λ d. q.exact d ∙ ground (arith, none_later d),
        omega (arith, newest_older, q.at_least.0),
      )

  kept_some :
      (n : ℕ)
      → c.options.max_length ≡ suc n
      → suc n < length (e ∷ es)
      → let r = (fill_empty (e ∷ es) from c).0 in
        IsValid r × IsComplete r h × (r.valid_from ≤ c.valid_from)
  unfolding fill_empty oldest_sequence
  kept_some n m over =
      let cut : ltb (suc n) (length (e ∷ es)) ≡ true = ground arith in
      let pos : 0 < e.sequence = omega (arith, q.positive, q.at_least.0) in
      let oldest = oldest_sequence-ge from e.sequence n es q.at_least.0 q.at_least.1 in
      let top = oldest_sequence-le e.sequence (take n es) (take-Below n e.sequence es q.sorted) in
      rw (m, cut)
        (
          record {
            ordered = record {
              positive = omega (arith, oldest, q.positive);
              sorted = take-Sorted (suc n) (e ∷ es) q.sorted;
              distinct = take-Distinct (suc n) (e ∷ es) q.distinct;
              ids = λ d. ids_of (take (suc n) (e ∷ es)) d;
              at_least = (top, kept-AtLeast n e.sequence es q.sorted);
            };
            bounded = omega (arith, length-take n es);
          },
          λ d.
              seq_of-kept d n e es pos q.sorted (AtLeast-mono 1 from es q.positive q.at_least.1)
              ∙ ground (arith, q.exact d, none_later d, oldest),
          omega (arith, top, newest_older),
        )

  fill_empty-IsComplete :
      0 < c.options.max_length
      → let r = (fill_empty (e ∷ es) from c).0 in
        IsValid r × IsComplete r h × (r.valid_from ≤ c.valid_from)
  fill_empty-IsComplete room = elim (Bool-cases (leb (length (e ∷ es)) c.options.max_length)) [
    | inl fits ↦ kept_all (leb→le _ _ fits)
    | inr over ↦ kept_some (c.options.max_length - 1) (omega arith) (ground arith)
  ]

prepend_onto-IsComplete :
    (c : ChannelCache) (h : List LogEntry) (e : LogEntry) (es : List LogEntry) (from to : ℕ)
    → IsValid c
    → IsComplete c h
    → 0 < c.options.max_length
    → FromQuery from to h (e ∷ es)
    → (l : List LogEntry) → c.logs ≡ l
    → c.valid_from ≤ to
    → let r = (prepend_onto l (e ∷ es) from c).0 in
      IsValid r × IsComplete r h × (r.valid_from ≤ c.valid_from)
unfolding prepend_onto
prepend_onto-IsComplete c h e es from to v k m q [] eq le =
    fill_empty-IsComplete c h e es from to v k q eq le m
prepend_onto-IsComplete c h e es from to v k m q (x ∷ xs) eq le =
    elim (Bool-cases (leb c.options.max_length (length c.logs))) [
      | inl full ↦ rw full (v, k, omega arith)
      | inr room ↦ elim (Bool-cases (leb c.valid_from from)) [
        | inl later ↦ rw (room, later) (v, k, omega arith)
        | inr earlier ↦
            rw (room, earlier)
              (fill_rest-IsComplete c h (e ∷ es) from to v k q (leb-false _ _ earlier) le
                (leb-false _ _ room))
      ]
    ]

-- Results of the channel query that are prepended to a valid and complete cache, with a maximum
-- length above 0, leave it valid and
-- complete, with a `validFrom` that is no higher: whether the cache was empty or not, whether all of
-- them fit or only the most recent, and where they are refused.
pub prepend_changes-IsComplete :
    (c : ChannelCache) (h changes : List LogEntry) (from to : ℕ)
    → IsValid c
    → IsComplete c h
    → 0 < c.options.max_length
    → FromQuery from to h changes
    → let r = (prepend_changes changes from to c).0 in
      IsValid r × IsComplete r h × (r.valid_from ≤ c.valid_from)
unfolding prepend_changes seq_of
prepend_changes-IsComplete c h [] from to v k m q =
    elim (Bool-cases (ltb from c.valid_from && leb c.valid_from to)) [
      | inl wider ↦ rw wider (
        record {
          ordered = record {
            positive = q.positive;
            sorted = v.ordered.sorted;
            distinct = v.ordered.distinct;
            ids = v.ordered.ids;
            at_least = AtLeast-mono from c.valid_from c.logs (ground arith) v.ordered.at_least;
          };
          bounded = v.bounded;
        },
        λ d. k d ∙ ground (arith, q.exact d),
        ground arith,
      )
      | inr same ↦ rw same (v, k, omega arith)
    ]
prepend_changes-IsComplete c h (e ∷ es) from to v k m q = elim (Bool-cases (ltb to c.valid_from)) [
  | inl apart ↦ rw apart (v, k, omega arith)
  | inr meets ↦
      rw meets (prepend_onto-IsComplete c h e es from to v k m q c.logs refl (ground arith))
]
