-- ===== src/ChannelCache/Insert.antt =====
-- The walk of db/channel_cache.go's `insertChange` over the entries, newest first.
use sync_gateway.Prelude.{
  ℕ, ◌+◌, ◌<◌, ◌≤◌, ◌≡◌, refl, sym, ◌∙◌, inl, inr, Bool, true, false, ◌&&◌, List, [], ◌∷◌, arith,
  ltb, leb, if◌then◌else◌, Str, str_eq, str_eq_iff, str_eq_refl, length, Bool-cases, Option-cases,
}
use sync_gateway.LogEntry.{LogEntry}
use sync_gateway.ChannelCache.{
  find_doc, remove_doc, Insertion, later_cached, inserted, replaced, keep, insert_here, insert_walk,
}
use sync_gateway.ChannelCache.View.{
  seq_of, has_doc, has_seq, Below, Sorted, AtLeast, Distinct, larger, Below-Sorted, seq_of-lt,
  find_doc-none, find_doc-some, length-remove_doc, remove_doc-Below, remove_doc-AtLeast,
  has_doc-remove_doc, seq_of-remove_doc, remove_doc-Distinct, seq_of_absent,
}

-- The entries after an insertion.
unfoldable pub logs_after : List LogEntry → Insertion → List LogEntry
logs_after l later_cached = l
logs_after l (inserted l') = l'
logs_after l (replaced o l') = l'

logs_after-keep :
    (e : LogEntry) (l : List LogEntry) (i : Insertion)
    → logs_after (e ∷ l) (keep e i) ≡ e ∷ logs_after l i
unfolding logs_after keep
logs_after-keep e l later_cached = refl
logs_after-keep e l (inserted l') = refl
logs_after-keep e l (replaced o l') = refl

-- What an insertion promises of the entries `r` that it leaves, for the entries `l` before it.
pub record Inserts (change : LogEntry) (l r : List LogEntry) : Type 0 where
  pub shows :
      (d : Str)
      → seq_of d r
        ≡ (if str_eq change.doc_id d then larger (seq_of d l) change.sequence else seq_of d l)
  pub holds : (d : Str) → has_doc d r ≡ (if str_eq change.doc_id d then true else has_doc d l)
  pub distinct : Distinct r
  pub room : length r ≤ length l + 1
  pub below : (n : ℕ) → Below n l → change.sequence < n → Below n r
  pub at_least : (v : ℕ) → AtLeast v l → v ≤ change.sequence → AtLeast v r

module _ (change : LogEntry) where
  -- At the head of older entries, with the document's older entry taken out.
  pub cons_new :
      (l : List LogEntry)
      → Below change.sequence l
      → Distinct l
      → has_doc change.doc_id l ≡ false
      → Inserts change l (change ∷ l)
  unfolding seq_of has_doc
  cons_new l b u h = record {
    shows = λ d. ground (arith, str_eq_iff change.doc_id d, seq_of_absent change.doc_id l h);
    holds = λ d. refl;
    distinct = (h, u);
    room = omega arith;
    below = λ n bn lt. (lt, b);
    at_least = λ v a le. (le, a);
  }

  pub cons_replacing :
      (l : List LogEntry)
      → 0 < change.sequence
      → Below change.sequence l
      → Distinct l
      → has_doc change.doc_id l ≡ true
      → Inserts change l (change ∷ remove_doc change.doc_id l)
  unfolding seq_of has_doc
  cons_replacing l p b u h = record {
    shows = λ d. ground (
      arith,
      str_eq_iff change.doc_id d,
      seq_of-lt change.sequence change.doc_id l p b,
      seq_of-remove_doc change.doc_id d l,
    );
    holds = λ d. ground (arith, has_doc-remove_doc change.doc_id d l u);
    distinct = (
      has_doc-remove_doc change.doc_id change.doc_id l u ∙ rw (str_eq_refl change.doc_id),
      remove_doc-Distinct change.doc_id l u,
    );
    room = omega (arith, length-remove_doc change.doc_id l);
    below = λ n bn lt. (lt, remove_doc-Below change.doc_id change.sequence l b);
    at_least = λ v a le. (le, remove_doc-AtLeast change.doc_id v l a);
  }

  -- Where a later revision is cached nothing changes.
  pub unchanged :
      (l : List LogEntry)
      → Distinct l
      → has_doc change.doc_id l ≡ true
      → change.sequence ≤ seq_of change.doc_id l
      → Inserts change l l
  unchanged l u h le = record {
    shows = λ d. ground (arith, str_eq_iff change.doc_id d);
    holds = λ d. ground (arith, str_eq_iff change.doc_id d);
    distinct = u;
    room = omega arith;
    below = λ n bn lt. bn;
    at_least = λ v a le'. a;
  }

  pub under :
      (e : LogEntry) (l r : List LogEntry)
      → Distinct (e ∷ l)
      → str_eq e.doc_id change.doc_id ≡ false
      → change.sequence < e.sequence
      → Inserts change l r
      → Inserts change (e ∷ l) (e ∷ r)
  unfolding seq_of has_doc
  under e l r u ne lt i = record {
    shows = λ d. ground (
      arith,
      i.shows d,
      str_eq_iff e.doc_id d,
      str_eq_iff change.doc_id d,
      str_eq_iff e.doc_id change.doc_id,
    );
    holds = λ d. ground (arith, i.holds d);
    distinct = (
      ground (
        arith,
        i.holds e.doc_id,
        str_eq_iff change.doc_id e.doc_id,
        str_eq_iff e.doc_id change.doc_id,
      ),
      i.distinct,
    );
    room = omega (arith, i.room);
    below = λ n bn ln. (bn.0, i.below e.sequence bn.1 lt);
    at_least = λ v a le. (a.0, i.at_least v a.1 le);
  }

  insert_here-Inserts :
      (b : Bool) (l : List LogEntry)
      → 0 < change.sequence
      → Below change.sequence l
      → Distinct l
      → b ≡ has_doc change.doc_id l
      → Inserts change l (logs_after l (insert_here b change l))
  unfolding insert_here logs_after
  insert_here-Inserts false l p b u h = cons_new l b u (sym h)
  insert_here-Inserts true l p b u h = elim (Option-cases (find_doc change.doc_id l)) [
    | inl e ↦ absurd (ground (arith, find_doc-none change.doc_id l e))
    | inr (o, e) ↦
        let bigger = seq_of-lt change.sequence change.doc_id l p b in
        let (_, s) = find_doc-some change.doc_id l o e in
        let later : leb change.sequence o.sequence ≡ false = ground arith in
        rw (e, insert_here, later) (cons_replacing l p b u (sym h))
  ]

  -- The walk keeps the order, shows the larger of the two sequences of the change's document, and
  -- leaves every other document as it is.
  pub insert_walk-Inserts :
      (b : Bool) (l : List LogEntry)
      → 0 < change.sequence
      → Sorted l
      → Distinct l
      → has_seq change.sequence l ≡ false
      → b ≡ has_doc change.doc_id l
      → Inserts change l (logs_after l (insert_walk b change l))
  unfolding insert_walk has_doc has_seq seq_of
  insert_walk-Inserts b [] p s u f h = unfold logs_after in cons_new [] tt tt refl
  insert_walk-Inserts b (e ∷ es) p s u f h = elim (Bool-cases (ltb e.sequence change.sequence)) [
    | inl lt ↦ rw lt (insert_here-Inserts b (e ∷ es) p (ground arith, s) u h)
    | inr ge ↦ elim (Bool-cases (b && str_eq e.doc_id change.doc_id)) [
      | inl same ↦
          rw (ge, same) (unfold logs_after in unchanged (e ∷ es) u (ground arith) (ground arith))
      | inr other ↦
          rw (ge, other, logs_after-keep e es (insert_walk b change es))
            (under e es _ u (ground arith) (ground arith) (
              insert_walk-Inserts b es p (Below-Sorted e.sequence es s) u.1 (ground arith)
                (ground arith)))
    ]
  ]
