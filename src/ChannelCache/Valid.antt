-- ===== src/ChannelCache/Valid.antt =====
-- The invariant of db/channel_cache.go's cache, and what an append keeps of it.
use sync_gateway.Prelude.{
  suc, ◌<◌, ◌≤◌, ◌≡◌, refl, sym, ◌∙◌, inl, inr, true, false, List, [], ◌∷◌, arith, ltb, leb,
  if◌then◌else◌, Str, str_eq, str_eq_iff, length, Bool-cases, leb→le, leb-false, Option-cases,
}
use sync_gateway.LogEntry.{LogEntry}
use sync_gateway.ChannelCache.{
  ChannelCache, has_id, add_id, delete_id, find_doc, insert_walk, insert_change, after_insertion,
  Insertion, later_cached, inserted, replaced, append_new, append_known, append_after,
  append_change, adjust_first_seq,
}
use sync_gateway.ChannelCache.View.{
  has_doc, has_seq, Below, Sorted, AtLeast, Distinct, find_doc-none, find_doc-some,
  remove_doc-Below, Below-Sorted,
}
use sync_gateway.ChannelCache.Insert.{
  logs_after, Inserts, cons_new, cons_replacing, insert_walk-Inserts,
}

-- The entries are in order, one to a document, the set of ids is that of their documents, and no
-- entry is older than `validFrom`.
pub record IsOrdered (c : ChannelCache) : Type 0 where
  pub positive : 0 < c.valid_from
  pub sorted : Sorted c.logs
  pub distinct : Distinct c.logs
  pub ids : (d : Str) → has_id d c.cached_doc_ids ≡ has_doc d c.logs
  pub at_least : AtLeast c.valid_from c.logs

pub record IsValid (c : ChannelCache) : Type 0 where
  pub ordered : IsOrdered c
  pub bounded : length c.logs ≤ c.options.max_length

pub has_id-add_id :
    (d k : Str) (ids : List Str)
    → has_id d (add_id k ids) ≡ (if str_eq k d then true else has_id d ids)
unfolding has_id add_id
has_id-add_id d k ids = ground (arith, str_eq_iff k d)

pub has_id-delete_id :
    (d k : Str) (ids : List Str)
    → has_id d (delete_id k ids) ≡ (if str_eq k d then false else has_id d ids)
unfolding has_id delete_id
has_id-delete_id d k [] = ground arith
has_id-delete_id d k (i ∷ ids) =
    ground (arith, has_id-delete_id d k ids, str_eq_iff i k, str_eq_iff i d, str_eq_iff k d)

-- What an append does to a cache that it leaves in order.
pub record Appends (change : LogEntry) (c r : ChannelCache) : Type 0 where
  pub inserts : Inserts change c.logs r.logs
  pub sorted : Sorted r.logs
  pub ids : (d : Str) → has_id d r.cached_doc_ids ≡ has_doc d r.logs
  pub valid_from : r.valid_from ≡ c.valid_from
  pub options : r.options ≡ c.options

module _ (change : LogEntry) (c : ChannelCache) where
  after_insertion_fields :
      (i : Insertion)
      → let r = after_insertion change c i in
        (r.logs ≡ logs_after c.logs i)
        × (r.valid_from ≡ c.valid_from)
        × (r.options ≡ c.options)
        × (r.cached_doc_ids ≡ c.cached_doc_ids)
  unfolding after_insertion logs_after
  after_insertion_fields later_cached = (refl, refl, refl, refl)
  after_insertion_fields (inserted l) = (refl, refl, refl, refl)
  after_insertion_fields (replaced o l) = (refl, refl, refl, refl)

module _ (c : ChannelCache) (change : LogEntry) (v : IsOrdered c) (p : 0 < change.sequence) where
  append_new-Appends :
      Below change.sequence c.logs
      → has_doc change.doc_id c.logs ≡ false
      → Appends change c (append_new c change)
  unfolding append_new has_doc
  append_new-Appends b h = record {
    inserts = cons_new change c.logs b v.distinct h;
    sorted = b;
    ids = λ d. has_id-add_id d change.doc_id c.cached_doc_ids ∙ rw (v.ids d);
    valid_from = refl;
    options = refl;
  }

  append_known-Appends :
      Below change.sequence c.logs
      → has_id change.doc_id c.cached_doc_ids ≡ true
      → Appends change c (append_known c change)
  unfolding append_known
  append_known-Appends b h = elim (Option-cases (find_doc change.doc_id c.logs)) [
    | inl e ↦ absurd (ground (arith, v.ids change.doc_id, find_doc-none change.doc_id c.logs e))
    | inr (o, e) ↦
        let found = find_doc-some change.doc_id c.logs o e in
        let i = cons_replacing change c.logs p b v.distinct found.0 in
        rw (e, append_known)
          (record {
            inserts = i;
            sorted = remove_doc-Below change.doc_id change.sequence c.logs b;
            ids = λ d. ground (arith, i.holds d, v.ids d, str_eq_iff change.doc_id d);
            valid_from = refl;
            options = refl;
          })
  ]

  insert_change-Appends :
      (e : LogEntry) (es : List LogEntry)
      → c.logs ≡ e ∷ es
      → change.sequence ≤ e.sequence
      → has_seq change.sequence c.logs ≡ false
      → Appends change c (insert_change c change)
  unfolding insert_change
  insert_change-Appends e es eq le f =
      let i =
        insert_walk-Inserts change (has_id change.doc_id c.cached_doc_ids) c.logs p v.sorted
          v.distinct f (v.ids change.doc_id) in
      let (l, w, o, k) =
        after_insertion_fields change c
          (insert_walk (has_id change.doc_id c.cached_doc_ids) change c.logs) in
      record {
        inserts = rw l i;
        sorted = rw l (
            Below-Sorted (suc e.sequence) _
              (i.below (suc e.sequence) (rw eq (omega arith, rw eq at (v.sorted))) (omega arith)));
        ids = λ d.
            rw (k, l)
              (has_id-add_id d change.doc_id c.cached_doc_ids ∙ ground (arith, i.holds d, v.ids d));
        valid_from = w;
        options = o;
      }

  append_after-Appends :
      (l : List LogEntry)
      → c.logs ≡ l
      → has_seq change.sequence c.logs ≡ false
      → c.valid_from ≤ change.sequence
      → Appends change c (append_after c change l)
  unfolding append_after
  append_after-Appends [] eq f le =
      let same : ltb change.sequence c.valid_from ≡ false = ground arith in
      rw (same, adjust_first_seq) (append_new-Appends (rw eq tt) (rw eq (unfold has_doc in refl)))
  append_after-Appends (e ∷ es) eq f le = elim (Bool-cases (leb change.sequence e.sequence)) [
    | inl older ↦ rw older (insert_change-Appends e es eq (leb→le _ _ older) f)
    | inr newer ↦
        let b : Below change.sequence c.logs = rw eq (leb-false _ _ newer, rw eq at (v.sorted)) in
        elim (Bool-cases (has_id change.doc_id c.cached_doc_ids)) [
          | inl known ↦ rw (newer, known) (append_known-Appends b known)
          | inr new ↦ rw (newer, new) (append_new-Appends b (sym (v.ids change.doc_id) ∙ new))
        ]
  ]

  -- An appended change that `validFrom` admits and whose sequence is new leaves the cache in order.
  pub append_change-Appends :
      has_seq change.sequence c.logs ≡ false
      → c.valid_from ≤ change.sequence
      → Appends change c (append_change c change)
  unfolding append_change
  append_change-Appends f le = append_after-Appends c.logs refl f le

  pub append_change-IsOrdered :
      has_seq change.sequence c.logs ≡ false
      → c.valid_from ≤ change.sequence
      → IsOrdered (append_change c change)
  append_change-IsOrdered f le =
      let a = append_change-Appends f le in
      record {
        positive = rw a.valid_from v.positive;
        sorted = a.sorted;
        distinct = a.inserts.distinct;
        ids = a.ids;
        at_least = rw a.valid_from (a.inserts.at_least c.valid_from v.at_least le);
      }
