-- ===== src/RevisionCache/Calls.antt =====
-- The calls that a client of db/revision_cache.go makes, and the states that they lead to.
use sync_gateway.Prelude.{
  ℕ, ◌≡◌, ◌≢◌, refl, Bool, true, false, Option, none, some, [], ◌||◌, Str, str_eq, codes,
  Option-cases, inl, inr,
}
use sync_gateway.RevisionCache.{
  RevisionCache, DocumentRevision, Revisions, RevCacheDelta, Body, BodyCopyType, set_property,
  string, body_shallow_copy, BucketDoc, failed, missing, found, RevCacheValue, set_value, get_value,
  load_value, get_from_cache, has_loader, get_cached, get_with_copy, get_active, store, put,
  update_delta, no_revision,
}
use sync_gateway.RevisionCache.Valid.{IsSound, set_value-IsSound}
use sync_gateway.RevisionCache.Reads.{get_value-cases, load_value-IsSound}

pub data Call : Type 0 where
  with_copy : Str → Str → BodyCopyType → Call
  cached : Str → Str → Call
  active : Str → BucketDoc → Call
  stored : Str → DocumentRevision → Call
  delta : Str → Str → Str → Str → Call

-- The cache after a call; `none` is a panic.
unfoldable pub perform : (Option Body → Option Body) → Call → RevisionCache → Option RevisionCache
perform deep_copy (with_copy docid revid copy_type) rc =
    elim (get_with_copy deep_copy docid revid copy_type rc) [ none ↦ none | some r ↦ some r.1 ]
perform deep_copy (cached docid revid) rc = elim (get_cached deep_copy docid revid rc) [
  | none ↦ none
  | some r ↦ some r.1
]
perform deep_copy (active docid doc) rc = elim (get_active deep_copy docid doc rc) [
  | none ↦ none
  | some r ↦ some r.1
]
perform deep_copy (stored docid doc_rev) rc = put docid doc_rev rc
perform deep_copy (delta docid revid to_rev_id bytes) rc =
    update_delta docid revid to_rev_id bytes rc

-- The ids of a call are not empty, and a revision that is stored has a history and a body.
abbrev pub IsFine : Call → Type 0
IsFine (with_copy docid revid copy_type) = (str_eq docid [] || str_eq revid []) ≡ false
IsFine (cached docid revid) = (str_eq docid [] || str_eq revid []) ≡ false
IsFine (active docid (failed err)) = Unit {0}
IsFine (active docid missing) = Unit {0}
IsFine (active docid (found current_rev loader)) =
    (str_eq docid [] || str_eq current_rev []) ≡ false
IsFine (stored docid doc_rev) =
    ((str_eq docid [] || str_eq doc_rev.rev_id []) ≡ false)
    × (doc_rev.history ≢ none)
    × (doc_rev.body ≢ none)
IsFine (delta docid revid to_rev_id bytes) = (str_eq docid [] || str_eq revid []) ≡ false

pub get_from_cache-IsSound :
    (deep_copy : Option Body → Option Body) (docid revid : Str) (copy_type : BodyCopyType)
    (create : Bool) (rc : RevisionCache)
    → (str_eq docid [] || str_eq revid []) ≡ false
    → IsSound rc
    → (a : DocumentRevision × Option Str) × (rc' : RevisionCache) × (get_from_cache deep_copy docid
          revid copy_type create rc
        ≡ some (a, rc'))
      × IsSound rc'
unfolding get_from_cache
get_from_cache-IsSound deep_copy docid revid copy_type create rc n v =
    elim (get_value-cases docid revid create rc v n) [
      | inl (i, rc', q, g) ↦
          let r = load_value deep_copy rc'.loader_func copy_type i rc' in
          (
            r.0,
            r.1,
            rw (get_from_cache, q) refl,
            load_value-IsSound deep_copy rc'.loader_func copy_type i rc' g.sound,
          )
      | inr (f, q) ↦ ((no_revision, none), rc, rw (get_from_cache, q) refl, v)
    ]

pub store-some :
    (doc_rev : DocumentRevision) (w : RevCacheValue)
    → doc_rev.body ≢ none
    → (x : RevCacheValue) × (store doc_rev w ≡ some x) × (x.key ≡ w.key)
unfolding store
store-some doc_rev w n = elim (Option-cases (w.content.body)) [
  | inr (b, h) ↦ (w, simp (store, h), refl)
  | inl absent ↦ elim (Option-cases (doc_rev.body)) [
    | inl none_given ↦ absurd (n none_given)
    | inr (c, k) ↦ (
      record w {
        content = record {
          body = some (
              set_property (codes "_rev") (string w.key.1)
                (set_property (codes "_id") (string w.key.0) c));
          history = doc_rev.history;
          channels = doc_rev.channels;
          expiry = doc_rev.expiry;
          attachments = doc_rev.attachments;
          err = none;
        };
      },
      rw (store, absent, k) refl,
      refl,
    )
  ]
]

pub put-stored :
    (docid : Str) (doc_rev : DocumentRevision) (i : ℕ) (history : Revisions) (x : RevCacheValue)
    (rc rc' : RevisionCache)
    → doc_rev.history ≡ some history
    → get_value docid doc_rev.rev_id true rc ≡ some (some i, rc')
    → store doc_rev (rc'.values i) ≡ some x
    → put docid doc_rev rc ≡ some (record rc' { values = set_value i x rc'.values })
unfolding put
put-stored docid doc_rev i history x rc rc' h q s = rw (put, h, q, s) refl

pub put-IsSound :
    (docid : Str) (doc_rev : DocumentRevision) (rc : RevisionCache)
    → IsFine (stored docid doc_rev)
    → IsSound rc
    → (rc' : RevisionCache) × (put docid doc_rev rc ≡ some rc') × IsSound rc'
put-IsSound docid doc_rev rc (n, nh, nb) v = elim (Option-cases (doc_rev.history)) [
  | inl none_given ↦ absurd (nh none_given)
  | inr (hist, h) ↦ elim (get_value-cases docid doc_rev.rev_id true rc v n) [
    | inl (i, rc', q, g) ↦
        let (x, s, k) = store-some doc_rev (rc'.values i) nb in
        (
          record rc' { values = set_value i x rc'.values },
          put-stored docid doc_rev i hist x rc rc' h q s,
          set_value-IsSound i x rc' k g.sound,
        )
    | inr (f, q) ↦ cc
  ]
]

update_delta-IsSound :
    (docid revid to_rev_id bytes : Str) (rc : RevisionCache)
    → (str_eq docid [] || str_eq revid []) ≡ false
    → IsSound rc
    → (rc' : RevisionCache) × (update_delta docid revid to_rev_id bytes rc ≡ some rc') × IsSound rc'
unfolding update_delta
update_delta-IsSound docid revid to_rev_id bytes rc n v =
    elim (get_value-cases docid revid false rc v n) [
      | inl (i, rc', q, g) ↦
          let d : RevCacheDelta = record { to_rev_id = to_rev_id; delta_bytes = bytes } in
          let x = record (rc'.values i) { delta = some d } in
          (
            record rc' { values = set_value i x rc'.values },
            rw (update_delta, q) refl,
            set_value-IsSound i x rc' refl g.sound,
          )
      | inr (f, q) ↦ (rc, rw (update_delta, q) refl, v)
    ]

-- A call with ids that are not empty, and for `Put` with a history and a body, does not panic; the
-- map and the list then hold the same revisions, at most the capacity, each under its value's key.
pub perform-IsSound :
    (deep_copy : Option Body → Option Body) (call : Call) (rc : RevisionCache)
    → IsFine call
    → IsSound rc
    → (rc' : RevisionCache) × (perform deep_copy call rc ≡ some rc') × IsSound rc'
unfolding perform
perform-IsSound deep_copy (with_copy docid revid copy_type) rc n v =
    let (a, rc', q, w) =
      get_from_cache-IsSound deep_copy docid revid copy_type (has_loader rc) rc n v in
    (rc', unfold get_with_copy in rw (perform, q) refl, w)
perform-IsSound deep_copy (cached docid revid) rc n v =
    let (a, rc', q, w) =
      get_from_cache-IsSound deep_copy docid revid body_shallow_copy false rc n v in
    (rc', unfold get_cached in rw (perform, q) refl, w)
perform-IsSound deep_copy (active docid (failed err)) rc n v = (rc, unfold get_active in refl, v)
perform-IsSound deep_copy (active docid missing) rc n v = (rc, unfold get_active in refl, v)
perform-IsSound deep_copy (active docid (found current_rev loader)) rc n v =
    elim (get_value-cases docid current_rev true rc v n) [
      | inl (i, rc', q, g) ↦
          let r = load_value deep_copy (some (λ key. loader key.1)) body_shallow_copy i rc' in
          (
            r.1,
            unfold get_active in rw (perform, q) refl,
            load_value-IsSound deep_copy (some (λ key. loader key.1)) body_shallow_copy i rc'
                g.sound,
          )
      | inr (f, q) ↦ cc
    ]
perform-IsSound deep_copy (stored docid doc_rev) rc n v = put-IsSound docid doc_rev rc n v
perform-IsSound deep_copy (delta docid revid to_rev_id bytes) rc n v =
    update_delta-IsSound docid revid to_rev_id bytes rc n v
