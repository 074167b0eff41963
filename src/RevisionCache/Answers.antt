-- ===== src/RevisionCache/Answers.antt =====
-- What comes back from the cache of db/revision_cache.go.
use sync_gateway.Prelude.{
  ℕ, ◌≡◌, refl, ap, sym, ◌∙◌, Bool, true, false, Option, none, some, [], ◌||◌, Str, str_eq, codes,
  inl, inr,
}
use mathlib.Core.Path.{subst, ap₂}
use mathlib.Core.Option.{some-injective, none-ne-some}
use sync_gateway.Lru.{lookup}
use sync_gateway.RevisionCache.{
  RevisionCache, RevCacheValue, DocumentRevision, Body, Revisions, BodyCopyType, body_shallow_copy,
  string, set_property, copy_body, no_revision, nothing_loaded, new_value, same_id, set_value,
  get_value, is_loaded, as_document_revision, load, load_value, no_loader, IdAndRev, Loaded,
  get_from_cache, get_cached, store, put,
}
use sync_gateway.RevisionCache.Valid.{
  IsSound, Got, get_key-created, set_value-IsSound, set_value-same,
}
use sync_gateway.RevisionCache.Calls.{put-stored, get_from_cache-IsSound}
use sync_gateway.RevisionCache.Reads.{
  get_value-key, get_key-absent, get_value-cases, load_value-loader_func, get_from_cache-resident,
  load_value-failed,
}

-- A revision that is stored, as a read returns it: the body with the ids.
unfoldable pub as_stored : Str → DocumentRevision → Body → DocumentRevision
as_stored docid doc_rev body = record doc_rev {
  body = some (
      set_property (codes "_rev") (string doc_rev.rev_id)
        (set_property (codes "_id") (string docid) body));
  delta = none;
}

-- Let a revision with a history and a body, of ids that are not empty, not be in the cache. After it is
-- stored, a read of the cache alone returns it with its ids in the body, without an error.
pub put-get_cached :
    (deep_copy : Option Body → Option Body) (docid : Str) (doc_rev : DocumentRevision) (body : Body)
    (history : Revisions) (rc : RevisionCache)
    → IsSound rc
    → (str_eq docid [] || str_eq doc_rev.rev_id []) ≡ false
    → doc_rev.body ≡ some body
    → doc_rev.history ≡ some history
    → lookup same_id (docid, doc_rev.rev_id) rc.lru.cache ≡ none
    → (rc' : RevisionCache) × (rc'' : RevisionCache) × (put docid doc_rev rc ≡ some rc')
      × (get_cached deep_copy docid doc_rev.rev_id rc'
          ≡ some ((as_stored docid doc_rev body, none), rc''))
put-get_cached deep_copy docid doc_rev body history rc v n b h absent =
    let (d, q, u, g) = get_key-created (docid, doc_rev.rev_id) rc v absent in
    let i = rc.lru.next_id in
    let x : RevCacheValue = stored_value in
    let w : d.values i ≡ new_value (docid, doc_rev.rev_id) =
      ap (λ f. f i) u ∙ set_value-same i (new_value (docid, doc_rev.rev_id)) rc.values in
    let p : put docid doc_rev rc ≡ some (record d { values = set_value i x d.values }) =
      put-stored docid doc_rev i history x rc d h (get_value-key docid doc_rev.rev_id true rc n ∙ q)
        (ap (store doc_rev) w ∙ made) in
    let rc' = record d { values = set_value i x d.values } in
    let y : set_value i x d.values i ≡ x = set_value-same i x d.values in
    let v' = set_value-IsSound i x d (sym g.value_key) g.sound in
    let got : Got (docid, doc_rev.rev_id) rc' i rc' = record {
      sound = v';
      element = g.element;
      resident = g.resident;
      identity = g.identity;
      value_key = ap (λ z. z.key) y;
      loader = refl;
    } in
    let (rc'', r) =
      get_from_cache-resident deep_copy docid doc_rev.rev_id body_shallow_copy false rc' v' n i rc'
        got (ap (λ z. is_loaded z.content) y ∙ loaded) in
    (
      rc',
      rc'',
      p,
      unfold get_cached in
          r
          ∙ ap (λ z. some (as_document_revision deep_copy body_shallow_copy z, rc'')) y
          ∙ ap (λ a. some (a, rc'')) shown,
    )
  where
    stored_value : RevCacheValue
    stored_value = record {
      key = (docid, doc_rev.rev_id);
      content = record {
        body = (as_stored docid doc_rev body).body;
        history = doc_rev.history;
        channels = doc_rev.channels;
        expiry = doc_rev.expiry;
        attachments = doc_rev.attachments;
        err = none;
      };
      delta = none;
    }

    loaded : is_loaded stored_value.content ≡ true
    loaded = unfold is_loaded in unfold as_stored in refl

    shown :
        as_document_revision deep_copy body_shallow_copy stored_value
        ≡ (as_stored docid doc_rev body, none)
    shown = unfold as_document_revision in unfold as_stored in unfold copy_body in refl

    made : store doc_rev (new_value (docid, doc_rev.rev_id)) ≡ some stored_value
    made =
        unfold store in
        unfold new_value in unfold nothing_loaded in unfold as_stored in rw (store, b) refl

-- What a read that finds no entry returns if it loads.
unfoldable pub read_anew :
    (Option Body → Option Body)
    → Option (IdAndRev → Loaded)
    → BodyCopyType
    → IdAndRev
    → DocumentRevision × Option Str
read_anew deep_copy none copy_type key = (no_revision, some no_loader)
read_anew deep_copy (some loader_func) copy_type key =
    as_document_revision deep_copy copy_type
      (record { key = key; content = loader_func key; delta = none })

load-new_value :
    (deep_copy : Option Body → Option Body) (loader : Option (IdAndRev → Loaded))
    (copy_type : BodyCopyType) (key : IdAndRev)
    → (load deep_copy loader copy_type (new_value key)).1 ≡ read_anew deep_copy loader copy_type key
unfolding load read_anew new_value nothing_loaded is_loaded
load-new_value deep_copy none copy_type key = refl
load-new_value deep_copy (some loader_func) copy_type key = refl

-- A read of a revision that the cache does not have loads it if it may.
get_from_cache-absent :
    (deep_copy : Option Body → Option Body) (docid revid : Str) (copy_type : BodyCopyType)
    (rc : RevisionCache)
    → IsSound rc
    → (str_eq docid [] || str_eq revid []) ≡ false
    → lookup same_id (docid, revid) rc.lru.cache ≡ none
    → (rc' : RevisionCache) × (get_from_cache deep_copy docid revid copy_type true rc
        ≡ some (read_anew deep_copy rc.loader_func copy_type (docid, revid), rc'))
unfolding get_from_cache load_value
get_from_cache-absent deep_copy docid revid copy_type rc v n absent =
    let (d, q, u, g) = get_key-created (docid, revid) rc v absent in
    let i = rc.lru.next_id in
    let w : d.values i ≡ new_value (docid, revid) =
      ap (λ f. f i) u ∙ set_value-same i (new_value (docid, revid)) rc.values in
    let r = load_value deep_copy d.loader_func copy_type i d in
    (
      r.1,
      rw (get_from_cache, get_value-key docid revid true rc n, q)
          (ap (λ a. some (a, r.1))
            (ap₂ (λ f x. (load deep_copy f copy_type x).1) g.loader w
              ∙ load-new_value deep_copy rc.loader_func copy_type (docid, revid))),
    )

-- A read that fails leaves no entry, and the loader.
left_out :
    (deep_copy : Option Body → Option Body) (docid revid : Str) (copy_type : BodyCopyType)
    (create : Bool) (doc_rev : DocumentRevision) (err : Str) (rc rc' : RevisionCache)
    → IsSound rc
    → (str_eq docid [] || str_eq revid []) ≡ false
    → get_from_cache deep_copy docid revid copy_type create rc ≡ some ((doc_rev, some err), rc')
    → (lookup same_id (docid, revid) rc'.lru.cache ≡ none) × (rc'.loader_func ≡ rc.loader_func)
unfolding get_from_cache
left_out deep_copy docid revid copy_type create doc_rev err rc rc' v n q =
    elim (get_value-cases docid revid create rc v n) [
      | inl (i, d, e, g) ↦
          let r : load_value deep_copy d.loader_func copy_type i d ≡ ((doc_rev, some err), rc') =
            some-injective _ _ (sym (found_value i d e) ∙ q) in
          (
            ap (λ z. lookup same_id (docid, revid) z.1.lru.cache) (sym r)
                ∙ load_value-failed deep_copy d.loader_func copy_type (docid, revid) i err rc d g
                    (ap (λ z. z.0.1) r),
            ap (λ z. z.1.loader_func) (sym r)
                ∙ load_value-loader_func deep_copy d.loader_func copy_type i d
                ∙ g.loader,
          )
      | inr (f, e) ↦
          let r : ((no_revision, none), rc) ≡ ((doc_rev, some err), rc') =
            some-injective _ _ (sym (none_found e) ∙ q) in
          absurd (none-ne-some err (ap (λ z. z.0.1) r))
    ]
  where
    found_value :
        (i : ℕ) (d : RevisionCache)
        → get_value docid revid create rc ≡ some (some i, d)
        → get_from_cache deep_copy docid revid copy_type create rc
          ≡ some (load_value deep_copy d.loader_func copy_type i d)
    found_value i d e = rw (get_from_cache, e) refl

    none_found :
        get_value docid revid create rc ≡ some (none, rc)
        → get_from_cache deep_copy docid revid copy_type create rc ≡ some ((no_revision, none), rc)
    none_found e = rw (get_from_cache, e) refl

-- For ids that are not empty, a read that returns an error, as a failed load does, leaves no entry
-- for the revision. The next read of the cache alone finds nothing, without an error, and leaves the
-- cache; the next read that may load returns what the loader gives for the revision, or the error for
-- no loader if there is none.
pub get_from_cache-failed :
    (deep_copy : Option Body → Option Body) (docid revid : Str) (copy_type again : BodyCopyType)
    (create : Bool) (doc_rev : DocumentRevision) (err : Str) (rc rc' : RevisionCache)
    → IsSound rc
    → (str_eq docid [] || str_eq revid []) ≡ false
    → get_from_cache deep_copy docid revid copy_type create rc ≡ some ((doc_rev, some err), rc')
    → (lookup same_id (docid, revid) rc'.lru.cache ≡ none)
      × (get_cached deep_copy docid revid rc' ≡ some ((no_revision, none), rc'))
      × (rc'' : RevisionCache) × (get_from_cache deep_copy docid revid again true rc'
          ≡ some (read_anew deep_copy rc.loader_func again (docid, revid), rc''))
get_from_cache-failed deep_copy docid revid copy_type again create doc_rev err rc rc' v n q =
    let (absent, loader) =
      left_out deep_copy docid revid copy_type create doc_rev err rc rc' v n q in
    let (a, d, e, w) = get_from_cache-IsSound deep_copy docid revid copy_type create rc n v in
    let same : d ≡ rc' = ap (λ z. z.1) (some-injective _ _ (sym e ∙ q)) in
    let (rc'', r) =
      get_from_cache-absent deep_copy docid revid again rc' (subst IsSound same w) n absent in
    (
      absent,
      unfold get_cached in
          unfold get_from_cache in
          rw
            (
              get_from_cache,
              get_value-key docid revid false rc' n,
              get_key-absent (docid, revid) rc' absent,
            )
            refl,
      rc'',
      r ∙ ap (λ f. some (read_anew deep_copy f again (docid, revid), rc'')) loader,
    )
