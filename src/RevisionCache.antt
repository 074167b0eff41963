-- ===== src/RevisionCache.antt =====
-- db/revision_cache.go: the cache of revision bodies. Its map and list are those of base/lru_cache.go;
-- a list element's identity is also the pointer to its `revCacheValue`, which the heap holds, so a
-- value that the cache has dropped can still be loaded and stored. `getValue`, `load`, `store` and
-- `removeValue` each run under a lock and are one step each. A panic is `none`. A copy of a body or of the attachments
-- has the same contents. What json does in a deep copy is a parameter, as is the loader.
pub mod Valid
pub mod Reads
pub mod Calls
pub mod Answers
pub mod Sharded
use sync_gateway.Prelude.{
  ℕ, ◌+◌, ◌/◌, ◌==◌, suc, Bool, true, false, not, ◌&&◌, ◌||◌, Option, none, some, List, [], ◌∷◌,
  if◌then◌else◌, length, Str, str_eq, codes,
}
use sync_gateway.Prelude.Int.{ℤ}
use sync_gateway.Lru.{
  LruCache, lookup, delete_key, remove_element, move_to_front, push_front, purge_over,
}

-- A value in a body: a string, or anything else as its JSON text.
pub data JsonValue : Type 0 where
  string : Str → JsonValue
  raw : Str → JsonValue

-- A map from properties.
abbrev pub Body : Type 0
Body = List (Str × JsonValue)

unfoldable pub set_property : Str → JsonValue → Body → Body
set_property name v [] = (name, v) ∷ []
set_property name v ((n, w) ∷ body) =
    let rest = (n, w) ∷ set_property name v body in if str_eq n name then (n, v) ∷ body else rest

pub data BodyCopyType : Type 0 where
  body_deep_copy : BodyCopyType
  body_shallow_copy : BodyCopyType
  body_no_copy : BodyCopyType

-- `Body.Copy`; nil is `none`.
unfoldable pub copy_body : (Option Body → Option Body) → BodyCopyType → Option Body → Option Body
copy_body deep_copy body_deep_copy body = deep_copy body
copy_body deep_copy body_shallow_copy body = body
copy_body deep_copy body_no_copy body = body

abbrev pub IdAndRev : Type 0
IdAndRev = Str × Str

unfoldable pub same_id : IdAndRev → IdAndRev → Bool
same_id (d, r) (e, s) = str_eq d e && str_eq r s

-- A history in the form of `_revisions`.
pub record Revisions : Type 0 where
  pub start : ℤ
  pub ids : List Str

pub record RevCacheDelta : Type 0 where
  pub to_rev_id : Str
  pub delta_bytes : Str

-- What a loader returns.
pub record Loaded : Type 0 where
  pub body : Option Body
  pub history : Option Revisions
  pub channels : List Str
  pub attachments : Option Body
  pub expiry : Option ℕ
  pub err : Option Str

pub record RevCacheValue : Type 0 where
  pub key : IdAndRev
  pub content : Loaded
  pub delta : Option RevCacheDelta

pub record DocumentRevision : Type 0 where
  pub rev_id : Str
  pub body : Option Body
  pub history : Option Revisions
  pub channels : List Str
  pub expiry : Option ℕ
  pub attachments : Option Body
  pub delta : Option RevCacheDelta

unfoldable pub no_revision : DocumentRevision
no_revision = record {
  rev_id = [];
  body = none;
  history = none;
  channels = [];
  expiry = none;
  attachments = none;
  delta = none;
}

unfoldable pub nothing_loaded : Loaded
nothing_loaded = record {
  body = none;
  history = none;
  channels = [];
  attachments = none;
  expiry = none;
  err = none;
}

pub record RevisionCache : Type 0 where
  pub lru : LruCache IdAndRev (Unit {0})
  pub values : ℕ → RevCacheValue
  pub loader_func : Option (IdAndRev → Loaded)
  pub cache_hits : ℕ
  pub cache_misses : ℕ

unfoldable pub default_revision_cache_capacity : ℕ
default_revision_cache_capacity = 5000

unfoldable pub new_value : IdAndRev → RevCacheValue
unfolding nothing_loaded
new_value key = record { key = key; content = nothing_loaded; delta = none }

unfoldable pub new_revision_cache_shard : ℕ → Option (IdAndRev → Loaded) → RevisionCache
unfolding new_value default_revision_cache_capacity
new_revision_cache_shard capacity loader = record {
  lru = record {
    cache = [];
    lru_list = [];
    capacity = if capacity == 0 then default_revision_cache_capacity else capacity;
    next_id = 0;
  };
  values = λ i. new_value ([], []);
  loader_func = loader;
  cache_hits = 0;
  cache_misses = 0;
}

unfoldable pub set_value : ℕ → RevCacheValue → (ℕ → RevCacheValue) → ℕ → RevCacheValue
set_value i v values j = if j == i then v else values j

-- The part of `getValue` that runs under the lock.
unfoldable pub get_key : IdAndRev → Bool → RevisionCache → Option (Option ℕ × RevisionCache)
get_key key create rc = elim (lookup same_id key rc.lru.cache) [
  | some e ↦
      some (
        some e.id,
        record rc { lru = record rc.lru { lru_list = move_to_front e rc.lru.lru_list } },
      )
  | none ↦
      let id = rc.lru.next_id in
      if create
      then elim (purge_over (suc (suc (length rc.lru.cache))) same_id (push_front key tt rc.lru))
          as (λ o. Option (Option ℕ × RevisionCache)) [
            | none ↦ none
            | some l ↦
                some
                  (some id, record rc { lru = l; values = set_value id (new_value key) rc.values })
          ]
      else some (none, rc)
]

unfoldable pub get_value : Str → Str → Bool → RevisionCache → Option (Option ℕ × RevisionCache)
get_value docid revid create rc =
    if str_eq docid [] || str_eq revid [] then none else get_key (docid, revid) create rc

unfoldable pub remove_value : ℕ → RevisionCache → RevisionCache
remove_value i rc = elim (lookup same_id (rc.values i).key rc.lru.cache) [
  | none ↦ rc
  | some e ↦
      if e.id == i
      then record rc {
        lru = record rc.lru {
          lru_list = remove_element i rc.lru.lru_list;
          cache = delete_key same_id (rc.values i).key rc.lru.cache;
        };
      }
      else rc
]

unfoldable pub is_loaded : Loaded → Bool
is_loaded l = elim l.body [
  | some body ↦ true
  | none ↦ elim l.err as (λ o. Bool) [ none ↦ false | some err ↦ true ]
]

unfoldable pub as_document_revision :
    (Option Body → Option Body) → BodyCopyType → RevCacheValue → DocumentRevision × Option Str
as_document_revision deep_copy copy_type v = (
  record {
    rev_id = v.key.1;
    body = copy_body deep_copy copy_type v.content.body;
    history = v.content.history;
    channels = v.content.channels;
    expiry = v.content.expiry;
    attachments = v.content.attachments;
    delta = v.delta;
  },
  v.content.err,
)

abbrev pub no_loader : Str
no_loader = codes "No loader function defined for revision cache"

-- `load`: the value afterwards, what is returned, and whether it was there.
unfoldable pub load :
    (Option Body → Option Body)
    → Option (IdAndRev → Loaded)
    → BodyCopyType
    → RevCacheValue
    → RevCacheValue × (DocumentRevision × Option Str) × Bool
load deep_copy loader copy_type v =
    if is_loaded v.content
    then (v, as_document_revision deep_copy copy_type v, true)
    else elim loader as (λ o. RevCacheValue × (DocumentRevision × Option Str) × Bool) [
      | none ↦ (v, (no_revision, some no_loader), false)
      | some loader_func ↦
          let w = record v { content = loader_func v.key } in
          (w, as_document_revision deep_copy copy_type w, false)
    ]

unfoldable pub record_stats : Bool → RevisionCache → RevisionCache
record_stats true rc = record rc { cache_hits = rc.cache_hits + 1 }
record_stats false rc = record rc { cache_misses = rc.cache_misses + 1 }

-- A load of the value of an identity, with the loader given: a failed load leaves the cache.
unfoldable pub load_value :
    (Option Body → Option Body)
    → Option (IdAndRev → Loaded)
    → BodyCopyType
    → ℕ
    → RevisionCache
    → (DocumentRevision × Option Str) × RevisionCache
load_value deep_copy loader copy_type i rc =
    let (v, answer, hit) = load deep_copy loader copy_type (rc.values i) in
    let rc' = record_stats hit (record rc { values = set_value i v rc.values }) in
    (answer, elim answer.1 as (λ o. RevisionCache) [ none ↦ rc' | some err ↦ remove_value i rc' ])

unfoldable pub get_from_cache :
    (Option Body → Option Body)
    → Str
    → Str
    → BodyCopyType
    → Bool
    → RevisionCache
    → Option ((DocumentRevision × Option Str) × RevisionCache)
get_from_cache deep_copy docid revid copy_type load_on_cache_miss rc =
    elim (get_value docid revid load_on_cache_miss rc) [
      | none ↦ none
      | some (none, rc') ↦ some ((no_revision, none), rc')
      | some (some i, rc') ↦ some (load_value deep_copy rc'.loader_func copy_type i rc')
    ]

unfoldable pub has_loader : RevisionCache → Bool
has_loader rc = elim rc.loader_func [ none ↦ false | some f ↦ true ]

unfoldable pub get :
    (Option Body → Option Body)
    → Str
    → Str
    → RevisionCache
    → Option ((DocumentRevision × Option Str) × RevisionCache)
get deep_copy docid revid rc =
    get_from_cache deep_copy docid revid body_shallow_copy (has_loader rc) rc

unfoldable pub get_cached :
    (Option Body → Option Body)
    → Str
    → Str
    → RevisionCache
    → Option ((DocumentRevision × Option Str) × RevisionCache)
get_cached deep_copy docid revid rc =
    get_from_cache deep_copy docid revid body_shallow_copy false rc

unfoldable pub get_with_copy :
    (Option Body → Option Body)
    → Str
    → Str
    → BodyCopyType
    → RevisionCache
    → Option ((DocumentRevision × Option Str) × RevisionCache)
get_with_copy deep_copy docid revid copy_type rc =
    get_from_cache deep_copy docid revid copy_type (has_loader rc) rc

-- What `context.GetDocument` gives: an error, no document, or the document's current revision with
-- `revCacheLoaderForDocument` of it.
pub data BucketDoc : Type 0 where
  failed : Str → BucketDoc
  missing : BucketDoc
  found : Str → (Str → Loaded) → BucketDoc

unfoldable pub get_active :
    (Option Body → Option Body)
    → Str
    → BucketDoc
    → RevisionCache
    → Option ((DocumentRevision × Option Str) × RevisionCache)
get_active deep_copy docid (failed err) rc = some ((no_revision, some err), rc)
get_active deep_copy docid missing rc = some ((no_revision, none), rc)
get_active deep_copy docid (found current_rev loader) rc =
    elim (get_value docid current_rev true rc) [
      | none ↦ none
      | some (none, rc') ↦ none
      | some (some i, rc') ↦
          some (load_value deep_copy (some (λ key. loader key.1)) body_shallow_copy i rc')
    ]

-- `store`: `value.body[BodyId]` and `[BodyRev]` panic on a nil body.
unfoldable pub store : DocumentRevision → RevCacheValue → Option RevCacheValue
store doc_rev v = elim v.content.body [
  | some body ↦ some v
  | none ↦ elim doc_rev.body as (λ o. Option RevCacheValue) [
    | none ↦ none
    | some body ↦ some (record v {
      content = record {
        body = some (
            set_property (codes "_rev") (string v.key.1)
              (set_property (codes "_id") (string v.key.0) body));
        history = doc_rev.history;
        channels = doc_rev.channels;
        expiry = doc_rev.expiry;
        attachments = doc_rev.attachments;
        err = none;
      };
    })
  ]
]

unfoldable pub put : Str → DocumentRevision → RevisionCache → Option RevisionCache
put docid doc_rev rc = elim doc_rev.history [
  | none ↦ none
  | some history ↦ elim (get_value docid doc_rev.rev_id true rc) as (λ o. Option RevisionCache) [
    | none ↦ none
    | some (none, rc') ↦ none
    | some (some i, rc') ↦ elim (store doc_rev (rc'.values i)) as (λ o. Option RevisionCache) [
      | none ↦ none
      | some v ↦ some (record rc' { values = set_value i v rc'.values })
    ]
  ]
]

unfoldable pub update_delta : Str → Str → Str → Str → RevisionCache → Option RevisionCache
update_delta docid revid to_rev_id delta rc = elim (get_value docid revid false rc) [
  | none ↦ none
  | some (none, rc') ↦ some rc'
  | some (some i, rc') ↦
      let v = record (rc'.values i) {
        delta = some (record { to_rev_id = to_rev_id; delta_bytes = delta });
      } in
      some (record rc' { values = set_value i v rc'.values })
]
