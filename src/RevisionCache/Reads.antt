-- ===== src/RevisionCache/Reads.antt =====
-- What the reads of the cache of db/revision_cache.go do.
use sync_gateway.Prelude.{
  ℕ, ◌≡◌, ◌==◌, ◌⊎◌, refl, ap, ◌∙◌, Bool, true, false, Option, none, some, [], ◌||◌, Str, str_eq,
  Bool-cases, Option-cases, inl, inr,
}
use mathlib.Core.Path.{subst}
use sync_gateway.Lru.{lookup}
use sync_gateway.RevisionCache.{
  RevisionCache, IdAndRev, RevCacheValue, Loaded, Body, BodyCopyType, same_id, set_value, get_key,
  get_value, remove_value, is_loaded, as_document_revision, load, record_stats, load_value,
  get_from_cache,
}
use sync_gateway.RevisionCache.Valid.{
  IsSound, Got, get_key-found, get_key-created, set_value-IsSound, set_value-same,
  remove_value-IsSound, remove_value-resident,
}

pub get_value-key :
    (docid revid : Str) (create : Bool) (rc : RevisionCache)
    → (str_eq docid [] || str_eq revid []) ≡ false
    → get_value docid revid create rc ≡ get_key (docid, revid) create rc
unfolding get_value
get_value-key docid revid create rc n = rw n refl

pub get_key-absent :
    (key : IdAndRev) (rc : RevisionCache)
    → lookup same_id key rc.lru.cache ≡ none
    → get_key key false rc ≡ some (none, rc)
unfolding get_key
get_key-absent key rc h = rw (get_key, h) refl

-- A look-up finds or makes a value, or makes none.
pub get_value-cases :
    (docid revid : Str) (create : Bool) (rc : RevisionCache)
    → IsSound rc
    → (str_eq docid [] || str_eq revid []) ≡ false
    → ((i : ℕ) × (rc' : RevisionCache) × (get_value docid revid create rc ≡ some (some i, rc'))
        × Got (docid, revid) rc i rc')
      ⊎ ((create ≡ false) × (get_value docid revid create rc ≡ some (none, rc)))
get_value-cases docid revid create rc v n =
    elim (Option-cases (lookup same_id (docid, revid) rc.lru.cache)) [
      | inl absent ↦
          elim create
            as (λ b.
              ((i : ℕ) × (rc' : RevisionCache) × (get_value docid revid b rc ≡ some (some i, rc'))
                × Got (docid, revid) rc i rc')
              ⊎ ((b ≡ false) × (get_value docid revid b rc ≡ some (none, rc)))) [
                | true ↦
                    let (rc', q, u, g) = get_key-created (docid, revid) rc v absent in
                    inl (rc.lru.next_id, rc', get_value-key docid revid true rc n ∙ q, g)
                | false ↦ inr (
                  refl,
                  get_value-key docid revid false rc n ∙ get_key-absent (docid, revid) rc absent,
                )
              ]
      | inr (e, h) ↦
          let (rc', q, u, g) = get_key-found (docid, revid) create e rc v h in
          inl (e.id, rc', get_value-key docid revid create rc n ∙ q, g)
    ]

load-key :
    (deep_copy : Option Body → Option Body) (loader : Option (IdAndRev → Loaded))
    (copy_type : BodyCopyType) (w : RevCacheValue)
    → (load deep_copy loader copy_type w).0.key ≡ w.key
unfolding load
load-key deep_copy none copy_type w = elim (Bool-cases (is_loaded w.content)) [
  | inl there ↦ rw (load, there) refl
  | inr absent ↦ rw (load, absent) refl
]
load-key deep_copy (some f) copy_type w = elim (Bool-cases (is_loaded w.content)) [
  | inl there ↦ rw (load, there) refl
  | inr absent ↦ rw (load, absent) refl
]

record_stats-IsSound :
    (hit : Bool) (rc : RevisionCache) → IsSound rc → IsSound (record_stats hit rc)
unfolding record_stats
record_stats-IsSound true rc v = record { valid = v.valid; keys = v.keys; capacity = v.capacity }
record_stats-IsSound false rc v = record { valid = v.valid; keys = v.keys; capacity = v.capacity }

-- The cache after a load, whatever it returns.
after-IsSound :
    (err : Option Str) (i : ℕ) (rc : RevisionCache)
    → IsSound rc
    → IsSound (elim err as (λ o. RevisionCache) [ none ↦ rc | some e ↦ remove_value i rc ])
after-IsSound none i rc v = v
after-IsSound (some e) i rc v = remove_value-IsSound i rc v

pub load_value-IsSound :
    (deep_copy : Option Body → Option Body) (loader : Option (IdAndRev → Loaded))
    (copy_type : BodyCopyType) (i : ℕ) (rc : RevisionCache)
    → IsSound rc
    → IsSound (load_value deep_copy loader copy_type i rc).1
unfolding load_value
load_value-IsSound deep_copy loader copy_type i rc v =
    let l = load deep_copy loader copy_type (rc.values i) in
    after-IsSound l.1.1 i _ (
      record_stats-IsSound l.2 _
        (set_value-IsSound i l.0 rc (load-key deep_copy loader copy_type (rc.values i)) v))

record_stats-loader_func :
    (hit : Bool) (rc : RevisionCache) → (record_stats hit rc).loader_func ≡ rc.loader_func
unfolding record_stats
record_stats-loader_func true rc = refl
record_stats-loader_func false rc = refl

-- A load leaves the loader.
pub load_value-loader_func :
    (deep_copy : Option Body → Option Body) (loader : Option (IdAndRev → Loaded))
    (copy_type : BodyCopyType) (i : ℕ) (rc : RevisionCache)
    → (load_value deep_copy loader copy_type i rc).1.loader_func ≡ rc.loader_func
unfolding load_value
load_value-loader_func deep_copy loader copy_type i rc =
    let l = load deep_copy loader copy_type (rc.values i) in
    let d : RevisionCache = record rc { values = set_value i l.0 rc.values } in
    after l.1.1 (record_stats l.2 d) ∙ record_stats-loader_func l.2 d
  where
    removed : (e : RevisionCache) → (remove_value i e).loader_func ≡ e.loader_func
    removed e =
        unfold remove_value in
        elim (Option-cases (lookup same_id (e.values i).key e.lru.cache)) [
          | inl absent ↦ rw (remove_value, absent) refl
          | inr (x, h) ↦ elim (Bool-cases (x.id == i)) [
            | inl current ↦ rw (remove_value, h, current) refl
            | inr stale ↦ rw (remove_value, h, stale) refl
          ]
        ]

    after :
        (err : Option Str) (e : RevisionCache)
        → (elim err as (λ o. RevisionCache) [ none ↦ e | some x ↦ remove_value i e ]).loader_func
          ≡ e.loader_func
    after none e = refl
    after (some x) e = removed e

-- A value that is there is returned, and stays.
pub load_value-loaded :
    (deep_copy : Option Body → Option Body) (loader : Option (IdAndRev → Loaded))
    (copy_type : BodyCopyType) (i : ℕ) (rc : RevisionCache)
    → is_loaded (rc.values i).content ≡ true
    → (load_value deep_copy loader copy_type i rc).0
      ≡ as_document_revision deep_copy copy_type (rc.values i)
unfolding load_value load
load_value-loaded deep_copy loader copy_type i rc h = rw (load_value, load, h) refl

-- A read of a revision that the cache has and that is loaded returns it, whatever the loader is.
pub get_from_cache-resident :
    (deep_copy : Option Body → Option Body) (docid revid : Str) (copy_type : BodyCopyType)
    (create : Bool) (rc : RevisionCache)
    → IsSound rc
    → (str_eq docid [] || str_eq revid []) ≡ false
    → (i : ℕ) → (rc' : RevisionCache) → Got (docid, revid) rc' i rc
    → is_loaded (rc.values i).content ≡ true
    → (rc'' : RevisionCache) × (get_from_cache deep_copy docid revid copy_type create rc
        ≡ some (as_document_revision deep_copy copy_type (rc.values i), rc''))
unfolding get_from_cache
get_from_cache-resident deep_copy docid revid copy_type create rc v n i rc' g h =
    let (d, q, u, k) = get_key-found (docid, revid) create g.element rc v g.resident in
    let w : d.values g.element.id ≡ rc.values i =
      ap (λ f. f g.element.id) u ∙ ap rc.values g.identity in
    let r = load_value deep_copy d.loader_func copy_type g.element.id d in
    let p = load_value-loaded deep_copy d.loader_func copy_type g.element.id d (rw w h) in
    (
      r.1,
      rw (get_from_cache, get_value-key docid revid create rc n, q)
          (ap (λ a. some (a, r.1)) (p ∙ ap (as_document_revision deep_copy copy_type) w)),
    )

-- A load that fails removes the value.
pub load_value-failed :
    (deep_copy : Option Body → Option Body) (loader : Option (IdAndRev → Loaded))
    (copy_type : BodyCopyType) (key : IdAndRev) (i : ℕ) (err : Str) (rc rc' : RevisionCache)
    → Got key rc i rc'
    → (load_value deep_copy loader copy_type i rc').0.1 ≡ some err
    → lookup same_id key (load_value deep_copy loader copy_type i rc').1.lru.cache ≡ none
unfolding load_value
load_value-failed deep_copy loader copy_type key i err rc rc' g q =
    let l = load deep_copy loader copy_type (rc'.values i) in
    let d : RevisionCache = record rc' { values = set_value i l.0 rc'.values } in
    let s =
      record_stats-IsSound l.2 d (
        set_value-IsSound i l.0 rc' (load-key deep_copy loader copy_type (rc'.values i)) g.sound) in
    let k : (set_value i l.0 rc'.values i).key ≡ key =
      ap (λ z. z.key) (set_value-same i l.0 rc'.values)
      ∙ load-key deep_copy loader copy_type (rc'.values i)
      ∙ g.value_key in
    rw (load_value, q)
      (subst (λ j. lookup same_id key (remove_value j (record_stats l.2 d)).lru.cache ≡ none)
        g.identity
        (remove_value-resident key g.element (record_stats l.2 d) s
          (record_stats-values l.2 d g.element.id ∙ ap (λ j. (d.values j).key) g.identity ∙ k)
          (record_stats-cache l.2 d ∙ g.resident)))
  where
    record_stats-values :
        (hit : Bool) (d : RevisionCache) (j : ℕ)
        → ((record_stats hit d).values j).key ≡ (d.values j).key
    record_stats-values true d j = unfold record_stats in refl
    record_stats-values false d j = unfold record_stats in refl

    record_stats-cache :
        (hit : Bool) (d : RevisionCache)
        → lookup same_id key (record_stats hit d).lru.cache ≡ lookup same_id key d.lru.cache
    record_stats-cache true d = unfold record_stats in refl
    record_stats-cache false d = unfold record_stats in refl
