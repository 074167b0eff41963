-- ===== src/RevisionCache/Sharded.antt =====
-- db/revision_cache.go: the cache in shards. `sgbucket.VBHash` is a parameter; an index out of range
-- is a panic.
use sync_gateway.Prelude.{
  ℕ, zero, suc, ◌+◌, ◌/◌, ◌<◌, ◌≡◌, ◌==◌, refl, sym, ◌∙◌, false, Option, none, some, List, [], ◌∷◌,
  if◌then◌else◌, Str, arith, Bool-cases, inl, inr,
}
use sync_gateway.RevisionCache.{
  RevisionCache, IdAndRev, Loaded, Body, DocumentRevision, BodyCopyType, BucketDoc,
  new_revision_cache_shard, default_revision_cache_capacity, get, get_cached, get_with_copy,
  get_active, put, update_delta,
}
use sync_gateway.RevisionCache.Valid.{IsSound}
use sync_gateway.RevisionCache.Calls.{IsFine, stored, put-IsSound}

pub record ShardedRevisionCache : Type 0 where
  pub caches : List RevisionCache
  pub num_shards : ℕ

unfoldable pub default_num_cache_shards : ℕ
default_num_cache_shards = 8

unfoldable pub make_shards : ℕ → ℕ → Option (IdAndRev → Loaded) → List RevisionCache
make_shards zero capacity loader = []
make_shards (suc n) capacity loader =
    new_revision_cache_shard capacity loader ∷ make_shards n capacity loader

unfoldable pub new_revision_cache : ℕ → Option (IdAndRev → Loaded) → ShardedRevisionCache
unfolding default_num_cache_shards default_revision_cache_capacity make_shards
new_revision_cache capacity loader =
    let c = if capacity == 0 then default_revision_cache_capacity else capacity in
    record {
      caches = make_shards default_num_cache_shards (c / default_num_cache_shards + 1) loader;
      num_shards = default_num_cache_shards;
    }

unfoldable pub shard_at : ℕ → List RevisionCache → Option RevisionCache
shard_at i [] = none
shard_at zero (c ∷ cs) = some c
shard_at (suc i) (c ∷ cs) = shard_at i cs

unfoldable pub set_shard : ℕ → RevisionCache → List RevisionCache → List RevisionCache
set_shard i d [] = []
set_shard zero d (c ∷ cs) = d ∷ cs
set_shard (suc i) d (c ∷ cs) = c ∷ set_shard i d cs

unfoldable pub get_shard : (Str → ℕ → ℕ) → Str → ShardedRevisionCache → ℕ
get_shard vb_hash docid sc = vb_hash docid sc.num_shards

-- A read of the document's shard.
unfoldable pub read_shard :
    (Str → ℕ → ℕ)
    → Str
    → (RevisionCache → Option ((DocumentRevision × Option Str) × RevisionCache))
    → ShardedRevisionCache
    → Option ((DocumentRevision × Option Str) × ShardedRevisionCache)
read_shard vb_hash docid f sc = elim (shard_at (get_shard vb_hash docid sc) sc.caches) [
  | none ↦ none
  | some c ↦ elim (f c) as (λ o. Option ((DocumentRevision × Option Str) × ShardedRevisionCache)) [
    | none ↦ none
    | some (a, d) ↦
        some (a, record sc { caches = set_shard (get_shard vb_hash docid sc) d sc.caches })
  ]
]

-- A write to the document's shard.
unfoldable pub write_shard :
    (Str → ℕ → ℕ)
    → Str
    → (RevisionCache → Option RevisionCache)
    → ShardedRevisionCache
    → Option ShardedRevisionCache
write_shard vb_hash docid f sc = elim (shard_at (get_shard vb_hash docid sc) sc.caches) [
  | none ↦ none
  | some c ↦ elim (f c) as (λ o. Option ShardedRevisionCache) [
    | none ↦ none
    | some d ↦ some (record sc { caches = set_shard (get_shard vb_hash docid sc) d sc.caches })
  ]
]

unfoldable pub sharded_get :
    (Str → ℕ → ℕ)
    → (Option Body → Option Body)
    → Str
    → Str
    → ShardedRevisionCache
    → Option ((DocumentRevision × Option Str) × ShardedRevisionCache)
sharded_get vb_hash deep_copy docid revid = read_shard vb_hash docid (get deep_copy docid revid)

unfoldable pub sharded_get_cached :
    (Str → ℕ → ℕ)
    → (Option Body → Option Body)
    → Str
    → Str
    → ShardedRevisionCache
    → Option ((DocumentRevision × Option Str) × ShardedRevisionCache)
sharded_get_cached vb_hash deep_copy docid revid =
    read_shard vb_hash docid (get_cached deep_copy docid revid)

unfoldable pub sharded_get_with_copy :
    (Str → ℕ → ℕ)
    → (Option Body → Option Body)
    → Str
    → Str
    → BodyCopyType
    → ShardedRevisionCache
    → Option ((DocumentRevision × Option Str) × ShardedRevisionCache)
sharded_get_with_copy vb_hash deep_copy docid revid copy_type =
    read_shard vb_hash docid (get_with_copy deep_copy docid revid copy_type)

unfoldable pub sharded_get_active :
    (Str → ℕ → ℕ)
    → (Option Body → Option Body)
    → Str
    → BucketDoc
    → ShardedRevisionCache
    → Option ((DocumentRevision × Option Str) × ShardedRevisionCache)
sharded_get_active vb_hash deep_copy docid doc =
    read_shard vb_hash docid (get_active deep_copy docid doc)

unfoldable pub sharded_put :
    (Str → ℕ → ℕ) → Str → DocumentRevision → ShardedRevisionCache → Option ShardedRevisionCache
sharded_put vb_hash docid doc_rev = write_shard vb_hash docid (put docid doc_rev)

unfoldable pub sharded_update_delta :
    (Str → ℕ → ℕ) → Str → Str → Str → Str → ShardedRevisionCache → Option ShardedRevisionCache
sharded_update_delta vb_hash docid revid to_rev_id delta =
    write_shard vb_hash docid (update_delta docid revid to_rev_id delta)

-- All shards are consistent, and there are as many as the number says.
pub record IsSharded (sc : ShardedRevisionCache) : Type 0 where
  pub shards :
      (i : ℕ)
      → i < sc.num_shards
      → (c : RevisionCache) × (shard_at i sc.caches ≡ some c) × IsSound c

shard_at-set_shard :
    (i j : ℕ) (d c : RevisionCache) (cs : List RevisionCache)
    → shard_at j cs ≡ some c
    → shard_at j (set_shard i d cs) ≡ some (if j == i then d else c)
unfolding shard_at set_shard
shard_at-set_shard i j d c [] h = cc
shard_at-set_shard zero zero d c (e ∷ cs) h = refl
shard_at-set_shard zero (suc j) d c (e ∷ cs) h = ground (arith, h)
shard_at-set_shard (suc i) zero d c (e ∷ cs) h = ground (arith, h)
shard_at-set_shard (suc i) (suc j) d c (e ∷ cs) h = ground (arith, shard_at-set_shard i j d c cs h)

-- Where the hash is below the number of shards and every shard is consistent, a revision with ids that
-- are not empty, a history and a body is put without a panic: the shards stay consistent, and of the
-- shards only the document's changes.
pub sharded_put-IsSharded :
    (vb_hash : Str → ℕ → ℕ) (docid : Str) (doc_rev : DocumentRevision) (sc : ShardedRevisionCache)
    → ((d : Str) (n : ℕ) → 0 < n → vb_hash d n < n)
    → 0 < sc.num_shards
    → IsFine (stored docid doc_rev)
    → IsSharded sc
    → (sc' : ShardedRevisionCache) × (sharded_put vb_hash docid doc_rev sc ≡ some sc')
      × IsSharded sc'
      × ((i : ℕ)
          → i < sc.num_shards
          → (i == get_shard vb_hash docid sc) ≡ false
          → shard_at i sc'.caches ≡ shard_at i sc.caches)
unfolding sharded_put write_shard get_shard
sharded_put-IsSharded vb_hash docid doc_rev sc hash n fine v =
    let k = vb_hash docid sc.num_shards in
    let (c, h, s) = v.shards k (hash docid sc.num_shards n) in
    let (d, p, w) = put-IsSound docid doc_rev c fine s in
    (
      record sc { caches = set_shard k d sc.caches },
      written c d h p,
      record {
        shards = λ i b.
            let (e, g, u) = v.shards i b in
            (
              if i == k then d else e,
              shard_at-set_shard k i d e sc.caches g,
              elim (Bool-cases (i == k)) [ inl q ↦ rw q w | inr q ↦ rw q u ],
            );
      },
      λ i b o.
          let (e, g, u) = v.shards i b in shard_at-set_shard k i d e sc.caches g ∙ rw o (sym g),
    )
  where
    written :
        (c d : RevisionCache)
        → shard_at (vb_hash docid sc.num_shards) sc.caches ≡ some c
        → put docid doc_rev c ≡ some d
        → sharded_put vb_hash docid doc_rev sc
          ≡ some (record sc { caches = set_shard (vb_hash docid sc.num_shards) d sc.caches })
    written c d h p = rw (sharded_put, write_shard, get_shard, h, p) refl
