-- ===== src/RevisionCache/Valid.antt =====
-- The cache of db/revision_cache.go keeps its map, its list and its values consistent.
use sync_gateway.Prelude.{
  ℕ, zero, suc, ◌<◌, ◌≡◌, refl, ap, sym, ◌∙◌, Bool, true, false, none, some, List, [], ◌∷◌, arith,
  ◌==◌, ==_iff, length, take, str_eq_iff, Bool-cases, Option-cases, inl, inr,
}
use mathlib.Core.Path.{ap₂, subst}
use mathlib.Core.Option.{some-injective}
use sync_gateway.Lru.{
  LruCache, Element, lookup, delete_key, remove_element, move_to_front, push_front, purge_over,
}
use sync_gateway.Lru.Elements.{
  IsKeyTest, lookup-delete_key, remove_element-lookup, length-delete_key,
}
use sync_gateway.Lru.Identities.{IsBelow, key-lookup}
use sync_gateway.Lru.Linked.{
  move_to_front-IsLinked, push_front-IsLinked, purge_over-IsLinked, delete_key-IsLinked,
  length-take_le,
}
use sync_gateway.Lru.Refines.{IsValid, used-IsValid}
use sync_gateway.RevisionCache.{
  IdAndRev, same_id, RevCacheValue, RevisionCache, new_value, set_value, get_key, remove_value,
}

pub same_id-IsKeyTest : IsKeyTest same_id
unfolding same_id
same_id-IsKeyTest (d, r) (e, s) = (
  λ h.
      ap₂ (λ x y. (x, y)) ((str_eq_iff d e).0 (ground (arith, h)))
        ((str_eq_iff r s).0 (ground (arith, h))),
  λ q. rw ((str_eq_iff d e).1 (ap (λ p. p.0) q), (str_eq_iff r s).1 (ap (λ p. p.1) q)) refl,
)

-- Each element's value has the element's key.
abbrev pub HasKeys : (ℕ → RevCacheValue) → List (Element IdAndRev (Unit {0})) → Type 0
HasKeys values [] = Unit {0}
HasKeys values (e ∷ es) = ((values e.id).key ≡ e.key) × HasKeys values es

-- The map and the list hold the same revisions, no more than the capacity, and each one's value has
-- its key.
pub record IsSound (rc : RevisionCache) : Type 0 where
  pub valid : IsValid same_id rc.lru
  pub keys : HasKeys rc.values rc.lru.lru_list
  pub capacity : 0 < rc.lru.capacity

HasKeys-lookup :
    (values : ℕ → RevCacheValue) (k : IdAndRev) (e : Element IdAndRev (Unit {0}))
    (es : List (Element IdAndRev (Unit {0})))
    → HasKeys values es
    → lookup same_id k es ≡ some e
    → (values e.id).key ≡ e.key
unfolding lookup
HasKeys-lookup values k e [] v h = cc
HasKeys-lookup values k e (x ∷ es) v h = elim (Bool-cases (same_id x.key k)) [
  | inl here ↦
      let q : x ≡ e = some-injective _ _ (rw here at h) in
      subst (λ z. (values z.id).key ≡ z.key) q v.0
  | inr there ↦ HasKeys-lookup values k e es v.1 (rw there at h)
]

pub HasKeys-delete_key :
    (values : ℕ → RevCacheValue) (k : IdAndRev) (es : List (Element IdAndRev (Unit {0})))
    → HasKeys values es
    → HasKeys values (delete_key same_id k es)
unfolding delete_key
HasKeys-delete_key values k [] v = tt
HasKeys-delete_key values k (x ∷ es) v = elim (Bool-cases (same_id x.key k)) [
  | inl here ↦ rw here v.1
  | inr there ↦ rw there (v.0, HasKeys-delete_key values k es v.1)
]

HasKeys-take :
    (values : ℕ → RevCacheValue) (n : ℕ) (es : List (Element IdAndRev (Unit {0})))
    → HasKeys values es
    → HasKeys values (take n es)
HasKeys-take values zero es v = tt
HasKeys-take values (suc n) [] v = tt
HasKeys-take values (suc n) (x ∷ es) v = (v.0, HasKeys-take values n es v.1)

-- Another value that keeps its key, or that no element has.
pub HasKeys-set_value :
    (values : ℕ → RevCacheValue) (i : ℕ) (w : RevCacheValue)
    (es : List (Element IdAndRev (Unit {0})))
    → w.key ≡ (values i).key
    → HasKeys values es
    → HasKeys (set_value i w values) es
unfolding set_value
HasKeys-set_value values i w [] q v = tt
HasKeys-set_value values i w (x ∷ es) q v = (
  elim (Bool-cases (x.id == i)) [
    | inl here ↦
        let r : x.id ≡ i = (==_iff _ _).0 here in
        rw here (q ∙ ap (λ j. (values j).key) (sym r) ∙ v.0)
    | inr there ↦ rw there v.0
  ],
  HasKeys-set_value values i w es q v.1,
)

HasKeys-new_value :
    (values : ℕ → RevCacheValue) (n : ℕ) (w : RevCacheValue)
    (es : List (Element IdAndRev (Unit {0})))
    → IsBelow n es
    → HasKeys values es
    → HasKeys (set_value n w values) es
unfolding set_value
HasKeys-new_value values n w [] b v = tt
HasKeys-new_value values n w (x ∷ es) b v =
    let other : (x.id == n) ≡ false = ground arith in
    (rw other v.0, HasKeys-new_value values n w es b.1 v.1)

pub set_value-same :
    (i : ℕ) (w : RevCacheValue) (values : ℕ → RevCacheValue) → set_value i w values i ≡ w
unfolding set_value
set_value-same i w values = ground arith

-- What a look-up of a key gives when there is a value: the cache is consistent, and the map has the key.
pub record Got (key : IdAndRev) (rc : RevisionCache) (i : ℕ) (rc' : RevisionCache) : Type 0 where
  pub sound : IsSound rc'
  pub element : Element IdAndRev (Unit {0})
  pub resident : lookup same_id key rc'.lru.cache ≡ some element
  pub identity : element.id ≡ i
  pub value_key : (rc'.values i).key ≡ key
  pub loader : rc'.loader_func ≡ rc.loader_func

-- A key that the map has.
pub get_key-found :
    (key : IdAndRev) (create : Bool) (e : Element IdAndRev (Unit {0})) (rc : RevisionCache)
    → IsSound rc
    → lookup same_id key rc.lru.cache ≡ some e
    → (rc' : RevisionCache) × (get_key key create rc ≡ some (some e.id, rc'))
      × (rc'.values ≡ rc.values)
      × Got key rc e.id rc'
unfolding get_key
get_key-found key create e rc v h =
    let t = same_id-IsKeyTest in
    let (i, q, f) = used-IsValid same_id t key e rc.lru v.valid h in
    let (m, n) = move_to_front-IsLinked same_id t key e rc.lru v.valid.linked h in
    let g = sym (v.valid.linked.entries key) ∙ h in
    let k = HasKeys-lookup rc.values key e rc.lru.lru_list v.keys g in
    (
      record rc { lru = record rc.lru { lru_list = move_to_front e rc.lru.lru_list } },
      rw (get_key, h) refl,
      refl,
      record {
        sound = record {
          valid = i;
          keys = rw m (k, HasKeys-delete_key rc.values key rc.lru.lru_list v.keys);
          capacity = v.capacity;
        };
        element = e;
        resident = h;
        identity = refl;
        value_key = k ∙ key-lookup same_id t key e rc.lru.lru_list g;
        loader = refl;
      },
    )

lookup-take :
    (n : ℕ) (k : IdAndRev) (e : Element IdAndRev (Unit {0}))
    (es : List (Element IdAndRev (Unit {0})))
    → 0 < n
    → same_id e.key k ≡ true
    → lookup same_id k (take n (e ∷ es)) ≡ some e
unfolding lookup
lookup-take zero k e es p h = absurd (omega (arith, p))
lookup-take (suc n) k e es p h = rw h refl

get_key-purged :
    (key : IdAndRev) (rc : RevisionCache) (l : LruCache IdAndRev (Unit {0}))
    → lookup same_id key rc.lru.cache ≡ none
    → purge_over (suc (suc (length rc.lru.cache))) same_id (push_front key tt rc.lru) ≡ some l
    → get_key key true rc
      ≡ some (
        some rc.lru.next_id,
        record rc { lru = l; values = set_value rc.lru.next_id (new_value key) rc.values },
      )
unfolding get_key
get_key-purged key rc l h p = rw (get_key, h, p) refl

-- A key that the map does not have, and that gets a new value.
pub get_key-created :
    (key : IdAndRev) (rc : RevisionCache)
    → IsSound rc
    → lookup same_id key rc.lru.cache ≡ none
    → (rc' : RevisionCache) × (get_key key true rc ≡ some (some rc.lru.next_id, rc'))
      × (rc'.values ≡ set_value rc.lru.next_id (new_value key) rc.values)
      × Got key rc rc.lru.next_id rc'
unfolding push_front new_value
get_key-created key rc v h =
    let t = same_id-IsKeyTest in
    let e : Element IdAndRev (Unit {0}) = record { id = rc.lru.next_id; key = key; value = tt } in
    let w = new_value key in
    let n = rc.lru.next_id in
    let k = v.valid.linked in
    let (l, p, i) =
      purge_over-IsLinked same_id t (length rc.lru.cache) (push_front key tt rc.lru)
        (push_front-IsLinked same_id key tt rc.lru k h) (omega (arith, v.valid.bounded)) in
    let u : set_value n w rc.values n ≡ w = set_value-same n w rc.values in
    (
      record rc {
        lru = record (push_front key tt rc.lru) {
          cache = l;
          lru_list = take rc.lru.capacity (e ∷ rc.lru.lru_list);
        };
        values = set_value n w rc.values;
      },
      get_key-purged key rc _ h p,
      refl,
      record {
        sound = record {
          valid = record { linked = i; bounded = length-take_le rc.lru.capacity _ };
          keys =
              HasKeys-take (set_value n w rc.values) rc.lru.capacity (e ∷ rc.lru.lru_list)
                (ap (λ z. z.key) u, HasKeys-new_value rc.values n w rc.lru.lru_list k.below v.keys);
          capacity = v.capacity;
        };
        element = e;
        resident =
            i.entries key
            ∙ lookup-take rc.lru.capacity key e rc.lru.lru_list v.capacity ((t key key).1 refl);
        identity = refl;
        value_key = ap (λ z. z.key) u;
        loader = refl;
      },
    )

-- Another content for a value that keeps its key.
pub set_value-IsSound :
    (i : ℕ) (w : RevCacheValue) (rc : RevisionCache)
    → w.key ≡ (rc.values i).key
    → IsSound rc
    → IsSound (record rc { values = set_value i w rc.values })
set_value-IsSound i w rc q v = record {
  valid = v.valid;
  keys = HasKeys-set_value rc.values i w rc.lru.lru_list q v.keys;
  capacity = v.capacity;
}

-- A value that is removed: the cache stays consistent.
pub remove_value-IsSound : (i : ℕ) (rc : RevisionCache) → IsSound rc → IsSound (remove_value i rc)
unfolding remove_value
remove_value-IsSound i rc v = elim (Option-cases (lookup same_id (rc.values i).key rc.lru.cache)) [
  | inl absent ↦ rw (remove_value, absent) v
  | inr (e, h) ↦ elim (Bool-cases (e.id == i)) [
    | inl current ↦
        let t = same_id-IsKeyTest in
        let k = (rc.values i).key in
        let g = sym (v.valid.linked.entries k) ∙ h in
        let q : remove_element i rc.lru.lru_list ≡ delete_key same_id k rc.lru.lru_list =
          ap (λ j. remove_element j rc.lru.lru_list) (sym ((==_iff _ _).0 current))
          ∙ remove_element-lookup same_id k e rc.lru.lru_list v.valid.linked.ids g in
        rw (remove_value, h, current, q)
          (record {
            valid = record {
              linked = delete_key-IsLinked same_id t k e rc.lru v.valid.linked g;
              bounded =
                  omega (arith, v.valid.bounded, length-delete_key same_id k e rc.lru.lru_list g);
            };
            keys = HasKeys-delete_key rc.values k rc.lru.lru_list v.keys;
            capacity = v.capacity;
          })
    | inr stale ↦ rw (remove_value, h, stale) v
  ]
]

-- After the removal of the value that the map has for a key, the map does not have the key.
pub remove_value-resident :
    (key : IdAndRev) (e : Element IdAndRev (Unit {0})) (rc : RevisionCache)
    → IsSound rc
    → (rc.values e.id).key ≡ key
    → lookup same_id key rc.lru.cache ≡ some e
    → lookup same_id key (remove_value e.id rc).lru.cache ≡ none
unfolding remove_value
remove_value-resident key e rc v q h =
    let t = same_id-IsKeyTest in
    let g : lookup same_id (rc.values e.id).key rc.lru.cache ≡ some e =
      ap (λ k. lookup same_id k rc.lru.cache) q ∙ h in
    let c : (e.id == e.id) ≡ true = (==_iff _ _).1 refl in
    rw (remove_value, g, c)
      (lookup-delete_key same_id t key (rc.values e.id).key rc.lru.cache v.valid.linked.cache_keys
        ∙ rw ((t (rc.values e.id).key key).1 q) refl)
