-- ===== src/Lru.antt =====
-- base/lru_cache.go: a cache of the most recently used entries. The map and the list of the source
-- are two lists that share elements; an element keeps the identity of its allocation. Each map entry
-- stands under its element's own key, as every assignment of the source has it. Calls come one after
-- another: `Put` and `Count` take no lock in the source. The parts are generic in the key, for
-- db/revision_cache.go keeps the same two structures.
pub mod Elements
pub mod Identities
pub mod Linked
pub mod Refines
use sync_gateway.Prelude.{
  ℕ, zero, suc, ◌+◌, Bool, true, false, Option, none, some, List, [], ◌∷◌, ltb, ◌==◌, if◌then◌else◌,
  length, Str, str_eq,
}
use sync_gateway.Prelude.Int.{ℤ, pos, negsuc}

-- A list element with its `lruCacheValue`.
pub record Element {ℓ ℓ'} (K : Type ℓ) (V : Type ℓ') : Type (ℓ ⊔ ℓ') where
  pub id : ℕ
  pub key : K
  pub value : V

pub record LruCache {ℓ ℓ'} (K : Type ℓ) (V : Type ℓ') : Type (ℓ ⊔ ℓ') where
  pub cache : List (Element K V)
  pub lru_list : List (Element K V)
  pub capacity : ℕ
  pub next_id : ℕ

-- `none` is the error "LRU cache capacity must be non-zero".
unfoldable pub new_lru_cache {ℓ ℓ'} : {K : Type ℓ} {V : Type ℓ'} → ℤ → Option (LruCache K V)
new_lru_cache (pos zero) = none
new_lru_cache (pos (suc n)) =
    some (record { cache = []; lru_list = []; capacity = suc n; next_id = 0 })
new_lru_cache (negsuc n) = none

-- `cache[key]`.
unfoldable pub lookup {ℓ ℓ'} :
    {K : Type ℓ} {V : Type ℓ'} → (K → K → Bool) → K → List (Element K V) → Option (Element K V)
lookup same k [] = none
lookup same k (e ∷ es) = if same e.key k then some e else lookup same k es

-- `delete(cache, key)`.
unfoldable pub delete_key {ℓ ℓ'} :
    {K : Type ℓ} {V : Type ℓ'} → (K → K → Bool) → K → List (Element K V) → List (Element K V)
delete_key same k [] = []
delete_key same k (e ∷ es) =
    let rest = e ∷ delete_key same k es in if same e.key k then es else rest

-- `lruList.Remove`: the element of an identity goes.
unfoldable pub remove_element {ℓ ℓ'} :
    {K : Type ℓ} {V : Type ℓ'} → ℕ → List (Element K V) → List (Element K V)
remove_element i [] = []
remove_element i (e ∷ es) = let rest = e ∷ remove_element i es in if e.id == i then es else rest

unfoldable pub move_to_front {ℓ ℓ'} :
    {K : Type ℓ} {V : Type ℓ'} → Element K V → List (Element K V) → List (Element K V)
unfolding remove_element
move_to_front e es = e ∷ remove_element e.id es

-- `lruList.Back()`.
unfoldable pub back {ℓ ℓ'} : {K : Type ℓ} {V : Type ℓ'} → List (Element K V) → Option (Element K V)
back [] = none
back (e ∷ []) = some e
back (e ∷ f ∷ es) = back (f ∷ es)

-- `none` is the panic of a removal from an empty list.
unfoldable pub purge_oldest {ℓ ℓ'} :
    {K : Type ℓ} {V : Type ℓ'} → (K → K → Bool) → LruCache K V → Option (LruCache K V)
purge_oldest same c = elim (back c.lru_list) [
  | none ↦ none
  | some e ↦ some (record c {
    lru_list = remove_element e.id c.lru_list;
    cache = delete_key same e.key c.cache;
  })
]

-- The loop that purges while the map is over capacity, on fuel; `none` is a panic or no fuel.
unfoldable pub purge_over {ℓ ℓ'} :
    {K : Type ℓ} {V : Type ℓ'} → ℕ → (K → K → Bool) → LruCache K V → Option (LruCache K V)
purge_over zero same c = none
purge_over {K = K} {V = V} (suc fuel) same c =
    if ltb c.capacity (length c.cache)
    then elim (purge_oldest same c) as (λ o. Option (LruCache K V)) [
      | none ↦ none
      | some d ↦ purge_over fuel same d
    ]
    else some c

-- A new element in front, which takes the next identity.
unfoldable pub push_front {ℓ ℓ'} : {K : Type ℓ} {V : Type ℓ'} → K → V → LruCache K V → LruCache K V
push_front {K = K} {V = V} k v c =
    let e : Element K V = record { id = c.next_id; key = k; value = v } in
    record c { cache = e ∷ c.cache; lru_list = e ∷ c.lru_list; next_id = c.next_id + 1 }

unfoldable pub get {ℓ ℓ'} :
    {K : Type ℓ} {V : Type ℓ'} → (K → K → Bool) → K → LruCache K V → Option V × LruCache K V
get same k c = elim (lookup same k c.cache) [
  | none ↦ (none, c)
  | some e ↦ (some e.value, record c { lru_list = move_to_front e c.lru_list })
]

unfoldable pub put {ℓ ℓ'} :
    {K : Type ℓ} {V : Type ℓ'} → (K → K → Bool) → K → V → LruCache K V → Option (LruCache K V)
put same k v c = elim (lookup same k c.cache) [
  | none ↦ purge_over (suc (suc (length c.cache))) same (push_front k v c)
  | some e ↦ some (record c { lru_list = move_to_front e c.lru_list })
]

unfoldable pub entry_count {ℓ ℓ'} : {K : Type ℓ} {V : Type ℓ'} → LruCache K V → ℕ
entry_count c = length c.cache
