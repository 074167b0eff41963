-- ===== src/Lru/Linked.antt =====
-- The map and the list of base/lru_cache.go: that they hold the same entries.
use sync_gateway.Prelude.{
  ℕ, zero, suc, ◌+◌, ◌≡◌, ◌≤◌, refl, ap, sym, ◌∙◌, Bool, false, none, some, List, [], ◌∷◌, arith,
  ltb, length, Bool-cases, take, inl, inr,
}
use mathlib.Core.Path.{subst}
use sync_gateway.Lru.{
  Element, LruCache, lookup, delete_key, move_to_front, back, purge_oldest, purge_over, push_front,
}
use sync_gateway.Lru.Elements.{
  Unique, DistinctIds, remove_element-lookup, DistinctIds-delete_key, length-delete_key, IsKeyTest,
  lookup-delete_key, Unique-delete_key, lookup-back,
}
use sync_gateway.Lru.Identities.{
  IsBelow, IsBelow-IsFresh, IsBelow-next, IsBelow-delete_key, IsBelow-lookup, key-lookup,
  IsFresh-delete_key_found, back-some, delete_key-back,
}

-- The map and the list hold the same elements, of distinct keys and identities.
pub record IsLinked {ℓ ℓ'} {K : Type ℓ} {V : Type ℓ'} (same : K → K → Bool) (c : LruCache K V)
    : Type (ℓ ⊔ ℓ') where
  pub cache_keys : Unique same c.cache
  pub list_keys : Unique same c.lru_list
  pub ids : DistinctIds c.lru_list
  pub below : IsBelow c.next_id c.lru_list
  pub entries : (k : K) → lookup same k c.cache ≡ lookup same k c.lru_list
  pub count : length c.cache ≡ length c.lru_list

-- An entry that is used moves to the front.
pub move_to_front-IsLinked {ℓ ℓ'} :
    {K : Type ℓ} {V : Type ℓ'} (same : K → K → Bool) (t : IsKeyTest same) (k : K) (e : Element K V)
    (c : LruCache K V)
    → IsLinked same c
    → lookup same k c.cache ≡ some e
    → (move_to_front e c.lru_list ≡ e ∷ delete_key same k c.lru_list)
      × IsLinked same (record c { lru_list = e ∷ delete_key same k c.lru_list })
unfolding move_to_front lookup
move_to_front-IsLinked same t k e c v h =
    let g = sym (v.entries k) ∙ h in
    let q = key-lookup same t k e c.lru_list g in
    (
      ap (λ l. e ∷ l) (remove_element-lookup same k e c.lru_list v.ids g),
      record {
        cache_keys = v.cache_keys;
        list_keys = (
          lookup-delete_key same t e.key k c.lru_list v.list_keys ∙ rw ((t k e.key).1 (sym q)) refl,
          Unique-delete_key same t k c.lru_list v.list_keys,
        );
        ids = (
          IsFresh-delete_key_found same k e c.lru_list v.ids g,
          DistinctIds-delete_key same k c.lru_list v.ids,
        );
        below = (
          IsBelow-lookup same k e c.next_id c.lru_list v.below g,
          IsBelow-delete_key same k c.next_id c.lru_list v.below,
        );
        entries = λ j. elim (Bool-cases (same e.key j)) [
          | inl found ↦
              rw found (ap (λ z. lookup same z c.cache) (sym ((t e.key j).0 found) ∙ q) ∙ h)
          | inr other ↦
              let n : same k j ≡ false = ap (λ z. same z j) (sym q) ∙ other in
              rw other (
                v.entries j ∙ sym (lookup-delete_key same t j k c.lru_list v.list_keys ∙ rw n refl))
        ];
        count = v.count ∙ sym (length-delete_key same k e c.lru_list g) ∙ omega arith;
      },
    )

pub push_front-IsLinked {ℓ ℓ'} :
    {K : Type ℓ} {V : Type ℓ'} (same : K → K → Bool) (k : K) (x : V) (c : LruCache K V)
    → IsLinked same c
    → lookup same k c.cache ≡ none
    → IsLinked same (push_front k x c)
unfolding push_front lookup
push_front-IsLinked same k x c v h = record {
  cache_keys = (h, v.cache_keys);
  list_keys = (sym (v.entries k) ∙ h, v.list_keys);
  ids = (IsBelow-IsFresh c.next_id c.lru_list v.below, v.ids);
  below = (omega arith, IsBelow-next c.next_id c.lru_list v.below);
  entries = λ j. rw (v.entries j) refl;
  count = rw v.count refl;
}

-- An entry that goes from both.
pub delete_key-IsLinked {ℓ ℓ'} :
    {K : Type ℓ} {V : Type ℓ'} (same : K → K → Bool) (t : IsKeyTest same) (k : K) (e : Element K V)
    (c : LruCache K V)
    → IsLinked same c
    → lookup same k c.lru_list ≡ some e
    → IsLinked same
        (record c { cache = delete_key same k c.cache; lru_list = delete_key same k c.lru_list })
delete_key-IsLinked same t k e c v g = record {
  cache_keys = Unique-delete_key same t k c.cache v.cache_keys;
  list_keys = Unique-delete_key same t k c.lru_list v.list_keys;
  ids = DistinctIds-delete_key same k c.lru_list v.ids;
  below = IsBelow-delete_key same k c.next_id c.lru_list v.below;
  entries = λ j.
      lookup-delete_key same t j k c.cache v.cache_keys
      ∙ rw (v.entries j) (sym (lookup-delete_key same t j k c.lru_list v.list_keys));
  count = omega (
    arith,
    length-delete_key same k e c.cache (v.entries k ∙ g),
    length-delete_key same k e c.lru_list g,
    v.count,
  );
}

purge_oldest-back {ℓ ℓ'} :
    {K : Type ℓ} {V : Type ℓ'} (same : K → K → Bool) (t : IsKeyTest same) (n : ℕ) (e : Element K V)
    (c : LruCache K V)
    → IsLinked same c
    → back c.lru_list ≡ some e
    → length c.lru_list ≡ suc n
    → (l : List (Element K V)) × (purge_oldest same c
        ≡ some (record c { cache = l; lru_list = take n c.lru_list }))
      × IsLinked same (record c { cache = l; lru_list = take n c.lru_list })
unfolding purge_oldest
purge_oldest-back same t n e c v h m =
    let g = lookup-back same t e c.lru_list v.list_keys h in
    let r = remove_element-lookup same e.key e c.lru_list v.ids g in
    let d = delete_key-back same t e c.lru_list n v.list_keys h m in
    (
      delete_key same e.key c.cache,
      rw (purge_oldest, h, r, d) refl,
      subst (λ l. IsLinked same (record c { cache = delete_key same e.key c.cache; lru_list = l }))
          d (delete_key-IsLinked same t e.key e c v g),
    )

-- The entry that was used longest ago goes.
pub purge_oldest-IsLinked {ℓ ℓ'} :
    {K : Type ℓ} {V : Type ℓ'} (same : K → K → Bool) (t : IsKeyTest same) (n : ℕ) (c : LruCache K V)
    → IsLinked same c
    → length c.lru_list ≡ suc n
    → (l : List (Element K V)) × (purge_oldest same c
        ≡ some (record c { cache = l; lru_list = take n c.lru_list }))
      × IsLinked same (record c { cache = l; lru_list = take n c.lru_list })
purge_oldest-IsLinked same t n c v m =
    let (e, h) = back-some c.lru_list (omega (arith, m)) in purge_oldest-back same t n e c v h m

pub length-take_le {ℓ} : {A : Type ℓ} (n : ℕ) (l : List A) → length (take n l) ≤ n
length-take_le zero l = omega arith
length-take_le (suc n) [] = omega arith
length-take_le (suc n) (a ∷ l) = omega (arith, length-take_le n l)

pub take-all {ℓ} : {A : Type ℓ} (n : ℕ) (l : List A) → length l ≤ n → take n l ≡ l
take-all zero [] h = refl
take-all zero (a ∷ l) h = absurd (omega arith)
take-all (suc n) [] h = refl
take-all (suc n) (a ∷ l) h = ap (λ r. a ∷ r) (take-all n l (omega arith))

-- After an insertion at most one entry is over capacity, and the loop ends after it.
pub purge_over-IsLinked {ℓ ℓ'} :
    {K : Type ℓ} {V : Type ℓ'} (same : K → K → Bool) (t : IsKeyTest same) (fuel : ℕ)
    (c : LruCache K V)
    → IsLinked same c
    → length c.lru_list ≤ c.capacity + 1
    → (l : List (Element K V)) × (purge_over (suc (suc fuel)) same c
        ≡ some (record c { cache = l; lru_list = take c.capacity c.lru_list }))
      × IsLinked same (record c { cache = l; lru_list = take c.capacity c.lru_list })
unfolding purge_over
purge_over-IsLinked same t fuel c v b = elim (Bool-cases (ltb c.capacity (length c.cache))) [
  | inl over ↦
      let m : length c.lru_list ≡ suc c.capacity = ground (arith, v.count) in
      let (l, p, i) = purge_oldest-IsLinked same t c.capacity c v m in
      let fits : ltb c.capacity (length l) ≡ false =
        ground (arith, i.count, length-take_le c.capacity c.lru_list) in
      (l, rw (over, p, fits) refl, i)
  | inr fits ↦
      let q = take-all c.capacity c.lru_list (ground (arith, v.count)) in
      (c.cache, rw (fits, q) refl, rw q v)
]
