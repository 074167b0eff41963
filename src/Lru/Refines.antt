-- ===== src/Lru/Refines.antt =====
-- The cache of base/lru_cache.go against the list of the most recently used entries.
use sync_gateway.Prelude.{
  ℕ, zero, suc, ◌≡◌, ◌≤◌, refl, ap, sym, ◌∙◌, Bool, Option, none, some, List, [], ◌∷◌, arith,
  if◌then◌else◌, length, Bool-cases, Option-cases, take, inl, inr,
}
use mathlib.Core.Option.{some-injective, none-ne-some}
use sync_gateway.Lru.{Element, LruCache, lookup, delete_key, move_to_front, push_front, get, put}
use sync_gateway.Lru.Elements.{IsKeyTest, length-delete_key}
use sync_gateway.Lru.Identities.{key-lookup}
use sync_gateway.Lru.Linked.{
  IsLinked, move_to_front-IsLinked, push_front-IsLinked, purge_over-IsLinked, length-take_le,
}

-- The abstract cache: entries, the most recently used first.
unfoldable pub find_entry {ℓ ℓ'} :
    {K : Type ℓ} {V : Type ℓ'} → (K → K → Bool) → K → List (K × V) → Option V
find_entry same k [] = none
find_entry same k ((j, v) ∷ l) = if same j k then some v else find_entry same k l

unfoldable pub without_entry {ℓ ℓ'} :
    {K : Type ℓ} {V : Type ℓ'} → (K → K → Bool) → K → List (K × V) → List (K × V)
without_entry same k [] = []
without_entry same k ((j, v) ∷ l) =
    let rest = (j, v) ∷ without_entry same k l in if same j k then l else rest

-- A key that is asked for moves to the front.
unfoldable pub recent_get {ℓ ℓ'} :
    {K : Type ℓ} {V : Type ℓ'} → (K → K → Bool) → K → List (K × V) → Option V × List (K × V)
recent_get same k l = elim (find_entry same k l) [
  | none ↦ (none, l)
  | some v ↦ (some v, (k, v) ∷ without_entry same k l)
]

-- A new key comes to the front, and of too many entries the last goes; a present one keeps its value.
unfoldable pub recent_put {ℓ ℓ'} :
    {K : Type ℓ} {V : Type ℓ'} → ℕ → (K → K → Bool) → K → V → List (K × V) → List (K × V)
recent_put capacity same k v l = elim (find_entry same k l) [
  | none ↦ take capacity ((k, v) ∷ l)
  | some w ↦ (k, w) ∷ without_entry same k l
]

unfoldable pub contents {ℓ ℓ'} : {K : Type ℓ} {V : Type ℓ'} → List (Element K V) → List (K × V)
contents [] = []
contents (e ∷ es) = (e.key, e.value) ∷ contents es

-- The map and the list agree, and there are no more entries than the capacity.
pub record IsValid {ℓ ℓ'} {K : Type ℓ} {V : Type ℓ'} (same : K → K → Bool) (c : LruCache K V)
    : Type (ℓ ⊔ ℓ') where
  pub linked : IsLinked same c
  pub bounded : length c.lru_list ≤ c.capacity

find_entry-some {ℓ ℓ'} :
    {K : Type ℓ} {V : Type ℓ'} (same : K → K → Bool) (k : K) (e : Element K V)
    (es : List (Element K V))
    → lookup same k es ≡ some e
    → find_entry same k (contents es) ≡ some e.value
unfolding find_entry lookup contents
find_entry-some same k e [] h = cc
find_entry-some same k e (x ∷ es) h = elim (Bool-cases (same x.key k)) [
  | inl here ↦
      let q : x ≡ e = some-injective _ _ (rw here at h) in rw here (ap (λ z. some z.value) q)
  | inr there ↦ rw there (find_entry-some same k e es (rw there at h))
]

find_entry-none {ℓ ℓ'} :
    {K : Type ℓ} {V : Type ℓ'} (same : K → K → Bool) (k : K) (es : List (Element K V))
    → lookup same k es ≡ none
    → find_entry same k (contents es) ≡ none
unfolding find_entry lookup contents
find_entry-none same k [] h = refl
find_entry-none same k (x ∷ es) h = elim (Bool-cases (same x.key k)) [
  | inl here ↦ absurd (none-ne-some _ (sym (rw here at h)))
  | inr there ↦ rw there (find_entry-none same k es (rw there at h))
]

contents-delete_key {ℓ ℓ'} :
    {K : Type ℓ} {V : Type ℓ'} (same : K → K → Bool) (k : K) (es : List (Element K V))
    → contents (delete_key same k es) ≡ without_entry same k (contents es)
unfolding contents delete_key without_entry
contents-delete_key same k [] = refl
contents-delete_key same k (x ∷ es) = elim (Bool-cases (same x.key k)) [
  | inl here ↦ rw here refl
  | inr there ↦ rw (there, contents-delete_key same k es) refl
]

contents-take {ℓ ℓ'} :
    {K : Type ℓ} {V : Type ℓ'} (n : ℕ) (es : List (Element K V))
    → contents (take n es) ≡ take n (contents es)
unfolding contents
contents-take zero es = refl
contents-take (suc n) [] = refl
contents-take (suc n) (x ∷ es) = ap (λ l. (x.key, x.value) ∷ l) (contents-take n es)

-- The state when an entry is used.
pub used-IsValid {ℓ ℓ'} :
    {K : Type ℓ} {V : Type ℓ'} (same : K → K → Bool) (t : IsKeyTest same) (k : K) (e : Element K V)
    (c : LruCache K V)
    → IsValid same c
    → lookup same k c.cache ≡ some e
    → IsValid same (record c { lru_list = move_to_front e c.lru_list })
      × (contents (move_to_front e c.lru_list)
          ≡ (k, e.value) ∷ without_entry same k (contents c.lru_list))
      × (find_entry same k (contents c.lru_list) ≡ some e.value)
used-IsValid same t k e c v h =
    let (q, i) = move_to_front-IsLinked same t k e c v.linked h in
    let g = sym (v.linked.entries k) ∙ h in
    (
      rw q (record {
        linked = i;
        bounded = omega (arith, v.bounded, length-delete_key same k e c.lru_list g);
      }),
      rw q (
          unfold contents in
          rw (key-lookup same t k e c.lru_list g, contents-delete_key same k c.lru_list) refl),
      find_entry-some same k e c.lru_list g,
    )

-- In a cache whose map and list agree, a look-up gives what the list of the most recently used entries
-- gives, and leaves the cache with the contents of that list; the map and the list still agree, within the capacity.
pub get-recent_get {ℓ ℓ'} :
    {K : Type ℓ} {V : Type ℓ'} (same : K → K → Bool) (t : IsKeyTest same) (k : K) (c : LruCache K V)
    → IsValid same c
    → let (o, d) = get same k c in
      IsValid same d × ((o, contents d.lru_list) ≡ recent_get same k (contents c.lru_list))
unfolding get recent_get
get-recent_get same t k c v = elim (Option-cases (lookup same k c.cache)) [
  | inl absent ↦
      let n = find_entry-none same k c.lru_list (sym (v.linked.entries k) ∙ absent) in
      rw (get, absent) (v, rw (recent_get, n) refl)
  | inr (e, h) ↦
      let (i, q, f) = used-IsValid same t k e c v h in rw (get, h) (i, rw (recent_get, q, f) refl)
]

-- In a cache whose map and list agree, `Put` does not panic, and its loop ends; the contents are then
-- those that the list of the most recently used entries has after it, and the map and the
-- list still agree, within the capacity.
pub put-recent_put {ℓ ℓ'} :
    {K : Type ℓ} {V : Type ℓ'} (same : K → K → Bool) (t : IsKeyTest same) (k : K) (x : V)
    (c : LruCache K V)
    → IsValid same c
    → (d : LruCache K V) × (put same k x c ≡ some d)
      × IsValid same d
      × (contents d.lru_list ≡ recent_put c.capacity same k x (contents c.lru_list))
unfolding put recent_put
put-recent_put same t k x c v = elim (Option-cases (lookup same k c.cache)) [
  | inl absent ↦
      let (l, p, i) =
        purge_over-IsLinked same t (length c.cache) (push_front k x c)
          (push_front-IsLinked same k x c v.linked absent)
          (unfold push_front in omega (arith, v.bounded)) in
      let n = find_entry-none same k c.lru_list (sym (v.linked.entries k) ∙ absent) in
      (
        _,
        rw (put, absent, p) refl,
        record { linked = i; bounded = unfold push_front in length-take_le c.capacity _ },
        rw (recent_put, n)
            (unfold push_front in contents-take c.capacity _ ∙ unfold contents in refl),
      )
  | inr (e, h) ↦
      let (i, q, f) = used-IsValid same t k e c v h in
      (_, rw (put, h) refl, i, rw (recent_put, f) q)
]
