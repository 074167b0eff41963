-- ===== src/Lru/Elements.antt =====
-- The elements of the cache of base/lru_cache.go: how the map and the list change together.
use sync_gateway.Prelude.{
  ℕ, ◌+◌, ◌≡◌, ◌≢◌, refl, ap, sym, ◌∙◌, ◌↔◌, Bool, true, false, none, some, List, [], ◌∷◌, arith,
  ◌==◌, ==_iff, if◌then◌else◌, length, Bool-cases, inl, inr,
}
use mathlib.Core.Option.{some-injective, none-ne-some}
use sync_gateway.Lru.{Element, lookup, delete_key, remove_element, back}

-- No two elements have a key in common.
abbrev pub Unique {ℓ ℓ'} :
    {K : Type ℓ} {V : Type ℓ'} → (K → K → Bool) → List (Element K V) → Type (ℓ ⊔ ℓ')
Unique same [] = Unit
Unique same (e ∷ es) = (lookup same e.key es ≡ none) × Unique same es

-- No element has the identity.
abbrev pub IsFresh {ℓ ℓ'} : {K : Type ℓ} {V : Type ℓ'} → ℕ → List (Element K V) → Type 0
IsFresh i [] = Unit {0}
IsFresh i (e ∷ es) = ((e.id == i) ≡ false) × IsFresh i es

abbrev pub DistinctIds {ℓ ℓ'} : {K : Type ℓ} {V : Type ℓ'} → List (Element K V) → Type 0
DistinctIds [] = Unit {0}
DistinctIds (e ∷ es) = IsFresh e.id es × DistinctIds es

pub IsFresh-lookup {ℓ ℓ'} :
    {K : Type ℓ} {V : Type ℓ'} (same : K → K → Bool) (k : K) (e : Element K V) (i : ℕ)
    (es : List (Element K V))
    → IsFresh i es
    → lookup same k es ≡ some e
    → (i == e.id) ≡ false
unfolding lookup
IsFresh-lookup same k e i [] f h = cc
IsFresh-lookup same k e i (x ∷ es) f h = elim (Bool-cases (same x.key k)) [
  | inl here ↦ let q : x ≡ e = some-injective _ _ (rw here at h) in ground (arith, ap (λ z. z.id) q)
  | inr there ↦ IsFresh-lookup same k e i es f.1 (rw there at h)
]

-- The element of a key is the one of its identity.
pub remove_element-lookup {ℓ ℓ'} :
    {K : Type ℓ} {V : Type ℓ'} (same : K → K → Bool) (k : K) (e : Element K V)
    (es : List (Element K V))
    → DistinctIds es
    → lookup same k es ≡ some e
    → remove_element e.id es ≡ delete_key same k es
unfolding lookup remove_element delete_key
remove_element-lookup same k e [] d h = refl
remove_element-lookup same k e (x ∷ es) d h = elim (Bool-cases (same x.key k)) [
  | inl here ↦
      let q : x ≡ e = some-injective _ _ (rw here at h) in
      let n : (x.id == e.id) ≡ true = (==_iff _ _).1 (ap (λ z. z.id) q) in rw (n, here) refl
  | inr there ↦
      let n = IsFresh-lookup same k e x.id es d.0 (rw there at h) in
      rw (n, there, remove_element-lookup same k e es d.1 (rw there at h)) refl
]

pub IsFresh-delete_key {ℓ ℓ'} :
    {K : Type ℓ} {V : Type ℓ'} (same : K → K → Bool) (k : K) (i : ℕ) (es : List (Element K V))
    → IsFresh i es
    → IsFresh i (delete_key same k es)
unfolding delete_key
IsFresh-delete_key same k i [] f = tt
IsFresh-delete_key same k i (x ∷ es) f = elim (Bool-cases (same x.key k)) [
  | inl here ↦ rw here f.1
  | inr there ↦ rw there (f.0, IsFresh-delete_key same k i es f.1)
]

pub DistinctIds-delete_key {ℓ ℓ'} :
    {K : Type ℓ} {V : Type ℓ'} (same : K → K → Bool) (k : K) (es : List (Element K V))
    → DistinctIds es
    → DistinctIds (delete_key same k es)
unfolding delete_key
DistinctIds-delete_key same k [] d = tt
DistinctIds-delete_key same k (x ∷ es) d = elim (Bool-cases (same x.key k)) [
  | inl here ↦ rw here d.1
  | inr there ↦
      rw there (IsFresh-delete_key same k x.id es d.0, DistinctIds-delete_key same k es d.1)
]

pub length-delete_key {ℓ ℓ'} :
    {K : Type ℓ} {V : Type ℓ'} (same : K → K → Bool) (k : K) (e : Element K V)
    (es : List (Element K V))
    → lookup same k es ≡ some e
    → length (delete_key same k es) + 1 ≡ length es
unfolding delete_key lookup
length-delete_key same k e [] h = cc
length-delete_key same k e (x ∷ es) h = elim (Bool-cases (same x.key k)) [
  | inl here ↦ rw here (omega arith)
  | inr there ↦ rw there (omega (arith, length-delete_key same k e es (rw there at h)))
]

-- Tests of keys that decide equality.
abbrev pub IsKeyTest {ℓ} : {K : Type ℓ} → (K → K → Bool) → Type ℓ
IsKeyTest {K = K} same = (a b : K) → (same a b ≡ true) ↔ (a ≡ b)

key-ne {ℓ} :
    {K : Type ℓ} (same : K → K → Bool) (t : IsKeyTest same) (j k : K) → same j k ≡ false → j ≢ k
key-ne same t j k n q = let e = (t j k).1 q in cc

pub Bool-false : (b : Bool) → b ≢ true → b ≡ false
Bool-false true n = absurd (n refl)
Bool-false false n = refl

pub lookup-delete_key {ℓ ℓ'} :
    {K : Type ℓ} {V : Type ℓ'} (same : K → K → Bool) (t : IsKeyTest same) (j k : K)
    (es : List (Element K V))
    → Unique same es
    → lookup same j (delete_key same k es) ≡ (if same k j then none else lookup same j es)
unfolding delete_key lookup
lookup-delete_key same t j k [] u = ground arith
lookup-delete_key same t j k (x ∷ es) u = elim (Bool-cases (same x.key k)) [
  | inl here ↦
      let q : x.key ≡ k = (t x.key k).0 here in
      rw here (elim (Bool-cases (same k j)) [
        | inl same_key ↦
            rw same_key (ap (λ z. lookup same z es) (sym (q ∙ (t k j).0 same_key)) ∙ u.0)
        | inr other ↦ rw (other, ap (λ z. same z j) q, other) refl
      ])
  | inr there ↦ rw there (elim (Bool-cases (same x.key j)) [
    | inl found ↦
        rw
          (
            found,
            Bool-false (same k j)
                (λ h. key-ne same t x.key k there ((t x.key j).0 found ∙ sym ((t k j).0 h))),
          )
          refl
    | inr missing ↦ rw missing (lookup-delete_key same t j k es u.1)
  ])
]

pub Unique-delete_key {ℓ ℓ'} :
    {K : Type ℓ} {V : Type ℓ'} (same : K → K → Bool) (t : IsKeyTest same) (k : K)
    (es : List (Element K V))
    → Unique same es
    → Unique same (delete_key same k es)
unfolding delete_key
Unique-delete_key same t k [] u = tt
Unique-delete_key same t k (x ∷ es) u = elim (Bool-cases (same x.key k)) [
  | inl here ↦ rw here u.1
  | inr there ↦
      let n : same k x.key ≡ false =
        Bool-false _ (λ h. key-ne same t x.key k there (sym ((t k x.key).0 h))) in
      rw there
        (lookup-delete_key same t x.key k es u.1 ∙ rw n u.0, Unique-delete_key same t k es u.1)
]

pub lookup-back {ℓ ℓ'} :
    {K : Type ℓ} {V : Type ℓ'} (same : K → K → Bool) (t : IsKeyTest same) (e : Element K V)
    (es : List (Element K V))
    → Unique same es
    → back es ≡ some e
    → lookup same e.key es ≡ some e
unfolding back lookup
lookup-back same t e [] u h = cc
lookup-back same t e (x ∷ []) u h =
    let q : x ≡ e = some-injective _ _ h in rw ((t x.key e.key).1 (ap (λ z. z.key) q)) h
lookup-back same t e (x ∷ y ∷ es) u h =
    let r = lookup-back same t e (y ∷ es) u.1 h in
    let n : same x.key e.key ≡ false = Bool-false _ (λ q.
      none-ne-some _ (sym u.0 ∙ ap (λ z. lookup same z (y ∷ es)) ((t x.key e.key).0 q) ∙ r)) in
    rw n r
