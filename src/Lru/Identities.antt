-- ===== src/Lru/Identities.antt =====
-- The identities and the ends of the element lists of base/lru_cache.go.
use sync_gateway.Prelude.{
  ℕ, suc, ◌+◌, ◌≡◌, ◌<◌, refl, ap, sym, ◌∙◌, Bool, false, some, List, [], ◌∷◌, arith, zero, take,
  length, Bool-cases, inl, inr,
}
use mathlib.Core.Path.{subst}
use mathlib.Core.Option.{some-injective, none-ne-some}
use sync_gateway.Lru.{Element, lookup, delete_key, back}
use sync_gateway.Lru.Elements.{
  Unique, IsFresh, DistinctIds, IsFresh-lookup, IsKeyTest, IsKeyTest, Bool-false, lookup-back,
}

-- Every identity is below the next one.
abbrev pub IsBelow {ℓ ℓ'} : {K : Type ℓ} {V : Type ℓ'} → ℕ → List (Element K V) → Type 0
IsBelow n [] = Unit {0}
IsBelow n (e ∷ es) = (e.id < n) × IsBelow n es

pub IsBelow-IsFresh {ℓ ℓ'} :
    {K : Type ℓ} {V : Type ℓ'} (n : ℕ) (es : List (Element K V)) → IsBelow n es → IsFresh n es
IsBelow-IsFresh n [] b = tt
IsBelow-IsFresh n (e ∷ es) b = (ground arith, IsBelow-IsFresh n es b.1)

pub IsBelow-next {ℓ ℓ'} :
    {K : Type ℓ} {V : Type ℓ'} (n : ℕ) (es : List (Element K V)) → IsBelow n es → IsBelow (n + 1) es
IsBelow-next n [] b = tt
IsBelow-next n (e ∷ es) b = (omega arith, IsBelow-next n es b.1)

pub IsBelow-delete_key {ℓ ℓ'} :
    {K : Type ℓ} {V : Type ℓ'} (same : K → K → Bool) (k : K) (n : ℕ) (es : List (Element K V))
    → IsBelow n es
    → IsBelow n (delete_key same k es)
unfolding delete_key
IsBelow-delete_key same k n [] b = tt
IsBelow-delete_key same k n (x ∷ es) b = elim (Bool-cases (same x.key k)) [
  | inl here ↦ rw here b.1
  | inr there ↦ rw there (b.0, IsBelow-delete_key same k n es b.1)
]

pub IsBelow-lookup {ℓ ℓ'} :
    {K : Type ℓ} {V : Type ℓ'} (same : K → K → Bool) (k : K) (e : Element K V) (n : ℕ)
    (es : List (Element K V))
    → IsBelow n es
    → lookup same k es ≡ some e
    → e.id < n
unfolding lookup
IsBelow-lookup same k e n [] b h = cc
IsBelow-lookup same k e n (x ∷ es) b h = elim (Bool-cases (same x.key k)) [
  | inl here ↦
      let q : x ≡ e = some-injective _ _ (rw here at h) in
      let r : x.id ≡ e.id = ap (λ z. z.id) q in omega (arith, r, b.0)
  | inr there ↦ IsBelow-lookup same k e n es b.1 (rw there at h)
]

-- The element that is found has the key.
pub key-lookup {ℓ ℓ'} :
    {K : Type ℓ} {V : Type ℓ'} (same : K → K → Bool) (t : IsKeyTest same) (k : K) (e : Element K V)
    (es : List (Element K V))
    → lookup same k es ≡ some e
    → e.key ≡ k
unfolding lookup
key-lookup same t k e [] h = cc
key-lookup same t k e (x ∷ es) h = elim (Bool-cases (same x.key k)) [
  | inl here ↦
      let q : x ≡ e = some-injective _ _ (rw here at h) in
      sym (ap (λ z. z.key) q) ∙ (t x.key k).0 here
  | inr there ↦ key-lookup same t k e es (rw there at h)
]

-- The found element is not among those without it.
pub IsFresh-delete_key_found {ℓ ℓ'} :
    {K : Type ℓ} {V : Type ℓ'} (same : K → K → Bool) (k : K) (e : Element K V)
    (es : List (Element K V))
    → DistinctIds es
    → lookup same k es ≡ some e
    → IsFresh e.id (delete_key same k es)
unfolding lookup delete_key
IsFresh-delete_key_found same k e [] d h = cc
IsFresh-delete_key_found same k e (x ∷ es) d h = elim (Bool-cases (same x.key k)) [
  | inl here ↦
      let q : x ≡ e = some-injective _ _ (rw here at h) in
      rw here (subst (λ z. IsFresh z.id es) q d.0)
  | inr there ↦
      let n = IsFresh-lookup same k e x.id es d.0 (rw there at h) in
      rw there (n, IsFresh-delete_key_found same k e es d.1 (rw there at h))
]

-- A list that is not empty has a last element, and without it is one shorter.
pub back-some {ℓ ℓ'} :
    {K : Type ℓ} {V : Type ℓ'} (es : List (Element K V))
    → 0 < length es
    → (e : Element K V) × (back es ≡ some e)
unfolding back
back-some [] p = absurd (omega (arith, p))
back-some (x ∷ []) p = (x, refl)
back-some (x ∷ y ∷ es) p = back-some (y ∷ es) (omega arith)

pub delete_key-back {ℓ ℓ'} :
    {K : Type ℓ} {V : Type ℓ'} (same : K → K → Bool) (t : IsKeyTest same) (e : Element K V)
    (es : List (Element K V)) (n : ℕ)
    → Unique same es
    → back es ≡ some e
    → length es ≡ suc n
    → delete_key same e.key es ≡ take n es
unfolding back delete_key
delete_key-back same t e [] n u h l = cc
delete_key-back same t e (x ∷ []) zero u h l =
    let q : x ≡ e = some-injective _ _ h in rw ((t x.key e.key).1 (ap (λ z. z.key) q)) refl
delete_key-back same t e (x ∷ []) (suc n) u h l = absurd (omega (arith, l))
delete_key-back same t e (x ∷ y ∷ es) zero u h l = absurd (omega (arith, l))
delete_key-back same t e (x ∷ y ∷ es) (suc n) u h l =
    let r = lookup-back same t e (y ∷ es) u.1 h in
    let m : same x.key e.key ≡ false = Bool-false _ (λ q.
      none-ne-some _ (sym u.0 ∙ ap (λ z. lookup same z (y ∷ es)) ((t x.key e.key).0 q) ∙ r)) in
    rw (m, delete_key-back same t e (y ∷ es) n u.1 h (omega (arith, l))) refl
