-- ===== src/ChangeListener/Notified.antt =====
-- The counts of keys after a notification of db/change_listener.go.
use sync_gateway.Prelude.{
  ℕ, ◌≤◌, ◌≡◌, refl, ap, sym, ◌∙◌, inl, inr, Bool, true, false, ◌||◌, List, [], ◌∷◌, ltb,
  if◌then◌else◌, Str, str_eq, str_eq_iff, Bool-cases, arith,
}
use sync_gateway.ChannelCache.{has_id}
use sync_gateway.ChangeListener.{
  ChangeListener, key_count, set_count, set_counts, notify, max_count,
}

-- No key's count is above the counter.
abbrev pub IsCounted : ChangeListener → Type 0
IsCounted listener = (key : Str) → key_count key listener.key_counts ≤ listener.counter

key_count-set_count :
    (key k : Str) (n : ℕ) (counts : List (Str × ℕ))
    → key_count key (set_count k n counts) ≡ (if str_eq k key then n else key_count key counts)
unfolding key_count set_count
key_count-set_count key k n [] = refl
key_count-set_count key k n ((j, m) ∷ counts) =
    let i = key_count-set_count key k n counts in
    elim (Bool-cases (str_eq j k)) [
      | inl here ↦
          let e : str_eq j key ≡ str_eq k key = ap (λ z. str_eq z key) ((str_eq_iff j k).0 here) in
          elim (Bool-cases (str_eq k key)) [
            | inl q ↦ rw (here, q, e ∙ q) refl
            | inr q ↦ rw (here, q, e ∙ q) refl
          ]
      | inr there ↦ elim (Bool-cases (str_eq j key)) [
        | inl q ↦
            let e : str_eq k key ≡ false = elim (Bool-cases (str_eq k key)) [
              | inl r ↦
                  let f : str_eq j k ≡ true =
                    (str_eq_iff j k).1 ((str_eq_iff j key).0 q ∙ sym ((str_eq_iff k key).0 r)) in
                  cc
              | inr r ↦ r
            ] in
            rw (there, q, e) refl
        | inr q ↦ rw (there, q) i
      ]
    ]

-- The notified keys have the new count, the others theirs.
pub key_count-set_counts :
    (key : Str) (keys : List Str) (n : ℕ) (counts : List (Str × ℕ))
    → key_count key (set_counts keys n counts)
      ≡ (if has_id key keys then n else key_count key counts)
unfolding set_counts has_id
key_count-set_counts key [] n counts = refl
key_count-set_counts key (k ∷ keys) n counts =
    key_count-set_counts key keys n (set_count k n counts)
    ∙ rw (key_count-set_count key k n counts) (nested (str_eq k key) (has_id key keys))
  where
    nested :
        (a b : Bool)
        → (if b then n else (if a then n else key_count key counts))
          ≡ (if (if a then true else b) then n else key_count key counts)
    nested true true = refl
    nested true false = refl
    nested false b = refl

-- The notifications of some sets of keys.
unfoldable pub notify_all : List (List Str) → ChangeListener → ChangeListener
notify_all [] listener = listener
notify_all (keys ∷ sets) listener = notify_all sets (notify keys listener)

unfoldable pub have_common : List Str → List Str → Bool
have_common [] other = false
have_common (key ∷ keys) other = has_id key other || have_common keys other

unfoldable pub any_common : List Str → List (List Str) → Bool
any_common keys [] = false
any_common keys (set ∷ sets) = have_common keys set || any_common keys sets

max_count_above : (counts : List (Str × ℕ)) (keys : List Str) (m : ℕ) → m ≤ max_count counts keys m
unfolding max_count
max_count_above counts [] m = omega arith
max_count_above counts (key ∷ keys) m =
    let c = key_count key counts in
    let i = max_count_above counts keys (if ltb m c then c else m) in ground arith

pub max_count_below :
    (counts : List (Str × ℕ)) (keys : List Str) (m b : ℕ)
    → ((key : Str) → key_count key counts ≤ b)
    → m ≤ b
    → max_count counts keys m ≤ b
unfolding max_count
max_count_below counts [] m b h l = l
max_count_below counts (key ∷ keys) m b h l =
    let c = key_count key counts in
    max_count_below counts keys (if ltb m c then c else m) b h (ground (arith, h key))

-- Larger counts have a larger maximum.
pub max_count_grows :
    (counts counts' : List (Str × ℕ)) (keys : List Str) (m m' : ℕ)
    → ((key : Str) → key_count key counts ≤ key_count key counts')
    → m ≤ m'
    → max_count counts keys m ≤ max_count counts' keys m'
unfolding max_count
max_count_grows counts counts' [] m m' h l = l
max_count_grows counts counts' (key ∷ keys) m m' h l =
    let c = key_count key counts in
    let c' = key_count key counts' in
    let k = h key in
    max_count_grows counts counts' keys (if ltb m c then c else m) (if ltb m' c' then c' else m') h
      (ground arith)

pub max_count_kept :
    (counts : List (Str × ℕ)) (keys set : List Str) (n m : ℕ)
    → have_common keys set ≡ false
    → max_count (set_counts set n counts) keys m ≡ max_count counts keys m
unfolding max_count have_common
max_count_kept counts [] set n m h = refl
max_count_kept counts (key ∷ keys) set n m h = elim (Bool-cases (has_id key set)) [
  | inl q ↦ absurd (found (rw q at h))
  | inr q ↦
      let e : key_count key (set_counts set n counts) ≡ key_count key counts =
        key_count-set_counts key set n counts ∙ rw q refl in
      let c = key_count key counts in
      rw e (max_count_kept counts keys set n (if ltb m c then c else m) (rw q at h))
]
  where
    found : true ≡ false → ⊥
    found h = cc

pub max_count_raised :
    (counts : List (Str × ℕ)) (keys set : List Str) (n m : ℕ)
    → have_common keys set ≡ true
    → n ≤ max_count (set_counts set n counts) keys m
unfolding max_count have_common
max_count_raised counts [] set n m h = cc
max_count_raised counts (key ∷ keys) set n m h =
    let c = key_count key (set_counts set n counts) in
    elim (Bool-cases (has_id key set)) [
      | inl q ↦
          let e : c ≡ n = key_count-set_counts key set n counts ∙ rw q refl in
          let i = max_count_above (set_counts set n counts) keys (if ltb m c then c else m) in
          ground arith
      | inr q ↦ max_count_raised counts keys set n (if ltb m c then c else m) (rw q at h)
    ]
