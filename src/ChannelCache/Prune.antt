-- ===== src/ChannelCache/Prune.antt =====
-- `_pruneCacheLength` of db/channel_cache.go: what goes and what stays visible.
use sync_gateway.Prelude.{
  ℕ, zero, suc, ◌+◌, ◌<◌, ◌≤◌, ◌≡◌, refl, ap, ◌∙◌, inl, inr, false, List, [], ◌∷◌, arith, ltb, leb,
  if◌then◌else◌, Str, str_eq_iff, length, take, drop, length-take, Bool-cases, ltb→lt,
}
use sync_gateway.LogEntry.{LogEntry}
use sync_gateway.ChannelCache.{
  ChannelCache, Options, has_id, forget, prune_excess, prune_to, prune_cache_length,
}
use sync_gateway.ChannelCache.View.{
  seq_of, has_doc, Below, Sorted, AtLeast, Distinct, Below-Sorted, seq_of-lt,
}
use sync_gateway.ChannelCache.Valid.{IsOrdered, IsValid, has_id-delete_id}

-- A sequence as a cache valid from `v` shows it: 0 if it is older.
abbrev pub visible : ℕ → ℕ → ℕ
visible v s = if leb v s then s else 0

pub drop_cons :
    (n : ℕ) (l : List LogEntry)
    → n < length l
    → (e : LogEntry) × (es : List LogEntry) × (drop n l ≡ e ∷ es)
drop_cons n [] h = absurd (omega arith)
drop_cons zero (x ∷ xs) h = (x, xs, refl)
drop_cons (suc n) (x ∷ xs) h = drop_cons n xs (omega arith)

pub take-Below : (n m : ℕ) (l : List LogEntry) → Below m l → Below m (take n l)
take-Below zero m l b = tt
take-Below (suc n) m [] b = tt
take-Below (suc n) m (x ∷ xs) b = (b.0, take-Below n x.sequence xs b.1)

pub take-Sorted : (n : ℕ) (l : List LogEntry) → Sorted l → Sorted (take n l)
take-Sorted zero l s = tt
take-Sorted (suc n) [] s = tt
take-Sorted (suc n) (x ∷ xs) s = take-Below n x.sequence xs s

module _ (e : LogEntry) (es : List LogEntry) where
  drop-Below : (n m : ℕ) (l : List LogEntry) → Below m l → drop n l ≡ e ∷ es → e.sequence < m
  drop-Below zero m [] b h = cc
  drop-Below (suc n) m [] b h = cc
  drop-Below zero m (x ∷ xs) b h = ground arith
  drop-Below (suc n) m (x ∷ xs) b h = omega (arith, drop-Below n x.sequence xs b.1 h)

  take-AtLeast :
      (n : ℕ) (l : List LogEntry)
      → Sorted l
      → drop n l ≡ e ∷ es
      → AtLeast (e.sequence + 1) (take n l)
  take-AtLeast zero l s h = tt
  take-AtLeast (suc n) [] s h = tt
  take-AtLeast (suc n) (x ∷ xs) s h = (
    omega (arith, drop-Below n x.sequence xs s h),
    take-AtLeast n xs (Below-Sorted x.sequence xs s) h,
  )

  drop-AtLeast : (v n : ℕ) (l : List LogEntry) → AtLeast v l → drop n l ≡ e ∷ es → v ≤ e.sequence
  drop-AtLeast v zero [] a h = cc
  drop-AtLeast v (suc n) [] a h = cc
  drop-AtLeast v zero (x ∷ xs) a h = ground arith
  drop-AtLeast v (suc n) (x ∷ xs) a h = drop-AtLeast v n xs a.1 h

  -- The first `n` entries show what the list shows from the next entry's sequence on.
  pub seq_of-take :
      (d : Str) (n : ℕ) (l : List LogEntry)
      → Sorted l
      → drop n l ≡ e ∷ es
      → seq_of d (take n l) ≡ visible (e.sequence + 1) (seq_of d l)
  unfolding seq_of
  seq_of-take d zero [] s h = ground arith
  seq_of-take d zero (x ∷ xs) s h =
      ground (arith, seq_of-lt (suc x.sequence) d (x ∷ xs) (omega arith) (omega arith, s))
  seq_of-take d (suc n) [] s h = ground arith
  seq_of-take d (suc n) (x ∷ xs) s h =
      ground
        (arith, drop-Below n x.sequence xs s h, seq_of-take d n xs (Below-Sorted x.sequence xs s) h)

has_doc-drop :
    (k : Str) (m : ℕ) (l : List LogEntry) → has_doc k l ≡ false → has_doc k (drop m l) ≡ false
unfolding has_doc
has_doc-drop k zero l h = h
has_doc-drop k (suc m) [] h = h
has_doc-drop k (suc m) (y ∷ ys) h = ground (arith, has_doc-drop k m ys)

has_doc-take-drop :
    (d : Str) (n : ℕ) (l : List LogEntry)
    → Distinct l
    → has_doc d (take n l) ≡ (if has_doc d (drop n l) then false else has_doc d l)
unfolding has_doc
has_doc-take-drop d zero l u = ground arith
has_doc-take-drop d (suc n) [] u = ground arith
has_doc-take-drop d (suc n) (x ∷ xs) u = ground (
  arith,
  has_doc-take-drop d n xs u.1,
  has_doc-take-drop x.doc_id n xs u.1,
  has_doc-drop x.doc_id n xs u.0,
  str_eq_iff x.doc_id d,
)

pub take-Distinct : (n : ℕ) (l : List LogEntry) → Distinct l → Distinct (take n l)
take-Distinct zero l u = tt
take-Distinct (suc n) [] u = tt
take-Distinct (suc n) (x ∷ xs) u =
    (ground (arith, has_doc-take-drop x.doc_id n xs u.1), take-Distinct n xs u.1)

pub seq_of-visible :
    (d : Str) (v : ℕ) (l : List LogEntry) → AtLeast v l → seq_of d l ≡ visible v (seq_of d l)
unfolding seq_of
seq_of-visible d v [] a = ground arith
seq_of-visible d v (x ∷ xs) a = ground (arith, seq_of-visible d v xs a.1)

module _ (c : ChannelCache) where
  pub forget_fields :
      (es : List LogEntry)
      → let r = forget es c in
        (r.logs ≡ c.logs)
        × (r.valid_from ≡ c.valid_from)
        × (r.options ≡ c.options)
        × ((d : Str)
            → has_id d r.cached_doc_ids
              ≡ (if has_doc d es then false else has_id d c.cached_doc_ids))
  unfolding forget has_doc
  forget_fields [] = (refl, refl, refl, λ d. refl)
  forget_fields (e ∷ es) =
      let (l, v, o, k) = forget_fields es in
      (l, v, o, λ d. has_id-delete_id d e.doc_id (forget es c).cached_doc_ids ∙ ground (arith, k d))

  prune_excess-IsOrdered :
      (n : ℕ) (e : LogEntry) (es : List LogEntry)
      → drop n c.logs ≡ e ∷ es
      → IsOrdered c
      → IsOrdered (prune_excess n (e ∷ es) c)
  unfolding prune_excess
  prune_excess-IsOrdered n e es h v =
      let (l, w, o, k) = forget_fields (e ∷ es) in
      record {
        positive = omega arith;
        sorted = take-Sorted n c.logs v.sorted;
        distinct = take-Distinct n c.logs v.distinct;
        ids = λ d.
            k d
            ∙ rw v.ids (ground (arith, has_doc-take-drop d n c.logs v.distinct, ap (has_doc d) h));
        at_least = take-AtLeast e es n c.logs v.sorted h;
      }

  module _ (n : ℕ) (over : n < length c.logs) (v : IsOrdered c) where
    -- Pruning to fewer entries leaves the cache in order, with that many entries and its options.
    pub prune_to-IsOrdered :
        let r = prune_to n c in IsOrdered r × (length r.logs ≡ n) × (r.options ≡ c.options)
    unfolding prune_to prune_excess
    prune_to-IsOrdered =
        let (e, es, h) = drop_cons n c.logs over in
        let (l, w, o, k) = forget_fields (e ∷ es) in
        rw h (prune_excess-IsOrdered n e es h v, omega (arith, length-take n c.logs), o)

    -- It raises `validFrom` and hides what is older, and nothing else.
    pub seq_of-prune_to :
        (d : Str)
        → let r = prune_to n c in
          (seq_of d r.logs ≡ visible r.valid_from (seq_of d c.logs)) × (c.valid_from ≤ r.valid_from)
    unfolding prune_to prune_excess
    seq_of-prune_to d =
        let (e, es, h) = drop_cons n c.logs over in
        rw h (
          seq_of-take e es d n c.logs v.sorted h,
          omega (arith, drop-AtLeast e es c.valid_from n c.logs v.at_least h),
        )

  pub prune_cache_length-IsValid : IsOrdered c → IsValid (prune_cache_length c)
  unfolding prune_cache_length
  prune_cache_length-IsValid v = elim (Bool-cases (ltb c.options.max_length (length c.logs))) [
    | inl over ↦
        let (w, l, o) = prune_to-IsOrdered c.options.max_length (ltb→lt _ _ over) v in
        rw over
          (record { ordered = w; bounded = omega (arith, l, ap (λ (p : Options). p.max_length) o) })
    | inr fits ↦ rw fits (record { ordered = v; bounded = ground arith })
  ]

  pub seq_of-prune_cache_length :
      (d : Str)
      → IsOrdered c
      → let r = prune_cache_length c in
        (seq_of d r.logs ≡ visible r.valid_from (seq_of d c.logs)) × (c.valid_from ≤ r.valid_from)
  unfolding prune_cache_length
  seq_of-prune_cache_length d v = elim (Bool-cases (ltb c.options.max_length (length c.logs))) [
    | inl over ↦ rw over (seq_of-prune_to c.options.max_length (ltb→lt _ _ over) v d)
    | inr fits ↦ rw fits (seq_of-visible d c.valid_from c.logs v.at_least, omega arith)
  ]
