-- ===== src/ChannelCache/Answer/Join.antt =====
-- The results of a query joined with those of the cache; lists stand newest first.
use mathlib.Core.List.{reverse, reverse-cons}
use sync_gateway.Prelude.{
  ℕ, ◌+◌, ◌<◌, ◌≤◌, ◌≡◌, refl, sym, ◌∙◌, true, ◌&&◌, List, [], ◌∷◌, ◌++◌, arith, ltb, leb, ◌==◌,
  if◌then◌else◌, Str, str_eq, str_eq_refl, Bool-cases, inl, inr,
}
use sync_gateway.LogEntry.{LogEntry}
use sync_gateway.ChannelCache.Changes.{drop_overlap}
use sync_gateway.ChannelCache.View.{
  seq_of, has_doc, Below, Sorted, AtLeast, Below-Sorted, Below-mono, seq_of_absent,
}
use sync_gateway.ChannelCache.Prune.{visible}
use sync_gateway.ChannelCache.Complete.{latest}
use sync_gateway.ChannelCache.Backfill.Filled.{seq_of-append}

AtLeast-seq_of :
    (v : ℕ) (d : Str) (l : List LogEntry) → AtLeast v l → has_doc d l ≡ true → v ≤ seq_of d l
unfolding has_doc seq_of
AtLeast-seq_of v d [] a h = cc
AtLeast-seq_of v d (e ∷ es) a h = ground (arith, AtLeast-seq_of v d es a.1)

Below-append :
    (n k : ℕ) (l r : List LogEntry) → Below n l → AtLeast k l → Below k r → k ≤ n → Below n (l ++ r)
Below-append n k [] r b a s le = Below-mono k n r le s
Below-append n k (e ∷ es) r b a s le = (b.0, Below-append e.sequence k es r b.1 a.1 s a.0)

Sorted-append : (k : ℕ) (l r : List LogEntry) → Sorted l → AtLeast k l → Below k r → Sorted (l ++ r)
Sorted-append k [] r b a s = Below-Sorted k r s
Sorted-append k (e ∷ es) r b a s = Below-append e.sequence k es r b a.1 s a.0

Below-prefix : (n : ℕ) (l r : List LogEntry) → Below n (l ++ r) → Below n l
Below-prefix n [] r b = tt
Below-prefix n (e ∷ es) r b = (b.0, Below-prefix e.sequence es r b.1)

Sorted-prefix : (l r : List LogEntry) → Sorted (l ++ r) → Sorted l
Sorted-prefix [] r b = tt
Sorted-prefix (e ∷ es) r b = Below-prefix e.sequence es r b

Below-last :
    (n : ℕ) (x : LogEntry) (l : List LogEntry)
    → Below n (l ++ x ∷ [])
    → AtLeast (x.sequence + 1) l × (x.sequence < n)
Below-last n x [] b = (tt, b.0)
Below-last n x (e ∷ es) b =
    let i = Below-last e.sequence x es b.1 in ((omega arith, i.0), omega arith)

Sorted-last : (x : LogEntry) (l : List LogEntry) → Sorted (l ++ x ∷ []) → AtLeast (x.sequence + 1) l
Sorted-last x [] b = tt
Sorted-last x (e ∷ es) b = let i = Below-last e.sequence x es b in (omega arith, i.0)

AtLeast-last :
    (v : ℕ) (x : LogEntry) (l : List LogEntry)
    → AtLeast v (l ++ x ∷ [])
    → AtLeast v l × (v ≤ x.sequence)
AtLeast-last v x [] a = (tt, a.0)
AtLeast-last v x (e ∷ es) a = let i = AtLeast-last v x es a.1 in ((a.0, i.0), i.1)

at_least :
    (x : LogEntry) (l : List LogEntry)
    → AtLeast (x.sequence + 1) l
    → AtLeast x.sequence (l ++ x ∷ [])
at_least x [] a = (omega arith, tt)
at_least x (e ∷ es) a = (omega arith, at_least x es a.1)

-- What the history has after a sequence, each document at its latest change.
abbrev pub since_history : ℕ → List LogEntry → Str → ℕ
since_history since h d = if ltb since (latest d h) then latest d h else 0

pub record Answers (since : ℕ) (h l : List LogEntry) : Type 0 where
  pub sorted : Sorted l
  pub exact : (d : Str) → seq_of d l ≡ since_history since h d

module _ (since v : ℕ) (h found : List LogEntry) (positive : since + 1 < v) (sorted : Sorted found)
    (exact : (d : Str)
      → seq_of d found
        ≡ (if leb (since + 1) (latest d h) && leb (latest d h) v then latest d h else 0)) where
  found-le : (e : LogEntry) (es : List LogEntry) → found ≡ e ∷ es → e.sequence ≤ v
  unfolding seq_of
  found-le e es p =
      let s : seq_of e.doc_id (e ∷ es) ≡ e.sequence = rw (str_eq_refl e.doc_id) refl in
      ground (arith, (rw p at (exact e.doc_id)), s)

  -- Nothing of the cache goes.
  whole-exact :
      (cached : List LogEntry) (d : Str)
      → AtLeast v cached
      → seq_of d cached ≡ visible v (latest d h)
      → seq_of d (cached ++ found) ≡ since_history since h d
  whole-exact cached d a k =
      rw seq_of-append
        (ground (arith, exact d, AtLeast-seq_of v d cached a, seq_of_absent d cached))

  -- The oldest cached entry goes: its sequence is the newest of the query.
  part-exact :
      (x e : LogEntry) (es cached : List LogEntry) (d : Str)
      → found ≡ e ∷ es
      → AtLeast v (cached ++ x ∷ [])
      → x.sequence ≡ e.sequence
      → seq_of d (cached ++ x ∷ []) ≡ visible v (latest d h)
      → seq_of d (cached ++ found) ≡ since_history since h d
  unfolding seq_of
  part-exact x e es cached d p a q k =
      let (b, le) = AtLeast-last v x cached a in
      let one : (if has_doc d cached
            then seq_of d cached
            else if str_eq x.doc_id d
            then x.sequence
            else 0)
          ≡ visible v (latest d h) =
        sym (seq_of-append d cached (x ∷ [])) ∙ k in
      rw seq_of-append (
        ground (
          arith,
          one,
          exact d,
          found-le e es p,
          AtLeast-seq_of v d cached b,
          seq_of_absent d cached,
        ))

  -- A whole answer, of what the query found and of what is cached, which stands oldest first.
  pub joined :
      (f cached : List LogEntry)
      → found ≡ f
      → AtLeast v (reverse cached)
      → Sorted (reverse cached)
      → ((d : Str) → seq_of d (reverse cached) ≡ visible v (latest d h))
      → Answers since h (reverse (drop_overlap f cached) ++ found)
  unfolding drop_overlap
  joined [] cached p a s k = record {
    sorted = rw p (Sorted-append v (reverse cached) [] s a tt);
    exact = λ d. whole-exact (reverse cached) d a (k d);
  }
  joined (e ∷ es) [] p a s k = record { sorted = sorted; exact = λ d. whole-exact [] d tt (k d) }
  joined (e ∷ es) (x ∷ xs) p a s k =
      let r = reverse-cons x xs in
      let a' : AtLeast v (reverse xs ++ x ∷ []) = rw r at a in
      let s' : Sorted (reverse xs ++ x ∷ []) = rw r at s in
      let f : Sorted (e ∷ es) = rw p at sorted in
      let old = Sorted-last x (reverse xs) s' in
      let (b, le) = AtLeast-last v x (reverse xs) a' in
      let young = found-le e es p in
      elim (Bool-cases (x.sequence == e.sequence)) [
        | inl same ↦
            let eq : x.sequence ≡ e.sequence = ground (arith, same) in
            rw same (record {
              sorted = rw p (
                  Sorted-append (x.sequence + 1) (reverse xs) (e ∷ es)
                    (Sorted-prefix (reverse xs) (x ∷ []) s') old (omega (arith, eq), f));
              exact = λ d. part-exact x e es (reverse xs) d p a' eq (rw r at (k d));
            })
        | inr apart ↦ rw apart (record {
          sorted =
              rw (p, r)
                (Sorted-append x.sequence (reverse xs ++ x ∷ []) (e ∷ es) s'
                  (at_least x (reverse xs) old) (ground (arith, apart, young, le), f));
          exact = λ d. whole-exact (reverse (x ∷ xs)) d a (k d);
        })
      ]
