-- ===== src/ChannelCache/View.antt =====
-- What db/channel_cache.go's list of entries shows of a document, and how the list is ordered.
use sync_gateway.Prelude.{
  ℕ, suc, ◌+◌, ◌<◌, ◌≤◌, ◌≡◌, refl, Bool, true, false, none, some, List, [], ◌∷◌, arith, ltb, ◌==◌,
  if◌then◌else◌, Str, str_eq, str_eq_iff, length,
}
use sync_gateway.LogEntry.{LogEntry}
use sync_gateway.ChannelCache.{find_doc, remove_doc}

-- The sequence of a document's newest entry; 0 if it has none.
unfoldable pub seq_of : Str → List LogEntry → ℕ
seq_of d [] = 0
seq_of d (e ∷ es) = if str_eq e.doc_id d then e.sequence else seq_of d es

unfoldable pub has_doc : Str → List LogEntry → Bool
has_doc d [] = false
has_doc d (e ∷ es) = if str_eq e.doc_id d then true else has_doc d es

unfoldable pub has_seq : ℕ → List LogEntry → Bool
has_seq s [] = false
has_seq s (e ∷ es) = if e.sequence == s then true else has_seq s es

-- Sequences fall along the list and stay under the bound.
abbrev pub Below : ℕ → List LogEntry → Type 0
Below n [] = Unit {0}
Below n (e ∷ es) = (e.sequence < n) × Below e.sequence es

abbrev pub Sorted : List LogEntry → Type 0
Sorted [] = Unit {0}
Sorted (e ∷ es) = Below e.sequence es

abbrev pub AtLeast : ℕ → List LogEntry → Type 0
AtLeast v [] = Unit {0}
AtLeast v (e ∷ es) = (v ≤ e.sequence) × AtLeast v es

abbrev pub Distinct : List LogEntry → Type 0
Distinct [] = Unit {0}
Distinct (e ∷ es) = (has_doc e.doc_id es ≡ false) × Distinct es

abbrev pub larger : ℕ → ℕ → ℕ
larger a b = if ltb a b then b else a

pub Below-mono : (m n : ℕ) (l : List LogEntry) → m ≤ n → Below m l → Below n l
Below-mono m n [] h b = tt
Below-mono m n (e ∷ es) h b = (omega arith, b.1)

pub Below-Sorted : (n : ℕ) (l : List LogEntry) → Below n l → Sorted l
Below-Sorted n [] b = tt
Below-Sorted n (e ∷ es) b = b.1

-- What stays under every bound of a sorted list is sorted.
pub Sorted-mono : (l r : List LogEntry) → ((n : ℕ) → Below n l → Below n r) → Sorted l → Sorted r
Sorted-mono [] r keep s = Below-Sorted 0 r (keep 0 tt)
Sorted-mono (e ∷ es) r keep s =
    Below-Sorted (suc e.sequence) r (keep (suc e.sequence) (omega arith, s))

pub seq_of-lt : (n : ℕ) (d : Str) (l : List LogEntry) → 0 < n → Below n l → seq_of d l < n
unfolding seq_of
seq_of-lt n d [] h b = h
seq_of-lt n d (e ∷ es) h b =
    ground (arith, seq_of-lt n d es h (Below-mono e.sequence n es (omega arith) b.1))

module _ (d : Str) where
  pub find_doc-none : (l : List LogEntry) → find_doc d l ≡ none → has_doc d l ≡ false
  unfolding find_doc has_doc
  find_doc-none [] h = refl
  find_doc-none (e ∷ es) h = ground (arith, find_doc-none es)

  pub find_doc-some :
      (l : List LogEntry) (o : LogEntry)
      → find_doc d l ≡ some o
      → (has_doc d l ≡ true) × (o.sequence ≡ seq_of d l)
  unfolding find_doc has_doc seq_of
  find_doc-some [] o h = cc
  find_doc-some (e ∷ es) o h = ground (arith, find_doc-some es o)

  pub length-remove_doc : (l : List LogEntry) → length (remove_doc d l) ≤ length l
  unfolding remove_doc
  length-remove_doc [] = omega arith
  length-remove_doc (e ∷ es) = ground (arith, length-remove_doc es)

  pub length-remove_doc_found :
      (l : List LogEntry) → has_doc d l ≡ true → length (remove_doc d l) + 1 ≡ length l
  unfolding remove_doc has_doc
  length-remove_doc_found [] h = cc
  length-remove_doc_found (e ∷ es) h = ground (arith, length-remove_doc_found es)

  pub remove_doc-Below : (n : ℕ) (l : List LogEntry) → Below n l → Below n (remove_doc d l)
  unfolding remove_doc
  remove_doc-Below n [] b = tt
  remove_doc-Below n (e ∷ es) b =
      ground (arith, remove_doc-Below e.sequence es b.1, Below-mono e.sequence n es)

  pub remove_doc-AtLeast : (v : ℕ) (l : List LogEntry) → AtLeast v l → AtLeast v (remove_doc d l)
  unfolding remove_doc
  remove_doc-AtLeast v [] b = tt
  remove_doc-AtLeast v (e ∷ es) b = ground (arith, remove_doc-AtLeast v es b.1)

  pub has_doc-remove_doc :
      (k : Str) (l : List LogEntry)
      → Distinct l
      → has_doc k (remove_doc d l) ≡ (if str_eq d k then false else has_doc k l)
  unfolding remove_doc has_doc
  has_doc-remove_doc k [] u = ground arith
  has_doc-remove_doc k (e ∷ es) u = ground (
    arith,
    has_doc-remove_doc k es u.1,
    str_eq_iff d k,
    str_eq_iff e.doc_id d,
    str_eq_iff e.doc_id k,
  )

  pub seq_of-remove_doc :
      (k : Str) (l : List LogEntry) → str_eq d k ≡ false → seq_of k (remove_doc d l) ≡ seq_of k l
  unfolding remove_doc seq_of
  seq_of-remove_doc k [] u = refl
  seq_of-remove_doc k (e ∷ es) u =
      ground (
        arith,
        seq_of-remove_doc k es,
        str_eq_iff d k,
        str_eq_iff e.doc_id d,
        str_eq_iff e.doc_id k,
      )

  pub remove_doc-Distinct : (l : List LogEntry) → Distinct l → Distinct (remove_doc d l)
  unfolding remove_doc
  remove_doc-Distinct [] u = tt
  remove_doc-Distinct (e ∷ es) u =
      ground (arith, remove_doc-Distinct es u.1, has_doc-remove_doc e.doc_id es u.1)

pub seq_of_absent : (d : Str) (l : List LogEntry) → has_doc d l ≡ false → seq_of d l ≡ 0
unfolding has_doc seq_of
seq_of_absent d [] h = refl
seq_of_absent d (e ∷ es) h = ground (arith, seq_of_absent d es)
