-- ===== src/ChangeCache/Buffering/Queue.antt =====
-- The pending entries in rising sequence, and the list of skipped sequences.
use sync_gateway.Prelude.{
  ℕ, ◌+◌, ◌<◌, ◌≤◌, ◌≡◌, refl, true, false, some, List, [], ◌∷◌, ◌++◌, arith, leb, ◌==◌,
  if◌then◌else◌, length, inl, inr, Bool-cases,
}
use sync_gateway.LogEntry.{LogEntry}
use sync_gateway.ChannelCache.View.{has_seq}
use sync_gateway.ChangeCache.Skipped.{
  SkippedSequence, try_push, push, was_skipped, remove_skipped, get_oldest,
}
use sync_gateway.ChangeCache.{push_pending, top_pending}

-- Sequences rise along the list, from the bound on.
abbrev pub From : ℕ → List LogEntry → Type 0
From n [] = Unit {0}
From n (e ∷ es) = (n ≤ e.sequence) × From (e.sequence + 1) es

pub From-mono : (m n : ℕ) (l : List LogEntry) → m ≤ n → From n l → From m l
From-mono m n [] le f = tt
From-mono m n (e ∷ es) le f = (omega arith, f.1)

pub From-above : (m n : ℕ) (l : List LogEntry) → From n l → m < n → has_seq m l ≡ false
unfolding has_seq
From-above m n [] f lt = refl
From-above m n (e ∷ es) f lt = ground (arith, From-above m (e.sequence + 1) es f.1)

pub push_pending-From :
    (n : ℕ) (change : LogEntry) (l : List LogEntry)
    → From n l
    → n ≤ change.sequence
    → has_seq change.sequence l ≡ false
    → From n (push_pending change l)
unfolding push_pending has_seq
push_pending-From n change [] f le h = (le, tt)
push_pending-From n change (e ∷ es) f le h = elim (Bool-cases (leb change.sequence e.sequence)) [
  | inl low ↦ rw low (le, (ground arith, f.1))
  | inr high ↦
      rw high (f.0, push_pending-From (e.sequence + 1) change es f.1 (ground arith) (ground arith))
]

pub has_seq-push_pending :
    (s : ℕ) (change : LogEntry) (l : List LogEntry)
    → has_seq s (push_pending change l) ≡ (if change.sequence == s then true else has_seq s l)
unfolding push_pending has_seq
has_seq-push_pending s change [] = refl
has_seq-push_pending s change (e ∷ es) = ground (arith, has_seq-push_pending s change es)

pub length-push_pending :
    (change : LogEntry) (l : List LogEntry) → length (push_pending change l) ≡ length l + 1
unfolding push_pending
length-push_pending change [] = omega arith
length-push_pending change (e ∷ es) = ground (arith, length-push_pending change es)

pub top_pending-ge :
    (n : ℕ) (e : LogEntry) (es : List LogEntry)
    → From n (e ∷ es)
    → e.sequence ≤ top_pending e.sequence es
unfolding top_pending
top_pending-ge n e [] f = omega arith
top_pending-ge n e (x ∷ xs) f = omega (arith, top_pending-ge (e.sequence + 1) x xs f.1)

-- Skipped sequences rise, from a bound on and under another.
abbrev pub Within : ℕ → ℕ → List SkippedSequence → Type 0
Within m n [] = Unit {0}
Within m n (x ∷ l) = (m ≤ x.seq) × (x.seq < n) × Within (x.seq + 1) n l

pub Within-mono :
    (m m' n n' : ℕ) (l : List SkippedSequence) → m' ≤ m → n ≤ n' → Within m n l → Within m' n' l
Within-mono m m' n n' [] le le' u = tt
Within-mono m m' n n' (x ∷ l) le le' u =
    (omega arith, omega arith, Within-mono (x.seq + 1) (x.seq + 1) n n' l (omega arith) le' u.2)

pub was_skipped-lt :
    (s m n : ℕ) (l : List SkippedSequence)
    → Within m n l
    → was_skipped s l ≡ true
    → (m ≤ s) × (s < n)
unfolding was_skipped
was_skipped-lt s m n [] u h = cc
was_skipped-lt s m n (x ∷ l) u h = ground (arith, was_skipped-lt s (x.seq + 1) n l u.2)

-- A sequence above the last one is pushed to the end.
push-append :
    (m : ℕ) (x : SkippedSequence) (l : List SkippedSequence)
    → Within m x.seq l
    → try_push x l ≡ some (l ++ (x ∷ []))
unfolding try_push
push-append m x [] u = refl
push-append m x (y ∷ []) u = ground arith
push-append m x (y ∷ z ∷ l) u = rw (push-append (y.seq + 1) x (z ∷ l) u.2)

pub push_lem :
    (m : ℕ) (x : SkippedSequence) (l : List SkippedSequence)
    → Within m x.seq l
    → push x l ≡ l ++ (x ∷ [])
unfolding push
push_lem m x l u = rw (push-append m x l u, push)

pub append-Within :
    (m : ℕ) (x : SkippedSequence) (l : List SkippedSequence)
    → m ≤ x.seq
    → Within m x.seq l
    → Within m (x.seq + 1) (l ++ (x ∷ []))
append-Within m x [] le u = (le, omega arith, tt)
append-Within m x (y ∷ l) le u = (u.0, omega arith, append-Within (y.seq + 1) x l (omega arith) u.2)

pub was_skipped-append :
    (s : ℕ) (x : SkippedSequence) (l : List SkippedSequence)
    → was_skipped s (l ++ (x ∷ [])) ≡ (if x.seq == s then true else was_skipped s l)
unfolding was_skipped
was_skipped-append s x [] = refl
was_skipped-append s x (y ∷ l) = ground (arith, was_skipped-append s x l)

pub remove_skipped-Within :
    (s m n : ℕ) (l : List SkippedSequence) → Within m n l → Within m n (remove_skipped s l)
unfolding remove_skipped
remove_skipped-Within s m n [] u = tt
remove_skipped-Within s m n (x ∷ l) u = elim (Bool-cases (x.seq == s)) [
  | inl same ↦ rw same (Within-mono (x.seq + 1) m n n l (omega arith) (omega arith) u.2)
  | inr other ↦ rw other (u.0, u.1, remove_skipped-Within s (x.seq + 1) n l u.2)
]

pub was_skipped-remove_skipped :
    (s k m n : ℕ) (l : List SkippedSequence)
    → Within m n l
    → was_skipped k (remove_skipped s l) ≡ (if s == k then false else was_skipped k l)
unfolding remove_skipped was_skipped
was_skipped-remove_skipped s k m n [] u = ground arith
was_skipped-remove_skipped s k m n (x ∷ l) u = ground (
  arith,
  was_skipped-remove_skipped s k (x.seq + 1) n l u.2,
  was_skipped-lt k (x.seq + 1) n l u.2,
)

-- The oldest skipped sequence is the least.
pub get_oldest-le :
    (s m n : ℕ) (l : List SkippedSequence)
    → Within m n l
    → was_skipped s l ≡ true
    → get_oldest l ≤ s
unfolding get_oldest was_skipped
get_oldest-le s m n [] u h = cc
get_oldest-le s m n (x ∷ l) u h = ground (arith, was_skipped-lt s (x.seq + 1) n l u.2)
