-- ===== src/ChannelCache/Backfill/Empty.antt =====
-- An empty cache of db/channel_cache.go filled from a query, cut to the maximal length.
use sync_gateway.Prelude.{
  ℕ, zero, suc, ◌<◌, ◌≤◌, ◌≡◌, refl, true, List, [], ◌∷◌, arith, if◌then◌else◌, Str, take,
}
use sync_gateway.LogEntry.{LogEntry}
use sync_gateway.ChannelCache.{has_id}
use sync_gateway.ChannelCache.Backfill.{add_doc_ids, oldest_sequence}
use sync_gateway.ChannelCache.View.{seq_of, has_doc, Below, AtLeast, seq_of-lt}
use sync_gateway.ChannelCache.Valid.{has_id-add_id}
use sync_gateway.ChannelCache.Prune.{visible, take-Below}

pub oldest_sequence-le : (m : ℕ) (l : List LogEntry) → Below m l → oldest_sequence m l ≤ m
unfolding oldest_sequence
oldest_sequence-le m [] b = omega arith
oldest_sequence-le m (e ∷ es) b = omega (arith, oldest_sequence-le e.sequence es b.1)

-- The entries kept are those from the oldest of them on.
pub seq_of-kept :
    (d : Str) (n : ℕ) (x : LogEntry) (xs : List LogEntry)
    → 0 < x.sequence
    → Below x.sequence xs
    → AtLeast 1 xs
    → seq_of d (x ∷ take n xs)
      ≡ visible (oldest_sequence x.sequence (take n xs)) (seq_of d (x ∷ xs))
unfolding seq_of oldest_sequence
seq_of-kept d zero x xs p b a = ground (arith, seq_of-lt x.sequence d xs p b)
seq_of-kept d (suc n) x [] p b a = ground arith
seq_of-kept d (suc n) x (y ∷ ys) p b a = ground (
  arith,
  seq_of-kept d n y ys a.0 b.1 a.1,
  oldest_sequence-le y.sequence (take n ys) (take-Below n y.sequence ys b.1),
)

pub kept-AtLeast :
    (n m : ℕ) (l : List LogEntry) → Below m l → AtLeast (oldest_sequence m (take n l)) (take n l)
unfolding oldest_sequence
kept-AtLeast zero m l b = tt
kept-AtLeast (suc n) m [] b = tt
kept-AtLeast (suc n) m (x ∷ xs) b = (
  oldest_sequence-le x.sequence (take n xs) (take-Below n x.sequence xs b.1),
  kept-AtLeast n x.sequence xs b.1,
)

pub oldest_sequence-ge :
    (b m n : ℕ) (l : List LogEntry) → b ≤ m → AtLeast b l → b ≤ oldest_sequence m (take n l)
unfolding oldest_sequence
oldest_sequence-ge b m zero l p a = p
oldest_sequence-ge b m (suc n) [] p a = p
oldest_sequence-ge b m (suc n) (x ∷ xs) p a = oldest_sequence-ge b x.sequence n xs a.0 a.1

pub has_id-add_doc_ids :
    (d : Str) (l : List LogEntry) (ids : List Str)
    → has_id d (add_doc_ids l ids) ≡ (if has_doc d l then true else has_id d ids)
unfolding add_doc_ids has_doc
has_id-add_doc_ids d [] ids = refl
has_id-add_doc_ids d (e ∷ es) ids =
    ground (arith, has_id-add_doc_ids d es ids, has_id-add_id d e.doc_id (add_doc_ids es ids))
