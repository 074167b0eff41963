-- ===== src/ChangeCache/Buffering/Accounted.antt =====
-- The account that db/change_cache.go keeps of sequences, and how one step of it moves.
use sync_gateway.Prelude.{ℕ, ◌+◌, ◌<◌, ◌≤◌, ◌≡◌, ◌∙◌, false, not, List, [], ◌∷◌, ◌++◌, arith}
use sync_gateway.LogEntry.{LogEntry}
use sync_gateway.ChannelCache.View.{has_seq}
use sync_gateway.ChangeCache.Skipped.{SkippedSequence, was_skipped, remove_skipped}
use sync_gateway.ChangeCache.{has_received, push_pending}
use sync_gateway.ChangeCache.Buffering.Queue.{
  From, From-mono, From-above, push_pending-From, has_seq-push_pending, Within, Within-mono,
  was_skipped-lt, append-Within, was_skipped-append, remove_skipped-Within,
  was_skipped-remove_skipped,
}

-- The pending entries rise from the next sequence on and are the only ones received there; every
-- sequence between the initial and the next one was received or is in the list of skipped ones,
-- never both; and skipped sequences rise.
pub record Accounted (initial next : ℕ) (received : List ℕ) (pending : List LogEntry)
    (skipped : List SkippedSequence) : Type 0 where
  pub started : initial < next
  pub waiting : From next pending
  pub known : (s : ℕ) → next ≤ s → has_received s received ≡ has_seq s pending
  pub missing :
      (s : ℕ) → initial < s → s < next → was_skipped s skipped ≡ not (has_received s received)
  pub rising : Within (initial + 1) next skipped

module _ (i n : ℕ) (r : List ℕ) where
  -- The first pending entry is the next one.
  pub pop-Accounted :
      (e : LogEntry) (es : List LogEntry) (k : List SkippedSequence)
      → Accounted i n r (e ∷ es) k
      → e.sequence ≡ n
      → Accounted i (n + 1) r es k
  unfolding has_seq
  pop-Accounted e es k a p = record {
    started = omega (arith, a.started);
    waiting = From-mono (n + 1) (e.sequence + 1) es (omega arith) a.waiting.1;
    known = λ s le. a.known s (omega arith) ∙ ground arith;
    missing =
        λ s lo hi. ground (arith, a.missing s, a.known s, was_skipped-lt s (i + 1) n k a.rising);
    rising = Within-mono (i + 1) (i + 1) n (n + 1) k (omega arith) (omega arith) a.rising;
  }

  -- It is a later one, and the next sequence is skipped.
  pub skip-Accounted :
      (p : List LogEntry) (k : List SkippedSequence) (x : SkippedSequence)
      → Accounted i n r p k
      → From (n + 1) p
      → x.seq ≡ n
      → Accounted i (n + 1) r p (k ++ (x ∷ []))
  skip-Accounted p k x a f e = record {
    started = omega (arith, a.started);
    waiting = f;
    known = λ s le. a.known s (omega arith);
    missing = λ s lo hi.
        was_skipped-append s x k
        ∙ ground (
          arith,
          a.missing s,
          a.known s,
          From-above s (n + 1) p f,
          was_skipped-lt s (i + 1) n k a.rising,
        );
    rising = rw (← e) (append-Within (i + 1) x k (omega (arith, a.started)) (rw e a.rising));
  }

  module _ (p : List LogEntry) (k : List SkippedSequence) (a : Accounted i n r p k) (s : ℕ)
      (new : has_received s r ≡ false) where
    -- The next sequence is received.
    pub next-Accounted : From (n + 1) p → s ≡ n → Accounted i (n + 1) (s ∷ r) p k
    unfolding has_received
    next-Accounted f e = record {
      started = omega (arith, a.started);
      waiting = f;
      known = λ t le. ground (arith, a.known t);
      missing = λ t lo hi. ground (arith, a.missing t, was_skipped-lt t (i + 1) n k a.rising);
      rising = Within-mono (i + 1) (i + 1) n (n + 1) k (omega arith) (omega arith) a.rising;
    }

    -- A later one is received, and waits.
    pub defer-Accounted :
        (e : LogEntry) → e.sequence ≡ s → n < s → Accounted i n (s ∷ r) (push_pending e p) k
    unfolding has_received
    defer-Accounted e eq lt = record {
      started = a.started;
      waiting = push_pending-From n e p a.waiting (omega arith) (rw eq (ground (arith, a.known s)));
      known = λ t le. ground (arith, a.known t, has_seq-push_pending t e p);
      missing = λ t lo hi. ground (arith, a.missing t);
      rising = a.rising;
    }

    -- An earlier one is received, and is no more skipped.
    pub late-Accounted : s < n → Accounted i n (s ∷ r) p (remove_skipped s k)
    unfolding has_received
    late-Accounted lt = record {
      started = a.started;
      waiting = a.waiting;
      known = λ t le. ground (arith, a.known t);
      missing = λ t lo hi.
          ground (arith, a.missing t, was_skipped-remove_skipped s t (i + 1) n k a.rising);
      rising = remove_skipped-Within s (i + 1) n k a.rising;
    }

    -- One from before the start is received.
    pub old-Accounted : s ≤ i → Accounted i n (s ∷ r) p k
    unfolding has_received
    old-Accounted le = record {
      started = a.started;
      waiting = a.waiting;
      known = λ t l. ground (arith, a.known t, a.started);
      missing = λ t lo hi. ground (arith, a.missing t);
      rising = a.rising;
    }
