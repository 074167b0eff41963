-- ===== src/ChangeCache/Lossy.antt =====
-- The account of sequences in db/change_cache.go when `CleanSkippedSequenceQueue` has abandoned some.
use sync_gateway.Prelude.{
  ℕ, ◌+◌, ◌<◌, ◌≤◌, ◌≡◌, refl, ap, sym, ◌∙◌, Bool, true, false, not, List, [], ◌∷◌, ◌++◌, arith,
  ltb, ◌==◌, ==_iff, ◌||◌, if◌then◌else◌, Str, Bool-cases, inl, inr,
}
use mathlib.Core.Path.{subst}
use sync_gateway.LogEntry.{LogEntry}
use sync_gateway.ChangeCache.Skipped.{SkippedSequence, was_skipped, remove_skipped}
use sync_gateway.ChangeCache.{
  ChangeCache, has_received, add_entry, add_out_of_order, process_new, process_entry,
}
use sync_gateway.ChangeCache.Buffering.Fields.{SameBuffer, add_entry-SameBuffer}
use sync_gateway.ChangeCache.Buffering.Queue.{was_skipped-lt}
use sync_gateway.ChangeCache.Buffering.Accounted.{Accounted, late-Accounted}
use sync_gateway.ChangeCache.Process.{IsBuffered, process_new-IsBuffered}
use sync_gateway.ChangeCache.Received.{with_received, process_new-received}
use sync_gateway.ChangeCache.Advances.{process_new-Advances}

-- The sequences are accounted for if those that are gone count as received; all of these lie between
-- the initial and the next sequence.
pub record IsLossy (gone : List ℕ) (c : ChangeCache) : Type 0 where
  pub buffered : IsBuffered (with_received (c.received_seqs ++ gone) c)
  pub passed :
      (s : ℕ) → has_received s gone ≡ true → (c.initial_sequence < s) × (s < c.next_sequence)

pub has_received-append :
    (s : ℕ) (l r : List ℕ) → has_received s (l ++ r) ≡ (has_received s l || has_received s r)
unfolding has_received
has_received-append s [] r = refl
has_received-append s (x ∷ l) r = ground (arith, has_received-append s l r)

Accounted-same :
    (i n : ℕ) (r r' : List ℕ) (p : List LogEntry) (k : List SkippedSequence)
    → ((s : ℕ) → has_received s r' ≡ has_received s r)
    → Accounted i n r p k
    → Accounted i n r' p k
Accounted-same i n r r' p k h a = record {
  started = a.started;
  waiting = a.waiting;
  known = λ s le. h s ∙ a.known s le;
  missing = λ s lo hi. a.missing s lo hi ∙ ap not (sym (h s));
  rising = a.rising;
}

has_received-insert :
    (t s : ℕ) (l r : List ℕ) → has_received t (l ++ (s ∷ r)) ≡ has_received t (s ∷ (l ++ r))
unfolding has_received
has_received-insert t s [] r = refl
has_received-insert t s (x ∷ l) r = ground (arith, has_received-insert t s l r)

repeated :
    (t s : ℕ) (l : List ℕ) → has_received s l ≡ true → has_received t (s ∷ l) ≡ has_received t l
unfolding has_received
repeated t s l h = elim (Bool-cases (s == t)) [
  | inl same ↦ rw (same, ← (==_iff s t).0 same) (sym h)
  | inr other ↦ rw other refl
]

pub remove_skipped-absent :
    (s : ℕ) (k : List SkippedSequence) → was_skipped s k ≡ false → remove_skipped s k ≡ k
unfolding was_skipped remove_skipped
remove_skipped-absent s [] h = refl
remove_skipped-absent s (x ∷ k) h = elim (Bool-cases (x.seq == s)) [
  | inl same ↦ absurd (ground (arith, same))
  | inr other ↦ rw other (ap (λ l. x ∷ l) (remove_skipped-absent s k (rw other at h)))
]

-- An entry that is neither next nor pending nor skipped is only handed to the channel caches.
late-Same :
    (change : LogEntry) (c : ChangeCache)
    → change.sequence < c.next_sequence
    → was_skipped change.sequence c.skipped_seqs ≡ false
    → SameBuffer c (add_out_of_order change c).0
unfolding add_out_of_order
late-Same change c lt h =
    let b = add_entry-SameBuffer change c in
    let next : (add_entry change c).0.next_sequence ≡ c.next_sequence =
      ground (arith, b.next_sequence) in
    rw h (record {
      next_sequence = next;
      initial_sequence = b.initial_sequence;
      received_seqs = b.received_seqs;
      pending_logs = b.pending_logs;
      skipped_seqs =
          ap (remove_skipped change.sequence) b.skipped_seqs
          ∙ remove_skipped-absent change.sequence c.skipped_seqs h;
      options = b.options;
      logs_disabled = b.logs_disabled;
    })

module _ (gone : List ℕ) (c : ChangeCache) (v : IsLossy gone c) where
  -- A skipped sequence is removed from the list, and is gone.
  pub lose-IsLossy :
      (s : ℕ)
      → was_skipped s c.skipped_seqs ≡ true
      → IsLossy (s ∷ gone) (record c { skipped_seqs = remove_skipped s c.skipped_seqs })
  lose-IsLossy s h =
      let a = v.buffered.accounted in
      let i = c.initial_sequence in
      let n = c.next_sequence in
      let (lo, hi) = was_skipped-lt s (i + 1) n c.skipped_seqs a.rising h in
      let new : has_received s (c.received_seqs ++ gone) ≡ false = ground (arith, a.missing s) in
      record {
        buffered = record {
          accounted =
              Accounted-same i n (s ∷ (c.received_seqs ++ gone)) (c.received_seqs ++ (s ∷ gone))
                c.pending_logs (remove_skipped s c.skipped_seqs)
                (λ t. has_received-insert t s c.received_seqs gone)
                (late-Accounted i n (c.received_seqs ++ gone) c.pending_logs c.skipped_seqs a s new
                  hi);
          behind = v.buffered.behind;
          few = v.buffered.few;
        };
        passed = λ t g. passed_by t g lo hi;
      }
    where
      passed_by :
          (t : ℕ)
          → has_received t (s ∷ gone) ≡ true
          → c.initial_sequence + 1 ≤ s
          → s < c.next_sequence
          → (c.initial_sequence < t) × (t < c.next_sequence)
      passed_by t g lo hi = unfold has_received in ground (arith, v.passed t)

  -- One that is gone arrives after all.
  late-IsLossy :
      (now : ℕ) (change : LogEntry)
      → has_received change.sequence gone ≡ true
      → let received = change.sequence ∷ c.received_seqs in
        IsLossy gone (process_new now change (with_received received c)).0
  unfolding process_new
  late-IsLossy now change h =
      let a = v.buffered.accounted in
      let s = change.sequence in
      let i = c.initial_sequence in
      let n = c.next_sequence in
      let (lo, hi) = v.passed s h in
      let known : has_received s (c.received_seqs ++ gone) ≡ true =
        has_received-append s c.received_seqs gone ∙ ground (arith, h) in
      let unskipped : was_skipped s c.skipped_seqs ≡ false = ground (arith, a.missing s) in
      let other : (s == n || n == 0) ≡ false = ground arith in
      let low : ltb n s ≡ false = ground arith in
      let late : ltb i s ≡ true = ground arith in
      let d = with_received (s ∷ c.received_seqs) c in
      let b = late-Same change d hi unskipped in
      rw (other, low, late)
        (record {
          buffered = record {
            accounted =
                rw
                  (
                    b.initial_sequence, b.next_sequence, b.received_seqs, b.pending_logs,
                    b.skipped_seqs,
                  )
                  (Accounted-same i n (c.received_seqs ++ gone) (s ∷ (c.received_seqs ++ gone))
                    c.pending_logs c.skipped_seqs (λ t. repeated t s _ known) a);
            behind = rw (b.next_sequence, b.pending_logs) v.buffered.behind;
            few = rw (b.options, b.pending_logs) v.buffered.few;
          };
          passed = rw (b.initial_sequence, b.next_sequence) v.passed;
        })

  -- A sequence that is not gone arrives for the first time.
  new-IsLossy :
      (now : ℕ) (change : LogEntry)
      → has_received change.sequence (c.received_seqs ++ gone) ≡ false
      → let received = change.sequence ∷ c.received_seqs in
        IsLossy gone (process_new now change (with_received received c)).0
  new-IsLossy now change h =
      let r = change.sequence ∷ c.received_seqs in
      let b =
        process_new-IsBuffered now change (with_received (c.received_seqs ++ gone) c) v.buffered
          h in
      let a = process_new-Advances change c now in
      let q = process_new-received r now change c in
      let q' = process_new-received (r ++ gone) now change c in
      subst (λ z. IsLossy gone z.0) (sym q)
        (record {
          buffered = subst (λ z. IsBuffered z.0) q' b;
          passed = λ s g. ground (arith, v.passed s g, a.next_sequence, a.initial_sequence);
        })

pub process_entry-IsLossy :
    (now : ℕ) (change : LogEntry) (gone : List ℕ) (c : ChangeCache)
    → IsLossy gone c
    → IsLossy gone (process_entry now change c).0
unfolding process_entry
process_entry-IsLossy now change gone c v = disabled c.logs_disabled
  where
    first_time :
        has_received change.sequence c.received_seqs ≡ false
        → IsLossy gone
            (process_new now change (with_received (change.sequence ∷ c.received_seqs) c)).0
    first_time new = elim (Bool-cases (has_received change.sequence gone)) [
      | inl lost ↦ late-IsLossy gone c v now change lost
      | inr unknown ↦
          new-IsLossy gone c v now change (
            has_received-append change.sequence c.received_seqs gone ∙ ground (arith, new, unknown))
    ]

    received_once :
        (b : Bool)
        → has_received change.sequence c.received_seqs ≡ b
        → IsLossy gone
            (if◌then◌else◌ {A = ChangeCache × List Str} b
              (c, [])
              (process_new now change (with_received (change.sequence ∷ c.received_seqs) c))).0
    received_once true e = v
    received_once false e = first_time e

    disabled :
        (b : Bool)
        → IsLossy gone
            (if◌then◌else◌ {A = ChangeCache × List Str} b
              (c, [])
              (if has_received change.sequence c.received_seqs
                then (c, [])
                else process_new now change
                    (with_received (change.sequence ∷ c.received_seqs) c))).0
    disabled true = v
    disabled false = received_once (has_received change.sequence c.received_seqs) refl
