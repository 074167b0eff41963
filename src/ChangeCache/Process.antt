-- ===== src/ChangeCache/Process.antt =====
-- `processEntry` of db/change_cache.go loses no sequence.
use sync_gateway.Prelude.{
  ℕ, ◌+◌, ◌<◌, ◌≤◌, ◌≡◌, refl, sym, ◌∙◌, Bool, true, false, List, [], ◌∷◌, ◌||◌, arith, ltb, ◌==◌,
  ltb→lt, if◌then◌else◌, length, Bool-cases, inl, inr, Str,
}
use sync_gateway.LogEntry.{LogEntry}
use sync_gateway.ChangeCache.Skipped.{was_skipped, remove_skipped}
use sync_gateway.ChangeCache.{
  ChangeCache, has_received, add_entry, is_next, is_overdue, add_next, defer, add_out_of_order,
  process_new, process_entry, push_pending,
}
use sync_gateway.ChangeCache.Buffering.Fields.{add_entry-SameBuffer}
use sync_gateway.ChangeCache.Buffering.Queue.{From, push_pending-From}
use sync_gateway.ChangeCache.Buffering.Accounted.{
  next-Accounted, defer-Accounted, late-Accounted, old-Accounted,
}
use sync_gateway.ChangeCache.Buffering.Loop.{IsAccounted, IsSettled, add_pending_logs-Drains}

-- Between two steps: the sequences are accounted for, no pending entry is the next one, and there are
-- no more pending entries than `CachePendingSeqMaxNum`.
pub record IsBuffered (c : ChangeCache) : Type 0 where
  pub accounted : IsAccounted c
  pub behind : From (c.next_sequence + 1) c.pending_logs
  pub few : length c.pending_logs ≤ c.options.pending_seq_max_num

settled-IsBuffered :
    (now : ℕ) (c : ChangeCache) (l : List LogEntry)
    → c.pending_logs ≡ l
    → IsAccounted c
    → IsSettled now c l
    → IsBuffered c
unfolding is_next is_overdue
settled-IsBuffered now c [] p a s = record {
  accounted = a;
  behind = rw p tt;
  few = rw p (omega arith);
}
settled-IsBuffered now c (e ∷ es) p a s =
    let f : From c.next_sequence (e ∷ es) = rw p at (a.waiting) in
    record { accounted = a; behind = rw p (ground arith, f.1); few = ground arith }

module _ (now : ℕ) (change : LogEntry) (c : ChangeCache) (v : IsBuffered c)
    (new : has_received change.sequence c.received_seqs ≡ false) where
  abbrev pub received : ChangeCache
  received = record c { received_seqs = change.sequence ∷ c.received_seqs }

  add_next-IsBuffered :
      change.sequence ≡ c.next_sequence → IsBuffered (add_next now change received).0
  unfolding add_next
  add_next-IsBuffered e =
      let b = add_entry-SameBuffer change received in
      let next : (add_entry change received).0.next_sequence ≡ c.next_sequence + 1 =
        ground (arith, b.next_sequence) in
      let a : IsAccounted (add_entry change received).0 =
        rw (b.initial_sequence, next, b.received_seqs, b.pending_logs, b.skipped_seqs)
          (next-Accounted c.initial_sequence c.next_sequence c.received_seqs c.pending_logs
            c.skipped_seqs v.accounted change.sequence new v.behind e) in
      let d = add_pending_logs-Drains now (add_entry change received).0 a in
      settled-IsBuffered now _ _ refl d.accounted d.settled

  defer-IsBuffered : c.next_sequence < change.sequence → IsBuffered (defer now change received).0
  unfolding defer
  defer-IsBuffered lt =
      let c' = record received { pending_logs = push_pending change c.pending_logs } in
      let a : IsAccounted c' =
        defer-Accounted c.initial_sequence c.next_sequence c.received_seqs c.pending_logs
          c.skipped_seqs v.accounted change.sequence new change refl lt in
      elim (Bool-cases
        (ltb c.options.pending_seq_max_num (length (push_pending change c.pending_logs)))) [
          | inl many ↦
              let d = add_pending_logs-Drains now c' a in
              rw many (settled-IsBuffered now _ _ refl d.accounted d.settled)
          | inr few ↦ rw few (record {
            accounted = a;
            behind =
                push_pending-From (c.next_sequence + 1) change c.pending_logs v.behind (omega arith)
                  (sym (v.accounted.known change.sequence (omega arith)) ∙ new);
            few = ground arith;
          })
        ]

  late_entry-IsBuffered :
      (late : LogEntry)
      → late.sequence ≡ change.sequence
      → change.sequence < c.next_sequence
      → let r = (add_entry late received).0 in
        IsBuffered (record r { skipped_seqs = remove_skipped change.sequence r.skipped_seqs })
  late_entry-IsBuffered late e lt =
      let b = add_entry-SameBuffer late received in
      let next : (add_entry late received).0.next_sequence ≡ c.next_sequence =
        ground (arith, b.next_sequence) in
      record {
        accounted =
            rw (b.initial_sequence, next, b.received_seqs, b.pending_logs, b.skipped_seqs)
              (late-Accounted c.initial_sequence c.next_sequence c.received_seqs c.pending_logs
                c.skipped_seqs v.accounted change.sequence new lt);
        behind = rw (next, b.pending_logs) v.behind;
        few = rw (b.pending_logs, b.options) v.few;
      }

  add_out_of_order-IsBuffered :
      change.sequence < c.next_sequence → IsBuffered (add_out_of_order change received).0
  unfolding add_out_of_order
  add_out_of_order-IsBuffered lt =
      elim (Bool-cases (was_skipped change.sequence received.skipped_seqs)) [
        | inl skipped ↦
            rw skipped (late_entry-IsBuffered (record change { skipped = true }) refl lt)
        | inr unexpected ↦ rw unexpected (late_entry-IsBuffered change refl lt)
      ]

  is_next_sequence :
      (change.sequence == c.next_sequence || c.next_sequence == 0) ≡ true
      → change.sequence ≡ c.next_sequence
  is_next_sequence h = ground (arith, v.accounted.started)

  below :
      (change.sequence == c.next_sequence || c.next_sequence == 0) ≡ false
      → ltb c.next_sequence change.sequence ≡ false
      → change.sequence < c.next_sequence
  below h l = ground arith

  pub process_new-IsBuffered : IsBuffered (process_new now change received).0
  unfolding process_new
  process_new-IsBuffered =
      elim (Bool-cases (change.sequence == c.next_sequence || c.next_sequence == 0)) [
        | inl next ↦ rw next (add_next-IsBuffered (is_next_sequence next))
        | inr n ↦ elim (Bool-cases (ltb c.next_sequence change.sequence)) [
          | inl later ↦ rw (n, later) (defer-IsBuffered (ltb→lt _ _ later))
          | inr l ↦ elim (Bool-cases (ltb c.initial_sequence change.sequence)) [
            | inl late ↦ rw (n, l, late) (add_out_of_order-IsBuffered (below n l))
            | inr old ↦
                rw (n, l, old)
                  (record {
                    accounted =
                        old-Accounted c.initial_sequence c.next_sequence c.received_seqs
                          c.pending_logs c.skipped_seqs v.accounted change.sequence new
                          (ground arith);
                    behind = v.behind;
                    few = v.few;
                  })
          ]
        ]
      ]

-- Whatever arrives, early, in order, late or twice, `processEntry` keeps the account: the pending
-- entries rise behind the next sequence and are no more than `CachePendingSeqMaxNum`, and each
-- sequence between the initial and the next one either was received or is in the list of skipped
-- sequences, which rises.
pub process_entry-IsBuffered :
    (now : ℕ) (change : LogEntry) (c : ChangeCache)
    → IsBuffered c
    → IsBuffered (process_entry now change c).0
unfolding process_entry
process_entry-IsBuffered now change c v = disabled c.logs_disabled
  where
    received_once :
        (b : Bool)
        → has_received change.sequence c.received_seqs ≡ b
        → IsBuffered
            (if◌then◌else◌ {A = ChangeCache × List Str} b
              (c, [])
              (process_new now change
                (record c { received_seqs = change.sequence ∷ c.received_seqs }))).0
    received_once true e = v
    received_once false e = process_new-IsBuffered now change c v e

    disabled :
        (b : Bool)
        → IsBuffered
            (if◌then◌else◌ {A = ChangeCache × List Str} b
              (c, [])
              (if has_received change.sequence c.received_seqs
                then (c, [])
                else process_new now change
                    (record c { received_seqs = change.sequence ∷ c.received_seqs }))).0
    disabled true = v
    disabled false = received_once (has_received change.sequence c.received_seqs) refl
