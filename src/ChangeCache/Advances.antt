-- ===== src/ChangeCache/Advances.antt =====
-- How the steps of db/change_cache.go's `processEntry` move the next sequence.
use sync_gateway.Prelude.{
  ℕ, zero, suc, ◌≤◌, ◌≡◌, refl, ◌∙◌, true, List, [], ◌∷◌, arith, ltb, ◌==◌, ◌||◌, length, Str,
  Bool-cases, inl, inr,
}
use sync_gateway.LogEntry.{LogEntry}
use sync_gateway.ChangeCache.Skipped.{was_skipped}
use sync_gateway.ChangeCache.{
  ChangeCache, add_entry, is_next, is_overdue, skip_next, add_pending_loop, add_pending_logs,
  add_next, defer, add_out_of_order, process_new, push_pending, union,
}
use sync_gateway.ChangeCache.Buffering.Fields.{add_entry-SameBuffer}

-- The next sequence has not fallen, and the initial and the received ones are the same.
pub record Advances (c r : ChangeCache) : Type 0 where
  pub next_sequence : c.next_sequence ≤ r.next_sequence
  pub initial_sequence : r.initial_sequence ≡ c.initial_sequence
  pub received_seqs : r.received_seqs ≡ c.received_seqs

Advances-refl : (c : ChangeCache) → Advances c c
Advances-refl c = record {
  next_sequence = omega arith;
  initial_sequence = refl;
  received_seqs = refl;
}

Advances-trans : (c d e : ChangeCache) → Advances c d → Advances d e → Advances c e
Advances-trans c d e p q = record {
  next_sequence = omega (arith, p.next_sequence, q.next_sequence);
  initial_sequence = q.initial_sequence ∙ p.initial_sequence;
  received_seqs = q.received_seqs ∙ p.received_seqs;
}

add_entry-Advances : (e : LogEntry) (c : ChangeCache) → Advances c (add_entry e c).0
add_entry-Advances e c =
    let b = add_entry-SameBuffer e c in
    record {
      next_sequence = ground (arith, b.next_sequence);
      initial_sequence = b.initial_sequence;
      received_seqs = b.received_seqs;
    }

loop-Advances :
    (fuel now : ℕ) (c : ChangeCache) (pending : List LogEntry) (changed : List Str)
    → Advances c (add_pending_loop fuel now c pending changed).0
unfolding add_pending_loop skip_next
loop-Advances zero now c pending changed = Advances-refl c
loop-Advances (suc fuel) now c [] changed = Advances-refl c
loop-Advances (suc fuel) now c (e ∷ es) changed = elim (Bool-cases (is_next e c)) [
  | inl next ↦
      let d = record c { pending_logs = es } in
      let a = add_entry-Advances e d in
      let p : Advances c (add_entry e d).0 = record {
        next_sequence = a.next_sequence;
        initial_sequence = a.initial_sequence;
        received_seqs = a.received_seqs;
      } in
      rw next (
        Advances-trans c (add_entry e d).0 _ p
          (loop-Advances fuel now (add_entry e d).0 es (union (add_entry e d).1 changed)))
  | inr later ↦ elim (Bool-cases (is_overdue now e c)) [
    | inl over ↦
        let p : Advances c (skip_next now c) = record {
          next_sequence = omega arith;
          initial_sequence = refl;
          received_seqs = refl;
        } in
        rw (later, over)
          (Advances-trans c (skip_next now c) _ p
            (loop-Advances fuel now (skip_next now c) (e ∷ es) changed))
    | inr patient ↦ rw (later, patient) (Advances-refl c)
  ]
]

add_pending_logs-Advances : (now : ℕ) (c : ChangeCache) → Advances c (add_pending_logs now c).0
unfolding add_pending_logs
add_pending_logs-Advances now c = loop-Advances _ now c c.pending_logs []

module _ (change : LogEntry) (c : ChangeCache) where
  defer-Advances : (now : ℕ) → Advances c (defer now change c).0
  unfolding defer
  defer-Advances now =
      let d = record c { pending_logs = push_pending change c.pending_logs } in
      elim (Bool-cases (ltb c.options.pending_seq_max_num (length d.pending_logs))) [
        | inl many ↦
            let a = add_pending_logs-Advances now d in
            rw many (record {
              next_sequence = a.next_sequence;
              initial_sequence = a.initial_sequence;
              received_seqs = a.received_seqs;
            })
        | inr few ↦
            rw few (record {
              next_sequence = omega arith;
              initial_sequence = refl;
              received_seqs = refl;
            })
      ]

  add_out_of_order-Advances : Advances c (add_out_of_order change c).0
  unfolding add_out_of_order
  add_out_of_order-Advances = elim (Bool-cases (was_skipped change.sequence c.skipped_seqs)) [
    | inl skipped ↦
        let a = add_entry-Advances (record change { skipped = true }) c in
        rw skipped (record {
          next_sequence = a.next_sequence;
          initial_sequence = a.initial_sequence;
          received_seqs = a.received_seqs;
        })
    | inr unexpected ↦
        let a = add_entry-Advances change c in
        rw unexpected (record {
          next_sequence = a.next_sequence;
          initial_sequence = a.initial_sequence;
          received_seqs = a.received_seqs;
        })
  ]

  pub process_new-Advances : (now : ℕ) → Advances c (process_new now change c).0
  unfolding process_new add_next
  process_new-Advances now =
      elim (Bool-cases (change.sequence == c.next_sequence || c.next_sequence == 0)) [
        | inl next ↦ rw next (
            Advances-trans c (add_entry change c).0 _ (add_entry-Advances change c)
              (add_pending_logs-Advances now (add_entry change c).0))
        | inr n ↦ elim (Bool-cases (ltb c.next_sequence change.sequence)) [
          | inl later ↦ rw (n, later) (defer-Advances now)
          | inr l ↦ elim (Bool-cases (ltb c.initial_sequence change.sequence)) [
            | inl late ↦ rw (n, l, late) add_out_of_order-Advances
            | inr old ↦ rw (n, l, old) (Advances-refl c)
          ]
        ]
      ]
