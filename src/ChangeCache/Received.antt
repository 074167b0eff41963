-- ===== src/ChangeCache/Received.antt =====
-- `receivedSeqs` and the steps that db/change_cache.go's `processEntry` takes once the entry is in it.
use sync_gateway.Prelude.{
  ℕ, zero, suc, ◌+◌, ◌≡◌, refl, ap, Bool, true, List, [], ◌∷◌, leb, ltb, ◌==◌, ◌||◌, if◌then◌else◌,
  length, Str, str_eq, Bool-cases, inl, inr,
}
use sync_gateway.LogEntry.{LogEntry, ChannelMap}
use sync_gateway.ChannelCache.{ChannelCache}
use sync_gateway.ChangeCache.Skipped.{was_skipped}
use sync_gateway.ChangeCache.{
  ChangeCache, update_channel, add_to_channel, add_to_channels, add_to_star, add_entry, is_next,
  is_overdue, skip_next, add_pending_loop, add_pending_logs, add_next, defer, add_out_of_order,
  process_new, push_pending, is_removal, is_affected, star, union,
}

module _ (x : List ℕ) where
  abbrev pub with_received : ChangeCache → ChangeCache
  with_received c = record c { received_seqs = x }

  -- What a step gives, with the received sequences replaced.
  abbrev pub on_received : ChangeCache × List Str → ChangeCache × List Str
  on_received (c, s) = (record c { received_seqs = x }, s)

  update_channel-received :
      (c : ChangeCache) (name : Str) (f : ChannelCache → ChannelCache)
      (l : List (Str × ChannelCache))
      → update_channel (with_received c) name f l ≡ update_channel c name f l
  unfolding update_channel
  update_channel-received c name f [] = refl
  update_channel-received c name f ((n, cache) ∷ l) =
      ap (λ r. if str_eq n name then (n, f cache) ∷ l else (n, cache) ∷ r)
        (update_channel-received c name f l)

  add_to_channel-received :
      (change : LogEntry) (name : Str) (b : Bool) (c : ChangeCache)
      → add_to_channel change name b (with_received c)
        ≡ with_received (add_to_channel change name b c)
  unfolding add_to_channel
  add_to_channel-received change name b c = rw (update_channel-received c name) refl

  add_to_channels-received :
      (change : LogEntry) (m : ChannelMap) (c : ChangeCache)
      → add_to_channels change m (with_received c) ≡ on_received (add_to_channels change m c)
  unfolding add_to_channels
  add_to_channels-received change [] c = refl
  add_to_channels-received change ((name, removal) ∷ m) c =
      elim (Bool-cases (is_affected change.sequence removal)) [
        | inl affected ↦
            rw
              (
                affected,
                add_to_channel-received change name (is_removal removal) c,
                add_to_channels-received change m
                    (add_to_channel change name (is_removal removal) c),
              )
              refl
        | inr other ↦ rw (other, add_to_channels-received change m c) refl
      ]

  add_to_star-received :
      (change : LogEntry) (r : ChangeCache × List Str)
      → add_to_star change (on_received r) ≡ on_received (add_to_star change r)
  unfolding add_to_star
  add_to_star-received change (c, added) = elim (Bool-cases c.options.star_channel_log) [
    | inl on ↦ rw (on, update_channel-received c star) refl
    | inr off ↦ rw off refl
  ]

  add_entry-received :
      (change : LogEntry) (c : ChangeCache)
      → add_entry change (with_received c) ≡ on_received (add_entry change c)
  unfolding add_entry
  add_entry-received change c = elim (Bool-cases (leb c.next_sequence change.sequence)) [
    | inl ahead ↦ rw ahead (rest (record c { next_sequence = change.sequence + 1 }))
    | inr behind ↦ rw behind (rest c)
  ]
    where
      rest :
          (d : ChangeCache)
          → (if◌then◌else◌ {A = ChangeCache × List Str}
              (str_eq change.doc_id [])
              (with_received d, [])
              (add_to_star
                (record change { channels = [] })
                (add_to_channels
                  (record change { channels = [] })
                  change.channels
                  (with_received d))))
            ≡ on_received (
                if str_eq change.doc_id []
                then (d, [])
                else add_to_star
                    (record change { channels = [] })
                    (add_to_channels (record change { channels = [] }) change.channels d))
      rest d = elim (Bool-cases (str_eq change.doc_id [])) [
        | inl unused ↦ rw unused refl
        | inr doc ↦
            rw (doc, add_to_channels-received (record change { channels = [] }) change.channels d)
              (add_to_star-received (record change { channels = [] })
                (add_to_channels (record change { channels = [] }) change.channels d))
      ]

  add_pending_loop-received :
      (fuel now : ℕ) (c : ChangeCache) (pending : List LogEntry) (changed : List Str)
      → add_pending_loop fuel now (with_received c) pending changed
        ≡ on_received (add_pending_loop fuel now c pending changed)
  unfolding add_pending_loop is_next is_overdue skip_next
  add_pending_loop-received zero now c pending changed = refl
  add_pending_loop-received (suc fuel) now c [] changed = refl
  add_pending_loop-received (suc fuel) now c (e ∷ es) changed = elim (Bool-cases (is_next e c)) [
    | inl next ↦
        rw (next, add_entry-received e (record c { pending_logs = es }))
          (add_pending_loop-received fuel now (add_entry e (record c { pending_logs = es })).0 es
            (union (add_entry e (record c { pending_logs = es })).1 changed))
    | inr later ↦ elim (Bool-cases (is_overdue now e c)) [
      | inl over ↦
          rw (later, over) (add_pending_loop-received fuel now (skip_next now c) (e ∷ es) changed)
      | inr patient ↦ rw (later, patient) refl
    ]
  ]

  add_pending_logs-received :
      (now : ℕ) (c : ChangeCache)
      → add_pending_logs now (with_received c) ≡ on_received (add_pending_logs now c)
  unfolding add_pending_logs
  add_pending_logs-received now c = add_pending_loop-received _ now c c.pending_logs []

  pub process_new-received :
      (now : ℕ) (change : LogEntry) (c : ChangeCache)
      → process_new now change (with_received c) ≡ on_received (process_new now change c)
  unfolding process_new add_next defer add_out_of_order
  process_new-received now change c =
      elim (Bool-cases (change.sequence == c.next_sequence || c.next_sequence == 0)) [
        | inl next ↦
            rw
              (
                next,
                add_entry-received change c,
                add_pending_logs-received now (add_entry change c).0,
              )
              refl
        | inr n ↦ elim (Bool-cases (ltb c.next_sequence change.sequence)) [
          | inl later ↦
              let d = record c { pending_logs = push_pending change c.pending_logs } in
              elim (Bool-cases (ltb c.options.pending_seq_max_num (length d.pending_logs))) [
                | inl many ↦ rw (n, later, many) (add_pending_logs-received now d)
                | inr few ↦ rw (n, later, few) refl
              ]
          | inr l ↦ elim (Bool-cases (ltb c.initial_sequence change.sequence)) [
            | inl late ↦ elim (Bool-cases (was_skipped change.sequence c.skipped_seqs)) [
              | inl skipped ↦
                  rw (n, l, late, skipped, add_entry-received (record change { skipped = true }) c)
                    refl
              | inr unexpected ↦ rw (n, l, late, unexpected, add_entry-received change c) refl
            ]
            | inr old ↦ rw (n, l, old) refl
          ]
        ]
      ]
