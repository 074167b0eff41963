-- ===== src/ChangeCache/Buffering/Loop.antt =====
-- The loop of db/change_cache.go's `_addPendingLogs`.
use sync_gateway.Prelude.{
  ℕ, zero, suc, ◌+◌, ◌-◌, ◌<◌, ◌≤◌, ◌≡◌, refl, ◌∙◌, true, false, List, [], ◌∷◌, arith, ==_iff,
  Bool-cases, inl, inr, Str,
}
use sync_gateway.LogEntry.{LogEntry}
use sync_gateway.ChangeCache.{
  ChangeCache, add_entry, union, is_next, is_overdue, skip_next, add_pending_loop, top_pending,
  add_pending_logs,
}
use sync_gateway.ChangeCache.Buffering.Fields.{add_entry-SameBuffer}
use sync_gateway.ChangeCache.Buffering.Queue.{From, push_lem, top_pending-ge}
use sync_gateway.ChangeCache.Buffering.Accounted.{Accounted, pop-Accounted, skip-Accounted}

abbrev pub IsAccounted : ChangeCache → Type 0
IsAccounted c =
    Accounted c.initial_sequence c.next_sequence c.received_seqs c.pending_logs c.skipped_seqs

-- The loop has nothing left to do.
abbrev pub IsSettled : ℕ → ChangeCache → List LogEntry → Type 0
IsSettled now c [] = Unit {0}
IsSettled now c (e ∷ es) = (is_next e c ≡ false) × (is_overdue now e c ≡ false)

-- What the loop promises of the cache that it leaves.
pub record Drains (now : ℕ) (c r : ChangeCache) : Type 0 where
  pub accounted : IsAccounted r
  pub settled : IsSettled now r r.pending_logs
  pub initial_sequence : r.initial_sequence ≡ c.initial_sequence
  pub received_seqs : r.received_seqs ≡ c.received_seqs
  pub options : r.options ≡ c.options
  pub advances : c.next_sequence ≤ r.next_sequence

Drains-trans :
    (now : ℕ) (c d r : ChangeCache)
    → d.initial_sequence ≡ c.initial_sequence
    → d.received_seqs ≡ c.received_seqs
    → d.options ≡ c.options
    → c.next_sequence ≤ d.next_sequence
    → Drains now d r
    → Drains now c r
Drains-trans now c d r i s o le g = record {
  accounted = g.accounted;
  settled = g.settled;
  initial_sequence = g.initial_sequence ∙ i;
  received_seqs = g.received_seqs ∙ s;
  options = g.options ∙ o;
  advances = omega (arith, g.advances);
}

-- An entry is popped and handed to the caches.
pop-IsAccounted :
    (c : ChangeCache) (e : LogEntry) (es : List LogEntry)
    → IsAccounted c
    → c.pending_logs ≡ e ∷ es
    → is_next e c ≡ true
    → let r = (add_entry e (record c { pending_logs = es })).0 in
      IsAccounted r × (r.next_sequence ≡ c.next_sequence + 1)
unfolding is_next
pop-IsAccounted c e es a p h =
    let same : e.sequence ≡ c.next_sequence = (==_iff e.sequence c.next_sequence).0 h in
    let b = add_entry-SameBuffer e (record c { pending_logs = es }) in
    let next : (add_entry e (record c { pending_logs = es })).0.next_sequence
        ≡ c.next_sequence + 1 =
      ground (arith, b.next_sequence) in
    (
      rw (b.initial_sequence, next, b.received_seqs, b.pending_logs, b.skipped_seqs)
          (pop-Accounted c.initial_sequence c.next_sequence c.received_seqs e es c.skipped_seqs
            (rw p at a) same),
      next,
    )

skip_next-IsAccounted :
    (now : ℕ) (c : ChangeCache)
    → IsAccounted c
    → From (c.next_sequence + 1) c.pending_logs
    → IsAccounted (skip_next now c)
unfolding skip_next
skip_next-IsAccounted now c a f =
    rw
      (push_lem (c.initial_sequence + 1) (record { seq = c.next_sequence; time_added = now })
        c.skipped_seqs a.rising)
      (skip-Accounted c.initial_sequence c.next_sequence c.received_seqs c.pending_logs
        c.skipped_seqs (record { seq = c.next_sequence; time_added = now }) a f refl)

later-From :
    (c : ChangeCache) (e : LogEntry) (es : List LogEntry)
    → c.pending_logs ≡ e ∷ es
    → IsAccounted c
    → is_next e c ≡ false
    → From (c.next_sequence + 1) c.pending_logs
unfolding is_next
later-From c e es p a h =
    let f : From c.next_sequence (e ∷ es) = rw p at (a.waiting) in rw p (ground arith, f.1)

-- The fuel reaches the largest pending sequence.
abbrev Enough : ℕ → ℕ → List LogEntry → Type 0
Enough n fuel [] = Unit {0}
Enough n fuel (e ∷ es) = top_pending e.sequence es < n + fuel

Enough-tail :
    (n m fuel : ℕ) (e : LogEntry) (es : List LogEntry)
    → m ≡ n + 1
    → Enough n (suc fuel) (e ∷ es)
    → Enough m fuel es
unfolding top_pending
Enough-tail n m fuel e [] eq h = tt
Enough-tail n m fuel e (x ∷ xs) eq h = omega arith

loop-Drains :
    (fuel now : ℕ) (c : ChangeCache) (pending : List LogEntry) (changed : List Str)
    → c.pending_logs ≡ pending
    → IsAccounted c
    → Enough c.next_sequence fuel pending
    → Drains now c (add_pending_loop fuel now c pending changed).0
unfolding add_pending_loop skip_next
loop-Drains zero now c [] changed p a h = record {
  accounted = a;
  settled = rw p tt;
  initial_sequence = refl;
  received_seqs = refl;
  options = refl;
  advances = omega arith;
}
loop-Drains zero now c (e ∷ es) changed p a h = absurd (
    omega
      (arith, top_pending-ge c.next_sequence e es (rw p at (a.waiting)), (rw p at (a.waiting)).0))
loop-Drains (suc fuel) now c [] changed p a h = record {
  accounted = a;
  settled = rw p tt;
  initial_sequence = refl;
  received_seqs = refl;
  options = refl;
  advances = omega arith;
}
loop-Drains (suc fuel) now c (e ∷ es) changed p a h = elim (Bool-cases (is_next e c)) [
  | inl next ↦
      let popped = add_entry e (record c { pending_logs = es }) in
      let b = add_entry-SameBuffer e (record c { pending_logs = es }) in
      let (w, n) = pop-IsAccounted c e es a p next in
      rw next (
        Drains-trans now c popped.0 _ b.initial_sequence b.received_seqs b.options (omega arith) (
          loop-Drains fuel now popped.0 es (union popped.1 changed) b.pending_logs w
            (Enough-tail c.next_sequence popped.0.next_sequence fuel e es n h)))
  | inr later ↦ elim (Bool-cases (is_overdue now e c)) [
    | inl over ↦
        rw (later, over)
          (Drains-trans now c (skip_next now c) _ refl refl refl (omega arith) (
            loop-Drains fuel now (skip_next now c) (e ∷ es) changed p
              (skip_next-IsAccounted now c a (later-From c e es p a later)) (omega (arith, h))))
    | inr patient ↦
        rw (later, patient)
          (record {
            accounted = a;
            settled = rw p (later, patient);
            initial_sequence = refl;
            received_seqs = refl;
            options = refl;
            advances = omega arith;
          })
  ]
]

-- From sequences that are accounted for, `_addPendingLogs` terminates (its fuel is enough) with
-- nothing pending, or with a first pending entry that is not next and whose wait is not over. The
-- sequences are then still accounted for, with the same ones received, the same initial sequence and
-- the same options, and the next sequence has not fallen.
pub add_pending_logs-Drains :
    (now : ℕ) (c : ChangeCache) → IsAccounted c → Drains now c (add_pending_logs now c).0
unfolding add_pending_logs
add_pending_logs-Drains now c a =
    loop-Drains _ now c c.pending_logs [] refl a (enough c.next_sequence c.pending_logs)
  where
    enough : (n : ℕ) (l : List LogEntry) → Enough n (top_pending 0 l + 1 - n) l
    enough n [] = tt
    enough n (e ∷ es) = unfold top_pending in omega arith
