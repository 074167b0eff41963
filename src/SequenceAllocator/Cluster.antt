-- ===== src/SequenceAllocator/Cluster.antt =====
-- Nodes that share the bucket of db/sequence_allocator.go: each keeps an allocator of its own, and
-- their calls come in any order.
use sync_gateway.Prelude.{
  ℕ, ◌<◌, ◌≤◌, refl, Option, none, some, List, [], ◌∷◌, arith, ◌==◌, if◌then◌else◌, inl, inr,
  Option-cases, Bool-cases,
}
use sync_gateway.SequenceAllocator.{
  Bucket, SequenceAllocator, next_sequence, new_sequence_allocator, reserve_sequences,
  incr_with_retry, reserved,
}
use sync_gateway.SequenceAllocator.Unique.{IsIdle, next_sequence_lem, incr_with_retry_grows}

-- A node starts, with a new allocator in place of the one it had, or asks for a sequence.
pub data Call : Type 0 where
  start : ℕ → Call
  ask : ℕ → Call

unfoldable pub set_node : ℕ → SequenceAllocator → (ℕ → SequenceAllocator) → ℕ → SequenceAllocator
set_node i a nodes j = if i == j then a else nodes j

unfoldable pub hand_out : Option ℕ → List ℕ → List ℕ
hand_out none rest = rest
hand_out (some v) rest = v ∷ rest

-- The sequences that the nodes hand out, in the order of the calls.
unfoldable pub issued : (b : Bucket) → List Call → (ℕ → SequenceAllocator) → b.State → List ℕ
unfolding hand_out
issued b [] nodes s = []
issued b (start i ∷ calls) nodes s =
    let (done, a, s') = new_sequence_allocator b s in issued b calls (set_node i a nodes) s'
issued b (ask i ∷ calls) nodes s =
    let (v, a, s') = next_sequence b (nodes i) s in
    hand_out v (issued b calls (set_node i a nodes) s')

-- Each number is above the one before it, and the first above `low`.
unfoldable pub Ascends : ℕ → List ℕ → Type 0
Ascends low [] = Unit
Ascends low (v ∷ vs) = (low < v) × Ascends v vs

Ascends-mono : (low high : ℕ) (vs : List ℕ) → low ≤ high → Ascends high vs → Ascends low vs
unfolding Ascends
Ascends-mono low high [] l h = h
Ascends-mono low high (v ∷ vs) l h = (omega arith, h.1)

module _ (b : Bucket) where
  start_lem :
      (s : b.State)
      → IsIdle (new_sequence_allocator b s).1
        × (b.counter s ≤ b.counter (new_sequence_allocator b s).2)
  unfolding IsIdle new_sequence_allocator reserve_sequences
  start_lem s =
      let g = incr_with_retry_grows b 0 s in
      elim (Option-cases (incr_with_retry b 0 s).0) [
        | inl e ↦ rw (e, reserved) (refl, g)
        | inr (v, e) ↦ rw (e, reserved) (omega arith, g)
      ]

  set_node-IsIdle :
      (i : ℕ) (a : SequenceAllocator) (nodes : ℕ → SequenceAllocator)
      → IsIdle a
      → ((j : ℕ) → IsIdle (nodes j))
      → (j : ℕ) → IsIdle (set_node i a nodes j)
  unfolding set_node
  set_node-IsIdle i a nodes h hs j = elim (Bool-cases (i == j)) [
    | inl e ↦ rw (e) h
    | inr e ↦ rw (e) (hs j)
  ]

  -- When every node has handed out all it reserved, the sequences that any order of calls hands out
  -- ascend strictly from the counter of the bucket: no sequence is handed out twice, by one node or
  -- by two, also when nodes restart and when increments fail.
  pub issued-Ascends :
      (calls : List Call) (nodes : ℕ → SequenceAllocator) (s : b.State)
      → ((i : ℕ) → IsIdle (nodes i))
      → Ascends (b.counter s) (issued b calls nodes s)
  unfolding issued Ascends
  issued-Ascends [] nodes s idle = tt
  issued-Ascends (start i ∷ calls) nodes s idle =
      let l = start_lem s in
      Ascends-mono (b.counter s) (b.counter (new_sequence_allocator b s).2) _ l.1 (
        issued-Ascends calls (set_node i (new_sequence_allocator b s).1 nodes)
          (new_sequence_allocator b s).2
          (set_node-IsIdle i (new_sequence_allocator b s).1 nodes l.0 idle))
  issued-Ascends (ask i ∷ calls) nodes s idle =
      let l = next_sequence_lem b (nodes i) s (idle i) in
      let rest =
        issued-Ascends calls (set_node i (next_sequence b (nodes i) s).1 nodes)
          (next_sequence b (nodes i) s).2
          (set_node-IsIdle i (next_sequence b (nodes i) s).1 nodes l.0 idle) in
      elim (Option-cases (next_sequence b (nodes i) s).0) [
        | inl e ↦
            rw (e)
              (Ascends-mono (b.counter s) (b.counter (next_sequence b (nodes i) s).2) _ l.1 rest)
        | inr (v, e) ↦ let m = l.2 v e in rw (e) (m.0, rw (← m.1) rest)
      ]
