-- ===== src/SequenceAllocator/Unique.antt =====
-- Every sequence that db/sequence_allocator.go hands out, on whatever node, is new.
use sync_gateway.Prelude.{
  ℕ, zero, suc, ◌+◌, ◌-◌, ◌<◌, ◌≤◌, ◌≡◌, refl, true, false, none, some, arith, leb, ltb,
  if◌then◌else◌, inl, inr, Option-cases,
}
use sync_gateway.SequenceAllocator.{
  Bucket, SequenceAllocator, incr_loop, incr_with_retry, reserved, reserve_sequences, take_next,
  next_sequence, max_incr_retries,
}

module _ (b : Bucket) where
  -- An answer is the counter after the increment, which no earlier answer reached.
  incr_loop-some :
      (retries n : ℕ) (s : b.State) (v : ℕ)
      → (incr_loop b retries n s).0 ≡ some v
      → (b.counter s + n ≤ v) × (b.counter (incr_loop b retries n s).1 ≡ v)
  unfolding incr_loop
  incr_loop-some zero n s v h = cc
  incr_loop-some (suc retries) n s v h = elim (Option-cases (b.incr n s).0) [
    | inl e ↦
        let l : incr_loop b (suc retries) n s ≡ incr_loop b retries n (b.incr n s).1 =
          rw (incr_loop, e) in
        let i = incr_loop-some retries n (b.incr n s).1 v (cc) in
        let g = b.incr_grows n s in (ground arith, cc)
    | inr (w, e) ↦
        let l : incr_loop b (suc retries) n s ≡ (some w, (b.incr n s).1) = rw (incr_loop, e) in
        let i = b.incr_some n s w e in (ground arith, cc)
  ]

-- All the sequences that were reserved are handed out: a batch has one sequence.
unfoldable pub IsIdle : SequenceAllocator → Type 0
IsIdle a = a.last ≡ a.max

module _ (b : Bucket) where
  incr_with_retry-some :
      (n : ℕ) (s : b.State) (v : ℕ)
      → (incr_with_retry b n s).0 ≡ some v
      → (b.counter s + n ≤ v) × (b.counter (incr_with_retry b n s).1 ≡ v)
  unfolding incr_with_retry
  incr_with_retry-some n s v h =
      incr_loop-some b (if b.is_gocb then 1 else max_incr_retries) n s v h

  incr_loop_grows :
      (retries n : ℕ) (s : b.State) → b.counter s ≤ b.counter (incr_loop b retries n s).1
  unfolding incr_loop
  incr_loop_grows zero n s = omega arith
  incr_loop_grows (suc retries) n s = elim (Option-cases (b.incr n s).0) [
    | inl e ↦
        let l : incr_loop b (suc retries) n s ≡ incr_loop b retries n (b.incr n s).1 =
          rw (incr_loop, e) in
        let i = incr_loop_grows retries n (b.incr n s).1 in let g = b.incr_grows n s in ground arith
    | inr (w, e) ↦
        let l : incr_loop b (suc retries) n s ≡ (some w, (b.incr n s).1) = rw (incr_loop, e) in
        let g = b.incr_grows n s in ground arith
  ]

  pub incr_with_retry_grows :
      (n : ℕ) (s : b.State) → b.counter s ≤ b.counter (incr_with_retry b n s).1
  unfolding incr_with_retry
  incr_with_retry_grows n s = incr_loop_grows (if b.is_gocb then 1 else max_incr_retries) n s

  next_sequence_none :
      (a : SequenceAllocator) (s : b.State)
      → IsIdle a
      → (incr_with_retry b 1 s).0 ≡ none
      → ((next_sequence b a s).0 ≡ none)
        × IsIdle (next_sequence b a s).1
        × ((next_sequence b a s).2 ≡ (incr_with_retry b 1 s).1)
  unfolding IsIdle next_sequence reserve_sequences
  next_sequence_none a s idle e =
      let m : leb a.max a.last ≡ true = ground arith in
      let k : ltb a.last a.max ≡ false = ground arith in
      let r : reserve_sequences b 1 a s
          ≡ (false, record a { reserved_count = a.reserved_count + 1 }, (incr_with_retry b 1 s).1) =
        rw (reserve_sequences, k, e, reserved) in
      let l : next_sequence b a s
          ≡ (none, record a { reserved_count = a.reserved_count + 1 }, (incr_with_retry b 1 s).1) =
        rw (next_sequence, m, r, take_next) in
      rw (l) (refl, idle, refl)

  next_sequence_some :
      (a : SequenceAllocator) (s : b.State) (v : ℕ)
      → IsIdle a
      → (incr_with_retry b 1 s).0 ≡ some v
      → ((next_sequence b a s).0 ≡ some v)
        × IsIdle (next_sequence b a s).1
        × ((next_sequence b a s).2 ≡ (incr_with_retry b 1 s).1)
  unfolding IsIdle next_sequence reserve_sequences
  next_sequence_some a s v idle e =
      let m : leb a.max a.last ≡ true = ground arith in
      let k : ltb a.last a.max ≡ false = ground arith in
      let i = incr_with_retry-some 1 s v e in
      let q : (v - 1) + 1 ≡ v = omega arith in
      let r : reserve_sequences b 1 a s ≡ (
        true,
        record a { reserved_count = a.reserved_count + 1; max = v; last = v - 1 },
        (incr_with_retry b 1 s).1,
      ) =
        rw (reserve_sequences, k, e, reserved) in
      let l : next_sequence b a s ≡ (
        some v,
        record a { reserved_count = a.reserved_count + 1; max = v; last = v },
        (incr_with_retry b 1 s).1,
      ) =
        rw (next_sequence, m, r, take_next, q) in
      rw (l) (refl, refl, refl)

  -- An allocator that has handed out all it reserved has done so again after `next_sequence`, and the
  -- counter of the bucket has not fallen; a sequence that comes back is above the counter before the
  -- call, and it is the counter after it.
  pub next_sequence_lem :
      (a : SequenceAllocator) (s : b.State)
      → IsIdle a
      → IsIdle (next_sequence b a s).1
        × (b.counter s ≤ b.counter (next_sequence b a s).2)
        × ((v : ℕ)
            → (next_sequence b a s).0 ≡ some v
            → (b.counter s < v) × (b.counter (next_sequence b a s).2 ≡ v))
  unfolding IsIdle
  next_sequence_lem a s idle = elim (Option-cases (incr_with_retry b 1 s).0) [
    | inl e ↦
        let n = next_sequence_none a s idle e in
        let g = incr_with_retry_grows 1 s in (n.1, ground arith, λ v h. ground arith)
    | inr (w, e) ↦
        let n = next_sequence_some a s w idle e in
        let i = incr_with_retry-some 1 s w e in (n.1, ground arith, λ v h. ground arith)
  ]
