-- ===== src/SequenceAllocator.antt =====
-- db/sequence_allocator.go. The counter lives in the bucket, which every node of the cluster shares;
-- `Bucket` states what the code relies on there. Sequences are uint64 values and do not wrap. Keys are
-- left out: the allocator uses one counter. A method that holds the mutex is one step.
pub mod Unique
pub mod Cluster
use sync_gateway.Prelude.{
  ℕ, zero, suc, ◌+◌, ◌-◌, ◌<◌, ◌≤◌, ◌≡◌, Bool, true, false, Option, none, some, List, [], ◌∷◌, leb,
  ltb, if◌then◌else◌,
}

-- `base.Bucket`: `Incr` adds an amount to the counter and returns the sum, at one stroke. An error
-- tells nothing: the counter may have been raised or not. `is_gocb` is `base.AsGoCBBucket`.
pub record Bucket : Type 1 where
  pub State : Type 0
  pub counter : State → ℕ
  pub is_gocb : Bool
  pub incr : ℕ → State → Option ℕ × State
  pub incr_some :
      (n : ℕ) (s : State) (v : ℕ)
      → (incr n s).0 ≡ some v
      → (v ≡ counter s + n) × (counter (incr n s).1 ≡ v)
  pub incr_grows : (n : ℕ) (s : State) → counter s ≤ counter (incr n s).1

pub record SequenceAllocator : Type 0 where
  pub last : ℕ
  pub max : ℕ
  -- the statistics `sequence_get_count` and `sequence_reserved_count`
  pub get_count : ℕ
  pub reserved_count : ℕ

abbrev pub max_incr_retries : ℕ
max_incr_retries = 3

module _ (b : Bucket) where
  -- The loop of `incrWithRetry`, over the retries left; `none` is the error.
  unfoldable pub incr_loop : ℕ → ℕ → b.State → Option ℕ × b.State
  incr_loop zero n s = (none, s)
  incr_loop (suc retries) n s =
      let rest = incr_loop retries n (b.incr n s).1 in
      elim (b.incr n s).0 [ none ↦ rest | some v ↦ (some v, (b.incr n s).1) ]

  unfoldable pub incr_with_retry : ℕ → b.State → Option ℕ × b.State
  unfolding incr_loop
  incr_with_retry n s = incr_loop (if b.is_gocb then 1 else max_incr_retries) n s

  unfoldable pub last_sequence :
      SequenceAllocator → b.State → Option ℕ × SequenceAllocator × b.State
  unfolding incr_with_retry
  last_sequence a s =
      let (v, s') = incr_with_retry 0 s in (v, record a { get_count = a.get_count + 1 }, s')

  -- What `_reserveSequences` keeps of an answer of the bucket.
  unfoldable pub reserved : ℕ → SequenceAllocator → Option ℕ → Bool × SequenceAllocator
  reserved n a none = (false, a)
  reserved n a (some v) = (true, record a { max = v; last = v - n })

  -- `true` is success.
  unfoldable pub reserve_sequences :
      ℕ → SequenceAllocator → b.State → Bool × SequenceAllocator × b.State
  unfolding incr_with_retry reserved
  reserve_sequences n a s =
      let (v, s') = incr_with_retry n s in
      let (done, a') = reserved n (record a { reserved_count = a.reserved_count + 1 }) v in
      if ltb a.last a.max then (true, a, s) else (done, a', s')

  unfoldable pub new_sequence_allocator : b.State → Bool × SequenceAllocator × b.State
  unfolding reserve_sequences
  new_sequence_allocator s =
      reserve_sequences 0 (record { last = 0; max = 0; get_count = 0; reserved_count = 0 }) s

  unfoldable pub take_next :
      Bool × SequenceAllocator × b.State → Option ℕ × SequenceAllocator × b.State
  take_next (true, a, s) = (some (a.last + 1), record a { last = a.last + 1 }, s)
  take_next (false, a, s) = (none, a, s)

  unfoldable pub next_sequence :
      SequenceAllocator → b.State → Option ℕ × SequenceAllocator × b.State
  unfolding reserve_sequences take_next
  next_sequence a s =
      if leb a.max a.last then take_next (reserve_sequences 1 a s) else take_next (true, a, s)
