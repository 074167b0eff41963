-- ===== src/SequenceId/Order.antt =====
-- The order of db/sequence_id.go's integer sequences, against a lexicographic one.
use sync_gateway.Prelude.{ℕ, ◌<◌, ◌≡◌, ◌⊎◌, ◌↔◌, true, false, arith, ◌==◌, if◌then◌else◌}
use sync_gateway.SequenceId.{SequenceId, safe_sequence, int_equals, int_before}

-- Where a change stands on the feed: at the sequence that triggered it if there is one, at its own
-- otherwise.
unfoldable pub position : SequenceId → ℕ
unfolding safe_sequence
position s = if s.triggered_by == 0 then safe_sequence s else s.triggered_by

-- Two sequences at one position: the triggered one goes first, and two triggered ones go by their
-- own sequences.
abbrev pub FirstAt : SequenceId → SequenceId → Type 0
FirstAt s t =
    ((0 < s.triggered_by) × (t.triggered_by ≡ 0))
    ⊎ ((0 < s.triggered_by) × (0 < t.triggered_by) × (safe_sequence s < safe_sequence t))

abbrev pub Precedes : SequenceId → SequenceId → Type 0
Precedes s t = (position s < position t) ⊎ ((position s ≡ position t) × FirstAt s t)

before-Precedes : (s t : SequenceId) → int_before s t ≡ true → Precedes s t
unfolding int_before position
before-Precedes s t h = ground arith

Precedes-before : (s t : SequenceId) → Precedes s t → int_before s t ≡ true
unfolding int_before position
Precedes-before s t h = ground arith

-- `intBefore` holds exactly when the first sequence stands at a lower position, or at the same one
-- with the first triggered and the second not, or both triggered and the first's own safe sequence
-- lower: "n" sorts after every "n:m".
pub int_before-Precedes : (s t : SequenceId) → (int_before s t ≡ true) ↔ Precedes s t
int_before-Precedes s t = (before-Precedes s t, Precedes-before s t)

-- `intBefore` is transitive.
pub int_before_trans :
    (s t u : SequenceId) → int_before s t ≡ true → int_before t u ≡ true → int_before s u ≡ true
unfolding int_before
int_before_trans s t u h k = ground arith

-- Of two sequences neither is before the other exactly when `intEquals` takes them for equal, and
-- no two are each before the other: with transitivity, a strict total order up to `intEquals`.
pub int_before_total :
    (s t : SequenceId)
    → (((int_before s t ≡ false) × (int_before t s ≡ false)) ↔ (int_equals s t ≡ true))
      × (int_before s t ≡ true → int_before t s ≡ false)
unfolding int_before int_equals
int_before_total s t = ((ground arith, ground arith), ground arith)
