-- ===== src/Tests/Sequences.antt =====
-- Sequences of db/sequence_id.go as text and in order, and a bucket whose increments may fail under
-- db/sequence_allocator.go.
use sync_gateway.Prelude.{
  ℕ, ◌+◌, ◌≤◌, ◌≡◌, refl, ◌↔◌, Bool, true, false, Option, none, some, List, [], ◌∷◌, ◌||◌, arith,
  ◌==◌, if◌then◌else◌, codes, length, split, parse_uint, format_uint,
}
use sync_gateway.SequenceId.{
  SequenceId, int_sequence_type, ok, http_error, num_error, parse_integer_sequence_id,
  parse_components, parse_int_sequence_component, int_seq_to_string, int_before, int_equals,
  safe_sequence,
}
use sync_gateway.SequenceId.Order.{Precedes, int_before-Precedes}
use sync_gateway.SequenceId.RoundTrip.{normal, parse-to_string, parse_error_kind}
use sync_gateway.SequenceAllocator.{Bucket, SequenceAllocator}
use sync_gateway.SequenceAllocator.Unique.{IsIdle}
use sync_gateway.SequenceAllocator.Cluster.{Call, start, ask, issued, Ascends, issued-Ascends}

program : Unit {0}
unfolding parse_integer_sequence_id parse_components parse_int_sequence_component int_seq_to_string
    int_before int_equals safe_sequence split parse_uint format_uint
program = tt

abbrev sequence : ℕ → ℕ → ℕ → SequenceId
sequence low_seq triggered_by seq = record {
  seq_type = int_sequence_type;
  triggered_by = triggered_by;
  low_seq = low_seq;
  seq = seq;
}

printed : int_seq_to_string (sequence 3 12 10) ≡ codes "3:12:10"
unfolding program
printed = refl

parse-to_string_example :
    parse_integer_sequence_id (int_seq_to_string (sequence 3 12 10))
    ≡ ok (normal (sequence 3 12 10))
parse-to_string_example =
    parse-to_string (sequence 3 12 10)
      (record { triggered_by = omega arith; low_seq = omega arith; seq = omega arith })

parse_error_kind_example : num_error ≡ (
    if length (split b':' (codes "3:x")) == 2 || length (split b':' (codes "3:x")) == 3
    then num_error
    else http_error 400)
unfolding program
parse_error_kind_example = parse_error_kind (codes "3:x") num_error refl

int_before-Precedes_example :
    (int_before (sequence 0 12 10) (sequence 0 0 12) ≡ true)
    ↔ Precedes (sequence 0 12 10) (sequence 0 0 12)
int_before-Precedes_example = int_before-Precedes (sequence 0 12 10) (sequence 0 0 12)

-- The counter, and whether the next increment fails.
abbrev Server : Type 0
Server = ℕ × Bool

abbrev server_incr : ℕ → Server → Option ℕ × Server
server_incr n (counter, true) = (none, (counter + n, false))
server_incr n (counter, false) = (some (counter + n), (counter + n, false))

server_incr-some :
    (n : ℕ) (s : Server) (v : ℕ)
    → (server_incr n s).0 ≡ some v
    → (v ≡ s.0 + n) × ((server_incr n s).1.0 ≡ v)
server_incr-some n (counter, true) v h = cc
server_incr-some n (counter, false) v h = ground arith

server_incr-grows : (n : ℕ) (s : Server) → s.0 ≤ (server_incr n s).1.0
server_incr-grows n (counter, true) = omega arith
server_incr-grows n (counter, false) = omega arith

abbrev bucket : Bucket
bucket = record {
  State = Server;
  counter = λ s. s.0;
  is_gocb = false;
  incr = server_incr;
  incr_some = server_incr-some;
  incr_grows = server_incr-grows;
}

abbrev new_node : SequenceAllocator
new_node = record { last = 0; max = 0; get_count = 0; reserved_count = 0 }

new_node-IsIdle : IsIdle new_node
unfolding IsIdle
new_node-IsIdle = refl

-- Two nodes ask by turns, and one restarts.
abbrev calls : List Call
calls = ask 1 ∷ ask 2 ∷ start 1 ∷ ask 1 ∷ []

issued-Ascends_example : Ascends 7 (issued bucket calls (λ i. new_node) (7, true))
issued-Ascends_example =
    issued-Ascends bucket calls (λ i. new_node) (7, true) (λ i. new_node-IsIdle)
