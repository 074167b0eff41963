-- ===== src/SequenceId.antt =====
-- db/sequence_id.go: the integer sequences of a _changes feed, as text and in order. Numbers are
-- uint64 values, plain here, with their range a hypothesis where it matters. The clock fields of
-- `SequenceID` and the functions on clocks are not modelled.
pub mod Order
pub mod RoundTrip
use sync_gateway.Prelude.{
  ℕ, ◌+◌, ◌^◌, ◌<◌, ◌≤◌, Bool, true, false, ◌&&◌, ◌||◌, Option, none, some, List, [], ◌∷◌, ◌++◌,
  ltb, leb, ◌==◌, if◌then◌else◌, Str, format_uint, parse_uint, split,
}

pub data SequenceType : Type 0 where
  undefined int_sequence_type clock_sequence_type : SequenceType

pub record SequenceId : Type 0 where
  pub seq_type : SequenceType
  pub triggered_by : ℕ
  pub low_seq : ℕ
  pub seq : ℕ

-- The zero value of the struct.
abbrev pub zero_sequence : SequenceId
zero_sequence = record { seq_type = undefined; triggered_by = 0; low_seq = 0; seq = 0 }

-- What a parse may fail with: `base.HTTPErrorf(400, …)`, or the error of `strconv` as it is.
pub data ParseError : Type 0 where
  http_error : ℕ → ParseError
  num_error : ParseError

pub data Result {ℓ} (A : Type ℓ) : Type ℓ where
  ok : A → Result A
  err : ParseError → Result A

infixl 5 ◌>>=◌
abbrev pub ◌>>=◌ {ℓ κ} : {A : Type ℓ} {B : Type κ} → Result A → (A → Result B) → Result B
ok a >>= f = f a
err e >>= f = err e

abbrev pub or_num_error {ℓ} : {A : Type ℓ} → Option A → Result A
or_num_error none = err num_error
or_num_error (some a) = ok a

-- The last statement of the parser: any error still held becomes a 400.
abbrev pub invalid_sequence {ℓ} : {A : Type ℓ} → Result A → Result A
invalid_sequence (ok a) = ok a
invalid_sequence (err e) = err (http_error 400)

unfoldable pub int_seq_to_string : SequenceId → Str
int_seq_to_string s =
    if ltb 0 s.low_seq && ltb s.low_seq s.seq
    then (if ltb 0 s.triggered_by
        then format_uint s.low_seq
          ++ (b':' ∷ (format_uint s.triggered_by ++ (b':' ∷ format_uint s.seq)))
        else format_uint s.low_seq ++ (b':' ∷ (b':' ∷ format_uint s.seq)))
    else if ltb 0 s.triggered_by
    then format_uint s.triggered_by ++ (b':' ∷ format_uint s.seq)
    else format_uint s.seq

unfoldable pub parse_int_sequence_component : Str → Bool → Result ℕ
parse_int_sequence_component [] true = ok 0
parse_int_sequence_component component allow_empty = or_num_error (parse_uint 64 component)

-- The dispatch on the number of components. With two or three of them an error returns at once.
unfoldable pub parse_components : List Str → Result SequenceId
unfolding parse_int_sequence_component
parse_components (a ∷ []) = invalid_sequence (do
  seq ← parse_int_sequence_component a false
  ok (record { seq_type = int_sequence_type; triggered_by = 0; low_seq = 0; seq = seq }))
parse_components (a ∷ b ∷ []) = do
  triggered_by ← parse_int_sequence_component a false
  seq ← parse_int_sequence_component b false
  ok (record { seq_type = int_sequence_type; triggered_by = triggered_by; low_seq = 0; seq = seq })
parse_components (a ∷ b ∷ c ∷ []) = do
  low_seq ← parse_int_sequence_component a false
  triggered_by ← parse_int_sequence_component b true
  seq ← parse_int_sequence_component c false
  ok (record {
    seq_type = int_sequence_type;
    triggered_by = triggered_by;
    low_seq = low_seq;
    seq = seq;
  })
parse_components components = err (http_error 400)

unfoldable pub parse_integer_sequence_id : Str → Result SequenceId
unfolding parse_components split
parse_integer_sequence_id [] = ok zero_sequence
parse_integer_sequence_id (c ∷ str) = parse_components (split b':' (c ∷ str))

unfoldable pub safe_sequence : SequenceId → ℕ
safe_sequence s = if ltb 0 s.low_seq then s.low_seq else s.seq

unfoldable pub int_equals : SequenceId → SequenceId → Bool
unfolding safe_sequence
int_equals s s2 = safe_sequence s == safe_sequence s2 && s.triggered_by == s2.triggered_by

unfoldable pub int_before : SequenceId → SequenceId → Bool
unfolding safe_sequence
int_before s s2 =
    if s.triggered_by == s2.triggered_by
    then ltb (safe_sequence s) (safe_sequence s2)
    else if s.triggered_by == 0
    then ltb (safe_sequence s) s2.triggered_by
    else if s2.triggered_by == 0
    then leb s.triggered_by (safe_sequence s2)
    else ltb s.triggered_by s2.triggered_by
