-- ===== src/SequenceId/RoundTrip.antt =====
-- The text form of db/sequence_id.go's integer sequences, and the errors of their parser.
use sync_gateway.Prelude.{
  ℕ, ◌^◌, ◌<◌, ◌≡◌, refl, ◌∙◌, Bool, true, false, ◌&&◌, ◌||◌, length, List, [], ◌∷◌, ◌++◌, arith,
  ltb, ◌==◌, if◌then◌else◌, Str, format_uint, parse_uint, parse-format_uint, format_uint_digits,
  format_uint_cons, split, split_none, split-append,
}
use sync_gateway.SequenceId.{
  SequenceId, int_sequence_type, ok, err, ParseError, http_error, num_error, or_num_error,
  int_seq_to_string, parse_components, parse_int_sequence_component, parse_integer_sequence_id,
}

-- What a client is sent: an integer sequence with `LowSeq` dropped unless it is below `Seq`.
unfoldable pub normal : SequenceId → SequenceId
normal s = record {
  seq_type = int_sequence_type;
  triggered_by = s.triggered_by;
  low_seq = if ltb 0 s.low_seq && ltb s.low_seq s.seq then s.low_seq else 0;
  seq = s.seq;
}

-- The numbers of the record are uint64 values.
pub record IsUint64 (s : SequenceId) : Type 0 where
  pub triggered_by : s.triggered_by < 2 ^ 64
  pub low_seq : s.low_seq < 2 ^ 64
  pub seq : s.seq < 2 ^ 64

component-cons :
    (c : ℕ) (s : Str) (b : Bool)
    → parse_int_sequence_component (c ∷ s) b ≡ or_num_error (parse_uint 64 (c ∷ s))
unfolding parse_int_sequence_component
component-cons c s true = refl
component-cons c s false = refl

component-format :
    (n : ℕ) (b : Bool) → n < 2 ^ 64 → parse_int_sequence_component (format_uint n) b ≡ ok n
component-format n b h =
    let (c, s, e) = format_uint_cons n in
    rw e (component-cons c s b ∙ rw (← e, parse-format_uint 64 n h))

-- A text that is not empty is split.
parse-split :
    (u : Str)
    → ((c : ℕ) × (t : Str) × (u ≡ c ∷ t))
    → parse_integer_sequence_id u ≡ parse_components (split b':' u)
unfolding parse_integer_sequence_id
parse-split u (c, t, e) = rw e

format-append_cons : (n : ℕ) (u : Str) → (c : ℕ) × (t : Str) × (format_uint n ++ u ≡ c ∷ t)
format-append_cons n u = let (c, s, e) = format_uint_cons n in (c, s ++ u, rw e)

split-format : (n : ℕ) → split b':' (format_uint n) ≡ format_uint n ∷ []
split-format n = split_none b':' (format_uint n) (format_uint_digits n)

split-format_append :
    (n : ℕ) (t : Str) → split b':' (format_uint n ++ (b':' ∷ t)) ≡ format_uint n ∷ split b':' t
split-format_append n t = split-append b':' (format_uint n) t (format_uint_digits n)

split-colon : (t : Str) → split b':' (b':' ∷ t) ≡ [] ∷ split b':' t
unfolding split
split-colon t = refl

module _ (s : SequenceId) (h : IsUint64 s) where
  parse_seq :
      parse_integer_sequence_id (format_uint s.seq)
      ≡ ok (record s { seq_type = int_sequence_type; triggered_by = 0; low_seq = 0 })
  parse_seq =
      parse-split _ (format_uint_cons s.seq)
      ∙ rw split-format (unfold parse_components in rw (component-format s.seq false h.seq))

  parse_triggered :
      parse_integer_sequence_id (format_uint s.triggered_by ++ (b':' ∷ format_uint s.seq))
      ≡ ok (record s { seq_type = int_sequence_type; low_seq = 0 })
  parse_triggered =
      parse-split _ (format-append_cons s.triggered_by _)
      ∙ rw (split-format_append, split-format)
          (unfold parse_components in
            rw (
              component-format s.triggered_by false h.triggered_by,
              component-format s.seq false h.seq,
            ))

  parse_low :
      parse_integer_sequence_id (
        format_uint s.low_seq
        ++ (b':' ∷ (format_uint s.triggered_by ++ (b':' ∷ format_uint s.seq))))
      ≡ ok (record s { seq_type = int_sequence_type })
  parse_low =
      parse-split _ (format-append_cons s.low_seq _)
      ∙ rw (split-format_append s.low_seq, split-format_append s.triggered_by, split-format)
          (unfold parse_components in
            rw (
              component-format s.low_seq false h.low_seq,
              component-format s.triggered_by true h.triggered_by,
              component-format s.seq false h.seq,
            ))

  parse_low_only :
      parse_integer_sequence_id (format_uint s.low_seq ++ (b':' ∷ (b':' ∷ format_uint s.seq)))
      ≡ ok (record s { seq_type = int_sequence_type; triggered_by = 0 })
  parse_low_only =
      parse-split _ (format-append_cons s.low_seq _)
      ∙ rw (split-format_append, split-colon, split-format)
          (unfold parse_components in
            rw (component-format s.low_seq false h.low_seq, component-format s.seq false h.seq))

  -- Whatever integer sequence is printed is parsed back, up to its type tag and to a `LowSeq` that
  -- is 0 or not below `Seq`, which the text leaves out. The numbers are taken below 2 ^ 64.
  pub parse-to_string : parse_integer_sequence_id (int_seq_to_string s) ≡ ok (normal s)
  unfolding int_seq_to_string normal
  parse-to_string = ground (arith, parse_seq, parse_triggered, parse_low, parse_low_only)

parse_components_error :
    (cs : List Str) (e : ParseError)
    → parse_components cs ≡ err e
    → e ≡ (if length cs == 2 || length cs == 3 then num_error else http_error 400)
unfolding parse_components
parse_components_error [] e h = ground arith
parse_components_error (a ∷ []) e h = ground arith
parse_components_error (a ∷ b ∷ []) e h = ground arith
parse_components_error (a ∷ b ∷ c ∷ []) e h = ground arith
parse_components_error (a ∷ b ∷ c ∷ d ∷ cs) e h = ground arith

-- A parse that fails reports a bare number error if the text has two or three components, and an
-- HTTP 400 otherwise.
pub parse_error_kind :
    (str : Str) (e : ParseError)
    → parse_integer_sequence_id str ≡ err e
    → e ≡ (
        if length (split b':' str) == 2 || length (split b':' str) == 3
        then num_error
        else http_error 400)
unfolding parse_integer_sequence_id
parse_error_kind [] e h = cc
parse_error_kind (c ∷ str) e h = parse_components_error (split b':' (c ∷ str)) e h
