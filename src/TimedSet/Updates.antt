-- ===== src/TimedSet/Updates.antt =====
-- What the updates of channels/timed_set.go leave for each channel.
use sync_gateway.Prelude.{
  ℕ, ◌≡◌, refl, ap, sym, ◌∙◌, Bool, true, false, ◌&&◌, ◌||◌, Option, none, some, List, [], ◌∷◌,
  arith, ltb, ◌==◌, if◌then◌else◌, Str, str_eq, str_eq_iff, Bool-cases, Option-cases, inl, inr,
}
use sync_gateway.ChannelCache.{has_id}
use sync_gateway.TimedSet.{
  VbSequence, TimedSet, new_vb_simple_sequence, find, contains_channel, assign, keep_members,
  add_members, update_at_sequence, sequence_of, add_channel, add_one_at, add_at_sequence, add_set,
}

str_eq-false : (s t u : Str) → str_eq s t ≡ true → str_eq s u ≡ false → str_eq t u ≡ false
str_eq-false s t u h k = ap (λ z. str_eq z u) (sym ((str_eq_iff s t).0 h)) ∙ k

str_eq-same : (s t u : Str) → str_eq s t ≡ true → str_eq t u ≡ true → str_eq s u ≡ true
str_eq-same s t u h k = ap (λ z. str_eq z u) ((str_eq_iff s t).0 h) ∙ k

pub find-assign :
    (ch name : Str) (v : VbSequence) (set : TimedSet)
    → find ch (assign name v set) ≡ (if str_eq name ch then some v else find ch set)
unfolding find assign
find-assign ch name v [] = refl
find-assign ch name v ((n, w) ∷ set) = elim (Bool-cases (str_eq n name)) [
  | inl here ↦ elim (Bool-cases (str_eq name ch)) [
    | inl found ↦ rw (here, found, str_eq-same n name ch here found) refl
    | inr other ↦ rw (here, other, moved here other) refl
  ]
  | inr there ↦ elim (Bool-cases (str_eq n ch)) [
    | inl found ↦ rw (there, found, elsewhere there found) refl
    | inr other ↦ rw (there, other) (find-assign ch name v set)
  ]
]
  where
    moved : str_eq n name ≡ true → str_eq name ch ≡ false → str_eq n ch ≡ false
    moved h k = ap (λ z. str_eq z ch) ((str_eq_iff n name).0 h) ∙ k

    elsewhere : str_eq n name ≡ false → str_eq n ch ≡ true → str_eq name ch ≡ false
    elsewhere h k = elim (Bool-cases (str_eq name ch)) [
      | inl q ↦
          let e : str_eq n name ≡ true =
            (str_eq_iff n name).1 ((str_eq_iff n ch).0 k ∙ sym ((str_eq_iff name ch).0 q)) in
          cc
      | inr q ↦ q
    ]

has_id-same : (s t : Str) (l : List Str) → str_eq s t ≡ true → has_id s l ≡ has_id t l
has_id-same s t l h = ap (λ z. has_id z l) ((str_eq_iff s t).0 h)

find-keep_members :
    (ch : Str) (other : List Str) (set : TimedSet)
    → find ch (keep_members other set).0 ≡ (if has_id ch other then find ch set else none)
unfolding find keep_members
find-keep_members ch other [] = ground arith
find-keep_members ch other ((name, v) ∷ set) = elim (Bool-cases (str_eq name ch)) [
  | inl same ↦
      let q = has_id-same name ch other same in
      elim (Bool-cases (has_id name other)) [
        | inl kept ↦ rw (kept, same, sym q ∙ kept) refl
        | inr gone ↦
            rw (gone, same, sym q ∙ gone) (find-keep_members ch other set ∙ rw (sym q ∙ gone) refl)
      ]
  | inr differs ↦ elim (Bool-cases (has_id name other)) [
    | inl kept ↦ rw (kept, differs) (find-keep_members ch other set)
    | inr gone ↦ rw (gone, differs) (find-keep_members ch other set)
  ]
]

-- A channel that the set has stays as it is; of the others the listed ones come in.
unfoldable pub joined : Bool → ℕ → Option VbSequence → Option VbSequence
joined b sequence (some v) = some v
joined b sequence none = if b then some (new_vb_simple_sequence sequence) else none

joined-false : (sequence : ℕ) (o : Option VbSequence) → joined false sequence o ≡ o
unfolding joined
joined-false sequence none = refl
joined-false sequence (some v) = refl

contains_channel-find :
    (ch : Str) (set : TimedSet)
    → contains_channel ch set ≡ true
    → (v : VbSequence) × (find ch set ≡ some v)
unfolding contains_channel
contains_channel-find ch set h = elim (Option-cases (find ch set)) [
  | inl absent ↦ let q : contains_channel ch set ≡ false = rw (contains_channel, absent) refl in cc
  | inr found ↦ found
]

contains_channel-none :
    (ch : Str) (set : TimedSet) → contains_channel ch set ≡ false → find ch set ≡ none
unfolding contains_channel
contains_channel-none ch set h = elim (Option-cases (find ch set)) [
  | inl absent ↦ absent
  | inr (v, e) ↦ let q : contains_channel ch set ≡ true = rw (contains_channel, e) refl in cc
]

-- One listed channel comes in before the rest.
joined-step :
    (ch name : Str) (b : Bool) (sequence : ℕ) (set : TimedSet)
    → contains_channel name set ≡ true
    → joined b sequence (find ch set)
      ≡ joined (if str_eq name ch then true else b) sequence (find ch set)
unfolding joined
joined-step ch name b sequence set there = elim (Bool-cases (str_eq name ch)) [
  | inl same ↦
      let (v, e) = contains_channel-find name set there in
      let f : find ch set ≡ some v = ap (λ z. find z set) (sym ((str_eq_iff name ch).0 same)) ∙ e in
      rw (joined, f) refl
  | inr other ↦ rw other refl
]

joined-assign :
    (ch name : Str) (b : Bool) (sequence : ℕ) (set : TimedSet)
    → contains_channel name set ≡ false
    → joined b sequence (find ch (assign name (new_vb_simple_sequence sequence) set))
      ≡ joined (if str_eq name ch then true else b) sequence (find ch set)
unfolding joined
joined-assign ch name b sequence set absent = elim (Bool-cases (str_eq name ch)) [
  | inl same ↦
      let f : find ch set ≡ none =
        ap (λ z. find z set) (sym ((str_eq_iff name ch).0 same))
        ∙ contains_channel-none name set absent in
      rw (find-assign ch name (new_vb_simple_sequence sequence) set, same, f) refl
  | inr other ↦ rw (find-assign ch name (new_vb_simple_sequence sequence) set, other) refl
]

find-add_members :
    (ch : Str) (other : List Str) (sequence : ℕ) (set : TimedSet) (changed : Bool)
    → find ch (add_members other sequence (set, changed)).0
      ≡ joined (has_id ch other) sequence (find ch set)
unfolding add_members has_id
find-add_members ch [] sequence set changed = sym (joined-false sequence (find ch set))
find-add_members ch (name ∷ other) sequence set changed =
    elim (Bool-cases (contains_channel name set)) [
      | inl there ↦ rw there (
          find-add_members ch other sequence set changed
          ∙ joined-step ch name (has_id ch other) sequence set there)
      | inr absent ↦ rw absent (
          find-add_members ch other sequence (assign name (new_vb_simple_sequence sequence) set)
            true
          ∙ joined-assign ch name (has_id ch other) sequence set absent)
    ]

-- After `UpdateAtSequence` a channel of the other set is in the set, at its old sequence if it had one and
-- else at the new; a channel that the other set does not have is not.
pub find-update_at_sequence :
    (ch : Str) (other : List Str) (sequence : ℕ) (set : TimedSet)
    → find ch (update_at_sequence other sequence set).0
      ≡ (if has_id ch other then joined true sequence (find ch set) else none)
unfolding update_at_sequence
find-update_at_sequence ch other sequence set =
    find-add_members ch other sequence (keep_members other set).0 (keep_members other set).1
    ∙ elim (Bool-cases (has_id ch other)) [
      | inl listed ↦ rw (find-keep_members ch other set, listed) refl
      | inr unlisted ↦ rw (find-keep_members ch other set, unlisted) (joined-false sequence none)
    ]

-- The earlier of two sequences, where 0 is none.
unfoldable pub earliest : ℕ → ℕ → ℕ
earliest a b = if a == 0 then b else if b == 0 then a else if ltb b a then b else a

sequence_of-assign :
    (ch name : Str) (v : VbSequence) (set : TimedSet)
    → sequence_of ch (assign name v set)
      ≡ (if str_eq name ch then v.sequence else sequence_of ch set)
unfolding sequence_of
sequence_of-assign ch name v set = elim (Bool-cases (str_eq name ch)) [
  | inl same ↦ rw (sequence_of, find-assign ch name v set, same) refl
  | inr other ↦ rw (sequence_of, find-assign ch name v set, other) refl
]

-- The test of `AddChannel`.
unfoldable is_earlier : ℕ → ℕ → Bool
is_earlier at old = ltb 0 at && (old == 0 || ltb at old)

earliest-true : (at old : ℕ) → is_earlier at old ≡ true → earliest old at ≡ at
unfolding is_earlier earliest
earliest-true at old h = ground arith

earliest-false : (at old : ℕ) → is_earlier at old ≡ false → earliest old at ≡ old
unfolding is_earlier earliest
earliest-false at old h = ground arith

pub add_channel-earliest :
    (ch name : Str) (at : ℕ) (set : TimedSet)
    → sequence_of ch (add_channel name at set).0
      ≡ (if str_eq name ch then earliest (sequence_of ch set) at else sequence_of ch set)
unfolding add_channel is_earlier
add_channel-earliest ch name at set = elim (Bool-cases (is_earlier at (sequence_of name set))) [
  | inl earlier ↦ rw earlier (
      sequence_of-assign ch name (new_vb_simple_sequence at) set
      ∙ elim (Bool-cases (str_eq name ch)) [
        | inl same ↦ rw same (
            unfold new_vb_simple_sequence in
            sym (
              ap (λ z. earliest z at) (moved same)
              ∙ earliest-true at (sequence_of name set) earlier))
        | inr other ↦ rw other refl
      ])
  | inr later ↦ rw later (elim (Bool-cases (str_eq name ch)) [
    | inl same ↦ rw same (
        moved same
        ∙ sym
            (ap (λ z. earliest z at) (moved same) ∙ earliest-false at (sequence_of name set) later))
    | inr other ↦ rw other refl
  ])
]
  where
    moved : str_eq name ch ≡ true → sequence_of ch set ≡ sequence_of name set
    moved h = ap (λ z. sequence_of z set) (sym ((str_eq_iff name ch).0 h))

earliest_zero : (a : ℕ) → earliest a 0 ≡ a
unfolding earliest
earliest_zero a = ground arith

add_one_at-simple :
    (name : Str) (v : VbSequence) (set : TimedSet)
    → v.vb_no ≡ none
    → (add_one_at name v 0 set).0 ≡ (add_channel name v.sequence set).0
unfolding add_one_at
add_one_at-simple name v set n =
    let e : (if ltb v.sequence 0 then 0 else v.sequence) ≡ v.sequence = ground arith in
    rw (add_one_at, n) (ap (λ s. (add_channel name s set).0) e)

sequence_of-none : (ch : Str) (set : TimedSet) → find ch set ≡ none → sequence_of ch set ≡ 0
unfolding sequence_of
sequence_of-none ch set h = rw (sequence_of, h) refl

pub sequence_of-cons :
    (ch name : Str) (v : VbSequence) (set : TimedSet)
    → sequence_of ch ((name, v) ∷ set) ≡ (if str_eq name ch then v.sequence else sequence_of ch set)
unfolding sequence_of find
sequence_of-cons ch name v set = elim (Bool-cases (str_eq name ch)) [
  | inl same ↦ rw (sequence_of, find, same) refl
  | inr other ↦ rw (sequence_of, find, other) refl
]

-- No channel twice, and no vbucket numbers.
abbrev pub IsSimple : TimedSet → Type 0
IsSimple [] = Unit {0}
IsSimple ((name, v) ∷ set) = (v.vb_no ≡ none) × (find name set ≡ none) × IsSimple set

-- `Add` of a set that has each channel once, and no vbucket numbers, leaves each channel at the earlier
-- of its two sequences, where 0 stands for none.
pub sequence_of-add_set :
    (ch : Str) (other set : TimedSet)
    → IsSimple other
    → sequence_of ch (add_set other set).0 ≡ earliest (sequence_of ch set) (sequence_of ch other)
unfolding add_set add_at_sequence add_one_at
sequence_of-add_set ch [] set w = sym (earliest_zero (sequence_of ch set))
sequence_of-add_set ch ((name, v) ∷ other) set (n, f, w) =
    let q = sequence_of-add_set ch other (add_channel name v.sequence set).0 w in
    ap (λ d. sequence_of ch (add_at_sequence other 0 d).0) (add_one_at-simple name v set n)
    ∙ q
    ∙ rw (add_channel-earliest ch name v.sequence set, sequence_of-cons ch name v other)
        (elim (Bool-cases (str_eq name ch)) [
          | inl same ↦
              let z =
                sequence_of-none ch other
                  (ap (λ k. find k other) (sym ((str_eq_iff name ch).0 same)) ∙ f) in
              rw (same, z) (earliest_zero (earliest (sequence_of ch set) v.sequence))
          | inr differs ↦ rw differs refl
        ])
