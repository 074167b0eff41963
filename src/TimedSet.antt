-- ===== src/TimedSet.antt =====
-- channels/timed_set.go: channels with the sequence at which each was added, an association list.
-- Updates in place return the new set. Sets of names are lists. The JSON forms are not modelled.
pub mod Updates
use sync_gateway.Prelude.{
  ℕ, Bool, true, false, ◌&&◌, ◌||◌, Option, none, some, List, [], ◌∷◌, ltb, ◌==◌, if◌then◌else◌,
  Str, str_eq,
}
use sync_gateway.ChannelCache.{has_id}

pub record VbSequence : Type 0 where
  pub vb_no : Option ℕ
  pub sequence : ℕ

unfoldable pub new_vb_sequence : ℕ → ℕ → VbSequence
new_vb_sequence vb_no sequence = record { vb_no = some vb_no; sequence = sequence }

unfoldable pub new_vb_simple_sequence : ℕ → VbSequence
new_vb_simple_sequence sequence = record { vb_no = none; sequence = sequence }

unfoldable pub same_vb_no : Option ℕ → Option ℕ → Bool
same_vb_no none none = true
same_vb_no none (some n) = false
same_vb_no (some m) none = false
same_vb_no (some m) (some n) = m == n

unfoldable pub vb_equals : VbSequence → VbSequence → Bool
unfolding same_vb_no
vb_equals v other = v.sequence == other.sequence && same_vb_no v.vb_no other.vb_no

abbrev pub TimedSet : Type 0
TimedSet = List (Str × VbSequence)

unfoldable pub at_sequence : List Str → ℕ → TimedSet
unfolding new_vb_simple_sequence
at_sequence [] sequence = []
at_sequence (name ∷ names) sequence =
    (name, new_vb_simple_sequence sequence) ∷ at_sequence names sequence

unfoldable pub all_channels : TimedSet → List Str
all_channels [] = []
all_channels ((name, v) ∷ set) = name ∷ all_channels set

unfoldable pub find : Str → TimedSet → Option VbSequence
find ch [] = none
find ch ((name, v) ∷ set) = if str_eq name ch then some v else find ch set

unfoldable pub contains_channel : Str → TimedSet → Bool
unfolding find
contains_channel ch set = elim (find ch set) [ none ↦ false | some v ↦ true ]

-- `set[ch] = v`.
unfoldable pub assign : Str → VbSequence → TimedSet → TimedSet
assign ch v [] = (ch, v) ∷ []
assign ch v ((name, w) ∷ set) =
    let rest = (name, w) ∷ assign ch v set in if str_eq name ch then (name, v) ∷ set else rest

-- The first loop of `UpdateAtSequence`: members that the other set does not have go.
unfoldable pub keep_members : List Str → TimedSet → TimedSet × Bool
unfolding has_id
keep_members other [] = ([], false)
keep_members other ((name, v) ∷ set) =
    let (rest, changed) = keep_members other set in
    if has_id name other then ((name, v) ∷ rest, changed) else (rest, true)

-- The second: members that only the other set has come in.
unfoldable pub add_members : List Str → ℕ → TimedSet × Bool → TimedSet × Bool
unfolding contains_channel assign new_vb_simple_sequence
add_members [] sequence (set, changed) = (set, changed)
add_members (name ∷ other) sequence (set, changed) =
    if contains_channel name set
    then add_members other sequence (set, changed)
    else add_members other sequence (assign name (new_vb_simple_sequence sequence) set, true)

unfoldable pub update_at_sequence : List Str → ℕ → TimedSet → TimedSet × Bool
unfolding keep_members add_members
update_at_sequence other sequence set = add_members other sequence (keep_members other set)

unfoldable pub all_in : List Str → List Str → Bool
all_in [] other = true
all_in (name ∷ names) other = if has_id name other then all_in names other else false

-- `Equals`: the names, without the sequences.
unfoldable pub set_equals : TimedSet → List Str → Bool
unfolding all_in all_channels
set_equals set other = all_in (all_channels set) other && all_in other (all_channels set)

-- The sequence of a channel, 0 if it is not there.
unfoldable pub sequence_of : Str → TimedSet → ℕ
unfolding find
sequence_of ch set = elim (find ch set) [ none ↦ 0 | some v ↦ v.sequence ]

unfoldable pub add_channel : Str → ℕ → TimedSet → TimedSet × Bool
unfolding sequence_of assign new_vb_simple_sequence
add_channel ch at set =
    if ltb 0 at && (sequence_of ch set == 0 || ltb at (sequence_of ch set))
    then (assign ch (new_vb_simple_sequence at) set, true)
    else (set, false)

-- One channel of `AddAtSequence`.
unfoldable pub add_one_at : Str → VbSequence → ℕ → TimedSet → TimedSet × Bool
unfolding add_channel assign
add_one_at ch v at set = elim (v.vb_no) [
  | some n ↦ (assign ch v set, true)
  | none ↦ add_channel ch (if ltb v.sequence at then at else v.sequence) set
]

unfoldable pub add_at_sequence : TimedSet → ℕ → TimedSet → TimedSet × Bool
unfolding add_one_at
add_at_sequence [] at set = (set, false)
add_at_sequence ((ch, v) ∷ other) at set =
    let (set', changed) = add_one_at ch v at set in
    let (r, more) = add_at_sequence other at set' in (r, changed || more)

unfoldable pub add_set : TimedSet → TimedSet → TimedSet × Bool
unfolding add_at_sequence
add_set other set = add_at_sequence other 0 set

unfoldable pub add_at_vb_sequence : TimedSet → VbSequence → TimedSet → TimedSet × Bool
unfolding assign
add_at_vb_sequence [] v set = (set, false)
add_at_vb_sequence ((ch, w) ∷ other) v set =
    ((add_at_vb_sequence other v (assign ch v set)).0, true)

unfoldable pub update_if_present : TimedSet → TimedSet → TimedSet
unfolding find
update_if_present other [] = []
update_if_present other ((ch, v) ∷ set) =
    (ch, elim (find ch other) [ none ↦ v | some w ↦ w ]) ∷ update_if_present other set
