-- ===== src/ChangeListener.antt =====
-- db/change_listener.go: the counts of the keys that changed, and the waiters on them. A map is an
-- association list. A wait on the condition variable is the state in which no answer is ready. The
-- feed's connection, its channels and its locks are not modelled.
pub mod Notified
pub mod Woken
use sync_gateway.Prelude.{
  ℕ, ◌+◌, ◌%◌, ◌^◌, ◌==◌, Bool, true, false, not, ◌||◌, ◌&&◌, Option, none, some, List, [], ◌∷◌,
  ◌++◌, ltb, if◌then◌else◌, Str, str_eq, codes,
}

pub record ChangeListener : Type 0 where
  pub counter : ℕ
  pub terminate_check_counter : ℕ
  pub key_counts : List (Str × ℕ)
  pub track_docs : Bool

unfoldable pub init : ChangeListener
init = record { counter = 1; terminate_check_counter = 0; key_counts = []; track_docs = false }

-- `keyCounts[key]`, 0 for a missing key.
unfoldable pub key_count : Str → List (Str × ℕ) → ℕ
key_count key [] = 0
key_count key ((k, n) ∷ counts) = if str_eq k key then n else key_count key counts

unfoldable pub set_count : Str → ℕ → List (Str × ℕ) → List (Str × ℕ)
set_count key n [] = (key, n) ∷ []
set_count key n ((k, m) ∷ counts) =
    let rest = (k, m) ∷ set_count key n counts in if str_eq k key then (k, n) ∷ counts else rest

unfoldable pub set_counts : List Str → ℕ → List (Str × ℕ) → List (Str × ℕ)
set_counts [] n counts = counts
set_counts (key ∷ keys) n counts = set_counts keys n (set_count key n counts)

unfoldable pub notify : List Str → ChangeListener → ChangeListener
notify [] listener = listener
notify (key ∷ keys) listener =
    let counter = (listener.counter + 1) % 2 ^ 64 in
    record listener {
      counter = counter;
      key_counts = set_counts (key ∷ keys) counter listener.key_counts;
    }

abbrev pub max_uint64 : ℕ
max_uint64 = 18446744073709551615

unfoldable pub notify_check_for_termination : List Str → ChangeListener → ChangeListener
notify_check_for_termination [] listener = listener
notify_check_for_termination (key ∷ keys) listener = record listener {
  terminate_check_counter =
      if ltb listener.terminate_check_counter max_uint64
      then listener.terminate_check_counter + 1
      else 0;
}

unfoldable pub notify_stopping : ChangeListener → ChangeListener
notify_stopping listener = record listener { counter = 0; key_counts = [] }

unfoldable pub max_count : List (Str × ℕ) → List Str → ℕ → ℕ
max_count counts [] max = max
max_count counts (key ∷ keys) max =
    max_count counts keys (if ltb max (key_count key counts) then key_count key counts else max)

unfoldable pub current_count : List Str → ChangeListener → ℕ
current_count keys listener = max_count listener.key_counts keys 0

-- One pass of the loop of `Wait`: what it returns, or that it waits.
unfoldable pub wait_pass : List Str → ℕ → ℕ → ChangeListener → Option (ℕ × ℕ)
wait_pass keys counter terminate_check_counter listener =
    if not (current_count keys listener == counter)
      || not (listener.terminate_check_counter == terminate_check_counter)
    then some (current_count keys listener, listener.terminate_check_counter)
    else none

-- The loop, over the listener as each broadcast leaves it and whether it was terminated by then;
-- `none` while it still waits.
unfoldable pub wait :
    List Str → ℕ → ℕ → ChangeListener → List (ChangeListener × Bool) → Option (ℕ × ℕ)
wait keys counter tcc listener [] = wait_pass keys counter tcc listener
wait keys counter tcc listener ((next, terminated) ∷ broadcasts) =
    let later = wait keys counter tcc next broadcasts in
    elim (wait_pass keys counter tcc listener) as (λ o. Option (ℕ × ℕ)) [
      | some r ↦ some r
      | none ↦ if terminated then some (0, 0) else later
    ]

pub record ChangeWaiter : Type 0 where
  pub keys : List Str
  pub user_keys : List Str
  pub last_counter : ℕ
  pub last_terminate_check_counter : ℕ
  pub last_user_count : ℕ

unfoldable pub new_waiter : List Str → ChangeListener → ChangeWaiter
new_waiter keys listener = record {
  keys = keys;
  user_keys = [];
  last_counter = current_count keys listener;
  last_terminate_check_counter = listener.terminate_check_counter;
  last_user_count = 0;
}

abbrev pub user_key_prefix : Str
user_key_prefix = codes "_sync:user:"

abbrev pub role_key_prefix : Str
role_key_prefix = codes "_sync:role:"

unfoldable pub prefixed : Str → List Str → List Str
prefixed prefix [] = []
prefixed prefix (name ∷ names) = (prefix ++ name) ∷ prefixed prefix names

-- `NewWaiterWithChannels`, for a user's name and the names of the roles, or no user.
unfoldable pub new_waiter_with_channels :
    List Str → Option (Str × List Str) → ChangeListener → ChangeWaiter
new_waiter_with_channels chans none listener = new_waiter chans listener
new_waiter_with_channels chans (some (name, roles)) listener =
    let user_keys = (user_key_prefix ++ name) ∷ prefixed role_key_prefix roles in
    record (new_waiter (chans ++ user_keys) listener) {
      user_keys = user_keys;
      last_user_count = current_count user_keys listener;
    }

pub data WaitResult : Type 0 where
  waiter_closed waiter_has_changes waiter_check_terminated : WaitResult

-- What the waiter's `Wait` makes of the counters that the listener returned.
unfoldable pub woken_by : ℕ × ℕ → ChangeListener → ChangeWaiter → WaitResult × ChangeWaiter
woken_by (counter, tcc) listener waiter =
    let waiter' : ChangeWaiter = record waiter {
      last_counter = counter;
      last_terminate_check_counter = tcc;
      last_user_count = elim (waiter.user_keys) as (λ keys. ℕ) [
        | [] ↦ waiter.last_user_count
        | ◌∷◌ k ks ↦ current_count waiter.user_keys listener
      ];
    } in
    (
      if ltb waiter.last_counter counter
          then waiter_has_changes
          else if not (tcc == waiter.last_terminate_check_counter)
          then waiter_check_terminated
          else waiter_closed,
      waiter',
    )

unfoldable pub update_channels : List Str → ChangeWaiter → ChangeWaiter
update_channels chans waiter = record waiter { keys = chans ++ waiter.user_keys }

pub data FeedOp : Type 0 where
  mutation deletion other_op : FeedOp

unfoldable pub has_prefix : Str → Str → Bool
has_prefix s [] = true
has_prefix [] (d ∷ prefix) = false
has_prefix (c ∷ s) (d ∷ prefix) = c == d && has_prefix s prefix

-- What an event led to: the calls of `OnDocChanged`, the passing on to the document channel, and
-- whether a checkpoint must be kept.
pub record Processed : Type 0 where
  pub listener : ChangeListener
  pub doc_changed : Bool
  pub passed_on : Bool
  pub requires_checkpoint : Bool

unfoldable pub is_mutation : FeedOp → Bool
is_mutation mutation = true
is_mutation deletion = false
is_mutation other_op = false

-- The handling of a mutation or a deletion of a key; the second argument is whether `OnDocChanged` is
-- set.
unfoldable pub process_key : FeedOp → Bool → Str → ChangeListener → Processed
process_key opcode on_doc_changed key listener =
    if has_prefix key user_key_prefix || has_prefix key role_key_prefix
    then record {
      listener = notify (key ∷ []) listener;
      doc_changed = on_doc_changed && is_mutation opcode;
      passed_on = false;
      requires_checkpoint = true;
    }
    else if has_prefix key (codes "_sync:unusedSeq:")
    then record {
      listener = listener;
      doc_changed = on_doc_changed;
      passed_on = false;
      requires_checkpoint = true;
    }
    else if has_prefix key (codes "_sync:dcp_ck:")
    then record {
      listener = listener;
      doc_changed = false;
      passed_on = false;
      requires_checkpoint = false;
    }
    else if not (has_prefix key (codes "_sync:")) && not (has_prefix key (codes "_idx"))
    then record {
      listener = listener;
      doc_changed = on_doc_changed;
      passed_on = listener.track_docs;
      requires_checkpoint = true;
    }
    else record {
      listener = listener;
      doc_changed = false;
      passed_on = false;
      requires_checkpoint = true;
    }

unfoldable pub process_feed_event : FeedOp → Bool → Str → ChangeListener → Processed
process_feed_event mutation on_doc_changed key listener =
    process_key mutation on_doc_changed key listener
process_feed_event deletion on_doc_changed key listener =
    process_key deletion on_doc_changed key listener
process_feed_event other_op on_doc_changed key listener = record {
  listener = listener;
  doc_changed = false;
  passed_on = false;
  requires_checkpoint = true;
}
