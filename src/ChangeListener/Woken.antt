-- ===== src/ChangeListener/Woken.antt =====
-- When db/change_listener.go's notifications wake a waiter.
use sync_gateway.Prelude.{
  ℕ, ◌+◌, ◌%◌, ◌^◌, ◌≤◌, ◌<◌, ◌≡◌, refl, ◌∙◌, inl, inr, true, false, none, some, List, [], ◌∷◌, Str,
  Bool-cases, arith, length,
}
use sync_gateway.ChannelCache.{has_id}
use sync_gateway.ChangeListener.{ChangeListener, set_counts, notify, current_count, wait_pass}
use sync_gateway.ChangeListener.Notified.{
  IsCounted, key_count-set_counts, notify_all, have_common, any_common, max_count_below,
  max_count_grows, max_count_kept, max_count_raised,
}

-- What a notification that does not wrap the counter does to the counts.
record Notified (keys : List Str) (set : List Str) (listener next : ChangeListener) : Type 0 where
  counted : IsCounted next
  step : next.counter ≤ listener.counter + 1
  terminates : next.terminate_check_counter ≡ listener.terminate_check_counter
  grows : current_count keys listener ≤ current_count keys next
  kept : have_common keys set ≡ false → current_count keys next ≡ current_count keys listener
  raised : have_common keys set ≡ true → current_count keys listener < current_count keys next

unwrapped : (n : ℕ) → n + 1 < 2 ^ 64 → (n + 1) % 2 ^ 64 ≡ n + 1
unwrapped n h = omega arith

have_common_none : (keys : List Str) → have_common keys [] ≡ false
unfolding have_common has_id
have_common_none [] = refl
have_common_none (key ∷ keys) = have_common_none keys

notify-Notified :
    (keys set : List Str) (listener : ChangeListener)
    → IsCounted listener
    → listener.counter + 1 < 2 ^ 64
    → Notified keys set listener (notify set listener)
unfolding notify current_count
notify-Notified keys [] listener w l = record {
  counted = w;
  step = omega arith;
  terminates = refl;
  grows = omega arith;
  kept = λ h. refl;
  raised = λ h. let n = have_common_none keys in cc;
}
notify-Notified keys (key ∷ more) listener w l =
    let set = key ∷ more in
    let counts = listener.key_counts in
    let e = unwrapped listener.counter l in
    let n = listener.counter + 1 in
    rw e (record {
      counted = λ k. rw (key_count-set_counts k set n counts) (ground (arith, w k));
      step = omega arith;
      terminates = refl;
      grows =
          max_count_grows counts (set_counts set n counts) keys 0 0
            (λ k. rw (key_count-set_counts k set n counts) (ground (arith, w k))) (omega arith);
      kept = λ h. max_count_kept counts keys set n 0 h;
      raised = λ h.
          let r = max_count_raised counts keys set n 0 h in
          let b = max_count_below counts keys 0 listener.counter w (omega arith) in
          omega (arith, r, b);
    })

-- What some notifications come to.
record AllNotified (keys : List Str) (sets : List (List Str)) (listener next : ChangeListener)
    : Type 0 where
  terminates : next.terminate_check_counter ≡ listener.terminate_check_counter
  grows : current_count keys listener ≤ current_count keys next
  kept : any_common keys sets ≡ false → current_count keys next ≡ current_count keys listener
  raised : any_common keys sets ≡ true → current_count keys listener < current_count keys next

notify_all-AllNotified :
    (keys : List Str) (sets : List (List Str)) (listener : ChangeListener)
    → IsCounted listener
    → listener.counter + length sets < 2 ^ 64
    → AllNotified keys sets listener (notify_all sets listener)
unfolding notify_all any_common
notify_all-AllNotified keys [] listener w l = record {
  terminates = refl;
  grows = omega arith;
  kept = λ h. refl;
  raised = λ h. cc;
}
notify_all-AllNotified keys (set ∷ sets) listener w l =
    let a = notify-Notified keys set listener w (omega (arith, l)) in
    let s = a.step in
    let b =
      notify_all-AllNotified keys sets (notify set listener) a.counted (omega (arith, l, s)) in
    let g = a.grows in
    let g' = b.grows in
    record {
      terminates = b.terminates ∙ a.terminates;
      grows = omega (arith, g, g');
      kept = λ h. elim (Bool-cases (have_common keys set)) [
        | inl q ↦ absurd (ground (arith, q, h))
        | inr q ↦ b.kept (rw q at h) ∙ a.kept q
      ];
      raised = λ h. elim (Bool-cases (have_common keys set)) [
        | inl q ↦ let r = a.raised q in omega (arith, r, g')
        | inr q ↦ let r = b.raised (rw q at h) in omega (arith, r, g)
      ];
    }

-- A waiter that took the count of its keys from a listener is woken by later notifications just if
-- one of them has a key of the waiter: the wait on the listener then returns a higher count, and
-- otherwise goes on. No key's count was above the counter, which does not pass 2^64.
pub wait_pass-notify_all :
    (keys : List Str) (sets : List (List Str)) (listener : ChangeListener)
    → IsCounted listener
    → listener.counter + length sets < 2 ^ 64
    → (any_common keys sets ≡ false
        → wait_pass keys
            (current_count keys listener)
            listener.terminate_check_counter
            (notify_all sets listener)
          ≡ none)
      × (any_common keys sets ≡ true
          → (count : ℕ) × (current_count keys listener < count)
            × (wait_pass keys
                  (current_count keys listener)
                  listener.terminate_check_counter
                  (notify_all sets listener)
                ≡ some (count, listener.terminate_check_counter)))
unfolding wait_pass current_count
wait_pass-notify_all keys sets listener w l =
    let n = notify_all-AllNotified keys sets listener w l in
    let next = notify_all sets listener in
    (
      λ h. rw (n.terminates, n.kept h) (ground arith),
      λ h. let r = n.raised h in (current_count keys next, r, rw n.terminates (ground (arith, r))),
    )
