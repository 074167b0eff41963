-- ===== src/ChangeLog/Window.antt =====
-- What channels/change_log.go's log answers when its entries are in rising sequence.
use mathlib.Core.List.{◌++◌}
use sync_gateway.Prelude.{
  ℕ, zero, suc, ◌+◌, ◌-◌, ◌<◌, ◌≤◌, ◌≡◌, refl, sym, Bool, true, false, some, List, [], ◌∷◌, arith,
  ltb, ◌==◌, ◌||◌, if◌then◌else◌, length, take, drop, Bool-cases, inl, inr,
}
use sync_gateway.LogEntry.{LogEntry}
use sync_gateway.ChangeLog.{
  ChangeLog, check_valid, is_empty, add, raise_since, truncate_to, after_entry, entries_after,
  filter_after, last_or, last_sequence,
}

-- Sequences rise along the list, from above a bound.
abbrev pub Rises : ℕ → List LogEntry → Type 0
Rises n [] = Unit {0}
Rises n (e ∷ es) = (n < e.sequence) × Rises e.sequence es

-- Every entry is above `Since`, and the entries rise.
abbrev pub IsRising : ChangeLog → Type 0
IsRising l = Rises l.since l.entries

-- The entries above a sequence.
unfoldable pub above : ℕ → List LogEntry → List LogEntry
above after [] = []
above after (e ∷ es) = if ltb after e.sequence then e ∷ above after es else above after es

Rises-above : (n after : ℕ) (l : List LogEntry) → after ≤ n → Rises n l → above after l ≡ l
unfolding above
Rises-above n after [] le r = refl
Rises-above n after (e ∷ es) le r = ground (arith, Rises-above e.sequence after es)

unfoldable pub has_sequence : ℕ → List LogEntry → Bool
has_sequence s [] = false
has_sequence s (e ∷ es) = if e.sequence == s then true else has_sequence s es

has_sequence-lt : (n s : ℕ) (l : List LogEntry) → Rises n l → has_sequence s l ≡ true → n < s
unfolding has_sequence
has_sequence-lt n s [] r h = cc
has_sequence-lt n s (e ∷ es) r h = ground (arith, has_sequence-lt e.sequence s es r.1)

after_entry-above :
    (n after : ℕ) (l : List LogEntry)
    → Rises n l
    → after_entry after l ≡ (if has_sequence after l then above after l else [])
unfolding after_entry above has_sequence
after_entry-above n after [] r = ground arith
after_entry-above n after (e ∷ es) r = ground (
  arith,
  after_entry-above e.sequence after es r.1,
  has_sequence-lt e.sequence after es r.1,
  Rises-above e.sequence after es,
)

Rises-after : (n after : ℕ) (l : List LogEntry) → Rises n l → Rises after (above after l)
unfolding above
Rises-after n after [] r = tt
Rises-after n after (e ∷ es) r =
    ground (arith, Rises-after e.sequence after es r.1, Rises-above e.sequence after es)

-- Of a log whose entries rise above `Since`, the entries after a sequence are those above it if it is
-- `Since` or an entry's, and none otherwise.
pub entries_after-above :
    (after : ℕ) (l : ChangeLog)
    → IsRising l
    → entries_after after l ≡ (
        if after == l.since
        then above after l.entries
        else if has_sequence after l.entries
        then above after l.entries
        else [])
unfolding entries_after
entries_after-above after l r =
    ground (arith, after_entry-above l.since after l.entries r, Rises-above l.since after l.entries)

raise_since-cons :
    (s : ℕ) (e : LogEntry) (es : List LogEntry)
    → s < e.sequence
    → raise_since s (e ∷ es) ≡ raise_since e.sequence es
unfolding raise_since
raise_since-cons s e es lt = ground arith

above_skip :
    (w : ℕ) (e : LogEntry) (es : List LogEntry)
    → ltb w e.sequence ≡ false
    → above w (e ∷ es) ≡ above w es
unfolding above
above_skip w e es h = rw h refl

Rises-drop :
    (n s : ℕ) (l : List LogEntry)
    → Rises s l
    → (Rises (raise_since s (take n l)) (drop n l))
      × (drop n l ≡ above (raise_since s (take n l)) l)
      × (s ≤ raise_since s (take n l))
Rises-drop zero s l r =
    unfold raise_since in (r, sym (Rises-above s s l (omega arith) r), omega arith)
Rises-drop (suc n) s [] r = unfold raise_since above in (tt, refl, omega arith)
Rises-drop (suc n) s (e ∷ es) r =
    let i = Rises-drop n e.sequence es r.1 in
    let stays : ltb (raise_since e.sequence (take n es)) e.sequence ≡ false = ground (arith, i.2) in
    rw (raise_since-cons s e (take n es) r.0, above_skip _ e es stays)
      (i.0, i.1, omega (arith, i.2))

length-drop : (n : ℕ) (l : List LogEntry) → length (drop n l) ≡ length l - n
length-drop zero l = omega arith
length-drop (suc n) [] = omega arith
length-drop (suc n) (e ∷ es) = omega (arith, length-drop n es)

-- Truncation of a log whose entries rise above `Since` to a maximum length leaves such a log, with
-- exactly the entries above its new `Since`, which has not fallen, and no more of them than the
-- maximum; the number that it returns is that of the entries that went.
pub truncate_to-IsRising :
    (max_length : ℕ) (l : ChangeLog)
    → IsRising l
    → let r = truncate_to max_length l in
      IsRising r.0
      × (r.0.entries ≡ above r.0.since l.entries)
      × (l.since ≤ r.0.since)
      × (length r.0.entries ≤ max_length)
      × (r.1 + length r.0.entries ≡ length l.entries)
unfolding truncate_to
truncate_to-IsRising max_length l r = elim (Bool-cases (ltb 0 (length l.entries - max_length))) [
  | inl long ↦
      let (i, j, k) = Rises-drop (length l.entries - max_length) l.since l.entries r in
      let d = length-drop (length l.entries - max_length) l.entries in
      rw long (i, j, k, ground (arith, d), ground (arith, d))
  | inr short ↦ rw short (
    r,
    sym (Rises-above l.since l.since l.entries (omega arith) r),
    omega arith,
    ground arith,
    omega arith,
  )
]

-- `FilterAfter` from `Since` on keeps the entries rising above the new `Since`.
pub filter_after-IsRising :
    (after : ℕ) (l : ChangeLog) → IsRising l → l.since ≤ after → IsRising (filter_after after l)
unfolding filter_after
filter_after-IsRising after l r le = elim (Bool-cases (ltb l.since after)) [
  | inl later ↦
      let other : (after == l.since) ≡ false = ground arith in
      rw (later, other, after_entry-above l.since after l.entries r)
        (elim (Bool-cases (has_sequence after l.entries)) [
          | inl here ↦ rw here (Rises-after l.since after l.entries r)
          | inr gone ↦ rw gone tt
        ])
  | inr now ↦ let same : (after == l.since) ≡ true = ground arith in rw (now, same) r
]

Rises-append :
    (n : ℕ) (l : List LogEntry) (e : LogEntry)
    → Rises n l
    → last_or n l < e.sequence
    → Rises n (l ++ e ∷ [])
unfolding last_or
Rises-append n [] e r lt = (lt, tt)
Rises-append n (x ∷ xs) e r lt = (r.0, Rises-append x.sequence xs e r.1 lt)

last_or-ge : (n : ℕ) (l : List LogEntry) → Rises n l → n ≤ last_or n l
unfolding last_or
last_or-ge n [] r = omega arith
last_or-ge n (x ∷ xs) r = omega (arith, last_or-ge x.sequence xs r.1)

last_or-append : (n : ℕ) (l : List LogEntry) (e : LogEntry) → last_or n (l ++ e ∷ []) ≡ e.sequence
unfolding last_or
last_or-append n [] e = refl
last_or-append n (x ∷ xs) e = last_or-append x.sequence xs e

since_added :
    (e : LogEntry) (s : ℕ) (l : List LogEntry)
    → Rises s l
    → last_or s l < e.sequence
    → Rises (if is_empty l || e.sequence == s then e.sequence - 1 else s) (l ++ e ∷ [])
unfolding last_or is_empty
since_added e s [] r lt = (omega arith, tt)
since_added e s (x ∷ xs) r lt =
    let above_all = last_or-ge x.sequence xs r.1 in
    let other : (e.sequence == s) ≡ false = ground (arith, above_all) in
    rw other (r.0, Rises-append x.sequence xs e r.1 lt)

-- A valid entry above the last sequence is added without a panic: the log stays one whose entries
-- rise above `Since`, and the entry's sequence is the last one.
pub add-IsRising :
    (e : LogEntry) (l : ChangeLog)
    → IsRising l
    → check_valid e ≡ true
    → last_sequence l < e.sequence
    → (r : ChangeLog) × (add e l ≡ some r) × IsRising r × (last_sequence r ≡ e.sequence)
unfolding add last_sequence
add-IsRising e l r v lt =
    (_, rw v refl, since_added e l.since l.entries r lt, last_or-append _ l.entries e)
