-- ===== src/LateLog/Purging.antt =====
-- How a purge and a new entry change the late log of db/channel_cache.go.
use sync_gateway.Prelude.{
  ℕ, ◌<◌, ◌≡◌, refl, ap, true, false, some, List, [], ◌∷◌, ◌++◌, arith, ◌==◌, if◌then◌else◌, ==_iff,
  Bool-cases, inl, inr,
}
use mathlib.Core.Path.{subst}
use mathlib.Core.Option.{some-injective}
use sync_gateway.LateLog.{LateLogEntry, purge, last_sequence, entries_after}
use sync_gateway.LateLog.Counts.{
  count, has_entry, Distinct, Counted, has_entry-last, last_sequence-cons,
}

-- What a purge leaves.
pub record Purged (cs : List ℕ) (es r : List LateLogEntry) : Type 0 where
  pub counted : Counted cs r
  pub distinct : Distinct r
  pub last : last_sequence r ≡ last_sequence es
  pub keeps : (s : ℕ) → 0 < count s cs → has_entry s es ≡ true → has_entry s r ≡ true

pub purge-Purged :
    (cs : List ℕ) (es : List LateLogEntry) → Distinct es → Counted cs es → Purged cs es (purge es)
unfolding purge last_sequence has_entry
purge-Purged cs [] d k = record { counted = tt; distinct = tt; last = refl; keeps = λ s p h. h }
purge-Purged cs (e ∷ []) d k = record { counted = k; distinct = d; last = refl; keeps = λ s p h. h }
purge-Purged cs (e ∷ f ∷ es) d k = elim (Bool-cases (e.listener_count == 0)) [
  | inl idle ↦
      let i = purge-Purged cs (f ∷ es) d.1 k.1 in
      rw idle (record {
        counted = i.counted;
        distinct = i.distinct;
        last = i.last;
        keeps = λ s p h. i.keeps s p (listened s p h idle);
      })
  | inr busy ↦ rw busy (record { counted = k; distinct = d; last = refl; keeps = λ s p h. h })
]
  where
    listened :
        (s : ℕ)
        → 0 < count s cs
        → has_entry s (e ∷ f ∷ es) ≡ true
        → (e.listener_count == 0) ≡ true
        → has_entry s (f ∷ es) ≡ true
    listened s p h idle = elim (Bool-cases (e.sequence == s)) [
      | inl here ↦
          let q : e.sequence ≡ s = (==_iff _ _).0 here in
          absurd (ground (arith, k.0, ap (λ r. count r cs) q))
      | inr there ↦ rw there at h
    ]

pub purge-ends :
    (e : LateLogEntry) (es : List LateLogEntry)
    → has_entry (last_sequence (purge (e ∷ es))) (purge (e ∷ es)) ≡ true
unfolding purge
purge-ends e [] = has_entry-last e []
purge-ends e (f ∷ es) = elim (Bool-cases (e.listener_count == 0)) [
  | inl idle ↦ rw idle (purge-ends f es)
  | inr busy ↦ rw busy (has_entry-last e (f ∷ es))
]

pub purge-append_ends :
    (e : LateLogEntry) (es : List LateLogEntry)
    → has_entry (last_sequence (purge (es ++ e ∷ []))) (purge (es ++ e ∷ [])) ≡ true
purge-append_ends e [] = purge-ends e []
purge-append_ends e (f ∷ es) = purge-ends f (es ++ e ∷ [])

-- A new entry at the end.
pub append-Counted :
    (cs : List ℕ) (e : LateLogEntry) (es : List LateLogEntry)
    → e.listener_count ≡ count e.sequence cs
    → Counted cs es
    → Counted cs (es ++ e ∷ [])
append-Counted cs e [] q k = (q, tt)
append-Counted cs e (f ∷ es) q k = (k.0, append-Counted cs e es q k.1)

pub has_entry-append :
    (s : ℕ) (e : LateLogEntry) (es : List LateLogEntry)
    → has_entry s (es ++ e ∷ []) ≡ (if has_entry s es then true else e.sequence == s)
unfolding has_entry
has_entry-append s e [] = ground arith
has_entry-append s e (f ∷ es) = ground (arith, has_entry-append s e es)

pub append-Distinct :
    (e : LateLogEntry) (es : List LateLogEntry)
    → has_entry e.sequence es ≡ false
    → Distinct es
    → Distinct (es ++ e ∷ [])
unfolding has_entry
append-Distinct e [] n d = (refl, tt)
append-Distinct e (f ∷ es) n d =
    (ground (arith, has_entry-append f.sequence e es), append-Distinct e es (ground arith) d.1)

pub last_sequence-append :
    (e : LateLogEntry) (es : List LateLogEntry) → last_sequence (es ++ e ∷ []) ≡ e.sequence
unfolding last_sequence
last_sequence-append e [] = refl
last_sequence-append e (f ∷ []) = refl
last_sequence-append e (f ∷ g ∷ es) = last_sequence-append e (g ∷ es)

-- A feed finds the entry of the sequence that it last saw.
pub entries_after-some :
    (s : ℕ) (es : List LateLogEntry)
    → has_entry s es ≡ true
    → (rest : List LateLogEntry) × (entries_after s es ≡ some rest)
unfolding entries_after has_entry
entries_after-some s [] h = cc
entries_after-some s (e ∷ es) h = elim (Bool-cases (e.sequence == s)) [
  | inl here ↦ (es, rw here refl)
  | inr there ↦ let i = entries_after-some s es (rw there at h) in (i.0, rw there i.1)
]

-- What a feed has not seen ends with the last entry.
pub has_entry-after :
    (s : ℕ) (es rest : List LateLogEntry)
    → entries_after s es ≡ some rest
    → (last_sequence es == s) ≡ false
    → has_entry s es ≡ true
    → has_entry (last_sequence es) rest ≡ true
unfolding entries_after has_entry
has_entry-after s [] rest q n h = cc
has_entry-after s (e ∷ []) rest q n h = unfold last_sequence in ground arith
has_entry-after s (e ∷ f ∷ es) rest q n h = elim (Bool-cases (e.sequence == s)) [
  | inl here ↦
      let r : f ∷ es ≡ rest = some-injective _ _ (rw here at q) in
      rw (last_sequence-cons e f es)
        (subst (λ l. has_entry (last_sequence (f ∷ es)) l ≡ true) r (has_entry-last f es))
  | inr there ↦ rw (last_sequence-cons e f es) (
      has_entry-after s (f ∷ es) rest (rw there at q) (rw (last_sequence-cons e f es) at n)
        (rw there at h))
]
