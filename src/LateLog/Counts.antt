-- ===== src/LateLog/Counts.antt =====
-- How the operations on the late log of db/channel_cache.go move its listener counts.
use sync_gateway.Prelude.{
  ℕ, ◌+◌, ◌-◌, ◌^◌, ◌%◌, ◌<◌, ◌≤◌, ◌≡◌, refl, ap, sym, ◌∙◌, Bool, true, false, some, List, [], ◌∷◌,
  arith, ◌==◌, if◌then◌else◌, length, ==_iff, Bool-cases, inl, inr,
}
use sync_gateway.LateLog.{
  LateLogEntry, add_listener, remove_listener, update_first, update_last, last_sequence,
}

-- How many feeds of a list last saw a sequence.
unfoldable pub count : ℕ → List ℕ → ℕ
count s [] = 0
count s (c ∷ cs) = if c == s then count s cs + 1 else count s cs

-- The feeds without one that last saw a sequence.
unfoldable pub without : ℕ → List ℕ → List ℕ
without s [] = []
without s (c ∷ cs) = if c == s then cs else c ∷ without s cs

unfoldable pub has_entry : ℕ → List LateLogEntry → Bool
has_entry s [] = false
has_entry s (e ∷ es) = if e.sequence == s then true else has_entry s es

abbrev pub Distinct : List LateLogEntry → Type 0
Distinct [] = Unit {0}
Distinct (e ∷ es) = (has_entry e.sequence es ≡ false) × Distinct es

-- Every entry counts the feeds that last saw it.
abbrev pub Counted : List ℕ → List LateLogEntry → Type 0
Counted cs [] = Unit {0}
Counted cs (e ∷ es) = (e.listener_count ≡ count e.sequence cs) × Counted cs es

pub count-le : (s : ℕ) (cs : List ℕ) → count s cs ≤ length cs
unfolding count
count-le s [] = omega arith
count-le s (c ∷ cs) = ground (arith, count-le s cs)

pub count-without :
    (r s : ℕ) (cs : List ℕ)
    → count r (without s cs) ≡ (if r == s then count r cs - 1 else count r cs)
unfolding count without
count-without r s [] = ground arith
count-without r s (c ∷ cs) = ground (arith, count-without r s cs)

pub length-without : (s : ℕ) (cs : List ℕ) → length (without s cs) ≤ length cs
unfolding without
length-without s [] = omega arith
length-without s (c ∷ cs) = ground (arith, length-without s cs)

pub length-without_found :
    (s : ℕ) (cs : List ℕ) → 0 < count s cs → length (without s cs) + 1 ≡ length cs
unfolding without count
length-without_found s [] p = absurd (omega (arith, p))
length-without_found s (c ∷ cs) p = ground (arith, length-without_found s cs)

-- A feed that stays where it is.
pub count-stay : (r s : ℕ) (cs : List ℕ) → 0 < count s cs → count r (s ∷ without s cs) ≡ count r cs
unfolding count
count-stay r s cs p = elim (Bool-cases (s == r)) [
  | inl same ↦
      let q : s ≡ r = (==_iff _ _).0 same in
      ground (arith, count-without r s cs, ap (λ k. count k cs) q)
  | inr other ↦ ground (arith, count-without r s cs)
]

pub Counted-same :
    (cs ds : List ℕ) (es : List LateLogEntry)
    → ((r : ℕ) → count r ds ≡ count r cs)
    → Counted cs es
    → Counted ds es
Counted-same cs ds [] q k = tt
Counted-same cs ds (e ∷ es) q k = (k.0 ∙ sym (q e.sequence), Counted-same cs ds es q k.1)

pub has_entry-update_last :
    (s : ℕ) (es : List LateLogEntry) → has_entry s (update_last add_listener es) ≡ has_entry s es
unfolding has_entry update_last add_listener
has_entry-update_last s [] = refl
has_entry-update_last s (e ∷ []) = refl
has_entry-update_last s (e ∷ f ∷ es) = ground (arith, has_entry-update_last s (f ∷ es))

pub update_last-Distinct :
    (es : List LateLogEntry) → Distinct es → Distinct (update_last add_listener es)
unfolding update_last add_listener
update_last-Distinct [] d = tt
update_last-Distinct (e ∷ []) d = d
update_last-Distinct (e ∷ f ∷ es) d =
    (has_entry-update_last e.sequence (f ∷ es) ∙ d.0, update_last-Distinct (f ∷ es) d.1)

pub last_sequence-update_last :
    (es : List LateLogEntry) → last_sequence (update_last add_listener es) ≡ last_sequence es
unfolding last_sequence update_last add_listener
last_sequence-update_last [] = refl
last_sequence-update_last (e ∷ []) = refl
last_sequence-update_last (e ∷ f ∷ []) = refl
last_sequence-update_last (e ∷ f ∷ g ∷ es) = last_sequence-update_last (f ∷ g ∷ es)

pub has_entry-last :
    (e : LateLogEntry) (es : List LateLogEntry) → has_entry (last_sequence (e ∷ es)) (e ∷ es) ≡ true
unfolding has_entry last_sequence
has_entry-last e [] = ground arith
has_entry-last e (f ∷ es) = ground (arith, has_entry-last f es)

pub last_sequence-cons :
    (e f : LateLogEntry) (es : List LateLogEntry)
    → last_sequence (e ∷ f ∷ es) ≡ last_sequence (f ∷ es)
unfolding last_sequence
last_sequence-cons e f es = refl

last-remove_listener :
    (e : LateLogEntry) (es : List LateLogEntry)
    → last_sequence (remove_listener e ∷ es) ≡ last_sequence (e ∷ es)
unfolding last_sequence remove_listener
last-remove_listener e [] = refl
last-remove_listener e (f ∷ es) = refl

last-ne :
    (s : ℕ) (e : LateLogEntry) (es : List LateLogEntry)
    → has_entry s (e ∷ es) ≡ false
    → (last_sequence (e ∷ es) == s) ≡ false
last-ne s e es n = elim (Bool-cases (last_sequence (e ∷ es) == s)) [
  | inl same ↦
      let q : last_sequence (e ∷ es) ≡ s = (==_iff _ _).0 same in
      let h : has_entry s (e ∷ es) ≡ true =
        ap (λ k. has_entry k (e ∷ es)) (sym q) ∙ has_entry-last e es in
      cc
  | inr other ↦ other
]

-- A feed that joins the last entry.
pub update_last-Counted :
    (cs : List ℕ) (es : List LateLogEntry)
    → length cs + 1 < 2 ^ 64
    → Distinct es
    → Counted cs es
    → Counted (last_sequence es ∷ cs) (update_last add_listener es)
unfolding update_last add_listener count last_sequence
update_last-Counted cs [] b d k = tt
update_last-Counted cs (e ∷ []) b d k =
    let n : (e.listener_count + 1) % 2 ^ 64 ≡ e.listener_count + 1 =
      omega (arith, count-le e.sequence cs) in
    (ground (arith, n), tt)
update_last-Counted cs (e ∷ f ∷ es) b d k =
    (rw (last-ne e.sequence f es d.0) k.0, update_last-Counted cs (f ∷ es) b d.1 k.1)

Counted-without :
    (s : ℕ) (cs : List ℕ) (es : List LateLogEntry)
    → has_entry s es ≡ false
    → Counted cs es
    → Counted (without s cs) es
unfolding has_entry
Counted-without s cs [] n k = tt
Counted-without s cs (e ∷ es) n k =
    (ground (arith, count-without e.sequence s cs), Counted-without s cs es (ground arith) k.1)

-- What is left when a feed leaves the entry of a sequence.
pub record Left (s : ℕ) (cs : List ℕ) (es : List LateLogEntry) : Type 0 where
  pub rest : List LateLogEntry
  pub found : update_first remove_listener s es ≡ some rest
  pub counted : Counted (without s cs) rest
  pub distinct : Distinct rest
  pub entries : (r : ℕ) → has_entry r rest ≡ has_entry r es
  pub last : last_sequence rest ≡ last_sequence es
  pub last_cons : (e : LateLogEntry) → last_sequence (e ∷ rest) ≡ last_sequence (e ∷ es)

-- A feed leaves the entry of the sequence that it last saw.
pub update_first-Left :
    (s : ℕ) (cs : List ℕ) (es : List LateLogEntry)
    → length cs < 2 ^ 64
    → 0 < count s cs
    → has_entry s es ≡ true
    → Distinct es
    → Counted cs es
    → Left s cs es
unfolding update_first has_entry
update_first-Left s cs [] b p h d k = cc
update_first-Left s cs (e ∷ es) b p h d k = elim (Bool-cases (e.sequence == s)) [
  | inl here ↦
      let q : e.sequence ≡ s = (==_iff _ _).0 here in
      let n : (e.listener_count + (2 ^ 64 - 1)) % 2 ^ 64 ≡ count e.sequence cs - 1 =
        omega (arith, count-le s cs, ap (λ k. count k cs) q) in
      record {
        rest = remove_listener e ∷ es;
        found = rw here refl;
        counted = (
          unfold remove_listener in ground (arith, n, count-without e.sequence s cs),
          Counted-without s cs es (rw q at d.0) k.1,
        );
        distinct = unfold remove_listener in d;
        entries = λ r. unfold remove_listener in refl;
        last = last-remove_listener e es;
        last_cons = λ x.
            last_sequence-cons x _ es ∙ last-remove_listener e es ∙ sym (last_sequence-cons x e es);
      }
  | inr later ↦
      let i = update_first-Left s cs es b p (rw later at h) d.1 k.1 in
      record {
        rest = e ∷ i.rest;
        found = rw (later, i.found) refl;
        counted = (ground (arith, count-without e.sequence s cs), i.counted);
        distinct = (i.entries e.sequence ∙ d.0, i.distinct);
        entries = λ r. rw (i.entries r) refl;
        last = i.last_cons e;
        last_cons =
            λ x. last_sequence-cons x e i.rest ∙ i.last_cons e ∙ sym (last_sequence-cons x e es);
      }
]
