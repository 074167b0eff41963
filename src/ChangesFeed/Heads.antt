-- ===== src/ChangesFeed/Heads.antt =====
-- The heads of the feeds that db/changes.go merges.
use mathlib.Core.Path.{ap₂, subst₂}
use sync_gateway.Prelude.{ℕ, ◌≡◌, ◌⊎◌, sym, true, false, List, [], ◌∷◌, arith, Bool-cases, inl, inr}
use sync_gateway.SequenceId.{SequenceId, undefined, int_before, safe_sequence}
use sync_gateway.SequenceId.Order.{int_before_trans}
use sync_gateway.ChangesFeed.{ChangeEntry, same_type, same_seq}

-- A sequence as the feed of a channel has it: no low sequence, and no type.
abbrev pub IsPlain : SequenceId → Type 0
IsPlain s = (s.low_seq ≡ 0) × (s.seq_type ≡ undefined)

-- Every entry comes after a sequence.
abbrev pub Above : SequenceId → List ChangeEntry → Type 0
Above s [] = Unit {0}
Above s (e ∷ es) = (int_before s e.seq ≡ true) × Above s es

-- A feed in rising order.
abbrev pub Rises : List ChangeEntry → Type 0
Rises [] = Unit {0}
Rises (e ∷ es) = IsPlain e.seq × Above e.seq es × Rises es

abbrev pub AllRise : List (List ChangeEntry) → Type 0
AllRise [] = Unit {0}
AllRise (feed ∷ feeds) = Rises feed × AllRise feeds

abbrev pub AllAbove : SequenceId → List (List ChangeEntry) → Type 0
AllAbove s [] = Unit {0}
AllAbove s (feed ∷ feeds) = Above s feed × AllAbove s feeds

-- No head comes before a sequence.
abbrev pub NoneBefore : SequenceId → List (List ChangeEntry) → Type 0
NoneBefore s [] = Unit {0}
NoneBefore s ([] ∷ feeds) = NoneBefore s feeds
NoneBefore s ((c ∷ es) ∷ feeds) = (int_before c.seq s ≡ false) × NoneBefore s feeds

abbrev pub IsHead : ChangeEntry → List (List ChangeEntry) → Type 0
IsHead e [] = ⊥
IsHead e ([] ∷ feeds) = IsHead e feeds
IsHead e ((c ∷ es) ∷ feeds) = (c ≡ e) ⊎ IsHead e feeds

pub int_before_irrefl : (s : SequenceId) → int_before s s ≡ false
unfolding int_before
int_before_irrefl s = ground arith

pub int_before_asym : (s t : SequenceId) → int_before s t ≡ true → int_before t s ≡ false
unfolding int_before
int_before_asym s t h = ground arith

pub below_false :
    (c b m : SequenceId) → int_before c m ≡ false → int_before b m ≡ true → int_before c b ≡ false
below_false c b m h k = elim (Bool-cases (int_before c b)) [
  | inl q ↦ let r = int_before_trans c b m q k in cc
  | inr q ↦ q
]

abbrev pub plain : ℕ → ℕ → SequenceId
plain t n = record { seq_type = undefined; triggered_by = t; low_seq = 0; seq = n }

plain_eta : (s : SequenceId) → IsPlain s → plain s.triggered_by s.seq ≡ s
plain_eta s p =
    ap₂ (λ y l. record { seq_type = y; triggered_by = s.triggered_by; low_seq = l; seq = s.seq })
      (sym p.1) (sym p.0)

plain_same :
    (t n u m : ℕ)
    → int_before (plain t n) (plain u m) ≡ false
    → int_before (plain u m) (plain t n) ≡ false
    → same_seq (plain t n) (plain u m) ≡ true
unfolding int_before same_seq same_type safe_sequence
plain_same t n u m h k = ground arith

-- Two plain sequences that neither comes before the other are the same.
same_seq-plain :
    (s t : SequenceId)
    → IsPlain s
    → IsPlain t
    → int_before s t ≡ false
    → int_before t s ≡ false
    → same_seq s t ≡ true
same_seq-plain s t p q =
    subst₂ (λ x y. int_before x y ≡ false → int_before y x ≡ false → same_seq x y ≡ true)
      (plain_eta s p) (plain_eta t q) (plain_same s.triggered_by s.seq t.triggered_by t.seq)

plain_parts : (t n u m : ℕ) → same_seq (plain t n) (plain u m) ≡ true → (t ≡ u) × (n ≡ m)
unfolding same_seq same_type
plain_parts t n u m h = ground arith

plain_alike : (t n u m : ℕ) → same_seq (plain t n) (plain u m) ≡ true → plain t n ≡ plain u m
plain_alike t n u m h = let p = plain_parts t n u m h in ap₂ (λ x y. plain x y) p.0 p.1

pub same_seq_sound : (s t : SequenceId) → IsPlain s → IsPlain t → same_seq s t ≡ true → s ≡ t
same_seq_sound s t p q =
    subst₂ (λ x y. same_seq x y ≡ true → x ≡ y) (plain_eta s p) (plain_eta t q)
      (plain_alike s.triggered_by s.seq t.triggered_by t.seq)

pub same_seq_self : (s : SequenceId) → IsPlain s → same_seq s s ≡ true
same_seq_self s p = same_seq-plain s s p p (int_before_irrefl s) (int_before_irrefl s)

-- Of two plain sequences that are not the same, the one that is not later comes first.
pub earlier :
    (c s : SequenceId)
    → IsPlain c
    → IsPlain s
    → int_before c s ≡ false
    → same_seq c s ≡ false
    → int_before s c ≡ true
earlier c s p q n d = elim (Bool-cases (int_before s c)) [
  | inl h ↦ h
  | inr h ↦ let e = same_seq-plain c s p q n h in cc
]

pub Above-lower :
    (s t : SequenceId) (es : List ChangeEntry) → int_before s t ≡ true → Above t es → Above s es
Above-lower s t [] h a = tt
Above-lower s t (e ∷ es) h a = (int_before_trans s t e.seq h a.0, Above-lower s t es h a.1)
