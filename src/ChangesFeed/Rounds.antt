-- ===== src/ChangesFeed/Rounds.antt =====
-- One round of the merge of the feeds in db/changes.go: the minimum, and what is cleared.
use mathlib.Core.Path.{subst}
use sync_gateway.Prelude.{
  ℕ, ◌+◌, ◌≤◌, ◌<◌, ◌≡◌, ◌⊎◌, refl, ap, sym, ◌∙◌, Bool, true, Option, some, List, [], ◌∷◌, ◌==◌,
  arith, Bool-cases, Option-cases, inl, inr,
}
use sync_gateway.SequenceId.{SequenceId, int_before}
use sync_gateway.SequenceId.Order.{int_before_trans}
use sync_gateway.ChangesFeed.{
  ChangeEntry, same_seq, find_min, merge_removed, clear_current, count_entries,
}
use sync_gateway.ChangesFeed.Heads.{
  IsPlain, Above, AllRise, AllAbove, NoneBefore, IsHead, int_before_irrefl, int_before_asym,
  below_false, same_seq_sound, same_seq_self, earlier, Above-lower,
}

-- What the loop for the minimum comes to.
pub record Minimum (m : SequenceId) (best : Option (ℕ × ChangeEntry))
    (feeds : List (List ChangeEntry)) (r : Option (ℕ × ChangeEntry)) : Type 0 where
  pub bound : SequenceId
  pub least : NoneBefore bound feeds
  pub within : (bound ≡ m) ⊎ (int_before bound m ≡ true)
  pub outcome :
      ((r ≡ best) × (bound ≡ m))
      ⊎ ((k : ℕ) × (e : ChangeEntry) × (r ≡ some (k, e)) × (e.seq ≡ bound) × IsHead e feeds)

pub find_min-Minimum :
    (i : ℕ) (m : SequenceId) (best : Option (ℕ × ChangeEntry)) (feeds : List (List ChangeEntry))
    → Minimum m best feeds (find_min i m best feeds)
unfolding find_min
find_min-Minimum i m best [] = record {
  bound = m;
  least = tt;
  within = inl refl;
  outcome = inl (refl, refl);
}
find_min-Minimum i m best ([] ∷ feeds) =
    let r = find_min-Minimum (i + 1) m best feeds in
    record { bound = r.bound; least = r.least; within = r.within; outcome = r.outcome }
find_min-Minimum i m best ((c ∷ es) ∷ feeds) = elim (Bool-cases (int_before c.seq m)) [
  | inl lower ↦
      let r = find_min-Minimum (i + 1) c.seq (some (i, c)) feeds in
      rw lower (record {
        bound = r.bound;
        least = (
          elim r.within [
            | inl q ↦ ap (λ z. int_before c.seq z) q ∙ int_before_irrefl c.seq
            | inr b ↦ int_before_asym r.bound c.seq b
          ],
          r.least,
        );
        within = elim r.within [
          | inl q ↦ inr (ap (λ z. int_before z m) q ∙ lower)
          | inr b ↦ inr (int_before_trans r.bound c.seq m b lower)
        ];
        outcome = elim r.outcome [
          | inl (q, b) ↦ inr (i, c, q, sym b, inl refl)
          | inr (k, e, q, b, h) ↦ inr (k, e, q, b, inr h)
        ];
      })
  | inr higher ↦
      let r = find_min-Minimum (i + 1) m best feeds in
      rw higher (record {
        bound = r.bound;
        least = (
          elim r.within [
            | inl q ↦ ap (λ z. int_before c.seq z) q ∙ higher
            | inr b ↦ below_false c.seq r.bound m higher b
          ],
          r.least,
        );
        within = r.within;
        outcome = elim r.outcome [ inl p ↦ inl p | inr (k, e, q, b, h) ↦ inr (k, e, q, b, inr h) ];
      })
]

-- The feeds after the entries of the lowest sequence are cleared: all that they have comes later.
pub clear_current-AllAbove :
    (i k : ℕ) (s : SequenceId) (feeds : List (List ChangeEntry)) (e : ChangeEntry)
    → IsPlain s
    → NoneBefore s feeds
    → AllRise feeds
    → AllAbove s (clear_current i k s feeds e).0 × AllRise (clear_current i k s feeds e).0
unfolding clear_current
clear_current-AllAbove i k s [] e p n r = (tt, tt)
clear_current-AllAbove i k s ([] ∷ feeds) e p n r =
    let (a, b) = clear_current-AllAbove (i + 1) k s feeds e p n r.1 in ((tt, a), (tt, b))
clear_current-AllAbove i k s ((c ∷ es) ∷ feeds) e p n r = elim (Bool-cases (same_seq c.seq s)) [
  | inl same ↦
      let q = same_seq_sound c.seq s r.0.0 p same in
      let (a, b) =
        clear_current-AllAbove (i + 1) k s feeds (merge_removed (i == k) c e) p n.1 r.1 in
      rw same ((subst (λ z. Above z es) q r.0.1, a), (r.0.2, b))
  | inr other ↦
      let (a, b) = clear_current-AllAbove (i + 1) k s feeds e p n.1 r.1 in
      let h = earlier c.seq s r.0.0 p n.0 other in
      rw other (((h, Above-lower s c.seq es h r.0.1), a), (r.0, b))
]

count-clear_current :
    (i k : ℕ) (s : SequenceId) (feeds : List (List ChangeEntry)) (e : ChangeEntry)
    → count_entries (clear_current i k s feeds e).0 ≤ count_entries feeds
unfolding clear_current count_entries
count-clear_current i k s [] e = omega arith
count-clear_current i k s ([] ∷ feeds) e = omega (arith, count-clear_current (i + 1) k s feeds e)
count-clear_current i k s ((c ∷ es) ∷ feeds) e = elim (Bool-cases (same_seq c.seq s)) [
  | inl same ↦
      rw same (omega (arith, count-clear_current (i + 1) k s feeds (merge_removed (i == k) c e)))
  | inr other ↦ rw other (omega (arith, count-clear_current (i + 1) k s feeds e))
]

-- The entry of the lowest sequence is among those that go.
pub count-clear_current_found :
    (i k : ℕ) (found : ChangeEntry) (feeds : List (List ChangeEntry)) (e : ChangeEntry)
    → IsPlain found.seq
    → IsHead found feeds
    → count_entries (clear_current i k found.seq feeds e).0 < count_entries feeds
unfolding clear_current count_entries
count-clear_current_found i k found [] e p h = absurd h
count-clear_current_found i k found ([] ∷ feeds) e p h =
    omega (arith, count-clear_current_found (i + 1) k found feeds e p h)
count-clear_current_found i k found ((c ∷ es) ∷ feeds) e p h =
    elim (Bool-cases (same_seq c.seq found.seq)) [
      | inl same ↦ rw same (
          omega (arith, count-clear_current (i + 1) k found.seq feeds (merge_removed (i == k) c e)))
      | inr other ↦ elim h [
        | inl q ↦
            let t : same_seq c.seq found.seq ≡ true =
              ap (λ z. same_seq z.seq found.seq) q ∙ same_seq_self found.seq p in
            cc
        | inr later ↦
            rw other (omega (arith, count-clear_current_found (i + 1) k found feeds e p later))
      ]
    ]

merge_removed-seq : (b : Bool) (c e : ChangeEntry) → (merge_removed b c e).seq ≡ e.seq
unfolding merge_removed
merge_removed-seq b c e = elim (Option-cases (c.removed)) [
  | inl kept ↦ simp (merge_removed, kept)
  | inr (r, h) ↦ elim (Bool-cases b) [
    | inl own ↦ simp (merge_removed, h, own)
    | inr other ↦ simp (merge_removed, h, other)
  ]
]

-- The entry keeps its sequence.
pub clear_current-seq :
    (i k : ℕ) (s : SequenceId) (feeds : List (List ChangeEntry)) (e : ChangeEntry)
    → (clear_current i k s feeds e).1.seq ≡ e.seq
unfolding clear_current
clear_current-seq i k s [] e = refl
clear_current-seq i k s ([] ∷ feeds) e = clear_current-seq (i + 1) k s feeds e
clear_current-seq i k s ((c ∷ es) ∷ feeds) e = elim (Bool-cases (same_seq c.seq s)) [
  | inl same ↦ rw same (
      clear_current-seq (i + 1) k s feeds (merge_removed (i == k) c e)
      ∙ merge_removed-seq (i == k) c e)
  | inr other ↦ rw other (clear_current-seq (i + 1) k s feeds e)
]

-- A head is plain in feeds that rise, and comes after what all entries come after.
pub IsHead-IsPlain :
    (e : ChangeEntry) (feeds : List (List ChangeEntry))
    → IsHead e feeds
    → AllRise feeds
    → IsPlain e.seq
IsHead-IsPlain e [] h r = absurd h
IsHead-IsPlain e ([] ∷ feeds) h r = IsHead-IsPlain e feeds h r.1
IsHead-IsPlain e ((c ∷ es) ∷ feeds) h r = elim h [
  | inl q ↦ subst (λ z. IsPlain z.seq) q r.0.0
  | inr l ↦ IsHead-IsPlain e feeds l r.1
]

pub IsHead-AllAbove :
    (s : SequenceId) (e : ChangeEntry) (feeds : List (List ChangeEntry))
    → IsHead e feeds
    → AllAbove s feeds
    → int_before s e.seq ≡ true
IsHead-AllAbove s e [] h a = absurd h
IsHead-AllAbove s e ([] ∷ feeds) h a = IsHead-AllAbove s e feeds h a.1
IsHead-AllAbove s e ((c ∷ es) ∷ feeds) h a = elim h [
  | inl q ↦ ap (λ z. int_before s z.seq) (sym q) ∙ a.0.0
  | inr l ↦ IsHead-AllAbove s e feeds l a.1
]

pub AllAbove-lower :
    (s t : SequenceId) (feeds : List (List ChangeEntry))
    → int_before s t ≡ true
    → AllAbove t feeds
    → AllAbove s feeds
AllAbove-lower s t [] h a = tt
AllAbove-lower s t (feed ∷ feeds) h a = (Above-lower s t feed h a.0, AllAbove-lower s t feeds h a.1)
