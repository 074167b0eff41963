-- ===== src/Crud/Sequences.antt =====
-- db/crud.go: the sequence that a write of a document gets. The allocator is a parameter, its state and
-- what `nextSequence` makes of it; `releaseSequence` is the list of what was released.
use sync_gateway.Prelude.{
  ℕ, zero, suc, ◌+◌, ◌≤◌, ◌<◌, ◌≡◌, refl, Option, none, some, List, [], ◌∷◌, ◌++◌, ltb, leb,
  if◌then◌else◌, length, arith, Bool-cases, inl, inr,
}
use sync_gateway.Document.{Document}

abbrev pub max_recent_sequences : ℕ
max_recent_sequences = 20

pub data Allocated {ℓ} (S : Type ℓ) : Type ℓ where
  out_of_fuel : Allocated S
  allocation_failed : S → List ℕ → Allocated S
  allocated : ℕ → S → List ℕ → Allocated S

-- Sequences of a document that the feed has seen go, up to the first that it has not.
unfoldable pub drop_seen : ℕ → List ℕ → List ℕ
drop_seen stable [] = []
drop_seen stable (seq ∷ seqs) = if ltb seq stable then drop_seen stable seqs else seq ∷ seqs

unfoldable pub recent_after : ℕ → List ℕ → ℕ → List ℕ → List ℕ
recent_after stable unused seq recent =
    let pruned =
      if leb max_recent_sequences (length recent) then drop_seen stable recent else recent in
    pruned ++ (unused ++ (seq ∷ []))

unfoldable pub with_sequence : ℕ → ℕ → List ℕ → Document → Document
with_sequence stable seq unused doc = record doc {
  sequence = seq;
  unused_sequences = unused;
  recent_sequences = recent_after stable unused seq doc.recent_sequences;
}

module _ {S : Type 0} (next_sequence : S → Option ℕ × S) where
  -- The loop that takes sequences until one is above the document's, with fuel.
  unfoldable pub next_above : ℕ → ℕ → S → List ℕ → Allocated S
  next_above zero sequence s released = out_of_fuel
  next_above (suc fuel) sequence s released = elim ((next_sequence s).0) as (λ o. Allocated S) [
    | none ↦ allocation_failed (next_sequence s).1 released
    | some seq ↦
        let more = next_above fuel sequence (next_sequence s).1 (seq ∷ released) in
        if ltb sequence seq then allocated seq (next_sequence s).1 released else more
  ]

  -- One attempt of a write, with the sequence of the last attempt, 0 for none, and those that earlier
  -- attempts left unused; the document, its sequence and the unused ones.
  unfoldable pub assign_sequence :
      ℕ → ℕ → List ℕ → Document → S → Option (Document × ℕ × List ℕ × S)
  assign_sequence stable doc_sequence unused doc s =
      let unused' = if ltb 0 doc_sequence then unused ++ (doc_sequence ∷ []) else unused in
      if ltb doc.sequence doc_sequence
      then some (with_sequence stable doc_sequence unused doc, doc_sequence, unused, s)
      else elim (next_above (suc doc.sequence) doc.sequence s [])
          as (λ r. Option (Document × ℕ × List ℕ × S)) [
            | out_of_fuel ↦ none
            | allocation_failed s' released ↦ none
            | allocated seq s' released ↦
                some (with_sequence stable seq unused' doc, seq, unused', s')
          ]

  -- Nothing released is above the document's sequence.
  abbrev pub AllUnder : ℕ → List ℕ → Type 0
  AllUnder sequence [] = Unit {0}
  AllUnder sequence (seq ∷ seqs) = (seq ≤ sequence) × AllUnder sequence seqs

  -- Each sequence is above those before it, the last of which the state has.
  abbrev pub IsRising : (S → ℕ) → Type 0
  IsRising last =
      (s : S)
      → (seq : ℕ) × ((next_sequence s).0 ≡ some seq)
        × (last s < seq)
        × (seq ≤ last (next_sequence s).1)

  next_above_lem :
      (last : S → ℕ) (fuel sequence k : ℕ) (s : S) (released : List ℕ)
      → IsRising last
      → AllUnder sequence released
      → suc sequence ≤ fuel + k
      → k ≤ sequence
      → k ≤ last s
      → (seq : ℕ) × (s' : S) × (released' : List ℕ) × (next_above fuel sequence s released
          ≡ allocated seq s' released')
        × (sequence < seq)
        × AllUnder sequence released'
  unfolding next_above
  next_above_lem last zero sequence k s released r u le a b = absurd (omega (arith, le, a))
  next_above_lem last (suc fuel) sequence k s released r u le a b =
      let (seq, e, above, below) = r s in
      elim (Bool-cases (ltb sequence seq)) [
        | inl over ↦ (
          seq,
          (next_sequence s).1,
          released,
          rw (next_above, e, over) refl,
          ground (arith, over),
          u,
        )
        | inr under ↦
            let le' : seq ≤ sequence = ground (arith, under) in
            let (seq', s', released', e', over, u') =
              next_above_lem last fuel sequence (suc k) (next_sequence s).1 (seq ∷ released) r
                (le', u) (omega (arith, le)) (omega (arith, le', above, b))
                (omega (arith, above, below, b)) in
            (seq', s', released', rw (next_above, e, under) e', over, u')
      ]

  -- A write with an allocator of rising sequences always gets a sequence, above the document's, with
  -- no more attempts than the document's sequence and one. The document then has it, and the last of
  -- its recent sequences are the unused ones and this one. If the sequence of an earlier attempt is
  -- still above the document's, it is taken again. Otherwise it is now among the unused ones.
  pub assign_sequence_lem :
      (last : S → ℕ) (stable doc_sequence : ℕ) (unused : List ℕ) (doc : Document) (s : S)
      → IsRising last
      → (doc' : Document) × (seq : ℕ) × (unused' : List ℕ) × (s' : S) × (assign_sequence stable
            doc_sequence unused doc s
          ≡ some (doc', seq, unused', s'))
        × (doc.sequence < seq)
        × (doc'.sequence ≡ seq)
        × (doc'.unused_sequences ≡ unused')
        × ((kept : List ℕ) × (doc'.recent_sequences ≡ kept ++ (unused' ++ (seq ∷ []))))
        × ((doc.sequence < doc_sequence → (seq ≡ doc_sequence) × (unused' ≡ unused))
            × (0 < doc_sequence
                → doc_sequence ≤ doc.sequence
                → unused' ≡ unused ++ (doc_sequence ∷ [])))
  unfolding assign_sequence with_sequence recent_after
  assign_sequence_lem last stable n unused doc s r = elim (Bool-cases (ltb doc.sequence n)) [
    | inl again ↦ (
      with_sequence stable n unused doc,
      n,
      unused,
      s,
      rw again refl,
      ground (arith, again),
      refl,
      refl,
      (
        if leb max_recent_sequences (length doc.recent_sequences)
            then drop_seen stable doc.recent_sequences
            else doc.recent_sequences,
        refl,
      ),
      (λ h. (refl, refl), λ h. λ le. absurd (ground (arith, again, le))),
    )
    | inr fresh ↦
        let (seq, s', released, e, over, u) =
          next_above_lem last (suc doc.sequence) doc.sequence 0 s [] r tt (omega arith)
            (omega arith) (omega arith) in
        let unused' = if ltb 0 n then unused ++ (n ∷ []) else unused in
        (
          with_sequence stable seq unused' doc,
          seq,
          unused',
          s',
          rw (fresh, e) refl,
          over,
          refl,
          refl,
          (
            if leb max_recent_sequences (length doc.recent_sequences)
                then drop_seen stable doc.recent_sequences
                else doc.recent_sequences,
            refl,
          ),
          (λ h. absurd (ground (arith, fresh, h)), λ h. λ le. ground (arith, h)),
        )
  ]
