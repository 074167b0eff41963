-- ===== src/Tests/Documents.antt =====
-- A document that is written, moved between channels and encoded, through db/document.go's, db/crud.go's
-- and db/revtree.go's operations.
use sync_gateway.Prelude.{
  ℕ, ◌≡◌, ◌<◌, ◌≤◌, ◌++◌, refl, true, false, not, ◌&&◌, ◌||◌, Option, none, some, List, [], ◌∷◌,
  if◌then◌else◌, Str, codes, str_eq, inl, inr, suc, ◌==◌, parse_uint, arith,
}
use sync_gateway.Prelude.Int.{ℤ, pos}
use sync_gateway.RevId.{parse_rev_id}
use sync_gateway.RevTree.{RevInfo, contains, is_parent}
use sync_gateway.RevTree.Winner.{leaf_infos}
use sync_gateway.RevTree.Winner.Best.{count_active}
use sync_gateway.RevTree.Leaves.{IsTree}
use sync_gateway.ChannelCache.{has_id}
use sync_gateway.Document.{Document, update_channels, is_joined, find_channel, removal_of}
use sync_gateway.Document.Channels.{channels_of, after_leave, document_channel, update_channels_lem}
use sync_gateway.Crud.{new_info, put, put_existing_rev, stored}
use sync_gateway.Crud.Proposals.{loaded, rev_diff}
use sync_gateway.Crud.Missing.{AllKnown, rev_diff_lem}
use sync_gateway.Crud.Sequences.{assign_sequence, assign_sequence_lem}
use sync_gateway.Crud.Unbranched.{IsUnbranched, IsCurrent}
use sync_gateway.Crud.Conflicts.{put_existing_rev-IsUnbranched, put-IsUnbranched}

-- A scanner of a decimal number, a dash and the rest.
abbrev cut : Str → Option (Str × Str)
cut [] = none
cut (c ∷ s) = if c == b'-' then some ([], s) else elim (cut s) as (λ o. Option (Str × Str)) [
  | none ↦ none
  | some (before, after) ↦ some (c ∷ before, after)
]

abbrev numbered : Str → Option ℕ → Option (ℤ × Str)
numbered after none = none
numbered after (some n) = some (pos n, after)

abbrev scanned : Option (Str × Str) → Option (ℤ × Str)
scanned none = none
scanned (some (before, after)) = numbered after (parse_uint 63 before)

abbrev scan_decimal : Str → Option (ℤ × Str)
scan_decimal s = scanned (cut s)

-- A document with one active revision on a branch, and a tombstone on the other.
abbrev branched : List RevInfo
unfolding new_info
branched =
    new_info (codes "2-b") (codes "1-a") true
    ∷ new_info (codes "2-a") (codes "1-a") false
    ∷ new_info (codes "1-a") [] false
    ∷ []

abbrev doc : Document
doc = record {
  id = codes "doc";
  current_rev = codes "2-a";
  newest_rev = [];
  flags = 0;
  sequence = 7;
  unused_sequences = [];
  recent_sequences = [];
  history = branched;
  channels = some ((codes "old", none) ∷ (codes "kept", none) ∷ []);
  access = [];
  role_access = [];
  tombstoned_at = pos 0;
}

update_channels_lem_example :
    let new_channels = codes "kept" ∷ codes "new" ∷ [] in
    let ch = codes "old" in
    (document_channel ch (update_channels new_channels doc).0 ≡ (
      if has_id ch new_channels
      then some none
      else after_leave (removal_of doc) false (find_channel ch (channels_of doc.channels))))
    × (has_id ch (update_channels new_channels doc).1 ≡ (
        (is_joined (find_channel ch (channels_of doc.channels)) && not (has_id ch new_channels))
        || (has_id ch new_channels
            && not (is_joined (find_channel ch (channels_of doc.channels))))))
unfolding find_channel channels_of str_eq
update_channels_lem_example =
    update_channels_lem (codes "kept" ∷ codes "new" ∷ []) doc (codes "old") (refl, (refl, tt))

doc-IsUnbranched : IsUnbranched scan_decimal doc
unfolding new_info str_eq contains leaf_infos is_parent count_active
doc-IsUnbranched =
    let tree : IsTree doc.history =
      (refl, refl, inr refl, (refl, refl, inr refl, (refl, refl, inl refl, tt))) in
    let current : IsCurrent scan_decimal doc.current_rev (leaf_infos doc.history doc.history) =
      inr (new_info (codes "2-a") (codes "1-a") false, refl, inr (inl refl), inl refl) in
    (tree, current, omega arith)

put_existing_rev-IsUnbranched_example : IsUnbranched scan_decimal (
    stored scan_decimal (pos 0) doc (
      put_existing_rev scan_decimal false
        (codes "4-d")
        (codes "3-c" ∷ codes "2-a" ∷ [])
        false
        false
        doc))
put_existing_rev-IsUnbranched_example =
    put_existing_rev-IsUnbranched scan_decimal (pos 0) doc (codes "4-d")
      (codes "3-c" ∷ codes "2-a" ∷ []) false false doc-IsUnbranched

put-IsUnbranched_example : IsUnbranched scan_decimal (
    stored scan_decimal
      (pos 0)
      doc
      (put scan_decimal (λ g. λ parent. codes "3-c") false (codes "2-a") true doc))
unfolding parse_rev_id str_eq parse_uint
put-IsUnbranched_example =
    put-IsUnbranched scan_decimal (λ g. λ parent. codes "3-c") (pos 0) doc (codes "2-a") true
      (λ g. λ p. λ h. refl) refl doc-IsUnbranched

rev_diff_lem_example :
    let revids = codes "3-x" ∷ codes "2-a" ∷ [] in
    ((revid : Str)
      → has_id revid (rev_diff scan_decimal false (loaded doc) revids).0
        ≡ (has_id revid revids && not (contains revid doc.history)))
    × AllKnown doc.history (rev_diff scan_decimal false (loaded doc) revids).1
rev_diff_lem_example =
    rev_diff_lem scan_decimal doc (codes "3-x" ∷ codes "2-a" ∷ []) doc-IsUnbranched.0

-- An allocator that counts.
abbrev count_up : ℕ → Option ℕ × ℕ
count_up n = (some (suc n), suc n)

assign_sequence_lem_example :
    (doc' : Document) × (seq : ℕ) × (unused' : List ℕ) × (s' : ℕ) × (assign_sequence count_up 0 4 []
        doc 3
      ≡ some (doc', seq, unused', s'))
    × (7 < seq)
    × (doc'.sequence ≡ seq)
    × (doc'.unused_sequences ≡ unused')
    × ((kept : List ℕ) × (doc'.recent_sequences ≡ kept ++ (unused' ++ (seq ∷ []))))
    × ((7 < 4 → (seq ≡ 4) × (unused' ≡ [])) × (0 < 4 → 4 ≤ 7 → unused' ≡ [] ++ (4 ∷ [])))
assign_sequence_lem_example =
    assign_sequence_lem count_up (λ n. n) 0 4 [] doc 3
      (λ s. (suc s, refl, omega arith, omega arith))
