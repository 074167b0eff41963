-- ===== src/RevTree/Encoding.antt =====
-- db/revtree.go: histories in the form of `_revisions`, over the scanner of db/revision.go's ids.
-- What `GetStringArrayProperty` and `ToInt64` read from the map is the record; a map without both
-- is not modelled. The warning of `encodeRevisions` is only output.
use sync_gateway.Prelude.{
  ℕ, zero, suc, ◌+◌, ◌-◌, ◌^◌, ◌<◌, ◌≡◌, Bool, true, false, ◌&&◌, Option, none, some, List, [], ◌∷◌,
  ◌++◌, ltb, leb, if◌then◌else◌, Str, str_eq, format_uint, length, take,
}
use sync_gateway.Prelude.Int.{ℤ, pos, negsuc}
use sync_gateway.RevId.{ltb_ℤ, gen_of_rev_id, parse_rev_id}
use sync_gateway.RevisionCache.{Revisions}

-- `fmt.Sprintf("%d-%s", start, id)`.
unfoldable pub format_rev : ℕ → Str → Str
format_rev start id = format_uint start ++ (b'-' ∷ id)

unfoldable pub encode_ids : (Str → Option (ℤ × Str)) → List Str → List Str
encode_ids scan [] = []
encode_ids scan (revid ∷ revs) = (parse_rev_id scan revid).1 ∷ encode_ids scan revs

unfoldable pub encode_revisions : (Str → Option (ℤ × Str)) → List Str → Revisions
encode_revisions scan [] = record { start = pos 0; ids = [] }
encode_revisions scan (revid ∷ revs) = record {
  start = (parse_rev_id scan revid).0;
  ids = encode_ids scan (revid ∷ revs);
}

-- `none` is no list.
unfoldable pub split_revision_list : Revisions → Option (ℕ × List Str)
split_revision_list revisions = elim (revisions.start) [
  | negsuc n ↦ none
  | pos start ↦
      if ltb 0 (length revisions.ids) && leb (length revisions.ids) start
      then some (start, revisions.ids)
      else none
]

-- The revisions of a list of digests, from a generation down.
unfoldable pub format_revs : ℕ → List Str → List Str
format_revs start [] = []
format_revs start (id ∷ ids) = format_rev start id ∷ format_revs (start - 1) ids

-- `ParseRevisions` of a body: its `_revisions`, or else its `_rev`. `none` is nil.
unfoldable pub parse_revisions :
    (Str → Option ℤ) → Option Str → Option Revisions → Option (List Str)
parse_revisions scan rev (some revisions) = elim (split_revision_list revisions) [
  | none ↦ none
  | some (start, ids) ↦ some (format_revs start ids)
]
parse_revisions scan none none = none
parse_revisions scan (some revid) none =
    if ltb_ℤ (gen_of_rev_id scan revid) (pos 1) then none else some (revid ∷ [])

-- `start - gen`, if it is not negative.
unfoldable pub index_of : ℕ → ℤ → Option ℕ
index_of start (pos gen) = if leb gen start then some (start - gen) else none
index_of start (negsuc n) = some (start + suc n)

-- `digests[index]` equals a digest.
unfoldable pub has_digest : List Str → ℕ → Str → Bool
has_digest [] index digest = false
has_digest (d ∷ digests) zero digest = str_eq digest d
has_digest (d ∷ digests) (suc index) digest = has_digest digests index digest

-- The loop over the ancestors: the index of the match, and the length to trim to.
unfoldable pub trim_loop : (Str → Option (ℤ × Str)) → ℕ → List Str → List Str → ℕ → ℕ → ℕ × ℕ
trim_loop scan start digests [] match_index max_unmatched_len = (match_index, max_unmatched_len)
trim_loop scan start digests (a ∷ ancestors) match_index max_unmatched_len =
    let (gen, digest) = parse_rev_id scan a in
    elim (index_of start gen) [
      | none ↦ trim_loop scan start digests ancestors match_index max_unmatched_len
      | some index ↦
          let matches = ltb index match_index && has_digest digests index digest in
          trim_loop scan start digests ancestors (if matches then index else match_index)
            (if matches then index + 1 else max_unmatched_len)
    ]

unfoldable pub trim_encoded_revisions_to_ancestor :
    (Str → Option (ℤ × Str)) → Revisions → List Str → ℕ → Bool × Revisions
trim_encoded_revisions_to_ancestor scan revs ancestors max_unmatched_len =
    elim (split_revision_list revs) [
      | none ↦ (false, revs)
      | some (start, digests) ↦
          let n = (trim_loop scan start digests ancestors (length digests) max_unmatched_len).1 in
          (true, if ltb n (length digests) then record revs { ids = take n digests } else revs)
    ]

-- A digest that "%s" reads whole: it is not empty and has no white space.
abbrev pub no_space : Str → Bool
no_space [] = true
no_space (c ∷ s) = if ltb 32 c then no_space s else false

abbrev pub is_token : Str → Bool
is_token [] = false
is_token (c ∷ s) = no_space (c ∷ s)

abbrev pub AllTokens : List Str → Type 0
AllTokens [] = Unit {0}
AllTokens (d ∷ ds) = (is_token d ≡ true) × AllTokens ds

-- The scanner reads back what "%d-%s" prints of a positive number that fits an int and a token.
abbrev pub ReadsBack : (Str → Option (ℤ × Str)) → Type 0
ReadsBack scan =
    (g : ℕ) (d : Str)
    → 0 < g
    → g < 2 ^ 63
    → is_token d ≡ true
    → scan (format_rev g d) ≡ some (pos g, d)
