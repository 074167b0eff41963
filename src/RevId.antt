-- ===== src/RevId.antt =====
-- db/revision.go: revision ids, a generation and a digest. The scanning of `fmt.Sscanf` is a
-- parameter: what "%d-%s" and "%d-" read from a text, `none` if no number is read, and the empty
-- digest if none is.
pub mod Order
use sync_gateway.Prelude.{
  ℕ, ◌+◌, Bool, true, false, ◌&&◌, ◌||◌, Option, none, some, List, [], ◌∷◌, ltb, ◌==◌,
  if◌then◌else◌, Str, str_eq,
}
use sync_gateway.Prelude.Int.{ℤ, pos, negsuc, pos_part, neg_part}

abbrev pub ltb_ℤ : ℤ → ℤ → Bool
ltb_ℤ a b = ltb (pos_part a + neg_part b) (pos_part b + neg_part a)

-- The order of Go's strings, byte by byte.
unfoldable pub str_lt : Str → Str → Bool
str_lt [] [] = false
str_lt [] (d ∷ t) = true
str_lt (c ∷ s) [] = false
str_lt (c ∷ s) (d ∷ t) = ltb c d || (c == d && str_lt s t)

unfoldable pub gen_of_rev_id : (Str → Option ℤ) → Str → ℤ
gen_of_rev_id scan revid = if str_eq revid [] then pos 0 else elim (scan revid) [
  | none ↦ negsuc 0
  | some generation ↦ if ltb_ℤ generation (pos 1) then negsuc 0 else generation
]

unfoldable pub parse_rev_id : (Str → Option (ℤ × Str)) → Str → ℤ × Str
parse_rev_id scan revid = if str_eq revid [] then (pos 0, []) else elim (scan revid) [
  | none ↦ (negsuc 0, [])
  | some (generation, id) ↦ if ltb_ℤ generation (pos 1) then (negsuc 0, []) else (generation, id)
]

-- The comparison of `compareRevIDs`, of what the two ids parse to.
unfoldable pub compare_parsed : ℤ × Str → ℤ × Str → ℤ
unfolding str_lt
compare_parsed (gen1, sha1) (gen2, sha2) =
    if ltb_ℤ gen2 gen1
    then pos 1
    else if ltb_ℤ gen1 gen2
    then negsuc 0
    else if str_lt sha2 sha1
    then pos 1
    else if str_lt sha1 sha2
    then negsuc 0
    else pos 0

unfoldable pub compare_rev_ids : (Str → Option (ℤ × Str)) → Str → Str → ℤ
unfolding compare_parsed parse_rev_id
compare_rev_ids scan id1 id2 = compare_parsed (parse_rev_id scan id1) (parse_rev_id scan id2)
