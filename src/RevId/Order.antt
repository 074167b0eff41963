-- ===== src/RevId/Order.antt =====
-- The order of revision ids that db/revision.go's `compareRevIDs` gives.
use sync_gateway.Prelude.{◌≡◌, refl, true, false, [], ◌∷◌, arith, Str, Option}
use sync_gateway.Prelude.Int.{ℤ, pos, negsuc, eq_of_parts}
use sync_gateway.RevId.{str_lt, parse_rev_id, compare_parsed, compare_rev_ids}

pub str_lt_trans : (a b c : Str) → str_lt a b ≡ true → str_lt b c ≡ true → str_lt a c ≡ true
unfolding str_lt
str_lt_trans [] [] c h k = cc
str_lt_trans [] (y ∷ b) [] h k = cc
str_lt_trans [] (y ∷ b) (z ∷ c) h k = refl
str_lt_trans (x ∷ a) [] c h k = cc
str_lt_trans (x ∷ a) (y ∷ b) [] h k = cc
str_lt_trans (x ∷ a) (y ∷ b) (z ∷ c) h k = ground (arith, str_lt_trans a b c)

pub str_lt_irrefl : (a : Str) → str_lt a a ≡ false
unfolding str_lt
str_lt_irrefl [] = refl
str_lt_irrefl (x ∷ a) = ground (arith, str_lt_irrefl a)

pub str_lt_asym : (a b : Str) → str_lt a b ≡ true → str_lt b a ≡ false
unfolding str_lt
str_lt_asym [] [] h = cc
str_lt_asym [] (y ∷ b) h = refl
str_lt_asym (x ∷ a) [] h = cc
str_lt_asym (x ∷ a) (y ∷ b) h = ground (arith, str_lt_asym a b)

pub str_lt_total : (a b : Str) → str_lt a b ≡ false → str_lt b a ≡ false → a ≡ b
unfolding str_lt
str_lt_total [] [] h k = refl
str_lt_total [] (y ∷ b) h k = cc
str_lt_total (x ∷ a) [] h k = cc
str_lt_total (x ∷ a) (y ∷ b) h k = ground (arith, str_lt_total a b)

-- `id1` is above `id2`: by its generation, or by its digest at the same generation.
abbrev pub Above : ℤ × Str → ℤ × Str → Type 0
Above (g, s) (k, t) = compare_parsed (g, s) (k, t) ≡ pos 1

pub compare_parsed_trans : (a b c : ℤ × Str) → Above a b → Above b c → Above a c
unfolding compare_parsed
compare_parsed_trans (g, a) (k, b) (m, c) h l =
    ground (
      arith,
      str_lt_trans c b a,
      str_lt_asym c b,
      str_lt_asym b a,
      eq_of_parts g k,
      eq_of_parts k m,
    )

compared_alike : (x y : ℤ × Str) → compare_parsed x y ≡ pos 0 → x ≡ y
unfolding compare_parsed
compared_alike (g, a) (k, b) h = ground (arith, eq_of_parts g k, str_lt_total a b)

pub compared_self : (x : ℤ × Str) → compare_parsed x x ≡ pos 0
unfolding compare_parsed
compared_self (g, a) = ground (arith, str_lt_irrefl a)

compared_above : (x y : ℤ × Str) → compare_parsed x y ≡ pos 1 → compare_parsed y x ≡ negsuc 0
unfolding compare_parsed
compared_above (g, a) (k, b) h = ground (arith, str_lt_asym b a)

compared_below : (x y : ℤ × Str) → compare_parsed y x ≡ negsuc 0 → compare_parsed x y ≡ pos 1
unfolding compare_parsed
compared_below (g, a) (k, b) h = ground (arith, str_lt_asym b a)

-- `compareRevIDs` gives 0 exactly for ids that parse alike, and 1 one way exactly when it gives -1 the
-- other way.
pub compare_rev_ids_total :
    (scan : Str → Option (ℤ × Str)) (a b : Str)
    → ((compare_rev_ids scan a b ≡ pos 0 → parse_rev_id scan a ≡ parse_rev_id scan b)
        × (parse_rev_id scan a ≡ parse_rev_id scan b → compare_rev_ids scan a b ≡ pos 0))
      × (compare_rev_ids scan a b ≡ pos 1 → compare_rev_ids scan b a ≡ negsuc 0)
      × (compare_rev_ids scan b a ≡ negsuc 0 → compare_rev_ids scan a b ≡ pos 1)
unfolding compare_rev_ids
compare_rev_ids_total scan a b =
    let x = parse_rev_id scan a in
    let y = parse_rev_id scan b in
    ((compared_alike x y, λ e. rw (← e) (compared_self x)), compared_above x y, compared_below x y)
