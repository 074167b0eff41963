-- ===== src/Prelude/Text.antt =====
-- Go's strings as lists of bytes: equality, `strings.Split` and the decimal forms of `strconv`.
use Prim.Native.Char.{code}
use Prim.Native.String.{String}
use Prim.Native.Nat.{ℕ, zero, suc, ◌+◌, ◌-◌, ◌*◌, ◌/◌, ◌%◌, ◌^◌, ◌<◌}
use mathlib.Core.Path.{◌≡◌, refl, ◌∙◌}
use mathlib.Core.Logic.{◌↔◌, inl, inr}
use mathlib.Core.Bool.{Bool, true, false, ◌&&◌}
use mathlib.Core.Option.{Option, none, some}
use mathlib.Core.List.{List, [], ◌∷◌, ◌++◌, append_assoc, append-nil}
use native.Mathlib.Omega.{arith}
use sync_gateway.Prelude.Tests.{ltb, leb, ◌==◌, if◌then◌else◌, Bool-cases}

abbrev pub Str : Type 0
Str = List ℕ

-- The bytes of an ASCII literal.
abbrev pub codes : String → Str
codes String.[] = []
codes (String.◌∷◌ c s) = code c ∷ codes s

unfoldable pub str_eq : Str → Str → Bool
str_eq [] [] = true
str_eq [] (d ∷ t) = false
str_eq (c ∷ s) [] = false
str_eq (c ∷ s) (d ∷ t) = c == d && str_eq s t

str_eq_sound : (s t : Str) → str_eq s t ≡ true → s ≡ t
unfolding str_eq
str_eq_sound [] [] h = refl
str_eq_sound [] (d ∷ t) h = cc
str_eq_sound (c ∷ s) [] h = cc
str_eq_sound (c ∷ s) (d ∷ t) h = ground (arith, str_eq_sound s t)

pub str_eq_refl : (s : Str) → str_eq s s ≡ true
unfolding str_eq
str_eq_refl [] = refl
str_eq_refl (c ∷ s) = ground (arith, str_eq_refl s)

str_eq_complete : (s t : Str) → s ≡ t → str_eq s t ≡ true
str_eq_complete s t e = rw e (str_eq_refl t)

pub str_eq_iff : (s t : Str) → (str_eq s t ≡ true) ↔ (s ≡ t)
str_eq_iff s t = (str_eq_sound s t, str_eq_complete s t)

abbrev pub contains_byte : ℕ → Str → Bool
contains_byte b [] = false
contains_byte b (c ∷ s) = if c == b then true else contains_byte b s

abbrev pub prefix_head : ℕ → List Str → List Str
prefix_head c [] = (c ∷ []) ∷ []
prefix_head c (s ∷ ss) = (c ∷ s) ∷ ss

-- `strings.Split` at a one-byte separator: never empty.
unfoldable pub split : ℕ → Str → List Str
split b [] = [] ∷ []
split b (c ∷ s) = let rest = split b s in if c == b then [] ∷ rest else prefix_head c rest

pub split_none : (b : ℕ) (s : Str) → contains_byte b s ≡ false → split b s ≡ s ∷ []
unfolding split
split_none b [] h = refl
split_none b (c ∷ s) h = ground (arith, split_none b s)

pub split-append :
    (b : ℕ) (s t : Str) → contains_byte b s ≡ false → split b (s ++ (b ∷ t)) ≡ s ∷ split b t
unfolding split
split-append b [] t h = ground arith
split-append b (c ∷ s) t h = ground (arith, split-append b s t)

-- The digits of a number, most significant first, with fuel above the number.
unfoldable pub format_fuel : ℕ → ℕ → Str
format_fuel zero n = []
format_fuel (suc f) n =
    let rest = format_fuel f (n / 10) ++ ((48 + n % 10) ∷ []) in
    if ltb n 10 then (48 + n) ∷ [] else rest

-- `strconv.FormatUint(n, 10)`.
unfoldable pub format_uint : ℕ → Str
unfolding format_fuel
format_uint n = format_fuel (suc n) n

-- The loop of `strconv.ParseUint` in base 10, for a word of `limit` values.
unfoldable pub parse_digits : ℕ → ℕ → Str → Option ℕ
parse_digits limit acc [] = some acc
parse_digits limit acc (c ∷ s) =
    let next = acc * 10 + (c - 48) in
    let rest = parse_digits limit next s in
    if leb 48 c && leb c 57 then (if ltb next limit then rest else none) else none

-- `strconv.ParseUint(s, 10, w)`: `none` on an empty text, a byte that is no digit, or a value of
-- 2 ^ w and above.
unfoldable pub parse_uint : ℕ → Str → Option ℕ
unfolding parse_digits
parse_uint w [] = none
parse_uint w (c ∷ s) = parse_digits (2 ^ w) 0 (c ∷ s)

parse_digits-format :
    (f limit n : ℕ) (s : Str)
    → n < f
    → n < limit
    → parse_digits limit 0 (format_fuel f n ++ s) ≡ parse_digits limit n s
unfolding format_fuel
parse_digits-format zero limit n s h k = absurd (omega arith)
parse_digits-format (suc f) limit n s h k = elim (Bool-cases (ltb n 10)) [
  | inl small ↦ rw small (unfold parse_digits in ground arith)
  | inr big ↦
      rw (big, append_assoc (format_fuel f (n / 10)) ((48 + n % 10) ∷ []) s)
        (parse_digits-format f limit (n / 10) ((48 + n % 10) ∷ s) (ground arith) (omega arith)
          ∙ unfold parse_digits in ground arith)
]

format_fuel_cons : (f n : ℕ) → n < f → (c : ℕ) × (s : Str) × (format_fuel f n ≡ c ∷ s)
unfolding format_fuel
format_fuel_cons zero n h = absurd (omega arith)
format_fuel_cons (suc f) n h = elim (Bool-cases (ltb n 10)) [
  | inl small ↦ (48 + n, [], rw small)
  | inr big ↦
      let (c, s, e) = format_fuel_cons f (n / 10) (ground arith) in
      (c, s ++ ((48 + n % 10) ∷ []), rw (big, e))
]

parse_uint_cons :
    (w : ℕ) (s : Str)
    → ((c : ℕ) × (t : Str) × (s ≡ c ∷ t))
    → parse_uint w s ≡ parse_digits (2 ^ w) 0 s
unfolding parse_uint
parse_uint_cons w [] (c, t, e) = cc
parse_uint_cons w (d ∷ s) p = refl

-- A number that fits the word is read back.
pub parse-format_uint : (w n : ℕ) → n < 2 ^ w → parse_uint w (format_uint n) ≡ some n
unfolding format_uint
parse-format_uint w n h =
    parse_uint_cons w _ (format_fuel_cons (suc n) n (omega arith))
    ∙ rw (← append-nil (format_fuel (suc n) n))
        (parse_digits-format (suc n) (2 ^ w) n [] (omega arith) h ∙ unfold parse_digits in refl)

contains_byte-append :
    (b c : ℕ) (s : Str)
    → contains_byte b s ≡ false
    → (c == b) ≡ false
    → contains_byte b (s ++ (c ∷ [])) ≡ false
contains_byte-append b c [] h k = ground arith
contains_byte-append b c (d ∷ s) h k = ground (arith, contains_byte-append b c s)

format_fuel_digits :
    (b f n : ℕ) → leb 48 b && leb b 57 ≡ false → contains_byte b (format_fuel f n) ≡ false
unfolding format_fuel
format_fuel_digits b zero n h = refl
format_fuel_digits b (suc f) n h = elim (Bool-cases (ltb n 10)) [
  | inl small ↦ rw small (ground arith)
  | inr big ↦ rw big (
      contains_byte-append b (48 + n % 10) (format_fuel f (n / 10))
        (format_fuel_digits b f (n / 10) h) (ground arith))
]

-- A printed number holds digits only.
pub contains_byte-format_uint :
    (b n : ℕ) → leb 48 b && leb b 57 ≡ false → contains_byte b (format_uint n) ≡ false
unfolding format_uint
contains_byte-format_uint b n h = format_fuel_digits b (suc n) n h

-- A printed number holds no colon.
pub format_uint_digits : (n : ℕ) → contains_byte b':' (format_uint n) ≡ false
format_uint_digits n = contains_byte-format_uint b':' n refl

pub format_uint_cons : (n : ℕ) → (c : ℕ) × (s : Str) × (format_uint n ≡ c ∷ s)
unfolding format_uint
format_uint_cons n = format_fuel_cons (suc n) n (omega arith)

parse_digits_bound :
    (limit acc : ℕ) (s : Str) (n : ℕ) → acc < limit → parse_digits limit acc s ≡ some n → n < limit
unfolding parse_digits
parse_digits_bound limit acc [] n h e = ground arith
parse_digits_bound limit acc (c ∷ s) n h e =
    ground (arith, parse_digits_bound limit (acc * 10 + (c - 48)) s n)

-- What is read fits the word.
pub parse_uint_bound : (s : Str) (n : ℕ) → parse_uint 64 s ≡ some n → n < 2 ^ 64
unfolding parse_uint
parse_uint_bound [] n h = cc
parse_uint_bound (c ∷ s) n h = parse_digits_bound (2 ^ 64) 0 (c ∷ s) n (omega arith) h
