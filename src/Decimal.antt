-- ===== src/Decimal.antt =====
-- strconv.Itoa and strconv.ParseInt in base 10, as internal/store/remote and internal/api use them
-- for the numbers of a query.
use gator_cli.Prelude.{
  ℕ, zero, suc, ◌+◌, ◌-◌, ◌*◌, ◌/◌, ◌%◌, ◌^◌, ◌<◌, ◌≤◌, ◌≡◌, refl, sym, ◌∙◌, ap, ◌==◌, ltb, leb,
  false, ◌&&◌, if◌then◌else◌, Option, none, some, [], ◌∷◌, Text, arith, Bool-cases, inl, inr,
  text_eq,
}
use gator_cli.Prelude.Int.{ℤ, pos, negsuc}

-- The digits of a number in front of a text, with fuel for its divisions by ten.
unfoldable pub digits : ℕ → ℕ → Text → Text
digits zero n behind = behind
digits (suc fuel) n behind =
    let shown = (48 + n % 10) ∷ behind in
    let rest = digits fuel (n / 10) shown in if ltb n 10 then shown else rest

-- `strconv.Itoa`
unfoldable pub itoa : ℤ → Text
unfolding digits
itoa (pos n) = digits (suc n) n []
itoa (negsuc n) = 45 ∷ digits (suc (suc n)) (suc n) []

-- The digits of a text behind a number that is already read.
unfoldable pub read_digits : ℕ → Text → Option ℕ
read_digits n [] = some n
read_digits n (c ∷ s) =
    let rest = read_digits (n * 10 + (c - 48)) s in if leb 48 c && leb c 57 then rest else none

abbrev pub read_natural : Text → Option ℕ
read_natural [] = none
read_natural (c ∷ s) = read_digits 0 (c ∷ s)

-- A magnitude below the limit, or one that is the limit where that is allowed.
abbrev pub in_range : ℕ → Option ℕ → Option ℕ
in_range limit none = none
in_range limit (some n) = if ltb n limit then some n else none

abbrev pub positive : Option ℕ → Option ℤ
positive none = none
positive (some n) = some (pos n)

abbrev pub negative : Option ℕ → Option ℤ
negative none = none
negative (some zero) = some (pos 0)
negative (some (suc n)) = some (negsuc n)

-- `strconv.ParseInt(raw, 10, 32)`, with `none` for an error.
unfoldable pub parse_int32 : Text → Option ℤ
unfolding read_digits
parse_int32 [] = none
parse_int32 (c ∷ s) =
    if c == 45
    then negative (in_range (2 ^ 31 + 1) (read_natural s))
    else if c == 43
    then positive (in_range (2 ^ 31) (read_natural s))
    else positive (in_range (2 ^ 31) (read_natural (c ∷ s)))

read-digits :
    (fuel n : ℕ) (behind : Text)
    → n < fuel
    → read_digits 0 (digits fuel n behind) ≡ read_digits n behind
unfolding digits read_digits
read-digits zero n behind h = absurd (omega arith)
read-digits (suc fuel) n behind h = elim (Bool-cases (ltb n 10)) [
  | inl small ↦ rw small (ground arith)
  | inr large ↦
      rw large (read-digits fuel (n / 10) ((48 + n % 10) ∷ behind) (ground arith) ∙ ground arith)
]

-- A text that starts with a digit.
record IsNumeral (s : Text) : Type 0 where
  first : ℕ
  others : Text
  split : s ≡ first ∷ others
  low : 48 ≤ first
  high : first ≤ 57

digits-IsNumeral_behind :
    (fuel n : ℕ) (behind : Text) → IsNumeral behind → IsNumeral (digits fuel n behind)
unfolding digits
digits-IsNumeral_behind zero n behind h = h
digits-IsNumeral_behind (suc fuel) n behind h =
    let one : IsNumeral ((48 + n % 10) ∷ behind) = record {
      first = 48 + n % 10;
      others = behind;
      split = refl;
      low = omega arith;
      high = omega arith;
    } in
    elim (Bool-cases (ltb n 10)) [
      | inl small ↦ rw small one
      | inr large ↦ rw large (digits-IsNumeral_behind fuel (n / 10) _ one)
    ]

digits-IsNumeral : (fuel n : ℕ) (behind : Text) → IsNumeral (digits (suc fuel) n behind)
unfolding digits
digits-IsNumeral fuel n behind =
    let one : IsNumeral ((48 + n % 10) ∷ behind) = record {
      first = 48 + n % 10;
      others = behind;
      split = refl;
      low = omega arith;
      high = omega arith;
    } in
    elim (Bool-cases (ltb n 10)) [
      | inl small ↦ rw small one
      | inr large ↦ rw large (digits-IsNumeral_behind fuel (n / 10) _ one)
    ]

pub itoa-ne-empty : (z : ℤ) → text_eq (itoa z) [] ≡ false
unfolding itoa
itoa-ne-empty (pos n) = rw ((digits-IsNumeral n n []).split) refl
itoa-ne-empty (negsuc n) = refl

pub parse_int32-itoa : (n : ℕ) → n < 2 ^ 31 → parse_int32 (itoa (pos n)) ≡ some (pos n)
unfolding itoa parse_int32
parse_int32-itoa n h =
    let d = digits-IsNumeral n n [] in
    let value : read_digits 0 (d.first ∷ d.others) ≡ some n =
      ap (read_digits 0) (sym d.split) ∙ read-digits (suc n) n [] (omega arith) in
    rw (d.split) (ground (arith, value))
