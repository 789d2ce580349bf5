-- ===== src/TextLines.antt =====
-- internal/text/text.go: one line, and a text cut to a length. `StripHTML` is made of regular
-- expressions and is not modelled.
pub mod Cut
pub mod Fields
use gator_cli.Prelude.{
  ℕ, zero, suc, ◌+◌, Bool, true, false, not, ◌||◌, ◌==◌, leb, if◌then◌else◌, Option, none, some,
  List, [], ◌∷◌, ◌++◌, Text, text_eq, is_space, length, take, keep, trim_right,
}
use gator_cli.Prelude.Int.{ℤ, pos, negsuc}

abbrev pub blank : ℕ
blank = 32

abbrev pub ellipsis : ℕ
ellipsis = 0x2026

abbrev pub onto_first : ℕ → List Text → List Text
onto_first c [] = (c ∷ []) ∷ []
onto_first c (p ∷ ps) = (c ∷ p) ∷ ps

-- The parts of a text between its white space, empty ones included.
unfoldable pub parts : Text → List Text
parts [] = [] ∷ []
parts (c ∷ s) = let rest = parts s in if is_space c then [] ∷ rest else onto_first c rest

-- `strings.Fields`
unfoldable pub fields : Text → List Text
fields s = keep (λ p. not (text_eq p [])) (parts s)

-- `strings.Join` with a blank
unfoldable pub join_blank : List Text → Text
join_blank [] = []
join_blank (p ∷ []) = p
join_blank (p ∷ q ∷ ps) = p ++ blank ∷ join_blank (q ∷ ps)

-- `OneLine`
unfoldable pub one_line : Text → Text
one_line s = join_blank (fields s)

-- `lastSpace`, with `none` for -1.
abbrev pub later : Option ℕ → Bool → Option ℕ
later (some i) b = some (suc i)
later none b = if b then some 0 else none

unfoldable pub last_space : Text → Option ℕ
last_space [] = none
last_space (c ∷ s) = later (last_space s) (is_space c)

-- `cut[:i]` where `i > 0`
abbrev pub cut_at : Option ℕ → Text → Text
cut_at none cut = cut
cut_at (some zero) cut = cut
cut_at (some (suc i)) cut = take (suc i) cut

-- The cut set of `strings.TrimRight`.
abbrev pub in_cutset : ℕ → Bool
in_cutset c = c == blank || c == 9 || c == 10

abbrev pub shorten : ℕ → Text → Text
shorten n s =
    let cut = take n s in trim_right in_cutset (cut_at (last_space cut) cut) ++ ellipsis ∷ []

-- `Truncate`
unfoldable pub truncate : Text → ℤ → Text
truncate s (negsuc n) = []
truncate s (pos zero) = []
truncate s (pos (suc n)) = if leb (length s) (suc n) then s else shorten (suc n) s
