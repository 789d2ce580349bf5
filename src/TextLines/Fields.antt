-- ===== src/TextLines/Fields.antt =====
-- What `OneLine` of internal/text/text.go makes of a text: words and single blanks.
use gator_cli.Prelude.{
  ℕ, ◌≡◌, refl, ap, ◌∙◌, inl, inr, false, not, List, [], ◌∷◌, ◌++◌, Text, text_eq, is_space, All,
  keep, Bool-cases,
}
use gator_cli.TextLines.{onto_first, parts, fields, join_blank, one_line, blank}

-- A text without white space, and a word that is not empty either.
abbrev Solid : Text → Type 0
Solid s = All (λ c. is_space c ≡ false) s

abbrev pub Word : Text → Type 0
Word s = Solid s × (text_eq s [] ≡ false)

onto_first-Solid :
    (c : ℕ) (ps : List Text) → is_space c ≡ false → All Solid ps → All Solid (onto_first c ps)
onto_first-Solid c [] h d = ((h, tt), tt)
onto_first-Solid c (p ∷ ps) h d = ((h, d.0), d.1)

parts-Solid : (s : Text) → All Solid (parts s)
unfolding parts
parts-Solid [] = (tt, tt)
parts-Solid (c ∷ s) = elim (Bool-cases (is_space c)) [
  | inl e ↦ rw e (tt, parts-Solid s)
  | inr e ↦ rw e (onto_first-Solid c (parts s) e (parts-Solid s))
]

keep-Word : (ps : List Text) → All Solid ps → All Word (keep (λ p. not (text_eq p [])) ps)
keep-Word [] h = tt
keep-Word ([] ∷ ps) h = keep-Word ps h.1
keep-Word ((c ∷ p) ∷ ps) h = ((h.0, refl), keep-Word ps h.1)

-- The fields of a text are words.
pub fields-Word : (s : Text) → All Word (fields s)
unfolding fields
fields-Word s = keep-Word (parts s) (parts-Solid s)

-- The parts of a text that starts with a word.
parts-Solid_append : (p s : Text) → Solid p → parts (p ++ blank ∷ s) ≡ p ∷ parts s
unfolding parts
parts-Solid_append [] s h = refl
parts-Solid_append (c ∷ p) s h = rw (h.0) (ap (onto_first c) (parts-Solid_append p s h.1))

parts-Solid_self : (p : Text) → Solid p → parts p ≡ p ∷ []
unfolding parts
parts-Solid_self [] h = refl
parts-Solid_self (c ∷ p) h = rw (h.0) (ap (onto_first c) (parts-Solid_self p h.1))

fields-join_blank : (ps : List Text) → All Word ps → fields (join_blank ps) ≡ ps
unfolding fields join_blank
fields-join_blank [] h = unfold parts in refl
fields-join_blank (p ∷ []) h =
    ap (keep (λ q. not (text_eq q []))) (parts-Solid_self p h.0.0) ∙ rw (h.0.1) refl
fields-join_blank (p ∷ q ∷ ps) h =
    ap (keep (λ q. not (text_eq q []))) (parts-Solid_append p (join_blank (q ∷ ps)) h.0.0)
    ∙ rw (h.0.1) (ap (λ l. p ∷ l) (fields-join_blank (q ∷ ps) h.1))

-- The words of a text on one line are the words of the text.
pub fields-one_line : (s : Text) → fields (one_line s) ≡ fields s
unfolding one_line
fields-one_line s = fields-join_blank (fields s) (fields-Word s)
