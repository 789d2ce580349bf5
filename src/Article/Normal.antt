-- ===== src/Article/Normal.antt =====
-- The normal form of the text of an article (internal/article/article.go).
use mathlib.Core.Path.{subst}
use gator_cli.Prelude.{
  ℕ, ◌≡◌, refl, ap, ◌∙◌, ◌==◌, false, not, List, [], ◌∷◌, Text, text_eq, All, All-append, split_at,
  arith, is_space, Bool-cases, inl, inr,
}
use gator_cli.Store.{Result, ok, err}
use gator_cli.TextLines.{parts, fields, join_blank, one_line}
use gator_cli.Offline.Queue.Lines.{split_at-append}
use gator_cli.TextLines.Fields.{Word, fields-Word, fields-one_line}
use gator_cli.Article.{
  newline, Article, Parsed, paragraphs, join_paragraphs, normalise, body_text, extract,
}

abbrev LacksNewline : Text → Type 0
LacksNewline s = All (λ c. (c == newline) ≡ false) s

visible_lacks : (c : ℕ) → is_space c ≡ false → (c == newline) ≡ false
visible_lacks c h = ground (arith, h)

word_lacks : (p : Text) → All (λ c. is_space c ≡ false) p → LacksNewline p
word_lacks [] h = tt
word_lacks (c ∷ p) h = (visible_lacks c h.0, word_lacks p h.1)

join_blank_lacks : (ps : List Text) → All Word ps → LacksNewline (join_blank ps)
unfolding join_blank
join_blank_lacks [] h = tt
join_blank_lacks (p ∷ []) h = word_lacks p h.0.0
join_blank_lacks (p ∷ q ∷ ps) h =
    All-append _ p _ (word_lacks p h.0.0) (refl, join_blank_lacks (q ∷ ps) h.1)

one_line_lacks : (s : Text) → LacksNewline (one_line s)
unfolding one_line
one_line_lacks s = join_blank_lacks (fields s) (fields-Word s)

one_line_idem : (s : Text) → one_line (one_line s) ≡ one_line s
one_line_idem s = unfold one_line in ap join_blank (fields-one_line s)

-- A line in normal form.
abbrev Line : Text → Type 0
Line p = LacksNewline p × (one_line p ≡ p) × (text_eq p [] ≡ false)

paragraphs-Line : (ps : List Text) → All Line (paragraphs ps)
unfolding paragraphs
paragraphs-Line [] = tt
paragraphs-Line (p ∷ ps) = elim (Bool-cases (not (text_eq (one_line p) []))) [
  | inl e ↦ rw e ((one_line_lacks p, one_line_idem p, ground (arith, e)), paragraphs-Line ps)
  | inr e ↦ rw e (paragraphs-Line ps)
]

split_at_self : (p : Text) → LacksNewline p → split_at newline p ≡ p ∷ []
split_at_self [] h = refl
split_at_self (c ∷ p) h = rw (h.0, split_at_self p h.1) refl

paragraphs-cons : (p : Text) (ps : List Text) → Line p → paragraphs (p ∷ ps) ≡ p ∷ paragraphs ps
unfolding paragraphs
paragraphs-cons p ps h = rw (h.1, h.2) refl

paragraphs-blank : (ps : List Text) → paragraphs ([] ∷ ps) ≡ paragraphs ps
unfolding paragraphs one_line fields join_blank parts
paragraphs-blank ps = refl

paragraphs-join_paragraphs :
    (ps : List Text) → All Line ps → paragraphs (split_at newline (join_paragraphs ps)) ≡ ps
unfolding join_paragraphs
paragraphs-join_paragraphs [] h = paragraphs-blank [] ∙ unfold paragraphs in refl
paragraphs-join_paragraphs (p ∷ []) h =
    ap paragraphs (split_at_self p h.0.0) ∙ paragraphs-cons p [] h.0 ∙ unfold paragraphs in refl
paragraphs-join_paragraphs (p ∷ q ∷ ps) h =
    let rest = join_paragraphs (q ∷ ps) in
    ap paragraphs (split_at-append newline p (newline ∷ rest) h.0.0)
    ∙ paragraphs-cons p ([] ∷ split_at newline rest) h.0
    ∙ ap (λ l. p ∷ l)
        (paragraphs-blank (split_at newline rest) ∙ paragraphs-join_paragraphs (q ∷ ps) h.1)

normalise_idem : (s : Text) → normalise (normalise s) ≡ normalise s
unfolding normalise
normalise_idem s = ap join_paragraphs (
    paragraphs-join_paragraphs (paragraphs (split_at newline s))
      (paragraphs-Line (split_at newline s)))

ok_cancel : {A : Type 0} {x y : A} → ◌≡◌ {A = Result A} (ok x) (ok y) → x ≡ y
ok_cancel h = cc

module _ (strip_html : Text → Text) where
  body_text_normal :
      (parsed : Parsed) → normalise (body_text strip_html parsed) ≡ body_text strip_html parsed
  unfolding body_text
  body_text_normal parsed = elim (Bool-cases (text_eq (normalise (strip_html parsed.content)) [])) [
    | inl e ↦ rw e (normalise_idem parsed.text_content)
    | inr e ↦ rw e (normalise_idem (strip_html parsed.content))
  ]

  -- If Extract succeeds, the text of the article is not empty, and normalising it again changes
  -- nothing.
  pub extract-normalise :
      (url : Text) (found : Result Parsed) (a : Article)
      → extract strip_html url found ≡ ok a
      → (text_eq a.text [] ≡ false) × (normalise a.text ≡ a.text)
  unfolding extract
  extract-normalise url (err e) a h = cc
  extract-normalise url (ok parsed) a h =
      elim (Bool-cases (text_eq (body_text strip_html parsed) [])) [
        | inl e ↦ absurd (cc (rw e at h))
        | inr e ↦
            subst (λ (b : Article). (text_eq b.text [] ≡ false) × (normalise b.text ≡ b.text))
              (ok_cancel (rw e at h)) (e, body_text_normal parsed)
      ]
