-- ===== src/Offline/Filter/Substrings.antt =====
-- `strings.Contains`, as internal/store/offline/filter.go uses it, and where a text occurs.
use gator_cli.Prelude.{
  ◌≡◌, refl, ap, true, [], ◌∷◌, ◌++◌, arith, Text, has_prefix, has_text, Bool-cases, inl, inr,
  ==_refl, ◌↔◌,
}

abbrev pub Occurs : Text → Text → Type 0
Occurs t s = (before : Text) × (after : Text) × (s ≡ before ++ (t ++ after))

has_prefix→ : (s t : Text) → has_prefix s t ≡ true → (after : Text) × (s ≡ t ++ after)
has_prefix→ s [] h = (s, refl)
has_prefix→ [] (d ∷ t) h = absurd (cc)
has_prefix→ (c ∷ s) (d ∷ t) h =
    let (after, e) = has_prefix→ s t (ground arith) in (after, ground arith)

has_prefix-append : (t after : Text) → has_prefix (t ++ after) t ≡ true
has_prefix-append [] after = prefix_nil after
  where
    prefix_nil : (s : Text) → has_prefix s [] ≡ true
    prefix_nil [] = refl
    prefix_nil (c ∷ s) = refl
has_prefix-append (d ∷ t) after = rw (==_refl d) (has_prefix-append t after)

has_text→ : (s t : Text) → has_text s t ≡ true → Occurs t s
has_text→ [] t h = let (after, e) = has_prefix→ [] t h in ([], after, e)
has_text→ (c ∷ s) t h = elim (Bool-cases (has_prefix (c ∷ s) t)) [
  | inl p ↦ let (after, e) = has_prefix→ (c ∷ s) t p in ([], after, e)
  | inr p ↦
      let (before, after, e) = has_text→ s t (ground arith) in
      (c ∷ before, after, ap (λ r. c ∷ r) e)
]

has_text-prefix : (s t : Text) → has_prefix s t ≡ true → has_text s t ≡ true
has_text-prefix [] t h = h
has_text-prefix (c ∷ s) t h = rw h refl

has_text-append : (before t after : Text) → has_text (before ++ (t ++ after)) t ≡ true
has_text-append [] t after = has_text-prefix (t ++ after) t (has_prefix-append t after)
has_text-append (c ∷ before) t after = ground (arith, has_text-append before t after)

pub has_text_iff : (s t : Text) → (has_text s t ≡ true) ↔ Occurs t s
has_text_iff s t = (has_text→ s t, λ o. rw o.2 (has_text-append o.0 t o.1))
