-- ===== src/Sorting/Comparisons.antt =====
-- Comparisons into `Ordering`, such as Go's `cmp.Compare`, `strings.Compare` and `time.Compare`, and
-- their lexicographic combination.
use gator_cli.Prelude.{
  ◌≡◌, refl, Bool, true, false, [], ◌∷◌, arith, Text, text_compare, compare, Ordering,
}
use gator_cli.Sorting.{IsPreorder}

abbrev pub flip : Ordering → Ordering
flip Ordering.lt = Ordering.gt
flip Ordering.eq = Ordering.eq
flip Ordering.gt = Ordering.lt

abbrev pub not_greater : Ordering → Bool
not_greater Ordering.gt = false
not_greater Ordering.eq = true
not_greater Ordering.lt = true

-- A second comparison decides where the first finds no difference.
abbrev pub then_by : Ordering → Ordering → Ordering
then_by Ordering.eq rest = rest
then_by Ordering.lt rest = Ordering.lt
then_by Ordering.gt rest = Ordering.gt

pub record IsComparison {ℓ} {A : Type ℓ} (cmp : A → A → Ordering) : Type ℓ where
  pub flips : (a b : A) → cmp b a ≡ flip (cmp a b)
  pub lt_trans : (a b c : A) → cmp a b ≡ Ordering.lt → cmp b c ≡ Ordering.lt → cmp a c ≡ Ordering.lt
  pub eq_left : (a b c : A) → cmp a b ≡ Ordering.eq → cmp a c ≡ cmp b c

pub compare-IsComparison : IsComparison compare
compare-IsComparison = record {
  flips = λ a b. ground arith;
  lt_trans = λ a b c h k. ground arith;
  eq_left = λ a b c h. ground arith;
}

text_compare_flips : (s t : Text) → text_compare t s ≡ flip (text_compare s t)
text_compare_flips [] [] = refl
text_compare_flips [] (d ∷ t) = refl
text_compare_flips (c ∷ s) [] = refl
text_compare_flips (c ∷ s) (d ∷ t) = ground (arith, text_compare_flips s t)

text_compare_eq_left :
    (s t u : Text) → text_compare s t ≡ Ordering.eq → text_compare s u ≡ text_compare t u
text_compare_eq_left [] [] u h = refl
text_compare_eq_left [] (d ∷ t) u h = cc
text_compare_eq_left (c ∷ s) [] u h = cc
text_compare_eq_left (c ∷ s) (d ∷ t) [] h = refl
text_compare_eq_left (c ∷ s) (d ∷ t) (e ∷ u) h = ground (arith, text_compare_eq_left s t u)

text_compare_lt_trans :
    (s t u : Text)
    → text_compare s t ≡ Ordering.lt
    → text_compare t u ≡ Ordering.lt
    → text_compare s u ≡ Ordering.lt
text_compare_lt_trans [] [] [] h k = cc
text_compare_lt_trans [] (d ∷ t) [] h k = cc
text_compare_lt_trans [] t (e ∷ u) h k = refl
text_compare_lt_trans (c ∷ s) [] u h k = cc
text_compare_lt_trans (c ∷ s) (d ∷ t) [] h k = cc
text_compare_lt_trans (c ∷ s) (d ∷ t) (e ∷ u) h k = ground (
  arith,
  text_compare_lt_trans s t u,
  text_compare_eq_left s t u,
  text_compare_eq_left u t s,
  text_compare_flips t u,
)

pub text_compare-IsComparison : IsComparison text_compare
text_compare-IsComparison = record {
  flips = text_compare_flips;
  lt_trans = text_compare_lt_trans;
  eq_left = text_compare_eq_left;
}

-- Lexicographic: by the first comparison, then by the second.
pub then_by-IsComparison {ℓ} :
    {A : Type ℓ} (f g : A → A → Ordering)
    → IsComparison f
    → IsComparison g
    → IsComparison (λ a b. then_by (f a b) (g a b))
then_by-IsComparison f g hf hg = record {
  flips = λ a b. ground (arith, hf.flips a b, hg.flips a b);
  lt_trans = λ a b c h k. ground (
    arith,
    hf.lt_trans a b c,
    hg.lt_trans a b c,
    hf.eq_left a b c,
    hf.eq_left b c a,
    hf.flips a b,
    hf.flips a c,
    hf.flips b c,
    hf.eq_left c b a,
  );
  eq_left = λ a b c h. ground (arith, hf.eq_left a b c, hg.eq_left a b c);
}

-- The comparison of a key.
pub on_key-IsComparison {ℓ κ} :
    {A : Type ℓ} {K : Type κ} (key : A → K) (cmp : K → K → Ordering)
    → IsComparison cmp
    → IsComparison (λ a b. cmp (key a) (key b))
on_key-IsComparison key cmp h = record {
  flips = λ a b. h.flips (key a) (key b);
  lt_trans = λ a b c. h.lt_trans (key a) (key b) (key c);
  eq_left = λ a b c. h.eq_left (key a) (key b) (key c);
}

-- The comparison the other way round.
pub reversed-IsComparison {ℓ} :
    {A : Type ℓ} (cmp : A → A → Ordering) → IsComparison cmp → IsComparison (λ a b. cmp b a)
reversed-IsComparison cmp h = record {
  flips = λ a b. h.flips b a;
  lt_trans = λ a b c p q. h.lt_trans c b a q p;
  eq_left = λ a b c p.
      ground
        (arith, h.flips a b, h.flips a c, h.flips b c, h.eq_left b a c, h.flips c a, h.flips c b);
}

pub not_greater-IsPreorder {ℓ} :
    {A : Type ℓ} (cmp : A → A → Ordering)
    → IsComparison cmp
    → IsPreorder (λ a b. not_greater (cmp a b))
not_greater-IsPreorder cmp h = record {
  le_total = λ a b p. ground (arith, h.flips a b);
  le_trans = λ a b c p q. ground (
    arith,
    h.flips a b,
    h.flips b c,
    h.flips a c,
    h.lt_trans a b c,
    h.eq_left a b c,
    h.eq_left c b a,
    h.eq_left b c a,
  );
}
