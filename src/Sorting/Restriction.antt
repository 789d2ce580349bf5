-- ===== src/Sorting/Restriction.antt =====
-- The elements of a sorted list that pass a test, and sorting by two orders that agree on a list.
use gator_cli.Prelude.{
  ◌≡◌, refl, ap, sym, ◌∙◌, Bool, true, false, List, [], ◌∷◌, arith, Bool-cases, inl, inr, All, keep,
}
use gator_cli.Sorting.{
  insert, sort_stable, sort_stable-All, IsSorted, IsPreorder, sort_stable-IsSorted,
}

keep-All {ℓ} :
    {A : Type ℓ} (P : A → Type 0) (p : A → Bool) (xs : List A) → All P xs → All P (keep p xs)
keep-All P p [] h = tt
keep-All P p (x ∷ xs) h = elim (Bool-cases (p x)) [
  | inl e ↦ rw e (h.0, keep-All P p xs h.1)
  | inr e ↦ rw e (keep-All P p xs h.1)
]

pub kept_pass {ℓ} : {A : Type ℓ} (p : A → Bool) (xs : List A) → All (λ x. p x ≡ true) (keep p xs)
kept_pass p [] = tt
kept_pass p (x ∷ xs) = elim (Bool-cases (p x)) [
  | inl e ↦ rw e (e, kept_pass p xs)
  | inr e ↦ rw e (kept_pass p xs)
]

module _ {ℓ} {A : Type ℓ} (le : A → A → Bool) where
  insert_front : (x : A) (ys : List A) → All (λ y. le x y ≡ true) ys → insert le x ys ≡ x ∷ ys
  unfolding insert
  insert_front x [] h = refl
  insert_front x (y ∷ ys) h = rw h.0 refl

  insert_behind :
      (x y : A) (ys : List A) → le x y ≡ false → insert le x (y ∷ ys) ≡ y ∷ insert le x ys
  unfolding insert
  insert_behind x y ys h = rw h refl

  module _ (order : IsPreorder le) where
    above :
        (x y : A) (ys : List A)
        → le x y ≡ true
        → All (λ z. le y z ≡ true) ys
        → All (λ z. le x z ≡ true) ys
    above x y [] h k = tt
    above x y (z ∷ zs) h k = (order.le_trans x y z h k.0, above x y zs h k.1)

    keep-insert_sorted :
        (p : A → Bool) (x : A) (ys : List A)
        → IsSorted le ys
        → p x ≡ true
        → keep p (insert le x ys) ≡ insert le x (keep p ys)
    unfolding insert
    keep-insert_sorted p x [] h px = rw px refl
    keep-insert_sorted p x (y ∷ ys) h px = elim (Bool-cases (le x y)) [
      | inl e ↦
          rw (e, px)
            (sym (
              insert_front x (keep p (y ∷ ys))
                (keep-All (λ z. le x z ≡ true) p (y ∷ ys) (e, above x y ys e h.0))))
      | inr e ↦ rw e (elim (Bool-cases (p y)) [
        | inl py ↦ rw (py, e) (ap (λ l. y ∷ l) (keep-insert_sorted p x ys h.1 px))
        | inr ny ↦ rw ny (keep-insert_sorted p x ys h.1 px)
      ])
    ]

    keep-insert_other :
        (p : A → Bool) (x : A) (ys : List A) → p x ≡ false → keep p (insert le x ys) ≡ keep p ys
    unfolding insert
    keep-insert_other p x [] px = rw px refl
    keep-insert_other p x (y ∷ ys) px = ground (arith, keep-insert_other p x ys px)

    -- Sorting and selecting commute.
    pub keep-sort :
        (p : A → Bool) (xs : List A) → keep p (sort_stable le xs) ≡ sort_stable le (keep p xs)
    unfolding sort_stable
    keep-sort p [] = refl
    keep-sort p (x ∷ xs) = elim (Bool-cases (p x)) [
      | inl px ↦ rw px (
          keep-insert_sorted p x (sort_stable le xs) (sort_stable-IsSorted le order xs) px
          ∙ ap (insert le x) (keep-sort p xs))
      | inr nx ↦ rw nx (keep-insert_other p x (sort_stable le xs) nx ∙ keep-sort p xs)
    ]

module _ {ℓ} {A : Type ℓ} (le le' : A → A → Bool) (P : A → Type 0) where
  module _ (agree : (x y : A) → P x → P y → le x y ≡ le' x y) where
    insert_agree : (x : A) (ys : List A) → P x → All P ys → insert le x ys ≡ insert le' x ys
    unfolding insert
    insert_agree x [] h k = refl
    insert_agree x (y ∷ ys) h k = ground (arith, agree x y h k.0, insert_agree x ys h k.1)

    -- Two orders that agree on the elements sort them alike.
    pub sort_agree : (xs : List A) → All P xs → sort_stable le xs ≡ sort_stable le' xs
    unfolding sort_stable
    sort_agree [] h = refl
    sort_agree (x ∷ xs) h =
        insert_agree x (sort_stable le xs) h.0 (sort_stable-All le P xs h.1)
        ∙ ap (insert le' x) (sort_agree xs h.1)
