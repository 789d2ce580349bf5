-- ===== src/Sorting.antt =====
-- `slices.SortStableFunc` and `sort.Strings`: a stable sort by a Boolean `le`. The result of a
-- stable sort is determined by its order, so an insertion sort stands for the library's.
pub mod Comparisons
pub mod Restriction
use gator_cli.Prelude.{
  All-drop, All-take, ℕ, zero, ◌==◌, ◌||◌, any, any-take, take, drop, ◌∙◌, suc, ◌≡◌, refl, Bool,
  true, false, List, [], ◌∷◌, arith, if◌then◌else◌, Bool-cases, inl, inr, All, keep, length,
}
use mathlib.Core.List.{Perm}
use mathlib.Core.List.Perm

-- No two elements have the same key.
abbrev pub Apart {ℓ} : {A : Type ℓ} → (A → ℕ) → List A → Type 0
Apart key [] = Unit
Apart key (x ∷ xs) = (any (λ y. key y == key x) xs ≡ false) × Apart key xs

pub Apart-take {ℓ} :
    {A : Type ℓ} (key : A → ℕ) (n : ℕ) (xs : List A) → Apart key xs → Apart key (take n xs)
Apart-take key zero xs d = tt
Apart-take key (suc n) [] d = tt
Apart-take key (suc n) (x ∷ xs) d =
    (any-take (λ y. key y == key x) n xs d.0, Apart-take key n xs d.1)

module _ {ℓ} {A : Type ℓ} (le : A → A → Bool) where
  -- `x` was before the elements of the sorted tail, so it goes before its equals.
  unfoldable pub insert : A → List A → List A
  insert x [] = x ∷ []
  insert x (y ∷ ys) = if le x y then x ∷ y ∷ ys else y ∷ insert x ys

  unfoldable pub sort_stable : List A → List A
  unfolding insert
  sort_stable [] = []
  sort_stable (x ∷ xs) = insert x (sort_stable xs)

  abbrev pub IsSorted : List A → Type 0
  IsSorted [] = Unit
  IsSorted (x ∷ xs) = All (λ y. le x y ≡ true) xs × IsSorted xs

  insert-perm : (x : A) (xs : List A) → Perm (insert x xs) (x ∷ xs)
  unfolding insert
  insert-perm x [] = Perm.refl _
  insert-perm x (y ∷ ys) = elim (Bool-cases (le x y)) [
    | inl e ↦ rw e (Perm.refl _)
    | inr e ↦ rw e (Perm.trans (Perm.cons y (insert-perm x ys)) (Perm.swap x y ys))
  ]

  pub sort_stable-perm : (xs : List A) → Perm (sort_stable xs) xs
  unfolding sort_stable
  sort_stable-perm [] = Perm.refl _
  sort_stable-perm (x ∷ xs) =
      Perm.trans (insert-perm x (sort_stable xs)) (Perm.cons x (sort_stable-perm xs))

  length-insert : (x : A) (xs : List A) → length (insert x xs) ≡ suc (length xs)
  unfolding insert
  length-insert x [] = refl
  length-insert x (y ∷ ys) = ground (arith, length-insert x ys)

  pub length-sort_stable : (xs : List A) → length (sort_stable xs) ≡ length xs
  unfolding sort_stable
  length-sort_stable [] = refl
  length-sort_stable (x ∷ xs) =
      ground (arith, length-insert x (sort_stable xs), length-sort_stable xs)

  insert-All : (P : A → Type 0) (x : A) (xs : List A) → P x → All P xs → All P (insert x xs)
  unfolding insert
  insert-All P x [] h k = (h, tt)
  insert-All P x (y ∷ ys) h k = elim (Bool-cases (le x y)) [
    | inl e ↦ rw e (h, k)
    | inr e ↦ rw e (k.0, insert-All P x ys h k.1)
  ]

  pub sort_stable-All : (P : A → Type 0) (xs : List A) → All P xs → All P (sort_stable xs)
  unfolding sort_stable
  sort_stable-All P [] h = tt
  sort_stable-All P (x ∷ xs) h = insert-All P x (sort_stable xs) h.0 (sort_stable-All P xs h.1)

  any-insert : (p : A → Bool) (x : A) (xs : List A) → any p (insert x xs) ≡ (p x || any p xs)
  unfolding insert
  any-insert p x [] = refl
  any-insert p x (y ∷ ys) = ground (arith, any-insert p x ys)

  pub any-sort_stable : (p : A → Bool) (xs : List A) → any p (sort_stable xs) ≡ any p xs
  unfolding sort_stable
  any-sort_stable p [] = refl
  any-sort_stable p (x ∷ xs) = ground (arith, any-insert p x (sort_stable xs), any-sort_stable p xs)

  Apart-insert :
      (key : A → ℕ) (x : A) (xs : List A)
      → any (λ y. key y == key x) xs ≡ false
      → Apart key xs
      → Apart key (insert x xs)
  unfolding insert
  Apart-insert key x [] h d = (h, d)
  Apart-insert key x (y ∷ ys) h d = elim (Bool-cases (le x y)) [
    | inl e ↦ rw e (h, d)
    | inr e ↦ rw e (
      ground (arith, any-insert (λ z. key z == key y) x ys),
      Apart-insert key x ys (ground arith) d.1,
    )
  ]

  pub Apart-sort_stable : (key : A → ℕ) (xs : List A) → Apart key xs → Apart key (sort_stable xs)
  unfolding sort_stable
  Apart-sort_stable key [] d = d
  Apart-sort_stable key (x ∷ xs) d =
      Apart-insert key x (sort_stable xs) (any-sort_stable (λ y. key y == key x) xs ∙ d.0)
        (Apart-sort_stable key xs d.1)

  -- Stability: of elements that are pairwise in order both ways, the order is kept.
  keep-insert :
      (p : A → Bool) (x : A) (xs : List A)
      → ((y : A) → p x ≡ true → p y ≡ true → le x y ≡ true)
      → keep p (insert x xs) ≡ keep p (x ∷ xs)
  unfolding insert
  keep-insert p x [] h = refl
  keep-insert p x (y ∷ ys) h = ground (arith, h y, keep-insert p x ys h)

  pub keep-sort_stable :
      (p : A → Bool) (xs : List A)
      → ((x y : A) → p x ≡ true → p y ≡ true → le x y ≡ true)
      → keep p (sort_stable xs) ≡ keep p xs
  unfolding sort_stable
  keep-sort_stable p [] h = refl
  keep-sort_stable p (x ∷ xs) h =
      ground (arith, keep-insert p x (sort_stable xs) (h x), keep-sort_stable p xs h)

-- A comparison that is total and transitive, as the sorts of the program demand.
pub record IsPreorder {ℓ} {A : Type ℓ} (le : A → A → Bool) : Type ℓ where
  pub le_total : (a b : A) → le a b ≡ false → le b a ≡ true
  pub le_trans : (a b c : A) → le a b ≡ true → le b c ≡ true → le a c ≡ true

module _ {ℓ} {A : Type ℓ} (le : A → A → Bool) (order : IsPreorder le) where
  All-trans :
      (x y : A) (ys : List A)
      → le x y ≡ true
      → All (λ z. le y z ≡ true) ys
      → All (λ z. le x z ≡ true) ys
  All-trans x y [] h k = tt
  All-trans x y (z ∷ zs) h k = (order.le_trans x y z h k.0, All-trans x y zs h k.1)

  insert-IsSorted : (x : A) (xs : List A) → IsSorted le xs → IsSorted le (insert le x xs)
  unfolding insert
  insert-IsSorted x [] h = (tt, tt)
  insert-IsSorted x (y ∷ ys) h = elim (Bool-cases (le x y)) [
    | inl e ↦ rw e ((e, All-trans x y ys e h.0), h)
    | inr e ↦ rw e (
      insert-All le (λ z. le y z ≡ true) x ys (order.le_total x y e) h.0,
      insert-IsSorted x ys h.1,
    )
  ]

  pub sort_stable-IsSorted : (xs : List A) → IsSorted le (sort_stable le xs)
  unfolding sort_stable
  sort_stable-IsSorted [] = tt
  sort_stable-IsSorted (x ∷ xs) = insert-IsSorted x (sort_stable le xs) (sort_stable-IsSorted xs)

-- Of a sorted list cut in two, each element in front is in order with each behind.
pub IsSorted-take-drop {ℓ} :
    {A : Type ℓ} (le : A → A → Bool) (n : ℕ) (xs : List A)
    → IsSorted le xs
    → All (λ x. All (λ y. le x y ≡ true) (drop n xs)) (take n xs)
IsSorted-take-drop le zero xs h = tt
IsSorted-take-drop le (suc n) [] h = tt
IsSorted-take-drop le (suc n) (x ∷ xs) h =
    (All-drop (λ y. le x y ≡ true) n xs h.0, IsSorted-take-drop le n xs h.1)

pub IsSorted-take {ℓ} :
    {A : Type ℓ} (le : A → A → Bool) (n : ℕ) (xs : List A)
    → IsSorted le xs
    → IsSorted le (take n xs)
IsSorted-take le zero xs h = tt
IsSorted-take le (suc n) [] h = tt
IsSorted-take le (suc n) (x ∷ xs) h =
    (All-take (λ y. le x y ≡ true) n xs h.0, IsSorted-take le n xs h.1)
