-- ===== src/Grouping.antt =====
-- The way in which the program groups things by a text of theirs: a map from the texts to lists, and
-- the texts sorted (`groupFeeds` of internal/tui/folders.go, `Write` of internal/opml/opml.go).
use mathlib.Core.List.{Perm, perm_middle}
use mathlib.Core.List.Perm
use mathlib.Core.Path.{subst}
use gator_cli.Prelude.{
  text_eq_comm, append-nil, append_assoc, ◌≡◌, refl, ap, sym, ◌∙◌, Bool, true, false, not, ◌&&◌,
  ◌||◌, if◌then◌else◌, List, [], ◌∷◌, ◌++◌, Text, text_eq, text_eq_refl, text_eq_iff, text_compare,
  arith, any, All, keep, Bool-cases, inl, inr,
}
use gator_cli.Sorting.{insert, sort_stable}
use gator_cli.Sorting.Comparisons.{not_greater}

abbrev pub text_before : Text → Text → Bool
text_before s t = not_greater (text_compare s t)

-- `sort.Strings`
abbrev pub sort_texts : List Text → List Text
sort_texts = sort_stable text_before

-- The texts are all different.
abbrev pub Different : List Text → Type 0
Different [] = Unit
Different (n ∷ ns) = (any (text_eq n) ns ≡ false) × Different ns

any-insert_text :
    (m n : Text) (ns : List Text)
    → any (text_eq m) (insert text_before n ns) ≡ (text_eq m n || any (text_eq m) ns)
unfolding insert
any-insert_text m n [] = refl
any-insert_text m n (k ∷ ns) = ground (arith, any-insert_text m n ns)

pub any-sort_texts :
    (m : Text) (ns : List Text) → any (text_eq m) (sort_texts ns) ≡ any (text_eq m) ns
unfolding sort_stable
any-sort_texts m [] = refl
any-sort_texts m (n ∷ ns) = ground (arith, any-insert_text m n (sort_texts ns), any-sort_texts m ns)

insert-Different :
    (n : Text) (ns : List Text)
    → any (text_eq n) ns ≡ false
    → Different ns
    → Different (insert text_before n ns)
unfolding insert
insert-Different n [] h d = (h, d)
insert-Different n (k ∷ ns) h d = elim (Bool-cases (text_before n k)) [
  | inl e ↦ rw e (h, d)
  | inr e ↦ rw e (
    ground (arith, any-insert_text k n ns, text_eq_comm n k),
    insert-Different n ns (ground arith) d.1,
  )
]

pub sort_texts-Different : (ns : List Text) → Different ns → Different (sort_texts ns)
unfolding sort_stable
sort_texts-Different [] d = d
sort_texts-Different (n ∷ ns) d =
    insert-Different n (sort_texts ns) (any-sort_texts n ns ∙ d.0) (sort_texts-Different ns d.1)

pub any-append_text :
    (m : Text) (xs ys : List Text)
    → any (text_eq m) (xs ++ ys) ≡ (any (text_eq m) xs || any (text_eq m) ys)
any-append_text m [] ys = refl
any-append_text m (x ∷ xs) ys = ground (arith, any-append_text m xs ys)

-- The empty text can be added.
pub snoc_empty-Different :
    (ns : List Text) → any (text_eq []) ns ≡ false → Different ns → Different (ns ++ [] ∷ [])
snoc_empty-Different [] h d = (refl, tt)
snoc_empty-Different ([] ∷ ns) h d = absurd (cc (h))
snoc_empty-Different ((c ∷ n) ∷ ns) h d =
    (ground (arith, any-append_text (c ∷ n) ns ([] ∷ []), d.0), snoc_empty-Different ns h d.1)

module _ {A : Type 0} (key : A → Text) where
  -- The texts other than the empty one, each once.
  unfoldable pub group_names : List A → List Text
  group_names [] = []
  group_names (x ∷ xs) =
      let names = group_names xs in
      if text_eq (key x) [] || any (text_eq (key x)) names then names else key x ∷ names

  abbrev pub in_group : Text → A → Bool
  in_group n x = text_eq (key x) n

  -- The groups one behind the other.
  unfoldable pub in_groups : List Text → List A → List A
  in_groups [] xs = []
  in_groups (n ∷ ns) xs = keep (in_group n) xs ++ in_groups ns xs

  abbrev pub Covers : List Text → List A → Type 0
  Covers ns xs = All (λ x. any (text_eq (key x)) ns ≡ true) xs

  partition-perm : (p : A → Bool) (xs : List A) → Perm (keep p xs ++ keep (λ x. not (p x)) xs) xs
  partition-perm p [] = Perm.refl _
  partition-perm p (x ∷ xs) = elim (Bool-cases (p x)) [
    | inl e ↦ rw e (Perm.cons x (partition-perm p xs))
    | inr e ↦ rw e (Perm.trans (perm_middle (keep p xs) _) (Perm.cons x (partition-perm p xs)))
  ]

  keep-other :
      (m n : Text) (xs : List A)
      → text_eq n m ≡ false
      → keep (in_group m) (keep (λ x. not (in_group n x)) xs) ≡ keep (in_group m) xs
  keep-other m n [] h = refl
  keep-other m n (x ∷ xs) h = elim (Bool-cases (in_group n x)) [
    | inl e ↦
        let other : in_group m x ≡ false =
          ap (λ k. text_eq k m) ((text_eq_iff (key x) n).0 e) ∙ h in
        rw (e, other) (keep-other m n xs h)
    | inr e ↦ rw e (ap (λ l. if in_group m x then x ∷ l else l) (keep-other m n xs h))
  ]

  pub in_groups-other :
      (n : Text) (ns : List Text) (xs : List A)
      → any (text_eq n) ns ≡ false
      → in_groups ns (keep (λ x. not (in_group n x)) xs) ≡ in_groups ns xs
  unfolding in_groups
  in_groups-other n [] xs h = refl
  in_groups-other n (m ∷ ns) xs h =
      ap (λ l. l ++ in_groups ns (keep (λ x. not (in_group n x)) xs))
        (keep-other m n xs (ground arith))
      ∙ ap (λ l. keep (in_group m) xs ++ l) (in_groups-other n ns xs (ground arith))

  Covers-rest :
      (n : Text) (ns : List Text) (xs : List A)
      → Covers (n ∷ ns) xs
      → Covers ns (keep (λ x. not (in_group n x)) xs)
  Covers-rest n ns [] h = tt
  Covers-rest n ns (x ∷ xs) h = elim (Bool-cases (in_group n x)) [
    | inl e ↦ rw e (Covers-rest n ns xs h.1)
    | inr e ↦ rw e (ground (arith, h.0, e), Covers-rest n ns xs h.1)
  ]

  Covers-none : (xs : List A) → Covers [] xs → [] ≡ xs
  Covers-none [] h = refl
  Covers-none (x ∷ xs) h = absurd (cc (h.0))

  -- Groups with different names that cover the list are a rearrangement of it.
  pub in_groups-perm :
      (ns : List Text) (xs : List A) → Different ns → Covers ns xs → Perm (in_groups ns xs) xs
  unfolding in_groups
  in_groups-perm [] xs d h = subst (Perm []) (Covers-none xs h) (Perm.refl [])
  in_groups-perm (n ∷ ns) xs d h =
      Perm.trans
        (Perm.append_left (keep (in_group n) xs) (
          subst (λ l. Perm l (keep (λ x. not (in_group n x)) xs)) (in_groups-other n ns xs d.0)
            (in_groups-perm ns (keep (λ x. not (in_group n x)) xs) d.1 (Covers-rest n ns xs h))))
        (partition-perm (in_group n) xs)

  pub group_names-Different : (xs : List A) → Different (group_names xs)
  unfolding group_names
  group_names-Different [] = tt
  group_names-Different (x ∷ xs) =
      elim (Bool-cases (text_eq (key x) [] || any (text_eq (key x)) (group_names xs))) [
        | inl e ↦ rw e (group_names-Different xs)
        | inr e ↦ rw e (ground (arith, e), group_names-Different xs)
      ]

  abbrev Named : Text → List A → Type 0
  Named n xs =
      any (text_eq n) (group_names xs) ≡ (not (text_eq n []) && any (λ x. text_eq n (key x)) xs)

  -- The names are those of the list.
  pub any-group_names :
      (n : Text) (xs : List A)
      → any (text_eq n) (group_names xs) ≡ (not (text_eq n []) && any (λ x. text_eq n (key x)) xs)
  unfolding group_names
  any-group_names n [] = ground arith
  any-group_names n (x ∷ xs) = elim (Bool-cases (text_eq n (key x))) [
    | inl e ↦
        subst (λ m. Named m (x ∷ xs)) (sym ((text_eq_iff n (key x)).0 e))
          (ground (arith, text_eq_refl (key x), any-group_names (key x) xs))
    | inr e ↦ ground (arith, e, any-group_names n xs)
  ]

  or_true : (b : Bool) → (b || true) ≡ true
  or_true b = ground arith

  covers_one :
      (k : Text) (all : List A)
      → any (λ x. text_eq k (key x)) all ≡ true
      → any (text_eq k) (sort_texts (group_names all) ++ [] ∷ []) ≡ true
  covers_one [] all h = any-append_text [] (sort_texts (group_names all)) ([] ∷ []) ∙ or_true _
  covers_one (c ∷ k) all h =
      any-append_text (c ∷ k) (sort_texts (group_names all)) ([] ∷ [])
      ∙ ap (λ b. b || false)
          (any-sort_texts (c ∷ k) (group_names all) ∙ any-group_names (c ∷ k) all ∙ h)

  -- The names with the empty one behind them cover the list that they come from.
  pub Covers-sort_texts :
      (xs all : List A)
      → ((k : Text)
          → any (λ x. text_eq k (key x)) xs ≡ true
          → any (λ x. text_eq k (key x)) all ≡ true)
      → Covers (sort_texts (group_names all) ++ [] ∷ []) xs
  Covers-sort_texts [] all h = tt
  Covers-sort_texts (x ∷ xs) all h = (
    covers_one (key x) all
        (h (key x) (ap (λ b. b || any (λ y. text_eq (key x) (key y)) xs) (text_eq_refl (key x)))),
    Covers-sort_texts xs all (λ k m. h k (ground (arith, m))),
  )

  pub in_groups-snoc :
      (ns : List Text) (n : Text) (xs : List A)
      → in_groups (ns ++ n ∷ []) xs ≡ in_groups ns xs ++ keep (in_group n) xs
  unfolding in_groups
  in_groups-snoc [] n xs = append-nil (keep (in_group n) xs)
  in_groups-snoc (m ∷ ns) n xs =
      ap (λ l. keep (in_group m) xs ++ l) (in_groups-snoc ns n xs)
      ∙ sym (append_assoc (keep (in_group m) xs) (in_groups ns xs) (keep (in_group n) xs))
