-- ===== src/Tui/Folders/Contents.antt =====
-- Which feeds are in which folder (internal/tui/folders.go).
use mathlib.Core.List.{Perm}
use mathlib.Core.List.Perm
use gator_cli.Prelude.{
  ◌≡◌, refl, ap, sym, ◌∙◌, Bool, true, ◌||◌, if◌then◌else◌, List, [], ◌∷◌, ◌++◌, append-nil, Text,
  text_eq, text_eq_refl, arith, any, keep, Bool-cases, inl, inr,
}
use gator_cli.Database.{Subscription}
use gator_cli.Grouping.{
  any-append_text, snoc_empty-Different, sort_texts, any-sort_texts, Different,
  sort_texts-Different, group_names, in_group, in_groups, Covers, in_groups-perm,
  group_names-Different, any-group_names,
}
use gator_cli.Tui.Folders.{Folder, category, folder_names, folders_of, group_feeds}

-- The feeds of the folders, one folder after another.
abbrev pub feeds_in : List Folder → List Subscription
feeds_in [] = []
feeds_in (f ∷ fs) = f.feeds ++ feeds_in fs

pub folder_names-Different : (rows : List Subscription) → Different (folder_names rows)
unfolding folder_names
folder_names-Different rows =
    let names = group_names category rows in
    let named = sort_texts-Different names (group_names-Different category rows) in
    elim (Bool-cases (any (λ (r : Subscription). text_eq r.category []) rows)) [
      | inl e ↦ rw e (
          snoc_empty-Different (sort_texts names)
            (any-sort_texts [] names ∙ any-group_names category [] rows) named)
      | inr e ↦ rw (e, append-nil (sort_texts names)) named
    ]

empty_comm : (s : Text) → text_eq [] s ≡ text_eq s []
empty_comm [] = refl
empty_comm (c ∷ s) = refl

any_empty :
    (rows : List Subscription)
    → any (λ (r : Subscription). text_eq [] r.category) rows
      ≡ any (λ (r : Subscription). text_eq r.category []) rows
any_empty [] = refl
any_empty (r ∷ rows) = cc (empty_comm r.category, any_empty rows)

or_true : (b : Bool) → (b || true) ≡ true
or_true b = ground arith

any-folder_names :
    (n : Text) (rows : List Subscription)
    → any (λ (r : Subscription). text_eq n r.category) rows ≡ true
    → any (text_eq n) (folder_names rows) ≡ true
unfolding folder_names
any-folder_names [] rows h =
    let e = sym (any_empty rows) ∙ h in
    let names = sort_texts (group_names category rows) in
    rw e (any-append_text [] names ([] ∷ []) ∙ or_true (any (text_eq []) names))
any-folder_names (c ∷ n) rows h =
    let names = group_names category rows in
    let last : List Text =
      if any (λ (r : Subscription). text_eq r.category []) rows then [] ∷ [] else [] in
    any-append_text (c ∷ n) (sort_texts names) last
    ∙ ap (λ b. b || any (text_eq (c ∷ n)) last)
        (any-sort_texts (c ∷ n) names ∙ any-group_names category (c ∷ n) rows ∙ h)

covered_from :
    (rows all : List Subscription)
    → ((n : Text)
        → any (λ (r : Subscription). text_eq n r.category) rows ≡ true
        → any (λ (r : Subscription). text_eq n r.category) all ≡ true)
    → Covers category (folder_names all) rows
covered_from [] all h = tt
covered_from (r ∷ rows) all h = (
  any-folder_names r.category all (h r.category (ground (arith, text_eq_refl r.category))),
  covered_from rows all (λ n k. h n (ground (arith, k))),
)

module _ (arrange : List Subscription → List Subscription)
    (arranged : (rows : List Subscription) → Perm (arrange rows) rows) where
  feeds_in-folders_of :
      (names : List Text) (rows : List Subscription)
      → Perm (feeds_in (folders_of arrange names rows)) (in_groups category names rows)
  unfolding folders_of in_groups
  feeds_in-folders_of [] rows = Perm.refl _
  feeds_in-folders_of (n ∷ names) rows =
      Perm.append (arranged (keep (in_group category n) rows)) (feeds_in-folders_of names rows)

  -- Whatever permutation sort.Slice makes of the feeds of a folder, the folders together hold each
  -- subscription as often as it is given, and their categories are all different.
  pub group_feeds-perm :
      (rows : List Subscription)
      → Perm (feeds_in (group_feeds arrange rows)) rows × Different (folder_names rows)
  unfolding group_feeds
  group_feeds-perm rows = (
    Perm.trans (feeds_in-folders_of (folder_names rows) rows) (
        in_groups-perm category (folder_names rows) rows (folder_names-Different rows)
          (covered_from rows rows (λ n h. h))),
    folder_names-Different rows,
  )
