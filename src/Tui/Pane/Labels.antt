-- ===== src/Tui/Pane/Labels.antt =====
-- The labels of the folders (internal/tui/folders.go) as the pane of feeds looks them up.
use gator_cli.Prelude.{
  text_eq_comm, ◌≡◌, refl, ap, ◌∙◌, false, if◌then◌else◌, List, [], ◌∷◌, map, Text, text_eq, any,
  arith,
}
use gator_cli.Database.{Subscription}
use gator_cli.Grouping.{
  Different, group_names, any-group_names, sort_texts, any-sort_texts, any-append_text,
}
use gator_cli.Tui.Folders.{
  Folder, category, root_folder, folder_label, folder_names, folders_of, group_feeds,
}

abbrev pub name_of : Folder → Text
name_of fol = fol.name

label_apart :
    (n k : Text)
    → text_eq n k ≡ false
    → text_eq root_folder n ≡ false
    → text_eq root_folder k ≡ false
    → text_eq (folder_label n) (folder_label k) ≡ false
unfolding folder_label
label_apart [] [] h r s = absurd (cc h)
label_apart [] (c ∷ k) h r s = s
label_apart (c ∷ n) [] h r s = text_eq_comm (c ∷ n) root_folder ∙ r
label_apart (c ∷ n) (d ∷ k) h r s = h

labels_apart :
    (n : Text) (ns : List Text)
    → any (text_eq n) ns ≡ false
    → text_eq root_folder n ≡ false
    → any (text_eq root_folder) ns ≡ false
    → any (text_eq (folder_label n)) (map folder_label ns) ≡ false
labels_apart n [] h r s = refl
labels_apart n (k ∷ ns) h r s = ground (
  arith,
  label_apart n k (ground (arith, h)) r (ground (arith, s)),
  labels_apart n ns (ground (arith, h)) r (ground (arith, s)),
)

pub labels-Different :
    (ns : List Text)
    → Different ns
    → any (text_eq root_folder) ns ≡ false
    → Different (map folder_label ns)
labels-Different [] d r = tt
labels-Different (n ∷ ns) d r = (
  labels_apart n ns d.0 (ground (arith, r)) (ground (arith, r)),
  labels-Different ns d.1 (ground (arith, r)),
)

pub root_unnamed :
    (rows : List Subscription)
    → any (λ (r : Subscription). text_eq root_folder r.category) rows ≡ false
    → any (text_eq root_folder) (folder_names rows) ≡ false
unfolding folder_names
root_unnamed rows h =
    let names = group_names category rows in
    ground (
      arith,
      h,
      any-append_text root_folder (sort_texts names)
          (if any (λ (r : Subscription). text_eq r.category []) rows then [] ∷ [] else []),
      any-sort_texts root_folder names,
      any-group_names category root_folder rows,
    )

module _ (arrange : List Subscription → List Subscription) where
  names_of_folders :
      (names : List Text) (rows : List Subscription)
      → map name_of (folders_of arrange names rows) ≡ map folder_label names
  unfolding folders_of
  names_of_folders [] rows = refl
  names_of_folders (n ∷ names) rows = ap (λ ns. folder_label n ∷ ns) (names_of_folders names rows)

  folders_named :
      (names : List Text) (rows : List Subscription)
      → any (λ (f : Folder). text_eq f.name []) (folders_of arrange names rows) ≡ false
  unfolding folders_of folder_label
  folders_named [] rows = refl
  folders_named ([] ∷ names) rows = folders_named names rows
  folders_named ((c ∷ n) ∷ names) rows = folders_named names rows

  pub folder_names-group_feeds :
      (rows : List Subscription)
      → map name_of (group_feeds arrange rows) ≡ map folder_label (folder_names rows)
  unfolding group_feeds
  folder_names-group_feeds rows = names_of_folders (folder_names rows) rows

  pub group_feeds-named :
      (rows : List Subscription)
      → any (λ (f : Folder). text_eq f.name []) (group_feeds arrange rows) ≡ false
  unfolding group_feeds
  group_feeds-named rows = folders_named (folder_names rows) rows
