-- ===== src/Tui/Pane/Jumps.antt =====
-- Where the digits take the cursor of the pane of feeds (internal/tui/update.go).
use mathlib.Core.Path.{subst}
use gator_cli.Prelude.{
  any-append, any-get_elem?, get_elem?-map, get_elem?-bound, ◌≡◌, refl, ap, sym, ◌∙◌, ℕ, zero, suc,
  ◌+◌, ◌<◌, ◌==◌, Bool, true, false, if◌then◌else◌, some, List, [], ◌∷◌, ◌++◌, append_assoc, map,
  length, get_elem?, Text, text_eq, text_eq_refl, any, arith, Bool-cases, inl, inr,
}
use gator_cli.Prelude.Int.{pos}
use gator_cli.Database.{Subscription}
use gator_cli.Grouping.{Different}
use gator_cli.Tui.Folders.{
  Folder, root_folder, folder_names, folder_by_number, group_feeds, has_folders,
}
use gator_cli.Tui.Folders.Contents.{folder_names-Different}
use gator_cli.Tui.Pane.{
  Pane, PaneItem, new_feed_item, new_folder_item, folder_rows, views, named, onto_next, find_item,
  select_folder, feed_items, set_items, open_folder, jump_to_folder, expand, focus_feeds,
}
use gator_cli.Tui.Pane.Labels.{
  name_of, labels-Different, root_unnamed, folder_names-group_feeds, group_feeds-named,
}

find_item-append :
    (test : PaneItem → Bool) (before : List PaneItem) (item : PaneItem) (rest : List PaneItem)
    → any test before ≡ false
    → test item ≡ true
    → find_item test (before ++ item ∷ rest) ≡ some (length before)
unfolding find_item
find_item-append test [] item rest h t = rw t refl
find_item-append test (x ∷ before) item rest h t = elim (Bool-cases (test x)) [
  | inl e ↦ absurd (cc (rw e at h))
  | inr e ↦ rw e (ap onto_next (find_item-append test before item rest (rw e at h) t))
]

no_folder_named :
    (name : Text) (indent : Bool) (fs : List Subscription)
    → any (named name) (map (new_feed_item indent) fs) ≡ false
unfolding new_feed_item
no_folder_named name indent [] = refl
no_folder_named name indent (f ∷ fs) = no_folder_named name indent fs

shown_unnamed :
    (name : Text) (b : Bool) (fs : List Subscription)
    → any (named name) (if b then map (new_feed_item true) fs else []) ≡ false
shown_unnamed name true fs = no_folder_named name true fs
shown_unnamed name false fs = refl

-- The item of a folder among the rows of the pane, with its feeds behind it.
record Place (name : Text) (item : PaneItem) (fs : List Subscription) (rows : List PaneItem)
    : Type 0 where
  before : List PaneItem
  after : List PaneItem
  rows_eq : rows ≡ before ++ item ∷ (map (new_feed_item true) fs ++ after)
  first : any (named name) before ≡ false

module _ (expanded : Text → Bool) where
  place_in_rows :
      (fols : List Folder) (k n j : ℕ) (fol : Folder)
      → j ≡ k + n
      → get_elem? fols n ≡ some fol
      → Different (map name_of fols)
      → expanded fol.name ≡ true
      → Place fol.name (new_folder_item fol j) fol.feeds (folder_rows expanded k fols)
  unfolding folder_rows new_folder_item
  place_in_rows [] k n j fol s e d x = absurd (cc e)
  place_in_rows (g ∷ fols) k zero j fol s e d x =
      let same : g ≡ fol = cc e in
      let number : j ≡ k = omega (arith, s) in
      record {
        before = [];
        after = folder_rows expanded (suc k) fols;
        rows_eq = rw (same, number, x) refl;
        first = refl;
      }
  place_in_rows (g ∷ fols) k (suc n) j fol s e d x =
      let later : Place fol.name (new_folder_item fol j) fol.feeds
          (folder_rows expanded (suc k) fols) =
        place_in_rows fols (suc k) n j fol (omega (arith, s)) e d.1 x in
      let shown : List PaneItem =
        if expanded g.name then map (new_feed_item true) g.feeds else [] in
      record {
        before = new_folder_item g k ∷ (shown ++ later.before);
        after = later.after;
        rows_eq =
            ap (λ rows. new_folder_item g k ∷ (shown ++ rows)) later.rows_eq
            ∙ ap (λ rows. new_folder_item g k ∷ rows) (sym (append_assoc shown later.before _));
        first = ground (
          arith,
          any-get_elem? (text_eq g.name) (map name_of fols) n fol.name
              (get_elem?-map name_of fols n fol e) d.0,
          any-append (named fol.name) shown later.before,
          shown_unnamed fol.name (expanded g.name) g.feeds,
          later.first,
        );
      }

-- The cursor is on the item, and the feeds of the folder are shown below it.
pub record IsOn (item : PaneItem) (fs : List Subscription) (m : Pane) : Type 0 where
  pub before : List PaneItem
  pub after : List PaneItem
  pub items_eq : m.items ≡ before ++ item ∷ (map (new_feed_item true) fs ++ after)
  pub index_eq : m.index ≡ length before

module _ (arrange : List Subscription → List Subscription) (settle : List PaneItem → ℕ → ℕ)
    (m : Pane) (n : ℕ) (fol : Folder) (there : get_elem? (group_feeds arrange m.feeds) n ≡ some fol)
    (few : n < 9) (wide : (m.feed_width == 0) ≡ false)
    (apart : any (λ (r : Subscription). text_eq root_folder r.category) m.feeds ≡ false)
    (foldered : has_folders m.feeds ≡ true) where
  folder_by_number_lem : folder_by_number arrange m.feeds (pos (suc n)) ≡ some fol.name
  unfolding folder_by_number
  folder_by_number_lem =
      ground
        (arith, there, few, foldered, get_elem?-bound (group_feeds arrange m.feeds) n fol there)

  name_lem : text_eq fol.name [] ≡ false
  name_lem =
      any-get_elem? _ (group_feeds arrange m.feeds) n fol there (group_feeds-named arrange m.feeds)

  abbrev opened : Pane
  opened = record m { expanded = expand fol.name m.expanded }

  place :
      Place fol.name
        (new_folder_item fol (suc n))
        fol.feeds
        (folder_rows opened.expanded 1 (group_feeds arrange m.feeds))
  place =
      place_in_rows opened.expanded (group_feeds arrange m.feeds) 1 n (suc n) fol (omega arith)
        there
        (subst Different (sym (folder_names-group_feeds arrange m.feeds)) (
          labels-Different (folder_names m.feeds) (folder_names-Different m.feeds)
            (root_unnamed m.feeds apart)))
        (ground (arith, text_eq_refl fol.name))

  abbrev front : List PaneItem
  front = views m.by_feed ++ place.before

  feed_items_lem :
      feed_items arrange settle opened
      ≡ front ++ new_folder_item fol (suc n) ∷ (map (new_feed_item true) fol.feeds ++ place.after)
  unfolding feed_items
  feed_items_lem = rw foldered (ap (λ rows. views m.by_feed ++ rows) place.rows_eq)

  found_lem : find_item (named fol.name) (feed_items arrange settle opened) ≡ some (length front)
  unfolding new_folder_item
  found_lem =
      ap (find_item (named fol.name)) feed_items_lem
      ∙ find_item-append (named fol.name) front _ _ place.first (text_eq_refl fol.name)

  -- For a digit from 1 to 9 with a folder of that number, a pane that is shown, and categories of
  -- which one is not empty and none is the label of the feeds without a category, the key of the
  -- digit puts the cursor on that folder in the pane, with the number and with all its feeds shown
  -- below it, opens the folder, and moves the focus to the pane, wherever the cursor was and
  -- whatever sort.Slice makes of the feeds.
  pub jump_to_folder_lem :
      IsOn (new_folder_item fol (suc n)) fol.feeds (jump_to_folder arrange settle (pos (suc n)) m)
      × ((jump_to_folder arrange settle (pos (suc n)) m).focus ≡ focus_feeds)
      × ((jump_to_folder arrange settle (pos (suc n)) m).expanded fol.name ≡ true)
  unfolding jump_to_folder open_folder select_folder set_items
  jump_to_folder_lem = rw (folder_by_number_lem) (
      rw (name_lem, wide)
        (rw found_lem (
          record {
            before = front;
            after = place.after;
            items_eq = feed_items_lem;
            index_eq = refl;
          },
          refl,
          ground (arith, text_eq_refl fol.name),
        )))
