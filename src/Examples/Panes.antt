-- ===== src/Examples/Panes.antt =====
-- A pane of feeds with two folders, and a catalog of two categories.
use gator_cli.Prelude.{
  ◌≡◌, refl, false, true, some, List, [], ◌∷◌, get_elem?, Text, codes, text_eq, arith,
}
use gator_cli.Prelude.Int.{pos}
use gator_cli.Database.{Subscription}
use gator_cli.Grouping.{group_names}
use gator_cli.Sorting.{sort_stable, insert}
use gator_cli.Tui.Folders.{Folder, group_feeds, folders_of, folder_names, has_folders, folder_label}
use gator_cli.Catalog.{Category}
use gator_cli.Tui.Picks.{Picks, screen_catalog, category_box, toggle_category}
use gator_cli.Tui.Picks.Boxes.{toggled_box, category_box-toggle_category}
use gator_cli.Tui.Pane.{Pane, new_folder_item, jump_to_folder, focus_posts, focus_feeds}
use gator_cli.Tui.Pane.Jumps.{IsOn, jump_to_folder_lem}

abbrev subscribed : Text → Text → Subscription
subscribed name category = record {
  id = 0;
  created_at = 0;
  updated_at = 0;
  user_id = 0;
  feed_id = 0;
  category = category;
  feed_name = name;
  user_name = [];
  feed_url = name;
  feed_failures = pos 0;
}

abbrev followed : List Subscription
followed = subscribed (codes "go") (codes "dev") ∷ subscribed (codes "sky") [] ∷ []

abbrev as_given : List Subscription → List Subscription
as_given rows = rows

abbrev pane : Pane
pane = record {
  feeds = followed;
  expanded = λ u. false;
  by_feed = false;
  feed_id = 0;
  feed_name = [];
  feed_width = 26;
  focus = focus_posts;
  items = [];
  index = 0;
}

abbrev dev : Folder
dev = record { name = codes "dev"; feeds = subscribed (codes "go") (codes "dev") ∷ [] }

first_folder : get_elem? (group_feeds as_given followed) 0 ≡ some dev
unfolding group_feeds folders_of folder_names folder_label group_names sort_stable insert
first_folder = refl

foldered : has_folders followed ≡ true
unfolding has_folders
foldered = refl

jump_to_folder_lem_example :
    IsOn (new_folder_item dev 1) dev.feeds (jump_to_folder as_given (λ items i. i) (pos 1) pane)
    × ((jump_to_folder as_given (λ items i. i) (pos 1) pane).focus ≡ focus_feeds)
    × ((jump_to_folder as_given (λ items i. i) (pos 1) pane).expanded (codes "dev") ≡ true)
jump_to_folder_lem_example =
    jump_to_folder_lem as_given (λ items i. i) pane 0 dev first_folder (omega arith) refl refl
      foldered

abbrev shelf : Category
shelf = record {
  id = codes "a";
  label = codes "A";
  feeds =
      record { name = codes "one"; url = codes "u" }
      ∷ record { name = codes "two"; url = codes "v" }
      ∷ [];
}

abbrev picks : Picks
picks = record {
  categories = shelf ∷ [];
  followed = λ u. text_eq u (codes "v");
  picked = λ u. false;
  screen = screen_catalog;
  catalog_open = shelf;
}

category_box-toggle_category_example :
    category_box (toggle_category shelf picks) shelf ≡ toggled_box (category_box picks shelf)
category_box-toggle_category_example = category_box-toggle_category picks shelf
