-- ===== src/Tui/Pane.antt =====
-- The pane of feeds: its items and the moves between folders of internal/tui/update.go, items.go and
-- input.go. The list is bubbles/list without a filter: `settle` is what SetItems makes of the cursor.
-- An item reads the maps `unread` and `expanded` of the model.
pub mod Titles
pub mod Labels
pub mod Jumps
use gator_cli.Prelude.{
  ℕ, zero, suc, ◌+◌, ◌-◌, ◌==◌, ltb, leb, Bool, true, false, not, ◌&&◌, ◌||◌, if◌then◌else◌, Option,
  none, some, List, [], ◌∷◌, ◌++◌, map, length, drop, get_elem?, Text, text_eq, codes,
}
use gator_cli.Prelude.Int.{ℤ, pos, ◌+ℤ◌, int64, is_positive}
use gator_cli.Decimal.{itoa}
use gator_cli.Database.{Uuid, Subscription}
use gator_cli.Tui.Folders.{
  Folder, max_folder_keys, folder_by_number, folder_of, group_feeds, has_folders,
}
use gator_cli.Tui.Settings.{sort_desc, sort_feed}

pub record FeedItem : Type 0 where
  pub id : Uuid
  pub name : Text
  pub url : Text
  pub failures : ℤ  -- int32
  pub indent : Bool

pub record FolderItem : Type 0 where
  pub name : Text
  pub number : ℕ
  pub feed_ids : List Uuid
  pub broken : ℕ

pub data PaneItem : Type 0 where
  view_item : (mode label : Text) → (active : Bool) → PaneItem
  feed_item : FeedItem → PaneItem
  folder_item : FolderItem → PaneItem

pub data Focus : Type 0 where
  focus_posts focus_feeds : Focus

-- The fields of `model` that the pane reads and writes.
pub record Pane : Type 0 where
  pub feeds : List Subscription
  pub expanded : Text → Bool
  pub by_feed : Bool  -- whether filter.sortDir is sortFeed
  pub feed_id : Uuid  -- filter.feedID
  pub feed_name : Text  -- filter.feedName
  pub feed_width : ℕ
  pub focus : Focus
  pub items : List PaneItem
  pub index : ℕ

-- `newFeedItem`
unfoldable pub new_feed_item : Bool → Subscription → PaneItem
new_feed_item indent f = feed_item (record {
  id = f.feed_id;
  name = f.feed_name;
  url = f.feed_url;
  failures = f.feed_failures;
  indent = indent;
})

-- The feeds whose last fetches failed.
unfoldable pub broken_feeds : List Subscription → ℕ
broken_feeds [] = 0
broken_feeds (f ∷ fs) = if is_positive f.feed_failures then broken_feeds fs + 1 else broken_feeds fs

-- `newFolderItem`
unfoldable pub new_folder_item : Folder → ℕ → PaneItem
unfolding broken_feeds
new_folder_item fol number = folder_item (record {
  name = fol.name;
  number = number;
  feed_ids = map (λ (f : Subscription). f.feed_id) fol.feeds;
  broken = broken_feeds fol.feeds;
})

-- The loop of `feedItems` over the folders.
unfoldable pub folder_rows : (Text → Bool) → ℕ → List Folder → List PaneItem
folder_rows expanded number [] = []
folder_rows expanded number (fol ∷ fols) =
    new_folder_item fol number
      ∷ (if expanded fol.name then map (new_feed_item true) fol.feeds else [])
    ++ folder_rows expanded (suc number) fols

abbrev pub views : Bool → List PaneItem
views by_feed =
    view_item sort_desc (codes "Timeline") (not by_feed)
    ∷ view_item sort_feed (codes "By feed") by_feed
    ∷ []

-- The loop of `selectFolder`.
abbrev pub named : Text → PaneItem → Bool
named name (view_item mode label active) = false
named name (feed_item f) = false
named name (folder_item fol) = text_eq fol.name name

abbrev pub shown_feed : Uuid → PaneItem → Bool
shown_feed id (view_item mode label active) = false
shown_feed id (feed_item f) = f.id == id
shown_feed id (folder_item fol) = false

abbrev pub onto_next : Option ℕ → Option ℕ
onto_next none = none
onto_next (some i) = some (suc i)

-- The first place whose item passes the test.
unfoldable pub find_item : (PaneItem → Bool) → List PaneItem → Option ℕ
find_item test [] = none
find_item test (item ∷ items) = if test item then some 0 else onto_next (find_item test items)

abbrev pub select_at : Option ℕ → Pane → Pane
select_at none m = m
select_at (some i) m = record m { index = i }

-- `selectFolder`
unfoldable pub select_folder : Text → Pane → Pane
unfolding find_item
select_folder name m = select_at (find_item (named name) m.items) m

-- `feedList.SelectedItem`
abbrev pub selected_item : Pane → Option PaneItem
selected_item m = get_elem? m.items m.index

abbrev pub expand : Text → (Text → Bool) → Text → Bool
expand name expanded u = text_eq name u || expanded u

abbrev pub collapse : Text → (Text → Bool) → Text → Bool
collapse name expanded u = not (text_eq name u) && expanded u

module _ (arrange : List Subscription → List Subscription) (settle : List PaneItem → ℕ → ℕ) where
  -- `feedItems`
  unfoldable pub feed_items : Pane → List PaneItem
  unfolding folder_rows new_feed_item new_folder_item
  feed_items m =
      views m.by_feed
      ++ (if not (has_folders m.feeds)
          then map (new_feed_item false) m.feeds
          else folder_rows m.expanded 1 (group_feeds arrange m.feeds))

  -- `m.feedList.SetItems(m.feedItems())`
  unfoldable pub set_items : Pane → Pane
  unfolding feed_items
  set_items m = record m { items = feed_items m; index = settle (feed_items m) m.index }

  -- `toggleFolder`
  unfoldable pub toggle_folder : Text → Pane → Pane
  unfolding set_items select_folder
  toggle_folder name m = select_folder name (
      set_items (record m {
        expanded = if m.expanded name then collapse name m.expanded else expand name m.expanded;
      }))

  -- `openFolder`
  unfoldable pub open_folder : Text → Pane → Pane
  unfolding set_items select_folder
  open_folder name m =
      if text_eq name [] || m.feed_width == 0
      then m
      else record (select_folder name
          (set_items (record m { expanded = expand name m.expanded }))) { focus = focus_feeds }

  abbrev pub open_found : Option Text → Pane → Pane
  open_found none m = m
  open_found (some name) m = open_folder name m

  -- `jumpToFolder`
  unfoldable pub jump_to_folder : ℤ → Pane → Pane
  unfolding open_folder
  jump_to_folder n m = open_found (folder_by_number arrange m.feeds n) m

  abbrev pub is_folder : PaneItem → Bool
  is_folder (view_item mode label active) = false
  is_folder (feed_item f) = false
  is_folder (folder_item fol) = true

  abbrev pub folder_here : Option PaneItem → Bool
  folder_here none = false
  folder_here (some item) = is_folder item

  -- The loop of `stepFolder`: onwards, through the items from the place `i`, and back.
  unfoldable pub step_down : ℕ → List PaneItem → Option ℕ
  step_down i [] = none
  step_down i (item ∷ items) =
      let rest = step_down (suc i) items in if is_folder item then some i else rest

  unfoldable pub step_up : ℕ → List PaneItem → Option ℕ
  step_up zero items = none
  step_up (suc i) items =
      let rest = step_up i items in
      if leb (length items) i
      then none
      else if folder_here (get_elem? items i)
      then some i
      else rest

  -- `stepFolder`
  unfoldable pub step_folder : Bool → Pane → Pane
  unfolding step_down step_up
  step_folder back m =
      if back
      then select_at (step_up m.index m.items) m
      else select_at (step_down (suc m.index) (drop (suc m.index) m.items)) m

  abbrev pub name_of_item : List Subscription → Option PaneItem → Text
  name_of_item rows none = []
  name_of_item rows (some (view_item mode label active)) = []
  name_of_item rows (some (feed_item f)) = folder_of rows f.id
  name_of_item rows (some (folder_item fol)) = fol.name

  -- `selectedFolderName`
  unfoldable pub selected_folder_name : Pane → Text
  selected_folder_name m = name_of_item m.feeds (selected_item m)

  abbrev pub is_folder_name : List Folder → Text → Bool
  is_folder_name [] u = false
  is_folder_name (fol ∷ fols) u = text_eq fol.name u || is_folder_name fols u

  -- `refoldAll`, with the status that it shows.
  unfoldable pub refold_all : Bool → Pane → Pane × Option Text
  unfolding set_items select_folder selected_folder_name
  refold_all all m =
      let keep = selected_folder_name m in
      let m' =
        set_items
          (record m { expanded = λ u. all && is_folder_name (group_feeds arrange m.feeds) u }) in
      if not (has_folders m.feeds) || m.feed_width == 0 then (m, none) else (
        (if not (text_eq keep []) then select_folder keep m' else m'),
        some (if all then codes "Folders expanded" else codes "Folders collapsed"),
      )

  abbrev pub selected_name : Option PaneItem → Text
  selected_name none = []
  selected_name (some (view_item mode label active)) = []
  selected_name (some (feed_item f)) = f.name
  selected_name (some (folder_item fol)) = []

  abbrev pub stored_at : Option ℕ → Pane → Pane × Bool
  stored_at (some i) m =
      (record m { index = i; feed_name = selected_name (get_elem? m.items i) }, false)
  stored_at none m =
      let name = folder_of m.feeds m.feed_id in
      if not (text_eq name [])
      then (select_folder name m, false)
      else (record m { feed_id = 0; feed_name = [] }, true)

  -- `selectStoredFeed`, and whether it starts a load.
  unfoldable pub select_stored_feed : Pane → Pane × Bool
  unfolding find_item select_folder
  select_stored_feed m =
      if m.feed_id == 0 then (m, false) else stored_at (find_item (shown_feed m.feed_id) m.items) m

  -- `feedsLoadedMsg`, without the opening of the catalog.
  unfoldable pub feeds_loaded : List Subscription → Pane → Pane × Bool
  unfolding set_items select_stored_feed
  feeds_loaded rows m = select_stored_feed (set_items (record m { feeds = rows }))
