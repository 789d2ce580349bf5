-- ===== src/Tui/Folders.antt =====
-- internal/tui/folders.go: the folders of the feed pane. `sort.Slice` is not stable, so what it makes of
-- the feeds of a folder is a parameter.
pub mod Contents
use gator_cli.Prelude.{
  ℕ, suc, ◌-◌, Bool, true, false, not, ◌||◌, if◌then◌else◌, Option, none, some, List, [], ◌∷◌, ◌++◌,
  map, Text, text_eq, codes, any, keep, leb, ltb, length, get_elem?, ◌==◌, ◌&&◌,
}
use gator_cli.Prelude.Int.{ℤ, pos, negsuc}
use gator_cli.Database.{Uuid, Subscription}
use gator_cli.Grouping.{sort_texts, group_names, in_group}

abbrev pub root_folder : Text
root_folder = codes "(uncategorized)"

abbrev pub max_folder_keys : ℕ
max_folder_keys = 9

pub record Folder : Type 0 where
  pub name : Text
  pub feeds : List Subscription

abbrev pub category : Subscription → Text
category r = r.category

-- The label of a category.
unfoldable pub folder_label : Text → Text
folder_label name = if text_eq name [] then root_folder else name

-- `hasFolders`
unfoldable pub has_folders : List Subscription → Bool
has_folders rows = any (λ (r : Subscription). not (text_eq r.category [])) rows

-- `folderOf`
unfoldable pub folder_of : List Subscription → Uuid → Text
unfolding folder_label
folder_of [] feed_id = []
folder_of (r ∷ rows) feed_id =
    let rest = folder_of rows feed_id in
    if not (r.feed_id == feed_id) then rest else folder_label r.category

-- `names` when it is complete.
unfoldable pub folder_names : List Subscription → List Text
folder_names rows =
    sort_texts (group_names category rows)
    ++ (if any (λ (r : Subscription). text_eq r.category []) rows then [] ∷ [] else [])

module _ (arrange : List Subscription → List Subscription) where
  -- The loop over the names.
  unfoldable pub folders_of : List Text → List Subscription → List Folder
  unfolding folder_label
  folders_of [] rows = []
  folders_of (name ∷ names) rows =
      record { name = folder_label name; feeds = arrange (keep (in_group category name) rows) }
      ∷ folders_of names rows

  -- `groupFeeds`
  unfoldable pub group_feeds : List Subscription → List Folder
  unfolding folders_of folder_names folder_label
  group_feeds rows = folders_of (folder_names rows) rows

  abbrev pub numbered : Option Folder → Option Text
  numbered none = none
  numbered (some f) = some f.name

  -- `folderByNumber`
  unfoldable pub folder_by_number : List Subscription → ℤ → Option Text
  unfolding group_feeds folders_of folder_names folder_label has_folders
  folder_by_number rows (negsuc k) = none
  folder_by_number rows (pos n) =
      let folders = group_feeds rows in
      if ltb n 1 || ltb max_folder_keys n || not (has_folders rows)
      then none
      else if ltb (length folders) n
      then none
      else numbered (get_elem? folders (n - 1))
