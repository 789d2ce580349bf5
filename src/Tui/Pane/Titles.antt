-- ===== src/Tui/Pane/Titles.antt =====
-- The lines of the pane of feeds (internal/tui/items.go).
use gator_cli.Prelude.{ltb, leb, Bool, ◌&&◌, if◌then◌else◌, List, [], ◌∷◌, ◌++◌, Text, codes}
use gator_cli.Prelude.Int.{ℤ, pos, ◌+ℤ◌, int64, is_positive}
use gator_cli.Decimal.{itoa}
use gator_cli.Database.{Uuid}
use gator_cli.Tui.Folders.{max_folder_keys}
use gator_cli.Tui.Pane.{FeedItem, FolderItem, PaneItem, view_item, feed_item, folder_item}

module _ (unread : Uuid → ℤ) (expanded : Text → Bool) where
  -- `unreadTotal`, from the sum so far.
  unfoldable pub unread_total : ℤ → List Uuid → ℤ
  unread_total n [] = n
  unread_total n (id ∷ ids) = unread_total (int64 (n +ℤ unread id)) ids

  abbrev pub with_count : ℤ → Text → Text
  with_count n label = if is_positive n then label ++ codes " (" ++ itoa n ++ codes ")" else label

  abbrev pub gutter : FeedItem → Text
  gutter i = if is_positive i.failures then codes "⚠ " else if i.indent then codes "  " else []

  abbrev pub folder_text : FolderItem → Text
  folder_text i =
      (if leb 1 i.number && leb i.number max_folder_keys
        then itoa (pos i.number) ++ codes " "
        else [])
      ++ (if expanded i.name then codes "▾" else codes "▸")
      ++ codes " "
      ++ i.name
      ++ (if ltb 0 i.broken then codes " ⚠" else [])

  -- `Title`
  unfoldable pub pane_title : PaneItem → Text
  unfolding unread_total
  pane_title (view_item mode label active) =
      if active then codes "▪ " ++ label else codes "  " ++ label
  pane_title (feed_item i) = gutter i ++ with_count (unread i.id) i.name
  pane_title (folder_item i) = with_count (unread_total (pos 0) i.feed_ids) (folder_text i)
