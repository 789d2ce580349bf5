-- ===== src/Tui/Picks.antt =====
-- internal/tui/catalog.go, and the items of the catalog of items.go: picking feeds to follow. The items
-- of the two lists share one map `picked`, and each has the map `followed` that was made when the
-- catalog was opened.
pub mod Boxes
pub mod Confirmed
use gator_cli.Prelude.{
  ℕ, ◌+◌, ◌-◌, ◌==◌, ltb, Bool, true, false, not, ◌&&◌, if◌then◌else◌, Option, none, some, List, [],
  ◌∷◌, ◌++◌, Text, text_eq, codes, any, keep, length,
}
use gator_cli.Prelude.Int.{pos}
use gator_cli.Decimal.{itoa}
use gator_cli.Database.{Subscription}
use gator_cli.Collect.{Collected, collect, nothing}
use gator_cli.Catalog.{Feed, Category}
use gator_cli.Feeds.Add.{Entry}

-- `screenMode`
pub data Screen : Type 0 where
  screen_list screen_detail screen_catalog screen_catalog_feeds screen_palette screen_menu : Screen

-- The fields of `model` that picking reads and writes: the items of `catalogList` and their map of
-- followed URLs, and `picked`.
pub record Picks : Type 0 where
  pub categories : List Category
  pub followed : Text → Bool
  pub picked : Text → Bool
  pub screen : Screen
  pub catalog_open : Category

-- `followedURLs`
unfoldable pub followed_urls : List Subscription → Text → Bool
followed_urls rows url = any (λ (r : Subscription). text_eq r.feed_url url) rows

-- `openCatalog`, for the categories that the program comes with.
unfoldable pub open_catalog : List Category → List Subscription → Picks → Picks
open_catalog cats rows m = record m {
  categories = cats;
  followed = followed_urls rows;
  picked = λ url. false;
  screen = screen_catalog;
}

-- `openCatalogCategory`
unfoldable pub open_catalog_category : Category → Picks → Picks
open_catalog_category cat m = record m { catalog_open = cat; screen = screen_catalog_feeds }

abbrev pub set_pick : Text → Bool → (Text → Bool) → Text → Bool
set_pick url b picked u = if text_eq url u then b else picked u

module _ (followed : Text → Bool) where
  -- The first loop of `toggleCategory`: the feeds that are not followed, and whether all of them are
  -- picked.
  unfoldable pub open_feeds : List Feed → List Feed
  open_feeds [] = []
  open_feeds (f ∷ fs) = if followed f.url then open_feeds fs else f ∷ open_feeds fs

  unfoldable pub all_picked : (Text → Bool) → List Feed → Bool
  all_picked picked [] = true
  all_picked picked (f ∷ fs) =
      if followed f.url then all_picked picked fs else picked f.url && all_picked picked fs

-- The second loop.
unfoldable pub pick_all : Bool → List Feed → (Text → Bool) → Text → Bool
pick_all b [] picked = picked
pick_all b (f ∷ fs) picked = pick_all b fs (set_pick f.url b picked)

-- `toggleCategory`
unfoldable pub toggle_category : Category → Picks → Picks
unfolding open_feeds all_picked pick_all
toggle_category cat m = record m {
  picked =
      pick_all (not (all_picked m.followed m.picked cat.feeds)) (open_feeds m.followed cat.feeds)
        m.picked;
}

-- `toggleFeed`, with the status that it shows.
unfoldable pub toggle_feed : Feed → Picks → Picks × Option Text
toggle_feed f m =
    if m.followed f.url
    then (m, some (codes "Already following " ++ f.name))
    else (record m { picked = set_pick f.url (not (m.picked f.url)) m.picked }, none)

abbrev pub entry_url : Entry → Text
entry_url e = e.url

-- The loops of `confirmCatalog`.
unfoldable pub confirm_feeds :
    (Text → Bool) → Text → List Feed → Collected entry_url → Collected entry_url
confirm_feeds picked label [] st = st
confirm_feeds picked label (f ∷ fs) st =
    let entry : Entry = record { name = f.name; url = f.url; category = label } in
    confirm_feeds picked label fs (if not (picked f.url) then st else collect entry_url entry st)

unfoldable pub confirm_categories :
    (Text → Bool) → List Category → Collected entry_url → Collected entry_url
unfolding confirm_feeds
confirm_categories picked [] st = st
confirm_categories picked (c ∷ cats) st =
    confirm_categories picked cats (confirm_feeds picked c.label c.feeds st)

unfoldable pub confirmed_entries : Picks → List Entry
unfolding confirm_categories
confirmed_entries m = (confirm_categories m.picked m.categories (nothing entry_url)).out

-- `confirmCatalog`, with the status and the feeds that `addCatalogFeeds` is called for.
abbrev pub confirmed : List Entry → Picks → (Picks × Text) × Option (List Entry)
confirmed [] m =
    ((m, codes "Nothing picked — press space to pick a feed or a whole category"), none)
confirmed (e ∷ entries) m = (
  (
    record m { screen = screen_list },
    codes "Adding " ++ itoa (pos (length (e ∷ entries))) ++ codes " feeds…",
  ),
  some (e ∷ entries),
)

unfoldable pub confirm_catalog : Picks → (Picks × Text) × Option (List Entry)
unfolding confirmed_entries
confirm_catalog m = confirmed (confirmed_entries m) m

pub record Counts : Type 0 where
  pub total : ℕ
  pub followed : ℕ
  pub picked : ℕ

-- `counts`
module _ (followed picked : Text → Bool) where
  abbrev pub count_feed : Feed → Counts → Counts
  count_feed f c =
      if followed f.url
      then record c { total = c.total + 1; followed = c.followed + 1 }
      else if picked f.url
      then record c { total = c.total + 1; picked = c.picked + 1 }
      else record c { total = c.total + 1 }

  unfoldable pub counts : List Feed → Counts
  counts [] = record { total = 0; followed = 0; picked = 0 }
  counts (f ∷ fs) = count_feed f (counts fs)

pub data Box : Type 0 where
  box_followed box_picked box_partly box_empty : Box

abbrev pub box_text : Box → Text
box_text box_followed = codes "[✓]"
box_text box_picked = codes "[x]"
box_text box_partly = codes "[-]"
box_text box_empty = codes "[ ]"

abbrev pub box_of : Counts → Box
box_of c =
    if c.total - c.followed == 0
    then box_followed
    else if c.picked == c.total - c.followed
    then box_picked
    else if ltb 0 c.picked
    then box_partly
    else box_empty

-- The box of `catalogItem.Title`
unfoldable pub category_box : Picks → Category → Box
unfolding counts
category_box m cat = box_of (counts m.followed m.picked cat.feeds)

-- The box of `catalogFeedItem.Title`
unfoldable pub feed_box : Picks → Feed → Box
feed_box m f =
    if m.followed f.url then box_followed else if m.picked f.url then box_picked else box_empty
