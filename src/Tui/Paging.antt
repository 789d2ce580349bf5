-- ===== src/Tui/Paging.antt =====
-- The pages of the list of posts: `startLoad` and `maybeLoadMore` of internal/tui/loading.go, `postsLoaded`
-- and `postItems` of update.go. Where the cursor is and whether the list is being filtered are arguments;
-- an offset is an `int32` below its limit.
pub mod Rounds
use gator_cli.Prelude.{
  ℕ, ◌+◌, ◌==◌, ltb, Bool, true, false, not, ◌&&◌, ◌||◌, if◌then◌else◌, Option, none, some, List,
  [], ◌∷◌, ◌++◌, length,
}
use gator_cli.Database.{Uuid, Post}

abbrev pub page_size : ℕ
page_size = 50

abbrev pub load_more_threshold : ℕ
load_more_threshold = 5

pub data Source : Type 0 where
  source_feeds source_bookmarks source_search : Source

-- `derived`
abbrev pub is_derived : Source → Bool
is_derived source_feeds = false
is_derived source_bookmarks = true
is_derived source_search = true

pub data Item : Type 0 where
  feed_header : Uuid → Item
  post_item : Post → Item

-- The fields of `model` that the paging reads and writes.
pub record Paging : Type 0 where
  pub source : Source
  pub offset : ℕ
  pub has_more : Bool
  pub loading : Bool
  pub loading_more : Bool
  pub items : List Item

-- The loop of `postItems`, with the feed of the last header.
abbrev pub starts_group : Bool → Option Uuid → Uuid → Bool
starts_group grouped none feed = grouped
starts_group grouped (some current) feed = grouped && not (feed == current)

unfoldable pub post_items_from : Bool → Option Uuid → List Post → List Item
post_items_from grouped current [] = []
post_items_from grouped current (p ∷ ps) =
    if starts_group grouped current p.feed_id
    then feed_header p.feed_id ∷ post_item p ∷ post_items_from grouped (some p.feed_id) ps
    else post_item p ∷ post_items_from grouped current ps

-- `postItems`
unfoldable pub post_items : Bool → List Post → List Item
post_items grouped posts = post_items_from grouped none posts

-- `startLoad`, less the command that it returns.
unfoldable pub start_load : Paging → Paging
start_load m = record m { offset = 0; has_more = true; loading_more = false }

-- `maybeLoadMore`, with the offset of the page that it asks for; `index` is that of the cursor.
unfoldable pub maybe_load_more : Bool → ℕ → Paging → Paging × Option ℕ
maybe_load_more filtering index m =
    if not m.has_more || m.loading_more || is_derived m.source
    then (m, none)
    else if filtering
    then (m, none)
    else if ltb (index + load_more_threshold) (length m.items)
    then (m, none)
    else (
      record m { loading_more = true; offset = m.offset + page_size },
      some (m.offset + page_size),
    )

-- `postsLoaded`, less the place of the cursor and the command that it returns.
unfoldable pub posts_loaded : Bool → Bool → ℕ → List Post → Paging → Paging
posts_loaded grouped paged offset posts m =
    let m' : Paging = record m {
      loading = false;
      loading_more = false;
      has_more = paged && length posts == page_size;
    } in
    if paged && not (offset == m.offset)
    then m
    else if paged && ltb 0 offset
    then record m' { items = m.items ++ post_items grouped posts }
    else record m' { offset = 0; items = post_items grouped posts }
