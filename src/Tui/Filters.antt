-- ===== src/Tui/Filters.antt =====
-- What the list of posts shows: `listFilter` and `params` of internal/tui/model.go, `startLoad` and
-- `setPostsTitle` of loading.go, and the queries of commands.go.
pub mod Actions
pub mod Answered
use gator_cli.Prelude.{
  ℕ, ◌-◌, ◌*◌, ◌==◌, Bool, true, false, not, ◌&&◌, ◌||◌, if◌then◌else◌, Option, none, some, List,
  [], ◌∷◌, ◌++◌, Text, text_eq, codes,
}
use gator_cli.Prelude.Int.{ℤ, pos, negsuc, is_positive}
use gator_cli.Database.{Uuid, Time, nil_uuid}
use gator_cli.Store.{ReadState, PostQuery, read_any, read_unread, read_only}
use gator_cli.Tui.Pane.{Focus, focus_posts}
use gator_cli.Tui.Paging.{
  Source, source_feeds, source_bookmarks, source_search, is_derived, page_size,
}
use gator_cli.Tui.Settings.{
  UiState, sort_asc, sort_desc, sort_feed, since_label, next_since, feed_uuid, since, read_state,
}

abbrev pub digest_per_feed : ℕ
digest_per_feed = 20

-- The fields of `model` that say what is listed: `source` and `filter`.
pub record View : Type 0 where
  pub source : Source
  pub feed_id : Uuid
  pub feed_name : Text
  pub query : Text
  pub sort_dir : Text
  pub range : ℤ  -- filter.since
  pub read : ReadState

-- `newModel`, from the kept settings.
unfoldable pub first_view : (Text → Option Uuid) → UiState → View
first_view parse_uuid saved = record {
  source = source_feeds;
  feed_id = feed_uuid parse_uuid saved;
  feed_name = saved.feed_name;
  query = [];
  sort_dir = saved.sort_dir;
  range = since saved;
  read = read_state saved;
}

abbrev pub by_feed : View → Bool
by_feed v = text_eq v.sort_dir sort_feed

abbrev pub since_time : Time → ℤ → Time
since_time now (pos d) = if d == 0 then 0 else now - d
since_time now (negsuc d) = 0

-- `params`, and the query that `loadPosts` makes of it.
unfoldable pub page_query : Time → View → ℕ → PostQuery
page_query now v offset = record {
  feed_id = v.feed_id;
  feed_name = [];
  query = [];
  read = v.read;
  since = since_time now v.range;
  sort_dir = if by_feed v then sort_desc else v.sort_dir;
  per_feed = if by_feed v then pos digest_per_feed else pos 0;
  limit = pos page_size;
  offset = pos offset;
}

-- The query of `searchPosts`.
unfoldable pub search_query : Text → PostQuery
search_query query = record {
  feed_id = nil_uuid;
  feed_name = [];
  query = query;
  read = [];
  since = 0;
  sort_dir = [];
  per_feed = pos 0;
  limit = pos page_size;
  offset = pos 0;
}

-- What a load asks the store for.
pub data Load : Type 0 where
  bookmarked_posts : Load
  posts : PostQuery → Load

-- The load of `startLoad`.
abbrev pub load_from : Source → Time → View → Load
load_from source_bookmarks now v = bookmarked_posts
load_from source_search now v = posts (search_query v.query)
load_from source_feeds now v = posts (page_query now v 0)

unfoldable pub start_load : Time → View → Load
unfolding page_query search_query
start_load now v = load_from v.source now v

-- `setPostsTitle`
abbrev pub feed_title : View → Text
feed_title v = if not (text_eq v.feed_name []) then v.feed_name else codes "Posts"

abbrev pub read_title : View → Text
read_title v =
    if text_eq v.read read_only
    then codes "Read"
    else if text_eq v.read read_unread
    then feed_title v ++ codes " · unread"
    else feed_title v

abbrev pub title_from : Source → View → Text
title_from source_bookmarks v = codes "Bookmarks"
title_from source_search v = codes "Search: " ++ v.query
title_from source_feeds v =
    read_title v
    ++ (if by_feed v then codes " · by feed" else [])
    ++ (if text_eq (since_label v.range) [] then [] else codes " · " ++ since_label v.range)

unfoldable pub posts_title : View → Text
posts_title v = title_from v.source v
