-- ===== src/Tui/Filters/Actions.antt =====
-- The actions that change what is listed (internal/tui/actions.go, input.go, update.go). The status that
-- an action shows and whether it starts a load are values.
use gator_cli.Prelude.{
  ◌==◌, Bool, true, false, not, ◌&&◌, if◌then◌else◌, Option, none, some, List, [], ◌∷◌, ◌++◌, Text,
  text_eq, codes,
}
use gator_cli.Database.{Uuid, nil_uuid}
use gator_cli.Store.{ReadState, read_any, read_unread, read_only}
use gator_cli.Tui.Paging.{Source, source_feeds, source_bookmarks, source_search, is_derived}
use gator_cli.Tui.Settings.{sort_asc, sort_desc, sort_feed, since_label, next_since}
use gator_cli.Tui.Filters.{View}

-- The view, the status that is shown, and whether a load is started.
pub record Acted : Type 0 where
  pub view : View
  pub status : Option Text
  pub loads : Bool

abbrev pub idle : View → Acted
idle v = record { view = v; status = none; loads = false }

-- `statusAndReload`
abbrev pub status_and_reload : Text → View → Acted
status_and_reload text v = record { view = v; status = some text; loads = true }

-- `refuseDerived`
abbrev pub refuse_derived : Text → View → Acted
refuse_derived what v = record {
  view = v;
  status = some (what ++ codes " applies to feed posts only");
  loads = false;
}

-- `leaveDerivedView`
unfoldable pub leave_derived_view : View → Acted
leave_derived_view v =
    if not (is_derived v.source) && text_eq v.read read_any then idle v else record {
      view = record v { source = source_feeds; query = []; read = read_any };
      status = none;
      loads = true;
    }

abbrev pub switched : Source → Source
switched source_bookmarks = source_feeds
switched source_feeds = source_bookmarks
switched source_search = source_bookmarks

-- `toggleBookmarksView`, through `switchSource`.
unfoldable pub toggle_bookmarks_view : View → Acted
toggle_bookmarks_view v = record {
  view = record v { source = switched v.source; query = [] };
  status = none;
  loads = true;
}

-- `setReadState`
unfoldable pub set_read_state : ReadState → Text → View → Acted
set_read_state want label v =
    if is_derived v.source
    then refuse_derived (codes "Read filter") v
    else if text_eq v.read want
    then status_and_reload (codes "Showing all posts") (record v { read = read_any })
    else status_and_reload label (record v { read = want })

-- `toggleReadView`
unfoldable pub toggle_read_view : View → Acted
unfolding set_read_state
toggle_read_view v = set_read_state read_only (codes "Showing read posts") v

-- `toggleUnreadOnly`
unfoldable pub toggle_unread_only : View → Acted
unfolding set_read_state
toggle_unread_only v =
    if is_derived v.source
    then refuse_derived (codes "Unread filter") v
    else set_read_state read_unread (codes "Showing unread only") v

-- `toggleSort`, less the new items of the pane of feeds.
unfoldable pub toggle_sort : View → Acted
toggle_sort v =
    if is_derived v.source
    then refuse_derived (codes "Sorting") v
    else if text_eq v.sort_dir sort_desc
    then status_and_reload (codes "Sorted oldest first") (record v { sort_dir = sort_asc })
    else if text_eq v.sort_dir sort_asc
    then status_and_reload (codes "Sorted by feed") (record v { sort_dir = sort_feed })
    else status_and_reload (codes "Sorted newest first") (record v { sort_dir = sort_desc })

abbrev pub range_status : Text → Text
range_status [] = codes "Showing all time"
range_status (c ∷ s) = codes "Showing the last " ++ c ∷ s

-- `cycleTimeRange`
unfoldable pub cycle_time_range : View → Acted
cycle_time_range v =
    if is_derived v.source
    then refuse_derived (codes "Time range") v
    else status_and_reload (range_status (since_label (next_since v.range)))
        (record v { range = next_since v.range })

abbrev pub every_dir : Text → Text → Text
every_dir mode dir =
    if text_eq mode sort_feed then sort_feed else if text_eq dir sort_feed then sort_desc else dir

-- `showEveryFeed`, less the focus and the new items of the pane of feeds.
unfoldable pub show_every_feed : Text → View → Acted
show_every_feed mode v = record {
  view = record v {
    sort_dir = every_dir mode v.sort_dir;
    feed_id = nil_uuid;
    feed_name = [];
    query = [];
    source = source_feeds;
  };
  status = none;
  loads = true;
}

-- `updateFeeds`, on Select with the cursor on a feed.
unfoldable pub select_feed : Uuid → Text → View → Acted
select_feed id name v = record {
  view = record v {
    feed_id = id;
    feed_name = if not (id == nil_uuid) then name else [];
    source = source_feeds;
    query = [];
  };
  status = none;
  loads = true;
}

-- `updateInput`, on Enter in the prompt for a search, with its trimmed text.
unfoldable pub search : Text → View → Acted
search value v = if text_eq value [] then idle v else record {
  view = record v { source = source_search; query = value };
  status = none;
  loads = true;
}

-- `feedUnfollowMsg`
unfoldable pub feed_unfollowed : Text → View → Acted
feed_unfollowed name v =
    status_and_reload (codes "Unfollowed " ++ name)
      (if text_eq v.feed_name name then record v { feed_id = nil_uuid; feed_name = [] } else v)

pub data Action : Type 0 where
  leave bookmarks_view read_view unread_only sort time_range : Action
  every_feed : Text → Action
  feed : Uuid → Text → Action
  searched : Text → Action
  unfollowed : Text → Action

unfoldable pub act : Action → View → Acted
unfolding leave_derived_view toggle_bookmarks_view toggle_read_view set_read_state
    toggle_unread_only toggle_sort cycle_time_range show_every_feed select_feed search
    feed_unfollowed
act leave v = leave_derived_view v
act bookmarks_view v = toggle_bookmarks_view v
act read_view v = toggle_read_view v
act unread_only v = toggle_unread_only v
act sort v = toggle_sort v
act time_range v = cycle_time_range v
act (every_feed mode) v = show_every_feed mode v
act (feed id name) v = select_feed id name v
act (searched value) v = search value v
act (unfollowed name) v = feed_unfollowed name v

unfoldable pub act_all : List Action → View → View
unfolding act
act_all [] v = v
act_all (a ∷ as_) v = act_all as_ (act a v).view
