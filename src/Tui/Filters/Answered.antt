-- ===== src/Tui/Filters/Answered.antt =====
-- The queries of the terminal UI against what the server answers (`postQuery` of
-- internal/api/posts.go).
use gator_cli.Prelude.{
  ◌≡◌, refl, ℕ, ◌<◌, ◌^◌, Bool, true, false, not, ◌&&◌, ◌||◌, Option, none, some, List, [], ◌∷◌,
  Text, text_eq, arith, Bool-cases, inl, inr,
}
use gator_cli.Database.{Uuid, Time}
use gator_cli.Store.{ReadState, read_valid, read_any, read_unread, read_only}
use gator_cli.Api.{Formats}
use gator_cli.Api.Queries.{sort_valid}
use gator_cli.Remote.Paged.{IsAnswered, served}
use gator_cli.Tui.Paging.{Source, source_feeds, source_bookmarks, source_search, is_derived}
use gator_cli.Tui.Settings.{
  UiState, sort_asc, sort_desc, sort_feed, sanitized, load_state, sane_dir, read_state,
}
use gator_cli.Tui.Filters.{
  View, first_view, page_query, search_query, Load, bookmarked_posts, posts, load_from, start_load,
  by_feed,
}
use gator_cli.Tui.Filters.Actions.{
  leave_derived_view, toggle_bookmarks_view, set_read_state, toggle_read_view, toggle_unread_only,
  toggle_sort, cycle_time_range, every_dir, show_every_feed, select_feed, search, feed_unfollowed,
  Action, act, act_all,
}

abbrev is_dir : Text → Bool
is_dir dir = text_eq dir sort_asc || text_eq dir sort_desc || text_eq dir sort_feed

-- The order and the read state are ones that the program knows.
record IsView (v : View) : Type 0 where
  dir : is_dir v.sort_dir ≡ true
  read : read_valid v.read ≡ true

set_read_state-IsView :
    (want : ReadState) (label : Text) (v : View)
    → read_valid want ≡ true
    → IsView v
    → IsView (set_read_state want label v).view
unfolding set_read_state read_valid
set_read_state-IsView want label v valid h = elim (Bool-cases (is_derived v.source)) [
  | inl e ↦ rw e h
  | inr e ↦ rw e (elim (Bool-cases (text_eq v.read want)) [
    | inl k ↦ rw k (record { dir = h.dir; read = refl })
    | inr k ↦ rw k (record { dir = h.dir; read = valid })
  ])
]

every_dir-is_dir : (mode dir : Text) → is_dir dir ≡ true → is_dir (every_dir mode dir) ≡ true
every_dir-is_dir mode dir h = elim (Bool-cases (text_eq mode sort_feed)) [
  | inl e ↦ rw e refl
  | inr e ↦ rw e (elim (Bool-cases (text_eq dir sort_feed)) [ inl k ↦ rw k refl | inr k ↦ rw k h ])
]

toggle_sort-IsView : (v : View) → IsView v → IsView (toggle_sort v).view
unfolding toggle_sort
toggle_sort-IsView v h = elim (Bool-cases (is_derived v.source)) [
  | inl e ↦ rw e h
  | inr e ↦ rw e (elim (Bool-cases (text_eq v.sort_dir sort_desc)) [
    | inl k ↦ rw k (record { dir = refl; read = h.read })
    | inr k ↦ rw k (elim (Bool-cases (text_eq v.sort_dir sort_asc)) [
      | inl l ↦ rw l (record { dir = refl; read = h.read })
      | inr l ↦ rw l (record { dir = refl; read = h.read })
    ])
  ])
]

act-IsView : (a : Action) (v : View) → IsView v → IsView (act a v).view
unfolding act leave_derived_view toggle_bookmarks_view toggle_read_view toggle_unread_only
    cycle_time_range show_every_feed select_feed search feed_unfollowed read_valid
act-IsView Action.leave v h =
    elim (Bool-cases (not (is_derived v.source) && text_eq v.read read_any)) [
      | inl e ↦ rw e h
      | inr e ↦ rw e (record { dir = h.dir; read = refl })
    ]
act-IsView Action.bookmarks_view v h = record { dir = h.dir; read = h.read }
act-IsView Action.read_view v h = set_read_state-IsView read_only _ v refl h
act-IsView Action.unread_only v h = elim (Bool-cases (is_derived v.source)) [
  | inl e ↦ rw e h
  | inr e ↦ rw e (elim (Bool-cases (text_eq v.read read_unread)) [
    | inl k ↦ rw k (record { dir = h.dir; read = refl })
    | inr k ↦ rw k (record { dir = h.dir; read = refl })
  ])
]
act-IsView Action.sort v h = toggle_sort-IsView v h
act-IsView Action.time_range v h = elim (Bool-cases (is_derived v.source)) [
  | inl e ↦ rw e h
  | inr e ↦ rw e (record { dir = h.dir; read = h.read })
]
act-IsView (Action.every_feed mode) v h = record {
  dir = every_dir-is_dir mode v.sort_dir h.dir;
  read = h.read;
}
act-IsView (Action.feed id name) v h = record { dir = h.dir; read = h.read }
act-IsView (Action.searched value) v h = elim (Bool-cases (text_eq value [])) [
  | inl e ↦ rw e h
  | inr e ↦ rw e (record { dir = h.dir; read = h.read })
]
act-IsView (Action.unfollowed name) v h = elim (Bool-cases (text_eq v.feed_name name)) [
  | inl e ↦ rw e (record { dir = h.dir; read = h.read })
  | inr e ↦ rw e h
]

act_all-IsView : (as_ : List Action) (v : View) → IsView v → IsView (act_all as_ v)
unfolding act_all
act_all-IsView [] v h = h
act_all-IsView (a ∷ as_) v h = act_all-IsView as_ (act a v).view (act-IsView a v h)

-- The server answers the query, and it reaches the store behind it as it is.
abbrev pub IsServed : Formats → Load → Type 0
IsServed formats bookmarked_posts = Unit
IsServed formats (posts q) = IsAnswered formats q × (served q ≡ q)

module _ (parse_uuid : Text → Option Uuid) where
  sane_dir-is_dir : (dir : Text) → is_dir (sane_dir parse_uuid dir) ≡ true
  sane_dir-is_dir dir = ground arith

  first_view-IsView :
      (saved : Option UiState) → IsView (first_view parse_uuid (load_state parse_uuid saved))
  unfolding first_view load_state sanitized read_state read_valid
  first_view-IsView none = record { dir = refl; read = refl }
  first_view-IsView (some s) = record {
    dir = sane_dir-is_dir s.sort_dir;
    read = elim (Bool-cases s.unread_only) [ inl e ↦ rw e refl | inr e ↦ rw e refl ];
  }

module _ (formats : Formats) (back : (t : Time) → formats.parse_time (formats.show_time t) ≡ some t)
    (shown : (t : Time) → text_eq (formats.show_time t) [] ≡ false) (now : Time) where
  page_query-IsAnswered :
      (v : View) (offset : ℕ)
      → IsView v
      → offset < 2 ^ 31
      → IsServed formats (posts (page_query now v offset))
  unfolding page_query sort_valid
  page_query-IsAnswered v offset h few = (
    record {
      limit = 50;
      limited = refl;
      limit_bound = omega arith;
      offset_bound = few;
      per_feed_bound = elim (Bool-cases (by_feed v)) [
        | inl e ↦ rw e (omega arith)
        | inr e ↦ rw e (omega arith)
      ];
      read = h.read;
      sort = elim (Bool-cases (by_feed v)) [
        | inl e ↦ rw e refl
        | inr e ↦ rw e (ground (arith, h.dir, e))
      ];
      since_back = back _;
      since_shown = shown _;
    },
    elim (Bool-cases (by_feed v)) [ inl e ↦ rw e refl | inr e ↦ rw e refl ],
  )

  load_from-IsServed :
      (source : Source) (v : View) → IsView v → IsServed formats (load_from source now v)
  unfolding search_query page_query read_valid sort_valid
  load_from-IsServed source_bookmarks v h = tt
  load_from-IsServed source_search v h = (
    record {
      limit = 50;
      limited = refl;
      limit_bound = omega arith;
      offset_bound = omega arith;
      per_feed_bound = omega arith;
      read = refl;
      sort = refl;
      since_back = back 0;
      since_shown = shown 0;
    },
    refl,
  )
  load_from-IsServed source_feeds v h = page_query-IsAnswered v 0 h (omega arith)

  -- Where a time is read back as it was written, and for an offset of 32 bits, whatever settings
  -- the terminal UI finds and whatever actions on what is listed follow in any order, the query
  -- that it then asks, for the first page, for a later one or for a search, is one that the server
  -- answers, and reaches the store behind the server as it is, with nothing cut.
  pub act_all-IsServed :
      (parse_uuid : Text → Option Uuid) (saved : Option UiState) (as_ : List Action) (offset : ℕ)
      → offset < 2 ^ 31
      → IsServed formats
          (start_load now (act_all as_ (first_view parse_uuid (load_state parse_uuid saved))))
        × IsServed formats (
            posts (
              page_query now
                (act_all as_ (first_view parse_uuid (load_state parse_uuid saved)))
                offset))
  unfolding start_load
  act_all-IsServed parse_uuid saved as_ offset few =
      let v = act_all as_ (first_view parse_uuid (load_state parse_uuid saved)) in
      let h : IsView v = act_all-IsView as_ _ (first_view-IsView parse_uuid saved) in
      (load_from-IsServed v.source v h, page_query-IsAnswered v offset h few)
