-- ===== src/Feeds/Add.antt =====
-- `Add`, `AddMany` and `resolve` of internal/feeds/feeds.go.
use gator_cli.Prelude.{
  Bool, true, false, not, if◌then◌else◌, Option, none, some, [], ◌++◌, Text, text_eq, codes,
  trim_space,
}
use gator_cli.Database.{Uuid, Feed, no_feed}
use gator_cli.Store.{Error, Result, ok, err, wrap}
use gator_cli.Rss.{
  RssFeed, Link, NotAFeed, FetchError, not_a_feed, failed, unmodified, Fetched, got_feed, got_none,
}
use gator_cli.Rss.Discover.{first_link}
use gator_cli.Rss.Fetch.{Source}
use gator_cli.Feeds.{Outside, is_duplicate}
use gator_cli.Feeds.Scrape.{fetch_error}
use gator_cli.Offline.Store.{Reply}

pub record Entry : Type 0 where
  pub name : Text
  pub url : Text
  pub category : Text

pub record AddResult : Type 0 where
  pub entry : Entry
  pub feed : Feed
  pub created : Bool
  pub err : Option Error

-- A source that was never fetched.
abbrev pub new_source : Text → Source
new_source url = record { url = url; etag = []; last_modified = [] }

module _ {W : Type 0} (outside : Outside W) where
  abbrev pub unusable : FetchError → Error
  unusable e = wrap (codes "not a usable RSS feed: ") (fetch_error e)

  abbrev pub advertised : Text → Text → (Fetched × Source) × W → Result (RssFeed × Text) × W
  advertised url discovered ((got_feed f, src), w) = (ok (f, src.url), w)
  advertised url discovered ((got_none e, src), w) = (
    err (
        wrap (url ++ codes " advertises " ++ discovered ++ codes ", which is not a usable feed: ")
          (fetch_error e)),
    w,
  )

  abbrev pub second_try : Text → NotAFeed → Option Link → W → Result (RssFeed × Text) × W
  second_try url e none w = (err (unusable (not_a_feed e)), w)
  second_try url e (some l) w = advertised url l.url (outside.fetch (new_source l.url) w)

  abbrev pub first_try : Text → (Fetched × Source) × W → Result (RssFeed × Text) × W
  first_try url ((got_feed f, src), w) = (ok (f, src.url), w)
  first_try url ((got_none (not_a_feed e), src), w) = second_try url e (first_link e.links) w
  first_try url ((got_none (failed e), src), w) = (err (unusable (failed e)), w)
  first_try url ((got_none unmodified, src), w) = (err (unusable unmodified), w)

  -- `resolve`
  unfoldable pub resolve : Text → W → Result (RssFeed × Text) × W
  unfolding fetch_error
  resolve url w = first_try url (outside.fetch (new_source url) w)

  abbrev pub Added : Type 0
  Added = (Feed × Bool) × Option Error × W

  abbrev pub failure : Error → W → Added
  failure e w = ((no_feed, false), some e, w)

  abbrev pub follow_feed : Uuid → Feed → Bool → Option Error × W → Added
  follow_feed user feed created (none, w) = ((feed, created), none, w)
  follow_feed user feed created (some e, w) =
      failure (wrap (codes "following " ++ feed.name ++ codes ": ") e) w

  abbrev pub existing_feed : Uuid → Reply W Feed → Added
  existing_feed user (feed, none, w) = follow_feed user feed false (outside.follow user feed.id w)
  existing_feed user (feed, some e, w) = failure (wrap (codes "looking up existing feed: ") e) w

  abbrev pub created_feed : Uuid → Text → Reply W Feed → Added
  created_feed user url (feed, none, w) = follow_feed user feed true (outside.follow user feed.id w)
  created_feed user url (feed, some e, w) =
      let found = existing_feed user (outside.feed_by_url url w) in
      if is_duplicate e then found else failure (wrap (codes "creating feed: ") e) w

  -- The name that is given, or else the feed's title, or else its address.
  abbrev pub name_of : Text → Text → Text → Text
  name_of name title url =
      if not (text_eq (trim_space name) [])
      then trim_space name
      else if not (text_eq (trim_space title) [])
      then trim_space title
      else url

  abbrev pub add_resolved : Uuid → Text → Result (RssFeed × Text) × W → Added
  add_resolved user name (err e, w) = failure e w
  add_resolved user name (ok (f, url), w) =
      created_feed user url (outside.create_feed (name_of name f.title url) url user w)

  -- `Add`
  unfoldable pub add : Uuid → Text → Text → W → Added
  unfolding resolve
  add user name url w = add_resolved user name (resolve url w)

  abbrev pub categorized : Uuid → Entry → Added → AddResult × W
  categorized user entry ((feed, created), some e, w) =
      (record { entry = entry; feed = feed; created = created; err = some e }, w)
  categorized user entry ((feed, created), none, w) = (
    record { entry = entry; feed = feed; created = created; err = none },
    (if text_eq entry.category []
        then w
        else (outside.set_category user feed.id entry.category w).1),
  )

  -- What `AddMany` does for one entry.
  unfoldable pub add_entry : Uuid → Entry → W → AddResult × W
  unfolding add
  add_entry user entry w = categorized user entry (add user entry.name entry.url w)
