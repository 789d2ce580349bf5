-- ===== src/Feeds/Scrape.antt =====
-- `Scrape` of internal/feeds/feeds.go: a feed is fetched and its items are stored.
pub mod Stored
use gator_cli.Prelude.{
  ℕ, suc, ◌+◌, ◌-◌, ltb, ◌==◌, ◌&&◌, ◌||◌, Bool, true, false, not, if◌then◌else◌, Option, none,
  some, List, [], ◌∷◌, ◌++◌, length, Text, text_eq, codes,
}
use gator_cli.Prelude.Int.{ℤ, pos, negsuc, is_positive, pos_part}
use gator_cli.Database.{Uuid, Time, NullTime, NullString, Feed}
use gator_cli.Store.{Error, wrap}
use gator_cli.Rss.{
  RssItem, RssFeed, FetchError, not_a_feed, failed, unmodified, Fetched, got_feed, got_none,
}
use gator_cli.Rss.Discover.{not_a_feed_text}
use gator_cli.Rss.Fetch.{Source}
use gator_cli.Feeds.{Policy, NewPost, Outside, is_duplicate, parse_pub_date}
use gator_cli.Offline.Store.{Reply}

-- `Result`
pub record ScrapeResult : Type 0 where
  pub feed : Feed
  pub not_modified : Bool
  pub moved_to : Text
  pub items : ℕ
  pub saved : ℕ
  pub skipped : ℕ
  pub err : Option Error

pub record PrunableWindow : Type 0 where
  pub retention : ℤ
  pub cutoff : Time
  pub has_cutoff : Bool
  pub keeps_nothing : Bool

-- The error of a fetch as one that is wrapped.
unfoldable pub fetch_error : FetchError → Error
fetch_error (not_a_feed e) = record { message = not_a_feed_text e; wraps = [] }
fetch_error (failed e) = e
fetch_error unmodified = record { message = codes "feed not modified"; wraps = [] }

abbrev pub is_error : Option Error → Bool
is_error none = false
is_error (some e) = true

module _ {W : Type 0} (outside : Outside W) where
  abbrev pub with_cutoff : ℤ → Reply W Time → PrunableWindow × W
  with_cutoff retention (cutoff, none, w) = (
    record { retention = retention; cutoff = cutoff; has_cutoff = true; keeps_nothing = false },
    w,
  )
  with_cutoff retention (cutoff, some e, w) =
      (record { retention = retention; cutoff = 0; has_cutoff = false; keeps_nothing = false }, w)

  -- `prunableBefore`
  unfoldable pub prunable_before : Uuid → Policy → W → PrunableWindow × W
  prunable_before feed_id p w =
      let found =
        with_cutoff p.retention
          (outside.keep_cutoff feed_id (pos (pos_part p.keep_per_feed - 1)) w) in
      if not (is_positive p.retention)
      then (
        record { retention = p.retention; cutoff = 0; has_cutoff = false; keeps_nothing = false },
        w,
      )
      else if not (is_positive p.keep_per_feed)
      then (
        record { retention = p.retention; cutoff = 0; has_cutoff = false; keeps_nothing = true },
        w,
      )
      else found

  -- `prunableWindow.worthless`
  unfoldable pub worthless : PrunableWindow → NullTime → Time → Bool
  worthless window published now =
      let item = outside.wall_clock published.time in
      if not (is_positive window.retention) || not (published.valid)
      then false
      else if not (ltb item (outside.wall_clock (now - pos_part window.retention)))
      then false
      else if window.keeps_nothing
      then true
      else window.has_cutoff && ltb item window.cutoff

  abbrev pub new_post : Uuid → RssItem → NullTime → NewPost
  new_post feed_id item published = record {
    title = item.title;
    url = item.link;
    description = record { string = item.description; valid = not (text_eq item.description []) };
    published_at = published;
    feed_id = feed_id;
  }

  abbrev pub after_post :
      RssItem
      → ScrapeResult
      → Option Error × W
      → (ScrapeResult → W → ScrapeResult × W)
      → ScrapeResult × W
  after_post item res (none, w) next = next (record res { saved = res.saved + 1 }) w
  after_post item res (some e, w) next =
      let rest = next res w in
      if is_duplicate e then rest else (
        record res {
          err = some (wrap (codes "saving " ++ outside.quote item.title ++ codes ": ") e);
        },
        w,
      )

  -- The loop of `Scrape`
  unfoldable pub save_items : PrunableWindow → List RssItem → ScrapeResult → W → ScrapeResult × W
  unfolding parse_pub_date worthless
  save_items window [] res w = (res, w)
  save_items window (item ∷ items) res w =
      let published = parse_pub_date outside item.pub_date in
      let skipped = save_items window items (record res { skipped = res.skipped + 1 }) w in
      let saved =
        after_post item res (outside.create_post (new_post res.feed.id item published) w)
          (λ res' w'. save_items window items res' w') in
      if worthless window published (outside.now w) then skipped else saved

  abbrev pub moved_answer : Text → Option Error × W → Text × Option Error × W
  moved_answer url (none, w) = (url, none, w)
  moved_answer url (some e, w) = ([], (if is_duplicate e then none else some e), w)

  -- `rememberMove`
  unfoldable pub remember_move : Feed → Text → W → Text × Option Error × W
  remember_move feed url w =
      let asked = moved_answer url (outside.set_url feed.id url w) in
      if text_eq url [] || text_eq url feed.url then ([], none, w) else asked

  -- The items of a feed whose validators are saved.
  abbrev pub saved_items : Policy → RssFeed → ScrapeResult → Option Error × W → ScrapeResult × W
  saved_items p f res (some e, w) = (
    record res {
      err = some (wrap (codes "saving validators for " ++ res.feed.name ++ codes ": ") e);
    },
    w,
  )
  saved_items p f res (none, w) =
      let (window, w') = prunable_before res.feed.id p w in
      save_items window f.items (record res { items = length f.items }) w'

  abbrev pub after_move :
      Policy → RssFeed → Source → ScrapeResult → Text × Option Error × W → ScrapeResult × W
  after_move p f next res (url, some e, w) = (
    record res {
      moved_to = url;
      err = some (wrap (codes "saving new url for " ++ res.feed.name ++ codes ": ") e);
    },
    w,
  )
  after_move p f next res (url, none, w) =
      saved_items p f (record res { moved_to = url })
        (if not (text_eq next.etag res.feed.etag)
            || not (text_eq next.last_modified res.feed.last_modified)
          then outside.save_validators res.feed.id next.etag next.last_modified w
          else (none, w))

  abbrev pub unmodified_result : ScrapeResult → Text × Option Error × W → ScrapeResult × W
  unmodified_result res (url, none, w) = (record res { moved_to = url; not_modified = true }, w)
  unmodified_result res (url, some e, w) = (
    record res {
      moved_to = url;
      not_modified = true;
      err = some (wrap (codes "saving new url for " ++ res.feed.name ++ codes ": ") e);
    },
    w,
  )

  abbrev pub failed_result : ScrapeResult → FetchError → W → ScrapeResult × W
  failed_result res e w = (
    record res {
      err = some (wrap (codes "fetching " ++ res.feed.name ++ codes ": ") (fetch_error e));
    },
    (outside.mark_failed res.feed.id (fetch_error e).message w).1,
  )

  abbrev pub after_fetch : Policy → ScrapeResult → (Fetched × Source) × W → ScrapeResult × W
  after_fetch p res ((got_feed f, next), w) =
      let (e, w') = outside.mark_healthy res.feed.id w in
      after_move p f next res (remember_move res.feed next.url w')
  after_fetch p res ((got_none unmodified, next), w) =
      let (e, w') = outside.mark_healthy res.feed.id w in
      unmodified_result res (remember_move res.feed next.url w')
  after_fetch p res ((got_none (failed e), next), w) = failed_result res (failed e) w
  after_fetch p res ((got_none (not_a_feed e), next), w) = failed_result res (not_a_feed e) w

  abbrev pub started : Feed → ScrapeResult
  started feed = record {
    feed = feed;
    not_modified = false;
    moved_to = [];
    items = 0;
    saved = 0;
    skipped = 0;
    err = none;
  }

  abbrev pub scrape_marked : Feed → Policy → Option Error × W → ScrapeResult × W
  scrape_marked feed p (some e, w) = (
    record (started feed) {
      err = some (wrap (codes "marking " ++ feed.name ++ codes " fetched: ") e);
    },
    w,
  )
  scrape_marked feed p (none, w) = after_fetch p (started feed) (
      outside.fetch
        (record { url = feed.url; etag = feed.etag; last_modified = feed.last_modified }) w)

  -- `Scrape`
  unfoldable pub scrape : Feed → Policy → W → ScrapeResult × W
  unfolding remember_move prunable_before fetch_error
  scrape feed p w = scrape_marked feed p (outside.mark_fetched feed.id w)
