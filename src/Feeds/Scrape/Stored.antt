-- ===== src/Feeds/Scrape/Stored.antt =====
-- What a scrape without an error has done with the items of the feed (`Scrape` of
-- internal/feeds/feeds.go).
use gator_cli.Prelude.{
  ◌+◌, ◌≤◌, ◌≡◌, ◌⊎◌, inl, inr, refl, ap, Bool, true, false, Option, none, some, List, [], ◌∷◌,
  length, Text, All, arith, Bool-cases,
}
use gator_cli.Database.{Feed}
use gator_cli.Store.{Error}
use gator_cli.Rss.{RssItem, RssFeed, not_a_feed, failed, unmodified, Fetched, got_feed, got_none}
use gator_cli.Rss.Fetch.{Source}
use gator_cli.Feeds.{Policy, NewPost, Outside, is_duplicate, parse_pub_date}
use gator_cli.Feeds.Scrape.{
  ScrapeResult, PrunableWindow, worthless, new_post, after_post, save_items, remember_move,
  prunable_before, saved_items, after_move, unmodified_result, after_fetch, started, scrape_marked,
  scrape,
}

-- The table of posts: `has` tells whether a post of an address is in it. A post is there once it is
-- made, or once its address is refused as taken, and it stays when others are made.
pub record IsPostTable {W : Type 0} (outside : Outside W) (has : W → Text → Bool) : Type 0 where
  pub made :
      (p : NewPost) (w : W)
      → (outside.create_post p w).0 ≡ none
      → has (outside.create_post p w).1 p.url ≡ true
  pub taken :
      (p : NewPost) (w : W) (e : Error)
      → (outside.create_post p w).0 ≡ some e
      → is_duplicate e ≡ true
      → has (outside.create_post p w).1 p.url ≡ true
  pub keeps :
      (p : NewPost) (w : W) (url : Text)
      → has w url ≡ true
      → has (outside.create_post p w).1 url ≡ true

module _ {W : Type 0} (outside : Outside W) (has : W → Text → Bool)
    (table : IsPostTable outside has) where
  -- The item is stored, or was too old when it was looked at.
  abbrev pub IsHandled : PrunableWindow → W → RssItem → Type 0
  IsHandled window w item =
      (has w item.link ≡ true)
      ⊎ ((u : W) × (worthless outside window (parse_pub_date outside item.pub_date) (outside.now u)
            ≡ true))

  pub record AllHandled (window : PrunableWindow) (items : List RssItem) (before : ScrapeResult)
      (after : ScrapeResult) (w : W) : Type 0 where
    pub handled : All (IsHandled window w) items
    pub bound : after.saved + after.skipped ≤ before.saved + before.skipped + length items

  -- What follows a post keeps what is stored.
  after_post-keeps :
      (item : RssItem) (res : ScrapeResult) (reply : Option Error × W)
      (next : ScrapeResult → W → ScrapeResult × W) (url : Text)
      → ((r : ScrapeResult) → has (next r reply.1).1 url ≡ true)
      → has reply.1 url ≡ true
      → has (after_post outside item res reply next).1 url ≡ true
  after_post-keeps item res (none, w) next url onward h =
      onward (record res { saved = res.saved + 1 })
  after_post-keeps item res (some e, w) next url onward h = elim (Bool-cases (is_duplicate e)) [
    | inl twice ↦ rw twice (onward res)
    | inr other ↦ rw other h
  ]

  save_items-keeps :
      (window : PrunableWindow) (items : List RssItem) (res : ScrapeResult) (w : W) (url : Text)
      → has w url ≡ true
      → has (save_items outside window items res w).1 url ≡ true
  unfolding save_items
  save_items-keeps window [] res w url h = h
  save_items-keeps window (item ∷ items) res w url h =
      elim (Bool-cases
        (worthless outside window (parse_pub_date outside item.pub_date) (outside.now w))) [
          | inl old ↦
              rw old
                (save_items-keeps window items (record res { skipped = res.skipped + 1 }) w url h)
          | inr young ↦ rw young (
              let p = new_post outside res.feed.id item (parse_pub_date outside item.pub_date) in
              after_post-keeps item res (outside.create_post p w)
                (λ r w'. save_items outside window items r w') url
                (λ r.
                  save_items-keeps window items r (outside.create_post p w).1 url
                    (table.keeps p w url h))
                (table.keeps p w url h))
        ]

  after_post-handled :
      (window : PrunableWindow) (item : RssItem) (items : List RssItem) (res : ScrapeResult)
      (reply : Option Error × W)
      → (reply.0 ≡ none → has reply.1 item.link ≡ true)
      → ((e : Error) → reply.0 ≡ some e → is_duplicate e ≡ true → has reply.1 item.link ≡ true)
      → ((r : ScrapeResult)
          → (save_items outside window items r reply.1).0.err ≡ none
          → AllHandled window items r
              (save_items outside window items r reply.1).0
              (save_items outside window items r reply.1).1)
      → (after_post outside item res reply (λ r w'. save_items outside window items r w')).0.err
        ≡ none
      → AllHandled window
          (item ∷ items)
          res
          (after_post outside item res reply (λ r w'. save_items outside window items r w')).0
          (after_post outside item res reply (λ r w'. save_items outside window items r w')).1
  after_post-handled window item items res (none, w) made taken onward = λ fine.
      let rest = onward (record res { saved = res.saved + 1 }) fine in
      record {
        handled = (
          inl (
              save_items-keeps window items (record res { saved = res.saved + 1 }) w item.link
                (made refl)),
          rest.handled,
        );
        bound = omega (arith, rest.bound);
      }
  after_post-handled window item items res (some e, w) made taken onward =
      elim (Bool-cases (is_duplicate e)) [
        | inl twice ↦ rw twice (λ fine.
            let rest = onward res fine in
            record {
              handled = (
                inl (save_items-keeps window items res w item.link (taken e refl twice)),
                rest.handled,
              );
              bound = omega (arith, rest.bound);
            })
        | inr other ↦ rw other (λ fine. cc)
      ]

  save_items-handled :
      (window : PrunableWindow) (items : List RssItem) (res : ScrapeResult) (w : W)
      → (save_items outside window items res w).0.err ≡ none
      → AllHandled window items res
          (save_items outside window items res w).0
          (save_items outside window items res w).1
  unfolding save_items
  save_items-handled window [] res w = λ fine. record { handled = tt; bound = omega arith }
  save_items-handled window (item ∷ items) res w =
      elim (Bool-cases
        (worthless outside window (parse_pub_date outside item.pub_date) (outside.now w))) [
          | inl old ↦ rw old (λ fine.
              let rest =
                save_items-handled window items (record res { skipped = res.skipped + 1 }) w fine in
              record { handled = (inr (w, old), rest.handled); bound = omega (arith, rest.bound) })
          | inr young ↦ rw young (
              let p = new_post outside res.feed.id item (parse_pub_date outside item.pub_date) in
              after_post-handled window item items res (outside.create_post p w) (table.made p w)
                (table.taken p w)
                (λ r fine. save_items-handled window items r (outside.create_post p w).1 fine))
        ]

  abbrev source_of : Feed → Source
  source_of f = record { url = f.url; etag = f.etag; last_modified = f.last_modified }

  -- A scrape that has stored what the feed held when it was fetched.
  pub record IsStored (f : Feed) (p : Policy) (world : W) (after : ScrapeResult) (w' : W)
      : Type 0 where
    pub content : RssFeed
    pub next : Source
    pub asked : W
    pub window : PrunableWindow
    pub prunable : window ≡ (prunable_before outside f.id p asked).0
    pub fetched : (outside.fetch (source_of f) world).0 ≡ (got_feed content, next)
    pub handled : All (IsHandled window w') content.items
    pub counted : after.items ≡ length content.items
    pub bound : after.saved + after.skipped ≤ after.items

  -- What comes of a part of a scrape, if it ends without an error and the feed was modified.
  abbrev Ends : Feed → Policy → W → ScrapeResult × W → Type 0
  Ends f p world r = r.0.err ≡ none → r.0.not_modified ≡ false → IsStored f p world r.0 r.1

  after_post-items :
      (item : RssItem) (res : ScrapeResult) (reply : Option Error × W)
      (next : ScrapeResult → W → ScrapeResult × W)
      → ((r : ScrapeResult) → (next r reply.1).0.items ≡ r.items)
      → (after_post outside item res reply next).0.items ≡ res.items
  after_post-items item res (none, w) next same = same (record res { saved = res.saved + 1 })
  after_post-items item res (some e, w) next same = elim (Bool-cases (is_duplicate e)) [
    | inl twice ↦ rw twice (same res)
    | inr other ↦ rw other refl
  ]

  save_items-items :
      (window : PrunableWindow) (items : List RssItem) (res : ScrapeResult) (w : W)
      → (save_items outside window items res w).0.items ≡ res.items
  unfolding save_items
  save_items-items window [] res w = refl
  save_items-items window (item ∷ items) res w =
      elim (Bool-cases
        (worthless outside window (parse_pub_date outside item.pub_date) (outside.now w))) [
          | inl old ↦
              rw old (save_items-items window items (record res { skipped = res.skipped + 1 }) w)
          | inr young ↦ rw young (
              after_post-items item res
                (outside.create_post
                  (new_post outside res.feed.id item (parse_pub_date outside item.pub_date)) w)
                (λ r w'. save_items outside window items r w')
                (λ r. save_items-items window items r _))
        ]

  saved_items-Ends :
      (f : Feed) (p : Policy) (content : RssFeed) (next : Source) (world : W) (moved : Text)
      (reply : Option Error × W)
      → (outside.fetch (source_of f) world).0 ≡ (got_feed content, next)
      → Ends f p world
          (saved_items outside p content (record (started outside f) { moved_to = moved }) reply)
  saved_items-Ends f p content next world moved (some e, w) fetched = λ fine same. cc
  saved_items-Ends f p content next world moved (none, w) fetched = λ fine same.
      let (window, w') = prunable_before outside f.id p w in
      let res : ScrapeResult = record (started outside f) {
        moved_to = moved;
        items = length content.items;
      } in
      let done = save_items-handled window content.items res w' fine in
      let count = save_items-items window content.items res w' in
      record {
        content = content;
        next = next;
        asked = w;
        window = window;
        prunable = refl;
        fetched = fetched;
        handled = done.handled;
        counted = count;
        bound = omega (arith, done.bound, count);
      }

  after_move-Ends :
      (f : Feed) (p : Policy) (content : RssFeed) (next : Source) (world : W)
      (reply : Text × Option Error × W)
      → (outside.fetch (source_of f) world).0 ≡ (got_feed content, next)
      → Ends f p world (after_move outside p content next (started outside f) reply)
  after_move-Ends f p content next world (url, some e, w) fetched = λ fine same. cc
  after_move-Ends f p content next world (url, none, w) fetched =
      saved_items-Ends f p content next world url _ fetched

  unmodified-Ends :
      (f : Feed) (p : Policy) (world : W) (reply : Text × Option Error × W)
      → Ends f p world (unmodified_result outside (started outside f) reply)
  unmodified-Ends f p world (url, none, w) = λ fine same. cc
  unmodified-Ends f p world (url, some e, w) = λ fine same. cc

  after_fetch-Ends :
      (f : Feed) (p : Policy) (world : W) (reply : (Fetched × Source) × W)
      → outside.fetch (source_of f) world ≡ reply
      → Ends f p world (after_fetch outside p (started outside f) reply)
  after_fetch-Ends f p world ((got_feed content, next), w) fetched =
      after_move-Ends f p content next world
        (remember_move outside f next.url (outside.mark_healthy f.id w).1)
        (ap (λ (r : (Fetched × Source) × W). r.0) fetched)
  after_fetch-Ends f p world ((got_none unmodified, next), w) fetched =
      unmodified-Ends f p world (remember_move outside f next.url (outside.mark_healthy f.id w).1)
  after_fetch-Ends f p world ((got_none (failed e), next), w) fetched = λ fine same. cc
  after_fetch-Ends f p world ((got_none (not_a_feed e), next), w) fetched = λ fine same. cc

  scrape_marked-Ends :
      (f : Feed) (p : Policy) (reply : Option Error × W)
      → Ends f p (reply.1) (scrape_marked outside f p reply)
  scrape_marked-Ends f p (some e, w) = λ fine same. cc
  scrape_marked-Ends f p (none, w) = after_fetch-Ends f p w (outside.fetch (source_of f) w) refl

  -- Where a post is in the table once it is made or refused as a duplicate, and stays when others
  -- are made, a scrape that ends without an error, of a feed that was modified, has fetched the
  -- feed's items, counts them all, and each of them is in the table or was too old to keep by the
  -- window of the policy; it counts at most that many as saved or skipped.
  pub scrape-IsStored :
      (f : Feed) (p : Policy) (w : W)
      → (scrape outside f p w).0.err ≡ none
      → (scrape outside f p w).0.not_modified ≡ false
      → IsStored f p
          (outside.mark_fetched f.id w).1
          (scrape outside f p w).0
          (scrape outside f p w).1
  unfolding scrape
  scrape-IsStored f p w = scrape_marked-Ends f p (outside.mark_fetched f.id w)
