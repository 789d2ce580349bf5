-- ===== src/Local/Adding.antt =====
-- `Add` of internal/feeds/feeds.go: what it asks of the database and of the web.
use gator_cli.Prelude.{◌≡◌, refl, ap, ◌∙◌, Option, none, some, Text, Bool-cases, inl, inr}
use gator_cli.Database.{Uuid, Feed}
use gator_cli.Store.{ok, err, Result}
use gator_cli.Rss.{
  RssFeed, Link, NotAFeed, Fetched, got_feed, got_none, not_a_feed, failed, unmodified,
}
use gator_cli.Rss.Discover.{first_link}
use gator_cli.Rss.Fetch.{Source}
use gator_cli.Feeds.{Outside, is_duplicate}
use gator_cli.Feeds.Add.{
  add, resolve, first_try, second_try, existing_feed, created_feed, add_resolved, new_source,
  name_of,
}
use gator_cli.Offline.Store.{Reply}

-- The same web, and databases that answer alike what is asked for one user or for no user.
pub record AgreeAdding {W : Type 0} (user : Uuid) (o o' : Outside W) : Type 0 where
  pub fetch : o.fetch ≡ o'.fetch
  pub create_feed : (name url : Text) → o.create_feed name url user ≡ o'.create_feed name url user
  pub feed_by_url : o.feed_by_url ≡ o'.feed_by_url
  pub follow : o.follow user ≡ o'.follow user

module _ {W : Type 0} (o o' : Outside W) (user : Uuid) (h : AgreeAdding user o o') where
  second_try-eq :
      (url : Text) (e : NotAFeed) (l : Option Link) (w : W)
      → second_try o url e l w ≡ second_try o' url e l w
  second_try-eq url e none w = refl
  second_try-eq url e (some l) w = rw h.fetch refl

  first_try-eq :
      (url : Text) (found : (Fetched × Source) × W) → first_try o url found ≡ first_try o' url found
  first_try-eq url ((got_feed f, src), w) = refl
  first_try-eq url ((got_none (not_a_feed e), src), w) = second_try-eq url e (first_link e.links) w
  first_try-eq url ((got_none (failed e), src), w) = refl
  first_try-eq url ((got_none unmodified, src), w) = refl

  resolve-eq : (url : Text) (w : W) → resolve o url w ≡ resolve o' url w
  unfolding resolve
  resolve-eq url w =
      ap (λ fetch. first_try o url (fetch (new_source url) w)) h.fetch
      ∙ first_try-eq url (o'.fetch (new_source url) w)

  existing_feed-eq :
      (found : Reply W Feed) → existing_feed o user found ≡ existing_feed o' user found
  existing_feed-eq (feed, none, w) = rw h.follow refl
  existing_feed-eq (feed, some e, w) = refl

  created_feed-eq :
      (url : Text) (made : Reply W Feed)
      → created_feed o user url made ≡ created_feed o' user url made
  created_feed-eq url (feed, none, w) = rw h.follow refl
  created_feed-eq url (feed, some e, w) = elim (Bool-cases (is_duplicate e)) [
    | inl d ↦ rw d (
        ap (λ find. existing_feed o user (find url w)) h.feed_by_url
        ∙ existing_feed-eq (o'.feed_by_url url w))
    | inr d ↦ rw d refl
  ]

  add_resolved-eq :
      (name : Text) (found : Result (RssFeed × Text) × W)
      → add_resolved o user name found ≡ add_resolved o' user name found
  add_resolved-eq name (err e, w) = refl
  add_resolved-eq name (ok (f, url), w) =
      ap (λ create. created_feed o user url (create w))
        (h.create_feed (name_of o name f.title url) url)
      ∙ created_feed-eq url (o'.create_feed (name_of o name f.title url) url user w)

  pub add-eq : (name url : Text) (w : W) → add o user name url w ≡ add o' user name url w
  unfolding add
  add-eq name url w =
      ap (add_resolved o user name) (resolve-eq url w) ∙ add_resolved-eq name (resolve o' url w)
