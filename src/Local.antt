-- ===== src/Local.antt =====
-- internal/store/local/local.go: the store on the database. The queries are functions of a world `W`;
-- what one takes of the clock and of uuid.New is in the world. The store remembers its user, which is part
-- of its state.
pub mod Requests
pub mod Adding
pub mod Isolation
pub mod Served
use gator_cli.Prelude.{
  ℕ, ◌+◌, ◌==◌, ◌||◌, Bool, true, false, not, if◌then◌else◌, Option, none, some, List, [], ◌∷◌,
  ◌++◌, map, length, any, Text, text_eq, codes,
}
use gator_cli.Prelude.Int.{ℤ, is_positive}
use gator_cli.Database.{
  Uuid, Time, User, Post, Feed, Subscription, UnreadCount, FeedStat, Follow, no_user, no_post,
  no_feed,
}
use gator_cli.Store.{
  Error, Result, ok, err, wrap, PostQuery, feed_not_found, not_followed, no_more_text,
}
use gator_cli.Article.{Article, improves}
use gator_cli.Feeds.{Outside}
use gator_cli.Feeds.Scrape.{ScrapeResult, is_error}
use gator_cli.Feeds.Add.{add}
use gator_cli.Remote.Calls.{no_follow}
use gator_cli.Offline.Store.{Reply, Inner}

-- The queries of internal/database, article.Fetch and text.StripHTML.
pub record Queries (W : Type 0) : Type 0 where
  pub get_user : Text → W → Reply W User
  pub search_posts : Uuid → Text → ℤ → W → Reply W (List Post)
  pub post_digest : Uuid → PostQuery → W → Reply W (List Post)
  pub posts_filtered : Uuid → PostQuery → W → Reply W (List Post)
  pub bookmarks : Uuid → W → Reply W (List Post)
  pub post_by_url : Text → Uuid → W → Reply W Post
  pub post_by_id : Uuid → Uuid → W → Reply W Post
  pub bookmarked_ids : Uuid → W → Reply W (List Uuid)
  pub read_ids : Uuid → W → Reply W (List Uuid)
  pub unread_counts : Uuid → W → Reply W (List UnreadCount)
  pub set_full_text : Uuid → Text → W → Option Error × W
  pub mark_unread : Uuid → Uuid → W → Option Error × W
  pub mark_read : Uuid → Uuid → W → Option Error × W
  pub mark_all_read : Uuid → List Uuid → W → Option Error × W
  pub create_bookmark : Uuid → Uuid → W → Reply W (List Uuid)
  pub delete_bookmark : Uuid → Uuid → W → Option Error × W
  pub follows : Uuid → W → Reply W (List Subscription)
  pub feed_stats : Uuid → Time → W → Reply W (List FeedStat)
  pub create_follow : Uuid → Uuid → W → Reply W (List Follow)
  pub feed_by_url : Text → W → Reply W Feed
  pub delete_follow : Uuid → Uuid → W → Option Error × W
  pub set_category : Uuid → Uuid → Text → W → Option Error × W
  pub fetch_article : Text → W → Result Article × W
  pub strip_html : Text → Text

-- The user that the store remembers, and the world.
pub record Session (W : Type 0) : Type 0 where
  pub user : User
  pub world : W

module _ {W : Type 0} where
  abbrev pub in_session : {A : Type 0} → User → Reply W A → Reply (Session W) A
  in_session user (a, e, w) = (a, e, record { user = user; world = w })

  abbrev pub done_in_session : User → Option Error × W → Option Error × Session W
  done_in_session user (e, w) = (e, record { user = user; world = w })

  -- A query, and what follows unless it fails.
  abbrev pub after : {A B : Type 0} → B → Reply W A → (A → W → Reply W B) → Reply W B
  after zero_value (a, some e, w) next = (zero_value, some e, w)
  after zero_value (a, none, w) next = next a w

  abbrev pub after_done :
      {B : Type 0} → (Error → Error) → B → Option Error × W → (W → Reply W B) → Reply W B
  after_done text zero_value (some e, w) next = (zero_value, some (text e), w)
  after_done text zero_value (none, w) next = next w

module _ {W : Type 0} (queries : Queries W) (outside : Outside W) (username : Text) where
  abbrev pub remembered : Session W → Reply W User → Reply (Session W) User
  remembered s (user, some e, w) = (no_user, some e, record s { world = w })
  remembered s (user, none, w) = (user, none, record { user = user; world = w })

  -- `resolve`
  unfoldable pub resolve : Session W → Reply (Session W) User
  resolve s =
      let asked = remembered s (queries.get_user username s.world) in
      if not (s.user.id == 0) then (s.user, none, s) else asked

  -- What each method does first.
  abbrev pub for_user :
      {A : Type 0} → A → Reply (Session W) User → (Uuid → W → Reply W A) → Reply (Session W) A
  for_user zero_value (user, some e, s) query = (zero_value, some e, s)
  for_user zero_value (user, none, s) query = in_session s.user (query user.id s.world)

  abbrev pub do_for_user :
      Reply (Session W) User → (Uuid → W → Option Error × W) → Option Error × Session W
  do_for_user (user, some e, s) query = (some e, s)
  do_for_user (user, none, s) query = done_in_session s.user (query user.id s.world)

  -- The query that `Posts` picks
  unfoldable pub pick_posts : PostQuery → Uuid → W → Reply W (List Post)
  pick_posts q user w =
      if not (text_eq q.query [])
      then queries.search_posts user q.query q.limit w
      else if is_positive q.per_feed
      then queries.post_digest user q w
      else queries.posts_filtered user q w

  -- `feedByURL`
  abbrev pub found_feed : Reply W Feed → Reply W Feed
  found_feed (feed, none, w) = (feed, none, w)
  found_feed (feed, some e, w) = (
    no_feed,
    some (record {
      message = codes "feed not found: " ++ e.message;
      wraps = feed_not_found ∷ e.wraps;
    }),
    w,
  )

  unfoldable pub feed_by_url : Text → W → Reply W Feed
  feed_by_url url w = found_feed (queries.feed_by_url url w)

  -- `FullText`, from the article on.
  abbrev pub kept_text : Post → Result Article × W → Reply W Text
  kept_text post (err e, w) = ([], some e, w)
  kept_text post (ok got, w) =
      if not (improves got.text (queries.strip_html post.description.string))
      then (
        [],
        some (record {
          message = post.url ++ codes ": the article has no more text than the feed already gave";
          wraps = no_more_text ∷ [];
        }),
        w,
      )
      else after_done (wrap (codes "saving article text: ")) []
          (queries.set_full_text post.id got.text w) (λ w'. (got.text, none, w'))

  unfoldable pub fetch_text : Uuid → Uuid → W → Reply W Text
  fetch_text id user w =
      after [] (queries.post_by_id id user w)
        (λ post w'. kept_text post (queries.fetch_article post.url w'))

  abbrev pub is_made : List Uuid → Bool
  is_made [] = false
  is_made (row ∷ rows) = true

  -- `Follow` of internal/feeds/feeds.go, and what `FollowURL` fills in.
  abbrev pub followed : User → Feed → Reply W (List Follow) → Reply W (Follow × Bool)
  followed user feed (rows, some e, w) = ((no_follow, false), some e, w)
  followed user feed ([], none, w) = (
    (
      record no_follow {
        feed_id = feed.id;
        feed_name = feed.name;
        user_id = user.id;
        user_name = user.name;
      },
      false,
    ),
    none,
    w,
  )
  followed user feed (row ∷ rows, none, w) = ((row, true), none, w)

  -- `followsFeed`
  unfoldable pub follows_feed : List Subscription → Uuid → Bool
  follows_feed rows feed_id = any (λ (r : Subscription). r.feed_id == feed_id) rows

  abbrev pub labelled : {B : Type 0} → Text → Reply W B → Reply W B
  labelled text (b, none, w) = (b, none, w)
  labelled text (b, some e, w) = (b, some (wrap text e), w)

  -- `Categorize`, once the user is known.
  unfoldable pub set_category : Text → Text → Uuid → W → Reply W Feed
  unfolding feed_by_url follows_feed
  set_category url category user w = after no_feed (feed_by_url url w) (λ feed w'.
      after no_feed (labelled (codes "error fetching follows: ") (queries.follows user w'))
        (λ rows w''.
          if not (follows_feed rows feed.id)
          then (
            feed,
            some (record {
              message = feed.name ++ codes ": you do not follow that feed";
              wraps = not_followed ∷ [];
            }),
            w'',
          )
          else after_done (wrap (codes "error setting category: ")) no_feed
              (queries.set_category user feed.id category w'') (λ w'''. (feed, none, w'''))))

  abbrev pub with_feed :
      Reply W Feed → User → (Feed → Session W → Reply (Session W) Feed) → Reply (Session W) Feed
  with_feed (feed, some e, w) user next = (no_feed, some e, record { user = user; world = w })
  with_feed (feed, none, w) user next = next feed (record { user = user; world = w })

  abbrev pub unfollowed : Feed → Option Error × Session W → Reply (Session W) Feed
  unfollowed feed (some e, s) = (no_feed, some e, s)
  unfollowed feed (none, s) = (feed, none, s)

  abbrev pub delete_follow : Uuid → Session W → Option Error × Session W
  delete_follow id s = do_for_user (resolve s) (λ user w. queries.delete_follow user id w)

  abbrev pub mark_all : List Uuid → Session W → Option Error × Session W
  mark_all [] s = (none, s)
  mark_all (id ∷ ids) s =
      do_for_user (resolve s) (λ user w. queries.mark_all_read user (id ∷ ids) w)

  abbrev pub follow_for : Text → Reply (Session W) User → Reply (Session W) (Follow × Bool)
  follow_for url (user, some e, s) = ((no_follow, false), some e, s)
  follow_for url (user, none, s) = in_session s.user (
      after (no_follow, false) (feed_by_url url s.world)
        (λ feed w. followed user feed (queries.create_follow user.id feed.id w)))

  -- The methods of the store.
  unfoldable pub local_store : Inner (Session W)
  unfolding resolve pick_posts feed_by_url fetch_text set_category
  local_store = record {
    me = λ s. resolve s;
    posts = λ q s. for_user [] (resolve s) (pick_posts q);
    bookmarked_posts = λ s. for_user [] (resolve s) queries.bookmarks;
    post_by_url = λ url s. for_user no_post (resolve s) (queries.post_by_url url);
    bookmarked_ids = λ s. for_user [] (resolve s) queries.bookmarked_ids;
    read_ids = λ s. for_user [] (resolve s) queries.read_ids;
    unread_counts = λ s. for_user [] (resolve s) queries.unread_counts;
    subscriptions = λ s. for_user [] (resolve s) queries.follows;
    set_read = λ id read s.
        do_for_user (resolve s) (λ user w.
          if not read then queries.mark_unread user id w else queries.mark_read user id w);
    set_all_read = λ ids s. mark_all ids s;
    bookmark = λ id s. for_user false (resolve s) (λ user w.
        after false (queries.create_bookmark user id w) (λ rows w'. (is_made rows, none, w')));
    unbookmark = λ id s. do_for_user (resolve s) (λ user w. queries.delete_bookmark user id w);
    categorize = λ url category s. for_user no_feed (resolve s) (set_category url category);
    full_text = λ post s. for_user [] (resolve s) (fetch_text post.id);
    stats = λ since s. for_user [] (resolve s) (λ user w. queries.feed_stats user since w);
    add_feed =
        λ name url s. for_user (no_feed, false) (resolve s) (λ user w. add outside user name url w);
    follow_url = λ url s. follow_for url (resolve s);
    unfollow_url = λ url s.
        with_feed (feed_by_url url s.world) s.user
          (λ feed s'. unfollowed feed (delete_follow feed.id s'));
    unfollow = λ id s. delete_follow id s;
  }

-- What `Refresh` counts.
pub record RefreshResult : Type 0 where
  pub feeds : ℕ
  pub saved : ℕ
  pub failed : ℕ
  pub unchanged : ℕ

abbrev pub count_result : ScrapeResult → RefreshResult → RefreshResult
count_result r out =
    if is_error r.err
    then record out { failed = out.failed + 1 }
    else if r.not_modified
    then record out { unchanged = out.unchanged + 1 }
    else record out { saved = out.saved + r.saved }

-- The loop of `Refresh`
unfoldable pub count_results : List ScrapeResult → RefreshResult → RefreshResult
count_results [] out = out
count_results (r ∷ results) out = count_results results (count_result r out)
