-- ===== src/Local/Isolation.antt =====
-- The server asks the database only for the user whose token came with the request
-- (internal/store/local/local.go behind internal/api/server.go).
use gator_cli.Prelude.{◌==◌, ◌≡◌, refl, ap, ◌∙◌, fun_ext, false, none, some, List, [], ◌∷◌, Text}
use gator_cli.Database.{Uuid, User, Post, Feed}
use gator_cli.Offline.Store.{Reply}
use gator_cli.Feeds.{Outside}
use gator_cli.Local.Adding.{AgreeAdding, add-eq}
use gator_cli.Local.{
  Queries, local_store, resolve, pick_posts, set_category, fetch_text, feed_by_url, follows_feed,
  in_session, with_feed, unfollowed, delete_follow,
}
use gator_cli.Local.Requests.{per_request, leave}

-- Two databases that answer alike for one user, and alike where no user is asked for.
pub record AgreeFor {W : Type 0} (user : Uuid) (p q : Queries W) : Type 0 where
  pub search_posts : p.search_posts user ≡ q.search_posts user
  pub post_digest : p.post_digest user ≡ q.post_digest user
  pub posts_filtered : p.posts_filtered user ≡ q.posts_filtered user
  pub bookmarks : p.bookmarks user ≡ q.bookmarks user
  pub post_by_url : (url : Text) → p.post_by_url url user ≡ q.post_by_url url user
  pub post_by_id : (id : Uuid) → p.post_by_id id user ≡ q.post_by_id id user
  pub bookmarked_ids : p.bookmarked_ids user ≡ q.bookmarked_ids user
  pub read_ids : p.read_ids user ≡ q.read_ids user
  pub unread_counts : p.unread_counts user ≡ q.unread_counts user
  pub set_full_text : p.set_full_text ≡ q.set_full_text
  pub mark_unread : p.mark_unread user ≡ q.mark_unread user
  pub mark_read : p.mark_read user ≡ q.mark_read user
  pub mark_all_read : p.mark_all_read user ≡ q.mark_all_read user
  pub create_bookmark : p.create_bookmark user ≡ q.create_bookmark user
  pub delete_bookmark : p.delete_bookmark user ≡ q.delete_bookmark user
  pub follows : p.follows user ≡ q.follows user
  pub feed_stats : p.feed_stats user ≡ q.feed_stats user
  pub create_follow : p.create_follow user ≡ q.create_follow user
  pub feed_by_url : p.feed_by_url ≡ q.feed_by_url
  pub delete_follow : p.delete_follow user ≡ q.delete_follow user
  pub set_category : p.set_category user ≡ q.set_category user
  pub fetch_article : p.fetch_article ≡ q.fetch_article
  pub strip_html : p.strip_html ≡ q.strip_html

module _ {W : Type 0} (p q : Queries W) (o o' : Outside W) (u : User) (h : AgreeFor u.id p q)
    (h' : AgreeAdding u.id o o') (known : (u.id == 0) ≡ false) where
  same_me : (per_request p o u).me ≡ (per_request q o' u).me
  unfolding per_request local_store resolve
  same_me = fun_ext λ w. rw known refl

  same_posts : (per_request p o u).posts ≡ (per_request q o' u).posts
  unfolding per_request local_store resolve pick_posts
  same_posts =
      fun_ext
        λ asked. fun_ext λ w. rw known (rw (h.search_posts, h.post_digest, h.posts_filtered) refl)

  same_bookmarked_posts :
      (per_request p o u).bookmarked_posts ≡ (per_request q o' u).bookmarked_posts
  unfolding per_request local_store resolve
  same_bookmarked_posts = fun_ext λ w. rw known (rw (h.bookmarks) refl)

  same_post_by_url : (per_request p o u).post_by_url ≡ (per_request q o' u).post_by_url
  unfolding per_request local_store resolve
  same_post_by_url = fun_ext λ url. fun_ext λ w. rw known (rw (h.post_by_url url) refl)

  same_bookmarked_ids : (per_request p o u).bookmarked_ids ≡ (per_request q o' u).bookmarked_ids
  unfolding per_request local_store resolve
  same_bookmarked_ids = fun_ext λ w. rw known (rw (h.bookmarked_ids) refl)

  same_read_ids : (per_request p o u).read_ids ≡ (per_request q o' u).read_ids
  unfolding per_request local_store resolve
  same_read_ids = fun_ext λ w. rw known (rw (h.read_ids) refl)

  same_unread_counts : (per_request p o u).unread_counts ≡ (per_request q o' u).unread_counts
  unfolding per_request local_store resolve
  same_unread_counts = fun_ext λ w. rw known (rw (h.unread_counts) refl)

  same_subscriptions : (per_request p o u).subscriptions ≡ (per_request q o' u).subscriptions
  unfolding per_request local_store resolve
  same_subscriptions = fun_ext λ w. rw known (rw (h.follows) refl)

  same_set_read : (per_request p o u).set_read ≡ (per_request q o' u).set_read
  unfolding per_request local_store resolve
  same_set_read =
      fun_ext λ id. fun_ext λ read. fun_ext λ w. rw known (rw (h.mark_unread, h.mark_read) refl)

  same_set_all_read_at :
      (ids : List Uuid) (w : W)
      → (per_request p o u).set_all_read ids w ≡ (per_request q o' u).set_all_read ids w
  unfolding per_request local_store resolve
  same_set_all_read_at [] w = refl
  same_set_all_read_at (id ∷ ids) w = rw known (rw h.mark_all_read refl)

  same_set_all_read : (per_request p o u).set_all_read ≡ (per_request q o' u).set_all_read
  unfolding per_request local_store resolve
  same_set_all_read = fun_ext λ ids. fun_ext λ w. same_set_all_read_at ids w

  same_bookmark : (per_request p o u).bookmark ≡ (per_request q o' u).bookmark
  unfolding per_request local_store resolve
  same_bookmark = fun_ext λ id. fun_ext λ w. rw known (rw (h.create_bookmark) refl)

  same_unbookmark : (per_request p o u).unbookmark ≡ (per_request q o' u).unbookmark
  unfolding per_request local_store resolve
  same_unbookmark = fun_ext λ id. fun_ext λ w. rw known (rw (h.delete_bookmark) refl)

  same_categorize : (per_request p o u).categorize ≡ (per_request q o' u).categorize
  unfolding per_request local_store resolve set_category feed_by_url follows_feed
  same_categorize = fun_ext λ url.
      fun_ext λ category. fun_ext λ w. rw known (rw (h.feed_by_url, h.follows, h.set_category) refl)

  same_full_text : (per_request p o u).full_text ≡ (per_request q o' u).full_text
  unfolding per_request local_store resolve fetch_text
  same_full_text = fun_ext λ (post : Post).
      fun_ext λ w.
        rw known (rw (h.post_by_id post.id, h.fetch_article, h.strip_html, h.set_full_text) refl)

  same_stats : (per_request p o u).stats ≡ (per_request q o' u).stats
  unfolding per_request local_store resolve
  same_stats = fun_ext λ since. fun_ext λ w. rw known (rw (h.feed_stats) refl)

  same_add_feed : (per_request p o u).add_feed ≡ (per_request q o' u).add_feed
  unfolding per_request local_store resolve
  same_add_feed = fun_ext λ name. fun_ext λ url.
      fun_ext λ w. rw known (ap (λ r. leave (in_session u r)) (add-eq o o' u.id h' name url w))

  same_follow_url : (per_request p o u).follow_url ≡ (per_request q o' u).follow_url
  unfolding per_request local_store resolve feed_by_url
  same_follow_url = fun_ext λ url. fun_ext λ w. rw known (rw (h.feed_by_url, h.create_follow) refl)

  same_with_feed :
      (found : Reply W Feed)
      → leave (
          with_feed p o u.name found u
            (λ feed s. unfollowed p o u.name feed (delete_follow p o u.name feed.id s)))
        ≡ leave (
            with_feed q o' u.name found u
              (λ feed s. unfollowed q o' u.name feed (delete_follow q o' u.name feed.id s)))
  unfolding resolve
  same_with_feed (feed, some e, w) = refl
  same_with_feed (feed, none, w) = rw known (rw h.delete_follow refl)

  same_unfollow_url : (per_request p o u).unfollow_url ≡ (per_request q o' u).unfollow_url
  unfolding per_request local_store feed_by_url
  same_unfollow_url =
      fun_ext
        λ url. fun_ext λ w. same_with_feed (feed_by_url p o u.name url w) ∙ rw h.feed_by_url refl

  same_unfollow : (per_request p o u).unfollow ≡ (per_request q o' u).unfollow
  unfolding per_request local_store resolve
  same_unfollow = fun_ext λ id. fun_ext λ w. rw known (rw (h.delete_follow) refl)

  -- The store of a request on the one database is that on the other.
  pub per_request-eq : per_request p o u ≡ per_request q o' u
  unfolding per_request
  per_request-eq = λ i. record {
    me = same_me i;
    posts = same_posts i;
    bookmarked_posts = same_bookmarked_posts i;
    post_by_url = same_post_by_url i;
    bookmarked_ids = same_bookmarked_ids i;
    read_ids = same_read_ids i;
    unread_counts = same_unread_counts i;
    subscriptions = same_subscriptions i;
    set_read = same_set_read i;
    set_all_read = same_set_all_read i;
    bookmark = same_bookmark i;
    unbookmark = same_unbookmark i;
    categorize = same_categorize i;
    full_text = same_full_text i;
    stats = same_stats i;
    add_feed = same_add_feed i;
    follow_url = same_follow_url i;
    unfollow_url = same_unfollow_url i;
    unfollow = same_unfollow i;
  }
