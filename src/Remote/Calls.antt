-- ===== src/Remote/Calls.antt =====
-- The methods of the client (internal/store/remote/remote.go).
use gator_cli.Prelude.{
  ◌==◌, Bool, false, not, if◌then◌else◌, Option, none, some, List, [], ◌∷◌, Text, text_eq, codes,
}
use gator_cli.Prelude.Int.{is_positive}
use gator_cli.Database.{
  Uuid, Time, User, Post, Feed, Subscription, UnreadCount, FeedStat, Follow, no_user, no_post,
  no_feed,
}
use gator_cli.Wire
use gator_cli.Wire.{to_user, to_post, to_posts, to_feed}
use gator_cli.Store.{Error, Result, ok, err, PostQuery}
use gator_cli.Decimal.{itoa}
use gator_cli.Http.{
  get_method, post_method, patch_method, delete_method, Document, no_document, no_body, json, Query,
  or_zero,
}
use gator_cli.Api.{Formats}
use gator_cli.Remote.{Client, ask, tell}
use gator_cli.Offline.Store.{Reply}

-- `v.Set` unless the value is empty.
abbrev pub put : Text → Text → Query → Query
put key value rest = if text_eq value [] then rest else (key, value) ∷ rest

abbrev pub put_if : Bool → Text → Text → Query → Query
put_if b key value rest = if b then put key value rest else rest

-- The query of `Posts`
unfoldable pub post_params : Formats → PostQuery → Query
post_params formats q =
    put_if (not (q.feed_id == 0)) (codes "feed_id") (formats.show_uuid q.feed_id) (
      put (codes "feed_name") q.feed_name (
        put (codes "q") q.query (
          put (codes "sort") q.sort_dir (
            put (codes "read") q.read (
              put_if (not (q.since == 0)) (codes "since") (formats.show_time q.since) (
                put (codes "limit") (itoa q.limit) (
                  put_if (is_positive q.offset) (codes "offset") (itoa q.offset)
                    (put_if (is_positive q.per_feed) (codes "per_feed") (itoa q.per_feed) []))))))))

module _ {W A : Type 0} where
  -- The value that a document holds, or the zero value beside an error.
  abbrev pub taken : A → (Document → A) → Result Document × W → Reply W A
  taken zero_value value (err e, w) = (zero_value, some e, w)
  taken zero_value value (ok d, w) = (value d, none, w)

abbrev pub wire_user : Document → Wire.User
wire_user d = or_zero (record { id = 0; name = []; email = []; created_at = 0 }) d.me

abbrev pub wire_post : Option Wire.Post → Post
wire_post none = no_post
wire_post (some p) = to_post p

abbrev pub wire_feed : Option Wire.Feed → Feed
wire_feed none = no_feed
wire_feed (some f) = to_feed f

abbrev pub no_follow : Follow
no_follow = record {
  id = 0;
  created_at = 0;
  updated_at = 0;
  user_id = 0;
  feed_id = 0;
  category = [];
  user_name = [];
  feed_name = [];
}

module _ {W : Type 0} (formats : Formats) (client : Client W) where
  abbrev pub posts_at : List Text → Query → W → Reply W (List Post)
  posts_at path query w =
      taken [] (λ d. to_posts (or_zero [] d.posts)) (ask client get_method path query no_body w)

  -- `Store.Posts`
  unfoldable pub posts : PostQuery → W → Reply W (List Post)
  posts q w = posts_at (codes "v1" ∷ codes "posts" ∷ []) (post_params formats q) w

  -- `Store.BookmarkedPosts`
  unfoldable pub bookmarked_posts : W → Reply W (List Post)
  bookmarked_posts w = posts_at (codes "v1" ∷ codes "posts" ∷ codes "bookmarked" ∷ []) [] w

  -- `Store.PostByURL`
  unfoldable pub post_by_url : Text → W → Reply W Post
  post_by_url url w =
      taken no_post (λ d. wire_post d.post)
        (ask client get_method (codes "v1" ∷ codes "posts" ∷ codes "by-url" ∷ [])
          ((codes "url", url) ∷ []) no_body w)

  abbrev pub ids_at : List Text → W → Reply W (List Uuid)
  ids_at path w = taken [] (λ d. or_zero [] d.ids) (ask client get_method path [] no_body w)

  -- `Store.BookmarkedIDs`
  unfoldable pub bookmarked_ids : W → Reply W (List Uuid)
  bookmarked_ids w = ids_at (codes "v1" ∷ codes "posts" ∷ codes "bookmarked" ∷ codes "ids" ∷ []) w

  -- `Store.ReadIDs`
  unfoldable pub read_ids : W → Reply W (List Uuid)
  read_ids w = ids_at (codes "v1" ∷ codes "posts" ∷ codes "read" ∷ codes "ids" ∷ []) w

  -- `Store.UnreadCounts`
  unfoldable pub unread_counts : W → Reply W (List UnreadCount)
  unread_counts w =
      taken [] (λ d. or_zero [] d.unread)
        (ask client get_method (codes "v1" ∷ codes "unread" ∷ []) [] no_body w)

  -- The path of an action on a post.
  abbrev pub of_post : Uuid → Text → List Text
  of_post id action = codes "v1" ∷ codes "posts" ∷ formats.show_uuid id ∷ action ∷ []

  -- `Store.FullText`
  unfoldable pub full_text : Post → W → Reply W Text
  full_text post w =
      taken [] (λ d. or_zero [] d.text)
        (ask client get_method (of_post post.id (codes "fulltext")) [] no_body w)

  -- `Store.SetRead`
  unfoldable pub set_read : Uuid → Bool → W → Option Error × W
  set_read id read w =
      tell client (if read then post_method else delete_method) (of_post id (codes "read")) []
        no_body w

  -- `Store.SetAllRead`
  unfoldable pub set_all_read : List Uuid → W → Option Error × W
  set_all_read [] w = (none, w)
  set_all_read (id ∷ ids) w =
      tell client post_method (codes "v1" ∷ codes "posts" ∷ codes "read" ∷ []) []
        (json (record no_document { post_ids = some (id ∷ ids) })) w

  -- `Store.Bookmark`
  unfoldable pub bookmark : Uuid → W → Reply W Bool
  bookmark id w =
      taken false (λ d. or_zero false d.created)
        (ask client post_method (of_post id (codes "bookmark")) [] no_body w)

  -- `Store.Unbookmark`
  unfoldable pub unbookmark : Uuid → W → Option Error × W
  unbookmark id w = tell client delete_method (of_post id (codes "bookmark")) [] no_body w

  -- `Store.Subscriptions`
  unfoldable pub subscriptions : W → Reply W (List Subscription)
  subscriptions w =
      taken [] (λ d. or_zero [] d.subscriptions)
        (ask client get_method (codes "v1" ∷ codes "subscriptions" ∷ []) [] no_body w)

  -- `Store.Stats`
  unfoldable pub stats : Time → W → Reply W (List FeedStat)
  stats since w =
      taken [] (λ d. or_zero [] d.stats)
        (ask client get_method (codes "v1" ∷ codes "subscriptions" ∷ codes "stats" ∷ [])
          ((codes "since", formats.show_time since) ∷ []) no_body w)

  -- `Store.addEntry`
  unfoldable pub add_entry : Text → Text → Text → W → Reply W (Feed × Bool)
  add_entry name url category w =
      taken (no_feed, false) (λ d. (wire_feed d.feed, or_zero false d.created))
        (ask client post_method (codes "v1" ∷ codes "subscriptions" ∷ []) []
          (json (record no_document { name = some name; url = some url; category = some category }))
          w)

  -- `Store.AddFeed`
  unfoldable pub add_feed : Text → Text → W → Reply W (Feed × Bool)
  unfolding add_entry
  add_feed name url w = add_entry name url [] w

  -- `Store.FollowURL`
  unfoldable pub follow_url : Text → W → Reply W (Follow × Bool)
  follow_url url w =
      taken (no_follow, false) (λ d. (or_zero no_follow d.follow, or_zero false d.created))
        (ask client post_method (codes "v1" ∷ codes "subscriptions" ∷ codes "follow" ∷ []) []
          (json (record no_document { url = some url })) w)

  -- `Store.UnfollowURL`
  unfoldable pub unfollow_url : Text → W → Reply W Feed
  unfollow_url url w =
      taken no_feed (λ d. wire_feed d.feed)
        (ask client delete_method (codes "v1" ∷ codes "subscriptions" ∷ [])
          ((codes "url", url) ∷ []) no_body w)

  -- `Store.Unfollow`
  unfoldable pub unfollow : Uuid → W → Option Error × W
  unfollow id w =
      tell client delete_method (codes "v1" ∷ codes "subscriptions" ∷ formats.show_uuid id ∷ []) []
        no_body w

  -- `Store.Categorize`
  unfoldable pub categorize : Text → Text → W → Reply W Feed
  categorize url category w =
      taken no_feed (λ d. wire_feed d.feed)
        (ask client patch_method (codes "v1" ∷ codes "subscriptions" ∷ []) []
          (json (record no_document { url = some url; category = some category })) w)

  -- `Store.Me`, with the user that the store remembers.
  abbrev pub remember : User → Reply W User → Reply W User × User
  remember known (user, some e, w) = ((no_user, some e, w), known)
  remember known (user, none, w) = ((user, none, w), user)

  unfoldable pub me : User → W → Reply W User × User
  me known w =
      let asked = remember known (
        taken no_user (λ d. to_user (wire_user d))
          (ask client get_method (codes "v1" ∷ codes "me" ∷ []) [] no_body w)) in
      if not (known.id == 0) then ((known, none, w), known) else asked

  -- `Store.Logout`
  unfoldable pub logout : W → Option Error × W
  logout w =
      tell client delete_method (codes "v1" ∷ codes "tokens" ∷ codes "current" ∷ []) [] no_body w
