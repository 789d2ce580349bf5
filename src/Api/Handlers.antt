-- ===== src/Api/Handlers.antt =====
-- The handlers of the server for a signed-in user (internal/api/posts.go, subscriptions.go, auth.go):
-- each asks the store of the user.
use gator_cli.Prelude.{
  ◌&&◌, ◌||◌, Bool, if◌then◌else◌, Option, none, some, [], ◌++◌, Text, text_eq, codes,
}
use gator_cli.Database.{Uuid, Time, Feed, no_post}
use gator_cli.Wire.{from_user, from_post, from_posts, from_feed}
use gator_cli.Store.{Error, Result, ok, err, error_is, no_rows, canceled, blocked, PostQuery}
use gator_cli.Http.{Document, no_document, get, or_zero, Request, Response}
use gator_cli.Api.{
  Formats, write_json, write_error, no_content, fail, decode, invalid_body, respond, respond_done,
  code_bad_request, code_not_found,
}
use gator_cli.Api.Queries.{post_query}
use gator_cli.Offline.Store.{Reply, Inner}

abbrev pub bad_request : Text → Response
bad_request text = write_error 400 code_bad_request text

abbrev pub ok_or_created : Bool → Document → Response
ok_or_created created d = write_json (if created then 201 else 200) d

module _ {W : Type 0} (formats : Formats) (st : Inner W) where
  abbrev pub posts_of : Result PostQuery → W → Response × W
  posts_of (err e) w = (bad_request e.message, w)
  posts_of (ok q) w =
      respond (st.posts q w)
        (λ ps. write_json 200 (record no_document { posts = some (from_posts ps) }))

  -- `Server.posts`
  unfoldable pub posts : Request → W → Response × W
  posts r w = posts_of (post_query formats r.query) w

  -- `Server.bookmarkedPosts`
  unfoldable pub bookmarked_posts : W → Response × W
  bookmarked_posts w =
      respond (st.bookmarked_posts w)
        (λ ps. write_json 200 (record no_document { posts = some (from_posts ps) }))

  -- `Server.bookmarkedIDs`
  unfoldable pub bookmarked_ids : W → Response × W
  bookmarked_ids w =
      respond (st.bookmarked_ids w) (λ ids. write_json 200 (record no_document { ids = some ids }))

  -- `Server.readIDs`
  unfoldable pub read_ids : W → Response × W
  read_ids w =
      respond (st.read_ids w) (λ ids. write_json 200 (record no_document { ids = some ids }))

  module _ {A : Type 0} where
    -- The reply of the store, where the lack of a row is an answer of its own.
    abbrev pub respond_found : Reply W A → (A → Response) → Response × W
    respond_found (a, none, w) answer = (answer a, w)
    respond_found (a, some e, w) answer = (
      if error_is (some e) no_rows
          then write_error 404 code_not_found (codes "post not found")
          else fail e,
      w,
    )

  -- `Server.postByURL`
  unfoldable pub post_by_url : Request → W → Response × W
  post_by_url r w =
      respond_found (st.post_by_url (get r.query (codes "url")) w)
        (λ p. write_json 200 (record no_document { post = some (from_post p) }))

  -- `pathID`
  abbrev pub with_id : Text → Option Uuid → (Uuid → W → Response × W) → W → Response × W
  with_id name none next w = (bad_request (name ++ codes " is not a uuid"), w)
  with_id name (some id) next w = next id w

  -- `Server.setRead`
  unfoldable pub set_read : Text → Bool → W → Response × W
  set_read raw read w =
      with_id (codes "id") (formats.parse_uuid raw)
        (λ id w. respond_done (st.set_read id read w) no_content) w

  abbrev pub with_document : Option Document → (Document → W → Response × W) → W → Response × W
  with_document none next w = (invalid_body, w)
  with_document (some d) next w = next d w

  -- `Server.markAllRead`
  unfoldable pub mark_all_read : Request → W → Response × W
  mark_all_read r w =
      with_document (decode formats r.body)
        (λ d w. respond_done (st.set_all_read (or_zero [] d.post_ids) w) no_content) w

  -- `Server.bookmark`
  unfoldable pub bookmark : Text → W → Response × W
  bookmark raw w =
      with_id (codes "id") (formats.parse_uuid raw)
        (λ id w.
          respond (st.bookmark id w)
            (λ created. ok_or_created created (record no_document { created = some created })))
        w

  -- `Server.unbookmark`
  unfoldable pub unbookmark : Text → W → Response × W
  unbookmark raw w =
      with_id (codes "id") (formats.parse_uuid raw)
        (λ id w. respond_done (st.unbookmark id w) no_content) w

  -- `Server.fullText`
  unfoldable pub full_text : Text → W → Response × W
  full_text raw w =
      with_id (codes "id") (formats.parse_uuid raw)
        (λ id w.
          respond_found (st.full_text (record no_post { id = id }) w)
            (λ text. write_json 200 (record no_document { text = some text })))
        w

  -- `Server.me`
  unfoldable pub me : W → Response × W
  me w = respond (st.me w) (λ u. write_json 200 (record no_document { me = some (from_user u) }))

  -- `Server.subscriptions`
  unfoldable pub subscriptions : W → Response × W
  subscriptions w =
      respond (st.subscriptions w)
        (λ subs. write_json 200 (record no_document { subscriptions = some subs }))

  -- `Server.addFeed`, once the feed is added.
  abbrev pub add_category : Document → Reply W (Feed × Bool) → (Error → W → Response) → Response × W
  add_category d (_, some e, w) refusal = (refusal e w, w)
  add_category d ((feed, created), none, w) refusal =
      let answer =
        ok_or_created created
          (record no_document { feed = some (from_feed feed); created = some created }) in
      if text_eq (or_zero [] d.category) []
      then (answer, w)
      else respond (st.categorize feed.url (or_zero [] d.category) w) (λ _. answer)

  -- `Server.addFeed`; `cancelled` tells whether the context of the request is.
  unfoldable pub add_feed : (W → Bool) → Request → W → Response × W
  add_feed cancelled r w =
      with_document (decode formats r.body)
        (λ d w.
          if text_eq (or_zero [] d.url) []
          then (bad_request (codes "url is required"), w)
          else add_category d (st.add_feed (or_zero [] d.name) (or_zero [] d.url) w) (λ e w.
            if (cancelled w && error_is (some e) canceled) || error_is (some e) blocked
            then fail e
            else write_error 422 code_bad_request e.message))
        w

  -- `Server.follow`
  unfoldable pub follow : Request → W → Response × W
  follow r w =
      with_document (decode formats r.body)
        (λ d w. respond (st.follow_url (or_zero [] d.url) w) (λ (follow, created).
          ok_or_created created
            (record no_document { follow = some follow; created = some created })))
        w

  -- `Server.categorize`
  unfoldable pub categorize : Request → W → Response × W
  categorize r w =
      with_document (decode formats r.body)
        (λ d w.
          respond (st.categorize (or_zero [] d.url) (or_zero [] d.category) w)
            (λ feed. write_json 200 (record no_document { feed = some (from_feed feed) })))
        w

  -- `Server.unfollowURL`
  unfoldable pub unfollow_url : Request → W → Response × W
  unfollow_url r w =
      respond (st.unfollow_url (get r.query (codes "url")) w)
        (λ feed. write_json 200 (record no_document { feed = some (from_feed feed) }))

  -- `Server.unfollow`
  unfoldable pub unfollow : Text → W → Response × W
  unfollow raw w =
      with_id (codes "feed_id") (formats.parse_uuid raw)
        (λ id w. respond_done (st.unfollow id w) no_content) w

  abbrev pub stats_since : Option Time → W → Response × W
  stats_since none w = (bad_request (codes "since must be an RFC 3339 timestamp"), w)
  stats_since (some since) w =
      respond (st.stats since w)
        (λ stats. write_json 200 (record no_document { stats = some stats }))

  -- `Server.stats`; `week_ago` is the clock, less seven days.
  unfoldable pub stats : (W → Time) → Request → W → Response × W
  stats week_ago r w =
      let raw = get r.query (codes "since") in
      if text_eq raw []
      then stats_since (some (week_ago w)) w
      else stats_since (formats.parse_time raw) w

  -- `Server.unread`
  unfoldable pub unread : W → Response × W
  unread w =
      respond (st.unread_counts w)
        (λ counts. write_json 200 (record no_document { unread = some counts }))
