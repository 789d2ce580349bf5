-- ===== src/Remote/Refinement.antt =====
-- The client over the server against the store behind the server: internal/store/remote/remote.go,
-- internal/api/server.go, posts.go and subscriptions.go together.
use gator_cli.Prelude.{
  ◌≡◌, refl, ap, ◌∙◌, Bool, true, false, some, [], ◌∷◌, Text, text_eq, codes, Bool-cases, inl, inr,
}
use gator_cli.Database.{Uuid, Post, no_post, no_feed}
use gator_cli.Wire.{from_posts, to_posts, from_post, to_post, from_feed, to_feed}
use gator_cli.Http.{delete_method, no_body}
use gator_cli.Api.Routes.{Endpoint, routes, route, handle}
use gator_cli.Api.Handlers
use gator_cli.Api.Handlers.{ok_or_created, respond_found}
use gator_cli.Remote.{request}
use gator_cli.Remote.Calls
use gator_cli.Remote.Calls.{taken}
use gator_cli.Remote.Connection.{
  Connection, IsSignedIn, IsFaithful, client, behind, carried, carried_done, carried_found,
  ask-handle, tell-handle, taken-respond, taken-respond_found, told-respond_done,
}

unfollow_routed :
    (id : Text)
    → route routes delete_method (codes "v1" ∷ codes "subscriptions" ∷ id ∷ [])
      ≡ some (Endpoint.unfollow id)
unfolding route
unfollow_routed id = elim (Bool-cases (text_eq (codes "current") id)) [
  | inl same ↦ rw same refl
  | inr other ↦ rw other refl
]

module _ {W : Type 0} (c : Connection W) (signed : IsSignedIn c.site c.token c.user) where
  -- The methods of the (client c) that send no body, against those of the store behind the server.
  pub record Mirrors : Type 0 where
    pub bookmarked_posts :
        (w : W)
        → Calls.bookmarked_posts c.site.formats (client c) w
          ≡ carried c.status_line []
              (λ ps. to_posts (from_posts ps))
              ((behind c).bookmarked_posts w)
    pub post_by_url :
        (url : Text) (w : W)
        → Calls.post_by_url c.site.formats (client c) url w
          ≡ carried_found c.status_line no_post
              (λ p. to_post (from_post p))
              ((behind c).post_by_url url w)
    pub bookmarked_ids :
        (w : W)
        → Calls.bookmarked_ids c.site.formats (client c) w
          ≡ carried c.status_line [] (λ ids. ids) ((behind c).bookmarked_ids w)
    pub read_ids :
        (w : W)
        → Calls.read_ids c.site.formats (client c) w
          ≡ carried c.status_line [] (λ ids. ids) ((behind c).read_ids w)
    pub unread_counts :
        (w : W)
        → Calls.unread_counts c.site.formats (client c) w
          ≡ carried c.status_line [] (λ counts. counts) ((behind c).unread_counts w)
    pub full_text :
        (post : Post) (w : W)
        → Calls.full_text c.site.formats (client c) post w
          ≡ carried_found c.status_line []
              (λ text. text)
              ((behind c).full_text (record no_post { id = post.id }) w)
    pub set_read :
        (id : Uuid) (read : Bool) (w : W)
        → Calls.set_read c.site.formats (client c) id read w
          ≡ carried_done c.status_line ((behind c).set_read id read w)
    pub bookmark :
        (id : Uuid) (w : W)
        → Calls.bookmark c.site.formats (client c) id w
          ≡ carried c.status_line false (λ created. created) ((behind c).bookmark id w)
    pub unbookmark :
        (id : Uuid) (w : W)
        → Calls.unbookmark c.site.formats (client c) id w
          ≡ carried_done c.status_line ((behind c).unbookmark id w)
    pub subscriptions :
        (w : W)
        → Calls.subscriptions c.site.formats (client c) w
          ≡ carried c.status_line [] (λ subs. subs) ((behind c).subscriptions w)
    pub unfollow_url :
        (url : Text) (w : W)
        → Calls.unfollow_url c.site.formats (client c) url w
          ≡ carried c.status_line no_feed
              (λ f. to_feed (from_feed f))
              ((behind c).unfollow_url url w)
    pub unfollow :
        (id : Uuid) (w : W)
        → Calls.unfollow c.site.formats (client c) id w
          ≡ carried_done c.status_line ((behind c).unfollow id w)

  bookmarked_posts_lem :
      (w : W)
      → Calls.bookmarked_posts c.site.formats (client c) w
        ≡ carried c.status_line [] (λ a. to_posts (from_posts a)) ((behind c).bookmarked_posts w)
  unfolding Calls.bookmarked_posts Handlers.bookmarked_posts handle route
  bookmarked_posts_lem w =
      ap (taken [] _) (ask-handle c signed _ _ [] no_body Endpoint.bookmarked_posts w refl)
      ∙ taken-respond c signed [] _ ((behind c).bookmarked_posts w) (λ _. false) _

  bookmarked_ids_lem :
      (w : W)
      → Calls.bookmarked_ids c.site.formats (client c) w
        ≡ carried c.status_line [] (λ a. a) ((behind c).bookmarked_ids w)
  unfolding Calls.bookmarked_ids Handlers.bookmarked_ids handle route
  bookmarked_ids_lem w =
      ap (taken [] _) (ask-handle c signed _ _ [] no_body Endpoint.bookmarked_ids w refl)
      ∙ taken-respond c signed [] _ ((behind c).bookmarked_ids w) (λ _. false) _

  read_ids_lem :
      (w : W)
      → Calls.read_ids c.site.formats (client c) w
        ≡ carried c.status_line [] (λ a. a) ((behind c).read_ids w)
  unfolding Calls.read_ids Handlers.read_ids handle route
  read_ids_lem w =
      ap (taken [] _) (ask-handle c signed _ _ [] no_body Endpoint.read_ids w refl)
      ∙ taken-respond c signed [] _ ((behind c).read_ids w) (λ _. false) _

  subscriptions_lem :
      (w : W)
      → Calls.subscriptions c.site.formats (client c) w
        ≡ carried c.status_line [] (λ a. a) ((behind c).subscriptions w)
  unfolding Calls.subscriptions Handlers.subscriptions handle route
  subscriptions_lem w =
      ap (taken [] _) (ask-handle c signed _ _ [] no_body Endpoint.subscriptions w refl)
      ∙ taken-respond c signed [] _ ((behind c).subscriptions w) (λ _. false) _

  unread_counts_lem :
      (w : W)
      → Calls.unread_counts c.site.formats (client c) w
        ≡ carried c.status_line [] (λ a. a) ((behind c).unread_counts w)
  unfolding Calls.unread_counts Handlers.unread handle route
  unread_counts_lem w =
      ap (taken [] _) (ask-handle c signed _ _ [] no_body Endpoint.unread w refl)
      ∙ taken-respond c signed [] _ ((behind c).unread_counts w) (λ _. false) _

  post_by_url_lem :
      (url : Text) (w : W)
      → Calls.post_by_url c.site.formats (client c) url w
        ≡ carried_found c.status_line no_post
            (λ p. to_post (from_post p))
            ((behind c).post_by_url url w)
  unfolding Calls.post_by_url Handlers.post_by_url handle route request
  post_by_url_lem url w =
      ap (taken no_post _) (ask-handle c signed _ _ _ no_body Endpoint.post_by_url w refl)
      ∙ taken-respond_found c signed no_post _ ((behind c).post_by_url url w) _

  unfollow_url_lem :
      (url : Text) (w : W)
      → Calls.unfollow_url c.site.formats (client c) url w
        ≡ carried c.status_line no_feed (λ f. to_feed (from_feed f)) ((behind c).unfollow_url url w)
  unfolding Calls.unfollow_url Handlers.unfollow_url handle route request
  unfollow_url_lem url w =
      ap (taken no_feed _) (ask-handle c signed _ _ _ no_body Endpoint.unfollow_url w refl)
      ∙ taken-respond c signed no_feed _ ((behind c).unfollow_url url w) (λ _. false) _

  module _ (faithful : IsFaithful c.site.formats) where
    full_text_lem :
        (post : Post) (w : W)
        → Calls.full_text c.site.formats (client c) post w
          ≡ carried_found c.status_line []
              (λ text. text)
              ((behind c).full_text (record no_post { id = post.id }) w)
    unfolding Calls.full_text Handlers.full_text handle route
    full_text_lem post w =
        ap (taken [] _) (
          ask-handle c signed _ _ [] no_body (Endpoint.full_text (c.site.formats.show_uuid post.id))
            w refl)
        ∙ rw (faithful.uuid_back post.id) (
            taken-respond_found c signed [] _
              ((behind c).full_text (record no_post { id = post.id }) w) _)

    bookmark_lem :
        (id : Uuid) (w : W)
        → Calls.bookmark c.site.formats (client c) id w
          ≡ carried c.status_line false (λ created. created) ((behind c).bookmark id w)
    unfolding Calls.bookmark Handlers.bookmark handle route
    bookmark_lem id w =
        ap (taken false _) (
          ask-handle c signed _ _ [] no_body (Endpoint.bookmark (c.site.formats.show_uuid id)) w
            refl)
        ∙ rw (faithful.uuid_back id)
            (taken-respond c signed false _ ((behind c).bookmark id w) (λ c. c) _)

    set_read_lem :
        (id : Uuid) (read : Bool) (w : W)
        → Calls.set_read c.site.formats (client c) id read w
          ≡ carried_done c.status_line ((behind c).set_read id read w)
    unfolding Calls.set_read Handlers.set_read handle route
    set_read_lem id true w =
        tell-handle c signed _ _ [] no_body (Endpoint.mark_read (c.site.formats.show_uuid id)) w
          refl
        ∙ rw (faithful.uuid_back id) (told-respond_done c signed ((behind c).set_read id true w))
    set_read_lem id false w =
        tell-handle c signed _ _ [] no_body (Endpoint.mark_unread (c.site.formats.show_uuid id)) w
          refl
        ∙ rw (faithful.uuid_back id) (told-respond_done c signed ((behind c).set_read id false w))

    unbookmark_lem :
        (id : Uuid) (w : W)
        → Calls.unbookmark c.site.formats (client c) id w
          ≡ carried_done c.status_line ((behind c).unbookmark id w)
    unfolding Calls.unbookmark Handlers.unbookmark handle route
    unbookmark_lem id w =
        tell-handle c signed _ _ [] no_body (Endpoint.unbookmark (c.site.formats.show_uuid id)) w
          refl
        ∙ rw (faithful.uuid_back id) (told-respond_done c signed ((behind c).unbookmark id w))

    unfollow_lem :
        (id : Uuid) (w : W)
        → Calls.unfollow c.site.formats (client c) id w
          ≡ carried_done c.status_line ((behind c).unfollow id w)
    unfolding Calls.unfollow Handlers.unfollow handle route
    unfollow_lem id w =
        tell-handle c signed _ _ [] no_body (Endpoint.unfollow (c.site.formats.show_uuid id)) w
          (unfollow_routed (c.site.formats.show_uuid id))
        ∙ rw (faithful.uuid_back id) (told-respond_done c signed ((behind c).unfollow id w))

    -- Where every request reaches the server, its token is known there as the user's and an
    -- identifier is read back as it was written, the client answers BookmarkedPosts, PostByURL,
    -- BookmarkedIDs, ReadIDs, UnreadCounts, FullText, SetRead, Bookmark, Unbookmark,
    -- Subscriptions, UnfollowURL and Unfollow as the store of the user behind the server does,
    -- leaving the same world, with posts and feeds in the form that the wire keeps; an error with
    -- a message that is feed not found, not followed, or no more text and no blocked address,
    -- comes as that sentinel with that message, and no other error comes as a sentinel.
    pub client-Mirrors : Mirrors
    client-Mirrors = record {
      bookmarked_posts = bookmarked_posts_lem;
      post_by_url = post_by_url_lem;
      bookmarked_ids = bookmarked_ids_lem;
      read_ids = read_ids_lem;
      unread_counts = unread_counts_lem;
      full_text = full_text_lem;
      set_read = set_read_lem;
      bookmark = bookmark_lem;
      unbookmark = unbookmark_lem;
      subscriptions = subscriptions_lem;
      unfollow_url = unfollow_url_lem;
      unfollow = unfollow_lem;
    }
