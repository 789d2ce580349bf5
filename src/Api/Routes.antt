-- ===== src/Api/Routes.antt =====
-- The routes of `newServer` (internal/api/server.go) for signed-in users, and the server as a function
-- of requests. `net/http` takes the handler whose pattern a path and a method match; of these
-- patterns no two match one request.
use gator_cli.Prelude.{
  ℕ, ◌==◌, Bool, true, false, if◌then◌else◌, Option, none, some, List, [], ◌∷◌, Text, text_eq,
  codes,
}
use gator_cli.Database.{Time, User}
use gator_cli.Store.{Error}
use gator_cli.Http.{Method, get_method, post_method, patch_method, delete_method, Request, Response}
use gator_cli.Api.{Formats, authed, respond_done, no_content, write_text}
use gator_cli.Api.Handlers
use gator_cli.Offline.Store.{Reply, Inner}

pub data Segment : Type 0 where
  literal : Text → Segment
  variable : Segment

-- The handlers behind `authed`, with what the pattern binds.
pub data Endpoint : Type 0 where
  revoke_token me posts bookmarked_posts bookmarked_ids read_ids mark_all_read post_by_url :
      Endpoint
  mark_read mark_unread bookmark unbookmark full_text unfollow : Text → Endpoint
  subscriptions add_feed follow categorize unfollow_url stats unread : Endpoint

abbrev pub method_number : Method → ℕ
method_number get_method = 0
method_number post_method = 1
method_number patch_method = 2
method_number delete_method = 3

abbrev pub if_match : Bool → Option Text → Option Text
if_match b none = none
if_match b (some found) = if b then some found else none

-- What the variable of a pattern is in a path that matches.
abbrev pub bound : List Segment → List Text → Text → Option Text
bound [] [] found = some found
bound [] (s ∷ path) found = none
bound (p ∷ pattern_) [] found = none
bound (literal t ∷ pattern_) (s ∷ path) found = if_match (text_eq t s) (bound pattern_ path found)
bound (variable ∷ pattern_) (s ∷ path) found = bound pattern_ path s

abbrev pub Route : Type 0
Route = Method × List Segment × (Text → Endpoint)

abbrev pub routes : List Route
routes =
    (
      delete_method,
      literal (codes "v1") ∷ literal (codes "tokens") ∷ literal (codes "current") ∷ [],
      λ _. revoke_token,
    )
    ∷ (get_method, literal (codes "v1") ∷ literal (codes "me") ∷ [], λ _. me)
    ∷ (get_method, literal (codes "v1") ∷ literal (codes "posts") ∷ [], λ _. posts)
    ∷ (
      get_method,
      literal (codes "v1") ∷ literal (codes "posts") ∷ literal (codes "bookmarked") ∷ [],
      λ _. bookmarked_posts,
    )
    ∷ (
      get_method,
      literal (codes "v1")
          ∷ literal (codes "posts")
          ∷ literal (codes "bookmarked")
          ∷ literal (codes "ids")
          ∷ [],
      λ _. bookmarked_ids,
    )
    ∷ (
      get_method,
      literal (codes "v1")
          ∷ literal (codes "posts")
          ∷ literal (codes "read")
          ∷ literal (codes "ids")
          ∷ [],
      λ _. read_ids,
    )
    ∷ (
      post_method,
      literal (codes "v1") ∷ literal (codes "posts") ∷ literal (codes "read") ∷ [],
      λ _. mark_all_read,
    )
    ∷ (
      get_method,
      literal (codes "v1") ∷ literal (codes "posts") ∷ literal (codes "by-url") ∷ [],
      λ _. post_by_url,
    )
    ∷ (
      post_method,
      literal (codes "v1") ∷ literal (codes "posts") ∷ variable ∷ literal (codes "read") ∷ [],
      mark_read,
    )
    ∷ (
      delete_method,
      literal (codes "v1") ∷ literal (codes "posts") ∷ variable ∷ literal (codes "read") ∷ [],
      mark_unread,
    )
    ∷ (
      post_method,
      literal (codes "v1") ∷ literal (codes "posts") ∷ variable ∷ literal (codes "bookmark") ∷ [],
      bookmark,
    )
    ∷ (
      delete_method,
      literal (codes "v1") ∷ literal (codes "posts") ∷ variable ∷ literal (codes "bookmark") ∷ [],
      unbookmark,
    )
    ∷ (
      get_method,
      literal (codes "v1") ∷ literal (codes "posts") ∷ variable ∷ literal (codes "fulltext") ∷ [],
      full_text,
    )
    ∷ (get_method, literal (codes "v1") ∷ literal (codes "subscriptions") ∷ [], λ _. subscriptions)
    ∷ (post_method, literal (codes "v1") ∷ literal (codes "subscriptions") ∷ [], λ _. add_feed)
    ∷ (
      post_method,
      literal (codes "v1") ∷ literal (codes "subscriptions") ∷ literal (codes "follow") ∷ [],
      λ _. follow,
    )
    ∷ (patch_method, literal (codes "v1") ∷ literal (codes "subscriptions") ∷ [], λ _. categorize)
    ∷ (
      delete_method,
      literal (codes "v1") ∷ literal (codes "subscriptions") ∷ [],
      λ _. unfollow_url,
    )
    ∷ (
      delete_method,
      literal (codes "v1") ∷ literal (codes "subscriptions") ∷ variable ∷ [],
      unfollow,
    )
    ∷ (
      get_method,
      literal (codes "v1") ∷ literal (codes "subscriptions") ∷ literal (codes "stats") ∷ [],
      λ _. stats,
    )
    ∷ (get_method, literal (codes "v1") ∷ literal (codes "unread") ∷ [], λ _. unread)
    ∷ []

abbrev pub matched : Bool → (Text → Endpoint) → Option Text → Option Endpoint
matched false endpoint bound_ = none
matched true endpoint none = none
matched true endpoint (some found) = some (endpoint found)

abbrev pub first_of : Option Endpoint → Option Endpoint → Option Endpoint
first_of none later = later
first_of (some endpoint) later = some endpoint

-- The first route whose pattern matches.
unfoldable pub route : List Route → Method → List Text → Option Endpoint
route [] method path = none
route ((m, segments, endpoint) ∷ rest) method path =
    first_of (matched (method_number m == method_number method) endpoint (bound segments path []))
      (route rest method path)

-- What the server has besides the store of a user: the look-up of a token and its removal, the store
-- of a user, the clock and the context of the request.
pub record Site (W : Type 0) : Type 0 where
  pub formats : Formats
  pub user_by_hash : Text → W → Reply W User
  pub delete_token : Text → W → Option Error × W
  pub store_for : User → Inner W
  pub week_ago : W → Time
  pub cancelled : W → Bool

module _ {W : Type 0} (site : Site W) where
  -- The handlers that `newServer` names, for the user who sent the token.
  unfoldable pub handle : Endpoint → Request → Text → User → W → Response × W
  handle revoke_token r token user w =
      respond_done (site.delete_token (site.formats.hash_token token) w) no_content
  handle me r token user w = Handlers.me site.formats (site.store_for user) w
  handle posts r token user w = Handlers.posts site.formats (site.store_for user) r w
  handle bookmarked_posts r token user w =
      Handlers.bookmarked_posts site.formats (site.store_for user) w
  handle bookmarked_ids r token user w =
      Handlers.bookmarked_ids site.formats (site.store_for user) w
  handle read_ids r token user w = Handlers.read_ids site.formats (site.store_for user) w
  handle mark_all_read r token user w =
      Handlers.mark_all_read site.formats (site.store_for user) r w
  handle post_by_url r token user w = Handlers.post_by_url site.formats (site.store_for user) r w
  handle (mark_read id) r token user w =
      Handlers.set_read site.formats (site.store_for user) id true w
  handle (mark_unread id) r token user w =
      Handlers.set_read site.formats (site.store_for user) id false w
  handle (bookmark id) r token user w = Handlers.bookmark site.formats (site.store_for user) id w
  handle (unbookmark id) r token user w =
      Handlers.unbookmark site.formats (site.store_for user) id w
  handle (full_text id) r token user w = Handlers.full_text site.formats (site.store_for user) id w
  handle (unfollow id) r token user w = Handlers.unfollow site.formats (site.store_for user) id w
  handle subscriptions r token user w = Handlers.subscriptions site.formats (site.store_for user) w
  handle add_feed r token user w =
      Handlers.add_feed site.formats (site.store_for user) site.cancelled r w
  handle follow r token user w = Handlers.follow site.formats (site.store_for user) r w
  handle categorize r token user w = Handlers.categorize site.formats (site.store_for user) r w
  handle unfollow_url r token user w = Handlers.unfollow_url site.formats (site.store_for user) r w
  handle stats r token user w = Handlers.stats site.formats (site.store_for user) site.week_ago r w
  handle unread r token user w = Handlers.unread site.formats (site.store_for user) w

  abbrev pub serve_at : Option Endpoint → Request → W → Response × W
  serve_at none r w = (write_text 404 (codes "404 page not found"), w)
  serve_at (some endpoint) r w = authed site.formats site.user_by_hash (handle endpoint r) r w

  -- `newServer`, on the routes that need a token.
  unfoldable pub serve : Request → W → Response × W
  serve r w = serve_at (route routes r.method r.path) r w
