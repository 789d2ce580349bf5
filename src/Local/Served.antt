-- ===== src/Local/Served.antt =====
-- The server on the database: internal/api/server.go, and the store that it makes for each request
-- (internal/store/local/local.go).
use gator_cli.Prelude.{◌≡◌, refl, ap, sym, ◌∙◌, Option, none, some, false, Text, ◌==◌}
use gator_cli.Database.{User}
use gator_cli.Http.{Request}
use gator_cli.Api.{authed, bearer}
use gator_cli.Api.Routes.{Site, Endpoint, routes, route, handle, serve_at, serve}
use gator_cli.Feeds.{Outside}
use gator_cli.Local.{Queries}
use gator_cli.Local.Requests.{per_request}
use gator_cli.Local.Adding.{AgreeAdding}
use gator_cli.Local.Isolation.{AgreeFor, per_request-eq}
use gator_cli.Offline.Store.{Inner}

-- `newServer` on a database.
abbrev pub on_database : {W : Type 0} → Site W → Queries W → Outside W → Site W
on_database site queries outside = record site { store_for = per_request queries outside }

module _ {W : Type 0} (site : Site W) where
  -- The server, if it had this one store.
  abbrev with_store : Inner W → Site W
  with_store st = record site { store_for = λ u. st }

  handle-with_store :
      (endpoint : Endpoint) (r : Request) (token : Text) (u : User) (w : W)
      → handle site endpoint r token u w
        ≡ handle (with_store (site.store_for u)) endpoint r token u w
  unfolding handle
  handle-with_store Endpoint.revoke_token r token u w = refl
  handle-with_store Endpoint.me r token u w = refl
  handle-with_store Endpoint.posts r token u w = refl
  handle-with_store Endpoint.bookmarked_posts r token u w = refl
  handle-with_store Endpoint.bookmarked_ids r token u w = refl
  handle-with_store Endpoint.read_ids r token u w = refl
  handle-with_store Endpoint.mark_all_read r token u w = refl
  handle-with_store Endpoint.post_by_url r token u w = refl
  handle-with_store (Endpoint.mark_read id) r token u w = refl
  handle-with_store (Endpoint.mark_unread id) r token u w = refl
  handle-with_store (Endpoint.bookmark id) r token u w = refl
  handle-with_store (Endpoint.unbookmark id) r token u w = refl
  handle-with_store (Endpoint.full_text id) r token u w = refl
  handle-with_store (Endpoint.unfollow id) r token u w = refl
  handle-with_store Endpoint.subscriptions r token u w = refl
  handle-with_store Endpoint.add_feed r token u w = refl
  handle-with_store Endpoint.follow r token u w = refl
  handle-with_store Endpoint.categorize r token u w = refl
  handle-with_store Endpoint.unfollow_url r token u w = refl
  handle-with_store Endpoint.stats r token u w = refl
  handle-with_store Endpoint.unread r token u w = refl

module _ {W : Type 0} (site : Site W) (p q : Queries W) (o o' : Outside W) (u : User)
    (h : AgreeFor u.id p q) (h' : AgreeAdding u.id o o') (known : (u.id == 0) ≡ false) where
  handle-on_database :
      (endpoint : Endpoint) (r : Request) (token : Text) (w : W)
      → handle (on_database site p o) endpoint r token u w
        ≡ handle (on_database site q o') endpoint r token u w
  handle-on_database endpoint r token w =
      handle-with_store (on_database site p o) endpoint r token u w
      ∙ ap (λ st. handle (with_store site st) endpoint r token u w)
          (per_request-eq p q o o' u h h' known)
      ∙ sym (handle-with_store (on_database site q o') endpoint r token u w)

  module _ (r : Request) (token : Text) (sent : bearer r.authorization ≡ some token) (w w' : W)
      (owned : site.user_by_hash (site.formats.hash_token token) w ≡ (u, none, w')) where
    serve_at-on_database :
        (endpoint : Option Endpoint)
        → serve_at (on_database site p o) endpoint r w
          ≡ serve_at (on_database site q o') endpoint r w
    unfolding authed
    serve_at-on_database none = refl
    serve_at-on_database (some endpoint) =
        rw sent (rw owned (handle-on_database endpoint r token w'))

    -- Where the token of a request is found to be that of a user whose identifier is not the zero
    -- value, and two databases answer alike whatever is asked for that user or for no user, the
    -- server answers the request alike on both, and leaves the same world; nothing is supposed of
    -- what they answer for other users, nor of how they find a user by name.
    pub serve-on_database : serve (on_database site p o) r w ≡ serve (on_database site q o') r w
    unfolding serve
    serve-on_database = serve_at-on_database (route routes r.method r.path)
