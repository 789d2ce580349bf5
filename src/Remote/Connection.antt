-- ===== src/Remote/Connection.antt =====
-- A client that is connected to the server (internal/store/remote/remote.go, internal/api/server.go).
use gator_cli.Prelude.{
  ℕ, ◌≡◌, refl, ap, Bool, false, if◌then◌else◌, Option, none, some, List, [], ◌++◌, Text, text_eq,
  codes, trim_space, Bool-cases, inl, inr,
}
use gator_cli.Database.{Uuid, User}
use gator_cli.Store.{Error, Result, error_is, no_rows}
use gator_cli.Http.{Method, Query, Document, Body, Response}
use gator_cli.Api.{Formats, respond, respond_done, no_content, authed, bearer}
use gator_cli.Api.Routes.{Site, Endpoint, routes, route, handle, serve}
use gator_cli.Api.Handlers.{ok_or_created, respond_found}
use gator_cli.Remote.{
  Client, arrived, request, received, document_of, error_of, ask, tell, remote_error, sentinels,
}
use gator_cli.Remote.Calls.{taken}
use gator_cli.Remote.Errors.{over_wire, told_only, received-fail, document-ok_or_created}
use gator_cli.Offline.Store.{Reply, Inner}

-- The token is one that the server gave to the user.
pub record IsSignedIn {W : Type 0} (site : Site W) (token : Text) (user : User) : Type 0 where
  pub present : text_eq token [] ≡ false
  pub trimmed : trim_space token ≡ token
  pub known : (w : W) → site.user_by_hash (site.formats.hash_token token) w ≡ (user, none, w)

-- An identifier is read back from what is written.
pub record IsFaithful (formats : Formats) : Type 0 where
  pub uuid_back : (id : Uuid) → formats.parse_uuid (formats.show_uuid id) ≡ some id
  pub uuid_shown : (id : Uuid) → text_eq (formats.show_uuid id) [] ≡ false

-- A server, a user of it, and what the client of the user holds.
pub record Connection (W : Type 0) : Type 0 where
  pub site : Site W
  pub base : Text
  pub token : Text
  pub user : User
  pub status_line : ℕ → Text
  pub bad_json : Error

-- The client whose requests reach the server and whose responses come back.
abbrev pub client : {W : Type 0} → Connection W → Client W
client c = record {
  base = c.base;
  token = c.token;
  deliver = λ r w. (arrived (serve c.site r w).0, (serve c.site r w).1);
  status_line = c.status_line;
  bad_json = c.bad_json;
}

-- The store behind the server.
abbrev pub behind : {W : Type 0} → Connection W → Inner W
behind c = c.site.store_for c.user

-- A reply whose value is converted and whose error is what the wire makes of it.
abbrev pub carried : {W A B : Type 0} → (ℕ → Text) → B → (A → B) → Reply W A → Reply W B
carried line zero_value convert (a, none, w) = (convert a, none, w)
carried line zero_value convert (a, some e, w) = (zero_value, some (over_wire line e), w)

abbrev pub carried_done : {W : Type 0} → (ℕ → Text) → Option Error × W → Option Error × W
carried_done line (none, w) = (none, w)
carried_done line (some e, w) = (some (over_wire line e), w)

-- The same, where the lack of a row has an answer of its own.
abbrev pub over_wire_found : (ℕ → Text) → Error → Error
over_wire_found line e =
    if error_is (some e) no_rows then told_only (codes "post not found") else over_wire line e

abbrev pub carried_found : {W A B : Type 0} → (ℕ → Text) → B → (A → B) → Reply W A → Reply W B
carried_found line zero_value convert (a, none, w) = (convert a, none, w)
carried_found line zero_value convert (a, some e, w) =
    (zero_value, some (over_wire_found line e), w)

-- The server finds the token that the client sends.
bearer-sent :
    (token : Text)
    → text_eq token [] ≡ false
    → trim_space token ≡ token
    → bearer (codes "Bearer " ++ token) ≡ some token
unfolding bearer
bearer-sent token present trimmed = rw present (ap some trimmed)

module _ {W : Type 0} (c : Connection W) (signed : IsSignedIn c.site c.token c.user) where
  serve-handle :
      (method : Method) (path : List Text) (query : Query) (body : Body) (endpoint : Endpoint)
      (w : W)
      → route routes method path ≡ some endpoint
      → serve c.site (request (client c) method path query body) w
        ≡ handle c.site endpoint (request (client c) method path query body) c.token c.user w
  unfolding serve authed request
  serve-handle method path query body endpoint w found = rw found (
      rw (signed.present)
        (rw (bearer-sent c.token signed.present signed.trimmed) (rw (signed.known w) refl)))

  abbrev pub asked : Response × W → Result Document × W
  asked (r, w) = (document_of (client c) (received (client c) (arrived r)), w)

  abbrev pub told : Response × W → Option Error × W
  told (r, w) = (error_of (client c) (received (client c) (arrived r)), w)

  pub ask-handle :
      (method : Method) (path : List Text) (query : Query) (body : Body) (endpoint : Endpoint)
      (w : W)
      → route routes method path ≡ some endpoint
      → ask (client c) method path query body w
        ≡ asked
            (handle c.site endpoint (request (client c) method path query body) c.token c.user w)
  unfolding ask
  ask-handle method path query body endpoint w found =
      ap asked (serve-handle method path query body endpoint w found)

  pub tell-handle :
      (method : Method) (path : List Text) (query : Query) (body : Body) (endpoint : Endpoint)
      (w : W)
      → route routes method path ≡ some endpoint
      → tell (client c) method path query body w
        ≡ told (handle c.site endpoint (request (client c) method path query body) c.token c.user w)
  unfolding tell
  tell-handle method path query body endpoint w found =
      ap told (serve-handle method path query body endpoint w found)

  module _ {A B : Type 0} (zero_value : B) (value : Document → B) where
    pub taken-respond :
        (reply : Reply W A) (created : A → Bool) (doc : A → Document)
        → taken zero_value value (asked (respond reply (λ a. ok_or_created (created a) (doc a))))
          ≡ carried c.status_line zero_value (λ a. value (doc a)) reply
    taken-respond (a, none, w) created doc =
        rw (document-ok_or_created (client c) (created a) (doc a)) refl
    taken-respond (a, some e, w) created doc = rw (received-fail (client c) e) refl

    pub taken-respond_found :
        (reply : Reply W A) (doc : A → Document)
        → taken zero_value value (
            asked
              (respond_found c.site.formats (behind c) reply (λ a. ok_or_created false (doc a))))
          ≡ carried_found c.status_line zero_value (λ a. value (doc a)) reply
    unfolding received remote_error sentinels
    taken-respond_found (a, none, w) doc = refl
    taken-respond_found (a, some e, w) doc = elim (Bool-cases (error_is (some e) no_rows)) [
      | inl missing ↦ rw missing refl
      | inr found ↦ rw found (rw (received-fail (client c) e) refl)
    ]

  pub told-respond_done :
      (reply : Option Error × W)
      → told (respond_done reply no_content) ≡ carried_done c.status_line reply
  unfolding received
  told-respond_done (none, w) = refl
  told-respond_done (some e, w) = rw (received-fail (client c) e) refl
