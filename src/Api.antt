-- ===== src/Api.antt =====
-- internal/api/server.go: the errors of the server, the tokens of its requests, and the bodies that it
-- reads. What is logged is left out.
pub mod Queries
pub mod Handlers
pub mod Routes
pub mod Accounts
use gator_cli.Prelude.{
  ℕ, ◌+◌, ◌==◌, leb, Bool, true, false, not, ◌&&◌, ◌||◌, if◌then◌else◌, Option, none, some, List,
  [], ◌∷◌, map, Text, text_eq, codes, trim_space,
}
use gator_cli.Database.{Uuid, Time, User}
use gator_cli.Store.{Error, error_is, feed_not_found, not_followed, no_more_text, canceled, blocked}
use gator_cli.Http.{Document, no_document, Body, no_body, plain, json, Request, Response}
use gator_cli.Offline.Store.{Reply}

abbrev pub blocked_message : Text
blocked_message = codes "that address is not on the public internet"

-- The codes of internal/wire/wire.go.
abbrev pub code_feed_not_found : Text
code_feed_not_found = codes "feed_not_found"

abbrev pub code_not_followed : Text
code_not_followed = codes "not_followed"

abbrev pub code_no_more_text : Text
code_no_more_text = codes "no_more_text"

abbrev pub code_not_found : Text
code_not_found = codes "not_found"

abbrev pub code_unauthorized : Text
code_unauthorized = codes "unauthorized"

abbrev pub code_bad_request : Text
code_bad_request = codes "bad_request"

abbrev pub code_conflict : Text
code_conflict = codes "conflict"

abbrev pub code_internal : Text
code_internal = codes "internal"

-- What the server and its clients write in a query or a path and read back, the limit on a body, and
-- the hash of a token.
pub record Formats : Type 0 where
  pub show_uuid : Uuid → Text
  pub parse_uuid : Text → Option Uuid
  pub show_time : Time → Text
  pub parse_time : Text → Option Time
  pub fits : Body → Bool
  pub hash_token : Text → Text
  pub status_line : ℕ → Text

-- `writeJSON`
abbrev pub write_json : ℕ → Document → Response
write_json status document = record { status = status; body = json document }

-- `writeText`
abbrev pub write_text : ℕ → Text → Response
write_text status text = record { status = status; body = plain text }

abbrev pub no_content : Response
no_content = record { status = 204; body = no_body }

-- `writeError`; a code that is empty is omitted.
abbrev pub write_error : ℕ → Text → Text → Response
write_error status code message = write_json status (record no_document {
  error = some message;
  code = if text_eq code [] then none else some code;
})

-- `Server.fail`
unfoldable pub fail : Error → Response
fail e =
    if error_is (some e) feed_not_found
    then write_error 404 code_feed_not_found e.message
    else if error_is (some e) not_followed
    then write_error 409 code_not_followed e.message
    else if error_is (some e) blocked
    then write_error 422 code_bad_request blocked_message
    else if error_is (some e) no_more_text
    then write_error 422 code_no_more_text e.message
    else if error_is (some e) canceled
    then write_error 499 code_internal (codes "request cancelled")
    else write_error 500 code_internal (codes "internal error")

-- `strings.Cut` at a blank
abbrev pub onto_before : ℕ → Option (Text × Text) → Option (Text × Text)
onto_before c none = none
onto_before c (some (before, after)) = some (c ∷ before, after)

unfoldable pub cut_blank : Text → Option (Text × Text)
cut_blank [] = none
cut_blank (c ∷ s) = if c == 32 then some ([], s) else onto_before c (cut_blank s)

-- `strings.EqualFold` with "Bearer", whose letters fold with no others than their capitals.
abbrev pub small_letter : ℕ → ℕ
small_letter c = if leb 65 c && leb c 90 then c + 32 else c

abbrev pub is_bearer : Text → Bool
is_bearer scheme = text_eq (map small_letter scheme) (codes "bearer")

abbrev pub bearer_of : Option (Text × Text) → Option Text
bearer_of none = none
bearer_of (some (scheme, token)) =
    if not (is_bearer scheme) || text_eq token [] then none else some (trim_space token)

-- `bearer`
unfoldable pub bearer : Text → Option Text
unfolding cut_blank
bearer authorization = bearer_of (cut_blank authorization)

-- `decode`; `none` is the answer 400.
unfoldable pub decode : Formats → Body → Option Document
decode formats no_body = none
decode formats (plain text) = none
decode formats (json document) = if formats.fits (json document) then some document else none

abbrev pub invalid_body : Response
invalid_body = write_error 400 code_bad_request (codes "invalid request body")

module _ {W A : Type 0} where
  -- A reply of the store, answered by `fail` if it is an error.
  abbrev pub respond : Reply W A → (A → Response) → Response × W
  respond (a, none, w) answer = (answer a, w)
  respond (a, some e, w) answer = (fail e, w)

module _ {W : Type 0} where
  abbrev pub respond_done : Option Error × W → Response → Response × W
  respond_done (none, w) answer = (answer, w)
  respond_done (some e, w) answer = (fail e, w)

  -- What `authed` looks up.
  abbrev pub admit : Reply W User → (User → W → Response × W) → Response × W
  admit (user, none, w) next = next user w
  admit (user, some e, w) next = (write_error 401 code_unauthorized (codes "invalid token"), w)

  abbrev pub admit_token :
      (Text → W → Reply W User) → Option Text → (Text → User → W → Response × W) → W → Response × W
  admit_token user_of none next w =
      (write_error 401 code_unauthorized (codes "missing bearer token"), w)
  admit_token user_of (some token) next w = admit (user_of token w) (next token)

  -- `Server.authed`; `user_by_hash` is GetUserByTokenHash.
  unfoldable pub authed :
      Formats
      → (Text → W → Reply W User)
      → (Text → User → W → Response × W)
      → Request
      → W
      → Response × W
  unfolding bearer
  authed formats user_by_hash next r w =
      admit_token (λ token. user_by_hash (formats.hash_token token)) (bearer r.authorization) next w
