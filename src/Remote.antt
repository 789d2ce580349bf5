-- ===== src/Remote.antt =====
-- internal/store/remote/remote.go: the client of the server. The connection is a function of a world
-- `W`; a body longer than 32 MiB arrives as what is no JSON.
pub mod Calls
pub mod Errors
pub mod Connection
pub mod Refinement
pub mod Paged
use gator_cli.Prelude.{
  ℕ, leb, ◌==◌, ◌||◌, Bool, true, false, if◌then◌else◌, Option, none, some, List, [], ◌∷◌, ◌++◌,
  Text, text_eq, codes,
}
use gator_cli.Store.{
  Error, Sentinel, Result, ok, err, wrap, feed_not_found, not_followed, no_more_text, unauthorized,
  plan_limit, unreachable,
}
use gator_cli.Http.{
  Method, Document, no_document, Body, no_body, plain, json, Query, or_zero, Request, Response,
}
use gator_cli.Api.{code_feed_not_found, code_not_followed, code_no_more_text}

-- What comes of a request: the error of the client, an error while the body is read, or a response.
pub data Delivery : Type 0 where
  lost cut : Error → Delivery
  arrived : Response → Delivery

-- The fields of `Store` that do not change, and the connection. `status_line` is `Response.Status`,
-- `bad_json` the error of a body that does not decode.
pub record Client (W : Type 0) : Type 0 where
  pub base : Text
  pub token : Text
  pub deliver : Request → W → Delivery × W
  pub status_line : ℕ → Text
  pub bad_json : Error

-- `Error.Is`: the sentinels that the error is.
unfoldable pub sentinels : Text → ℕ → List Sentinel
sentinels code status =
    if text_eq code code_feed_not_found
    then feed_not_found ∷ []
    else if text_eq code code_not_followed
    then not_followed ∷ []
    else if text_eq code code_no_more_text
    then no_more_text ∷ []
    else if status == 401 || status == 403
    then unauthorized ∷ []
    else if status == 402
    then plan_limit ∷ []
    else []

-- `json.Unmarshal` of the body into `wire.Error`.
abbrev pub payload : Body → Option Document
payload no_body = none
payload (plain text) = none
payload (json document) = some document

abbrev pub described : Text → ℕ → Text → Text → Error
described line status code error =
    if text_eq error []
    then record { message = line; wraps = sentinels [] status }
    else record { message = error; wraps = sentinels code status }

abbrev pub remote_error_of : Text → ℕ → Option Document → Error
remote_error_of line status none = described line status [] []
remote_error_of line status (some d) =
    described line status (or_zero [] d.code) (or_zero [] d.error)

-- The `Error` that a response of status 400 or more is.
unfoldable pub remote_error : (ℕ → Text) → Response → Error
remote_error status_line r = remote_error_of (status_line r.status) r.status (payload r.body)

module _ {W : Type 0} (client : Client W) where
  unfoldable pub request : Method → List Text → Query → Body → Request
  request method path query body = record {
    method = method;
    path = path;
    query = query;
    authorization = if text_eq client.token [] then [] else codes "Bearer " ++ client.token;
    body = body;
  }

  unfoldable pub received : Delivery → Result Response
  received (lost e) = err (record {
    message = codes "reaching " ++ client.base ++ codes ": cannot reach the server: " ++ e.message;
    wraps = unreachable ∷ e.wraps;
  })
  received (cut e) = err (wrap (codes "reading response: ") e)
  received (arrived r) = if leb 400 r.status then err (remote_error client.status_line r) else ok r

  -- The end of `do` where `out` is given.
  abbrev pub decoded_body : Body → Result Document
  decoded_body no_body =
      err (wrap (codes "decoding response from " ++ client.base ++ codes ": ") client.bad_json)
  decoded_body (plain text) =
      err (wrap (codes "decoding response from " ++ client.base ++ codes ": ") client.bad_json)
  decoded_body (json document) = ok document

  abbrev pub document_of : Result Response → Result Document
  document_of (err e) = err e
  document_of (ok r) = if r.status == 204 then ok no_document else decoded_body r.body

  abbrev pub error_of : Result Response → Option Error
  error_of (err e) = some e
  error_of (ok r) = none

  -- `do` with `out`
  unfoldable pub ask : Method → List Text → Query → Body → W → Result Document × W
  ask method path query body w =
      let (delivery, w') = client.deliver (request method path query body) w in
      (document_of (received delivery), w')

  -- `do` without
  unfoldable pub tell : Method → List Text → Query → Body → W → Option Error × W
  tell method path query body w =
      let (delivery, w') = client.deliver (request method path query body) w in
      (error_of (received delivery), w')
