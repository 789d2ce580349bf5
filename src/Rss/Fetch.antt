-- ===== src/Rss/Fetch.antt =====
-- `FetchFeed` of internal/rss/rss.go. The client of net/http follows a redirect with a place to go to,
-- and asks CheckRedirect first, with the requests made so far.
pub mod Moves
use gator_cli.Prelude.{
  ℕ, zero, suc, ◌+◌, ◌==◌, ltb, leb, Bool, true, false, not, ◌&&◌, ◌||◌, if◌then◌else◌, Option,
  none, some, List, [], ◌∷◌, ◌++◌, length, Text, text_eq, codes,
}
use gator_cli.Store.{Error, Result, ok, err, wrap}
use gator_cli.Rss.{
  RssFeed, FetchError, Fetched, got_feed, got_none, failed, unmodified, Xml, parse_feed,
}

abbrev pub max_redirects : ℕ
max_redirects = 10

pub record Source : Type 0 where
  pub url : Text
  pub etag : Text
  pub last_modified : Text

-- A response. `size` is the length of the body in bytes, `body` what reading it gives.
pub record Page : Type 0 where
  pub status : ℕ
  pub status_line : Text
  pub location : Text
  pub etag : Text
  pub last_modified : Text
  pub size : ℕ
  pub body : Result Text

-- The other side: an address as url.Parse and `String` leave it, one request, with If-None-Match and
-- If-Modified-Since where they are not empty, and the reference of a redirect, resolved.
pub record Web (W : Type 0) : Type 0 where
  pub parse : Text → Result Text
  pub answer : Text → Text → Text → W → Result Page × W
  pub resolve : Text → Text → Result Text

-- `isPermanentRedirect`
abbrev pub is_permanent : ℕ → Bool
is_permanent status = status == 301 || status == 308

abbrev pub is_redirect : ℕ → Bool
is_redirect status =
    status == 301 || status == 302 || status == 303 || status == 307 || status == 308

-- Where a response sends the client, if it does.
abbrev pub next_url : {W : Type 0} → Web W → Text → Page → Option (Result Text)
next_url web url page =
    if is_redirect page.status && not (text_eq page.location [])
    then some (web.resolve url page.location)
    else none

-- The last response, its address, and `movedForGood`.
pub record Landing : Type 0 where
  pub page : Page
  pub url : Text
  pub moved_for_good : Bool

abbrev pub stopped : Error
stopped = record { message = codes "stopped after 10 redirects"; wraps = [] }

module _ {W : Type 0} (web : Web W) (src : Source) where
  abbrev pub Outcome : Type 0
  Outcome = Option (Result Landing) × W

  -- What follows a response, `CheckRedirect` included: `made` requests are made.
  abbrev pub hop : Text → ℕ → Bool → Page → W → (Text → Outcome) → Option (Result Text) → Outcome
  hop url made moved page w onward none =
      (some (ok (record { page = page; url = url; moved_for_good = moved })), w)
  hop url made moved page w onward (some (err e)) = (some (err e), w)
  hop url made moved page w onward (some (ok u)) =
      let rest = onward u in if leb max_redirects made then (some (err stopped), w) else rest

  abbrev pub after_answer :
      Text → ℕ → Bool → (Text → Bool → W → Outcome) → Result Page × W → Outcome
  after_answer url made moved onward (err e, w) = (some (err e), w)
  after_answer url made moved onward (ok page, w) =
      hop url made moved page w (λ u. onward u (moved && is_permanent page.status) w)
        (next_url web url page)

  -- The loop of `Client.Do`, with fuel; `none` means that it ran out.
  unfoldable pub follow : ℕ → Text → ℕ → Bool → W → Outcome
  follow zero url made moved w = (none, w)
  follow (suc fuel) url made moved w =
      after_answer url (made + 1) moved (λ u m w'. follow fuel u (made + 1) m w')
        (web.answer url src.etag src.last_modified w)

abbrev pub max_body : ℕ
max_body = 8388608

abbrev pub body_too_large : Error
body_too_large = record {
  message = codes "response body too large: over 8388608 bytes";
  wraps = [];
}

abbrev pub validated : Source → Source → Landing → Fetched → Fetched × Source
validated src next l (got_none e) = (got_none e, src)
validated src next l (got_feed f) =
    (got_feed f, record next { etag = l.page.etag; last_modified = l.page.last_modified })

-- `readBody` and what is behind it.
abbrev pub read_feed : Xml → Source → Source → Landing → Result Text → Fetched × Source
read_feed xml src next l (err e) =
    (got_none (failed (wrap (codes "reading " ++ src.url ++ codes ": ") e)), src)
read_feed xml src next l (ok body) =
    if ltb max_body l.page.size
    then (got_none (failed (wrap (codes "reading " ++ src.url ++ codes ": ") body_too_large)), src)
    else validated src next l (parse_feed xml body l.url)

abbrev pub landed : Xml → Source → Landing → Fetched × Source
landed xml src l =
    let next : Source = if l.moved_for_good then record src { url = l.url } else src in
    if l.page.status == 304
    then (got_none unmodified, next)
    else if ltb l.page.status 200 || leb 300 l.page.status
    then (
      got_none (
          failed (record {
            message =
                codes "fetching " ++ src.url ++ codes ": unexpected status " ++ l.page.status_line;
            wraps = [];
          })),
      src,
    )
    else read_feed xml src next l l.page.body

abbrev pub fetch_outcome :
    {W : Type 0} → Xml → Source → Option (Result Landing) × W → Option (Fetched × Source) × W
fetch_outcome xml src (none, w) = (none, w)
fetch_outcome xml src (some (err e), w) = (some (got_none (failed e), src), w)
fetch_outcome xml src (some (ok l), w) = (some (landed xml src l), w)

abbrev pub fetch_from :
    {W : Type 0} → Web W → Xml → Source → Result Text → W → Option (Fetched × Source) × W
fetch_from web xml src (err e) w = (some (got_none (failed e), src), w)
fetch_from web xml src (ok url) w =
    fetch_outcome xml src (follow web src max_redirects url 0 true w)

-- `FetchFeed`; ten requests are all that CheckRedirect lets through.
unfoldable pub fetch_feed : {W : Type 0} → Web W → Xml → Source → W → Option (Fetched × Source) × W
unfolding follow
fetch_feed web xml src w = fetch_from web xml src (web.parse src.url) w
