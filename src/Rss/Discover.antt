-- ===== src/Rss/Discover.antt =====
-- internal/rss/discover.go: the feeds that a web page advertises. The tokens of golang.org/x/net/html are
-- the tags of the page with their attributes; url.Parse and ResolveReference are a parameter.
use gator_cli.Prelude.{
  ℕ, ◌+◌, leb, ◌&&◌, ◌||◌, Bool, true, false, not, if◌then◌else◌, Option, none, some, List, [], ◌∷◌,
  ◌++◌, map, any, Text, text_eq, codes, trim_space, split_at,
}
use gator_cli.Rss.{Link, NotAFeed}
use gator_cli.Store.{Error}

pub record Tag : Type 0 where
  pub name : Text
  pub attributes : List (Text × Text)

-- The variables of `feedLink`
pub record Attributes : Type 0 where
  pub rel : Text
  pub kind : Text
  pub href : Text
  pub title : Text

abbrev pub read_attribute : Text → Text → Attributes → Attributes
read_attribute key value a =
    if text_eq key (codes "rel")
    then record a { rel = value }
    else if text_eq key (codes "type")
    then record a { kind = value }
    else if text_eq key (codes "href")
    then record a { href = value }
    else if text_eq key (codes "title")
    then record a { title = value }
    else a

unfoldable pub read_attributes : List (Text × Text) → Attributes → Attributes
read_attributes [] a = a
read_attributes ((key, value) ∷ rest) a = read_attributes rest (read_attribute key value a)

abbrev pub small : ℕ → ℕ
small c = if leb 65 c && leb c 90 then c + 32 else c

-- `feedTypes`
abbrev pub feed_types : List Text
feed_types =
    codes "application/rss+xml"
    ∷ codes "application/atom+xml"
    ∷ codes "application/rdf+xml"
    ∷ codes "application/xml"
    ∷ codes "text/xml"
    ∷ []

abbrev pub first_part : List Text → Text
first_part [] = []
first_part (p ∷ ps) = p

-- The media type before its parameters; it is compared in ASCII, to which all types belong.
unfoldable pub media_type : Text → Text
media_type kind = map small (trim_space (first_part (split_at 59 kind)))

abbrev pub resolved : Text → Text → Option Text → Option Link
resolved title kind none = none
resolved title kind (some url) = some (record { url = url; title = trim_space title; kind = kind })

module _ (resolve : Text → Text → Option Text) (base : Text) where
  abbrev pub link_of : Attributes → Option Link
  link_of a =
      if not (text_eq (map small a.rel) (codes "alternate")) || text_eq a.href []
      then none
      else if not (any (text_eq (media_type a.kind)) feed_types)
      then none
      else resolved a.title (media_type a.kind) (resolve base (trim_space a.href))

  -- `feedLink`
  unfoldable pub feed_link : Tag → Option Link
  unfolding read_attributes media_type
  feed_link t =
      link_of (read_attributes t.attributes (record { rel = []; kind = []; href = []; title = [] }))

  abbrev pub add_link : Option Link → List Link → List Link
  add_link none links = links
  add_link (some l) links =
      if any (λ (k : Link). text_eq k.url l.url) links then links else links ++ l ∷ []

  abbrev pub has_attributes : List (Text × Text) → Bool
  has_attributes [] = false
  has_attributes (a ∷ rest) = true

  -- The loop of `discoverLinks`; the addresses seen are those of the links.
  unfoldable pub discover_loop : List Tag → List Link → List Link
  discover_loop [] links = links
  discover_loop (t ∷ tags) links = discover_loop tags (
      if text_eq t.name (codes "link") && has_attributes t.attributes
      then add_link (feed_link t) links
      else links)

  -- `discoverLinks`
  unfoldable pub discover_links : List Tag → List Link
  discover_links tags = discover_loop tags []

abbrev pub first_link : List Link → Option Link
first_link [] = none
first_link (l ∷ ls) = some l

abbrev pub caused : Text → Option Error → Text
caused url (some c) = codes "parsing " ++ url ++ codes ": " ++ c.message
caused url none = codes "parsing " ++ url ++ codes ": not a feed"

abbrev pub describe : NotAFeed → Option Link → Text
describe e (some l) = e.url ++ codes " is a web page, not a feed; it advertises " ++ l.url
describe e none =
    if not (text_eq e.root [])
    then codes "parsing "
      ++ e.url
      ++ codes ": unsupported feed format, root element is <"
      ++ e.root
      ++ codes ">"
    else caused e.url e.cause

-- `NotAFeedError.Error`
unfoldable pub not_a_feed_text : NotAFeed → Text
not_a_feed_text e = describe e (first_link e.links)
