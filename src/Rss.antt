-- ===== src/Rss.antt =====
-- internal/rss/rss.go: the three formats of feeds and what is made of them. encoding/xml, the decoding of
-- characters and html.UnescapeString are parameters.
pub mod Fetch
pub mod Discover
use gator_cli.Prelude.{
  ◌||◌, Bool, true, false, not, if◌then◌else◌, Option, none, some, List, [], ◌∷◌, ◌++◌, map, Text,
  text_eq, codes, trim_space,
}
use gator_cli.Store.{Error, Result, ok, err, wrap}
use gator_cli.TextLines.{one_line}

pub record RssItem : Type 0 where
  pub title : Text
  pub link : Text
  pub description : Text
  pub content : Text
  pub pub_date : Text
  pub date : Text

-- The fields of `RSSFeed.Channel`.
pub record RssFeed : Type 0 where
  pub title : Text
  pub link : Text
  pub description : Text
  pub items : List RssItem

pub record AtomLink : Type 0 where
  pub href : Text
  pub rel : Text

-- `media` is the description of `mediaGroup`.
pub record AtomEntry : Type 0 where
  pub title : Text
  pub links : List AtomLink
  pub summary : Text
  pub content : Text
  pub published : Text
  pub updated : Text
  pub media : Text

pub record AtomFeed : Type 0 where
  pub title : Text
  pub subtitle : Text
  pub links : List AtomLink
  pub entries : List AtomEntry

pub record RdfItem : Type 0 where
  pub title : Text
  pub link : Text
  pub description : Text
  pub content : Text
  pub date : Text

pub record RdfFeed : Type 0 where
  pub title : Text
  pub link : Text
  pub description : Text
  pub items : List RdfItem

-- `alternate`
unfoldable pub alternate : List AtomLink → Text
alternate [] = []
alternate (l ∷ links) =
    let rest = alternate links in
    if text_eq l.rel [] || text_eq l.rel (codes "alternate") then l.href else rest

-- `firstNonEmpty`
unfoldable pub first_non_empty : List Text → Text
first_non_empty [] = []
first_non_empty (v ∷ vals) =
    let rest = first_non_empty vals in if not (text_eq (trim_space v) []) then v else rest

-- `atomFeed.toRSS`
unfoldable pub atom_item : AtomEntry → RssItem
unfolding first_non_empty alternate
atom_item e = record {
  title = e.title;
  link = alternate e.links;
  description = first_non_empty (e.summary ∷ e.media ∷ []);
  content = e.content;
  pub_date = first_non_empty (e.published ∷ e.updated ∷ []);
  date = [];
}

unfoldable pub atom_to_rss : AtomFeed → RssFeed
unfolding alternate atom_item
atom_to_rss a = record {
  title = a.title;
  link = alternate a.links;
  description = a.subtitle;
  items = map atom_item a.entries;
}

-- `rdfFeed.toRSS`
unfoldable pub rdf_item : RdfItem → RssItem
rdf_item it = record {
  title = it.title;
  link = it.link;
  description = it.description;
  content = it.content;
  pub_date = it.date;
  date = [];
}

unfoldable pub rdf_to_rss : RdfFeed → RssFeed
unfolding rdf_item
rdf_to_rss f = record {
  title = f.title;
  link = f.link;
  description = f.description;
  items = map rdf_item f.items;
}

-- `resolveBody`
unfoldable pub resolve_item : RssItem → RssItem
unfolding first_non_empty
resolve_item it = record it {
  title = one_line it.title;
  description = first_non_empty (it.content ∷ it.description ∷ []);
  pub_date = first_non_empty (it.pub_date ∷ it.date ∷ []);
}

unfoldable pub resolve_body : RssFeed → RssFeed
unfolding resolve_item
resolve_body f = record f { title = one_line f.title; items = map resolve_item f.items }

-- `unescapeString`
unfoldable pub unescape_item : (Text → Text) → RssItem → RssItem
unescape_item unescape it = record it {
  title = unescape it.title;
  description = unescape it.description;
}

unfoldable pub unescape_string : (Text → Text) → RssFeed → RssFeed
unfolding unescape_item
unescape_string unescape f = record f {
  title = unescape f.title;
  description = unescape f.description;
  items = map (unescape_item unescape) f.items;
}

pub record Link : Type 0 where
  pub url : Text
  pub title : Text
  pub kind : Text

-- `NotAFeedError`
pub record NotAFeed : Type 0 where
  pub url : Text
  pub root : Text
  pub links : List Link
  pub cause : Option Error

-- What the XML and HTML packages do with a body. `root` is `rootElement`.
pub record Xml : Type 0 where
  pub root : Text → Result Text
  pub rss : Text → Result RssFeed
  pub atom : Text → Result AtomFeed
  pub rdf : Text → Result RdfFeed
  pub unescape : Text → Text
  pub links : Text → Text → List Link

-- The error of a fetch.
pub data FetchError : Type 0 where
  not_a_feed : NotAFeed → FetchError
  failed : Error → FetchError
  unmodified : FetchError

pub data Fetched : Type 0 where
  got_feed : RssFeed → Fetched
  got_none : FetchError → Fetched

abbrev pub finish : (Text → Text) → RssFeed → RssFeed
finish unescape f = unescape_string unescape (resolve_body f)

abbrev pub finish_with :
    {A : Type 0} → (Text → Text) → Text → Text → (A → RssFeed) → Result A → Fetched
finish_with unescape url kind to_rss (err e) =
    got_none (failed (wrap (codes "parsing " ++ url ++ kind ++ codes ": ") e))
finish_with unescape url kind to_rss (ok a) = got_feed (finish unescape (to_rss a))

abbrev pub parse_root : Xml → Text → Text → Result Text → Fetched
parse_root xml body url (err e) =
    got_none
      (not_a_feed (record { url = url; root = []; links = xml.links body url; cause = some e }))
parse_root xml body url (ok root) =
    if text_eq root (codes "rss")
    then finish_with xml.unescape url [] (λ f. f) (xml.rss body)
    else if text_eq root (codes "feed")
    then finish_with xml.unescape url (codes " as Atom") atom_to_rss (xml.atom body)
    else if text_eq root (codes "RDF")
    then finish_with xml.unescape url (codes " as RSS 1.0") rdf_to_rss (xml.rdf body)
    else got_none
        (not_a_feed (record { url = url; root = root; links = xml.links body url; cause = none }))

-- `parseFeed`
unfoldable pub parse_feed : Xml → Text → Text → Fetched
parse_feed xml body url = parse_root xml body url (xml.root body)
