-- ===== src/Article.antt =====
-- internal/article/article.go: the text of a page. go-readability, url.Parse and text.StripHTML are
-- parameters; the request to the server is not modelled.
pub mod Normal
use gator_cli.Prelude.{
  ℕ, ◌+◌, Bool, true, false, not, ltb, if◌then◌else◌, Option, none, some, List, [], ◌∷◌, ◌++◌, Text,
  text_eq, codes, split_at, trim_space, length,
}
use gator_cli.Store.{Error, Result, ok, err, wrap, ◌>>=◌}
use gator_cli.TextLines.{one_line}

abbrev pub newline : ℕ
newline = 10

abbrev pub max_body : ℕ
max_body = 8388608

-- `boundedReader`, less the reader that it wraps.
pub record BoundedReader : Type 0 where
  pub limit : ℕ
  pub read : ℕ

-- `exceeded`
unfoldable pub exceeded : BoundedReader → Bool
exceeded b = ltb b.limit b.read

-- `Read`, when the wrapped reader returns n bytes and the error `e`.
unfoldable pub read_bytes :
    Error → ℕ → Option Error → BoundedReader → ℕ × Option Error × BoundedReader
unfolding exceeded
read_bytes too_large n e b =
    let b' : BoundedReader = record b { read = b.read + n } in
    if exceeded b' then (n, some too_large, b') else (n, e, b')

pub record Article : Type 0 where
  pub title : Text
  pub text : Text
  pub html : Text
  pub byline : Text
  pub site : Text

-- What go-readability returns.
pub record Parsed : Type 0 where
  pub title : Text
  pub content : Text
  pub text_content : Text
  pub byline : Text
  pub site_name : Text

-- The loop of `normalise`.
unfoldable pub paragraphs : List Text → List Text
paragraphs [] = []
paragraphs (para ∷ rest) =
    let more = paragraphs rest in
    if not (text_eq (one_line para) []) then one_line para ∷ more else more

-- `strings.Join` with two newlines
unfoldable pub join_paragraphs : List Text → Text
join_paragraphs [] = []
join_paragraphs (p ∷ []) = p
join_paragraphs (p ∷ q ∷ ps) = p ++ newline ∷ newline ∷ join_paragraphs (q ∷ ps)

-- `normalise`
unfoldable pub normalise : Text → Text
unfolding paragraphs join_paragraphs
normalise s = join_paragraphs (paragraphs (split_at newline s))

abbrev pub no_text : Text → Error
no_text url = record { message = codes "no article text found at " ++ url; wraps = [] }

abbrev pub article : Parsed → Text → Article
article parsed body = record {
  title = trim_space parsed.title;
  text = body;
  html = parsed.content;
  byline = trim_space parsed.byline;
  site = trim_space parsed.site_name;
}

module _ (strip_html : Text → Text) where
  -- The choice of the text in `Extract`.
  unfoldable pub body_text : Parsed → Text
  unfolding normalise paragraphs join_paragraphs
  body_text parsed =
      let body = normalise (strip_html parsed.content) in
      if text_eq body [] then normalise parsed.text_content else body

  -- `Extract` after the parsing of the address: `found` is what go-readability returns.
  unfoldable pub extract : Text → Result Parsed → Result Article
  unfolding body_text normalise paragraphs join_paragraphs
  extract url (err e) = err (wrap (codes "reading " ++ url ++ codes ": ") e)
  extract url (ok parsed) =
      if text_eq (body_text parsed) []
      then err (no_text url)
      else ok (article parsed (body_text parsed))

-- `Improves`
unfoldable pub improves : Text → Text → Bool
improves got had = ltb (length (trim_space had)) (length (trim_space got))
