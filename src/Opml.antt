-- ===== src/Opml.antt =====
-- internal/opml/opml.go: subscription lists. encoding/xml is a parameter: `Parse` starts from the
-- outlines that it decoded, and `Write` ends with those that it is to encode.
pub mod Walk
pub mod Groups
use gator_cli.Prelude.{
  ℕ, Bool, true, false, not, ◌&&◌, ◌||◌, List, [], ◌∷◌, ◌++◌, map, Text, text_eq, text_compare,
  Ordering, trim_space, if◌then◌else◌, keep, any, codes,
}
use gator_cli.Grouping.{sort_texts, group_names, in_group}
use gator_cli.Collect.{Collected, collect, nothing}

pub record Feed : Type 0 where
  pub title : Text
  pub xml_url : Text
  pub html_url : Text
  pub category : Text

pub record Attributes : Type 0 where
  pub text : Text
  pub title : Text
  pub kind : Text
  pub xml_url : Text
  pub html_url : Text

mutual
  pub data Outline : Type 0 where
    outline : Attributes → Outlines → Outline

  pub data Outlines : Type 0 where
    none : Outlines
    also : Outline → Outlines → Outlines

-- `firstNonEmpty` of two texts
unfoldable pub first_nonempty : Text → Text → Text
first_nonempty s t =
    if not (text_eq (trim_space s) [])
    then trim_space s
    else if not (text_eq (trim_space t) [])
    then trim_space t
    else []

abbrev pub label : Attributes → Text
label a = first_nonempty a.title a.text

abbrev pub feed_url : Feed → Text
feed_url f = f.xml_url

-- The first half of the body of `walk`: the feed of an outline.
unfoldable pub walk_feed : Attributes → Text → Collected feed_url → Collected feed_url
walk_feed a category st =
    let url = trim_space a.xml_url in
    if text_eq url []
    then st
    else collect feed_url
        (record { title = label a; xml_url = url; html_url = a.html_url; category = category }) st

-- The category of what is below an outline.
unfoldable pub inner_category : Attributes → Text → Text
inner_category a category =
    if text_eq a.xml_url [] && not (text_eq (label a) []) then label a else category

-- `walk`
mutual
  pub walk_one : Outline → Text → Collected feed_url → Collected feed_url
  walk_one (outline a children) category st =
      walk children (inner_category a category) (walk_feed a category st)

  pub walk : Outlines → Text → Collected feed_url → Collected feed_url
  walk none category st = st
  walk (also o rest) category st = walk rest category (walk_one o category st)

-- `Parse` after the decoding
unfoldable pub parse : Outlines → List Feed
parse body = (walk body [] (nothing feed_url)).out

-- The outline of a feed in `Write`.
unfoldable pub feed_outline : Feed → Outline
feed_outline f =
    outline
      (record {
        text = f.title;
        title = f.title;
        kind = codes "rss";
        xml_url = f.xml_url;
        html_url = f.html_url;
      })
      none

unfoldable pub outlines : List Feed → Outlines
unfolding feed_outline
outlines [] = none
outlines (f ∷ fs) = also (feed_outline f) (outlines fs)

-- The key of `grouped`
abbrev pub trimmed_category : Feed → Text
trimmed_category f = trim_space f.category

unfoldable pub group_outline : List Feed → Text → Outline
unfolding outlines feed_outline
group_outline feeds name =
    outline (record { text = name; title = name; kind = []; xml_url = []; html_url = [] })
      (outlines (keep (in_group trimmed_category name) feeds))

unfoldable pub group_outlines : List Feed → List Text → Outlines → Outlines
unfolding group_outline outlines feed_outline
group_outlines feeds [] rooted = rooted
group_outlines feeds (name ∷ names) rooted =
    also (group_outline feeds name) (group_outlines feeds names rooted)

-- `Write` before the encoding
unfoldable pub written : List Feed → Outlines
unfolding group_outlines group_outline outlines feed_outline
written feeds =
    group_outlines feeds (sort_texts (group_names trimmed_category feeds))
      (outlines (keep (in_group trimmed_category []) feeds))
