-- ===== src/Examples/Parts.antt =====
-- Runs of the smaller parts of the program.
use mathlib.Core.List.{Perm}
use mathlib.Core.List.Perm
use gator_cli.Prelude.{text_eq, false, ◌≡◌, refl, List, [], ◌∷◌, Text, codes}
use gator_cli.Prelude.Int.{pos}
use gator_cli.Database.{Uuid, Subscription}
use gator_cli.Store.{ok}
use gator_cli.Collect.{has_key, Once}
use gator_cli.Grouping.{Different}
use gator_cli.Menu.Args.{split_args}
use gator_cli.Menu.Args.RoundTrip.{quote_args, split_args-quote_args}
use gator_cli.Article.{
  Article, Parsed, article, extract, body_text, normalise, paragraphs, join_paragraphs,
}
use gator_cli.Article.Normal.{extract-normalise}
use gator_cli.Opml
use gator_cli.Opml.Groups.{parse-written}
use gator_cli.Opml.{Feed, written, Outline, Outlines, outline, feed_url, parse}
use gator_cli.Opml.Walk.{addressed, parse_lem}
use gator_cli.TextLines.{parts, join_blank, fields, one_line}
use gator_cli.Tui.Folders.{folder_names, group_feeds}
use gator_cli.Tui.Folders.Contents.{feeds_in, group_feeds-perm}

abbrev two_args : List Text
two_args = codes "my feed" ∷ [] ∷ []

split_args-quote_args_example : split_args (quote_args two_args) ≡ two_args
split_args-quote_args_example =
    split_args-quote_args two_args
      ((refl, (refl, (refl, (refl, (refl, (refl, (refl, tt))))))), (tt, tt))

abbrev sentence : Text
sentence = codes "a feed reader for the terminal"

abbrev plain : Text → Text
plain s = s

abbrev leaf : Outline
leaf =
    outline
      (record {
        text = codes "One";
        title = [];
        kind = codes "rss";
        xml_url = codes " u ";
        html_url = [];
      })
      Outlines.none

abbrev body : Outlines
body =
    Outlines.also
      (outline (record { text = codes "News"; title = []; kind = []; xml_url = []; html_url = [] })
        (Outlines.also leaf Outlines.none))
      (Outlines.also leaf Outlines.none)

parse_lem_example :
    Once feed_url (parse body) × ((u : Text) → has_key feed_url u (parse body) ≡ addressed u body)
parse_lem_example = parse_lem body

abbrev followed : Text → Uuid → Subscription
followed name id = record {
  id = id;
  created_at = 0;
  updated_at = 0;
  user_id = 1;
  feed_id = id;
  category = name;
  user_name = [];
  feed_name = [];
  feed_url = [];
  feed_failures = pos 0;
}

abbrev rows : List Subscription
rows = followed (codes "news") 1 ∷ followed [] 2 ∷ followed (codes "blogs") 3 ∷ []

group_feeds-perm_example :
    Perm (feeds_in (group_feeds (λ rs. rs) rows)) rows × Different (folder_names rows)
group_feeds-perm_example = group_feeds-perm (λ rs. rs) (λ rs. Perm.refl rs) rows

abbrev page : Parsed
page = record {
  title = codes "Title";
  content = codes " one \n\n two ";
  text_content = [];
  byline = [];
  site_name = [];
}

abbrev extracted : Article
extracted = article page (codes "one\n\ntwo")

extracts : extract plain [] (ok page) ≡ ok extracted
unfolding extract body_text normalise paragraphs join_paragraphs one_line fields join_blank parts
extracts = refl

extract-normalise_example :
    (text_eq extracted.text [] ≡ false) × (normalise extracted.text ≡ extracted.text)
extract-normalise_example = extract-normalise plain [] (ok page) extracted extracts

abbrev exported : List Feed
exported =
    record { title = codes "One"; xml_url = codes "u"; html_url = []; category = codes "news" }
    ∷ record { title = codes "Two"; xml_url = codes "v"; html_url = []; category = [] }
    ∷ []

parse-written_example : Perm (Opml.parse (written exported)) exported
parse-written_example =
    parse-written exported
      (
        record { title = refl; url = refl; has_url = refl; category = refl },
        (record { title = refl; url = refl; has_url = refl; category = refl }, tt),
      )
      (refl, (refl, tt))
