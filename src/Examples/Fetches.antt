-- ===== src/Examples/Fetches.antt =====
-- Runs of goroutines, of a fetch with a redirect, and of a scrape.
use mathlib.Core.List.{Perm}
use gator_cli.Prelude.{
  ℕ, ◌*◌, ◌≤◌, ◌≡◌, ◌≢◌, ◌⊎◌, refl, Bool, true, false, if◌then◌else◌, Option, none, some, List, [],
  ◌∷◌, Text, codes, text_eq, text_eq_refl, arith, length, any,
}
use gator_cli.Database.{Feed, no_feed}
use gator_cli.Store.{Error, ok, err, duplicate}
use gator_cli.Rss.{
  RssFeed, RssItem, Xml, got_feed, parse_feed, unescape_string, unescape_item, resolve_body,
  resolve_item,
}
use gator_cli.Rss.Fetch.{Source, Page, Web, fetch_feed, follow}
use gator_cli.Rss.Fetch.Moves.{IsMoved, fetch_feed-ends, fetch_feed-IsMoved}
use gator_cli.TextLines.{one_line, fields, parts, join_blank}
use gator_cli.Feeds.{Outside, default_policy, parse_pub_date, parse_first}
use gator_cli.Feeds.Scrape.{scrape, save_items, worthless}
use gator_cli.Feeds.Scrape.Stored.{IsPostTable, IsStored, scrape-IsStored}
use gator_cli.Feeds.Jobs.{Jobs, waiting, stored, Run, here, next, enter, call, started}
use gator_cli.Feeds.Jobs.Counts.{IsBounded, Run-IsBounded}
use gator_cli.Feeds.Jobs.Progress.{CanStep}
use gator_cli.Feeds.Jobs.Results.{run_ends, finished_with, outcomes}

abbrev entries : List ℕ
entries = 7 ∷ 8 ∷ []

abbrev outcome : ℕ → ℕ
outcome i = i

abbrev underway : Jobs ℕ
underway = record { tasks = waiting ∷ stored 1 ∷ []; reports = [] }

run : Run 1 true outcome (started entries) 2 underway
run = next (next here (enter 1 refl (omega arith) refl)) (call 1 refl refl)

Run-IsBounded_example : IsBounded 1 underway.tasks
Run-IsBounded_example = Run-IsBounded entries 1 true outcome run

run_ends_example :
    (2 ≤ 5 * length entries)
    × (CanStep 1 true outcome underway
        ⊎ ((underway.tasks ≡ finished_with outcome (outcomes outcome 0 entries))
            × Perm underway.reports (outcomes outcome 0 entries)))
run_ends_example = run_ends outcome entries 1 2 underway (omega arith) run

abbrev fetched : RssFeed
fetched = record { title = codes "Go"; link = []; description = []; items = [] }

abbrev xml : Xml
xml = record {
  root = λ body. ok (codes "rss");
  rss = λ body. ok fetched;
  atom = λ body. err (record { message = []; wraps = [] });
  rdf = λ body. err (record { message = []; wraps = [] });
  unescape = λ t. t;
  links = λ body url. [];
}

abbrev page : ℕ → Text → Page
page status location = record {
  status = status;
  status_line = codes "status";
  location = location;
  etag = codes "tag";
  last_modified = [];
  size = 5;
  body = ok (codes "<rss>");
}

-- The old address moves for good to the new one.
abbrev web : Web (Unit {0})
web = record {
  parse = λ url. ok url;
  answer = λ url etag modified w.
      (ok (if text_eq url (codes "old") then page 301 (codes "new") else page 200 []), w);
  resolve = λ url location. ok location;
}

abbrev old_source : Source
old_source = record { url = codes "old"; etag = []; last_modified = [] }

abbrev new_source : Source
new_source = record { url = codes "new"; etag = codes "tag"; last_modified = [] }

fetch_feed-ends_example : (fetch_feed web xml old_source tt).0 ≢ none
fetch_feed-ends_example = fetch_feed-ends web old_source xml tt

fetches : (fetch_feed web xml old_source tt).0 ≡ some (got_feed fetched, new_source)
unfolding fetch_feed follow parse_feed unescape_string unescape_item resolve_body resolve_item
    one_line fields parts join_blank
fetches = refl

fetch_feed-IsMoved_example : IsMoved web old_source new_source
fetch_feed-IsMoved_example =
    fetch_feed-IsMoved web old_source xml tt (got_feed fetched) new_source fetches

abbrev item : RssItem
item = record {
  title = codes "One";
  link = codes "a";
  description = [];
  content = [];
  pub_date = [];
  date = [];
}

-- The addresses of the posts; one that is there already is refused.
abbrev has : List Text → Text → Bool
has urls url = any (text_eq url) urls

abbrev taken_error : Option Error
taken_error = some (record { message = codes "unique"; wraps = duplicate ∷ [] })

abbrev pub outside : Outside (List Text)
outside = record {
  now = λ w. 100;
  fetch = λ src w. ((got_feed (record fetched { items = item ∷ item ∷ [] }), src), w);
  mark_fetched = λ id w. (none, w);
  mark_healthy = λ id w. (none, w);
  mark_failed = λ id text w. (none, w);
  set_url = λ id url w. (none, w);
  save_validators = λ id etag modified w. (none, w);
  keep_cutoff = λ id skip w. (0, none, w);
  create_post =
      λ p w. ((if has w p.url then taken_error else none), if has w p.url then w else p.url ∷ w);
  prune_posts = λ retention keep w. (0, none, w);
  forget_validators = λ all below w. (0, none, w);
  create_feed = λ name url user w. (no_feed, none, w);
  feed_by_url = λ url w. (no_feed, none, w);
  follow = λ user id w. (none, w);
  set_category = λ user id category w. (none, w);
  wall_clock = λ t. t;
  parse_layouts = [];
  quote = λ t. t;
  show_duration = λ d. [];
  show_number = λ n. [];
}

has_self : (url : Text) (urls : List Text) → has (url ∷ urls) url ≡ true
has_self url urls = rw (text_eq_refl url) refl

table : IsPostTable outside has
table = record {
  made = λ p w e. ground (arith, has_self p.url w);
  taken = λ p w e e' d. ground (arith, has_self p.url w);
  keeps = λ p w url h. ground arith;
}

abbrev a_feed : Feed
a_feed = record no_feed { id = 4; url = codes "a" }

scrapes_well : (scrape outside a_feed default_policy []).0.err ≡ none
unfolding scrape save_items worthless parse_pub_date parse_first
scrapes_well = refl

scrapes_anew : (scrape outside a_feed default_policy []).0.not_modified ≡ false
unfolding scrape save_items worthless parse_pub_date parse_first
scrapes_anew = refl

scrape-IsStored_example :
    IsStored outside has table a_feed default_policy []
      (scrape outside a_feed default_policy []).0
      (scrape outside a_feed default_policy []).1
scrape-IsStored_example =
    scrape-IsStored outside has table a_feed default_policy [] scrapes_well scrapes_anew
