-- ===== src/Examples/Rows.antt =====
-- Two databases that differ in the rows of one user, and a request of another.
use gator_cli.Prelude.{
  ◌≡◌, refl, ◌==◌, false, if◌then◌else◌, none, some, List, [], ◌∷◌, Text, codes,
}
use gator_cli.Database.{no_post, no_feed}
use gator_cli.Store.{err}
use gator_cli.Http.{get_method, Request, no_body}
use gator_cli.Api.{bearer}
use gator_cli.Api.Routes.{Site, serve}
use gator_cli.Feeds.{Outside}
use gator_cli.Local.{Queries}
use gator_cli.Local.Requests.{per_request}
use gator_cli.Local.Adding.{AgreeAdding}
use gator_cli.Local.Isolation.{AgreeFor}
use gator_cli.Local.Served.{on_database, serve-on_database}
use gator_cli.Offline.Store.{Reply}
use gator_cli.Examples.Site.{formats, reader}
use gator_cli.Examples.Fetches.{outside}

abbrev reply : {A : Type 0} → A → List Text → Reply (List Text) A
reply a w = (a, none, w)

abbrev rows : Queries (List Text)
rows = record {
  get_user = λ name. reply reader;
  search_posts = λ user query limit. reply [];
  post_digest = λ user asked. reply [];
  posts_filtered = λ user asked. reply (no_post ∷ []);
  bookmarks = λ user. reply [];
  post_by_url = λ url user. reply no_post;
  post_by_id = λ id user. reply no_post;
  bookmarked_ids = λ user. reply (user ∷ []);
  read_ids = λ user. reply [];
  unread_counts = λ user. reply [];
  set_full_text = λ id text w. (none, text ∷ w);
  mark_unread = λ user id w. (none, w);
  mark_read = λ user id w. (none, w);
  mark_all_read = λ user ids w. (none, w);
  create_bookmark = λ user id. reply (id ∷ []);
  delete_bookmark = λ user id w. (none, w);
  follows = λ user. reply [];
  feed_stats = λ user since. reply [];
  create_follow = λ user id. reply [];
  feed_by_url = λ url. reply no_feed;
  delete_follow = λ user id w. (none, w);
  set_category = λ user id category w. (none, w);
  fetch_article = λ url w. (err (record { message = url; wraps = [] }), w);
  strip_html = λ text. text;
}

-- One more bookmark of the user 4, and a feed that cannot be added for the user 4.
abbrev other_rows : Queries (List Text)
other_rows = record rows {
  bookmarked_ids =
      λ user w. if user == 4 then (4 ∷ 9 ∷ [], none, w) else rows.bookmarked_ids user w;
}

abbrev other_outside : Outside (List Text)
other_outside = record outside {
  follow = λ user id w.
      if user == 4
      then (some (record { message = codes "full"; wraps = [] }), w)
      else outside.follow user id w;
}

abbrev site : Site (List Text)
site = record {
  formats = formats;
  user_by_hash = λ hash w. (reader, none, w);
  delete_token = λ hash w. (none, w);
  store_for = per_request rows outside;
  week_ago = λ w. 0;
  cancelled = λ w. false;
}

abbrev asked : Request
asked = record {
  method = get_method;
  path = codes "v1" ∷ codes "posts" ∷ codes "bookmarked" ∷ codes "ids" ∷ [];
  query = [];
  authorization = codes "Bearer gat_x";
  body = no_body;
}

bearer_asked : bearer asked.authorization ≡ some (codes "gat_x")
unfolding bearer
bearer_asked = refl

agree : AgreeFor reader.id rows other_rows
agree = record {
  search_posts = refl;
  post_digest = refl;
  posts_filtered = refl;
  bookmarks = refl;
  post_by_url = λ url. refl;
  post_by_id = λ id. refl;
  bookmarked_ids = refl;
  read_ids = refl;
  unread_counts = refl;
  set_full_text = refl;
  mark_unread = refl;
  mark_read = refl;
  mark_all_read = refl;
  create_bookmark = refl;
  delete_bookmark = refl;
  follows = refl;
  feed_stats = refl;
  create_follow = refl;
  feed_by_url = refl;
  delete_follow = refl;
  set_category = refl;
  fetch_article = refl;
  strip_html = refl;
}

agree_adding : AgreeAdding reader.id outside other_outside
agree_adding = record {
  fetch = refl;
  create_feed = λ name url. refl;
  feed_by_url = refl;
  follow = refl;
}

serve-on_database_example :
    serve (on_database site rows outside) asked []
    ≡ serve (on_database site other_rows other_outside) asked []
serve-on_database_example =
    serve-on_database site rows other_rows outside other_outside reader agree agree_adding refl
      asked (codes "gat_x") bearer_asked [] [] refl
