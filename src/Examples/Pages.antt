-- ===== src/Examples/Pages.antt =====
-- Runs of the pages of the list of posts.
use gator_cli.Prelude.{◌≡◌, refl, true, false, some, List, [], ◌∷◌, take}
use gator_cli.Database.{Post}
use gator_cli.Tui.Paging.{
  Paging, source_feeds, post_items, post_items_from, start_load, maybe_load_more, posts_loaded,
}
use gator_cli.Tui.Paging.Rounds.{IsPaged, page, posts_loaded-IsPaged, posts_loaded-start_load}
use gator_cli.Examples.Caches.{old_post, new_post}

abbrev all_posts : List Post
all_posts = new_post ∷ old_post ∷ []

abbrev shown_page : Paging
shown_page = record {
  source = source_feeds;
  offset = 0;
  has_more = true;
  loading = false;
  loading_more = false;
  items = post_items false (take 50 all_posts);
}

asks : (maybe_load_more false 0 shown_page).1 ≡ some 50
unfolding maybe_load_more post_items post_items_from
asks = refl

posts_loaded-IsPaged_example :
    IsPaged all_posts
      (posts_loaded false true 50 (page all_posts 50) (maybe_load_more false 0 shown_page).0)
posts_loaded-IsPaged_example =
    posts_loaded-IsPaged all_posts 0 shown_page 50 (record { shown = refl; idle = refl }) asks

asks_early : (maybe_load_more false 0 (start_load shown_page)).1 ≡ some 50
unfolding maybe_load_more start_load post_items post_items_from
asks_early = refl

posts_loaded-start_load_example :
    posts_loaded false true 0 all_posts (maybe_load_more false 0 (start_load shown_page)).0
    ≡ (maybe_load_more false 0 (start_load shown_page)).0
posts_loaded-start_load_example =
    posts_loaded-start_load false false 0 50 all_posts shown_page asks_early
