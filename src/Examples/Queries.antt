-- ===== src/Examples/Queries.antt =====
-- Runs of the query for posts of internal/store/offline/filter.go.
use mathlib.Core.List.{Perm}
use gator_cli.Prelude.{
  ◌≡◌, refl, true, List, [], ◌∷◌, ◌↔◌, codes, take, keep, contains, if◌then◌else◌,
}
use gator_cli.Prelude.Int.{pos}
use gator_cli.Sorting.{sort_stable, IsSorted}
use gator_cli.Wire.{to_posts}
use gator_cli.Store.{PostQuery, read_any}
use gator_cli.Offline.Cache.{newer_first}
use gator_cli.Offline.Filter.{Locale, Post, feed_names, equal_fold, older_first, digest, chosen}
use gator_cli.Offline.Filter.Selection.{Matches, wanted, chosen_lem}
use gator_cli.Offline.Filter.Digest.{of_feed, digest_newest}
use gator_cli.Examples.Caches.{old_post, new_post, cached}

abbrev utc : Locale
utc = record { east = λ t. 0; west = λ t. 0; lower = λ c. c; fold = λ c. c }

abbrev newest : PostQuery
newest = record {
  feed_id = 0;
  feed_name = [];
  query = [];
  read = read_any;
  since = 0;
  sort_dir = codes "desc";
  per_feed = pos 0;
  limit = pos 20;
  offset = pos 0;
}

chosen_lem_example :
    Perm (chosen utc cached newest) (keep (wanted utc cached newest) (to_posts cached.posts))
    × ((p : Post)
        → (wanted utc cached newest p ≡ true)
          ↔ Matches utc newest (contains cached.read) (feed_names utc cached.subs (λ id. [])) p)
    × IsSorted
        (if equal_fold utc newest.sort_dir (codes "asc") then older_first else newer_first)
        (chosen utc cached newest)
chosen_lem_example = chosen_lem utc cached newest refl

digest_newest_example :
    keep (of_feed 5) (digest (old_post ∷ new_post ∷ []) (λ id. codes "feed") 1)
    ≡ take 1 (sort_stable newer_first (keep (of_feed 5) (old_post ∷ new_post ∷ [])))
digest_newest_example = digest_newest 5 (old_post ∷ new_post ∷ []) (λ id. codes "feed") 1

abbrev two_posts : List Post
two_posts = new_post ∷ old_post ∷ []
