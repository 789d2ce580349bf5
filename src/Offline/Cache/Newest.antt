-- ===== src/Offline/Cache/Newest.antt =====
-- Which posts the cache holds after `mergePosts` (internal/store/offline/cache.go).
use gator_cli.Prelude.{◌≡◌, ap, ◌∙◌, List, arith, take, take_if_longer}
use gator_cli.Sorting.{sort_stable, IsPreorder, Apart}
use gator_cli.Database
use gator_cli.Wire.{from_posts, to_posts}
use gator_cli.Offline.Cache.{Snapshot, max_posts, newer_first, merge_posts}
use gator_cli.Offline.Cache.Merge.{post_id, upsert_all, merge_loop-search}

abbrev Post : Type 0
Post = Database.Post

pub newer_first-IsPreorder : IsPreorder newer_first
newer_first-IsPreorder = record {
  le_total = λ a b h. ground arith;
  le_trans = λ a b c h k. ground arith;
}

-- All posts that `mergePosts` chooses from, newest first.
pub candidates : List Post → Snapshot → List Post
candidates posts snap = sort_stable newer_first (upsert_all posts (to_posts snap.posts))

-- `mergePosts` keeps the newest 200 of the posts that a plain search-and-replace would give, if no
-- two cached posts have one identifier.
pub posts-merge_posts :
    (posts : List Post) (snap : Snapshot)
    → Apart post_id (to_posts snap.posts)
    → (merge_posts posts snap).posts ≡ from_posts (take max_posts (candidates posts snap))
unfolding merge_posts candidates
posts-merge_posts posts snap d = ap from_posts (
    take_if_longer max_posts _
    ∙ ap (λ l. take max_posts (sort_stable newer_first l))
        (merge_loop-search posts (to_posts snap.posts) d))
