-- ===== src/Examples/Caches.antt =====
-- Runs of the snapshot of internal/store/offline/cache.go, and of the wire shapes of
-- internal/wire/wire.go.
use gator_cli.Prelude.{◌≡◌, refl, true, false, none, [], ◌∷◌, codes, find?, ◌==◌}
use gator_cli.Prelude.Int.{pos}
use gator_cli.Database
use gator_cli.Database.{no_post, UnreadCount}
use gator_cli.Wire
use gator_cli.Wire.{from_post, to_post, from_posts}
use gator_cli.Offline.Changes.{Change, blank, op_read}
use gator_cli.Offline.Cache.{Snapshot, fresh, apply, set_read, index_posts, merge_loop}
use gator_cli.Offline.Cache.Marks.{marks, mean, marks-apply}
use gator_cli.Offline.Cache.Unread.{counted_for, set_read_undo}
use gator_cli.Offline.Cache.Merge.{post_id, upsert_all, merge_loop-search}

abbrev pub old_post : Database.Post
old_post = record no_post { id = 1; created_at = 10; feed_id = 5; title = codes "old" }

abbrev pub new_post : Database.Post
new_post = record no_post { id = 2; created_at = 20; feed_id = 5; title = codes "new" }

abbrev pub cached : Snapshot
cached = record (fresh (codes "home")) {
  posts = Wire.from_post old_post ∷ [];
  unread = record { feed_id = 5; unread = pos 3 } ∷ [];
}

abbrev reading : Change
reading = record (blank op_read 60) { post_id = 1; value = true }

marks-apply_example : marks (apply reading cached) ≡ mean reading (marks cached)
marks-apply_example = marks-apply reading cached

cached-counted : counted_for (find? (λ p. p.id == 1) cached.posts) cached.unread ≡ true
unfolding from_post
cached-counted = refl

set_read_undo_example : set_read 1 false (set_read 1 true cached) ≡ cached
set_read_undo_example = set_read_undo 1 cached refl cached-counted

merge_loop-search_example :
    merge_loop
      (new_post ∷ old_post ∷ [])
      (old_post ∷ [])
      (index_posts 0 (old_post ∷ []) (λ _. none))
    ≡ upsert_all (new_post ∷ old_post ∷ []) (old_post ∷ [])
merge_loop-search_example = merge_loop-search (new_post ∷ old_post ∷ []) (old_post ∷ []) (refl, tt)
