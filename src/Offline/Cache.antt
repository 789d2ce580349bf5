-- ===== src/Offline/Cache.antt =====
-- internal/store/offline/cache.go: the snapshot of what the server last said, and what the changes
-- of the user do to it.
pub mod Cases
pub mod Merge
pub mod Newest
pub mod Marks
pub mod Unread
use gator_cli.Prelude.{
  ℕ, suc, ◌+◌, ◌==◌, ltb, leb, if◌then◌else◌, Bool, true, false, not, ◌&&◌, Option, none, some,
  List, [], ◌∷◌, ◌++◌, Text, text_eq, length, take, set, keep, find?, contains,
}
use gator_cli.Prelude.Int.{ℤ, pos, negsuc, ◌+ℤ◌, int64, at_least_zero, is_positive}
use gator_cli.Sorting.{sort_stable}
use gator_cli.Database
use gator_cli.Database.{Uuid, Time, Subscription, UnreadCount}
use gator_cli.Wire
use gator_cli.Wire.{from_posts, to_posts}
use gator_cli.Store.{Error, Result}
use gator_cli.Files.{Replacing, replace_text}
use gator_cli.Offline.Changes.{Change, op_read, op_read_all, op_bookmark, op_categorize}

abbrev pub max_posts : ℕ
max_posts = 200

pub record Snapshot : Type 0 where
  pub server : Text
  pub synced_at : Time
  pub user : Option Wire.User
  pub posts : List Wire.Post
  pub bookmarked : List Wire.Post
  pub subs : List Subscription
  pub unread : List UnreadCount
  pub read : List Uuid
  pub saved : List Uuid
  pub dropped : ℤ  -- int

-- `snapshot{Server: server}`
abbrev pub fresh : Text → Snapshot
fresh server = record {
  server = server;
  synced_at = 0;
  user = none;
  posts = [];
  bookmarked = [];
  subs = [];
  unread = [];
  read = [];
  saved = [];
  dropped = pos 0;
}

-- `load`: what encoding/json reads in the file is an argument, `none` where it fails, or where the
-- file cannot be read.
unfoldable pub load : Option Snapshot → Text → Snapshot
load none server = fresh server
load (some snap) server = if text_eq snap.server server then snap else fresh server

-- `save`: what encoding/json makes of the snapshot is an argument.
unfoldable pub save : Replacing → Result Text → Option Text → Option Error × Option Text
save io encoded file = replace_text io encoded file

-- `postTime` of filter.go
unfoldable pub post_time : Database.Post → Time
post_time p = if p.published_at.valid then p.published_at.time else p.created_at

-- The comparison of `mergePosts`: a post may stand before those that are not newer.
abbrev pub newer_first : Database.Post → Database.Post → Bool
newer_first a b = leb (post_time b) (post_time a)

-- The map `at`, from the identifier of a post to its place.
abbrev pub Places : Type 0
Places = Uuid → Option ℕ

abbrev pub place : Uuid → ℕ → Places → Places
place id i at j = if id == j then some i else at j

-- The loop that fills `at`.
unfoldable pub index_posts : ℕ → List Database.Post → Places → Places
index_posts i [] at = at
index_posts i (p ∷ ps) at = index_posts (suc i) ps (place p.id i at)

-- The loop over the new posts.
abbrev pub put_post : Option ℕ → Database.Post → List Database.Post → List Database.Post
put_post (some i) p merged = set merged i p
put_post none p merged = merged ++ p ∷ []

abbrev pub placed : Option ℕ → Database.Post → List Database.Post → Places → Places
placed (some i) p merged at = at
placed none p merged at = place p.id (length merged) at

unfoldable pub merge_loop : List Database.Post → List Database.Post → Places → List Database.Post
merge_loop [] merged at = merged
merge_loop (p ∷ ps) merged at =
    merge_loop ps (put_post (at p.id) p merged) (placed (at p.id) p merged at)

-- `mergePosts`
unfoldable pub merge_posts : List Database.Post → Snapshot → Snapshot
merge_posts posts snap =
    let merged = to_posts snap.posts in
    let merged' = merge_loop posts merged (index_posts 0 merged (λ _. none)) in
    let sorted = sort_stable newer_first merged' in
    record snap {
      posts = from_posts (if ltb max_posts (length sorted) then take max_posts sorted else sorted);
    }

-- `slices.DeleteFunc` of one identifier.
abbrev pub delete_id : Uuid → List Uuid → List Uuid
delete_id id ids = keep (λ x. not (x == id)) ids

-- The loop of `countUnread`, from its first count on.
unfoldable pub bump : Uuid → ℤ → List UnreadCount → List UnreadCount
bump feed delta [] =
    if is_positive delta then record { feed_id = feed; unread = delta } ∷ [] else []
bump feed delta (u ∷ us) =
    if u.feed_id == feed
    then record u { unread = at_least_zero (int64 (u.unread +ℤ delta)) } ∷ us
    else u ∷ bump feed delta us

abbrev pub bump_for : Option Wire.Post → ℤ → List UnreadCount → List UnreadCount
bump_for none delta us = us
bump_for (some p) delta us = bump p.feed_id delta us

-- `countUnread`
unfoldable pub count_unread : Uuid → ℤ → Snapshot → Snapshot
count_unread id delta snap = record snap {
  unread = bump_for (find? (λ p. p.id == id) snap.posts) delta snap.unread;
}

-- `setRead`
unfoldable pub set_read : Uuid → Bool → Snapshot → Snapshot
set_read id read snap =
    let had = contains snap.read id in
    if read && not had
    then count_unread id (negsuc 0) (record snap { read = snap.read ++ id ∷ [] })
    else if not read && had
    then count_unread id (pos 1) (record snap { read = delete_id id snap.read })
    else snap

abbrev pub append_found : Option Wire.Post → List Wire.Post → List Wire.Post
append_found none ps = ps
append_found (some p) ps = ps ++ p ∷ []

-- `setSaved`
unfoldable pub set_saved : Uuid → Bool → Snapshot → Snapshot
set_saved id saved snap =
    let had = contains snap.saved id in
    if saved && not had
    then record snap {
      saved = snap.saved ++ id ∷ [];
      bookmarked = append_found (find? (λ p. p.id == id) snap.posts) snap.bookmarked;
    }
    else if not saved && had
    then record snap {
      saved = delete_id id snap.saved;
      bookmarked = keep (λ p. not (p.id == id)) snap.bookmarked;
    }
    else snap

-- The loop of `read_all`.
unfoldable pub set_all_read : List Uuid → Snapshot → Snapshot
set_all_read [] snap = snap
set_all_read (id ∷ ids) snap = set_all_read ids (set_read id true snap)

-- The loop of `categorize`.
unfoldable pub categorize : Text → Text → List Subscription → List Subscription
categorize url category [] = []
categorize url category (s ∷ subs) =
    (if text_eq s.feed_url url then record s { category = category } else s)
    ∷ categorize url category subs

-- `apply`
unfoldable pub apply : Change → Snapshot → Snapshot
apply c snap =
    if text_eq c.op op_read
    then set_read c.post_id c.value snap
    else if text_eq c.op op_read_all
    then set_all_read c.post_ids snap
    else if text_eq c.op op_bookmark
    then set_saved c.post_id c.value snap
    else if text_eq c.op op_categorize
    then record snap { subs = categorize c.url c.category snap.subs }
    else snap
