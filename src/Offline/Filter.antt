-- ===== src/Offline/Filter.antt =====
-- internal/store/offline/filter.go: the query for posts, answered from the snapshot. What Go's
-- packages know of the machine and of Unicode is a parameter: the offset of the local time zone at
-- an instant, east and west of UTC, and the lower case and the case folding of a character.
pub mod Substrings
pub mod Selection
pub mod Digest
pub mod Pages
use gator_cli.Prelude.{
  ℕ, suc, ◌+◌, ◌-◌, ◌==◌, ltb, leb, if◌then◌else◌, Bool, true, false, not, ◌&&◌, ◌||◌, Option, none,
  some, List, [], ◌∷◌, ◌++◌, map, Text, text_eq, codes, length, take, drop, keep, contains,
  has_text, text_compare, Ordering, compare,
}
use gator_cli.Prelude.Int.{ℤ, pos, negsuc, is_positive, pos_part}
use gator_cli.Sorting.{sort_stable}
use gator_cli.Sorting.Comparisons.{not_greater, then_by}
use gator_cli.Database
use gator_cli.Database.{Uuid, Time, Subscription, nil_uuid}
use gator_cli.Wire.{to_posts}
use gator_cli.Store.{PostQuery, read_unread, read_only}
use gator_cli.Offline.Cache.{Snapshot, post_time, newer_first}

abbrev pub Post : Type 0
Post = Database.Post

pub record Locale : Type 0 where
  pub east : Time → ℕ
  pub west : Time → ℕ
  pub lower : ℕ → ℕ
  pub fold : ℕ → ℕ

abbrev pub Names : Type 0
Names = Uuid → Text

module _ (locale : Locale) where
  abbrev pub to_lower : Text → Text
  to_lower s = map locale.lower s

  -- `strings.EqualFold`
  abbrev pub equal_fold : Text → Text → Bool
  equal_fold s t = text_eq (map locale.fold s) (map locale.fold t)

  -- `wallClock`: the local date and clock of an instant, read as UTC.
  abbrev pub wall_clock : Time → Time
  wall_clock t = t + locale.east t - locale.west t

  -- The loop that fills `names`; a later subscription of one feed overwrites an earlier one.
  unfoldable pub feed_names : List Subscription → Names → Names
  feed_names [] names = names
  feed_names (s ∷ subs) names =
      feed_names subs (λ id. if s.feed_id == id then to_lower s.feed_name else names id)

  -- `mentions`
  unfoldable pub mentions : Post → Text → Bool
  mentions p needle =
      has_text (to_lower p.title) needle || has_text (to_lower p.description.string) needle

  -- The cases of the `switch` that skip a post.
  unfoldable pub skipped : PostQuery → (Uuid → Bool) → Names → Post → Bool
  skipped q read names p =
      (not (q.feed_id == nil_uuid) && not (p.feed_id == q.feed_id))
      || (not (text_eq (to_lower q.feed_name) [])
          && not (has_text (names p.feed_id) (to_lower q.feed_name)))
      || (not (text_eq (to_lower q.query) []) && not (mentions p (to_lower q.query)))
      || (text_eq q.read read_unread && read p.id)
      || (text_eq q.read read_only && not (read p.id))
      || (not (q.since == 0) && ltb (post_time p) (wall_clock q.since))

-- The comparison for `asc`.
abbrev pub older_first : Post → Post → Bool
older_first a b = leb (post_time a) (post_time b)

-- The loop that fills `fresh`: the newest time of each feed.
unfoldable pub freshest : List Post → (Uuid → Time) → Uuid → Time
freshest [] fresh = fresh
freshest (p ∷ ps) fresh = freshest ps (
    if ltb (fresh p.feed_id) (post_time p)
    then (λ id. if p.feed_id == id then post_time p else fresh id)
    else fresh)

-- The comparison of `digest`: the feeds by their newest post, then by name, then the posts by time.
abbrev pub digest_order : (Uuid → Time) → Names → Post → Post → Bool
digest_order fresh names a b = not_greater (
    then_by (compare (fresh b.feed_id) (fresh a.feed_id)) (
      then_by (text_compare (names a.feed_id) (names b.feed_id))
        (compare (post_time b) (post_time a))))

-- The loop over the sorted posts, with the map `seen`.
unfoldable pub keep_some : ℕ → List Post → (Uuid → ℕ) → List Post
keep_some per_feed [] seen = []
keep_some per_feed (p ∷ ps) seen =
    let more = keep_some per_feed ps (λ id. if p.feed_id == id then suc (seen id) else seen id) in
    let less = keep_some per_feed ps seen in
    if ltb (seen p.feed_id) per_feed then p ∷ more else less

-- `digest`
unfoldable pub digest : List Post → Names → ℕ → List Post
digest posts names per_feed =
    let fresh = freshest posts (λ id. 0) in
    keep_some per_feed (sort_stable (digest_order fresh names) posts) (λ id. 0)

-- The end of `selectPosts`: `none` where the slice expression panics, on a negative offset.
unfoldable pub window : ℤ → ℤ → List Post → Option (List Post)
window (negsuc n) limit out = none
window (pos n) limit out =
    if leb (length out) n
    then some []
    else (let rest = drop n out in
        some (
          if is_positive limit && ltb (pos_part limit) (length rest)
          then take (pos_part limit) rest
          else rest))

module _ (locale : Locale) where
  -- `out` when it is cut.
  unfoldable pub chosen : Snapshot → PostQuery → List Post
  chosen snap q =
      let names = feed_names locale snap.subs (λ id. []) in
      let out =
        keep (λ p. not (skipped locale q (contains snap.read) names p)) (to_posts snap.posts) in
      if is_positive q.per_feed
      then digest out names (pos_part q.per_feed)
      else if equal_fold locale q.sort_dir (codes "asc")
      then sort_stable older_first out
      else sort_stable newer_first out

  -- `selectPosts`
  unfoldable pub select_posts : Snapshot → PostQuery → Option (List Post)
  select_posts snap q = window q.offset q.limit (chosen snap q)
