-- ===== src/Offline/Store/Calls.antt =====
-- The methods of the offline store (internal/store/offline/offline.go). Each asks the inner store
-- first; its reply, with the world after it, is the first argument of the combinators below.
pub mod Sync
use gator_cli.Prelude.{
  ℕ, ◌==◌, Bool, true, false, not, if◌then◌else◌, Option, none, some, List, [], ◌∷◌, ◌++◌, Text,
  text_eq, codes, find?, contains, length,
}
use gator_cli.Prelude.Int.{ℤ, pos}
use gator_cli.Database.{
  Uuid, Time, User, Post, Feed, Subscription, UnreadCount, FeedStat, Follow, no_user, no_post,
  no_feed,
}
use gator_cli.Wire.{from_user, to_user, from_posts, to_posts}
use gator_cli.Store.{Error, PostQuery, unreachable, never_synced, not_followed}
use gator_cli.Offline.Changes.{Change, blank, op_read, op_read_all, op_bookmark, op_categorize}
use gator_cli.Offline.Cache.{Snapshot, merge_posts}
use gator_cli.Offline.Filter.{Locale, select_posts}
use gator_cli.Offline.Store.{Reply, Inner, Machine, State, answered, enqueue, update}

abbrev pub text_never_synced : Text
text_never_synced = codes "never synced with the server"

abbrev pub text_unreachable : Text
text_unreachable = codes "cannot reach the server"

abbrev pub text_not_followed : Text
text_not_followed = codes "you do not follow that feed"

module _ {W : Type 0} (inner : Inner W) (machine : Machine W) (server : Text) where
  abbrev pub Answer : Type 0 → Type 0
  Answer A = (A × Option Error) × State W

  -- A reply that reached the server: an error is passed on, a value is kept.
  unfoldable pub fresh_answer :
      {A : Type 0} → A → A → Option Error → (A → Snapshot → Snapshot) → State W → Answer A
  fresh_answer zero_value a (some e) store s = ((zero_value, some e), s)
  fresh_answer zero_value a none store s = ((a, none), update inner machine server (store a) s)

  -- The pattern of the methods that read: ask, keep what came, and answer from the cache if nothing
  -- did.
  unfoldable pub read_through :
      {A : Type 0}
      → Reply W A
      → A
      → (A → Snapshot → Snapshot)
      → (Snapshot → A × Option Error)
      → State W
      → Answer A
  read_through (a, e, w) zero_value store cached s =
      let (reached, s') = answered inner machine server e (record s { world = w }) in
      if reached then fresh_answer zero_value a e store s' else (cached s'.snap, s')

  -- The pattern of the methods that need the network.
  unfoldable pub pass_through : {A : Type 0} → Reply W A → State W → Answer A
  pass_through (a, e, w) s =
      let (reached, s') = answered inner machine server e (record s { world = w }) in ((a, e), s')

  -- The pattern of the methods that write: ask, and keep the change if no answer came.
  unfoldable pub write_through :
      Option Error × W → (Time → Change) → State W → Option Error × State W
  write_through (e, w) change s =
      let (reached, s') = answered inner machine server e (record s { world = w }) in
      if reached then (e, s') else enqueue inner machine server (change (machine.now s'.world)) s'

  never_synced_error : Error
  never_synced_error = record {
    message =
        codes "never synced with "
        ++ (server ++ (codes ": " ++ (text_never_synced ++ (codes ": " ++ text_unreachable))));
    wraps = never_synced ∷ unreachable ∷ [];
  }

  unfoldable pub me : State W → Answer User
  unfolding never_synced_error
  me s =
      read_through (inner.me s.world) no_user
        (λ user snap. record snap { user = some (from_user user) })
        (λ snap. elim snap.user [
          | none ↦ (no_user, some never_synced_error)
          | some u ↦ (to_user u, none)
        ])
        s

  -- `Posts`: where the cache is asked with a negative offset the program panics, and there is no value.
  unfoldable pub posts : Locale → PostQuery → State W → Answer (Option (List Post))
  posts locale q s =
      let (ps, e, w) = inner.posts q s.world in
      read_through (some ps, e, w) (some []) (λ _ snap. merge_posts ps snap)
        (λ snap. (select_posts locale snap q, none)) s

  unfoldable pub bookmarked_posts : State W → Answer (List Post)
  bookmarked_posts s =
      read_through (inner.bookmarked_posts s.world) []
        (λ ps snap. record snap { bookmarked = from_posts ps })
        (λ snap. (to_posts snap.bookmarked, none)) s

  abbrev pub cached_post : Text → Snapshot → Post × Option Error
  cached_post url snap =
      elim (find? (λ (p : Post). text_eq p.url url)
        (to_posts snap.posts ++ to_posts snap.bookmarked)) [
          | some p ↦ (p, none)
          | none ↦ (
            no_post,
            some (record {
              message = url ++ (codes " is not in the offline cache: " ++ text_unreachable);
              wraps = unreachable ∷ [];
            }),
          )
        ]

  unfoldable pub post_by_url : Text → State W → Answer Post
  post_by_url url s =
      read_through (inner.post_by_url url s.world) no_post (λ p snap. merge_posts (p ∷ []) snap)
        (cached_post url) s

  unfoldable pub bookmarked_ids : State W → Answer (List Uuid)
  bookmarked_ids s =
      read_through (inner.bookmarked_ids s.world) [] (λ ids snap. record snap { saved = ids })
        (λ snap. (snap.saved, none)) s

  unfoldable pub read_ids : State W → Answer (List Uuid)
  read_ids s =
      read_through (inner.read_ids s.world) [] (λ ids snap. record snap { read = ids })
        (λ snap. (snap.read, none)) s

  unfoldable pub unread_counts : State W → Answer (List UnreadCount)
  unread_counts s =
      read_through (inner.unread_counts s.world) [] (λ counts snap. record snap { unread = counts })
        (λ snap. (snap.unread, none)) s

  unfoldable pub subscriptions : State W → Answer (List Subscription)
  subscriptions s =
      read_through (inner.subscriptions s.world) [] (λ subs snap. record snap { subs = subs })
        (λ snap. (snap.subs, none)) s

  unfoldable pub set_read : Uuid → Bool → State W → Option Error × State W
  set_read id read s =
      write_through (inner.set_read id read s.world)
        (λ at. record (blank op_read at) { post_id = id; value = read }) s

  unfoldable pub set_all_read : List Uuid → State W → Option Error × State W
  set_all_read ids s =
      write_through (inner.set_all_read ids s.world)
        (λ at. record (blank op_read_all at) { post_ids = ids }) s

  unfoldable pub unbookmark : Uuid → State W → Option Error × State W
  unbookmark id s =
      write_through (inner.unbookmark id s.world)
        (λ at. record (blank op_bookmark at) { post_id = id }) s

  -- `Bookmark`: offline it is new if the cache did not have it.
  abbrev pub bookmark_answer : Bool → Option Error × State W → Answer Bool
  bookmark_answer saved (e, s) = elim e [
    | some x ↦ ((false, some x), s)
    | none ↦ ((not saved, none), s)
  ]

  unfoldable pub bookmark : Uuid → State W → Answer Bool
  bookmark id s =
      let (created, e, w) = inner.bookmark id s.world in
      let (reached, s') = answered inner machine server e (record s { world = w }) in
      if reached
      then ((created, e), s')
      else bookmark_answer (contains s'.snap.saved id) (
          enqueue inner machine server
            (record (blank op_bookmark (machine.now s'.world)) { post_id = id; value = true }) s')

  abbrev pub categorize_answer : Text → Subscription → Option Error × State W → Answer Feed
  categorize_answer url sub (e, s) = elim e [
    | some x ↦ ((no_feed, some x), s)
    | none ↦ ((record no_feed { id = sub.feed_id; name = sub.feed_name; url = url }, none), s)
  ]

  -- `Categorize` offline: a feed that the cache does not have is refused.
  unfoldable pub categorize_offline : Option Subscription → Text → Text → State W → Answer Feed
  categorize_offline none url category s = (
    (
      record no_feed { url = url; name = url },
      some (record {
        message = url ++ (codes ": " ++ text_not_followed);
        wraps = not_followed ∷ [];
      }),
    ),
    s,
  )
  categorize_offline (some sub) url category s = categorize_answer url sub (
      enqueue inner machine server
        (record (blank op_categorize (machine.now s.world)) { url = url; category = category }) s)

  unfoldable pub categorize : Text → Text → State W → Answer Feed
  categorize url category s =
      let (feed, e, w) = inner.categorize url category s.world in
      let (reached, s') = answered inner machine server e (record s { world = w }) in
      if reached
      then ((feed, e), s')
      else categorize_offline
          (find? (λ (sub : Subscription). text_eq sub.feed_url url) s'.snap.subs) url category s'

  -- The methods that are not queued, for they cannot be answered from the cache.
  unfoldable pub full_text : Post → State W → Answer Text
  full_text post s = pass_through (inner.full_text post s.world) s

  unfoldable pub stats : Time → State W → Answer (List FeedStat)
  stats since s = pass_through (inner.stats since s.world) s

  unfoldable pub add_feed : Text → Text → State W → Answer (Feed × Bool)
  add_feed name url s = pass_through (inner.add_feed name url s.world) s

  unfoldable pub follow_url : Text → State W → Answer (Follow × Bool)
  follow_url url s = pass_through (inner.follow_url url s.world) s

  unfoldable pub unfollow_url : Text → State W → Answer Feed
  unfollow_url url s = pass_through (inner.unfollow_url url s.world) s

  unfoldable pub unfollow : Uuid → State W → Option Error × State W
  unfollow id s =
      let (e, w) = inner.unfollow id s.world in
      let (reached, s') = answered inner machine server e (record s { world = w }) in (e, s')
