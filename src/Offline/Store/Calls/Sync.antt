-- ===== src/Offline/Store/Calls/Sync.antt =====
-- `Sync` of internal/store/offline/offline.go.
use gator_cli.Prelude.{if◌then◌else◌, Option, none, some, List, [], ◌∷◌, ◌++◌, Text, codes, length}
use gator_cli.Prelude.Int.{pos}
use gator_cli.Database.{nil_uuid, Subscription}
use gator_cli.Store.{Error, PostQuery, SyncResult, unreachable}
use gator_cli.Offline.Cache.{max_posts}
use gator_cli.Offline.Filter.{Locale}
use gator_cli.Offline.Store.{Inner, Machine, State, drain, sync_state, save_cache}
use gator_cli.Offline.Store.Calls.{
  Answer, me, posts, bookmarked_posts, bookmarked_ids, read_ids, unread_counts, subscriptions,
  text_unreachable,
}

-- `store.PostQuery{Limit: maxPosts}`
abbrev pub sync_query : PostQuery
sync_query = record {
  feed_id = nil_uuid;
  feed_name = [];
  query = [];
  read = [];
  since = 0;
  sort_dir = [];
  per_feed = pos 0;
  limit = pos max_posts;
  offset = pos 0;
}

module _ {W : Type 0} (inner : Inner W) (machine : Machine W) (server : Text) where
  -- `if err != nil { return res, err }`
  abbrev pub unless_failed :
      Option Error
      → SyncResult
      → State W
      → (State W → Answer inner machine server SyncResult)
      → Answer inner machine server SyncResult
  unless_failed (some e) res s next = ((res, some e), s)
  unless_failed none res s next = next s

  -- The end of `Sync`: the counts, and the report of what was dropped is cleared.
  unfoldable pub finish :
      SyncResult → List Subscription → State W → Answer inner machine server SyncResult
  finish res subs s =
      if s.online
      then (
        (record res { feeds = length subs; posts = length s.snap.posts }, none),
        save_cache inner machine server (record s { snap = record s.snap { dropped = pos 0 } }),
      )
      else (
        (
          res,
          some (record {
            message = codes "cannot reach " ++ (server ++ (codes ": " ++ text_unreachable));
            wraps = unreachable ∷ [];
          }),
        ),
        s,
      )

  unfoldable pub sync : Locale → State W → Answer inner machine server SyncResult
  sync locale s =
      let (sent, s0) = drain inner machine server s in
      let state = sync_state inner machine server s0 in
      let res : SyncResult = record {
        sent = sent;
        pending = state.pending;
        dropped = state.dropped;
        posts = 0;
        feeds = 0;
      } in
      let (user, s1) = me inner machine server s0 in
      unless_failed user.1 res s1 λ s1.
        let (subs, s2) = subscriptions inner machine server s1 in
        unless_failed subs.1 res s2 λ s2.
          let (listed, s3) = posts inner machine server locale sync_query s2 in
          unless_failed listed.1 res s3 λ s3.
            let (marked, s4) = bookmarked_posts inner machine server s3 in
            unless_failed marked.1 res s4 λ s4.
              let (saved, s5) = bookmarked_ids inner machine server s4 in
              unless_failed saved.1 res s5 λ s5.
                let (read, s6) = read_ids inner machine server s5 in
                unless_failed read.1 res s6 λ s6.
                  let (counts, s7) = unread_counts inner machine server s6 in
                  unless_failed counts.1 res s7 λ s7. finish res subs.0 s7
