-- ===== src/Offline/Store.antt =====
-- internal/store/offline/offline.go: the store in front of another one. The inner store, the context
-- and the file system are functions of a world `W`, so each call may depend on all before it. The
-- mutex makes each of its sections atomic; here the sections of one call follow one another.
pub mod Calls
pub mod Flush
pub mod Answers
pub mod Coherence
use gator_cli.Prelude.{
  ℕ, ◌+◌, Bool, true, false, not, ◌&&◌, ◌||◌, if◌then◌else◌, Option, none, some, List, [], ◌∷◌,
  ◌++◌, Text, text_eq, codes, length, is_some,
}
use gator_cli.Prelude.Int.{ℤ, pos, ◌+ℤ◌, int64}
use gator_cli.Database.{Uuid, Time, User, Post, Feed, Subscription, UnreadCount, FeedStat, Follow}
use gator_cli.Store.{
  Error, Result, SyncState, PostQuery, error_is, wrap, unreachable, feed_not_found, not_followed,
}
use gator_cli.Files.{Replacing}
use gator_cli.Offline.Changes.{Change, Codec, op_read, op_read_all, op_bookmark, op_categorize}
use gator_cli.Offline.Queue
use gator_cli.Offline.Queue.{Queue, Appending}
use gator_cli.Offline.Cache.{Snapshot, apply, save}

-- What a call returns: Go's value and error, and the world after it.
abbrev pub Reply : Type 0 → Type 0 → Type 0
Reply W A = A × Option Error × W

-- The interface `store.Store`, as far as the offline store answers or queues its calls.
pub record Inner (W : Type 0) : Type 0 where
  pub me : W → Reply W User
  pub posts : PostQuery → W → Reply W (List Post)
  pub bookmarked_posts : W → Reply W (List Post)
  pub post_by_url : Text → W → Reply W Post
  pub bookmarked_ids : W → Reply W (List Uuid)
  pub read_ids : W → Reply W (List Uuid)
  pub unread_counts : W → Reply W (List UnreadCount)
  pub subscriptions : W → Reply W (List Subscription)
  pub set_read : Uuid → Bool → W → Option Error × W
  pub set_all_read : List Uuid → W → Option Error × W
  pub bookmark : Uuid → W → Reply W Bool
  pub unbookmark : Uuid → W → Option Error × W
  pub categorize : Text → Text → W → Reply W Feed
  pub full_text : Post → W → Reply W Text
  pub stats : Time → W → Reply W (List FeedStat)
  pub add_feed : Text → Text → W → Reply W (Feed × Bool)
  pub follow_url : Text → W → Reply W (Follow × Bool)
  pub unfollow_url : Text → W → Reply W Feed
  pub unfollow : Uuid → W → Option Error × W

-- The context, the clock, the file system and the codecs.
pub record Machine (W : Type 0) : Type 0 where
  pub cancelled : W → Bool
  pub now : W → Time
  pub appending : W → Appending × W
  pub replacing : W → Replacing × W
  pub saving : W → Replacing × W
  pub codec : Codec
  pub encode : Snapshot → Result Text

-- The fields of `Store` that change, with its two files and the world.
pub record State (W : Type 0) : Type 0 where
  pub snap : Snapshot
  pub queue : Queue
  pub online : Bool
  pub flushing : Bool
  pub cache_file : Option Text
  pub world : W

-- `gone`: the server will never take the change.
abbrev pub gone : Option Error → Bool
gone e = error_is e feed_not_found || error_is e not_followed

abbrev pub has_pending : List Change → Bool
has_pending [] = false
has_pending (c ∷ cs) = true

module _ {W : Type 0} (inner : Inner W) (machine : Machine W) (server : Text) where
  -- `send`
  unfoldable pub send : Change → W → Option Error × W
  send c w =
      if text_eq c.op op_read
      then inner.set_read c.post_id c.value w
      else if text_eq c.op op_read_all
      then inner.set_all_read c.post_ids w
      else if text_eq c.op op_bookmark
      then (if not c.value
          then inner.unbookmark c.post_id w
          else (let (created, e, w') = inner.bookmark c.post_id w in (e, w')))
      else if text_eq c.op op_categorize
      then (let (feed, e, w') = inner.categorize c.url c.category w in (e, w'))
      else (none, w)

  -- The loop of `flush`, with the number of changes that are done with.
  unfoldable pub flush_loop : List Change → ℕ → State W → ℕ × State W
  flush_loop [] done s = (done, s)
  flush_loop (c ∷ cs) done s =
      let (e, w) = send c s.world in
      let s' : State W = record s { world = w } in
      let rest = flush_loop cs (done + 1) s' in
      if machine.cancelled s.world
      then (done, s)
      else if is_some e && not (gone e)
      then (done, if error_is e unreachable then record s' { online = false } else s')
      else rest

  -- `flush`
  unfoldable pub flush : State W → ℕ × State W
  flush s =
      let (done, s') = flush_loop s.queue.pending 0 s in
      let (io, w) = machine.replacing s'.world in
      let (e, queue) = Queue.sent machine.codec io done s'.queue in
      (done, record s' { queue = queue; world = w })

  -- `drain`
  unfoldable pub drain : State W → ℕ × State W
  drain s =
      let owed = has_pending s.queue.pending && not s.flushing in
      let s' : State W = record s { flushing = s.flushing || owed } in
      let (done, s'') = flush s' in
      if owed then (done, record s'' { flushing = false }) else (0, s')

  -- `answered`
  unfoldable pub answered : Option Error → State W → Bool × State W
  answered e s =
      if machine.cancelled s.world
      then (true, s)
      else (let reached = not (error_is e unreachable) in
          let s' : State W = record s { online = reached } in
          (reached, if reached && not (is_some e) then (drain s').1 else s'))

  -- `s.snap.save(s.path)`, whose error is dropped.
  unfoldable pub save_cache : State W → State W
  save_cache s =
      let (io, w) = machine.saving s.world in
      record s { cache_file = (save io (machine.encode s.snap) s.cache_file).1; world = w }

  -- `enqueue`, after the queue has taken the change.
  unfoldable pub enqueued : Change → ℕ → Option Error → State W → Option Error × State W
  enqueued c dropped (some e) s =
      (some (wrap (codes "saving that change until " ++ server ++ codes " answers: ") e), s)
  enqueued c dropped none s =
      let snap : Snapshot = record s.snap { dropped = int64 (s.snap.dropped +ℤ pos dropped) } in
      (none, save_cache (record s { snap = apply c snap }))

  -- `enqueue`
  unfoldable pub enqueue : Change → State W → Option Error × State W
  enqueue c s =
      let (appending, w) = machine.appending s.world in
      let (replacing, w') = machine.replacing w in
      let (dropped, e, queue) = Queue.add machine.codec appending replacing c s.queue in
      enqueued c dropped e (record s { queue = queue; world = w' })

  -- `update`
  unfoldable pub update : (Snapshot → Snapshot) → State W → State W
  update f s =
      let snap : Snapshot = f s.snap in
      save_cache
        (record s { snap = record snap { server = server; synced_at = machine.now s.world } })

  -- `State`
  unfoldable pub sync_state : State W → SyncState
  sync_state s = record {
    online = s.online;
    last_sync = s.snap.synced_at;
    pending = length s.queue.pending;
    dropped = s.snap.dropped;
  }
