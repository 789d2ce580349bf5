-- ===== src/Offline/Store/Answers.antt =====
-- What the offline store takes for an answer of the server, and what it does without one
-- (internal/store/offline/offline.go).
use gator_cli.Prelude.{
  ℕ, ◌<◌, ◌≡◌, refl, ap, sym, ◌∙◌, ◌==◌, Bool, true, false, if◌then◌else◌, Option, none, some, List,
  [], ◌∷◌, ◌++◌, Text, length, contains, is_some,
}
use gator_cli.Database.{Uuid, Time}
use gator_cli.Store.{Error, error_is, unreachable}
use gator_cli.Offline.Changes.{Change, blank, op_read}
use gator_cli.Offline.Queue
use gator_cli.Offline.Queue.{Queue, max_queued}
use gator_cli.Offline.Queue.Bounds.{add_room}
use gator_cli.Offline.Cache.{Snapshot}
use gator_cli.Offline.Cache.Marks.{Marks, marks, mean, marks-apply}
use gator_cli.Offline.Store.{Inner, Machine, State, drain, answered, save_cache, enqueued, enqueue}
use gator_cli.Offline.Store.Calls.{Answer, read_through, write_through, set_read, read_ids}

module _ {W : Type 0} (inner : Inner W) (machine : Machine W) (server : Text) where
  -- An error of a cancelled call says nothing of the server. Otherwise the call has reached it unless
  -- the error says that it could not be reached, the store is online just then, and after a call
  -- without an error the queue is sent.
  pub answered_lem :
      (e : Option Error) (s : State W)
      → (machine.cancelled s.world ≡ true → answered inner machine server e s ≡ (true, s))
        × (machine.cancelled s.world ≡ false
            → error_is e unreachable ≡ true
            → answered inner machine server e s ≡ (false, record s { online = false }))
        × (machine.cancelled s.world ≡ false
            → error_is e unreachable ≡ false
            → is_some e ≡ true
            → answered inner machine server e s ≡ (true, record s { online = true }))
        × (machine.cancelled s.world ≡ false
            → is_some e ≡ false
            → answered inner machine server e s
              ≡ (true, (drain inner machine server (record s { online = true })).1))
  unfolding answered
  answered_lem none s = (λ h. rw h refl, λ h k. cc, λ h k l. cc, λ h k. rw h refl)
  answered_lem (some e) s =
      (λ h. rw h refl, λ h k. rw (h, k) refl, λ h k l. rw (h, k) refl, λ h k. cc)

  -- A method that reads and does not reach the server answers from the cache, and the store is as it was
  -- but for being offline.
  pub read_through_offline :
      {A : Type 0} (a zero_value : A) (e : Option Error) (w : W) (store : A → Snapshot → Snapshot)
      (cached : Snapshot → A × Option Error) (s : State W)
      → machine.cancelled w ≡ false
      → error_is e unreachable ≡ true
      → read_through inner machine server (a, e, w) zero_value store cached s
        ≡ (cached s.snap, record s { online = false; world = w })
  unfolding read_through
  read_through_offline a zero_value e w store cached s go off =
      rw ((answered_lem e (record s { world = w })).1 go off) refl

  -- A method that writes and does not reach the server hands its change to the queue.
  pub write_through_offline :
      (e : Option Error) (w : W) (change : Time → Change) (s : State W)
      → machine.cancelled w ≡ false
      → error_is e unreachable ≡ true
      → write_through inner machine server (e, w) change s
        ≡ enqueue inner machine server
            (change (machine.now w))
            (record s { online = false; world = w })
  unfolding write_through
  write_through_offline e w change s go off =
      rw ((answered_lem e (record s { world = w })).1 go off) refl

  -- What the end of `enqueue` does when it returns no error.
  pub enqueued_lem :
      (c : Change) (dropped : ℕ) (e : Option Error) (s : State W)
      → (enqueued inner machine server c dropped e s).0 ≡ none
      → (e ≡ none)
        × (marks (enqueued inner machine server c dropped e s).1.snap ≡ mean c (marks s.snap))
        × ((enqueued inner machine server c dropped e s).1.queue ≡ s.queue)
        × ((enqueued inner machine server c dropped e s).1.online ≡ s.online)
        × ((enqueued inner machine server c dropped e s).1.world ≡ (machine.saving s.world).1)
  unfolding enqueued save_cache
  enqueued_lem c dropped (some x) s h = cc
  enqueued_lem c dropped none s h = (refl, marks-apply c _ ∙ unfold marks in refl, refl, refl, refl)

  -- With room in the queue, a change that `enqueue` accepts is the last one of the queue, and the cache
  -- shows it.
  pub enqueue_lem :
      (c : Change) (s : State W)
      → length s.queue.pending < max_queued
      → (enqueue inner machine server c s).0 ≡ none
      → (marks (enqueue inner machine server c s).1.snap ≡ mean c (marks s.snap))
        × ((enqueue inner machine server c s).1.queue.pending ≡ s.queue.pending ++ c ∷ [])
        × ((enqueue inner machine server c s).1.online ≡ s.online)
        × ((enqueue inner machine server c s).1.world
            ≡ (machine.saving (machine.replacing (machine.appending s.world).1).1).1)
  unfolding enqueue
  enqueue_lem c s room done =
      let (a, w) = machine.appending s.world in
      let (r, w') = machine.replacing w in
      let added = Queue.add machine.codec a r c s.queue in
      let (accepted, shown, queue, online, world) =
        enqueued_lem c added.0 added.1 (record s { queue = added.2; world = w' }) done in
      (
        shown,
        ap (λ (q : Queue). q.pending) queue
            ∙ (add_room machine.codec a r c s.queue room).1 accepted,
        online,
        world,
      )

  abbrev read_change : Uuid → Bool → Time → Change
  read_change id read at = record (blank op_read at) { post_id = id; value = read }

  set_read_offline :
      (id : Uuid) (read : Bool) (s : State W)
      → machine.cancelled (inner.set_read id read s.world).1 ≡ false
      → error_is (inner.set_read id read s.world).0 unreachable ≡ true
      → set_read inner machine server id read s
        ≡ enqueue inner machine server
            (read_change id read (machine.now (inner.set_read id read s.world).1))
            (record s { online = false; world = (inner.set_read id read s.world).1 })
  unfolding set_read
  set_read_offline id read s go off =
      let (e, w) = inner.set_read id read s.world in
      write_through_offline e w (read_change id read) s go off

  read_ids_offline :
      (t : State W)
      → machine.cancelled (inner.read_ids t.world).2 ≡ false
      → error_is (inner.read_ids t.world).1 unreachable ≡ true
      → (read_ids inner machine server t).0.0 ≡ t.snap.read
  unfolding read_ids
  read_ids_offline t go off =
      let (ids, e, w) = inner.read_ids t.world in
      ap (λ (r : Answer inner machine server (List Uuid)). r.0.0)
        (read_through_offline ids [] e w (λ ids snap. record snap { read = ids })
          (λ snap. (snap.read, none)) t go off)

  -- If the queue has room, the calls are not cancelled and the change is saved, a post marked read
  -- or unread while the server is out of reach has that mark in the list of read posts asked for
  -- afterwards, still out of reach, and every other post has the mark it had.
  pub read_ids-set_read :
      (id : Uuid) (read : Bool) (s : State W)
      → length s.queue.pending < max_queued
      → machine.cancelled (inner.set_read id read s.world).1 ≡ false
      → error_is (inner.set_read id read s.world).0 unreachable ≡ true
      → (set_read inner machine server id read s).0 ≡ none
      → machine.cancelled (inner.read_ids (set_read inner machine server id read s).1.world).2
        ≡ false
      → error_is (inner.read_ids (set_read inner machine server id read s).1.world).1 unreachable
        ≡ true
      → (j : Uuid)
      → contains (read_ids inner machine server (set_read inner machine server id read s).1).0.0 j
        ≡ (if id == j then read else contains s.snap.read j)
  read_ids-set_read id read s room go off done go' off' j =
      let c = read_change id read (machine.now (inner.set_read id read s.world).1) in
      let s1 : State W = record s { online = false; world = (inner.set_read id read s.world).1 } in
      let queued = set_read_offline id read s go off in
      let (shown, pending, online, world) =
        enqueue_lem c s1 room (ap (λ (r : Option Error × State W). r.0) (sym queued) ∙ done) in
      ap (λ ids. contains ids j)
        (read_ids_offline (set_read inner machine server id read s).1 go' off')
      ∙ ap (λ (r : Option Error × State W). contains r.1.snap.read j) queued
      ∙ unfold marks in ap (λ (m : Marks). m.is_read j) shown
