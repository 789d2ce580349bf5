-- ===== src/Offline/Store/Coherence.antt =====
-- The cache against the server (internal/store/offline/offline.go): what the cache shows, and what the
-- server will have once the changes of the queue are sent.
pub mod Replay
use gator_cli.Prelude.{
  ℕ, suc, ◌+◌, ◌-◌, ◌≤◌, ◌≡◌, refl, ap, sym, ◌∙◌, ◌⊎◌, inl, inr, Bool, true, not, ◌&&◌, ◌||◌,
  if◌then◌else◌, Option, some, List, Text, arith, length, take, drop, min, Bool-cases, is_some,
}
use gator_cli.Database.{Uuid}
use gator_cli.Store.{Error, error_is, unreachable}
use gator_cli.Offline.Changes.{Change}
use gator_cli.Offline.Queue
use gator_cli.Offline.Queue.{Queue}
use gator_cli.Offline.Queue.Bounds.{pending-sent, add_room}
use gator_cli.Offline.Cache.{Snapshot, apply}
use gator_cli.Offline.Cache.Marks.{Marks, marks, mean, marks-apply}
use gator_cli.Offline.Store.{
  Inner, Machine, State, gone, send, flush_loop, flush, has_pending, drain, answered, save_cache,
  enqueued,
}
use gator_cli.Offline.Store.Flush.{
  done_with, Sends, all_sent, cancelled_before, failed_at, sent_one, flush_loop-Sends, Sends-le,
}
use gator_cli.Offline.Store.Coherence.Replay.{replay, mean_idem}

module _ {W : Type 0} (inner : Inner W) (machine : Machine W) (server : Text)
    (view : W → Marks) where
  -- What the sets of posts read and saved on the server have to do with the calls: a change that is
  -- done with has its meaning (one that the server refuses for good has none for these sets), one
  -- that fails may or may not have been applied, and file calls do not reach the server.
  pub record Serves : Type 0 where
    pub takes :
        (c : Change) (w : W)
        → done_with (send inner machine server c w).0 ≡ true
        → view (send inner machine server c w).1 ≡ mean c (view w)
    pub fails :
        (c : Change) (w : W)
        → (view (send inner machine server c w).1 ≡ view w)
          ⊎ (view (send inner machine server c w).1 ≡ mean c (view w))
    pub appends : (w : W) → view (machine.appending w).1 ≡ view w
    pub replaces : (w : W) → view (machine.replacing w).1 ≡ view w
    pub saves : (w : W) → view (machine.saving w).1 ≡ view w

  -- The cache shows what the server will have once the queue is sent.
  abbrev pub IsCoherent : State W → Type 0
  IsCoherent s = marks s.snap ≡ replay s.queue.pending (view s.world)

  module _ (serves : Serves) where
    replay-Sends :
        {cs : List Change} {w w' : W} {n : ℕ}
        → Sends inner machine server cs w n w'
        → replay cs (view w) ≡ replay (drop n cs) (view w')
    unfolding replay
    replay-Sends (all_sent w) = refl
    replay-Sends (cancelled_before c cs w h) = refl
    replay-Sends (failed_at c cs w h k) = elim (serves.fails c w) [
      | inl same ↦ ap (λ m. replay cs (mean c m)) (sym same)
      | inr applied ↦ ap (replay cs) (sym (ap (mean c) applied ∙ mean_idem c (view w)))
    ]
    replay-Sends (sent_one c cs w w' n h k rest) =
        ap (replay cs) (sym (serves.takes c w k)) ∙ replay-Sends rest

    pub flush-IsCoherent :
        (s : State W) → IsCoherent s → IsCoherent (flush inner machine server s).1
    unfolding flush
    flush-IsCoherent s h =
        let r = flush_loop inner machine server s.queue.pending 0 s in
        let (n, count, sends, same) = flush_loop-Sends inner machine server s.queue.pending 0 s in
        let taken : r.0 ≡ n = omega (arith, count) in
        let bound : n ≤ length s.queue.pending = Sends-le inner machine server sends in
        let io = (machine.replacing r.1.world).0 in
        let left : (Queue.sent machine.codec io r.0 r.1.queue).1.pending ≡ drop n s.queue.pending =
          pending-sent machine.codec io r.0 r.1.queue
          ∙ ap (λ (q : Queue). drop (min r.0 (length q.pending)) q.pending) same.queue
          ∙ ap (λ k. drop k s.queue.pending) (omega (arith, taken, bound)) in
        ap marks same.snap
        ∙ h
        ∙ replay-Sends sends
        ∙ ap (replay (drop n s.queue.pending)) (sym (serves.replaces r.1.world))
        ∙ ap (λ cs. replay cs (view (machine.replacing r.1.world).1)) (sym left)

    drain-IsCoherent : (s : State W) → IsCoherent s → IsCoherent (drain inner machine server s).1
    unfolding drain
    drain-IsCoherent s h = elim (Bool-cases (has_pending s.queue.pending && not s.flushing)) [
      | inl owed ↦ rw owed (flush-IsCoherent (record s { flushing = s.flushing || true }) h)
      | inr idle ↦ rw idle h
    ]

    pub answered-IsCoherent :
        (e : Option Error) (s : State W)
        → IsCoherent s
        → IsCoherent (answered inner machine server e s).1
    unfolding answered
    answered-IsCoherent e s h =
        ground (arith, drain-IsCoherent (record s { online = not (error_is e unreachable) }) h)
