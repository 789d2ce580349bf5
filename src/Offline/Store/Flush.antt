-- ===== src/Offline/Store/Flush.antt =====
-- Sending the queue (internal/store/offline/offline.go): which changes are sent, and which are left.
use mathlib.Core.Path.{subst}
use gator_cli.Prelude.{
  length-append, length-take, ℕ, zero, suc, ◌+◌, ◌≤◌, ◌≡◌, refl, ap, sym, ◌∙◌, Bool, true, false,
  not, ◌&&◌, if◌then◌else◌, Option, List, [], ◌∷◌, ◌++◌, Text, arith, length, take, drop,
  take-append-drop, min, Bool-cases, inl, inr, is_some,
}
use gator_cli.Store.{Error, error_is, unreachable}
use gator_cli.Offline.Changes.{Change}
use gator_cli.Offline.Queue.{Queue}
use gator_cli.Offline.Queue.Bounds.{pending-sent}
use gator_cli.Offline.Store.{
  Inner, Machine, State, gone, send, flush_loop, flush, has_pending, drain,
}

-- The server took the change, or will never take it.
abbrev pub done_with : Option Error → Bool
done_with e = not (is_some e && not (gone e))

module _ {W : Type 0} (inner : Inner W) (machine : Machine W) (server : Text) where
  -- The calls that reach the inner store in a pass over the queue: `Sends cs w n w'` says that from the
  -- world `w` the first n changes of `cs` are sent in order and done with, and that the pass ends at
  -- `w'`: at the end of the queue, before a change when the context is cancelled, or after a change
  -- whose error is worth another try.
  pub data Sends : List Change → W → ℕ → W → Type 0 where
    all_sent : (w : W) → Sends [] w zero w
    cancelled_before :
        (c : Change) (cs : List Change) (w : W)
        → machine.cancelled w ≡ true
        → Sends (c ∷ cs) w zero w
    failed_at :
        (c : Change) (cs : List Change) (w : W)
        → machine.cancelled w ≡ false
        → done_with (send inner machine server c w).0 ≡ false
        → Sends (c ∷ cs) w zero (send inner machine server c w).1
    sent_one :
        (c : Change) (cs : List Change) (w w' : W) (n : ℕ)
        → machine.cancelled w ≡ false
        → done_with (send inner machine server c w).0 ≡ true
        → Sends cs (send inner machine server c w).1 n w'
        → Sends (c ∷ cs) w (suc n) w'

  -- What the loop leaves alone.
  pub record SameStore (s t : State W) : Type 0 where
    pub snap : t.snap ≡ s.snap
    pub queue : t.queue ≡ s.queue
    pub flushing : t.flushing ≡ s.flushing
    pub cache_file : t.cache_file ≡ s.cache_file

  offline-SameStore :
      (b : Bool) (s : State W) (w : W)
      → SameStore s (if b then record s { online = false; world = w } else record s { world = w })
  offline-SameStore true s w = record {
    snap = refl;
    queue = refl;
    flushing = refl;
    cache_file = refl;
  }
  offline-SameStore false s w = record {
    snap = refl;
    queue = refl;
    flushing = refl;
    cache_file = refl;
  }

  world-offline :
      (b : Bool) (c : Change) (cs : List Change) (s : State W)
      → machine.cancelled s.world ≡ false
      → done_with (send inner machine server c s.world).0 ≡ false
      → let w = (send inner machine server c s.world).1 in
        Sends
          (c ∷ cs)
          s.world
          zero
          (if b then record s { online = false; world = w } else record s { world = w }).world
  world-offline true c cs s go again = failed_at c cs s.world go again
  world-offline false c cs s go again = failed_at c cs s.world go again

  pub Sends-le : {cs : List Change} {w w' : W} {n : ℕ} → Sends cs w n w' → n ≤ length cs
  Sends-le (all_sent w) = omega arith
  Sends-le (cancelled_before c cs w h) = omega arith
  Sends-le (failed_at c cs w h k) = omega arith
  Sends-le (sent_one c cs w w' n h k rest) = omega (arith, Sends-le rest)

  pub flush_loop-Sends :
      (cs : List Change) (done : ℕ) (s : State W)
      → (n : ℕ) × ((flush_loop inner machine server cs done s).0 ≡ done + n)
        × Sends cs s.world n (flush_loop inner machine server cs done s).1.world
        × SameStore s (flush_loop inner machine server cs done s).1
  unfolding flush_loop
  flush_loop-Sends [] done s = (
    0,
    omega arith,
    all_sent s.world,
    record { snap = refl; queue = refl; flushing = refl; cache_file = refl },
  )
  flush_loop-Sends (c ∷ cs) done s = elim (Bool-cases (machine.cancelled s.world)) [
    | inl stop ↦ rw stop (
      0,
      omega arith,
      cancelled_before c cs s.world stop,
      record { snap = refl; queue = refl; flushing = refl; cache_file = refl },
    )
    | inr go ↦
        rw go
          (elim (Bool-cases (
            is_some (send inner machine server c s.world).0
            && not (gone (send inner machine server c s.world).0))) [
              | inl again ↦ rw again (
                0,
                omega arith,
                world-offline (error_is (send inner machine server c s.world).0 unreachable) c cs s
                    go (rw again refl),
                offline-SameStore (error_is (send inner machine server c s.world).0 unreachable) s
                    (send inner machine server c s.world).1,
              )
              | inr fine ↦ rw fine (
                  let (n, count, sends, same) =
                    flush_loop-Sends cs (done + 1)
                      (record s { world = (send inner machine server c s.world).1 }) in
                  (
                    suc n,
                    omega (arith, count),
                    sent_one c cs s.world _ n go (rw fine refl) sends,
                    record {
                      snap = same.snap;
                      queue = same.queue;
                      flushing = same.flushing;
                      cache_file = same.cache_file;
                    },
                  ))
            ])
  ]

  -- A pass sends a prefix of the queue in order, each change once, and exactly the changes of that
  -- prefix leave the queue.
  pub flush_lem :
      (s : State W)
      → (w : W) × Sends s.queue.pending s.world (flush inner machine server s).0 w
        × ((flush inner machine server s).0 ≤ length s.queue.pending)
        × (s.queue.pending
            ≡ take (flush inner machine server s).0 s.queue.pending
              ++ (flush inner machine server s).1.queue.pending)
  unfolding flush
  flush_lem s =
      let r = flush_loop inner machine server s.queue.pending 0 s in
      let (n, count, sends, same) = flush_loop-Sends s.queue.pending 0 s in
      let taken : r.0 ≡ n = omega (arith, count) in
      let bound : r.0 ≤ length s.queue.pending = omega (arith, taken, Sends-le sends) in
      (
        r.1.world,
        subst (λ k. Sends s.queue.pending s.world k r.1.world) (sym taken) sends,
        bound,
        sym (
            ap (λ p. take r.0 s.queue.pending ++ p)
              (pending-sent machine.codec (machine.replacing r.1.world).0 r.0 r.1.queue
                ∙ ap (λ (q : Queue). drop (min r.0 (length q.pending)) q.pending) same.queue
                ∙ ap (λ k. drop k s.queue.pending) (omega (arith, bound)))
            ∙ take-append-drop r.0 s.queue.pending),
      )

  whole-Sends :
      ((w : W) → machine.cancelled w ≡ false)
      → ((c : Change) (w : W) → done_with (send inner machine server c w).0 ≡ true)
      → {cs : List Change} {w w' : W} {n : ℕ} → Sends cs w n w'
      → n ≡ length cs
  whole-Sends calm takes (all_sent w) = refl
  whole-Sends calm takes (cancelled_before c cs w h) = absurd (cc (calm w))
  whole-Sends calm takes (failed_at c cs w h k) = absurd (cc (takes c w))
  whole-Sends calm takes (sent_one c cs w w' n h k rest) = ap suc (whole-Sends calm takes rest)

  -- While the context is not cancelled and the server takes every change, or refuses it for good, one
  -- pass empties the queue.
  pub flush_empties :
      ((w : W) → machine.cancelled w ≡ false)
      → ((c : Change) (w : W) → done_with (send inner machine server c w).0 ≡ true)
      → (s : State W) → (flush inner machine server s).1.queue.pending ≡ []
  flush_empties calm takes s =
      let (w, sends, bound, split) = flush_lem s in
      let full : (flush inner machine server s).0 ≡ length s.queue.pending =
        whole-Sends calm takes sends in
      empty_rest _ _ (
        split
        ∙ ap (λ k. take k s.queue.pending ++ (flush inner machine server s).1.queue.pending) full)
    where
      empty_rest : (p rest : List Change) → p ≡ take (length p) p ++ rest → rest ≡ []
      empty_rest p rest e = none_left rest (
          omega (
            arith,
            ap (λ (l : List Change). length l) e,
            length-append (take (length p) p) rest,
            length-take (length p) p,
          ))
        where
          none_left : (l : List Change) → length l ≡ 0 → l ≡ []
          none_left [] h = refl
          none_left (c ∷ l) h = absurd (omega arith)

  flushing-flush : (s : State W) → (flush inner machine server s).1.flushing ≡ s.flushing
  unfolding flush
  flushing-flush s =
      let (n, count, sends, same) = flush_loop-Sends s.queue.pending 0 s in same.flushing

  -- A pass does not start while one is under way, and leaves no mark of its own behind: `drain` returns with
  -- the flag as it found it; with the flag set, or nothing to send, it sends nothing and changes nothing.
  pub drain_flushing :
      (s : State W)
      → ((drain inner machine server s).1.flushing ≡ s.flushing)
        × (s.flushing ≡ true → drain inner machine server s ≡ (0, s))
        × (has_pending s.queue.pending ≡ false → drain inner machine server s ≡ (0, s))
  unfolding drain
  drain_flushing s = (ground arith, λ h. ground arith, λ h. ground arith)
