-- ===== src/Offline/Queue/Bounds.antt =====
-- How many changes the queue holds, and which (internal/store/offline/queue.go).
use gator_cli.Prelude.{
  ◌<◌, ltb, false, some, ℕ, Text, min, ◌+◌, ◌-◌, ◌≤◌, ◌≡◌, refl, [], ◌∷◌, ◌++◌, none, arith, length,
  drop, length-append, length-drop, drop-append,
}
use gator_cli.Store.{Error, Result, ok, err}
use gator_cli.Files.{Replacing}
use gator_cli.Offline.Changes.{Change, Codec}
use gator_cli.Offline.Queue.{
  appended, open_fails, write_fails, close_fails, add_line, add_full, Queue, Appending, max_queued,
  add, sent, rewrite, remove_file, replace_file, append_line,
}

-- Without an error the change is behind the others, and it is in memory alone that nothing else moves.
pub pending-append_line :
    (a : Appending) (line : Text) (c : Change) (q : Queue)
    → (append_line a line c q).0 ≡ none
    → (append_line a line c q).1.pending ≡ q.pending ++ c ∷ []
unfolding append_line
pending-append_line a line c q h = ground arith

add_line_bound :
    (a : Appending) (line : Result Text) (c : Change) (q : Queue)
    → length (add_line a line c q).2.pending ≤ length q.pending + 1
unfolding add_line append_line
add_line_bound a (ok line) c q = ground (arith, length-append q.pending (c ∷ []))
add_line_bound a (err e) c q = omega arith

add_line_success :
    (a : Appending) (line : Result Text) (c : Change) (q : Queue)
    → (add_line a line c q).1 ≡ none
    → ((add_line a line c q).0 ≡ 0) × ((add_line a line c q).2.pending ≡ q.pending ++ c ∷ [])
unfolding add_line
add_line_success a (ok line) c q h = (refl, pending-append_line a line c q h)
add_line_success a (err e) c q h = cc

add_line_dropped :
    (a : Appending) (line : Result Text) (c : Change) (q : Queue) → (add_line a line c q).0 ≡ 0
unfolding add_line
add_line_dropped a (ok line) c q = refl
add_line_dropped a (err x) c q = refl

add_line_failed :
    (a : Appending) (line : Result Text) (c : Change) (q : Queue) {e : Error}
    → (add_line a line c q).1 ≡ some e
    → (add_line a line c q).2.pending ≡ q.pending
unfolding add_line append_line
add_line_failed appended (ok line) c q h = cc
add_line_failed (open_fails x) (ok line) c q h = refl
add_line_failed (write_fails n x) (ok line) c q h = refl
add_line_failed (close_fails x) (ok line) c q h = refl
add_line_failed a (err x) c q h = refl

module _ (codec : Codec) where
  -- Writing the file leaves what is in memory alone.
  pub pending-rewrite : (io : Replacing) (q : Queue) → (rewrite codec io q).1.pending ≡ q.pending
  unfolding rewrite remove_file replace_file
  pending-rewrite io q = ground arith

  pub pending-add_full :
      (r : Replacing) (c : Change) (q : Queue)
      → (add_full codec r c q).2.pending
        ≡ drop (length q.pending + 1 - max_queued) q.pending ++ c ∷ []
  unfolding add_full
  pending-add_full r c q = pending-rewrite r _

  length-add_full :
      (r : Replacing) (c : Change) (q : Queue)
      → max_queued ≤ length q.pending
      → length (add_full codec r c q).2.pending ≡ max_queued
  length-add_full r c q h =
      let n = length q.pending + 1 - max_queued in
      rw (pending-add_full r c q)
        (omega (arith, length-append (drop n q.pending) (c ∷ []), length-drop n q.pending))

  -- After add, with any outcome of the system calls, the queue holds at most 1000 changes, however
  -- many it held before.
  pub add_bound :
      (a : Appending) (r : Replacing) (c : Change) (q : Queue)
      → length (add codec a r c q).2.pending ≤ max_queued
  unfolding add
  add_bound a r c q = ground (arith, length-add_full r c q, add_line_bound a (codec.marshal c) c q)

  -- If add returns no error, the queue is the old one with the change at its end, less as many of
  -- the oldest changes as add reports, which is what exceeds 1000.
  pub add_success :
      (a : Appending) (r : Replacing) (c : Change) (q : Queue)
      → (add codec a r c q).1 ≡ none
      → ((add codec a r c q).0 ≡ length q.pending + 1 - max_queued)
        × ((add codec a r c q).2.pending ≡ drop (add codec a r c q).0 (q.pending ++ c ∷ []))
  unfolding add
  add_success a r c q h =
      let n = length q.pending + 1 - max_queued in
      let full : (add_full codec r c q).0 ≡ n = unfold add_full in refl in
      ground (
        arith,
        full,
        pending-add_full r c q,
        drop-append n q.pending (c ∷ []),
        add_line_success a (codec.marshal c) c q,
      )

  -- `sent n` takes the first n changes away, or all where there are fewer, whether or not the file
  -- can be written.
  pub pending-sent :
      (r : Replacing) (n : ℕ) (q : Queue)
      → (sent codec r n q).1.pending ≡ drop (min n (length q.pending)) q.pending
  unfolding sent
  pending-sent r n q = pending-rewrite r _

  -- With room in the queue, `add` drops nothing, and takes the change if and only if it returns no error.
  pub add_room :
      (a : Appending) (r : Replacing) (c : Change) (q : Queue)
      → length q.pending < max_queued
      → ((add codec a r c q).0 ≡ 0)
        × ((add codec a r c q).1 ≡ none → (add codec a r c q).2.pending ≡ q.pending ++ c ∷ [])
        × ((e : Error) → (add codec a r c q).1 ≡ some e → (add codec a r c q).2.pending ≡ q.pending)
  add_room a r c q room =
      let fits : ltb max_queued (length q.pending + 1) ≡ false = ground arith in
      unfold add in
      rw fits (
        add_line_dropped a (codec.marshal c) c q,
        λ h. (add_line_success a (codec.marshal c) c q h).1,
        λ e h. add_line_failed a (codec.marshal c) c q h,
      )
