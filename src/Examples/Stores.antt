-- ===== src/Examples/Stores.antt =====
-- Runs of the store of internal/store/offline/offline.go.
use gator_cli.Prelude.{
  ◌≤◌, ◌≡◌, refl, ap, ◌==◌, true, false, if◌then◌else◌, none, [], ◌∷◌, ◌++◌, arith, length, take,
  contains,
}
use gator_cli.Store.{error_is, unreachable}
use gator_cli.Database.{Time}
use gator_cli.Offline.Changes.{Change, blank, op_read}
use gator_cli.Offline.Queue.{add, add_line, append_line}
use gator_cli.Offline.Cache.{fresh, save}
use gator_cli.Offline.Cache.Marks.{Marks}
use gator_cli.Offline.Store.{State, flush, answered, enqueue, enqueued, save_cache}
use gator_cli.Offline.Store.Calls.{set_read, read_ids, write_through}
use gator_cli.Offline.Store.Flush.{Sends, flush_lem}
use gator_cli.Offline.Store.Answers.{read_ids-set_read}
use gator_cli.Examples.Server.{World, inner, machine, server, no_answer, answer}

abbrev reading : Time → Change
reading at = record (blank op_read at) { post_id = 7; value = true }

abbrev unmarked : Marks
unmarked = record { is_read = contains []; is_saved = contains [] }

-- The server answers, and one change waits for it.
abbrev waiting : State World
waiting = record {
  snap = record (fresh server) { read = 7 ∷ [] };
  queue = record { pending = reading 60 ∷ []; file = none };
  online = true;
  flushing = false;
  cache_file = none;
  world = record { shown = unmarked; up = true };
}

abbrev down : World
down = record { shown = unmarked; up = false }

-- The server does not answer, and nothing waits for it.
abbrev away : State World
away = record {
  snap = fresh server;
  queue = record { pending = []; file = none };
  online = true;
  flushing = false;
  cache_file = none;
  world = down;
}

flush_lem_example :
    (w : World) × Sends inner machine server waiting.queue.pending waiting.world
      (flush inner machine server waiting).0
      w
    × ((flush inner machine server waiting).0 ≤ length waiting.queue.pending)
    × (waiting.queue.pending
        ≡ take (flush inner machine server waiting).0 waiting.queue.pending
          ++ (flush inner machine server waiting).1.queue.pending)
flush_lem_example = flush_lem inner machine server waiting

set_read_kept : (set_read inner machine server 7 true away).0 ≡ none
unfolding set_read write_through answered enqueue enqueued add add_line append_line
set_read_kept = refl

still_down : answer (set_read inner machine server 7 true away).1.world ≡ no_answer
unfolding set_read write_through answered enqueue enqueued add add_line append_line save_cache save
still_down = refl

read_ids-set_read_example :
    contains (read_ids inner machine server (set_read inner machine server 7 true away).1).0.0 7
    ≡ (if 7 == 7 then true else contains away.snap.read 7)
read_ids-set_read_example =
    read_ids-set_read inner machine server 7 true away (omega arith) refl refl set_read_kept refl
      (ap (λ e. error_is e unreachable) still_down) 7
