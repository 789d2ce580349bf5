-- ===== src/Examples/Queues.antt =====
-- Runs of the queue of internal/store/offline/queue.go.
use gator_cli.Prelude.{
  arith, ap, suc, ℕ, zero, suc, ◌+◌, ◌-◌, ◌≤◌, ◌≡◌, refl, true, none, List, [], ◌∷◌, ◌++◌, length,
  drop,
}
use gator_cli.Files.{all_well, replace_text}
use gator_cli.Offline.Changes.{Change, blank, op_read}
use gator_cli.Offline.Queue.{
  Queue, appended, max_queued, add, sent, load_queue, add_line, add_full, rewrite, replace_file,
  encode_all, append_line,
}
use gator_cli.Offline.Queue.Bounds.{add_bound, add_success}
use gator_cli.Offline.Queue.Interleaved.{no_more, one_more, sent-Adds, sent-add_full}
use gator_cli.Offline.Queue.Durability.{here, next, adds, reload_after_calls, no_file-IsInSync}
use gator_cli.Examples.Codec.{encoded, field, codec, codec-IsFaithful}

abbrev reading : Change
reading = record (blank op_read 60) { post_id = 7; value = true }

abbrev copies : ℕ → List Change
copies zero = []
copies (suc n) = reading ∷ copies n

abbrev full_queue : Queue
full_queue = record { pending = copies 1000; file = none }

add_bound_example : length (add codec appended all_well reading full_queue).2.pending ≤ max_queued
add_bound_example = add_bound codec appended all_well reading full_queue

abbrev new_queue : Queue
new_queue = record { pending = reading ∷ []; file = none }

accepted : (add codec appended all_well reading new_queue).1 ≡ none
unfolding add add_line append_line
accepted = refl

add_success_example :
    ((add codec appended all_well reading new_queue).0 ≡ length new_queue.pending + 1 - max_queued)
    × ((add codec appended all_well reading new_queue).2.pending
        ≡ drop
            (add codec appended all_well reading new_queue).0
            (new_queue.pending ++ reading ∷ []))
add_success_example = add_success codec appended all_well reading new_queue accepted

abbrev first_queue : Queue
first_queue = load_queue codec true none

first_accepted : (add codec appended all_well reading first_queue).1 ≡ none
unfolding add add_line append_line load_queue
first_accepted = refl

abbrev second_queue : Queue
second_queue = (add codec appended all_well reading first_queue).2

reload_after_calls_example :
    (load_queue codec true second_queue.file).pending ≡ second_queue.pending
reload_after_calls_example =
    reload_after_calls codec codec-IsFaithful first_queue second_queue (no_file-IsInSync codec)
      (next here (adds appended all_well reading first_queue refl first_accepted))

abbrev later_change : Change
later_change = record (blank op_read 61) { post_id = 8; value = true }

abbrev grown : Queue
grown = (add codec appended all_well later_change new_queue).2

grows : (add codec appended all_well later_change new_queue).1 ≡ none
unfolding add add_line append_line
grows = refl

sent-Adds_example :
    (sent codec all_well 1 grown).1.pending ≡ drop 1 new_queue.pending ++ later_change ∷ []
sent-Adds_example =
    sent-Adds codec all_well 1 new_queue grown (later_change ∷ [])
      (one_more appended all_well later_change [] new_queue grown grows (no_more grown))
      (omega arith) (omega arith)

length-copies : (n : ℕ) → length (copies n) ≡ n
length-copies zero = refl
length-copies (suc n) = ap suc (length-copies n)

full_length : length (copies 1000) ≡ max_queued
full_length = length-copies 1000

full_accepted : (add codec appended all_well later_change full_queue).1 ≡ none
unfolding add add_full rewrite replace_file encode_all encoded field replace_text
full_accepted = refl

sent-add_full_example :
    (sent codec all_well 1 (add codec appended all_well later_change full_queue).2).1.pending
    ≡ drop 2 full_queue.pending ++ later_change ∷ []
sent-add_full_example =
    sent-add_full codec appended all_well all_well 1 later_change full_queue full_length
      (omega arith) full_accepted
