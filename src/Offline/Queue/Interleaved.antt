-- ===== src/Offline/Queue/Interleaved.antt =====
-- Changes that are queued while a pass is sending (internal/store/offline/offline.go): `flush` works on a
-- clone of the queue without the mutex, so calls of `add` can come before its call of `sent`.
use gator_cli.Prelude.{
  ℕ, suc, ◌+◌, ◌≤◌, ◌<◌, min, ◌≡◌, ap, sym, ◌∙◌, List, [], ◌∷◌, ◌++◌, append-nil, append_assoc,
  none, arith, length, drop, length-append, length-drop, drop-append, drop-drop,
}
use gator_cli.Files.{Replacing}
use gator_cli.Offline.Changes.{Change, Codec}
use gator_cli.Offline.Queue.{Queue, Appending, max_queued, add, sent}
use gator_cli.Offline.Queue.Bounds.{add_room, add_success, pending-sent}

one_behind : (n : ℕ) → 1 + n ≡ suc n
one_behind n = omega arith

module _ (codec : Codec) where
  -- Calls of `add` without an error, one after another.
  pub data Adds : Queue → List Change → Queue → Type 0 where
    no_more : (q : Queue) → Adds q [] q
    one_more :
        (a : Appending) (r : Replacing) (c : Change) (cs : List Change) (q t : Queue)
        → (add codec a r c q).1 ≡ none
        → Adds (add codec a r c q).2 cs t
        → Adds q (c ∷ cs) t

  pending-Adds :
      {q t : Queue} {cs : List Change}
      → Adds q cs t
      → length q.pending + length cs ≤ max_queued
      → t.pending ≡ q.pending ++ cs
  pending-Adds (no_more q) fits = sym (append-nil q.pending)
  pending-Adds (one_more a r c cs q t done rest) fits =
      let taken : (add codec a r c q).2.pending ≡ q.pending ++ c ∷ [] =
        (add_room codec a r c q (omega (arith, fits))).1 done in
      let longer : length (add codec a r c q).2.pending ≡ length q.pending + 1 =
        ap (λ (l : List Change). length l) taken ∙ length-append q.pending (c ∷ []) in
      pending-Adds rest (omega (arith, fits, longer))
      ∙ ap (λ l. l ++ cs) taken
      ∙ append_assoc q.pending (c ∷ []) cs

  -- Changes that are added without an error after a pass has cloned the queue, and before it cuts
  -- off the n changes it sent, are not lost: if old and new changes together fit in the queue, and
  -- n is at most the number of the old ones, what is left is the old changes from the n-th on and
  -- behind them the new ones.
  pub sent-Adds :
      (r : Replacing) (n : ℕ) (q t : Queue) (cs : List Change)
      → Adds q cs t
      → length q.pending + length cs ≤ max_queued
      → n ≤ length q.pending
      → (sent codec r n t).1.pending ≡ drop n q.pending ++ cs
  sent-Adds r n q t cs adds fits bound =
      let p = pending-Adds adds fits in
      let size : length t.pending ≡ length q.pending + length cs =
        ap (λ (l : List Change). length l) p ∙ length-append q.pending cs in
      let all : min n (length t.pending) ≡ n = omega (arith, size, bound) in
      pending-sent codec r n t
      ∙ ap (λ k. drop k t.pending) all
      ∙ ap (drop n) p
      ∙ drop-append n q.pending cs bound

  -- If the queue holds 1000 changes, a change is added without an error during a pass, and the
  -- pass then cuts off the n changes it sent, n below 1000, the queue has lost its first n + 1
  -- changes, so one that was not sent.
  pub sent-add_full :
      (a : Appending) (r r' : Replacing) (n : ℕ) (c : Change) (q : Queue)
      → length q.pending ≡ max_queued
      → n < max_queued
      → (add codec a r c q).1 ≡ none
      → (sent codec r' n (add codec a r c q).2).1.pending ≡ drop (suc n) q.pending ++ c ∷ []
  sent-add_full a r r' n c q full some_left done =
      let t = (add codec a r c q).2 in
      let (count, left) = add_success codec a r c q done in
      let one : (add codec a r c q).0 ≡ 1 = omega (arith, count, full) in
      let p : t.pending ≡ drop 1 q.pending ++ c ∷ [] =
        left
        ∙ ap (λ k. drop k (q.pending ++ c ∷ [])) one
        ∙ drop-append 1 q.pending (c ∷ []) (omega (arith, full)) in
      let cut : length (drop 1 q.pending) ≡ 999 = omega (arith, length-drop 1 q.pending, full) in
      let size : length t.pending ≡ 1000 =
        ap (λ (l : List Change). length l) p
        ∙ length-append (drop 1 q.pending) (c ∷ [])
        ∙ omega (arith, cut) in
      let all : min n (length t.pending) ≡ n = omega (arith, size, some_left) in
      pending-sent codec r' n t
      ∙ ap (λ k. drop k t.pending) all
      ∙ ap (drop n) p
      ∙ drop-append n (drop 1 q.pending) (c ∷ []) (omega (arith, cut, some_left))
      ∙ ap (λ l. l ++ c ∷ []) (drop-drop n 1 q.pending)
      ∙ ap (λ k. drop k q.pending ++ c ∷ []) (one_behind n)
