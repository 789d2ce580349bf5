-- ===== src/Offline/Queue/Durability.antt =====
-- What a restart finds of the queue (internal/store/offline/queue.go): the file, loaded again.
use mathlib.Core.Path.{subst, subst₂}
use gator_cli.Prelude.{
  ℕ, ltb, Bool-cases, inl, inr, ◌+◌, ◌-◌, min, ◌≡◌, refl, sym, [], ◌∷◌, ◌++◌, none, true, Text,
  length, drop, All, All-append, All-drop,
}
use gator_cli.Store.{Result, ok, err}
use gator_cli.Files.{Replacing, file_text}
use gator_cli.Offline.Changes.{Change, Codec, IsFaithful, HasOp}
use gator_cli.Offline.Queue.{
  Queue, Appending, appended, open_fails, write_fails, close_fails, max_queued, load_lines,
  load_queue, rewrite, append_line, add_line, add_full, add, sent,
}
use gator_cli.Offline.Queue.Bounds.{pending-rewrite}
use gator_cli.Offline.Queue.Sync.{
  Holds, IsInSync, reload, file-rewrite, load_lines-HasOp, append-Holds, encode_all-Holds,
}

module _ (codec : Codec) where
  module _ (faithful : IsFaithful codec) where
    rewrite-IsInSync :
        (io : Replacing) (q : Queue)
        → All HasOp q.pending
        → (rewrite codec io q).0 ≡ none
        → IsInSync codec (rewrite codec io q).1
    rewrite-IsInSync io q ops e =
        let (text, encoded, written) = file-rewrite codec io q.pending q.file e in
        subst₂ (Holds codec) (sym written) (sym (pending-rewrite codec io q))
          (encode_all-Holds codec faithful q.pending text ops encoded)

    HasOp-pending : (q : Queue) → IsInSync codec q → All HasOp q.pending
    HasOp-pending q h = subst (All HasOp) h.loaded (load_lines-HasOp codec h.lines)

    append_line-IsInSync :
        (a : Appending) (line : Text) (c : Change) (q : Queue)
        → codec.marshal c ≡ ok line
        → HasOp c
        → IsInSync codec q
        → (append_line a line c q).0 ≡ none
        → IsInSync codec (append_line a line c q).1
    unfolding append_line
    append_line-IsInSync appended line c q e op h done =
        append-Holds codec faithful (file_text q.file) line c q.pending e op h
    append_line-IsInSync (open_fails x) line c q e op h done = cc
    append_line-IsInSync (write_fails n x) line c q e op h done = cc
    append_line-IsInSync (close_fails x) line c q e op h done = cc

    add_full-IsInSync :
        (r : Replacing) (c : Change) (q : Queue)
        → HasOp c
        → IsInSync codec q
        → (add_full codec r c q).1 ≡ none
        → IsInSync codec (add_full codec r c q).2
    unfolding add_full
    add_full-IsInSync r c q op h done =
        let n = length q.pending + 1 - max_queued in
        rewrite-IsInSync r (record q { pending = drop n q.pending ++ c ∷ [] })
          (All-append HasOp (drop n q.pending) (c ∷ [])
            (All-drop HasOp n q.pending (HasOp-pending q h)) (op, tt))
          done

    add_line-IsInSync :
        (a : Appending) (line : Result Text) (c : Change) (q : Queue)
        → codec.marshal c ≡ line
        → HasOp c
        → IsInSync codec q
        → (add_line a line c q).1 ≡ none
        → IsInSync codec (add_line a line c q).2
    unfolding add_line
    add_line-IsInSync a (ok line) c q e op h done = append_line-IsInSync a line c q e op h done
    add_line-IsInSync a (err x) c q e op h done = cc

    pub add-IsInSync :
        (a : Appending) (r : Replacing) (c : Change) (q : Queue)
        → HasOp c
        → IsInSync codec q
        → (add codec a r c q).1 ≡ none
        → IsInSync codec (add codec a r c q).2
    unfolding add
    add-IsInSync a r c q op h done = elim (Bool-cases (ltb max_queued (length q.pending + 1))) [
      | inl full ↦ rw full (add_full-IsInSync r c q op h (rw full at done))
      | inr room ↦ rw room (add_line-IsInSync a (codec.marshal c) c q refl op h (rw room at done))
    ]

    pub sent-IsInSync :
        (r : Replacing) (n : ℕ) (q : Queue)
        → IsInSync codec q
        → (sent codec r n q).0 ≡ none
        → IsInSync codec (sent codec r n q).1
    unfolding sent
    sent-IsInSync r n q h done =
        let k = min n (length q.pending) in
        rewrite-IsInSync r (record q { pending = drop k q.pending })
          (All-drop HasOp k q.pending (HasOp-pending q h)) done

  -- One call of the queue that returns no error.
  pub data Step : Queue → Queue → Type 0 where
    adds :
        (a : Appending) (r : Replacing) (c : Change) (q : Queue)
        → HasOp c
        → (add codec a r c q).1 ≡ none
        → Step q (add codec a r c q).2
    sends :
        (r : Replacing) (n : ℕ) (q : Queue)
        → (sent codec r n q).0 ≡ none
        → Step q (sent codec r n q).1

  pub data Reach (q : Queue) : Queue → Type 0 where
    here : Reach q q
    next : {s t : Queue} → Reach q s → Step s t → Reach q t

  pub Step-IsInSync :
      IsFaithful codec → {s t : Queue} → Step s t → IsInSync codec s → IsInSync codec t
  Step-IsInSync f (adds a r c q op e) h = add-IsInSync f a r c q op h e
  Step-IsInSync f (sends r n q e) h = sent-IsInSync f r n q h e

  Reach-IsInSync :
      IsFaithful codec → {q t : Queue} → IsInSync codec q → Reach q t → IsInSync codec t
  Reach-IsInSync f h here = h
  Reach-IsInSync f h (next r s) = Step-IsInSync f s (Reach-IsInSync f h r)

-- With a codec that decodes what it encodes to one visible line, and from a queue in sync with its
-- file, after any sequence of calls of add and sent that return no error, loading the file gives
-- back the queue in memory.
pub reload_after_calls :
    (codec : Codec)
    → IsFaithful codec
    → (q t : Queue) → IsInSync codec q
    → Reach codec q t
    → (load_queue codec true t.file).pending ≡ t.pending
reload_after_calls codec f q t h r = reload codec t (Reach-IsInSync codec f h r)

-- A queue that starts with no file is in sync.
pub no_file-IsInSync : (codec : Codec) → IsInSync codec (load_queue codec true none)
unfolding load_queue load_lines
no_file-IsInSync codec = record { lines = []; finished = tt; written = refl; loaded = refl }
