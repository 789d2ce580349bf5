-- ===== src/Offline/Queue.antt =====
-- internal/store/offline/queue.go. The queue's file is an optional text, and each system call of an
-- operation has an outcome that the environment chooses.
pub mod Bounds
pub mod Lines
pub mod Sync
pub mod Durability
pub mod Interleaved
use gator_cli.Prelude.{
  ℕ, zero, suc, ◌+◌, ◌-◌, ◌≤◌, min, Bool, true, false, List, [], ◌∷◌, ◌++◌, Option, none, some,
  Text, text_eq, trim_space, split_at, length, take, drop, ltb, if◌then◌else◌,
}
use gator_cli.Store.{Error, Result, ok, err, ◌>>=◌}
use gator_cli.Files.{Replacing, file_text, replace_text}
use gator_cli.Offline.Changes.{Change, Codec, newline}

abbrev pub max_queued : ℕ
max_queued = 1000

pub record Queue : Type 0 where
  pub pending : List Change
  pub file : Option Text

-- How the calls that append one line end. A failed write may leave a part of the line behind.
pub data Appending : Type 0 where
  appended : Appending
  open_fails : Error → Appending
  write_fails : ℕ → Error → Appending
  close_fails : Error → Appending

-- `rewrite` with nothing pending: a file that is not there is no error.
unfoldable pub remove_file : Replacing → Queue → Option Error × Queue
remove_file io q = elim q.file [
  | none ↦ (none, q)
  | some s ↦ elim io.removes [ none ↦ (none, record q { file = none }) | some e ↦ (some e, q) ]
]

abbrev is_empty : List Change → Bool
is_empty [] = true
is_empty (c ∷ cs) = false

-- The end of `add`: the line goes to the file, and then the change to memory.
unfoldable pub append_line : Appending → Text → Change → Queue → Option Error × Queue
append_line appended line c q = (
  none,
  record { pending = q.pending ++ c ∷ []; file = some (file_text q.file ++ line ++ newline ∷ []) },
)
append_line (open_fails e) line c q = (some e, q)
append_line (write_fails n e) line c q =
    (some e, record q { file = some (file_text q.file ++ take n (line ++ newline ∷ [])) })
append_line (close_fails e) line c q =
    (some e, record q { file = some (file_text q.file ++ line ++ newline ∷ []) })

-- The branch of `add` for a queue with room.
unfoldable pub add_line : Appending → Result Text → Change → Queue → ℕ × Option Error × Queue
add_line appending (err e) c q = (0, some e, q)
add_line appending (ok line) c q = let (e, q') = append_line appending line c q in (0, e, q')

module _ (codec : Codec) where
  -- The body of the loop of `loadQueue`: what a line holds, if it is kept.
  unfoldable pub kept_line : Text → Option Change
  kept_line line = if text_eq (trim_space line) [] then none else elim (codec.unmarshal line) [
    | none ↦ none
    | some c ↦ if text_eq c.op [] then none else some c
  ]

  abbrev pub prepend : Option Change → List Change → List Change
  prepend none cs = cs
  prepend (some c) cs = c ∷ cs

  unfoldable pub load_lines : List Text → List Change
  unfolding kept_line
  load_lines [] = []
  load_lines (line ∷ lines) = prepend (kept_line line) (load_lines lines)

  -- `loadQueue`; `readable` is false where `os.ReadFile` fails on a file that is there.
  unfoldable pub load_queue : Bool → Option Text → Queue
  unfolding load_lines
  load_queue readable none = record { pending = []; file = none }
  load_queue readable (some data') = record {
    pending = if readable then load_lines (split_at newline data') else [];
    file = some data';
  }

  -- The loop of `enc.Encode`: one line for each change.
  unfoldable pub encode_all : List Change → Result Text
  encode_all [] = ok []
  encode_all (c ∷ cs) = do line ← codec.marshal c; rest ← encode_all cs; ok (line ++ newline ∷ rest)

  -- `rewrite` otherwise: a temporary file takes the place of the old one, or nothing changes.
  unfoldable pub replace_file : Replacing → Queue → Option Error × Queue
  replace_file io q =
      let (e, file) = replace_text io (encode_all q.pending) q.file in (e, record q { file = file })

  unfoldable pub rewrite : Replacing → Queue → Option Error × Queue
  rewrite io q = if is_empty q.pending then remove_file io q else replace_file io q

  -- The branch of `add` for a full queue: the oldest changes give way, and the file is rewritten.
  unfoldable pub add_full : Replacing → Change → Queue → ℕ × Option Error × Queue
  add_full replacing c q =
      let dropped = length q.pending + 1 - max_queued in
      let (e, q') = rewrite replacing (record q { pending = drop dropped q.pending ++ c ∷ [] }) in
      (dropped, e, q')

  -- `add`: the number of changes that were dropped, the error, and the queue.
  unfoldable pub add : Appending → Replacing → Change → Queue → ℕ × Option Error × Queue
  add appending replacing c q =
      if ltb max_queued (length q.pending + 1)
      then add_full replacing c q
      else add_line appending (codec.marshal c) c q

  -- `sent`
  unfoldable pub sent : Replacing → ℕ → Queue → Option Error × Queue
  sent io n q = rewrite io (record q { pending = drop (min n (length q.pending)) q.pending })
