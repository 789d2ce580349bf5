-- ===== src/Offline/Changes.antt =====
-- The changes of internal/store/offline/queue.go.
use gator_cli.Prelude.{
  ℕ, ◌≡◌, Bool, false, List, [], Option, some, Text, codes, text_eq, trim_space, ◌==◌, All,
}
use gator_cli.Database.{Uuid, Time}
use gator_cli.Store.{Result, ok}

abbrev pub op_read : Text
op_read = codes "read"

abbrev pub op_read_all : Text
op_read_all = codes "read_all"

abbrev pub op_bookmark : Text
op_bookmark = codes "bookmark"

abbrev pub op_categorize : Text
op_categorize = codes "categorize"

pub record Change : Type 0 where
  pub op : Text
  pub post_id : Uuid
  pub post_ids : List Uuid
  pub value : Bool
  pub url : Text
  pub category : Text
  pub at : Time

-- The zero value of the struct with the operation and the time set.
abbrev pub blank : Text → Time → Change
blank op at = record {
  op = op;
  post_id = 0;
  post_ids = [];
  value = false;
  url = [];
  category = [];
  at = at;
}

abbrev pub HasOp : Change → Type 0
HasOp c = text_eq c.op [] ≡ false

abbrev pub newline : ℕ
newline = 10

abbrev pub Lacks : ℕ → Text → Type 0
Lacks sep s = All (λ c. (c == sep) ≡ false) s

-- encoding/json on a change: `json.Marshal`, which can fail, and `json.Unmarshal` of one line.
pub record Codec : Type 0 where
  pub marshal : Change → Result Text
  pub unmarshal : Text → Option Change

-- What the queue relies on: an encoded change is one line with a visible character, and decodes to
-- the change.
pub record IsFaithful (codec : Codec) : Type 0 where
  pub decodes :
      (c : Change) (line : Text) → codec.marshal c ≡ ok line → codec.unmarshal line ≡ some c
  pub one_line : (c : Change) (line : Text) → codec.marshal c ≡ ok line → Lacks newline line
  pub visible :
      (c : Change) (line : Text) → codec.marshal c ≡ ok line → text_eq (trim_space line) [] ≡ false
