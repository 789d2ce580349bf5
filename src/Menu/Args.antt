-- ===== src/Menu/Args.antt =====
-- internal/menu/args.go: the arguments on a line.
pub mod RoundTrip
pub mod Some
use gator_cli.Prelude.{
  ℕ, Bool, true, false, not, ◌||◌, ◌==◌, if◌then◌else◌, List, [], ◌∷◌, ◌++◌, Text, text_eq,
  is_space,
}

-- The variables of `SplitArgs`; a `quote` of 0 is none.
pub record Splitting : Type 0 where
  pub args : List Text
  pub cur : Text
  pub quote : ℕ
  pub quoted : Bool

abbrev pub double_quote : ℕ
double_quote = 34

abbrev pub single_quote : ℕ
single_quote = 39

abbrev pub blank : ℕ
blank = 32

-- `flush`
unfoldable pub flush_arg : Splitting → Splitting
flush_arg s =
    if not (text_eq s.cur []) || s.quoted
    then record s { args = s.args ++ s.cur ∷ []; cur = []; quoted = false }
    else s

-- The body of the loop.
unfoldable pub split_char : ℕ → Splitting → Splitting
unfolding flush_arg
split_char r s =
    if not (s.quote == 0)
    then (if r == s.quote then record s { quote = 0 } else record s { cur = s.cur ++ r ∷ [] })
    else if r == double_quote || r == single_quote
    then record s { quote = r; quoted = true }
    else if is_space r
    then flush_arg s
    else record s { cur = s.cur ++ r ∷ [] }

unfoldable pub split_chars : Text → Splitting → Splitting
split_chars [] s = s
split_chars (r ∷ line) s = split_chars line (split_char r s)

-- `SplitArgs`
unfoldable pub split_args : Text → List Text
split_args line =
    (flush_arg (split_chars line (record { args = []; cur = []; quote = 0; quoted = false }))).args
