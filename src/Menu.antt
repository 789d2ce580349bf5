-- ===== src/Menu.antt =====
-- internal/menu/menu.go: the menu that the program opens without a command. The list and the prompt of
-- bubbles are parameters, with their states, and so are keys and commands of bubbletea. Drawing is not
-- modelled.
pub mod Args
pub mod Updates
pub mod Rows
pub mod Choosing
use gator_cli.Prelude.{
  ℕ, zero, suc, ◌+◌, ◌==◌, ltb, Bool, true, false, not, ◌&&◌, ◌||◌, if◌then◌else◌, Option, none,
  some, List, [], ◌∷◌, ◌++◌, Text, text_eq, codes, has_text, trim_space,
}
use gator_cli.Prelude.Int.{ℤ, pos, negsuc, ◌+ℤ◌, int64, is_positive}
use gator_cli.Menu.Args.{split_args}

pub record Item : Type 0 where
  pub name : Text
  pub args : Text
  pub summary : Text
  pub group : Text

pub record Config : Type 0 where
  pub title : Text
  pub greeting : Text
  pub hint : Text
  pub items : List Item

pub record Choice : Type 0 where
  pub name : Text
  pub args : List Text

-- `needsArgs`
unfoldable pub needs_args : Item → Bool
needs_args i = has_text i.args (codes "<")

-- An element of the list.
pub data Row : Type 0 where
  header : Text → Row
  entry : Item → Row

-- The loop of `rows`, with the group of the item before.
unfoldable pub rows_from : Text → List Item → List Row
rows_from group [] = []
rows_from group (it ∷ items) =
    let rest = rows_from it.group items in
    if not (text_eq it.group group) then header it.group ∷ entry it ∷ rest else entry it ∷ rest

-- `rows`
unfoldable pub rows : List Item → List Row
rows items = rows_from [] items

abbrev pub list_hint : Text
list_hint = codes "↑↓ move · ⏎ run · / filter · q quit"

abbrev pub ask_hint : Text
ask_hint = codes "⏎ run · esc back"

-- What bubbles and bubbletea know of keys.
pub record Keys (K : Type 0) : Type 0 where
  pub is_ctrl_c : K → Bool
  pub is_esc : K → Bool
  pub is_enter : K → Bool
  pub quits : K → Bool
  pub selects : K → Bool
  pub moves_up : K → Bool

-- `list.Model`; a command that may be nil is an option.
pub record ListModel (K C L : Type 0) : Type 0 where
  pub start : Text → List Row → L
  pub visible : L → ℕ
  pub selected : L → Option Row
  pub index : L → ℕ
  pub cursor_up : L → L
  pub cursor_down : L → L
  pub is_filtering : L → Bool
  pub set_size : ℤ → ℤ → L → L
  pub width : L → ℤ
  pub update : K → L → L × Option C

-- `textinput.Model`
pub record PromptModel (K C P : Type 0) : Type 0 where
  pub start : P
  pub prompt_length : P → ℕ
  pub value : P → Text
  pub set_prompt : Text → P → P
  pub set_placeholder : Text → P → P
  pub set_value : Text → P → P
  pub set_width : ℤ → P → P
  pub focus : P → P × Option C
  pub blur : P → P
  pub update : K → P → P × Option C

-- `max(n, 1)`
abbrev pub at_least_one : ℤ → ℤ
at_least_one n = if is_positive n then n else pos 1

-- The fields of `Model` that change.
pub record Model (L P : Type 0) : Type 0 where
  pub list : L
  pub prompt : P
  pub greeting : Text
  pub hint : Text
  pub width : ℤ
  pub asking : Bool
  pub pending : Item
  pub status : Text
  pub choice : Choice
  pub chosen : Bool
  pub cancelled : Bool

abbrev pub no_item : Item
no_item = record { name = []; args = []; summary = []; group = [] }

abbrev pub no_choice : Choice
no_choice = record { name = []; args = [] }

-- The messages that `Update` tells apart.
pub data Message (K : Type 0) : Type 0 where
  window_size : ℤ → ℤ → Message K
  key : K → Message K
