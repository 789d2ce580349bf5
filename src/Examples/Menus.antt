-- ===== src/Examples/Menus.antt =====
-- Runs of the menu of internal/menu/menu.go, on a plain list and a prompt that holds a text.
use gator_cli.Prelude.{
  ℕ, ◌+◌, ◌-◌, ◌≡◌, refl, ◌==◌, ltb, true, false, none, List, [], ◌∷◌, Text, codes, length,
  get_elem?, if◌then◌else◌,
}
use gator_cli.Prelude.Int.{pos}
use gator_cli.Menu.{Item, Row, rows, Keys, ListModel, PromptModel, Model, key, no_choice}
use gator_cli.Menu.Updates.{update, update_prompt, submit, choose, on_item, is_header}
use gator_cli.Menu.Rows.{IsCursor, on_item_lem}
use gator_cli.Menu.Choosing.{HasChosen, update-HasChosen}

record Shown : Type 0 where
  rows : List Row
  at : ℕ

-- Key 1 is enter, key 2 escape.
abbrev keys : Keys ℕ
keys = record {
  is_ctrl_c = λ k. false;
  is_esc = λ k. k == 2;
  is_enter = λ k. k == 1;
  quits = λ k. k == 2;
  selects = λ k. k == 1;
  moves_up = λ k. k == 3;
}

abbrev lists : ListModel ℕ ℕ Shown
lists = record {
  start = λ title rs. record { rows = rs; at = 0 };
  visible = λ l. length l.rows;
  selected = λ l. get_elem? l.rows l.at;
  index = λ l. l.at;
  cursor_up = λ l. record l { at = l.at - 1 };
  cursor_down = λ l. record l { at = if ltb (l.at + 1) (length l.rows) then l.at + 1 else l.at };
  is_filtering = λ l. false;
  set_size = λ width height l. l;
  width = λ l. pos 80;
  update = λ k l. (l, none);
}

abbrev prompts : PromptModel ℕ ℕ Text
prompts = record {
  start = [];
  prompt_length = λ p. 6;
  value = λ p. p;
  set_prompt = λ s p. p;
  set_placeholder = λ s p. p;
  set_value = λ s p. s;
  set_width = λ n p. p;
  focus = λ p. (p, none);
  blur = λ p. p;
  update = λ k p. (p, none);
}

cursor : IsCursor lists (λ l. l.rows)
cursor = record {
  visible = λ l. refl;
  selected = λ l. refl;
  up_index = λ l. refl;
  up_shown = λ l. refl;
  down_index = λ l. refl;
  down_shown = λ l. refl;
}

abbrev adding : Item
adding = record { name = codes "add"; args = codes "<url>"; summary = []; group = codes "Feeds" }

abbrev items : List Item
items = adding ∷ record adding { name = codes "follow" } ∷ []

-- The prompt asks for the arguments of `add`, and the cursor is on the header.
abbrev asked : Model Shown Text
asked = record {
  list = record { rows = rows items; at = 0 };
  prompt = codes " https://example.com ";
  greeting = [];
  hint = [];
  width = pos 80;
  asking = true;
  pending = adding;
  status = [];
  choice = no_choice;
  chosen = false;
  cancelled = false;
}

on_item_lem_example :
    is_header keys lists prompts (lists.selected (on_item keys lists prompts true asked).list)
    ≡ false
on_item_lem_example = on_item_lem keys lists prompts (λ l. l.rows) cursor true asked items refl

chooses : (update keys lists prompts (key 1) asked).0.chosen ≡ true
unfolding update update_prompt submit choose
chooses = refl

update-HasChosen_example :
    HasChosen keys lists prompts asked (update keys lists prompts (key 1) asked).0
update-HasChosen_example = update-HasChosen keys lists prompts 1 asked refl chooses
