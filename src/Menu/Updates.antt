-- ===== src/Menu/Updates.antt =====
-- What the menu of internal/menu/menu.go does with messages.
use gator_cli.Prelude.{
  ℕ, zero, suc, ◌==◌, Bool, true, false, not, ◌&&◌, ◌||◌, if◌then◌else◌, Option, none, some, List,
  [], ◌++◌, Text, text_eq, codes, trim_space,
}
use gator_cli.Prelude.Int.{ℤ, pos, negsuc, ◌+ℤ◌, int64}
use gator_cli.Menu.Args.{split_args}
use gator_cli.Menu.{
  Item, Config, Row, header, entry, needs_args, rows, list_hint, ask_hint, Keys, ListModel,
  PromptModel, at_least_one, Model, no_item, no_choice, Message, window_size, key,
}

module _ {K C L P : Type 0} (keys : Keys K) (lists : ListModel K C L)
    (prompts : PromptModel K C P) where
  abbrev pub is_header : Option Row → Bool
  is_header none = false
  is_header (some (header h)) = true
  is_header (some (entry i)) = false

  -- The loop of `onItem`, on the number of rounds left.
  unfoldable pub on_item_loop : ℕ → Bool → L → L
  on_item_loop zero up l = l
  on_item_loop (suc n) up l =
      let moved = if up then lists.cursor_up l else lists.cursor_down l in
      let rest = on_item_loop n (if lists.index moved == lists.index l then not up else up) moved in
      if not (is_header (lists.selected l)) then l else rest

  -- `onItem`
  unfoldable pub on_item : Bool → Model L P → Model L P
  unfolding on_item_loop
  on_item up m = record m { list = on_item_loop (lists.visible m.list) up m.list }

  -- `New`
  unfoldable pub new : Config → Model L P
  unfolding on_item on_item_loop
  new cfg =
      let hint = if text_eq cfg.hint [] then list_hint else cfg.hint in
      on_item false (record {
        list = lists.start cfg.title (rows cfg.items);
        prompt = prompts.start;
        greeting = cfg.greeting;
        hint = hint;
        width = pos 0;
        asking = false;
        pending = no_item;
        status = hint;
        choice = no_choice;
        chosen = false;
        cancelled = false;
      })

  abbrev pub prompt_width : ℤ → P → ℤ
  prompt_width width p = at_least_one (int64 (width +ℤ negsuc (prompts.prompt_length p)))

  -- `SetSize`
  unfoldable pub set_size : ℤ → ℤ → Model L P → Model L P
  set_size width height m =
      let greeting_height = if text_eq m.greeting [] then pos 0 else negsuc 1 in
      record m {
        width = width;
        list =
            lists.set_size width (at_least_one (int64 (height +ℤ negsuc 3 +ℤ greeting_height)))
              m.list;
        prompt = prompts.set_width (prompt_width width m.prompt) m.prompt;
      }

  -- `choose`
  unfoldable pub choose : Item → List Text → Model L P → Model L P × Option C
  choose item args m =
      (record m { choice = record { name = item.name; args = args }; chosen = true }, none)

  -- `ask`
  unfoldable pub ask : Item → Model L P → Model L P × Option C
  ask item m =
      let named = prompts.set_prompt (codes "gator " ++ item.name ++ codes " ") m.prompt in
      let emptied = prompts.set_value [] (prompts.set_placeholder item.args named) in
      let (focused, cmd) =
        prompts.focus (prompts.set_width (prompt_width (lists.width m.list) emptied) emptied) in
      (record m { asking = true; pending = item; prompt = focused; status = ask_hint }, cmd)

  -- `cancel`
  unfoldable pub cancel : Model L P → Model L P
  cancel m = record m { asking = false; prompt = prompts.blur m.prompt; status = m.hint }

  -- The case of `Select` in `updateList`.
  unfoldable pub select_row : Option Row → Model L P → Model L P × Option C
  unfolding choose ask
  select_row none m = (m, none)
  select_row (some (header h)) m = (m, none)
  select_row (some (entry item)) m = if text_eq item.args [] then choose item [] m else ask item m

  -- The end of `updateList`.
  unfoldable pub pass_to_list : K → Model L P → Model L P × Option C
  unfolding on_item on_item_loop
  pass_to_list k m =
      let (l, cmd) = lists.update k m.list in
      (on_item (keys.moves_up k) (record m { list = l }), cmd)

  -- `updateList`
  unfoldable pub update_list : K → Model L P → Model L P × Option C
  unfolding select_row pass_to_list choose ask on_item on_item_loop
  update_list k m =
      if lists.is_filtering m.list
      then pass_to_list k m
      else if keys.is_ctrl_c k || keys.quits k
      then (record m { cancelled = true }, none)
      else if keys.selects k
      then select_row (lists.selected m.list) m
      else pass_to_list k m

  -- The case of `tea.KeyEnter` in `updatePrompt`.
  unfoldable pub submit : Model L P → Model L P × Option C
  unfolding choose
  submit m =
      let value = trim_space (prompts.value m.prompt) in
      if text_eq value [] && needs_args m.pending
      then (
        record m {
          status = m.pending.name ++ codes " needs " ++ m.pending.args ++ codes " — esc to go back";
        },
        none,
      )
      else choose m.pending (split_args value) m

  -- `updatePrompt`
  unfoldable pub update_prompt : K → Model L P → Model L P × Option C
  unfolding submit choose cancel
  update_prompt k m =
      let (p, cmd) = prompts.update k m.prompt in
      if keys.is_ctrl_c k
      then (record m { cancelled = true }, none)
      else if keys.is_esc k
      then (cancel m, none)
      else if keys.is_enter k
      then submit m
      else (record m { prompt = p }, cmd)

  -- `Update`, on the messages that are not left to the list.
  unfoldable pub update : Message K → Model L P → Model L P × Option C
  unfolding set_size update_prompt submit choose cancel update_list select_row pass_to_list ask
      on_item on_item_loop
  update (window_size width height) m = (set_size width height m, none)
  update (key k) m = if m.asking then update_prompt k m else update_list k m

-- `Done`
unfoldable pub is_done : {L P : Type 0} → Model L P → Bool
is_done m = m.chosen || m.cancelled
