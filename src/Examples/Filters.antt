-- ===== src/Examples/Filters.antt =====
-- A session of the terminal UI, from no kept settings.
use gator_cli.Prelude.{refl, none, List, [], ◌∷◌, codes, arith}
use gator_cli.Tui.Filters.{first_view, posts, start_load, page_query}
use gator_cli.Tui.Filters.Actions.{Action, act_all}
use gator_cli.Tui.Filters.Answered.{IsServed, act_all-IsServed}
use gator_cli.Tui.Settings.{load_state}
use gator_cli.Examples.Site.{formats, parse_one}

abbrev session : List Action
session =
    Action.unread_only
    ∷ Action.sort
    ∷ Action.sort
    ∷ Action.time_range
    ∷ Action.feed 7 (codes "go")
    ∷ []

act_all-IsServed_example :
    IsServed formats
      (start_load 9 (act_all session (first_view parse_one (load_state parse_one none))))
    × IsServed formats (
        posts
          (page_query 9 (act_all session (first_view parse_one (load_state parse_one none))) 50))
act_all-IsServed_example =
    act_all-IsServed formats (λ t. refl) (λ t. refl) 9 parse_one none session 50 (omega arith)
