-- ===== src/Menu/Choosing.antt =====
-- Which choices the menu makes (internal/menu/menu.go).
use mathlib.Core.Path.{subst}
use gator_cli.Prelude.{
  ◌≡◌, refl, ap, sym, ◌∙◌, ◌⊎◌, inl, inr, true, false, ◌&&◌, ◌||◌, Option, none, some, [], ◌∷◌,
  Text, text_eq, codes, has_text, arith, trim_space, Bool-cases,
}
use gator_cli.Menu.Args.Some.{is_nil, split_args-trim_space}
use gator_cli.Menu.{Item, Row, header, entry, needs_args, Keys, ListModel, PromptModel, Model, key}
use gator_cli.Menu.Updates.{
  choose, ask, cancel, select_row, pass_to_list, update_list, submit, update_prompt, update,
  on_item,
}

nothing_needed : (args : Text) → text_eq args [] ≡ true → has_text args (codes "<") ≡ false
nothing_needed [] e = refl
nothing_needed (c ∷ args) e = cc

needs_args-nothing : (item : Item) → text_eq item.args [] ≡ true → needs_args item ≡ false
unfolding needs_args
needs_args-nothing item e = nothing_needed item.args e

module _ {K C L P : Type 0} (keys : Keys K) (lists : ListModel K C L)
    (prompts : PromptModel K C P) where
  -- The item was asked about, or selected in the list.
  abbrev pub IsOffered : Model L P → Item → Type 0
  IsOffered m item =
      ((m.asking ≡ true) × (m.pending ≡ item))
      ⊎ ((m.asking ≡ false) × (lists.selected m.list ≡ some (entry item)))

  -- The model has chosen one of the offered items, with arguments if it needs some.
  abbrev pub HasChosen : Model L P → Model L P → Type 0
  HasChosen m next =
      (item : Item) × IsOffered m item
      × (next.choice.name ≡ item.name)
      × ((needs_args item && is_nil next.choice.args) ≡ false)

  submit_lem :
      (m : Model L P)
      → m.asking ≡ true
      → m.chosen ≡ false
      → (submit keys lists prompts m).0.chosen ≡ true
      → HasChosen m (submit keys lists prompts m).0
  unfolding submit choose
  submit_lem m asking fresh done =
      elim (Bool-cases (text_eq (trim_space (prompts.value m.prompt)) [])) [
        | inl e ↦ elim (Bool-cases (needs_args m.pending)) [
          | inl n ↦ absurd (cc (rw (e, n) at done))
          | inr n ↦ rw (e, n) (m.pending, inl (asking, refl), refl, rw n refl)
        ]
        | inr e ↦ rw e (
          m.pending,
          inl (asking, refl),
          refl,
          ground (arith, split_args-trim_space (prompts.value m.prompt) e),
        )
      ]

  select_row_lem :
      (o : Option Row) (m : Model L P)
      → m.asking ≡ false
      → lists.selected m.list ≡ o
      → m.chosen ≡ false
      → (select_row keys lists prompts o m).0.chosen ≡ true
      → HasChosen m (select_row keys lists prompts o m).0
  unfolding select_row choose ask
  select_row_lem none m idle at fresh done = cc
  select_row_lem (some (header h)) m idle at fresh done = cc
  select_row_lem (some (entry item)) m idle at fresh done =
      elim (Bool-cases (text_eq item.args [])) [
        | inl e ↦ rw e (item, inr (idle, at), refl, ap (λ b. b && true) (needs_args-nothing item e))
        | inr e ↦ absurd (cc (rw e at done))
      ]

  via :
      (m : Model L P) (r s : Model L P × Option C)
      → r ≡ s
      → (s.0.chosen ≡ true → HasChosen m s.0)
      → r.0.chosen ≡ true
      → HasChosen m r.0
  via m r s e h done =
      subst (λ (t : Model L P × Option C). HasChosen m t.0) (sym e)
        (h (ap (λ (t : Model L P × Option C). t.0.chosen) (sym e) ∙ done))

  unchosen :
      (m : Model L P) (r s : Model L P × Option C)
      → r ≡ s
      → s.0.chosen ≡ m.chosen
      → m.chosen ≡ false
      → r.0.chosen ≡ true
      → HasChosen m r.0
  unchosen m r s e same fresh done = absurd (cc (e, same, fresh, done))

  update_prompt_lem :
      (k : K) (m : Model L P)
      → m.asking ≡ true
      → m.chosen ≡ false
      → (update_prompt keys lists prompts k m).0.chosen ≡ true
      → HasChosen m (update_prompt keys lists prompts k m).0
  unfolding update_prompt cancel
  update_prompt_lem k m asking fresh =
      let r = update_prompt keys lists prompts k m in
      elim (Bool-cases (keys.is_ctrl_c k)) [
        | inl a ↦ unchosen m r (record m { cancelled = true }, none) (rw a refl) refl fresh
        | inr a ↦ elim (Bool-cases (keys.is_esc k)) [
          | inl b ↦ unchosen m r (cancel keys lists prompts m, none) (rw (a, b) refl) refl fresh
          | inr b ↦ elim (Bool-cases (keys.is_enter k)) [
            | inl d ↦
                via m r (submit keys lists prompts m) (rw (a, b, d) refl)
                  (submit_lem m asking fresh)
            | inr d ↦
                unchosen m r
                  (
                    record m { prompt = (prompts.update k m.prompt).0 },
                    (prompts.update k m.prompt).1,
                  )
                  (rw (a, b, d) refl) refl fresh
          ]
        ]
      ]

  update_list_lem :
      (k : K) (m : Model L P)
      → m.asking ≡ false
      → m.chosen ≡ false
      → (update_list keys lists prompts k m).0.chosen ≡ true
      → HasChosen m (update_list keys lists prompts k m).0
  unfolding update_list pass_to_list on_item
  update_list_lem k m idle fresh =
      let r = update_list keys lists prompts k m in
      elim (Bool-cases (lists.is_filtering m.list)) [
        | inl a ↦ unchosen m r (pass_to_list keys lists prompts k m) (rw a refl) refl fresh
        | inr a ↦ elim (Bool-cases (keys.is_ctrl_c k || keys.quits k)) [
          | inl b ↦ unchosen m r (record m { cancelled = true }, none) (rw (a, b) refl) refl fresh
          | inr b ↦ elim (Bool-cases (keys.selects k)) [
            | inl d ↦
                via m r (select_row keys lists prompts (lists.selected m.list) m)
                  (rw (a, b, d) refl) (select_row_lem (lists.selected m.list) m idle refl fresh)
            | inr d ↦
                unchosen m r (pass_to_list keys lists prompts k m) (rw (a, b, d) refl) refl fresh
          ]
        ]
      ]

  -- When a key makes a menu choose that had not chosen, the choice is the item asked about, or the
  -- one selected in the list if none is asked about, and it has arguments if the item needs some.
  pub update-HasChosen :
      (k : K) (m : Model L P)
      → m.chosen ≡ false
      → (update keys lists prompts (key k) m).0.chosen ≡ true
      → HasChosen m (update keys lists prompts (key k) m).0
  unfolding update
  update-HasChosen k m fresh =
      let r = update keys lists prompts (key k) m in
      elim (Bool-cases m.asking) [
        | inl a ↦
            via m r (update_prompt keys lists prompts k m) (rw a refl)
              (update_prompt_lem k m a fresh)
        | inr a ↦
            via m r (update_list keys lists prompts k m) (rw a refl) (update_list_lem k m a fresh)
      ]
