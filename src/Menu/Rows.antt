-- ===== src/Menu/Rows.antt =====
-- The cursor of the menu and the headers (internal/menu/menu.go).
use gator_cli.Prelude.{
  ℕ, zero, suc, ◌+◌, ◌-◌, ◌<◌, ◌≡◌, refl, ap, sym, ◌∙◌, Bool, true, false, not, ◌&&◌, ◌==◌, ltb,
  if◌then◌else◌, Option, none, some, List, [], ◌∷◌, Text, text_eq, length, get_elem?, arith,
  Bool-cases, inl, inr,
}
use gator_cli.Menu.{Item, Row, header, entry, rows_from, rows, Keys, ListModel, PromptModel, Model}
use gator_cli.Menu.Updates.{is_header, on_item_loop, on_item}

-- `is_header` with the parameters of the menu left out.
abbrev heads : Option Row → Bool
heads none = false
heads (some (header h)) = true
heads (some (entry i)) = false

-- An entry stands behind each header.
abbrev starts_entry : List Row → Bool
starts_entry [] = false
starts_entry (header h ∷ rs) = false
starts_entry (entry i ∷ rs) = true

abbrev pub followed : List Row → Bool
followed [] = true
followed (header h ∷ rs) = starts_entry rs && followed rs
followed (entry i ∷ rs) = followed rs

followed-rows_from : (group : Text) (items : List Item) → followed (rows_from group items) ≡ true
unfolding rows_from
followed-rows_from group [] = refl
followed-rows_from group (it ∷ items) = elim (Bool-cases (not (text_eq it.group group))) [
  | inl e ↦ rw e (followed-rows_from it.group items)
  | inr e ↦ rw e (followed-rows_from it.group items)
]

pub followed-rows : (items : List Item) → followed (rows items) ≡ true
unfolding rows
followed-rows items = followed-rows_from [] items

starts_entry-heads :
    (rs : List Row) → starts_entry rs ≡ true → (heads (get_elem? rs 0) ≡ false) × (0 < length rs)
starts_entry-heads [] h = absurd (cc (h))
starts_entry-heads (header t ∷ rs) h = absurd (cc (h))
starts_entry-heads (entry i ∷ rs) h = (refl, omega arith)

-- So the row behind a header exists and is no header.
next_row :
    (rs : List Row) (i : ℕ)
    → followed rs ≡ true
    → heads (get_elem? rs i) ≡ true
    → (heads (get_elem? rs (suc i)) ≡ false) × (suc i < length rs)
next_row [] i f h = absurd (cc (h))
next_row (header t ∷ rs) zero f h =
    let (one, more) = starts_entry-heads rs (ground (arith, f)) in (one, omega (arith, more))
next_row (entry t ∷ rs) zero f h = absurd (cc (h))
next_row (header t ∷ rs) (suc i) f h =
    let (one, more) = next_row rs i (ground (arith, f)) h in (one, omega (arith, more))
next_row (entry t ∷ rs) (suc i) f h =
    let (one, more) = next_row rs i f h in (one, omega (arith, more))

previous_row :
    (rs : List Row) (i : ℕ)
    → followed rs ≡ true
    → heads (get_elem? rs (suc i)) ≡ true
    → heads (get_elem? rs i) ≡ false
previous_row rs i f h = elim (Bool-cases (heads (get_elem? rs i))) [
  | inl e ↦ absurd (cc ((next_row rs i f e).0, h))
  | inr e ↦ e
]

-- What the menu relies on in the list of bubbles: the cursor is at a place of the rows that are shown,
-- and stops at both ends.
pub record IsCursor {K C L : Type 0} (lists : ListModel K C L) (shown : L → List Row) : Type 0 where
  pub visible : (l : L) → lists.visible l ≡ length (shown l)
  pub selected : (l : L) → lists.selected l ≡ get_elem? (shown l) (lists.index l)
  pub up_index : (l : L) → lists.index (lists.cursor_up l) ≡ lists.index l - 1
  pub up_shown : (l : L) → shown (lists.cursor_up l) ≡ shown l
  pub down_index :
      (l : L)
      → lists.index (lists.cursor_down l)
        ≡ (if ltb (lists.index l + 1) (length (shown l)) then lists.index l + 1 else lists.index l)
  pub down_shown : (l : L) → shown (lists.cursor_down l) ≡ shown l

module _ {K C L P : Type 0} (keys : Keys K) (lists : ListModel K C L) (prompts : PromptModel K C P)
    (shown : L → List Row) (cursor : IsCursor lists shown) where
  abbrev on_header : L → Bool
  on_header l = is_header keys lists prompts (lists.selected l)

  on_header-heads : (l : L) → on_header l ≡ heads (get_elem? (shown l) (lists.index l))
  on_header-heads l =
      ap (λ o. is_header keys lists prompts o) (cursor.selected l)
      ∙ same (get_elem? (shown l) (lists.index l))
    where
      same : (o : Option Row) → is_header keys lists prompts o ≡ heads o
      same none = refl
      same (some (header h)) = refl
      same (some (entry i)) = refl

  settled :
      (n : ℕ) (up : Bool) (l : L) → on_header l ≡ false → on_item_loop keys lists prompts n up l ≡ l
  unfolding on_item_loop
  settled zero up l h = refl
  settled (suc n) up l h = rw h refl

  -- One round down from a header comes to an entry, and the loop stays there.
  round_down :
      (n : ℕ) (l : L)
      → followed (shown l) ≡ true
      → on_header l ≡ true
      → on_header (on_item_loop keys lists prompts (suc n) false l) ≡ false
  unfolding on_item_loop
  round_down n l f h =
      let here = sym (on_header-heads l) ∙ h in
      let (next, more) = next_row (shown l) (lists.index l) f here in
      let moved = lists.cursor_down l in
      let place : lists.index moved ≡ suc (lists.index l) =
        ground (arith, cursor.down_index l, more) in
      let free : on_header moved ≡ false =
        on_header-heads moved
        ∙ ap (λ rs. heads (get_elem? rs (lists.index moved))) (cursor.down_shown l)
        ∙ ap (λ i. heads (get_elem? (shown l) i)) place
        ∙ next in
      rw h (ap on_header (settled n _ moved free) ∙ free)

  -- Two rounds up from a header come to an entry: the one above it, or at the top the one below.
  round_up :
      (n i : ℕ) (l : L)
      → lists.index l ≡ i
      → followed (shown l) ≡ true
      → on_header l ≡ true
      → on_header (on_item_loop keys lists prompts (suc (suc n)) true l) ≡ false
  unfolding on_item_loop
  round_up n zero l at_top f h =
      let moved = lists.cursor_up l in
      let stays : lists.index moved ≡ lists.index l = omega (arith, cursor.up_index l, at_top) in
      let stuck : (lists.index moved == lists.index l) ≡ true = ground (arith, stays) in
      let again : on_header moved ≡ true =
        on_header-heads moved
        ∙ ap (λ rs. heads (get_elem? rs (lists.index moved))) (cursor.up_shown l)
        ∙ ap (λ i. heads (get_elem? (shown l) i)) stays
        ∙ sym (on_header-heads l)
        ∙ h in
      rw (h, stuck) (round_down n moved (ap followed (cursor.up_shown l) ∙ f) again)
  round_up n (suc j) l below f h =
      let moved = lists.cursor_up l in
      let place : lists.index moved ≡ j = omega (arith, cursor.up_index l, below) in
      let here : heads (get_elem? (shown l) (suc j)) ≡ true =
        ap (λ i. heads (get_elem? (shown l) i)) (sym below) ∙ sym (on_header-heads l) ∙ h in
      let free : on_header moved ≡ false =
        on_header-heads moved
        ∙ ap (λ rs. heads (get_elem? rs (lists.index moved))) (cursor.up_shown l)
        ∙ ap (λ i. heads (get_elem? (shown l) i)) place
        ∙ previous_row (shown l) j f here in
      rw h (ap on_header (settled (suc n) _ moved free) ∙ free)

  on_item_loop_lem :
      (n : ℕ) (up : Bool) (l : L)
      → n ≡ length (shown l)
      → followed (shown l) ≡ true
      → on_header l ≡ true
      → on_header (on_item_loop keys lists prompts n up l) ≡ false
  on_item_loop_lem n up l size f h =
      let here = sym (on_header-heads l) ∙ h in
      rounds n up (omega (arith, (next_row (shown l) (lists.index l) f here).1, size))
    where
      rounds :
          (k : ℕ) (b : Bool) → 1 < k → on_header (on_item_loop keys lists prompts k b l) ≡ false
      rounds zero b more = absurd (omega arith)
      rounds (suc zero) b more = absurd (omega arith)
      rounds (suc (suc k)) true more = round_up k (lists.index l) l refl f h
      rounds (suc (suc k)) false more = round_down (suc k) l f h

  -- Where the list moves its cursor by one place and stops at both ends, the cursor of a list that
  -- shows the rows of some items, moved on in either direction, does not rest on a header.
  pub on_item_lem :
      (up : Bool) (m : Model L P) (items : List Item)
      → shown m.list ≡ rows items
      → is_header keys lists prompts (lists.selected (on_item keys lists prompts up m).list) ≡ false
  unfolding on_item
  on_item_lem up m items same = elim (Bool-cases (on_header m.list)) [
    | inl e ↦
        on_item_loop_lem (lists.visible m.list) up m.list (cursor.visible m.list)
          (ap followed same ∙ followed-rows items) e
    | inr e ↦ ap on_header (settled (lists.visible m.list) up m.list e) ∙ e
  ]
