-- ===== src/Catalog.antt =====
-- internal/catalog/catalog.go: the feeds that come with the program. The categories of the embedded
-- file are an argument.
pub mod Resolution
use gator_cli.Prelude.{
  Bool, true, false, List, [], ◌∷◌, ◌++◌, map, Text, text_eq, codes, if◌then◌else◌, Option, none,
  some, find?,
}
use gator_cli.Store.{Error, Result, ok, err, ◌>>=◌}
use gator_cli.Collect.{Collected, collect_all, nothing}

pub record Feed : Type 0 where
  pub name : Text
  pub url : Text

pub record Category : Type 0 where
  pub id : Text
  pub label : Text
  pub feeds : List Feed

pub record Entry : Type 0 where
  pub feed : Feed
  pub category : Text

abbrev pub entry_url : Entry → Text
entry_url e = e.feed.url

-- `strings.Join` with a comma and a blank
unfoldable pub join_comma : List Text → Text
join_comma [] = []
join_comma (s ∷ []) = s
join_comma (s ∷ t ∷ rest) = s ++ codes ", " ++ join_comma (t ∷ rest)

module _ (quoted : Text → Text) where
  -- The error of `Find`; `quoted` is the verb `%q`.
  unfoldable pub unknown : List Category → Text → Error
  unknown cats id = record {
    message =
        codes "unknown category "
        ++ quoted id
        ++ codes " (have: "
        ++ join_comma (map (λ (c : Category). c.id) cats)
        ++ codes ")";
    wraps = [];
  }

  abbrev pub found : Option Category → Error → Result Category
  found none e = err e
  found (some c) e = ok c

  -- `Find`
  unfoldable pub find : List Category → Text → Result Category
  find cats id = found (find? (λ (c : Category). text_eq c.id id) cats) (unknown cats id)

  -- What the inner loop of `Resolve` makes of a category.
  unfoldable pub entries : Category → List Entry
  entries c = map (λ f. record { feed = f; category = c.label }) c.feeds

  -- The outer loop of `Resolve`.
  unfoldable pub resolve_loop :
      List Category → List Text → Collected entry_url → Result (Collected entry_url)
  unfolding entries
  resolve_loop cats [] st = ok st
  resolve_loop cats (id ∷ ids) st = do
    c ← find cats id
    resolve_loop cats ids (collect_all entry_url (entries c) st)

  -- `Resolve`
  unfoldable pub resolve : List Category → List Text → Result (List Entry)
  resolve cats ids = do st ← resolve_loop cats ids (nothing entry_url); ok st.out
