-- ===== src/Tui/Paging/Rounds.antt =====
-- Pages that come in order, and one that comes too late (internal/tui/loading.go, update.go).
use mathlib.Core.Path.{subst}
use gator_cli.Prelude.{
  ℕ, ◌+◌, ◌≡◌, refl, ap, sym, ◌∙◌, ◌==◌, ltb, Bool, true, false, none, some, List, [], ◌∷◌, ◌++◌,
  take, drop, arith,
}
use gator_cli.Database.{Post}
use gator_cli.Offline.Filter.Pages.{take-add}
use gator_cli.Tui.Paging.{
  page_size, post_item, Paging, post_items_from, post_items, start_load, maybe_load_more,
  posts_loaded,
}

post_items_from-append :
    (ps qs : List Post)
    → post_items_from false none (ps ++ qs)
      ≡ post_items_from false none ps ++ post_items_from false none qs
unfolding post_items_from
post_items_from-append [] qs = refl
post_items_from-append (p ∷ ps) qs = ap (λ l. post_item p ∷ l) (post_items_from-append ps qs)

-- The page of the posts that the server has for the query.
abbrev pub page : List Post → ℕ → List Post
page all offset = take page_size (drop offset all)

-- The list shows the posts up to the end of the page at the offset, and nothing is asked for.
pub record IsPaged (all : List Post) (m : Paging) : Type 0 where
  pub shown : m.items ≡ post_items false (take (m.offset + page_size) all)
  pub idle : m.loading_more ≡ false

waiting : Paging → ℕ → Paging
waiting m next = record m { loading_more = true; offset = next }

asked_lem :
    (filtering : Bool) (index : ℕ) (m : Paging) (next : ℕ)
    → (maybe_load_more filtering index m).1 ≡ some next
    → ((maybe_load_more filtering index m).0 ≡ waiting m next) × (next ≡ m.offset + page_size)
unfolding maybe_load_more waiting
asked_lem filtering index m next asked = (ground arith, ground arith)

next_page :
    (all : List Post) (m : Paging) (next : ℕ)
    → IsPaged all m
    → next ≡ m.offset + page_size
    → IsPaged all (posts_loaded false true next (page all next) (waiting m next))
unfolding posts_loaded waiting post_items
next_page all m next h at =
    let same : (next == next) ≡ true = ground arith in
    let later : ltb 0 next ≡ true = ground (arith, at) in
    rw (same, later)
      (record {
        shown =
            ap (λ l. l ++ post_items_from false none (page all next))
              (h.shown ∙ ap (λ k. post_items_from false none (take k all)) (sym at))
            ∙ sym (post_items_from-append (take next all) (page all next))
            ∙ ap (post_items_from false none) (sym (take-add next page_size all));
        idle = refl;
      })

-- If the list of an ungrouped query shows the posts up to the end of its page, nothing is asked
-- for, and the next page is then asked for and arrives, the list shows the posts up to the end of
-- that page, and nothing is asked for.
pub posts_loaded-IsPaged :
    (all : List Post) (index : ℕ) (m : Paging) (next : ℕ)
    → IsPaged all m
    → (maybe_load_more false index m).1 ≡ some next
    → IsPaged all (posts_loaded false true next (page all next) (maybe_load_more false index m).0)
posts_loaded-IsPaged all index m next h asked =
    let (after, at) = asked_lem false index m next asked in
    subst (λ (t : Paging). IsPaged all (posts_loaded false true next (page all next) t)) (sym after)
      (next_page all m next h at)

-- If after startLoad a further page is asked for before the first has come, the arrival of the
-- first page changes nothing.
pub posts_loaded-start_load :
    (filtering grouped : Bool) (index next : ℕ) (posts : List Post) (m : Paging)
    → (maybe_load_more filtering index (start_load m)).1 ≡ some next
    → posts_loaded grouped true 0 posts (maybe_load_more filtering index (start_load m)).0
      ≡ (maybe_load_more filtering index (start_load m)).0
unfolding posts_loaded maybe_load_more start_load
posts_loaded-start_load filtering grouped index next posts m asked = ground arith
