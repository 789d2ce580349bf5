-- ===== src/Tui/Picks/Confirmed.antt =====
-- What `confirmCatalog` of internal/tui/catalog.go has followed.
use gator_cli.Prelude.{
  ◌≡◌, ap, sym, ◌∙◌, Bool, not, ◌&&◌, ◌||◌, if◌then◌else◌, List, [], ◌∷◌, Text, text_eq,
  text_eq_iff, any, arith, Bool-cases, inl, inr,
}
use gator_cli.Catalog.{Feed, Category}
use gator_cli.Collect.{
  Collected, collect, nothing, has_key, Once, IsCollected, nothing-IsCollected, seen-collect,
  collect-IsCollected,
}
use gator_cli.Feeds.Add.{Entry}
use gator_cli.Tui.Picks.Boxes.{has_url}
use gator_cli.Tui.Picks.{Picks, entry_url, confirm_feeds, confirm_categories, confirmed_entries}

-- The catalog has a feed with the URL.
abbrev pub offered : Text → List Category → Bool
offered u cats = any (λ (c : Category). has_url u c.feeds) cats

module _ (picked : Text → Bool) where
  abbrev kept : Entry → Collected entry_url → Collected entry_url
  kept entry st = if not (picked entry.url) then st else collect entry_url entry st

  kept-IsCollected :
      (entry : Entry) (st : Collected entry_url)
      → IsCollected entry_url st
      → IsCollected entry_url (kept entry st)
  kept-IsCollected entry st h = elim (Bool-cases (picked entry.url)) [
    | inl e ↦ rw e (collect-IsCollected entry_url entry st h)
    | inr e ↦ rw e h
  ]

  seen-kept :
      (entry : Entry) (st : Collected entry_url) (u : Text)
      → (kept entry st).seen u ≡ ((picked u && text_eq entry.url u) || st.seen u)
  seen-kept entry st u = elim (Bool-cases (text_eq entry.url u)) [
    | inl e ↦
        let same = ap picked ((text_eq_iff entry.url u).0 e) in
        ground (arith, e, same, seen-collect entry_url entry st u)
    | inr e ↦ ground (arith, e, seen-collect entry_url entry st u)
  ]

  confirm_feeds_lem :
      (label : Text) (fs : List Feed) (st : Collected entry_url)
      → IsCollected entry_url st
      → IsCollected entry_url (confirm_feeds picked label fs st)
        × ((u : Text)
            → (confirm_feeds picked label fs st).seen u ≡ ((picked u && has_url u fs) || st.seen u))
  unfolding confirm_feeds
  confirm_feeds_lem label [] st h = (h, λ u. ground arith)
  confirm_feeds_lem label (f ∷ fs) st h =
      let entry : Entry = record { name = f.name; url = f.url; category = label } in
      let (good, said) = confirm_feeds_lem label fs (kept entry st) (kept-IsCollected entry st h) in
      (good, λ u. ground (arith, said u, seen-kept entry st u))

  confirm_categories_lem :
      (cats : List Category) (st : Collected entry_url)
      → IsCollected entry_url st
      → IsCollected entry_url (confirm_categories picked cats st)
        × ((u : Text)
            → (confirm_categories picked cats st).seen u
              ≡ ((picked u && offered u cats) || st.seen u))
  unfolding confirm_categories
  confirm_categories_lem [] st h = (h, λ u. ground arith)
  confirm_categories_lem (c ∷ cats) st h =
      let (good, said) = confirm_feeds_lem c.label c.feeds st h in
      let (good', said') =
        confirm_categories_lem cats (confirm_feeds picked c.label c.feeds st) good in
      (good', λ u. ground (arith, said' u, said u))

-- The entries have no URL twice, and have exactly the URLs that are picked and that some category of the
-- catalog has.
pub confirmed_entries_lem :
    (m : Picks)
    → Once entry_url (confirmed_entries m)
      × ((u : Text)
          → has_key entry_url u (confirmed_entries m) ≡ (m.picked u && offered u m.categories))
unfolding confirmed_entries
confirmed_entries_lem m =
    let (good, said) =
      confirm_categories_lem m.picked m.categories (nothing entry_url)
        (nothing-IsCollected entry_url) in
    (good.once, λ u. sym (good.known u) ∙ ground (arith, said u))
