-- ===== src/Tui/Picks/Boxes.antt =====
-- The boxes of the catalog (internal/tui/catalog.go, items.go) when a category is picked.
use gator_cli.Prelude.{
  ◌≡◌, refl, ap, ◌∙◌, ◌+◌, ◌-◌, ◌==◌, ◌≤◌, Bool, true, false, not, ◌&&◌, if◌then◌else◌, List, [],
  ◌∷◌, Text, text_eq, text_eq_iff, text_eq_refl, any, arith, Bool-cases, inl, inr,
}
use gator_cli.Catalog.{Feed, Category}
use gator_cli.Tui.Picks.{
  Picks, open_feeds, all_picked, pick_all, toggle_category, counts, Box, box_followed, box_picked,
  box_partly, box_empty, category_box, set_pick,
}

-- The category has a feed with the URL.
abbrev pub has_url : Text → List Feed → Bool
has_url u fs = any (λ (f : Feed). text_eq f.url u) fs

-- What the box of a category becomes.
abbrev pub toggled_box : Box → Box
toggled_box box_followed = box_followed
toggled_box box_picked = box_empty
toggled_box box_partly = box_picked
toggled_box box_empty = box_picked

pick_all_lem :
    (b : Bool) (fs : List Feed) (picked : Text → Bool) (u : Text)
    → pick_all b fs picked u ≡ (if has_url u fs then b else picked u)
unfolding pick_all
pick_all_lem b [] picked u = refl
pick_all_lem b (f ∷ fs) picked u = ground (arith, pick_all_lem b fs (set_pick f.url b picked) u)

module _ (followed : Text → Bool) where
  has_url-open_feeds :
      (u : Text) (fs : List Feed)
      → has_url u (open_feeds followed fs) ≡ (not (followed u) && has_url u fs)
  unfolding open_feeds
  has_url-open_feeds u [] = ground arith
  has_url-open_feeds u (f ∷ fs) = elim (Bool-cases (text_eq f.url u)) [
    | inl e ↦
        let same : followed f.url ≡ followed u = ap followed ((text_eq_iff f.url u).0 e) in
        ground (arith, e, same, has_url-open_feeds u fs)
    | inr e ↦ ground (arith, e, has_url-open_feeds u fs)
  ]

  counts-bound :
      (picked : Text → Bool) (fs : List Feed)
      → (counts followed picked fs).picked + (counts followed picked fs).followed
        ≤ (counts followed picked fs).total
  unfolding counts
  counts-bound picked [] = omega arith
  counts-bound picked (f ∷ fs) = ground (arith, counts-bound picked fs)

  all_picked-counts :
      (picked : Text → Bool) (fs : List Feed)
      → all_picked followed picked fs ≡ (
          (counts followed picked fs).picked
          == (counts followed picked fs).total - (counts followed picked fs).followed)
  unfolding counts all_picked
  all_picked-counts picked [] = refl
  all_picked-counts picked (f ∷ fs) =
      ground (arith, counts-bound picked fs, all_picked-counts picked fs)

  -- If the feeds that are not followed are all picked or all not, so says the count.
  counts-pick_all :
      (b : Bool) (picked picked' : Text → Bool) (fs : List Feed)
      → ((u : Text) → has_url u fs ≡ true → followed u ≡ false → picked' u ≡ b)
      → ((counts followed picked' fs).total ≡ (counts followed picked fs).total)
        × ((counts followed picked' fs).followed ≡ (counts followed picked fs).followed)
        × ((counts followed picked' fs).picked ≡ (
            if b
            then (counts followed picked fs).total - (counts followed picked fs).followed
            else 0))
  unfolding counts
  counts-pick_all b picked picked' [] h = (refl, refl, ground arith)
  counts-pick_all b picked picked' (f ∷ fs) h =
      let (total, sub, picks) =
        counts-pick_all b picked picked' fs (λ u k. h u (ground (arith, k))) in
      elim (Bool-cases (followed f.url)) [
        | inl e ↦ ground (arith, e, total, sub, picks)
        | inr e ↦ ground (
          arith,
          e,
          total,
          sub,
          picks,
          h f.url (ground (arith, text_eq_refl f.url)) e,
          counts-bound picked fs,
        )
      ]

-- When a category of the catalog is picked, its box changes from empty or partly picked to picked,
-- and from picked to empty, and stays as it is if all its feeds are followed, whatever feeds it
-- shares with other categories or holds twice.
pub category_box-toggle_category :
    (m : Picks) (cat : Category)
    → category_box (toggle_category cat m) cat ≡ toggled_box (category_box m cat)
unfolding category_box toggle_category
category_box-toggle_category m cat =
    let b = not (all_picked m.followed m.picked cat.feeds) in
    let after : (u : Text)
        → has_url u cat.feeds ≡ true
        → m.followed u ≡ false
        → (toggle_category cat m).picked u ≡ b =
      λ u h k.
        pick_all_lem b (open_feeds m.followed cat.feeds) m.picked u
        ∙ ground (arith, has_url-open_feeds m.followed u cat.feeds, h, k) in
    let (total, followed, picked) =
      counts-pick_all m.followed b m.picked (toggle_category cat m).picked cat.feeds after in
    ground (
      arith,
      total,
      followed,
      picked,
      counts-bound m.followed m.picked cat.feeds,
      all_picked-counts m.followed m.picked cat.feeds,
    )
