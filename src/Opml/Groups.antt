-- ===== src/Opml/Groups.antt =====
-- What `Write` of internal/opml/opml.go builds, and what `Parse` finds in it.
use mathlib.Core.List.{Perm}
use mathlib.Core.Path.{subst}
use gator_cli.Prelude.{
  ◌≡◌, refl, ap, sym, ◌∙◌, false, ◌||◌, List, [], ◌∷◌, ◌++◌, Text, text_eq, text_eq_iff, trim_space,
  arith, any, All, keep, Bool-cases, inl, inr,
}
use gator_cli.Sorting.{sort_stable-All}
use gator_cli.Collect.{Collected, collect, collect_all, nothing, Once, nothing-IsCollected}
use gator_cli.Collect.Groups.{Once-in_groups, collect_all-Once}
use gator_cli.Grouping.{
  snoc_empty-Different, Covers-sort_texts, in_groups-snoc, text_before, sort_texts, any-sort_texts,
  sort_texts-Different, group_names, in_group, in_groups, in_groups-perm, group_names-Different,
  any-group_names,
}
use gator_cli.Opml.{
  Feed, Attributes, Outlines, feed_url, first_nonempty, walk_feed, inner_category, walk_one, walk,
  parse, trimmed_category, feed_outline, outlines, group_outline, group_outlines, written,
}

-- No white space is around the fields of the feed that `Parse` trims, and the address is not empty.
pub record IsClean (f : Feed) : Type 0 where
  pub title : trim_space f.title ≡ f.title
  pub url : trim_space f.xml_url ≡ f.xml_url
  pub has_url : text_eq f.xml_url [] ≡ false
  pub category : trim_space f.category ≡ f.category

first_nonempty-same : (s : Text) → trim_space s ≡ s → first_nonempty s s ≡ s
unfolding first_nonempty
first_nonempty-same [] h = refl
first_nonempty-same (c ∷ s) h = rw h refl

walk_feed_outline :
    (f : Feed) (c : Text) (st : Collected feed_url)
    → IsClean f
    → f.category ≡ c
    → walk_one (feed_outline f) c st ≡ collect feed_url f st
unfolding walk feed_outline walk_feed
walk_feed_outline f c st clean same =
    rw (clean.url, clean.has_url, first_nonempty-same f.title clean.title, sym same) refl

walk-outlines :
    (fs : List Feed) (c : Text) (st : Collected feed_url)
    → All (λ f. IsClean f × (f.category ≡ c)) fs
    → walk (outlines fs) c st ≡ collect_all feed_url fs st
unfolding walk outlines collect_all
walk-outlines [] c st h = refl
walk-outlines (f ∷ fs) c st h =
    ap (walk (outlines fs) c) (walk_feed_outline f c st h.0.0 h.0.1)
    ∙ walk-outlines fs c (collect feed_url f st) h.1

-- A name that Parse takes for a category.
abbrev IsName : Text → Type 0
IsName n = (trim_space n ≡ n) × (text_eq n [] ≡ false)

keep-IsClean :
    (n : Text) (fs : List Feed)
    → All IsClean fs
    → All (λ f. IsClean f × (f.category ≡ n)) (keep (in_group trimmed_category n) fs)
keep-IsClean n [] h = tt
keep-IsClean n (f ∷ fs) h = elim (Bool-cases (in_group trimmed_category n f)) [
  | inl e ↦
      rw e (
        (h.0, sym h.0.category ∙ (text_eq_iff (trim_space f.category) n).0 e),
        keep-IsClean n fs h.1,
      )
  | inr e ↦ rw e (keep-IsClean n fs h.1)
]

group_attributes : Text → Attributes
group_attributes n = record { text = n; title = n; kind = []; xml_url = []; html_url = [] }

inner_category-group : (n : Text) → IsName n → inner_category (group_attributes n) [] ≡ n
unfolding inner_category group_attributes
inner_category-group n name = rw (first_nonempty-same n name.0, name.1) refl

walk_feed-group : (n : Text) (st : Collected feed_url) → walk_feed (group_attributes n) [] st ≡ st
unfolding walk_feed group_attributes
walk_feed-group n st = refl

walk-group_outline :
    (n : Text) (fs : List Feed) (st : Collected feed_url)
    → IsName n
    → All IsClean fs
    → walk_one (group_outline fs n) [] st
      ≡ collect_all feed_url (keep (in_group trimmed_category n) fs) st
unfolding walk group_outline group_attributes
walk-group_outline n fs st name h =
    let children = outlines (keep (in_group trimmed_category n) fs) in
    ap (λ c. walk children c (walk_feed (group_attributes n) [] st)) (inner_category-group n name)
    ∙ ap (walk children n) (walk_feed-group n st)
    ∙ walk-outlines (keep (in_group trimmed_category n) fs) n st (keep-IsClean n fs h)

collect_all-append :
    (xs ys : List Feed) (st : Collected feed_url)
    → collect_all feed_url (xs ++ ys) st ≡ collect_all feed_url ys (collect_all feed_url xs st)
unfolding collect_all
collect_all-append [] ys st = refl
collect_all-append (x ∷ xs) ys st = collect_all-append xs ys (collect feed_url x st)

walk-group_outlines :
    (ns : List Text) (fs : List Feed) (rooted : Outlines) (st : Collected feed_url)
    → All IsName ns
    → All IsClean fs
    → walk (group_outlines fs ns rooted) [] st
      ≡ walk rooted [] (collect_all feed_url (in_groups trimmed_category ns fs) st)
unfolding walk group_outlines in_groups
walk-group_outlines [] fs rooted st names h = unfold collect_all in refl
walk-group_outlines (n ∷ ns) fs rooted st names h =
    ap (walk (group_outlines fs ns rooted) []) (walk-group_outline n fs st names.0 h)
    ∙ walk-group_outlines ns fs rooted _ names.1 h
    ∙ ap (walk rooted []) (
        sym (
          collect_all-append (keep (in_group trimmed_category n) fs)
            (in_groups trimmed_category ns fs) st))

group_names-IsName :
    (fs : List Feed) → All IsClean fs → All IsName (group_names trimmed_category fs)
unfolding group_names
group_names-IsName [] h = tt
group_names-IsName (f ∷ fs) h =
    elim (Bool-cases (
      text_eq (trim_space f.category) []
      || any (text_eq (trim_space f.category)) (group_names trimmed_category fs))) [
        | inl e ↦ rw e (group_names-IsName fs h.1)
        | inr e ↦ rw e ((ap trim_space h.0.category, ground (arith, e)), group_names-IsName fs h.1)
      ]

-- If no two feeds have one address, no address is empty, and no white space is around the titles,
-- the addresses and the categories, then Parse finds in the outlines that Write builds from the
-- feeds these feeds, in some order, each with all its fields.
pub parse-written :
    (feeds : List Feed)
    → All IsClean feeds
    → Once feed_url feeds
    → Perm (parse (written feeds)) feeds
unfolding parse written
parse-written feeds h o =
    let names = sort_texts (group_names trimmed_category feeds) in
    let roots = keep (in_group trimmed_category []) feeds in
    let start = nothing feed_url in
    let different =
      snoc_empty-Different names
        (any-sort_texts [] (group_names trimmed_category feeds)
          ∙ any-group_names trimmed_category [] feeds)
        (sort_texts-Different (group_names trimmed_category feeds)
          (group_names-Different trimmed_category feeds)) in
    let grouped = in_groups trimmed_category (names ++ [] ∷ []) feeds in
    let found : parse (written feeds) ≡ grouped =
      ap (λ (s : Collected feed_url). s.out)
        (walk-group_outlines names feeds (outlines roots) start
            (sort_stable-All text_before IsName (group_names trimmed_category feeds)
              (group_names-IsName feeds h))
            h
          ∙ walk-outlines roots [] _ (keep-IsClean [] feeds h)
          ∙ sym (collect_all-append (in_groups trimmed_category names feeds) roots start)
          ∙ ap (λ l. collect_all feed_url l start)
              (sym (in_groups-snoc trimmed_category names [] feeds)))
      ∙ collect_all-Once feed_url trimmed_category grouped start (nothing-IsCollected feed_url)
          (Once-in_groups feed_url trimmed_category (names ++ [] ∷ []) feeds different o) in
    subst (λ l. Perm l feeds) (sym found)
      (in_groups-perm trimmed_category (names ++ [] ∷ []) feeds different
        (Covers-sort_texts trimmed_category feeds feeds (λ k m. m)))
