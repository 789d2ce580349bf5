-- ===== src/Opml/Walk.antt =====
-- What `Parse` of internal/opml/opml.go finds in a tree of outlines.
use gator_cli.Prelude.{
  ◌≡◌, refl, ap, sym, ◌∙◌, Bool, false, not, ◌&&◌, ◌||◌, [], Text, text_eq, trim_space, arith,
  Bool-cases, inl, inr,
}
use gator_cli.Collect.{
  Collected, nothing, has_key, Once, IsCollected, nothing-IsCollected, collect-IsCollected,
  seen-collect,
}
use gator_cli.Opml.{
  Attributes, Outline, Outlines, outline, none, also, feed_url, walk_feed, inner_category, walk_one,
  walk, parse,
}

-- An outline of the tree has the address, once the blanks around it are cut, and the address is not empty.
abbrev pub has_address : Text → Attributes → Bool
has_address u a = not (text_eq (trim_space a.xml_url) []) && text_eq (trim_space a.xml_url) u

mutual
  pub addressed_one : Text → Outline → Bool
  addressed_one u (outline a children) = has_address u a || addressed u children

  pub addressed : Text → Outlines → Bool
  addressed u none = false
  addressed u (also o rest) = addressed_one u o || addressed u rest

seen-walk_feed :
    (a : Attributes) (category : Text) (st : Collected feed_url) (u : Text)
    → (walk_feed a category st).seen u ≡ (has_address u a || st.seen u)
unfolding walk_feed
seen-walk_feed a category st u = elim (Bool-cases (text_eq (trim_space a.xml_url) [])) [
  | inl e ↦ rw e refl
  | inr e ↦ rw e (seen-collect feed_url _ st u)
]

walk_feed-IsCollected :
    (a : Attributes) (category : Text) (st : Collected feed_url)
    → IsCollected feed_url st
    → IsCollected feed_url (walk_feed a category st)
unfolding walk_feed
walk_feed-IsCollected a category st h = elim (Bool-cases (text_eq (trim_space a.xml_url) [])) [
  | inl e ↦ rw e h
  | inr e ↦ rw e (collect-IsCollected feed_url _ st h)
]

or_swap : (x y z : Bool) → (y || (x || z)) ≡ ((x || y) || z)
or_swap x y z = ground arith

mutual
  unfolding walk addressed

  seen-walk_one :
      (o : Outline) (category : Text) (st : Collected feed_url) (u : Text)
      → (walk_one o category st).seen u ≡ (addressed_one u o || st.seen u)
  seen-walk_one (outline a children) category st u =
      seen-walk children (inner_category a category) (walk_feed a category st) u
      ∙ ap (λ b. addressed u children || b) (seen-walk_feed a category st u)
      ∙ or_swap (has_address u a) (addressed u children) (st.seen u)

  seen-walk :
      (os : Outlines) (category : Text) (st : Collected feed_url) (u : Text)
      → (walk os category st).seen u ≡ (addressed u os || st.seen u)
  seen-walk none category st u = refl
  seen-walk (also o rest) category st u =
      seen-walk rest category (walk_one o category st) u
      ∙ ap (λ b. addressed u rest || b) (seen-walk_one o category st u)
      ∙ or_swap (addressed_one u o) (addressed u rest) (st.seen u)

mutual
  unfolding walk

  walk_one-IsCollected :
      (o : Outline) (category : Text) (st : Collected feed_url)
      → IsCollected feed_url st
      → IsCollected feed_url (walk_one o category st)
  walk_one-IsCollected (outline a children) category st h =
      walk-IsCollected children (inner_category a category) (walk_feed a category st)
        (walk_feed-IsCollected a category st h)

  walk-IsCollected :
      (os : Outlines) (category : Text) (st : Collected feed_url)
      → IsCollected feed_url st
      → IsCollected feed_url (walk os category st)
  walk-IsCollected none category st h = h
  walk-IsCollected (also o rest) category st h =
      walk-IsCollected rest category (walk_one o category st) (walk_one-IsCollected o category st h)

no_more : (b : Bool) → (b || false) ≡ b
no_more b = ground arith

-- Parse finds each address once: no two feeds have one address, and an address is found exactly if
-- an outline anywhere in the tree has it, trimmed, and it is not empty.
pub parse_lem :
    (body : Outlines)
    → Once feed_url (parse body) × ((u : Text) → has_key feed_url u (parse body) ≡ addressed u body)
unfolding parse
parse_lem body =
    let good = walk-IsCollected body [] (nothing feed_url) (nothing-IsCollected feed_url) in
    (
      good.once,
      λ u. sym (good.known u) ∙ seen-walk body [] (nothing feed_url) u ∙ no_more (addressed u body),
    )
