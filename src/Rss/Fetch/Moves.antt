-- ===== src/Rss/Fetch/Moves.antt =====
-- Redirects (`FetchFeed` of internal/rss/rss.go): that they end, and when the address of a feed changes.
use mathlib.Core.Path.{subst}
use gator_cli.Prelude.{
  ℕ, zero, suc, ◌+◌, ◌≤◌, ◌<◌, ◌≡◌, ◌≢◌, ◌⊎◌, inl, inr, refl, ap, sym, ◌∙◌, ◌==◌, ltb, leb, Bool,
  true, ◌&&◌, ◌||◌, if◌then◌else◌, Option, none, some, Text, arith, Bool-cases,
}
use gator_cli.Store.{Result, ok, err}
use gator_cli.Rss.{Fetched, got_feed, got_none, Xml, parse_feed}
use gator_cli.Rss.Fetch.{
  max_redirects, Source, Page, Web, is_permanent, next_url, Landing, Outcome, validated, max_body,
  hop, after_answer, follow, read_feed, landed, fetch_outcome, fetch_from, fetch_feed,
}

module _ {W : Type 0} (web : Web W) (src : Source) where
  hop-ends :
      (url : Text) (made : ℕ) (moved : Bool) (page : Page) (w : W) (onward : Text → Outcome web src)
      (next : Option (Result Text))
      → ((u : Text) → made < max_redirects → (onward u).0 ≢ none)
      → (hop web src url made moved page w onward next).0 ≢ none
  hop-ends url made moved page w onward none more = cc
  hop-ends url made moved page w onward (some (err e)) more = cc
  hop-ends url made moved page w onward (some (ok u)) more =
      elim (Bool-cases (leb max_redirects made)) [
        | inl enough ↦ rw enough (cc)
        | inr few ↦ rw few (more u (ground arith))
      ]

  after_answer-ends :
      (url : Text) (made : ℕ) (moved : Bool) (onward : Text → Bool → W → Outcome web src)
      (reply : Result Page × W)
      → ((u : Text) (m : Bool) (w : W) → made < max_redirects → (onward u m w).0 ≢ none)
      → (after_answer web src url made moved onward reply).0 ≢ none
  after_answer-ends url made moved onward (err e, w) more = cc
  after_answer-ends url made moved onward (ok page, w) more =
      hop-ends url made moved page w _ (next_url web url page)
        (λ u few. more u (moved && is_permanent page.status) w few)

  -- Fuel for what is left of the ten requests is enough.
  follow-ends :
      (fuel : ℕ) (url : Text) (made : ℕ) (moved : Bool) (w : W)
      → max_redirects ≤ fuel + made
      → made < max_redirects
      → (follow web src fuel url made moved w).0 ≢ none
  unfolding follow
  follow-ends zero url made moved w enough few = absurd (omega arith)
  follow-ends (suc fuel) url made moved w enough few =
      after_answer-ends url (made + 1) moved (λ u m w'. follow web src fuel u (made + 1) m w')
        (web.answer url src.etag src.last_modified w)
        (λ u m w' few'. follow-ends fuel u (made + 1) m w' (omega arith) few')

  fetch_outcome-ends :
      (xml : Xml) (o : Outcome web src) → o.0 ≢ none → (fetch_outcome xml src o).0 ≢ none
  fetch_outcome-ends xml (none, w) h = absurd (h refl)
  fetch_outcome-ends xml (some (err e), w) h = cc
  fetch_outcome-ends xml (some (ok l), w) h = cc

  fetch_from-ends :
      (xml : Xml) (parsed : Result Text) (w : W) → (fetch_from web xml src parsed w).0 ≢ none
  fetch_from-ends xml (err e) w = cc
  fetch_from-ends xml (ok url) w =
      fetch_outcome-ends xml (follow web src max_redirects url 0 true w)
        (follow-ends max_redirects url 0 true w (omega arith) (omega arith))

  -- Whatever the servers answer, redirects without end included, FetchFeed comes to a result
  -- within ten requests.
  pub fetch_feed-ends : (xml : Xml) (w : W) → (fetch_feed web xml src w).0 ≢ none
  unfolding fetch_feed
  fetch_feed-ends xml w = fetch_from-ends xml (web.parse src.url) w

  -- An address that permanent redirects lead to.
  pub data Trail (start : Text) : Text → Type 0 where
    stay : Trail start start
    moved_on :
        {u v : Text} (page : Page) (w w' : W)
        → Trail start u
        → web.answer u src.etag src.last_modified w ≡ (ok page, w')
        → is_permanent page.status ≡ true
        → next_url web u page ≡ some (ok v)
        → Trail start v

  -- Where the client lands for good, it was led by permanent redirects.
  abbrev IsLed : Text → Outcome web src → Type 0
  IsLed start (o, w) = (l : Landing) → o ≡ some (ok l) → l.moved_for_good ≡ true → Trail start l.url

  hop-IsLed :
      (start url : Text) (made : ℕ) (moved : Bool) (page : Page) (w : W)
      (onward : Text → Outcome web src) (next : Option (Result Text))
      → (moved ≡ true → Trail start url)
      → ((u : Text) → next ≡ some (ok u) → IsLed start (onward u))
      → IsLed start (hop web src url made moved page w onward next)
  hop-IsLed start url made moved page w onward none here more = λ l e good.
      let same : record { page = page; url = url; moved_for_good = moved } ≡ l = cc in
      subst (λ (k : Landing). Trail start k.url) same
        (here (subst (λ (k : Landing). k.moved_for_good ≡ true) (sym same) good))
  hop-IsLed start url made moved page w onward (some (err e')) here more = λ l e good. cc
  hop-IsLed start url made moved page w onward (some (ok u)) here more =
      elim (Bool-cases (leb max_redirects made)) [
        | inl enough ↦ rw enough (λ l e good. cc)
        | inr few ↦ rw few (more u refl)
      ]

  after_answer-IsLed :
      (start url : Text) (made : ℕ) (moved : Bool) (onward : Text → Bool → W → Outcome web src)
      (w : W) (reply : Result Page × W)
      → web.answer url src.etag src.last_modified w ≡ reply
      → (moved ≡ true → Trail start url)
      → ((u : Text) (m : Bool) (w' : W) → (m ≡ true → Trail start u) → IsLed start (onward u m w'))
      → IsLed start (after_answer web src url made moved onward reply)
  after_answer-IsLed start url made moved onward w (err e', w') asked here more = λ l e good. cc
  after_answer-IsLed start url made moved onward w (ok page, w') asked here more =
      hop-IsLed start url made moved page w' _ (next_url web url page) here (λ u led.
        more u (moved && is_permanent page.status) w' (λ both.
          moved_on page w w' (here (ground (arith, both))) asked (ground (arith, both)) led))

  follow-IsLed :
      (start : Text) (fuel : ℕ) (url : Text) (made : ℕ) (moved : Bool) (w : W)
      → (moved ≡ true → Trail start url)
      → IsLed start (follow web src fuel url made moved w)
  unfolding follow
  follow-IsLed start zero url made moved w here = λ l e good. cc
  follow-IsLed start (suc fuel) url made moved w here =
      after_answer-IsLed start url (made + 1) moved
        (λ u m w'. follow web src fuel u (made + 1) m w') w
        (web.answer url src.etag src.last_modified w) refl here
        (λ u m w' led. follow-IsLed start fuel u (made + 1) m w' led)

  -- The source keeps its address, or takes one that permanent redirects lead to.
  abbrev pub IsMoved : Source → Type 0
  IsMoved next =
      (next.url ≡ src.url)
      ⊎ ((start : Text) × (web.parse src.url ≡ ok start) × Trail start next.url)

  validated-url :
      (next : Source) (l : Landing) (f : Fetched)
      → ((validated src next l f).1.url ≡ src.url) ⊎ ((validated src next l f).1.url ≡ next.url)
  validated-url next l (got_none e) = inl refl
  validated-url next l (got_feed f) = inr refl

  read_feed-url :
      (xml : Xml) (next : Source) (l : Landing) (body : Result Text)
      → ((read_feed xml src next l body).1.url ≡ src.url)
        ⊎ ((read_feed xml src next l body).1.url ≡ next.url)
  read_feed-url xml next l (err e) = inl refl
  read_feed-url xml next l (ok body) = elim (Bool-cases (ltb max_body l.page.size)) [
    | inl large ↦ rw large (inl refl)
    | inr small ↦ rw small (validated-url next l (parse_feed xml body l.url))
  ]

  landed_next : Landing → Source
  landed_next l = if l.moved_for_good then record src { url = l.url } else src

  landed-url :
      (xml : Xml) (l : Landing)
      → ((landed xml src l).1.url ≡ src.url) ⊎ ((landed xml src l).1.url ≡ (landed_next l).url)
  unfolding landed_next
  landed-url xml l = elim (Bool-cases (l.page.status == 304)) [
    | inl unmodified_ ↦ rw unmodified_ (inr refl)
    | inr other ↦ rw other (elim (Bool-cases (ltb l.page.status 200 || leb 300 l.page.status)) [
      | inl bad ↦ rw bad (inl refl)
      | inr good ↦ rw good (read_feed-url xml (landed_next l) l l.page.body)
    ])
  ]

  landed-IsMoved :
      (xml : Xml) (start : Text) (l : Landing)
      → web.parse src.url ≡ ok start
      → (l.moved_for_good ≡ true → Trail start l.url)
      → IsMoved (landed xml src l).1
  unfolding landed_next
  landed-IsMoved xml start l parsed led = elim (landed-url xml l) [
    | inl same ↦ inl same
    | inr next ↦ elim (Bool-cases (l.moved_for_good)) [
      | inr back ↦ inl (next ∙ rw back refl)
      | inl good ↦ inr (start, parsed, subst (Trail start) (sym (next ∙ rw good refl)) (led good))
    ]
  ]

  fetch_outcome-IsMoved :
      (xml : Xml) (start : Text) (o : Outcome web src)
      → web.parse src.url ≡ ok start
      → IsLed start o
      → (fetched : Fetched) (next : Source) → (fetch_outcome xml src o).0 ≡ some (fetched, next)
      → IsMoved next
  fetch_outcome-IsMoved xml start (none, w) parsed led fetched next e = cc
  fetch_outcome-IsMoved xml start (some (err e'), w) parsed led fetched next e =
      inl (let same : src ≡ next = cc in ap (λ (s : Source). s.url) (sym same))
  fetch_outcome-IsMoved xml start (some (ok l), w) parsed led fetched next e =
      let same : (landed xml src l).1 ≡ next = cc in
      subst IsMoved same (landed-IsMoved xml start l parsed (led l refl))

  fetch_from-IsMoved :
      (xml : Xml) (parsed : Result Text) (w : W) (fetched : Fetched) (next : Source)
      → web.parse src.url ≡ parsed
      → (fetch_from web xml src parsed w).0 ≡ some (fetched, next)
      → IsMoved next
  fetch_from-IsMoved xml (err e') w fetched next parsed e =
      inl (let same : src ≡ next = cc in ap (λ (s : Source). s.url) (sym same))
  fetch_from-IsMoved xml (ok url) w fetched next parsed e =
      fetch_outcome-IsMoved xml url (follow web src max_redirects url 0 true w) parsed
        (follow-IsLed url max_redirects url 0 true w (λ _. stay)) fetched next e

  -- The address that FetchFeed gives back is the one it was given, or one that a chain of
  -- redirects with status 301 or 308 only leads to from there.
  pub fetch_feed-IsMoved :
      (xml : Xml) (w : W) (fetched : Fetched) (next : Source)
      → (fetch_feed web xml src w).0 ≡ some (fetched, next)
      → IsMoved next
  unfolding fetch_feed
  fetch_feed-IsMoved xml w fetched next e =
      fetch_from-IsMoved xml (web.parse src.url) w fetched next refl e
