-- ===== src/Collect.antt =====
-- The way in which the program collects things that have a text of their own, each text once: a list
-- and a map of the texts that were seen (`Parse` of internal/opml/opml.go, `Resolve` of
-- internal/catalog/catalog.go).
pub mod Groups
use gator_cli.Prelude.{
  ◌≡◌, refl, ap, sym, ◌∙◌, Bool, true, false, ◌||◌, if◌then◌else◌, List, [], ◌∷◌, ◌++◌, Text,
  text_eq, text_eq_iff, text_eq_comm, arith, any, Bool-cases, inl, inr,
}

module _ {A : Type 0} (key : A → Text) where
  pub record Collected : Type 0 where
    pub out : List A
    pub seen : Text → Bool

  abbrev pub nothing : Collected
  nothing = record { out = []; seen = λ u. false }

  unfoldable pub collect : A → Collected → Collected
  collect x st =
      if st.seen (key x)
      then st
      else record { out = st.out ++ x ∷ []; seen = λ u. text_eq (key x) u || st.seen u }

  unfoldable pub collect_all : List A → Collected → Collected
  collect_all [] st = st
  collect_all (x ∷ xs) st = collect_all xs (collect x st)

  -- One of the things has the text.
  abbrev pub has_key : Text → List A → Bool
  has_key u xs = any (λ x. text_eq (key x) u) xs

  -- No two of the things have one text.
  abbrev pub Once : List A → Type 0
  Once [] = Unit
  Once (x ∷ xs) = (has_key (key x) xs ≡ false) × Once xs

  -- The map says what the list holds, and the list holds nothing twice.
  pub record IsCollected (st : Collected) : Type 0 where
    pub known : (u : Text) → st.seen u ≡ has_key u st.out
    pub once : Once st.out

  pub nothing-IsCollected : IsCollected nothing
  nothing-IsCollected = record { known = λ u. refl; once = tt }

  pub has_key-append :
      (u : Text) (xs ys : List A) → has_key u (xs ++ ys) ≡ (has_key u xs || has_key u ys)
  has_key-append u [] ys = refl
  has_key-append u (x ∷ xs) ys = ground (arith, has_key-append u xs ys)

  Once-append : (xs : List A) (x : A) → has_key (key x) xs ≡ false → Once xs → Once (xs ++ x ∷ [])
  Once-append [] x h o = (refl, tt)
  Once-append (y ∷ xs) x h o = (
    ground (arith, has_key-append (key y) xs (x ∷ []), text_eq_comm (key y) (key x)),
    Once-append xs x (ground arith) o.1,
  )

  pub seen-collect :
      (x : A) (st : Collected) (u : Text) → (collect x st).seen u ≡ (text_eq (key x) u || st.seen u)
  unfolding collect
  seen-collect x st u = elim (Bool-cases (st.seen (key x))) [
    | inl e ↦ rw e (already (key x) u e)
    | inr e ↦ rw e refl
  ]
    where
      already : (k u : Text) → st.seen k ≡ true → st.seen u ≡ (text_eq k u || st.seen u)
      already k u h = elim (Bool-cases (text_eq k u)) [
        | inl e ↦ rw e (ap st.seen (sym ((text_eq_iff k u).0 e)) ∙ h)
        | inr e ↦ rw e refl
      ]

  pub collect-IsCollected : (x : A) (st : Collected) → IsCollected st → IsCollected (collect x st)
  unfolding collect
  collect-IsCollected x st h = elim (Bool-cases (st.seen (key x))) [
    | inl e ↦ rw e h
    | inr e ↦ rw e (record {
      known = λ u. ground (arith, h.known u, has_key-append u st.out (x ∷ []));
      once = Once-append st.out x (sym (h.known (key x)) ∙ e) h.once;
    })
  ]

  pub seen-collect_all :
      (xs : List A) (st : Collected) (u : Text)
      → (collect_all xs st).seen u ≡ (has_key u xs || st.seen u)
  unfolding collect_all
  seen-collect_all [] st u = refl
  seen-collect_all (x ∷ xs) st u =
      ground (arith, seen-collect_all xs (collect x st) u, seen-collect x st u)

  pub collect_all-IsCollected :
      (xs : List A) (st : Collected) → IsCollected st → IsCollected (collect_all xs st)
  unfolding collect_all
  collect_all-IsCollected [] st h = h
  collect_all-IsCollected (x ∷ xs) st h =
      collect_all-IsCollected xs (collect x st) (collect-IsCollected x st h)
