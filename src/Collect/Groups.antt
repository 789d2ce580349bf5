-- ===== src/Collect/Groups.antt =====
-- Things with texts of their own, put into groups by another text.
use mathlib.Core.Path.{subst}
use gator_cli.Prelude.{
  ◌≡◌, refl, ap, sym, ◌∙◌, Bool, true, false, not, ◌||◌, List, [], ◌∷◌, ◌++◌, append-nil,
  append_assoc, Text, text_eq, text_eq_iff, text_eq_refl, text_eq_comm, arith, keep, Bool-cases,
  inl, inr,
}
use gator_cli.Collect.{
  Collected, collect, collect_all, has_key, Once, IsCollected, collect-IsCollected, has_key-append,
}
use gator_cli.Grouping.{Different, in_group, in_groups, in_groups-other}

module _ {A : Type 0} (key group : A → Text) where
  has_key-keep :
      (u : Text) (p : A → Bool) (xs : List A)
      → has_key key u xs ≡ false
      → has_key key u (keep p xs) ≡ false
  has_key-keep u p [] h = refl
  has_key-keep u p (x ∷ xs) h = ground (arith, h, has_key-keep u p xs)

  Once-keep : (p : A → Bool) (xs : List A) → Once key xs → Once key (keep p xs)
  Once-keep p [] o = tt
  Once-keep p (x ∷ xs) o = elim (Bool-cases (p x)) [
    | inl e ↦ rw e (has_key-keep (key x) p xs o.0, Once-keep p xs o.1)
    | inr e ↦ rw e (Once-keep p xs o.1)
  ]

  -- What passes a test and what fails it have no text in common.
  keep-apart :
      (u : Text) (p : A → Bool) (xs : List A)
      → Once key xs
      → has_key key u (keep p xs) ≡ true
      → has_key key u (keep (λ x. not (p x)) xs) ≡ false
  keep-apart u p [] o h = refl
  keep-apart u p (x ∷ xs) o h = elim (Bool-cases (text_eq (key x) u)) [
    | inl same ↦
        let absent : has_key key u xs ≡ false =
          ap (λ k. has_key key k xs) (sym ((text_eq_iff (key x) u).0 same)) ∙ o.0 in
        elim (Bool-cases (p x)) [
          | inl e ↦ rw e (has_key-keep u (λ x. not (p x)) xs absent)
          | inr e ↦ absurd (cc (has_key-keep u p xs absent, rw e at h))
        ]
    | inr other ↦ elim (Bool-cases (p x)) [
      | inl e ↦ rw e (keep-apart u p xs o.1 (rw (e, other) at h))
      | inr e ↦ rw (e, other) (keep-apart u p xs o.1 (rw e at h))
    ]
  ]

  Once-append :
      (xs ys : List A)
      → Once key xs
      → Once key ys
      → ((u : Text) → has_key key u xs ≡ true → has_key key u ys ≡ false)
      → Once key (xs ++ ys)
  Once-append [] ys o q h = q
  Once-append (x ∷ xs) ys o q h = (
    has_key-append key (key x) xs ys
        ∙ ap (λ b. b || has_key key (key x) ys) o.0
        ∙ h (key x) (ap (λ b. b || has_key key (key x) xs) (text_eq_refl (key x))),
    Once-append xs ys o.1 q (λ u k. h u (ground (arith, k))),
  )

  has_key-in_groups :
      (u : Text) (ns : List Text) (xs : List A)
      → has_key key u xs ≡ false
      → has_key key u (in_groups group ns xs) ≡ false
  unfolding in_groups
  has_key-in_groups u [] xs h = refl
  has_key-in_groups u (n ∷ ns) xs h =
      has_key-append key u (keep (in_group group n) xs) (in_groups group ns xs)
      ∙ ap (λ b. b || has_key key u (in_groups group ns xs))
          (has_key-keep u (in_group group n) xs h)
      ∙ has_key-in_groups u ns xs h

  pub Once-in_groups :
      (ns : List Text) (xs : List A) → Different ns → Once key xs → Once key (in_groups group ns xs)
  unfolding in_groups
  Once-in_groups [] xs d o = tt
  Once-in_groups (n ∷ ns) xs d o =
      Once-append (keep (in_group group n) xs) (in_groups group ns xs)
        (Once-keep (in_group group n) xs o) (Once-in_groups ns xs d.1 o)
        (λ u k.
          ap (has_key key u) (sym (in_groups-other group n ns xs d.0))
          ∙ has_key-in_groups u ns (keep (λ x. not (in_group group n x)) xs)
              (keep-apart u (in_group group n) xs o k))

  Once-middle :
      (xs : List A) (x : A) (ys : List A) → Once key (xs ++ x ∷ ys) → has_key key (key x) xs ≡ false
  Once-middle [] x ys o = refl
  Once-middle (z ∷ xs) x ys o = ground (
    arith,
    o.0,
    has_key-append key (key z) xs (x ∷ ys),
    text_eq_comm (key z) (key x),
    Once-middle xs x ys o.1,
  )

  -- Collecting what has no text twice keeps all of it, in order.
  pub collect_all-Once :
      (xs : List A) (st : Collected key)
      → IsCollected key st
      → Once key (st.out ++ xs)
      → (collect_all key xs st).out ≡ st.out ++ xs
  unfolding collect_all collect
  collect_all-Once [] st good o = sym (append-nil st.out)
  collect_all-Once (x ∷ xs) st good o =
      let fresh : st.seen (key x) ≡ false = good.known (key x) ∙ Once-middle st.out x xs o in
      let st' : Collected key = record {
        out = st.out ++ x ∷ [];
        seen = λ u. text_eq (key x) u || st.seen u;
      } in
      let e : collect key x st ≡ st' = rw fresh refl in
      ap (λ (s : Collected key). (collect_all key xs s).out) e
      ∙ collect_all-Once xs st' (subst (IsCollected key) e (collect-IsCollected key x st good))
          (subst (Once key) (sym (append_assoc st.out (x ∷ []) xs)) o)
      ∙ append_assoc st.out (x ∷ []) xs
