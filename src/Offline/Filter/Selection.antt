-- ===== src/Offline/Filter/Selection.antt =====
-- What `selectPosts` selects, and in which order (internal/store/offline/filter.go).
use gator_cli.Prelude.{
  if◌then◌else◌, ℕ, ◌≤◌, ◌≡◌, ◌≢◌, ◌↔◌, ◌⊎◌, refl, ◌==◌, ltb, Bool, true, false, not, ◌&&◌, ◌||◌,
  [], ◌∷◌, arith, Text, text_eq, text_eq_iff, ==_iff, codes, has_text, keep, contains, Bool-cases,
  inl, inr,
}
use gator_cli.Prelude.Int.{is_positive}
use gator_cli.Sorting.{sort_stable-perm, IsSorted, sort_stable-IsSorted, IsPreorder}
use gator_cli.Database.{Uuid, nil_uuid}
use gator_cli.Wire.{to_posts}
use gator_cli.Store.{PostQuery, read_unread, read_only}
use gator_cli.Offline.Cache.{Snapshot, post_time, newer_first}
use gator_cli.Offline.Cache.Newest.{newer_first-IsPreorder}
use gator_cli.Offline.Filter.{
  Post, Locale, Names, to_lower, equal_fold, wall_clock, feed_names, mentions, skipped, older_first,
  chosen,
}
use gator_cli.Offline.Filter.Substrings.{Occurs, has_text_iff}
use mathlib.Core.List.{Perm}

-- What a query asks of a post.
pub record Matches (locale : Locale) (q : PostQuery) (read : Uuid → Bool) (names : Names) (p : Post)
    : Type 0 where
  pub feed : q.feed_id ≢ nil_uuid → p.feed_id ≡ q.feed_id
  pub feed_name :
      to_lower locale q.feed_name ≢ [] → Occurs (to_lower locale q.feed_name) (names p.feed_id)
  pub text :
      to_lower locale q.query ≢ []
      → Occurs (to_lower locale q.query) (to_lower locale p.title)
        ⊎ Occurs (to_lower locale q.query) (to_lower locale p.description.string)
  pub unread : q.read ≡ read_unread → read p.id ≡ false
  pub read_already : q.read ≡ read_only → read p.id ≡ true
  pub recent : q.since ≢ 0 → wall_clock locale q.since ≤ post_time p

nonempty : (s : Text) → s ≢ [] → text_eq s [] ≡ false
nonempty [] h = absurd (h refl)
nonempty (c ∷ s) h = refl

and_false : (a b : Bool) → (a ≡ true → b ≡ false) → (a && b) ≡ false
and_false true b h = h refl
and_false false b h = refl

not_of_true : (b : Bool) → b ≡ true → not b ≡ false
not_of_true b h = rw h refl

ne_nil : (s : Text) → not (text_eq s []) ≡ true → s ≢ []
ne_nil [] h k = cc
ne_nil (c ∷ s) h k = cc

ne_number : (a b : ℕ) → not (a == b) ≡ true → a ≢ b
ne_number a b h e = ground arith

none_holds :
    (a b c d e f : Bool)
    → a ≡ false
    → b ≡ false
    → c ≡ false
    → d ≡ false
    → e ≡ false
    → f ≡ false
    → (a || b || c || d || e || f) ≡ false
none_holds a b c d e f ha hb hc hd he hf = rw (ha, hb, hc, hd, he, hf) refl

either_true : (a b : Bool) → (a ≡ true) ⊎ (b ≡ true) → (a || b) ≡ true
either_true true b h = refl
either_true false b h = elim h [ inl e ↦ absurd (cc) | inr e ↦ e ]

module _ (locale : Locale) (q : PostQuery) (read : Uuid → Bool) (names : Names) (p : Post) where
  not_skipped-Matches : skipped locale q read names p ≡ false → Matches locale q read names p
  unfolding skipped mentions
  not_skipped-Matches h = record {
    feed = λ k. ground arith;
    feed_name =
        λ k. (has_text_iff _ _).0 (ground (arith, nonempty (to_lower locale q.feed_name) k));
    text = λ k. elim (Bool-cases (has_text (to_lower locale p.title) (to_lower locale q.query))) [
      | inl e ↦ inl ((has_text_iff _ _).0 e)
      | inr e ↦ inr ((has_text_iff _ _).0 (ground (arith, nonempty (to_lower locale q.query) k)))
    ];
    unread = λ k. ground (arith, text_eq_iff q.read read_unread);
    read_already = λ k. ground (arith, text_eq_iff q.read read_only);
    recent = λ k. ground arith;
  }

  Matches-not_skipped : Matches locale q read names p → skipped locale q read names p ≡ false
  unfolding skipped mentions
  Matches-not_skipped m =
      none_holds _ _ _ _ _ _
        (and_false _ _ λ a. not_of_true _ ((==_iff _ _).1 (m.feed (ne_number _ _ a))))
        (and_false _ _ λ a. not_of_true _ ((has_text_iff _ _).1 (m.feed_name (ne_nil _ a))))
        (and_false _ _ λ a. not_of_true _ (
          either_true _ _ (elim (m.text (ne_nil _ a)) [
            | inl o ↦ inl ((has_text_iff _ _).1 o)
            | inr o ↦ inr ((has_text_iff _ _).1 o)
          ])))
        (and_false _ _ λ a. m.unread ((text_eq_iff _ _).0 a))
        (and_false _ _ λ a. not_of_true _ (m.read_already ((text_eq_iff _ _).0 a)))
        (and_false _ _ λ a. late (m.recent (ne_number _ _ a)))
    where
      late :
          wall_clock locale q.since ≤ post_time p
          → ltb (post_time p) (wall_clock locale q.since) ≡ false
      late h = ground arith

-- The posts of the snapshot that the query keeps.
abbrev pub wanted : Locale → Snapshot → PostQuery → Post → Bool
wanted locale snap q p =
    not (skipped locale q (contains snap.read) (feed_names locale snap.subs (λ id. [])) p)

pub wanted_iff :
    (locale : Locale) (snap : Snapshot) (q : PostQuery) (p : Post)
    → (wanted locale snap q p ≡ true)
      ↔ Matches locale q (contains snap.read) (feed_names locale snap.subs (λ id. [])) p
wanted_iff locale snap q p =
    let names = feed_names locale snap.subs (λ id. []) in
    (
      λ h. not_skipped-Matches locale q (contains snap.read) names p (ground arith),
      λ m. rw (Matches-not_skipped locale q (contains snap.read) names p m) refl,
    )

older_first-IsPreorder : IsPreorder older_first
older_first-IsPreorder = record {
  le_total = λ a b h. ground arith;
  le_trans = λ a b c h k. ground arith;
}

-- Without a limit for each feed, the query picks exactly the cached posts that match it, as often
-- as they are cached, oldest first for asc and newest first otherwise.
pub chosen_lem :
    (locale : Locale) (snap : Snapshot) (q : PostQuery)
    → is_positive q.per_feed ≡ false
    → Perm (chosen locale snap q) (keep (wanted locale snap q) (to_posts snap.posts))
      × ((p : Post)
          → (wanted locale snap q p ≡ true)
            ↔ Matches locale q (contains snap.read) (feed_names locale snap.subs (λ id. [])) p)
      × IsSorted
          (if equal_fold locale q.sort_dir (codes "asc") then older_first else newer_first)
          (chosen locale snap q)
unfolding chosen
chosen_lem locale snap q flat =
    let out = keep (wanted locale snap q) (to_posts snap.posts) in
    (
      rw flat (elim (Bool-cases (equal_fold locale q.sort_dir (codes "asc"))) [
        | inl e ↦ rw e (sort_stable-perm older_first out)
        | inr e ↦ rw e (sort_stable-perm newer_first out)
      ]),
      wanted_iff locale snap q,
      rw flat (elim (Bool-cases (equal_fold locale q.sort_dir (codes "asc"))) [
        | inl e ↦ rw e (sort_stable-IsSorted older_first older_first-IsPreorder out)
        | inr e ↦ rw e (sort_stable-IsSorted newer_first newer_first-IsPreorder out)
      ]),
    )
