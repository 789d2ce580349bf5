-- ===== src/Offline/Filter/Digest.antt =====
-- The digest of internal/store/offline/filter.go: what it keeps of each feed.
use gator_cli.Prelude.{
  ℕ, zero, suc, ◌-◌, ◌≤◌, ◌<◌, ◌≡◌, refl, ap, sym, ◌∙◌, ◌==◌, if◌then◌else◌, Bool, true, List, [],
  ◌∷◌, arith, length, length-take, take, keep, compare, text_compare, Ordering, Text,
}
use gator_cli.Sorting.{sort_stable, IsPreorder}
use gator_cli.Sorting.Comparisons.{
  compare-IsComparison, text_compare-IsComparison, then_by-IsComparison, on_key-IsComparison,
  reversed-IsComparison, not_greater-IsPreorder,
}
use gator_cli.Sorting.Restriction.{keep-sort, kept_pass, sort_agree}
use gator_cli.Database.{Uuid, Time}
use gator_cli.Offline.Cache.{post_time, newer_first}
use gator_cli.Offline.Filter.{Post, Names, freshest, digest_order, keep_some, digest}

abbrev pub of_feed : Uuid → Post → Bool
of_feed f p = p.feed_id == f

digest_order-IsPreorder :
    (fresh : Uuid → Time) (names : Names) → IsPreorder (digest_order fresh names)
digest_order-IsPreorder fresh names = not_greater-IsPreorder _ (
    then_by-IsComparison _ _
      (reversed-IsComparison _
        (on_key-IsComparison (λ (p : Post). fresh p.feed_id) compare compare-IsComparison))
      (then_by-IsComparison _ _
        (on_key-IsComparison (λ (p : Post). names p.feed_id) text_compare text_compare-IsComparison)
        (reversed-IsComparison _ (on_key-IsComparison post_time compare compare-IsComparison))))

compare_refl : (n : ℕ) → compare n n ≡ Ordering.eq
compare_refl n = ground arith

text_compare_refl : (s : Text) → text_compare s s ≡ Ordering.eq
text_compare_refl [] = refl
text_compare_refl (c ∷ s) = ground (arith, text_compare_refl s)

-- Within a feed the order of the digest is by time alone.
digest_order_within :
    (fresh : Uuid → Time) (names : Names) (f : Uuid) (a b : Post)
    → of_feed f a ≡ true
    → of_feed f b ≡ true
    → digest_order fresh names a b ≡ newer_first a b
digest_order_within fresh names f a b ha hb =
    let same : a.feed_id ≡ b.feed_id = ground arith in
    rw (same, compare_refl (fresh b.feed_id), text_compare_refl (names b.feed_id)) (ground arith)

take-nil : (n : ℕ) → take {A = Post} n [] ≡ []
take-nil zero = refl
take-nil (suc n) = refl

take_one :
    (n s : ℕ) (p : Post) (ps : List Post) → s < n → take (n - s) (p ∷ ps) ≡ p ∷ take (n - suc s) ps
take_one n s p ps h = let step : n - s ≡ suc (n - suc s) = omega arith in rw step refl

take_none : (n s : ℕ) (ps : List Post) → n ≤ s → take (n - s) ps ≡ []
take_none n s ps h = let none_left : n - s ≡ 0 = omega arith in rw none_left refl

-- The loop with the map `seen` takes of each feed as many as are still missing.
keep-keep_some :
    (f : Uuid) (n : ℕ) (ps : List Post) (seen : Uuid → ℕ)
    → keep (of_feed f) (keep_some n ps seen) ≡ take (n - seen f) (keep (of_feed f) ps)
unfolding keep_some
keep-keep_some f n [] seen = sym (take-nil (n - seen f))
keep-keep_some f n (p ∷ ps) seen =
    let seen' : (Uuid → ℕ) = λ id. if p.feed_id == id then suc (seen id) else seen id in
    let rest = keep (of_feed f) ps in
    ground (
      arith,
      keep-keep_some f n ps seen',
      keep-keep_some f n ps seen,
      take_one n (seen f) p rest,
      take_none n (seen f) rest,
      take_none n (seen f) (p ∷ rest),
    )

-- The digest keeps of each feed its n newest posts, newest first and stably, or all of them if
-- there are fewer.
pub digest_newest :
    (f : Uuid) (posts : List Post) (names : Names) (n : ℕ)
    → keep (of_feed f) (digest posts names n)
      ≡ take n (sort_stable newer_first (keep (of_feed f) posts))
unfolding digest
digest_newest f posts names n =
    let fresh = freshest posts (λ id. 0) in
    let le = digest_order fresh names in
    keep-keep_some f n (sort_stable le posts) (λ id. 0)
    ∙ ap (λ k. take k (keep (of_feed f) (sort_stable le posts))) (omega arith)
    ∙ ap (take n) (
        keep-sort le (digest_order-IsPreorder fresh names) (of_feed f) posts
        ∙ sort_agree le newer_first (λ p. of_feed f p ≡ true) (digest_order_within fresh names f)
            (keep (of_feed f) posts) (kept_pass (of_feed f) posts))

-- So no feed has more posts in the digest than were asked for.
pub digest_bound :
    (f : Uuid) (posts : List Post) (names : Names) (n : ℕ)
    → length (keep (of_feed f) (digest posts names n)) ≤ n
digest_bound f posts names n =
    rw (digest_newest f posts names n)
      (omega (arith, length-take n (sort_stable newer_first (keep (of_feed f) posts))))
