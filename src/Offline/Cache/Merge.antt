-- ===== src/Offline/Cache/Merge.antt =====
-- `mergePosts` of internal/store/offline/cache.go: the map of places against a plain search, and
-- what the merged posts are.
use gator_cli.Prelude.{
  ℕ, suc, ◌+◌, ◌≡◌, refl, ap, sym, ◌∙◌, ◌==◌, ==_iff, if◌then◌else◌, Bool, false, Option, none,
  some, List, [], ◌∷◌, arith, length, any, Bool-cases, inl, inr,
}
use gator_cli.Sorting.{Apart}
use gator_cli.Database
use gator_cli.Database.{Uuid}
use gator_cli.Offline.Cache.{Places, place, index_posts, put_post, placed, merge_loop}

abbrev Post : Type 0
Post = Database.Post

abbrev pub post_id : Post → Uuid
post_id p = p.id

abbrev pub has_id : Uuid → List Post → Bool
has_id j ps = any (λ p. p.id == j) ps

-- The specification: a post takes the place of the one with its identifier, or goes to the end.
unfoldable pub upsert : Post → List Post → List Post
upsert p [] = p ∷ []
upsert p (q ∷ qs) = if q.id == p.id then p ∷ qs else q ∷ upsert p qs

unfoldable pub upsert_all : List Post → List Post → List Post
upsert_all [] ms = ms
upsert_all (p ∷ ps) ms = upsert_all ps (upsert p ms)

-- The place of an identifier, by search.
abbrev next : Option ℕ → Option ℕ
next none = none
next (some i) = some (suc i)

index_of : Uuid → List Post → Option ℕ
index_of j [] = none
index_of j (p ∷ ps) = if p.id == j then some 0 else next (index_of j ps)

abbrev shifted : ℕ → Option ℕ → Option ℕ → Option ℕ
shifted i none d = d
shifted i (some k) d = some (i + k)

index_of-none : (j : Uuid) (ps : List Post) → has_id j ps ≡ false → index_of j ps ≡ none
unfolding index_of
index_of-none j [] h = refl
index_of-none j (p ∷ ps) h = ground (arith, index_of-none j ps)

shifted-next : (i : ℕ) (o d : Option ℕ) → shifted (suc i) o d ≡ shifted i (next o) d
shifted-next i none d = refl
shifted-next i (some k) d = ap some (omega arith)

index_posts-index_of :
    (i : ℕ) (ps : List Post) (at : Places) (j : Uuid)
    → Apart post_id ps
    → index_posts i ps at j ≡ shifted i (index_of j ps) (at j)
unfolding index_posts index_of
index_posts-index_of i [] at j d = refl
index_posts-index_of i (p ∷ ps) at j d = elim (Bool-cases (p.id == j)) [
  | inl e ↦
      let same : p.id ≡ j = (==_iff p.id j).0 e in
      let gone : index_of j ps ≡ none = index_of-none j ps (rw same at d.0) in
      index_posts-index_of (suc i) ps (place p.id i at) j d.1 ∙ rw (gone, e) (ap some (omega arith))
  | inr e ↦
      index_posts-index_of (suc i) ps (place p.id i at) j d.1
      ∙ rw e (shifted-next i (index_of j ps) (at j))
]

put_post-next :
    (o : Option ℕ) (p m : Post) (ms : List Post)
    → put_post (next o) p (m ∷ ms) ≡ m ∷ put_post o p ms
put_post-next none p m ms = refl
put_post-next (some i) p m ms = refl

put_post-index_of : (p : Post) (ms : List Post) → put_post (index_of p.id ms) p ms ≡ upsert p ms
unfolding index_of upsert
put_post-index_of p [] = refl
put_post-index_of p (m ∷ ms) = elim (Bool-cases (m.id == p.id)) [
  | inl e ↦ rw e refl
  | inr e ↦
      rw e (put_post-next (index_of p.id ms) p m ms ∙ ap (λ l. m ∷ l) (put_post-index_of p ms))
]

abbrev settled : Option ℕ → Uuid → Uuid → ℕ → Option ℕ → Option ℕ
settled (some i) id j n d = d
settled none id j n d = if id == j then some n else d

settled-next :
    (o : Option ℕ) (id j : Uuid) (n : ℕ) (d : Option ℕ)
    → next (settled o id j n d) ≡ settled (next o) id j (suc n) (next d)
settled-next (some i) id j n d = refl
settled-next none id j n d = ground arith

settled_found :
    (o : Option ℕ) (id j : Uuid) (n : ℕ) (d : Option ℕ) → (id == j) ≡ false → settled o id j n d ≡ d
settled_found (some i) id j n d h = refl
settled_found none id j n d h = rw h refl

index_of-upsert :
    (j : Uuid) (p : Post) (ms : List Post)
    → index_of j (upsert p ms) ≡ settled (index_of p.id ms) p.id j (length ms) (index_of j ms)
unfolding index_of upsert
index_of-upsert j p [] = refl
index_of-upsert j p (m ∷ ms) = elim (Bool-cases (m.id == p.id)) [
  | inl e ↦ rw e (rw ((==_iff m.id p.id).0 e) refl)
  | inr e ↦ rw e (elim (Bool-cases (m.id == j)) [
    | inl e' ↦ rw e' (
        sym (
          settled_found (next (index_of p.id ms)) p.id j (suc (length ms)) (some 0) (ground arith)))
    | inr e' ↦ rw e' (
        ap next (index_of-upsert j p ms)
        ∙ settled-next (index_of p.id ms) p.id j (length ms) (index_of j ms))
  ])
]

placed-settled :
    (o : Option ℕ) (p : Post) (ms : List Post) (at : Places) (j : Uuid)
    → placed o p ms at j ≡ settled o p.id j (length ms) (at j)
placed-settled (some i) p ms at j = refl
placed-settled none p ms at j = refl

merge_loop-upsert_all :
    (ps ms : List Post) (at : Places)
    → ((j : Uuid) → at j ≡ index_of j ms)
    → merge_loop ps ms at ≡ upsert_all ps ms
unfolding merge_loop upsert_all
merge_loop-upsert_all [] ms at h = refl
merge_loop-upsert_all (p ∷ ps) ms at h =
    rw (h p.id, put_post-index_of p ms)
      (merge_loop-upsert_all ps (upsert p ms) (placed (index_of p.id ms) p ms at) λ j.
        placed-settled (index_of p.id ms) p ms at j
        ∙ ap (settled (index_of p.id ms) p.id j (length ms)) (h j)
        ∙ sym (index_of-upsert j p ms))

-- If no two cached posts have one identifier, merging new posts into them by the map of places
-- gives what a plain search for each identifier gives.
pub merge_loop-search :
    (ps ms : List Post)
    → Apart post_id ms
    → merge_loop ps ms (index_posts 0 ms (λ _. none)) ≡ upsert_all ps ms
merge_loop-search ps ms d =
    merge_loop-upsert_all ps ms (index_posts 0 ms (λ _. none))
      λ j. index_posts-index_of 0 ms (λ _. none) j d ∙ from_zero (index_of j ms)
  where
    from_zero : (o : Option ℕ) → shifted 0 o none ≡ o
    from_zero none = refl
    from_zero (some k) = ap some (omega arith)
