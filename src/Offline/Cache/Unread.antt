-- ===== src/Offline/Cache/Unread.antt =====
-- The unread counts of the feeds in the snapshot (internal/store/offline/cache.go).
use gator_cli.Prelude.{
  ◌-◌, ◌^◌, ◌≡◌, refl, ◌==◌, leb, if◌then◌else◌, Bool, true, false, ◌&&◌, Option, none, some, List,
  [], ◌∷◌, ◌++◌, arith, contains, find?, All, Bool-cases, inl, inr,
}
use gator_cli.Prelude.Int.{
  ℤ, pos, negsuc, ◌+ℤ◌, int64, at_least_zero, is_positive, pos_part, neg_part,
}
use gator_cli.Database.{Uuid, UnreadCount}
use gator_cli.Wire
use gator_cli.Offline.Changes.{Change}
use gator_cli.Offline.Cache.{
  Snapshot, delete_id, bump, bump_for, count_unread, set_read, set_saved, set_all_read, apply,
}
use gator_cli.Offline.Cache.Cases.{apply_cases}
use gator_cli.Offline.Cache.Marks.{contains-append}

abbrev pub IsCount : UnreadCount → Type 0
IsCount u = neg_part u.unread ≡ 0

at_least_zero_count : (z : ℤ) → neg_part (at_least_zero z) ≡ 0
at_least_zero_count (pos n) = refl
at_least_zero_count (negsuc n) = refl

positive_count : (z : ℤ) → is_positive z ≡ true → neg_part z ≡ 0
positive_count (pos n) h = refl
positive_count (negsuc n) h = cc

bump-IsCount :
    (feed : Uuid) (delta : ℤ) (us : List UnreadCount)
    → All IsCount us
    → All IsCount (bump feed delta us)
unfolding bump
bump-IsCount feed delta [] h = elim (Bool-cases (is_positive delta)) [
  | inl e ↦ rw e (positive_count delta e, tt)
  | inr e ↦ rw e tt
]
bump-IsCount feed delta (u ∷ us) h = elim (Bool-cases (u.feed_id == feed)) [
  | inl e ↦ rw e (at_least_zero_count (int64 (u.unread +ℤ delta)), h.1)
  | inr e ↦ rw e (h.0, bump-IsCount feed delta us h.1)
]

bump_for-IsCount :
    (p : Option Wire.Post) (delta : ℤ) (us : List UnreadCount)
    → All IsCount us
    → All IsCount (bump_for p delta us)
bump_for-IsCount none delta us h = h
bump_for-IsCount (some p) delta us h = bump-IsCount p.feed_id delta us h

set_read-IsCount :
    (id : Uuid) (read : Bool) (snap : Snapshot)
    → All IsCount snap.unread
    → All IsCount (set_read id read snap).unread
unfolding set_read count_unread
set_read-IsCount id read snap h =
    let p = find? (λ p. p.id == id) snap.posts in
    ground
      (arith, bump_for-IsCount p (negsuc 0) snap.unread h, bump_for-IsCount p (pos 1) snap.unread h)

set_all_read-IsCount :
    (ids : List Uuid) (snap : Snapshot)
    → All IsCount snap.unread
    → All IsCount (set_all_read ids snap).unread
unfolding set_all_read
set_all_read-IsCount [] snap h = h
set_all_read-IsCount (id ∷ ids) snap h =
    set_all_read-IsCount ids (set_read id true snap) (set_read-IsCount id true snap h)

unread-set_saved :
    (id : Uuid) (saved : Bool) (snap : Snapshot) → (set_saved id saved snap).unread ≡ snap.unread
unfolding set_saved
unread-set_saved id saved snap = ground arith

-- If no unread count is negative, none is after any change.
pub apply-IsCount :
    (c : Change) (snap : Snapshot) → All IsCount snap.unread → All IsCount (apply c snap).unread
apply-IsCount c snap h =
    apply_cases (λ s. All IsCount s.unread) c snap (set_read-IsCount c.post_id c.value snap h)
      (set_all_read-IsCount c.post_ids snap h) (rw (unread-set_saved c.post_id c.value snap) h) h h

-- The first count of the feed is positive and fits an `int64`.
abbrev pub counted : Uuid → List UnreadCount → Bool
counted feed [] = false
counted feed (u ∷ us) =
    if u.feed_id == feed
    then is_positive u.unread && leb (pos_part u.unread) (2 ^ 63 - 1)
    else counted feed us

abbrev pub counted_for : Option Wire.Post → List UnreadCount → Bool
counted_for none us = true
counted_for (some p) us = counted p.feed_id us

down_up :
    (z : ℤ)
    → (is_positive z && leb (pos_part z) (2 ^ 63 - 1)) ≡ true
    → at_least_zero (int64 (at_least_zero (int64 (z +ℤ negsuc 0)) +ℤ pos 1)) ≡ z
down_up z h = ground arith

bump_undo :
    (feed : Uuid) (us : List UnreadCount)
    → counted feed us ≡ true
    → bump feed (pos 1) (bump feed (negsuc 0) us) ≡ us
unfolding bump
bump_undo feed [] h = cc
bump_undo feed (u ∷ us) h = ground (arith, down_up u.unread, bump_undo feed us)

bump_for_undo :
    (p : Option Wire.Post) (us : List UnreadCount)
    → counted_for p us ≡ true
    → bump_for p (pos 1) (bump_for p (negsuc 0) us) ≡ us
bump_for_undo none us h = refl
bump_for_undo (some p) us h = bump_undo p.feed_id us h

delete_id-append :
    (xs : List Uuid) (id : Uuid) → contains xs id ≡ false → delete_id id (xs ++ id ∷ []) ≡ xs
delete_id-append [] id h = ground arith
delete_id-append (x ∷ xs) id h = ground (arith, delete_id-append xs id)

-- Marking an unread post read and then unread gives back the whole snapshot, if the post is not
-- cached or the first count of its feed is positive and fits 64 bits.
pub set_read_undo :
    (id : Uuid) (snap : Snapshot)
    → contains snap.read id ≡ false
    → counted_for (find? (λ p. p.id == id) snap.posts) snap.unread ≡ true
    → set_read id false (set_read id true snap) ≡ snap
unfolding set_read count_unread
set_read_undo id snap unread count =
    let p = find? (λ p. p.id == id) snap.posts in
    ground (
      arith,
      contains-append snap.read id id,
      bump_for_undo p snap.unread count,
      delete_id-append snap.read id unread,
    )
