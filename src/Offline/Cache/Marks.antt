-- ===== src/Offline/Cache/Marks.antt =====
-- Which posts are read and which are saved in the snapshot (internal/store/offline/cache.go).
use gator_cli.Prelude.{
  ◌∙◌, text_eq, fun_ext, ap, ◌≡◌, refl, ◌==◌, if◌then◌else◌, Bool, true, false, not, ◌&&◌, ◌||◌,
  List, [], ◌∷◌, ◌++◌, arith, contains, Bool-cases, inl, inr,
}
use gator_cli.Database.{Uuid}
use gator_cli.Offline.Changes.{Change, op_read, op_read_all, op_bookmark}
use gator_cli.Offline.Cache.{
  apply, Snapshot, delete_id, count_unread, set_read, set_saved, set_all_read,
}

pub contains-append :
    (xs : List Uuid) (id j : Uuid) → contains (xs ++ id ∷ []) j ≡ (contains xs j || id == j)
contains-append [] id j = ground arith
contains-append (x ∷ xs) id j = ground (arith, contains-append xs id j)

pub contains-delete_id :
    (id j : Uuid) (xs : List Uuid) → contains (delete_id id xs) j ≡ (not (id == j) && contains xs j)
contains-delete_id id j [] = ground arith
contains-delete_id id j (x ∷ xs) = ground (arith, contains-delete_id id j xs)

-- The identifiers in a list are all different.
abbrev pub Distinct : List Uuid → Type 0
Distinct [] = Unit
Distinct (x ∷ xs) = (contains xs x ≡ false) × Distinct xs

Distinct-append :
    (xs : List Uuid) (id : Uuid) → contains xs id ≡ false → Distinct xs → Distinct (xs ++ id ∷ [])
Distinct-append [] id h d = (refl, tt)
Distinct-append (x ∷ xs) id h d =
    (ground (arith, contains-append xs id x), Distinct-append xs id (ground arith) d.1)

Distinct-delete_id : (id : Uuid) (xs : List Uuid) → Distinct xs → Distinct (delete_id id xs)
Distinct-delete_id id [] d = tt
Distinct-delete_id id (x ∷ xs) d = elim (Bool-cases (x == id)) [
  | inl e ↦ rw e (Distinct-delete_id id xs d.1)
  | inr e ↦ rw e (ground (arith, contains-delete_id id x xs), Distinct-delete_id id xs d.1)
]

-- After `setRead id read`, `id` is in the read list exactly if `read`, and no other post has moved
-- in or out of it.
pub contains-set_read :
    (id j : Uuid) (read : Bool) (snap : Snapshot)
    → contains (set_read id read snap).read j ≡ (if id == j then read else contains snap.read j)
unfolding set_read count_unread
contains-set_read id j read snap =
    ground (arith, contains-append snap.read id j, contains-delete_id id j snap.read)

-- So for the saved list under `setSaved`.
pub contains-set_saved :
    (id j : Uuid) (saved : Bool) (snap : Snapshot)
    → contains (set_saved id saved snap).saved j
      ≡ (if id == j then saved else contains snap.saved j)
unfolding set_saved
contains-set_saved id j saved snap =
    ground (arith, contains-append snap.saved id j, contains-delete_id id j snap.saved)

-- After a list of posts was marked, a post is read exactly if it was before or is in the list.
pub contains-set_all_read :
    (ids : List Uuid) (j : Uuid) (snap : Snapshot)
    → contains (set_all_read ids snap).read j ≡ (contains ids j || contains snap.read j)
unfolding set_all_read
contains-set_all_read [] j snap = refl
contains-set_all_read (id ∷ ids) j snap =
    ground
      (arith, contains-set_all_read ids j (set_read id true snap), contains-set_read id j true snap)

set_read-Distinct :
    (id : Uuid) (read : Bool) (snap : Snapshot)
    → Distinct snap.read
    → Distinct (set_read id read snap).read
unfolding set_read count_unread
set_read-Distinct id true snap d = elim (Bool-cases (contains snap.read id)) [
  | inl e ↦ rw e d
  | inr e ↦ rw e (Distinct-append snap.read id e d)
]
set_read-Distinct id false snap d = elim (Bool-cases (contains snap.read id)) [
  | inl e ↦ rw e (Distinct-delete_id id snap.read d)
  | inr e ↦ rw e d
]

set_all_read-Distinct :
    (ids : List Uuid) (snap : Snapshot) → Distinct snap.read → Distinct (set_all_read ids snap).read
unfolding set_all_read
set_all_read-Distinct [] snap d = d
set_all_read-Distinct (id ∷ ids) snap d =
    set_all_read-Distinct ids (set_read id true snap) (set_read-Distinct id true snap d)

set_saved-Distinct :
    (id : Uuid) (saved : Bool) (snap : Snapshot)
    → Distinct snap.saved
    → Distinct (set_saved id saved snap).saved
unfolding set_saved
set_saved-Distinct id true snap d = elim (Bool-cases (contains snap.saved id)) [
  | inl e ↦ rw e d
  | inr e ↦ rw e (Distinct-append snap.saved id e d)
]
set_saved-Distinct id false snap d = elim (Bool-cases (contains snap.saved id)) [
  | inl e ↦ rw e (Distinct-delete_id id snap.saved d)
  | inr e ↦ rw e d
]

-- What does not concern a list leaves it alone.
saved-set_read :
    (id : Uuid) (read : Bool) (snap : Snapshot) → (set_read id read snap).saved ≡ snap.saved
unfolding set_read count_unread
saved-set_read id read snap = ground arith

saved-set_all_read :
    (ids : List Uuid) (snap : Snapshot) → (set_all_read ids snap).saved ≡ snap.saved
unfolding set_all_read
saved-set_all_read [] snap = refl
saved-set_all_read (id ∷ ids) snap =
    saved-set_all_read ids (set_read id true snap) ∙ saved-set_read id true snap

read-set_saved :
    (id : Uuid) (saved : Bool) (snap : Snapshot) → (set_saved id saved snap).read ≡ snap.read
unfolding set_saved
read-set_saved id saved snap = ground arith

-- The abstract view: the set of posts that are read, and the set of those that are saved.
pub record Marks : Type 0 where
  pub is_read : Uuid → Bool
  pub is_saved : Uuid → Bool

unfoldable pub marks : Snapshot → Marks
marks snap = record { is_read = contains snap.read; is_saved = contains snap.saved }

-- What a change means for the two sets.
abbrev pub mean : Change → Marks → Marks
mean c m =
    if text_eq c.op op_read
    then record m { is_read = λ j. if c.post_id == j then c.value else m.is_read j }
    else if text_eq c.op op_read_all
    then record m { is_read = λ j. contains c.post_ids j || m.is_read j }
    else if text_eq c.op op_bookmark
    then record m { is_saved = λ j. if c.post_id == j then c.value else m.is_saved j }
    else m

same_marks :
    {f f' g g' : Uuid → Bool}
    → f ≡ f'
    → g ≡ g'
    → ◌≡◌ {A = Marks}
        (record { is_read = f; is_saved = g })
        (record { is_read = f'; is_saved = g' })
same_marks p q = λ i. record { is_read = p i; is_saved = q i }

-- Applying a change to the snapshot does to the sets of posts read and saved what the change means
-- for them.
pub marks-apply : (c : Change) (snap : Snapshot) → marks (apply c snap) ≡ mean c (marks snap)
unfolding apply marks
marks-apply c snap = elim (Bool-cases (text_eq c.op op_read)) [
  | inl e ↦ rw e (
      same_marks (fun_ext λ j. contains-set_read c.post_id j c.value snap)
        (ap contains (saved-set_read c.post_id c.value snap)))
  | inr e ↦ rw e (elim (Bool-cases (text_eq c.op op_read_all)) [
    | inl e ↦ rw e (
        same_marks (fun_ext λ j. contains-set_all_read c.post_ids j snap)
          (ap contains (saved-set_all_read c.post_ids snap)))
    | inr e ↦ rw e (elim (Bool-cases (text_eq c.op op_bookmark)) [
      | inl e ↦ rw e (
          same_marks (ap contains (read-set_saved c.post_id c.value snap))
            (fun_ext λ j. contains-set_saved c.post_id j c.value snap))
      | inr e ↦ rw e (ground arith)
    ])
  ])
]

-- If no identifier is twice among the read ones nor among the saved ones, so it is after any
-- change.
pub apply-Distinct :
    (c : Change) (snap : Snapshot)
    → Distinct snap.read
    → Distinct snap.saved
    → Distinct (apply c snap).read × Distinct (apply c snap).saved
unfolding apply
apply-Distinct c snap d e = ground (
  arith,
  set_read-Distinct c.post_id c.value snap,
  set_all_read-Distinct c.post_ids snap,
  set_saved-Distinct c.post_id c.value snap,
  saved-set_read c.post_id c.value snap,
  saved-set_all_read c.post_ids snap,
  read-set_saved c.post_id c.value snap,
)
