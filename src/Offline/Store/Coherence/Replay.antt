-- ===== src/Offline/Store/Coherence/Replay.antt =====
-- What a queue of changes means for the sets of posts read and saved, one change after another.
use gator_cli.Prelude.{
  ◌≡◌, refl, ap, sym, ◌∙◌, ◌==◌, Bool, ◌||◌, if◌then◌else◌, List, [], ◌∷◌, ◌++◌, arith, text_eq,
  contains,
}
use gator_cli.Database.{Uuid}
use gator_cli.Offline.Changes.{Change, op_read, op_read_all, op_bookmark}
use gator_cli.Offline.Cache.Marks.{Marks, mean}

unfoldable pub replay : List Change → Marks → Marks
replay [] m = m
replay (c ∷ cs) m = replay cs (mean c m)

pub replay-append :
    (cs : List Change) (c : Change) (m : Marks) → replay (cs ++ c ∷ []) m ≡ mean c (replay cs m)
unfolding replay
replay-append [] c m = refl
replay-append (d ∷ cs) c m = replay-append cs c (mean d m)

-- At one post a change either fixes the mark or leaves it alone.
abbrev on_read : Change → Uuid → Bool → Bool
on_read c j b =
    if text_eq c.op op_read
    then (if c.post_id == j then c.value else b)
    else if text_eq c.op op_read_all
    then contains c.post_ids j || b
    else b

abbrev on_saved : Change → Uuid → Bool → Bool
on_saved c j b =
    if text_eq c.op op_read
    then b
    else if text_eq c.op op_read_all
    then b
    else if text_eq c.op op_bookmark
    then (if c.post_id == j then c.value else b)
    else b

mean_read : (c : Change) (m : Marks) (j : Uuid) → (mean c m).is_read j ≡ on_read c j (m.is_read j)
mean_read c m j = ground arith

mean_saved :
    (c : Change) (m : Marks) (j : Uuid) → (mean c m).is_saved j ≡ on_saved c j (m.is_saved j)
mean_saved c m j = ground arith

all_read : List Change → Uuid → Bool → Bool
all_read [] j b = b
all_read (c ∷ cs) j b = all_read cs j (on_read c j b)

all_saved : List Change → Uuid → Bool → Bool
all_saved [] j b = b
all_saved (c ∷ cs) j b = all_saved cs j (on_saved c j b)

replay_read :
    (cs : List Change) (m : Marks) (j : Uuid)
    → (replay cs m).is_read j ≡ all_read cs j (m.is_read j)
unfolding replay all_read
replay_read [] m j = refl
replay_read (c ∷ cs) m j = replay_read cs (mean c m) j ∙ ap (all_read cs j) (mean_read c m j)

replay_saved :
    (cs : List Change) (m : Marks) (j : Uuid)
    → (replay cs m).is_saved j ≡ all_saved cs j (m.is_saved j)
unfolding replay all_saved
replay_saved [] m j = refl
replay_saved (c ∷ cs) m j = replay_saved cs (mean c m) j ∙ ap (all_saved cs j) (mean_saved c m j)

same_marks :
    (m n : Marks)
    → ((j : Uuid) → m.is_read j ≡ n.is_read j)
    → ((j : Uuid) → m.is_saved j ≡ n.is_saved j)
    → m ≡ n
same_marks m n p q = λ i. record { is_read = λ j. p j i; is_saved = λ j. q j i }

on_read_absorbs :
    (c : Change) (j : Uuid) (g : Bool → Bool) (b : Bool)
    → on_read c j (g (on_read c j b)) ≡ on_read c j (g b)
on_read_absorbs c j g b = ground arith

on_saved_absorbs :
    (c : Change) (j : Uuid) (g : Bool → Bool) (b : Bool)
    → on_saved c j (g (on_saved c j b)) ≡ on_saved c j (g b)
on_saved_absorbs c j g b = ground arith

-- Applying a change twice is applying it once.
pub mean_idem : (c : Change) (m : Marks) → mean c (mean c m) ≡ mean c m
mean_idem c m =
    same_marks (mean c (mean c m)) (mean c m)
      (λ j.
        mean_read c (mean c m) j
        ∙ ap (on_read c j) (mean_read c m j)
        ∙ on_read_absorbs c j (λ b. b) (m.is_read j)
        ∙ sym (mean_read c m j))
      (λ j.
        mean_saved c (mean c m) j
        ∙ ap (on_saved c j) (mean_saved c m j)
        ∙ on_saved_absorbs c j (λ b. b) (m.is_saved j)
        ∙ sym (mean_saved c m j))

-- A change that is applied at the end absorbs what it did before the others.
pub mean-replay_absorbs :
    (c : Change) (cs : List Change) (m : Marks)
    → mean c (replay cs (mean c m)) ≡ mean c (replay cs m)
mean-replay_absorbs c cs m =
    same_marks (mean c (replay cs (mean c m))) (mean c (replay cs m))
      (λ j.
        mean_read c (replay cs (mean c m)) j
        ∙ ap (on_read c j) (replay_read cs (mean c m) j ∙ ap (all_read cs j) (mean_read c m j))
        ∙ on_read_absorbs c j (all_read cs j) (m.is_read j)
        ∙ sym (mean_read c (replay cs m) j ∙ ap (on_read c j) (replay_read cs m j)))
      (λ j.
        mean_saved c (replay cs (mean c m)) j
        ∙ ap (on_saved c j) (replay_saved cs (mean c m) j ∙ ap (all_saved cs j) (mean_saved c m j))
        ∙ on_saved_absorbs c j (all_saved cs j) (m.is_saved j)
        ∙ sym (mean_saved c (replay cs m) j ∙ ap (on_saved c j) (replay_saved cs m j)))
