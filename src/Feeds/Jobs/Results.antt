-- ===== src/Feeds/Jobs/Results.antt =====
-- What `addAll` and `scrape` (internal/feeds/feeds.go) return and report.
use mathlib.Core.Path.{subst}
use mathlib.Core.List.{Perm, perm_middle}
use mathlib.Core.List.Perm
use gator_cli.Prelude.{
  ℕ, zero, suc, ◌+◌, ◌*◌, ◌≤◌, ◌<◌, ◌≡◌, refl, ap, ◌∙◌, true, some, List, [], ◌∷◌, ◌++◌, length,
  get_elem?, set, arith, ◌⊎◌, inl, inr, Bool-cases, ltb, append-nil,
}
use gator_cli.Feeds.Jobs.{
  Task, waiting, calling, stored, locked, reported, finished, Jobs, sum_of, moved, Step, enter,
  call, lock, report, leave, leave_quietly, Run, here, next, all_waiting, started,
}
use gator_cli.Feeds.Jobs.Progress.{left_of, some_step, Run-left, CanStep}

-- The results that have been reported, in the order of the entries.
abbrev tell : {R : Type 0} → Task R → List R
tell waiting = []
tell calling = []
tell (stored r) = []
tell (locked r) = []
tell (reported r) = r ∷ []
tell (finished r) = r ∷ []

abbrev told : {R : Type 0} → List (Task R) → List R
told [] = []
told (t ∷ ts) = tell t ++ told ts

module _ {R : Type 0} where
  length-set : (ts : List (Task R)) (i : ℕ) (u : Task R) → length (set ts i u) ≡ length ts
  length-set [] i u = refl
  length-set (t ∷ ts) zero u = refl
  length-set (t ∷ ts) (suc i) u = ap suc (length-set ts i u)

  told-set_same :
      (ts : List (Task R)) (i : ℕ) (t u : Task R)
      → get_elem? ts i ≡ some t
      → tell u ≡ tell t
      → told (set ts i u) ≡ told ts
  told-set_same [] i t u found same = refl
  told-set_same (s ∷ ts) zero t u found same =
      let e : s ≡ t = ground (arith, found) in rw (e, same) refl
  told-set_same (s ∷ ts) (suc i) t u found same =
      ap (λ l. tell s ++ l) (told-set_same ts i t u found same)

  told-report :
      (ts : List (Task R)) (i : ℕ) (r : R)
      → get_elem? ts i ≡ some (locked r)
      → Perm (told (set ts i (reported r))) (r ∷ told ts)
  told-report [] i r found = cc
  told-report (s ∷ ts) zero r found =
      let e : s ≡ locked r = ground (arith, found) in rw e (Perm.refl _)
  told-report (s ∷ ts) (suc i) r found =
      Perm.trans (Perm.append_left (tell s) (told-report ts i r found))
        (perm_middle (tell s) (told ts))

module _ {R : Type 0} (outcome : ℕ → R) where
  -- A result that is there is the one of the goroutine's own entry.
  abbrev pub IsOwn : ℕ → Task R → Type 0
  IsOwn i waiting = Unit
  IsOwn i calling = Unit
  IsOwn i (stored r) = r ≡ outcome i
  IsOwn i (locked r) = r ≡ outcome i
  IsOwn i (reported r) = r ≡ outcome i
  IsOwn i (finished r) = r ≡ outcome i

  abbrev pub AllOwn : ℕ → List (Task R) → Type 0
  AllOwn n [] = Unit
  AllOwn n (t ∷ ts) = IsOwn n t × AllOwn (suc n) ts

  -- The results of so many entries, from one on.
  abbrev pub outcomes {ℓ} : {A : Type ℓ} → ℕ → List A → List R
  outcomes n [] = []
  outcomes n (e ∷ es) = outcome n ∷ outcomes (suc n) es

  -- The array `results` at the end.
  abbrev pub finished_with : List R → List (Task R)
  finished_with [] = []
  finished_with (r ∷ rs) = finished r ∷ finished_with rs

  set-AllOwn :
      (n : ℕ) (ts : List (Task R)) (i : ℕ) (u : Task R)
      → AllOwn n ts
      → IsOwn (n + i) u
      → AllOwn n (set ts i u)
  set-AllOwn n [] i u h own = tt
  set-AllOwn n (t ∷ ts) zero u h own = (subst (λ k. IsOwn k u) (omega arith) own, h.1)
  set-AllOwn n (t ∷ ts) (suc i) u h own =
      (h.0, set-AllOwn (suc n) ts i u h.1 (subst (λ k. IsOwn k u) (omega arith) own))

  get-IsOwn :
      (n : ℕ) (ts : List (Task R)) (i : ℕ) (t : Task R)
      → AllOwn n ts
      → get_elem? ts i ≡ some t
      → IsOwn (n + i) t
  get-IsOwn n [] i t h found = cc
  get-IsOwn n (s ∷ ts) zero t h found =
      let same : s ≡ t = ground (arith, found) in
      subst (λ k. IsOwn k t) (omega arith) (subst (IsOwn n) same h.0)
  get-IsOwn n (s ∷ ts) (suc i) t h found =
      subst (λ k. IsOwn k t) (omega arith) (get-IsOwn (suc n) ts i t h.1 found)

  -- Every result is the entry's own, and what was reported is what the tasks say.
  record IsFair (size : ℕ) (j : Jobs R) : Type 0 where
    sized : length j.tasks ≡ size
    own : AllOwn 0 j.tasks
    heard : Perm j.reports (told j.tasks)

  module _ (limit size : ℕ) where
    quiet_step :
        (j : Jobs R) (i : ℕ) (t u : Task R)
        → get_elem? j.tasks i ≡ some t
        → tell u ≡ tell t
        → IsOwn i u
        → IsFair size j
        → IsFair size (moved j i u)
    quiet_step j i t u found same own h = record {
      sized = length-set j.tasks i u ∙ h.sized;
      own = set-AllOwn 0 j.tasks i u h.own (subst (λ k. IsOwn k u) (omega arith) own);
      heard = rw (told-set_same j.tasks i t u found same) h.heard;
    }

    task-IsOwn :
        (j : Jobs R) (i : ℕ) (t : Task R) → IsFair size j → get_elem? j.tasks i ≡ some t → IsOwn i t
    task-IsOwn j i t h found =
        subst (λ k. IsOwn k t) (omega arith) (get-IsOwn 0 j.tasks i t h.own found)

    Step-IsFair : (j j' : Jobs R) → Step limit true outcome j j' → IsFair size j → IsFair size j'
    Step-IsFair j j' (enter i found room e) h = rw e (quiet_step j i _ calling found refl tt h)
    Step-IsFair j j' (call i found e) h =
        rw e (quiet_step j i _ (stored (outcome i)) found refl refl h)
    Step-IsFair j j' (lock i r on found free e) h =
        rw e (quiet_step j i _ (locked r) found refl (task-IsOwn j i _ h found) h)
    Step-IsFair j j' (report i r found e) h = rw e (record {
      sized = length-set j.tasks i (reported r) ∙ h.sized;
      own =
          set-AllOwn 0 j.tasks i (reported r) h.own (get-IsOwn 0 j.tasks i (locked r) h.own found);
      heard = Perm.trans (perm_middle j.reports []) (
          Perm.trans (Perm.cons r (rw append-nil h.heard))
            (Perm.symm (told-report j.tasks i r found)));
    })
    Step-IsFair j j' (leave i r found e) h =
        rw e (quiet_step j i _ (finished r) found refl (task-IsOwn j i _ h found) h)
    Step-IsFair j j' (leave_quietly i r off found e) h = cc

  started-IsFair {ℓ} : {A : Type ℓ} (entries : List A) → IsFair (length entries) (started entries)
  started-IsFair {A} entries = record {
    sized = sized_lem entries;
    own = own_lem 0 entries;
    heard = rw (told_lem entries) (Perm.refl []);
  }
    where
      sized_lem : (es : List A) → length (all_waiting {R = R} es) ≡ length es
      sized_lem [] = refl
      sized_lem (e ∷ es) = ap suc (sized_lem es)

      own_lem : (n : ℕ) (es : List A) → AllOwn n (all_waiting es)
      own_lem n [] = tt
      own_lem n (e ∷ es) = (tt, own_lem (suc n) es)

      told_lem : (es : List A) → told (all_waiting {R = R} es) ≡ []
      told_lem [] = refl
      told_lem (e ∷ es) = told_lem es

  Run-IsFair {ℓ} :
      {A : Type ℓ} (entries : List A) (limit : ℕ) (k : ℕ) (j : Jobs R)
      → Run limit true outcome (started entries) k j
      → IsFair (length entries) j
  Run-IsFair entries limit k j here = started-IsFair entries
  Run-IsFair entries limit k j (next {k = before} {j' = j'} {j'' = j''} run step) =
      Step-IsFair limit (length entries) j' j'' step (Run-IsFair entries limit before j' run)

  ended {ℓ} :
      {A : Type ℓ} (n : ℕ) (entries : List A) (ts : List (Task R))
      → length ts ≡ length entries
      → AllOwn n ts
      → sum_of left_of ts ≡ 0
      → (ts ≡ finished_with (outcomes n entries)) × (told ts ≡ outcomes n entries)
  ended n [] [] size own over = (refl, refl)
  ended n [] (t ∷ ts) size own over = absurd (omega (arith, size))
  ended n (e ∷ es) [] size own over = absurd (omega (arith, size))
  ended n (e ∷ es) (finished r ∷ ts) size own over =
      let (rest, heard) = ended (suc n) es ts (omega (arith, size)) own.1 (omega (arith, over)) in
      (cc (own.0, rest), cc (own.0, heard))
  ended n (e ∷ es) (waiting ∷ ts) size own over = absurd (omega (arith, over))
  ended n (e ∷ es) (calling ∷ ts) size own over = absurd (omega (arith, over))
  ended n (e ∷ es) (stored r ∷ ts) size own over = absurd (omega (arith, over))
  ended n (e ∷ es) (locked r ∷ ts) size own over = absurd (omega (arith, over))
  ended n (e ∷ es) (reported r ∷ ts) size own over = absurd (omega (arith, over))

  -- With at least one place and a report to make, the goroutines started for n entries make at
  -- most 5n steps in any order; as long as not all have finished one of them can make a step; and
  -- when none can, each entry has its own result, and each result was reported exactly once.
  pub run_ends {ℓ} :
      {A : Type ℓ} (entries : List A) (limit k : ℕ) (j : Jobs R)
      → 0 < limit
      → Run limit true outcome (started entries) k j
      → (k ≤ 5 * length entries)
        × (CanStep limit true outcome j
            ⊎ ((j.tasks ≡ finished_with (outcomes 0 entries))
                × Perm j.reports (outcomes 0 entries)))
  run_ends entries limit k j room run =
      let fair = Run-IsFair entries limit k j run in
      (
        omega (arith, Run-left entries limit true outcome k j run),
        elim (Bool-cases (ltb 0 (sum_of left_of j.tasks))) [
          | inl more ↦ inl (some_step limit true outcome j room (ground arith))
          | inr over ↦
              (let (tasks, heard) = ended 0 entries j.tasks fair.sized fair.own (ground arith) in
                inr (tasks, subst (Perm j.reports) heard fair.heard))
        ],
      )
