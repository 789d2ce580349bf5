-- ===== src/Feeds/Jobs/Counts.antt =====
-- How many goroutines of `addAll` and `scrape` (internal/feeds/feeds.go) hold a place or the mutex.
use gator_cli.Prelude.{
  ℕ, zero, suc, ◌+◌, ◌≤◌, ◌<◌, ◌≡◌, refl, Bool, some, List, [], ◌∷◌, get_elem?, set, arith, inl,
  inr, Bool-cases, ltb,
}
use gator_cli.Feeds.Jobs.{
  Task, calling, Jobs, holds_place, holds_lock, sum_of, Step, enter, call, lock, report, leave,
  leave_quietly, Run, here, next, all_waiting, started,
}

module _ {R : Type 0} where
  pub sum_of-set :
      (weight : Task R → ℕ) (ts : List (Task R)) (i : ℕ) (t u : Task R)
      → get_elem? ts i ≡ some t
      → sum_of weight (set ts i u) + weight t ≡ sum_of weight ts + weight u
  sum_of-set weight [] i t u h = cc
  sum_of-set weight (s ∷ ts) zero t u h = let e : s ≡ t = ground (arith, h) in rw e (omega arith)
  sum_of-set weight (s ∷ ts) (suc i) t u h = omega (arith, sum_of-set weight ts i t u h)

  pub sum_of_pos :
      (weight : Task R → ℕ) (ts : List (Task R))
      → 0 < sum_of weight ts
      → (i : ℕ) × (t : Task R) × (get_elem? ts i ≡ some t) × (0 < weight t)
  sum_of_pos weight [] h = absurd (omega arith)
  sum_of_pos weight (t ∷ ts) h = elim (Bool-cases (ltb 0 (weight t))) [
    | inl here_ ↦ (0, t, refl, ground arith)
    | inr later ↦
        (let (i, u, found, p) = sum_of_pos weight ts (ground arith) in (suc i, u, found, p))
  ]

  -- The semaphore and the mutex are kept.
  pub record IsBounded (limit : ℕ) (ts : List (Task R)) : Type 0 where
    pub places : sum_of holds_place ts ≤ limit
    pub locks : sum_of holds_lock ts ≤ 1

  set-IsBounded :
      (limit : ℕ) (ts : List (Task R)) (i : ℕ) (t u : Task R)
      → get_elem? ts i ≡ some t
      → sum_of holds_place ts + holds_place u ≤ limit + holds_place t
      → sum_of holds_lock ts + holds_lock u ≤ 1 + holds_lock t
      → IsBounded limit (set ts i u)
  set-IsBounded limit ts i t u found places locks = record {
    places = omega (arith, sum_of-set holds_place ts i t u found);
    locks = omega (arith, sum_of-set holds_lock ts i t u found);
  }

  module _ (limit : ℕ) (notify : Bool) (outcome : ℕ → R) where
    Step-IsBounded :
        (j j' : Jobs R)
        → Step limit notify outcome j j'
        → IsBounded limit j.tasks
        → IsBounded limit j'.tasks
    Step-IsBounded j j' (enter i found room e) b =
        rw e (set-IsBounded limit j.tasks i _ calling found (omega arith) (omega (arith, b.locks)))
    Step-IsBounded j j' (call i found e) b =
        rw e (
          set-IsBounded limit j.tasks i _ _ found (omega (arith, b.places))
            (omega (arith, b.locks)))
    Step-IsBounded j j' (lock i r on found free e) b =
        rw e (set-IsBounded limit j.tasks i _ _ found (omega (arith, b.places)) (omega arith))
    Step-IsBounded j j' (report i r found e) b =
        rw e (
          set-IsBounded limit j.tasks i _ _ found (omega (arith, b.places))
            (omega (arith, b.locks)))
    Step-IsBounded j j' (leave i r found e) b =
        rw e (
          set-IsBounded limit j.tasks i _ _ found (omega (arith, b.places))
            (omega (arith, b.locks)))
    Step-IsBounded j j' (leave_quietly i r off found e) b =
        rw e (
          set-IsBounded limit j.tasks i _ _ found (omega (arith, b.places))
            (omega (arith, b.locks)))

  all_waiting-IsBounded {ℓ} :
      {A : Type ℓ} (limit : ℕ) (entries : List A) → IsBounded limit (all_waiting entries)
  all_waiting-IsBounded limit [] = record { places = omega arith; locks = omega arith }
  all_waiting-IsBounded limit (e ∷ es) =
      let rest = all_waiting-IsBounded limit es in
      record { places = omega (arith, rest.places); locks = omega (arith, rest.locks) }

  -- At every point of a run of the goroutines, at most as many as the limit are between taking and
  -- giving back a place, and at most one holds the mutex.
  pub Run-IsBounded {ℓ} :
      {A : Type ℓ} (entries : List A) (limit : ℕ) (notify : Bool) (outcome : ℕ → R) {k : ℕ}
      {j : Jobs R}
      → Run limit notify outcome (started entries) k j
      → IsBounded limit j.tasks
  Run-IsBounded entries limit notify outcome here = all_waiting-IsBounded limit entries
  Run-IsBounded entries limit notify outcome (next {j' = j'} {j'' = j''} run step) =
      Step-IsBounded limit notify outcome j' j'' step
        (Run-IsBounded entries limit notify outcome run)
