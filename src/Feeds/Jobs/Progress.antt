-- ===== src/Feeds/Jobs/Progress.antt =====
-- The goroutines of `addAll` and `scrape` (internal/feeds/feeds.go) come to an end.
use gator_cli.Prelude.{
  ℕ, ◌+◌, ◌*◌, ◌≤◌, ◌<◌, ◌≡◌, refl, ap, ◌∙◌, Bool, some, List, [], ◌∷◌, length, arith, inl, inr,
  Bool-cases, ltb,
}
use gator_cli.Feeds.Jobs.{
  Task, waiting, calling, stored, locked, reported, finished, Jobs, holds_place, holds_lock, sum_of,
  Step, enter, call, lock, report, leave, leave_quietly, Run, here, next, all_waiting, started,
}
use gator_cli.Feeds.Jobs.Counts.{sum_of-set, sum_of_pos}

-- The steps that a goroutine has left.
abbrev pub left_of : {R : Type 0} → Task R → ℕ
left_of waiting = 5
left_of calling = 4
left_of (stored r) = 3
left_of (locked r) = 2
left_of (reported r) = 1
left_of (finished r) = 0

abbrev is_reported : {R : Type 0} → Task R → ℕ
is_reported waiting = 0
is_reported calling = 0
is_reported (stored r) = 0
is_reported (locked r) = 0
is_reported (reported r) = 1
is_reported (finished r) = 0

abbrev is_stored : {R : Type 0} → Task R → ℕ
is_stored waiting = 0
is_stored calling = 0
is_stored (stored r) = 1
is_stored (locked r) = 0
is_stored (reported r) = 0
is_stored (finished r) = 0

abbrev is_calling : {R : Type 0} → Task R → ℕ
is_calling waiting = 0
is_calling calling = 1
is_calling (stored r) = 0
is_calling (locked r) = 0
is_calling (reported r) = 0
is_calling (finished r) = 0

abbrev is_waiting : {R : Type 0} → Task R → ℕ
is_waiting waiting = 1
is_waiting calling = 0
is_waiting (stored r) = 0
is_waiting (locked r) = 0
is_waiting (reported r) = 0
is_waiting (finished r) = 0

all_waiting-left {ℓ} :
    (R : Type 0) {A : Type ℓ} (entries : List A)
    → sum_of left_of (all_waiting {R = R} entries) ≡ 5 * length entries
all_waiting-left R [] = omega arith
all_waiting-left R (e ∷ es) = omega (arith, all_waiting-left R es)

module _ {R : Type 0} where
  the_locked : (t : Task R) → 0 < holds_lock t → (r : R) × (t ≡ locked r)
  the_locked (locked r) h = (r, refl)
  the_locked waiting h = absurd (omega arith)
  the_locked calling h = absurd (omega arith)
  the_locked (stored r) h = absurd (omega arith)
  the_locked (reported r) h = absurd (omega arith)
  the_locked (finished r) h = absurd (omega arith)

  the_reported : (t : Task R) → 0 < is_reported t → (r : R) × (t ≡ reported r)
  the_reported (reported r) h = (r, refl)
  the_reported waiting h = absurd (omega arith)
  the_reported calling h = absurd (omega arith)
  the_reported (stored r) h = absurd (omega arith)
  the_reported (locked r) h = absurd (omega arith)
  the_reported (finished r) h = absurd (omega arith)

  the_stored : (t : Task R) → 0 < is_stored t → (r : R) × (t ≡ stored r)
  the_stored (stored r) h = (r, refl)
  the_stored waiting h = absurd (omega arith)
  the_stored calling h = absurd (omega arith)
  the_stored (reported r) h = absurd (omega arith)
  the_stored (locked r) h = absurd (omega arith)
  the_stored (finished r) h = absurd (omega arith)

  the_calling : (t : Task R) → 0 < is_calling t → t ≡ calling
  the_calling calling h = refl
  the_calling waiting h = absurd (omega arith)
  the_calling (stored r) h = absurd (omega arith)
  the_calling (reported r) h = absurd (omega arith)
  the_calling (locked r) h = absurd (omega arith)
  the_calling (finished r) h = absurd (omega arith)

  the_waiting : (t : Task R) → 0 < is_waiting t → t ≡ waiting
  the_waiting waiting h = refl
  the_waiting calling h = absurd (omega arith)
  the_waiting (stored r) h = absurd (omega arith)
  the_waiting (reported r) h = absurd (omega arith)
  the_waiting (locked r) h = absurd (omega arith)
  the_waiting (finished r) h = absurd (omega arith)

  -- Each goroutine is somewhere.
  one_of :
      (ts : List (Task R))
      → sum_of left_of ts
        ≤ 5
          * (sum_of is_waiting ts
              + sum_of is_calling ts
              + sum_of is_stored ts
              + sum_of holds_lock ts
              + sum_of is_reported ts)
  one_of [] = omega arith
  one_of (waiting ∷ ts) = omega (arith, one_of ts)
  one_of (calling ∷ ts) = omega (arith, one_of ts)
  one_of (stored r ∷ ts) = omega (arith, one_of ts)
  one_of (locked r ∷ ts) = omega (arith, one_of ts)
  one_of (reported r ∷ ts) = omega (arith, one_of ts)
  one_of (finished r ∷ ts) = omega (arith, one_of ts)

  places_are :
      (ts : List (Task R))
      → sum_of holds_place ts
        ≡ sum_of is_calling ts + sum_of is_stored ts + sum_of holds_lock ts + sum_of is_reported ts
  places_are [] = omega arith
  places_are (waiting ∷ ts) = omega (arith, places_are ts)
  places_are (calling ∷ ts) = omega (arith, places_are ts)
  places_are (stored r ∷ ts) = omega (arith, places_are ts)
  places_are (locked r ∷ ts) = omega (arith, places_are ts)
  places_are (reported r ∷ ts) = omega (arith, places_are ts)
  places_are (finished r ∷ ts) = omega (arith, places_are ts)

  module _ (limit : ℕ) (notify : Bool) (outcome : ℕ → R) where
    abbrev pub CanStep : Jobs R → Type 0
    CanStep j = (j' : Jobs R) × Step limit notify outcome j j'

    -- What holds the mutex goes on; if nothing does, what waits for it; and so back to the entries.
    pub some_step : (j : Jobs R) → 0 < limit → 0 < sum_of left_of j.tasks → CanStep j
    some_step j room more = elim (Bool-cases (ltb 0 (sum_of holds_lock j.tasks))) [
      | inl a ↦
          (let (i, t, found, p) = sum_of_pos holds_lock j.tasks (ground arith) in
            let (r, e) = the_locked t p in (_, report i r (found ∙ ap some e) refl))
      | inr a ↦ elim (Bool-cases (ltb 0 (sum_of is_reported j.tasks))) [
        | inl b ↦
            (let (i, t, found, p) = sum_of_pos is_reported j.tasks (ground arith) in
              let (r, e) = the_reported t p in (_, leave i r (found ∙ ap some e) refl))
        | inr b ↦ elim (Bool-cases (ltb 0 (sum_of is_stored j.tasks))) [
          | inl c ↦
              (let (i, t, found, p) = sum_of_pos is_stored j.tasks (ground arith) in
                let (r, e) = the_stored t p in
                elim (Bool-cases notify) [
                  | inl on ↦ (_, lock i r on (found ∙ ap some e) (ground (arith, a)) refl)
                  | inr off ↦ (_, leave_quietly i r off (found ∙ ap some e) refl)
                ])
          | inr c ↦ elim (Bool-cases (ltb 0 (sum_of is_calling j.tasks))) [
            | inl d ↦
                (let (i, t, found, p) = sum_of_pos is_calling j.tasks (ground arith) in
                  (_, call i (found ∙ ap some (the_calling t p)) refl))
            | inr d ↦
                (let some_waiting : 0 < sum_of is_waiting j.tasks =
                    ground (arith, one_of j.tasks) in
                  let (i, t, found, p) = sum_of_pos is_waiting j.tasks some_waiting in
                  (
                    _,
                    enter i (found ∙ ap some (the_waiting t p)) (ground (arith, places_are j.tasks))
                        refl,
                  ))
          ]
        ]
      ]
    ]

    -- Each step leaves fewer steps.
    Step-left :
        (j j' : Jobs R)
        → Step limit notify outcome j j'
        → sum_of left_of j'.tasks < sum_of left_of j.tasks
    Step-left j j' (enter i found room e) =
        rw e (omega (arith, sum_of-set left_of j.tasks i _ calling found))
    Step-left j j' (call i found e) =
        rw e (omega (arith, sum_of-set left_of j.tasks i _ (stored (outcome i)) found))
    Step-left j j' (lock i r on found free e) =
        rw e (omega (arith, sum_of-set left_of j.tasks i _ (locked r) found))
    Step-left j j' (report i r found e) =
        rw e (omega (arith, sum_of-set left_of j.tasks i _ (reported r) found))
    Step-left j j' (leave i r found e) =
        rw e (omega (arith, sum_of-set left_of j.tasks i _ (finished r) found))
    Step-left j j' (leave_quietly i r off found e) =
        rw e (omega (arith, sum_of-set left_of j.tasks i _ (finished r) found))

  pub Run-left {ℓ} :
      {A : Type ℓ} (entries : List A) (limit : ℕ) (notify : Bool) (outcome : ℕ → R) (k : ℕ)
      (j : Jobs R)
      → Run limit notify outcome (started entries) k j
      → k + sum_of left_of j.tasks ≤ 5 * length entries
  Run-left entries limit notify outcome k j here = omega (arith, all_waiting-left R entries)
  Run-left entries limit notify outcome k j (next {k = before} {j' = j'} {j'' = j''} run step) =
      omega (
        arith,
        Run-left entries limit notify outcome before j' run,
        Step-left limit notify outcome j' j'' step,
      )
