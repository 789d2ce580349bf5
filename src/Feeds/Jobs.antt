-- ===== src/Feeds/Jobs.antt =====
-- The goroutines of `addAll` and of `scrape` (internal/feeds/feeds.go): one for each entry, a channel as
-- a semaphore, and a mutex round the report. `scrape` appends its results where `addAll` reports, so its
-- results are the reports.
pub mod Counts
pub mod Progress
pub mod Results
use gator_cli.Prelude.{
  ℕ, suc, ◌+◌, ◌<◌, ◌≡◌, ltb, Bool, true, false, if◌then◌else◌, some, List, [], ◌∷◌, ◌++◌, length,
  get_elem?, set,
}
use gator_cli.Prelude.Int.{ℤ, pos, negsuc}

-- maxParallelAdds and maxParallelScrapes
abbrev pub max_parallel : ℕ
max_parallel = 8

-- `if limit < 1 { limit = 1 }`
abbrev pub at_least_one : ℤ → ℕ
at_least_one (negsuc n) = 1
at_least_one (pos n) = if ltb n 1 then 1 else n

-- Where a goroutine stands: before it has a place in the semaphore, in its call, with its result
-- stored, with the mutex, with its result reported, and with its place given back.
pub data Task (R : Type 0) : Type 0 where
  waiting calling : Task R
  stored locked reported finished : R → Task R

pub record Jobs (R : Type 0) : Type 0 where
  pub tasks : List (Task R)
  pub reports : List R

-- A place in the semaphore
abbrev pub holds_place : {R : Type 0} → Task R → ℕ
holds_place waiting = 0
holds_place calling = 1
holds_place (stored r) = 1
holds_place (locked r) = 1
holds_place (reported r) = 1
holds_place (finished r) = 0

abbrev pub holds_lock : {R : Type 0} → Task R → ℕ
holds_lock waiting = 0
holds_lock calling = 0
holds_lock (stored r) = 0
holds_lock (locked r) = 1
holds_lock (reported r) = 0
holds_lock (finished r) = 0

abbrev pub sum_of : {R : Type 0} → (Task R → ℕ) → List (Task R) → ℕ
sum_of weight [] = 0
sum_of weight (t ∷ ts) = weight t + sum_of weight ts

abbrev pub moved : {R : Type 0} → Jobs R → ℕ → Task R → Jobs R
moved j i t = record j { tasks = set j.tasks i t }

-- One step of one goroutine. `outcome i` is what the call for the entry `i` returns; `notify` tells
-- whether there is anything to report to.
pub data Step {R : Type 0} (limit : ℕ) (notify : Bool) (outcome : ℕ → R) (j : Jobs R) (j' : Jobs R)
    : Type 0 where
  enter :
      (i : ℕ)
      → get_elem? j.tasks i ≡ some waiting
      → sum_of holds_place j.tasks < limit
      → j' ≡ moved j i calling
      → Step limit notify outcome j j'
  call :
      (i : ℕ)
      → get_elem? j.tasks i ≡ some calling
      → j' ≡ moved j i (stored (outcome i))
      → Step limit notify outcome j j'
  lock :
      (i : ℕ) (r : R)
      → notify ≡ true
      → get_elem? j.tasks i ≡ some (stored r)
      → sum_of holds_lock j.tasks ≡ 0
      → j' ≡ moved j i (locked r)
      → Step limit notify outcome j j'
  report :
      (i : ℕ) (r : R)
      → get_elem? j.tasks i ≡ some (locked r)
      → j' ≡ record (moved j i (reported r)) { reports = j.reports ++ r ∷ [] }
      → Step limit notify outcome j j'
  leave :
      (i : ℕ) (r : R)
      → get_elem? j.tasks i ≡ some (reported r)
      → j' ≡ moved j i (finished r)
      → Step limit notify outcome j j'
  leave_quietly :
      (i : ℕ) (r : R)
      → notify ≡ false
      → get_elem? j.tasks i ≡ some (stored r)
      → j' ≡ moved j i (finished r)
      → Step limit notify outcome j j'

-- Runs of so many steps.
pub data Run {R : Type 0} (limit : ℕ) (notify : Bool) (outcome : ℕ → R) (j : Jobs R)
    : ℕ → Jobs R → Type 0 where
  here : Run limit notify outcome j 0 j
  next :
      {k : ℕ} {j' j'' : Jobs R}
      → Run limit notify outcome j k j'
      → Step limit notify outcome j' j''
      → Run limit notify outcome j (suc k) j''

abbrev pub all_waiting {ℓ} : {A : Type ℓ} {R : Type 0} → List A → List (Task R)
all_waiting [] = []
all_waiting (e ∷ es) = waiting ∷ all_waiting es

-- What `for i, e := range entries` starts.
abbrev pub started {ℓ} : {A : Type ℓ} {R : Type 0} → List A → Jobs R
started entries = record { tasks = all_waiting entries; reports = [] }
