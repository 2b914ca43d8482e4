-- ===== src/Sync/Queue/Due.antt =====
-- Which jobs the queue hands out, and in which order.
use mathlib.Core.Path.{subst}
use subtask.Base.{
  ℕ, zero, suc, String, Bool, true, false, not, ◌&&◌, ◌≡◌, List, [], ◌∷◌, filter, All, length, ◌≤◌,
  leb, refl, ap, sym, ◌∙◌, ◌++◌, if◌then◌else◌, nat_eq, string_eq, arith, Bool-cases, inl, inr,
}
use subtask.Sync.Queue.{Job, before, insert, sort, take, is_due, get_jobs}

module _ (P : Job → Type 0) where
  All-insert : (job : Job) (jobs : List Job) → P job → All P jobs → All P (insert job jobs)
  unfolding insert
  All-insert job [] h hs = (h, tt)
  All-insert job (next ∷ jobs) h (k, ks) = elim (Bool-cases (before job next)) [
    | inl first ↦ rw first (h, (k, ks))
    | inr later ↦ rw later (k, All-insert job jobs h ks)
  ]

  All-sort : (jobs : List Job) → All P jobs → All P (sort jobs)
  unfolding sort
  All-sort [] h = tt
  All-sort (job ∷ jobs) (h, hs) = All-insert job (sort jobs) h (All-sort jobs hs)

  All-take : (n : ℕ) (jobs : List Job) → All P jobs → All P (take n jobs)
  unfolding take
  All-take zero jobs h = tt
  All-take (suc n) [] h = tt
  All-take (suc n) (job ∷ jobs) (h, hs) = (h, All-take n jobs hs)

-- Each job may stand before all that follow it.
abbrev pub IsSorted : List Job → Type 0
IsSorted [] = Unit
IsSorted (job ∷ jobs) = All (λ next. before job next ≡ true) jobs × IsSorted jobs

before-All :
    (a b : Job) (jobs : List Job)
    → before a b ≡ true
    → All (λ next. before b next ≡ true) jobs
    → All (λ next. before a next ≡ true) jobs
unfolding before
before-All a b [] h hs = tt
before-All a b (next ∷ jobs) h (k, ks) = (ground arith, before-All a b jobs h ks)

before_total : (a b : Job) → before a b ≡ false → before b a ≡ true
unfolding before
before_total a b h = ground arith

IsSorted-insert : (job : Job) (jobs : List Job) → IsSorted jobs → IsSorted (insert job jobs)
unfolding insert
IsSorted-insert job [] h = (tt, tt)
IsSorted-insert job (next ∷ jobs) (h, hs) = elim (Bool-cases (before job next)) [
  | inl first ↦ rw first ((first, before-All job next jobs first h), (h, hs))
  | inr later ↦ rw later (
    All-insert (λ j. before next j ≡ true) job jobs (before_total job next later) h,
    IsSorted-insert job jobs hs,
  )
]

IsSorted-sort : (jobs : List Job) → IsSorted (sort jobs)
unfolding sort
IsSorted-sort [] = tt
IsSorted-sort (job ∷ jobs) = IsSorted-insert job (sort jobs) (IsSorted-sort jobs)

IsSorted-take : (n : ℕ) (jobs : List Job) → IsSorted jobs → IsSorted (take n jobs)
unfolding take
IsSorted-take zero jobs h = tt
IsSorted-take (suc n) [] h = tt
IsSorted-take (suc n) (job ∷ jobs) (h, hs) =
    (All-take (λ next. before job next ≡ true) n jobs h, IsSorted-take n jobs hs)

length-take : (n : ℕ) (jobs : List Job) → length (take n jobs) ≤ n
unfolding take
length-take zero jobs = omega arith
length-take (suc n) [] = omega arith
length-take (suc n) (job ∷ jobs) = ground (arith, length-take n jobs)

kept_test : (P : Job → Bool) (jobs : List Job) → All (λ job. P job ≡ true) (filter P jobs)
kept_test P [] = tt
kept_test P (job ∷ jobs) = elim (Bool-cases (P job)) [
  | inl kept ↦ rw kept (kept, kept_test P jobs)
  | inr dropped ↦ rw dropped (kept_test P jobs)
]

drop : ℕ → List Job → List Job
drop zero jobs = jobs
drop (suc n) [] = []
drop (suc n) (job ∷ jobs) = drop n jobs

append-take-drop : (n : ℕ) (jobs : List Job) → take n jobs ++ drop n jobs ≡ jobs
unfolding take drop
append-take-drop zero jobs = refl
append-take-drop (suc n) [] = refl
append-take-drop (suc n) (job ∷ jobs) = ap (λ rest. job ∷ rest) (append-take-drop n jobs)

length-take_min :
    (n : ℕ) (jobs : List Job)
    → length (take n jobs) ≡ (if leb n (length jobs) then n else length jobs)
unfolding take
length-take_min zero jobs = ground arith
length-take_min (suc n) [] = ground arith
length-take_min (suc n) (job ∷ jobs) = ground (arith, length-take_min n jobs)

-- How many of the jobs satisfy the test.
abbrev pub count : (Job → Bool) → List Job → ℕ
count test jobs = length (filter test jobs)

count-insert :
    (test : Job → Bool) (job : Job) (jobs : List Job)
    → count test (insert job jobs) ≡ count test (job ∷ jobs)
unfolding insert
count-insert test job [] = refl
count-insert test job (next ∷ jobs) = ground (arith, count-insert test job jobs)

count-sort : (test : Job → Bool) (jobs : List Job) → count test (sort jobs) ≡ count test jobs
unfolding sort
count-sort test [] = refl
count-sort test (job ∷ jobs) =
    count-insert test job (sort jobs) ∙ ground (arith, count-sort test jobs)

length-insert : (job : Job) (jobs : List Job) → length (insert job jobs) ≡ suc (length jobs)
unfolding insert
length-insert job [] = refl
length-insert job (next ∷ jobs) = ground (arith, length-insert job jobs)

length-sort : (jobs : List Job) → length (sort jobs) ≡ length jobs
unfolding sort
length-sort [] = refl
length-sort (job ∷ jobs) = length-insert job (sort jobs) ∙ ap suc (length-sort jobs)

-- The jobs that may be handed out.
abbrev pub may_hand_out : (Job → Bool) → ℕ → String → List Job → List Job
may_hand_out locked now name table = filter (λ job. is_due name now job && not (locked job)) table

-- The jobs that the queue hands out are the first of all jobs of the table that are due, of the name and not
-- locked, by priority and then by age; they are as many as asked for, or all if there are fewer.
pub get_jobs-first :
    (locked : Job → Bool) (now : ℕ) (name : String) (limit : ℕ) (table : List Job)
    → (later : List Job) × IsSorted (get_jobs locked now name limit table ++ later)
      × ((test : Job → Bool)
          → count test (get_jobs locked now name limit table ++ later)
            ≡ count test (may_hand_out locked now name table))
      × (length (get_jobs locked now name limit table) ≡ (
          if leb limit (length (may_hand_out locked now name table))
          then limit
          else length (may_hand_out locked now name table)))
unfolding get_jobs
get_jobs-first locked now name limit table =
    let jobs = may_hand_out locked now name table in
    let whole = append-take-drop limit (sort jobs) in
    (
      drop limit (sort jobs),
      subst IsSorted (sym whole) (IsSorted-sort jobs),
      (λ test. ap (count test) whole ∙ count-sort test jobs),
      length-take_min limit (sort jobs)
          ∙ ap (λ n. if leb limit n then limit else n) (length-sort jobs),
    )

-- The queue hands out at most as many jobs as asked for, by priority and then by age, each of them
-- due, of the name, and not locked.
pub get_jobs-IsSorted :
    (locked : Job → Bool) (now : ℕ) (name : String) (limit : ℕ) (table : List Job)
    → (length (get_jobs locked now name limit table) ≤ limit)
      × IsSorted (get_jobs locked now name limit table)
      × All
          (λ job. (is_due name now job && not (locked job)) ≡ true)
          (get_jobs locked now name limit table)
unfolding get_jobs
get_jobs-IsSorted locked now name limit table =
    let jobs = filter (λ job. is_due name now job && not (locked job)) table in
    (
      length-take limit (sort jobs),
      IsSorted-take limit (sort jobs) (IsSorted-sort jobs),
      All-take (λ job. (is_due name now job && not (locked job)) ≡ true) limit (sort jobs)
          (All-sort (λ job. (is_due name now job && not (locked job)) ≡ true) jobs
            (kept_test (λ job. is_due name now job && not (locked job)) table)),
    )
