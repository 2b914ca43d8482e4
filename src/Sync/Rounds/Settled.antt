-- ===== src/Sync/Rounds/Settled.antt =====
-- Rounds on jobs whose annotations the search index already has as the database does, and what a
-- round leaves of the queue.
use subtask.Base.{
  ℕ, String, not, ◌&&◌, ◌≡◌, refl, ap, ◌∙◌, Option, none, some, List, [], ◌∷◌, get, contains, any,
  ◌==◌, nat_eq, string_eq, if◌then◌else◌, arith, filter,
}
use subtask.Sync.Queue.{Job, delete}
use subtask.Sync.Counter.{has_job}
use subtask.Sync.Helpers.{DbAnnotation, is_forced, get_from_db, url_safe_annotation_ids, db_rows}

-- The row of an annotation that is not marked as deleted.
abbrev pub live_row : String → List DbAnnotation → Option DbAnnotation
live_row id [] = none
live_row id (a ∷ table) =
    let rest = live_row id table in if not a.deleted && id == a.id then some a else rest

get-db_rows :
    (ids : List String) (table : List DbAnnotation) (id : String)
    → get id (db_rows ids table) ≡ (if contains ids id then live_row id table else none)
unfolding db_rows
get-db_rows ids [] id = ground arith
get-db_rows ids (a ∷ table) id = elim (string_eq.dec id a.id) [
  | yes same ↦ ground (arith, get-db_rows ids table id, ap (contains ids) same)
  | no differ ↦ ground (arith, get-db_rows ids table id)
]

contains-url_safe_annotation_ids :
    (url_safe : String → String) (jobs : List Job) (id : String)
    → contains (url_safe_annotation_ids url_safe jobs) id
      ≡ any (λ job. not (is_forced job) && url_safe job.annotation_id == id) jobs
unfolding url_safe_annotation_ids
contains-url_safe_annotation_ids url_safe [] id = refl
contains-url_safe_annotation_ids url_safe (job ∷ jobs) id =
    ground (arith, contains-url_safe_annotation_ids url_safe jobs id)

fetched :
    (url_safe : String → String) (jobs : List Job) (table : List DbAnnotation) (id : String)
    (ids : List String)
    → url_safe_annotation_ids url_safe jobs ≡ ids
    → get id (get_from_db url_safe jobs table)
      ≡ (if contains ids id then live_row id table else none)
unfolding get_from_db
fetched url_safe jobs table id [] p = rw (p, get_from_db) refl
fetched url_safe jobs table id (i ∷ ids) p = rw (p, get_from_db) (get-db_rows (i ∷ ids) table id)

-- DBHelper.get has of an id the row that is not marked as deleted, if some job of the annotation
-- is not forced, and nothing else.
pub get_from_db-live_row :
    (url_safe : String → String) (jobs : List Job) (table : List DbAnnotation) (id : String)
    → get id (get_from_db url_safe jobs table) ≡ (
        if any (λ job. not (is_forced job) && url_safe job.annotation_id == id) jobs
        then live_row id table
        else none)
get_from_db-live_row url_safe jobs table id =
    fetched url_safe jobs table id (url_safe_annotation_ids url_safe jobs) refl
    ∙ ap (λ b. if b then live_row id table else none)
        (contains-url_safe_annotation_ids url_safe jobs id)

any-filter_row :
    (id : ℕ) (job : Job) (table : List Job)
    → has_job id (filter (λ row. not (row.id == job.id)) table)
      ≡ (has_job id table && not (job.id == id))
any-filter_row id job [] = refl
any-filter_row id job (row ∷ table) = ground (arith, any-filter_row id job table)

-- Of the queue, delete removes the rows of the jobs that it is given and no others.
pub has_job-delete :
    (jobs table : List Job) (id : ℕ)
    → has_job id (delete jobs table) ≡ (has_job id table && not (has_job id jobs))
unfolding delete
has_job-delete [] table id = ground arith
has_job-delete (job ∷ jobs) table id = ground (
  arith,
  has_job-delete jobs (filter (λ row. not (row.id == job.id)) table) id,
  any-filter_row id job table,
)
