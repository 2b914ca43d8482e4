-- ===== src/Sync/Queue.antt =====
-- services/job_queue.py and models/job.py: the queue as a list of rows, with times in seconds.
pub mod Due
use subtask.Base.{
  ℕ, zero, suc, ◌+◌, ◌*◌, String, Bool, true, false, not, ◌&&◌, ◌||◌, Option, none, some, List, [],
  ◌∷◌, ◌++◌, map, filter, any, contains, ltb, leb, ◌==◌, nat_eq, string_eq, if◌then◌else◌,
}

-- `kwargs` is a JSON object whose keys are `annotation_id` and, if there is one, `force`.
pub record Job : Type 0 where
  pub id : ℕ
  pub name : String
  pub enqueued_at : ℕ
  pub scheduled_at : ℕ
  pub expires_at : ℕ
  pub priority : ℕ
  pub tag : String
  pub annotation_id : String
  pub force : Option Bool

-- The columns of an annotation that the filters of the queue read.
pub record Row : Type 0 where
  pub id : String
  pub userid : String
  pub groupid : String
  pub updated : ℕ

-- `order_by(Job.priority, Job.enqueued_at)`: whether the first job may stand before the second
unfoldable pub before : Job → Job → Bool
before a b =
    ltb a.priority b.priority || a.priority == b.priority && leb a.enqueued_at b.enqueued_at

unfoldable pub insert : Job → List Job → List Job
insert job [] = job ∷ []
insert job (next ∷ jobs) =
    let rest = insert job jobs in if before job next then job ∷ next ∷ jobs else next ∷ rest

unfoldable pub sort : List Job → List Job
unfolding insert
sort [] = []
sort (job ∷ jobs) = insert job (sort jobs)

unfoldable pub take : ℕ → List Job → List Job
take zero jobs = []
take (suc n) [] = []
take (suc n) (job ∷ jobs) = job ∷ take n jobs

abbrev pub is_due : String → ℕ → Job → Bool
is_due name now job = job.name == name && leb now job.expires_at && ltb job.scheduled_at now

-- `locked` says which rows another transaction has locked: those are skipped.
unfoldable pub get_jobs : (Job → Bool) → ℕ → String → ℕ → List Job → List Job
unfolding sort take
get_jobs locked now name limit table =
    take limit (sort (filter (λ job. is_due name now job && not (locked job)) table))

unfoldable pub delete : List Job → List Job → List Job
delete [] table = table
delete (job ∷ jobs) table = delete jobs (filter (λ row. not (row.id == job.id)) table)

-- `schedule_in or 0`
abbrev pub or_now : Option ℕ → ℕ
or_now none = 0
or_now (some seconds) = seconds

abbrev pub single_item : ℕ
single_item = 1

abbrev pub single_user : ℕ
single_user = 100

abbrev pub single_group : ℕ
single_group = 100

abbrev pub between_times : ℕ
between_times = 1000

-- What the database gives a new row: an id of the sequence, the time, and a month to live.
abbrev pub month : ℕ
month = 30 * 86400

module _ (next_id : List Job → ℕ) (now : ℕ) (annotations : List Row) where
  abbrev pub insert_from : String → ℕ → ℕ → String → Bool → List Row → List Job → List Job
  insert_from name schedule_at priority tag force [] table = table
  insert_from name schedule_at priority tag force (row ∷ rows) table =
      insert_from name schedule_at priority tag force rows (
        table
        ++ (record {
          id = next_id table;
          name = name;
          enqueued_at = now;
          scheduled_at = schedule_at;
          expires_at = now + month;
          priority = priority;
          tag = tag;
          annotation_id = row.id;
          force = some force;
        }
            ∷ []))

  unfoldable pub add_where :
      String → (Row → Bool) → String → ℕ → Bool → Option ℕ → List Job → List Job
  add_where name where_clause tag priority force schedule_in table =
      insert_from name (now + or_now schedule_in) priority tag force
        (filter where_clause annotations) table

  unfoldable pub add_between_times : String → ℕ → ℕ → String → Bool → List Job → List Job
  unfolding add_where
  add_between_times name start_time end_time tag force table =
      add_where name (λ row. leb start_time row.updated && leb row.updated end_time) tag
        between_times force none table

  unfoldable pub add_by_id : String → String → String → Bool → Option ℕ → List Job → List Job
  unfolding add_where
  add_by_id name annotation_id tag force schedule_in table =
      add_where name (λ row. row.id == annotation_id) tag single_item force schedule_in table

  unfoldable pub add_by_user : String → String → String → Bool → Option ℕ → List Job → List Job
  unfolding add_where
  add_by_user name userid tag force schedule_in table =
      add_where name (λ row. row.userid == userid) tag single_user force schedule_in table

  unfoldable pub add_by_group : String → String → String → Bool → Option ℕ → List Job → List Job
  unfolding add_where
  add_by_group name groupid tag force schedule_in table =
      add_where name (λ row. row.groupid == groupid) tag single_group force schedule_in table
