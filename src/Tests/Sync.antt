-- ===== src/Tests/Sync.antt =====
-- A queue of four jobs and a search index that lacks one annotation, has one that was deleted, and
-- has one as it is in the database.
use subtask.Base.{
  ℕ, String, ◌≡◌, refl, Bool, true, false, Option, none, some, List, [], ◌∷◌, length, ok, nat_eq,
  string_eq, ◌++◌, leb, if◌then◌else◌,
}
use subtask.Sync.Queue.{Job, before, delete, get_jobs}
use subtask.Sync.Queue.Due.{IsSorted, get_jobs-first, count, may_hand_out}
use subtask.Sync.Counter.{annotation_synced, annotation_deleted, job_completed}
use subtask.Sync.Helpers.{DbAnnotation, Hit, Source, time, is_forced, get_from_db, get_from_es}
use subtask.Sync.Rounds.{Round, equal, compare, consider, consider_all, sync_jobs}
use subtask.Sync.Rounds.Outcome.{IsRoundOf, sync_jobs-IsRoundOf}

abbrev job : ℕ → ℕ → String → Bool → Job
job id priority annotation_id force = record {
  id = id;
  name = "sync_annotation";
  enqueued_at = id;
  scheduled_at = id;
  expires_at = 1000;
  priority = priority;
  tag = "test";
  annotation_id = annotation_id;
  force = some force;
}

abbrev queue : List Job
queue = job 1 100 "a1" false ∷ job 2 1 "a2" false ∷ job 3 1 "a3" false ∷ job 4 1 "a1" true ∷ []

abbrev row : String → Bool → DbAnnotation
row id deleted = record { id = id; updated = 7; userid = "acct:a@x"; deleted = deleted }

abbrev table : List DbAnnotation
table = row "a1" false ∷ row "a2" true ∷ row "a3" false ∷ []

abbrev source : Source
source = record { updated = some (time 7); user = some "acct:a@x" }

abbrev hits : List Hit
hits = record { id = "a2"; source = source } ∷ record { id = "a3"; source = source } ∷ []

abbrev from_es : List (String × Source)
from_es = ("a2", source) ∷ ("a3", source) ∷ []

abbrev parse : String → Option ℕ
parse s = none

-- The job of the lowest priority is left out of a round of three.
handed_out :
    get_jobs (λ j. false) 50 "sync_annotation" 3 queue
    ≡ job 2 1 "a2" false ∷ job 3 1 "a3" false ∷ job 4 1 "a1" true ∷ []
unfolding get_jobs string_eq nat_eq before
handed_out = refl

get_jobs-first_example :
    (later : List Job) × IsSorted (get_jobs (λ j. false) 50 "sync_annotation" 3 queue ++ later)
    × ((test : Job → Bool)
        → count test (get_jobs (λ j. false) 50 "sync_annotation" 3 queue ++ later)
          ≡ count test (may_hand_out (λ j. false) 50 "sync_annotation" queue))
    × (length (get_jobs (λ j. false) 50 "sync_annotation" 3 queue) ≡ (
        if leb 3 (length (may_hand_out (λ j. false) 50 "sync_annotation" queue))
        then 3
        else length (may_hand_out (λ j. false) 50 "sync_annotation" queue)))
get_jobs-first_example = get_jobs-first (λ j. false) 50 "sync_annotation" 3 queue

-- The first round: the missing annotation is indexed, the deleted one is deleted.
abbrev first : Round
first = record {
  queue = job 1 100 "a1" false ∷ job 2 1 "a2" false ∷ [];
  to_index = "a1" ∷ [];
  to_delete = "a2" ∷ [];
  metrics = [];
}

decided :
    (r : Round) × (sync_jobs (λ id. id) parse (λ ids. hits) table queue queue ≡ ok r)
    × (r.queue ≡ first.queue)
    × (r.to_index ≡ first.to_index)
    × (r.to_delete ≡ first.to_delete)
unfolding sync_jobs get_from_db get_from_es consider_all consider compare equal delete is_forced
    annotation_synced annotation_deleted job_completed string_eq nat_eq
decided = (_, refl, refl, refl, refl)

sync_jobs-IsRoundOf_example :
    (es : List (String × Source)) × (get_from_es (λ id. id) parse (λ ids. hits) queue ≡ ok es)
    × IsRoundOf (λ id. id) queue queue (get_from_db (λ id. id) queue table) es decided.0
sync_jobs-IsRoundOf_example =
    sync_jobs-IsRoundOf (λ id. id) parse (λ ids. hits) table queue queue decided.1

-- A later round, of two jobs whose annotations are as they should be.
abbrev later : List Job
later = job 3 1 "a3" false ∷ job 4 1 "a1" true ∷ []

later_returned : (r : Round) × (sync_jobs (λ id. id) parse (λ ids. hits) table later queue ≡ ok r)
unfolding sync_jobs get_from_db get_from_es consider_all consider compare equal is_forced string_eq
    nat_eq
later_returned = (_, refl)
