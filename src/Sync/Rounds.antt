-- ===== src/Sync/Rounds.antt =====
-- AnnotationSyncService.sync of services/annotation_sync.py. What the indexer is told to do is what
-- a round returns.
pub mod Compared
pub mod Decided
pub mod Returns
pub mod Settled
pub mod Outcome
use subtask.Base.{
  ℕ, String, Bool, true, false, not, ◌&&◌, Option, none, some, List, [], ◌∷◌, get, ◌==◌, nat_eq,
  string_eq, Result, ok, err, ◌>>=◌, if◌then◌else◌,
}
use subtask.Sync.Queue.{Job, get_jobs, delete}
use subtask.Sync.Counter.{
  Counter, empty, annotation_synced, annotation_deleted, job_completed, counts, synced_missing,
  synced_deleted, synced_different, synced_forced, completed_up_to_date, completed_deleted,
  completed_forced,
}
use subtask.Sync.Helpers.{
  DbAnnotation, Hit, Source, Updated, text, time, SyncError, key_error, is_forced, get_from_db,
  get_from_es,
}

unfoldable pub same_updated : Option Updated → ℕ → Result SyncError Bool
same_updated none t = err (key_error "updated")
same_updated (some (text s)) t = ok false
same_updated (some (time s)) t = ok (s == t)

unfoldable pub same_user : Option String → String → Result SyncError Bool
same_user none userid = err (key_error "user")
same_user (some user) userid = ok (user == userid)

-- `_equal`: what is after `and` is not looked at if the times differ.
unfoldable pub equal : Source → DbAnnotation → Result SyncError Bool
unfolding same_updated same_user
equal source a = do
  same ← same_updated source.updated a.updated
  if same then same_user source.user a.userid else ok false

module _ (url_safe : String → String) where
  -- The tests of the loop after the first, on what both sides have of the annotation.
  unfoldable pub compare :
      Option DbAnnotation → Option Source → Job → Counter → Result SyncError Counter
  compare none (some source) job c = ok (annotation_deleted url_safe synced_deleted job c)
  compare none none job c = ok (job_completed completed_deleted job c)
  compare (some a) none job c = ok (annotation_synced url_safe synced_missing job c)
  compare (some a) (some source) job c = do
    same ← equal source a
    ok (
        if same
        then job_completed completed_up_to_date job c
        else annotation_synced url_safe synced_different job c)

  unfoldable pub consider :
      List (String × DbAnnotation)
      → List (String × Source)
      → Job
      → Counter
      → Result SyncError Counter
  consider from_db from_es job c =
      if is_forced job
      then ok (job_completed completed_forced job (annotation_synced url_safe synced_forced job c))
      else compare (get (url_safe job.annotation_id) from_db)
          (get (url_safe job.annotation_id) from_es) job c

  unfoldable pub consider_all :
      List (String × DbAnnotation)
      → List (String × Source)
      → List Job
      → Counter
      → Result SyncError Counter
  consider_all from_db from_es [] c = ok c
  consider_all from_db from_es (job ∷ jobs) c =
      consider from_db from_es job c >>= consider_all from_db from_es jobs

-- What a round leaves: the queue, what the indexer is told, and the metrics.
pub record Round : Type 0 where
  pub queue : List Job
  pub to_index : List String
  pub to_delete : List String
  pub metrics : List (String × ℕ)

module _ (url_safe : String → String) (isoparse : String → Option ℕ)
    (search : List String → List Hit) (table : List DbAnnotation) where
  abbrev finish : List Job → Counter → Round
  finish queue c = record {
    queue = delete c.jobs_to_delete queue;
    to_index = c.annotation_ids_to_sync;
    to_delete = c.annotation_ids_to_delete;
    metrics = counts c;
  }

  unfoldable pub sync_jobs : List Job → List Job → Result SyncError Round
  sync_jobs [] queue = ok (record { queue = queue; to_index = []; to_delete = []; metrics = [] })
  sync_jobs (job ∷ jobs) queue = do
    from_es ← get_from_es url_safe isoparse search (job ∷ jobs)
    c ← consider_all url_safe (get_from_db url_safe (job ∷ jobs) table) from_es (job ∷ jobs) empty
    ok (finish queue c)

  unfoldable pub sync : (Job → Bool) → ℕ → ℕ → List Job → Result SyncError Round
  sync locked now limit queue = sync_jobs (get_jobs locked now "sync_annotation" limit queue) queue
