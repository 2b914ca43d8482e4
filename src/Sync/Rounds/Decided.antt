-- ===== src/Sync/Rounds/Decided.antt =====
-- What the loop over the jobs decides, read off what both sides have of each job's annotation.
use mathlib.Core.Path.{subst}
use subtask.Base.{
  ℕ, String, Bool, true, false, not, ◌&&◌, ◌||◌, ◌≡◌, List, [], ◌∷◌, get, contains, any, ◌==◌,
  nat_eq, string_eq, ok, Bool-cases, inl, inr, ok-injective, bind-eq-ok, arith,
}
use subtask.Sync.Queue.{Job}
use subtask.Sync.Counter.{
  Counter, annotation_synced, job_completed, has_job, synced_forced, completed_forced,
}
use subtask.Sync.Helpers.{DbAnnotation, Source, SyncError, is_forced}
use subtask.Sync.Rounds.{consider, consider_all}
use subtask.Sync.Rounds.Compared.{
  is_stale, is_left_over, is_settled, IsDecided, decided_synced, decided_completed, compared,
}

module _ (url_safe : String → String) (from_db : List (String × DbAnnotation))
    (from_es : List (String × Source)) where
  -- Whether the round indexes the job's annotation, deletes it, and completes the job.
  abbrev pub indexes : Job → Bool
  indexes job =
      is_forced job
      || is_stale (get (url_safe job.annotation_id) from_db)
          (get (url_safe job.annotation_id) from_es)

  abbrev pub deletes : Job → Bool
  deletes job =
      not (is_forced job)
      && is_left_over (get (url_safe job.annotation_id) from_db)
          (get (url_safe job.annotation_id) from_es)

  abbrev pub completes : Job → Bool
  completes job =
      is_forced job
      || is_settled (get (url_safe job.annotation_id) from_db)
          (get (url_safe job.annotation_id) from_es)

  forced :
      (job : Job) (c : Counter)
      → IsDecided
          (url_safe job.annotation_id)
          job
          true
          false
          true
          c
          (job_completed completed_forced job (annotation_synced url_safe synced_forced job c))
  forced job c =
      let c1 = annotation_synced url_safe synced_forced job c in
      let first = decided_synced url_safe synced_forced job c in
      let next = decided_completed url_safe completed_forced job c1 in
      record {
        indexed = λ id. ground (arith, first.indexed id, next.indexed id);
        deleted = λ id. ground (arith, first.deleted id, next.deleted id);
        completed = λ id. ground (arith, first.completed id, next.completed id);
      }

  considered :
      (job : Job) (c c' : Counter)
      → consider url_safe from_db from_es job c ≡ ok c'
      → IsDecided (url_safe job.annotation_id) job (indexes job) (deletes job) (completes job) c c'
  unfolding consider
  considered job c c' h = elim (Bool-cases (is_forced job)) [
    | inl p ↦ rw p (
        subst (IsDecided (url_safe job.annotation_id) job true false true c)
          (ok-injective {E = SyncError} _ c' (ground arith)) (forced job c))
    | inr p ↦ rw p (
        compared url_safe job (get (url_safe job.annotation_id) from_db)
          (get (url_safe job.annotation_id) from_es) c c' (ground arith))
  ]

  -- If the loop over the jobs returns, an id is to be indexed, or to be deleted, exactly if it was before
  -- or a job of its annotation says so, and a job is to be completed exactly if it was before or it
  -- says so.
  pub consider_all-decides :
      (jobs : List Job) (c : Counter) {c' : Counter}
      → consider_all url_safe from_db from_es jobs c ≡ ok c'
      → ((id : String)
          → (contains c'.annotation_ids_to_sync id ≡ (
              contains c.annotation_ids_to_sync id
              || any (λ job. indexes job && url_safe job.annotation_id == id) jobs))
            × (contains c'.annotation_ids_to_delete id ≡ (
                contains c.annotation_ids_to_delete id
                || any (λ job. deletes job && url_safe job.annotation_id == id) jobs)))
        × ((id : ℕ)
            → has_job id c'.jobs_to_delete
              ≡ (has_job id c.jobs_to_delete || any (λ job. completes job && job.id == id) jobs))
  unfolding consider_all
  consider_all-decides [] c {c'} h =
      subst
        (λ t.
          ((id : String)
            → (contains t.annotation_ids_to_sync id
                ≡ (contains c.annotation_ids_to_sync id || false))
              × (contains t.annotation_ids_to_delete id
                  ≡ (contains c.annotation_ids_to_delete id || false)))
          × ((id : ℕ) → has_job id t.jobs_to_delete ≡ (has_job id c.jobs_to_delete || false)))
        (ok-injective {E = SyncError} c c' h)
        ((λ id. (ground arith, ground arith)), (λ id. ground arith))
  consider_all-decides (job ∷ jobs) c {c'} h =
      let (c1, p, q) = bind-eq-ok (consider url_safe from_db from_es job c) _ h in
      let first = considered job c c1 p in
      let (ids, done) = consider_all-decides jobs c1 q in
      (
        (λ id.
            let (i, d) = ids id in
            (ground (arith, i, first.indexed id), ground (arith, d, first.deleted id))),
        (λ id. ground (arith, done id, first.completed id)),
      )
