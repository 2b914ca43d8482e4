-- ===== src/Sync/Rounds/Compared.antt =====
-- What one job's annotation, as both sides have it, makes of the counter.
use mathlib.Core.Path.{subst}
use subtask.Base.{
  ℕ, String, Bool, true, false, not, ◌&&◌, ◌||◌, ◌≡◌, refl, ap, Option, none, some, List, contains,
  ◌==◌, nat_eq, string_eq, Result, ok, err, if◌then◌else◌, ok-injective, arith,
}
use subtask.Sync.Queue.{Job}
use subtask.Sync.Counter.{
  Counter, annotation_synced, annotation_deleted, job_completed, add_id, has_job, Metric,
  completed_up_to_date, synced_different, completed_deleted, synced_deleted, synced_missing,
}
use subtask.Sync.Helpers.{DbAnnotation, Source, SyncError}
use subtask.Sync.Rounds.{equal, compare}

-- The annotation is in the database, and not as it is there in the search index.
abbrev pub is_stale : Option DbAnnotation → Option Source → Bool
is_stale none source = false
is_stale (some a) none = true
is_stale (some a) (some source) = elim (equal source a) [ ok same ↦ not same | err e ↦ false ]

-- The annotation is in the search index only.
abbrev pub is_left_over : Option DbAnnotation → Option Source → Bool
is_left_over none (some source) = true
is_left_over none none = false
is_left_over (some a) source = false

-- Both sides have the annotation and agree, or neither has it.
abbrev pub is_settled : Option DbAnnotation → Option Source → Bool
is_settled none none = true
is_settled none (some source) = false
is_settled (some a) none = false
is_settled (some a) (some source) = elim (equal source a) [ ok same ↦ same | err e ↦ false ]

contains-add_id :
    (x : String) (ids : List String) (id : String)
    → contains (add_id x ids) id ≡ (contains ids id || x == id)
contains-add_id x ids id = elim (string_eq.dec x id) [
  | yes same ↦ ground (arith, ap (contains ids) same)
  | no differ ↦ ground arith
]

-- A counter after a job of which it is decided whether its annotation is indexed, whether it is
-- deleted, and whether the job is completed.
pub record IsDecided (id_of_job : String) (job : Job) (index : Bool) (delete : Bool) (done : Bool)
    (c : Counter) (c' : Counter) : Type 0 where
  pub indexed :
      (id : String)
      → contains c'.annotation_ids_to_sync id
        ≡ (contains c.annotation_ids_to_sync id || index && id_of_job == id)
  pub deleted :
      (id : String)
      → contains c'.annotation_ids_to_delete id
        ≡ (contains c.annotation_ids_to_delete id || delete && id_of_job == id)
  pub completed :
      (id : ℕ)
      → has_job id c'.jobs_to_delete ≡ (has_job id c.jobs_to_delete || done && job.id == id)

module _ (url_safe : String → String) (metric : Metric) (job : Job) (c : Counter) where
  pub decided_synced :
      IsDecided
        (url_safe job.annotation_id)
        job
        true
        false
        false
        c
        (annotation_synced url_safe metric job c)
  unfolding annotation_synced
  decided_synced = record {
    indexed = λ id. contains-add_id (url_safe job.annotation_id) c.annotation_ids_to_sync id;
    deleted = λ id. ground arith;
    completed = λ id. ground arith;
  }

  decided_deleted :
      IsDecided
        (url_safe job.annotation_id)
        job
        false
        true
        false
        c
        (annotation_deleted url_safe metric job c)
  unfolding annotation_deleted
  decided_deleted = record {
    indexed = λ id. ground arith;
    deleted = λ id. contains-add_id (url_safe job.annotation_id) c.annotation_ids_to_delete id;
    completed = λ id. ground arith;
  }

  pub decided_completed :
      IsDecided (url_safe job.annotation_id) job false false true c (job_completed metric job c)
  unfolding job_completed
  decided_completed = record {
    indexed = λ id. ground arith;
    deleted = λ id. ground arith;
    completed = λ id. elim (nat_eq.dec job.id id) [
      | yes same ↦ ground (arith, ap (λ i. has_job i c.jobs_to_delete) same)
      | no differ ↦ ground arith
    ];
  }

module _ (url_safe : String → String) (job : Job) where
  abbrev Decided : Bool → Bool → Bool → Counter → Counter → Type 0
  Decided = IsDecided (url_safe job.annotation_id) job

  Decided-same :
      (b : Bool) (c : Counter)
      → Decided (not b) false b c (
          if b
          then job_completed completed_up_to_date job c
          else annotation_synced url_safe synced_different job c)
  Decided-same true c = decided_completed url_safe completed_up_to_date job c
  Decided-same false c = decided_synced url_safe synced_different job c

  compared_both :
      (a : DbAnnotation) (source : Source) (c c' : Counter) (answer : Result SyncError Bool)
      → equal source a ≡ answer
      → compare url_safe (some a) (some source) job c ≡ ok c'
      → Decided (is_stale (some a) (some source)) false (is_settled (some a) (some source)) c c'
  unfolding compare
  compared_both a source c c' (ok b) p h =
      rw (p, is_stale, is_settled)
        (subst (Decided (not b) false b c) (ok-injective {E = SyncError} _ c' (ground arith))
          (Decided-same b c))
  compared_both a source c c' (err e) p h = ground arith

  pub compared :
      (a : Option DbAnnotation) (source : Option Source) (c c' : Counter)
      → compare url_safe a source job c ≡ ok c'
      → Decided (is_stale a source) (is_left_over a source) (is_settled a source) c c'
  unfolding compare
  compared none none c c' h =
      subst (Decided false false true c) (ok-injective {E = SyncError} _ c' h)
        (decided_completed url_safe completed_deleted job c)
  compared none (some source) c c' h =
      subst (Decided false true false c) (ok-injective {E = SyncError} _ c' h)
        (decided_deleted url_safe synced_deleted job c)
  compared (some a) none c c' h =
      subst (Decided true false false c) (ok-injective {E = SyncError} _ c' h)
        (decided_synced url_safe synced_missing job c)
  compared (some a) (some source) c c' h = compared_both a source c c' (equal source a) refl h
