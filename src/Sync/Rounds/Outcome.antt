-- ===== src/Sync/Rounds/Outcome.antt =====
-- What a whole round leaves: what the indexer is told, and the queue.
use mathlib.Core.Path.{subst}
use subtask.Base.{
  ℕ, String, Bool, true, false, not, ◌&&◌, ◌||◌, ◌≡◌, refl, sym, ap, ◌∙◌, Option, none, some, List,
  [], ◌∷◌, get, contains, any, All, ◌==◌, nat_eq, string_eq, ok, ok-injective, bind-eq-ok, arith,
}
use subtask.Sync.Queue.{Job}
use subtask.Sync.Counter.{empty, has_job}
use subtask.Sync.Helpers.{
  DbAnnotation, Hit, Source, SyncError, is_forced, url_safe_annotation_ids, get_from_db,
  get_from_es,
}
use subtask.Sync.Rounds.{consider_all, Round, sync_jobs}
use subtask.Sync.Rounds.Compared.{is_settled, is_left_over}
use subtask.Sync.Rounds.Decided.{indexes, deletes, completes, consider_all-decides}
use subtask.Sync.Rounds.Settled.{has_job-delete}

-- A round that returned has told the indexer, and taken off the queue, what the jobs' annotations
-- on both sides say.
pub record IsRoundOf (url_safe : String → String) (jobs queue : List Job)
    (from_db : List (String × DbAnnotation)) (from_es : List (String × Source)) (r : Round)
    : Type 0 where
  pub indexed :
      (id : String)
      → contains r.to_index id
        ≡ any (λ job. indexes url_safe from_db from_es job && url_safe job.annotation_id == id) jobs
  pub deleted :
      (id : String)
      → contains r.to_delete id
        ≡ any (λ job. deletes url_safe from_db from_es job && url_safe job.annotation_id == id) jobs
  pub queued :
      (id : ℕ)
      → has_job id r.queue ≡ (
          has_job id queue
          && not (any (λ job. completes url_safe from_db from_es job && job.id == id) jobs))

module _ (url_safe : String → String) (isoparse : String → Option ℕ)
    (search : List String → List Hit) (table : List DbAnnotation) where
  -- If a round returns, then the search did, and the ids that are indexed are those of the jobs that
  -- are forced or whose annotation is missing or different in the search index, those that are deleted
  -- are of the jobs that are not forced and whose annotation only the search index has, and off the queue
  -- are the jobs that are forced or on whose annotation both sides agree.
  pub sync_jobs-IsRoundOf :
      (jobs queue : List Job) {r : Round}
      → sync_jobs url_safe isoparse search table jobs queue ≡ ok r
      → (from_es : List (String × Source)) × (get_from_es url_safe isoparse search jobs
          ≡ ok from_es)
        × IsRoundOf url_safe jobs queue (get_from_db url_safe jobs table) from_es r
  unfolding sync_jobs get_from_es url_safe_annotation_ids
  sync_jobs-IsRoundOf [] queue {r} h = (
    [],
    refl,
    subst (IsRoundOf url_safe [] queue (get_from_db url_safe [] table) [])
        (ok-injective {E = SyncError}
          (record { queue = queue; to_index = []; to_delete = []; metrics = [] }) r h)
        (record { indexed = λ id. refl; deleted = λ id. refl; queued = λ id. ground arith }),
  )
  sync_jobs-IsRoundOf (job ∷ jobs) queue {r} h =
      let (from_es, p, rest) = bind-eq-ok (get_from_es url_safe isoparse search (job ∷ jobs)) _ h in
      let (c, q, s) =
        bind-eq-ok
          (consider_all url_safe (get_from_db url_safe (job ∷ jobs) table) from_es (job ∷ jobs)
            empty)
          _ rest in
      let (ids, done) =
        consider_all-decides url_safe (get_from_db url_safe (job ∷ jobs) table) from_es (job ∷ jobs)
          empty q in
      (
        from_es,
        p,
        subst
            (IsRoundOf url_safe (job ∷ jobs) queue (get_from_db url_safe (job ∷ jobs) table)
              from_es)
            (ok-injective {E = SyncError} _ r s)
            (record {
              indexed = λ id. (ids id).0;
              deleted = λ id. (ids id).1;
              queued = λ id.
                  has_job-delete c.jobs_to_delete queue id
                  ∙ ap (λ b. has_job id queue && not b) (done id);
            }),
      )

any-All :
    (P Q : Job → Bool) (jobs : List Job)
    → All (λ job. P job ≡ false) jobs
    → any (λ job. P job && Q job) jobs ≡ false
any-All P Q [] h = refl
any-All P Q (job ∷ jobs) (h, hs) = ground (arith, any-All P Q jobs hs)

any_done :
    (P : Job → Bool) (jobs : List Job) (id : ℕ)
    → All (λ job. P job ≡ true) jobs
    → any (λ job. P job && job.id == id) jobs ≡ has_job id jobs
any_done P [] id h = refl
any_done P (job ∷ jobs) id (h, hs) = ground (arith, any_done P jobs id hs)

not_left_over :
    (forced : Bool) (a : Option DbAnnotation) (source : Option Source)
    → (forced || is_settled a source) ≡ true
    → (not forced && is_left_over a source) ≡ false
not_left_over true a source h = refl
not_left_over false none none h = refl
not_left_over false none (some source) h = sym h
not_left_over false (some a) source h = refl

All-not_left_over :
    (url_safe : String → String) (from_db : List (String × DbAnnotation))
    (from_es : List (String × Source)) (jobs : List Job)
    → All (λ job. completes url_safe from_db from_es job ≡ true) jobs
    → All (λ job. deletes url_safe from_db from_es job ≡ false) jobs
All-not_left_over url_safe from_db from_es [] h = tt
All-not_left_over url_safe from_db from_es (job ∷ jobs) (h, hs) = (
  not_left_over (is_forced job) (get (url_safe job.annotation_id) from_db)
      (get (url_safe job.annotation_id) from_es) h,
  All-not_left_over url_safe from_db from_es jobs hs,
)

IsRoundOf-settled :
    (url_safe : String → String) (jobs queue : List Job) (from_db : List (String × DbAnnotation))
    (from_es : List (String × Source)) (r : Round)
    → IsRoundOf url_safe jobs queue from_db from_es r
    → All (λ job. completes url_safe from_db from_es job ≡ true) jobs
    → ((id : ℕ) → has_job id r.queue ≡ (has_job id queue && not (has_job id jobs)))
      × ((id : String) → contains r.to_delete id ≡ false)
IsRoundOf-settled url_safe jobs queue from_db from_es r h settled = (
  (λ id.
      h.queued id
      ∙ ap (λ b. has_job id queue && not b)
          (any_done (completes url_safe from_db from_es) jobs id settled)),
  (λ id.
      h.deleted id
      ∙ any-All (deletes url_safe from_db from_es) (λ job. url_safe job.annotation_id == id) jobs
          (All-not_left_over url_safe from_db from_es jobs settled)),
)

-- If a round returns and both sides agree on the annotations of all its jobs that are not forced, it
-- takes its jobs off the queue, and nothing else, and deletes nothing from the search index.
pub sync_jobs-settled :
    (url_safe : String → String) (isoparse : String → Option ℕ) (search : List String → List Hit)
    (table : List DbAnnotation) (jobs queue : List Job) (from_es : List (String × Source))
    {r : Round}
    → sync_jobs url_safe isoparse search table jobs queue ≡ ok r
    → get_from_es url_safe isoparse search jobs ≡ ok from_es
    → All (λ job. completes url_safe (get_from_db url_safe jobs table) from_es job ≡ true) jobs
    → ((id : ℕ) → has_job id r.queue ≡ (has_job id queue && not (has_job id jobs)))
      × ((id : String) → contains r.to_delete id ≡ false)
sync_jobs-settled url_safe isoparse search table jobs queue from_es {r} h fetched settled =
    let (from_es', fetched', round) =
      sync_jobs-IsRoundOf url_safe isoparse search table jobs queue h in
    IsRoundOf-settled url_safe jobs queue (get_from_db url_safe jobs table) from_es r
      (subst (λ es. IsRoundOf url_safe jobs queue (get_from_db url_safe jobs table) es r)
        (ok-injective {E = SyncError} from_es' from_es (sym fetched' ∙ fetched)) round)
      settled
