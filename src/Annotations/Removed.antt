-- ===== src/Annotations/Removed.antt =====
-- What becomes of a deleted annotation: its job, and the round of the synchronization that works on it.
use mathlib.Core.Bool.{false≢true}
use subtask.Base.{
  ℕ, String, true, false, not, ◌&&◌, ◌≡◌, refl, sym, ap, ◌∙◌, Option, none, some, List, [], ◌∷◌, ok,
  arith, any, All, map, contains, get, ok-injective, Bool-cases, inl, inr, ◌==◌, string_eq, ==-refl,
}
use subtask.Sync.Queue.{Job}
use subtask.Sync.Helpers.{DbAnnotation, Hit, Source, SyncError, is_forced, get_from_db, get_from_es}
use subtask.Sync.Rounds.{Round, sync_jobs}
use subtask.Sync.Rounds.Decided.{deletes}
use subtask.Sync.Rounds.Settled.{live_row, get_from_db-live_row}
use subtask.Sync.Rounds.Outcome.{sync_jobs-IsRoundOf}
use subtask.Annotations.Tables.{
  AnnotationRow, Site, write_row, flush, queue_sync, upsert_annotation_slim,
}
use subtask.Annotations.Delete.{deleted_row, delete_annotation}
use subtask.Annotations.Queued.{is_there, is_job, there-write_row, queue_sync-queues}

-- The columns of an annotation that the synchronization reads.
abbrev pub db_row : AnnotationRow → DbAnnotation
db_row a = record { id = a.id; updated = a.updated; userid = a.userid; deleted = a.deleted }

-- Every row of the id is marked as deleted.
IsGone : String → List AnnotationRow → Type 0
IsGone id rows = All (λ b. (b.id == id) ≡ true → b.deleted ≡ true) rows

IsGone-write_row :
    (a : AnnotationRow) (rows : List AnnotationRow)
    → a.deleted ≡ true
    → IsGone a.id (write_row a rows)
unfolding IsGone write_row
IsGone-write_row a [] h = tt
IsGone-write_row a (b ∷ rows) h = elim (Bool-cases (b.id == a.id)) [
  | inl p ↦ rw p ((λ q. h), IsGone-write_row a rows h)
  | inr p ↦ rw p ((λ q. absurd (false≢true (sym p ∙ q))), IsGone-write_row a rows h)
]

IsGone-live_row :
    (id : String) (rows : List AnnotationRow)
    → IsGone id rows
    → live_row id (map db_row rows) ≡ none
unfolding IsGone
IsGone-live_row id [] h = refl
IsGone-live_row id (b ∷ rows) (h, hs) = elim (string_eq.dec id b.id) [
  | yes same ↦
      let dead : b.deleted ≡ true = h (ap (λ i. b.id == i) same ∙ ==-refl b.id) in
      let rest = IsGone-live_row id rows hs in ground arith
  | no differ ↦ let rest = IsGone-live_row id rows hs in ground arith
]

IsGone-get_from_db :
    (url_safe : String → String) (jobs : List Job) (id : String) (rows : List AnnotationRow)
    → IsGone id rows
    → get id (get_from_db url_safe jobs (map db_row rows)) ≡ none
IsGone-get_from_db url_safe jobs id rows h =
    let gone = IsGone-live_row id rows h in
    get_from_db-live_row url_safe jobs (map db_row rows) id ∙ ground arith

left_over-deletes :
    (url_safe : String → String) (from_db : List (String × DbAnnotation))
    (from_es : List (String × Source)) (id : String) (source : Source) (jobs : List Job)
    → get id from_db ≡ none
    → get id from_es ≡ some source
    → any (λ job. not (is_forced job) && url_safe job.annotation_id == id) jobs ≡ true
    → any (λ job. deletes url_safe from_db from_es job && url_safe job.annotation_id == id) jobs
      ≡ true
left_over-deletes url_safe from_db from_es id source [] p q h = h
left_over-deletes url_safe from_db from_es id source (job ∷ jobs) p q h =
    elim (string_eq.dec (url_safe job.annotation_id) id) [
      | yes same ↦
          let d : get (url_safe job.annotation_id) from_db ≡ none =
            ap (λ i. get i from_db) same ∙ p in
          let e : get (url_safe job.annotation_id) from_es ≡ some source =
            ap (λ i. get i from_es) same ∙ q in
          let rest = left_over-deletes url_safe from_db from_es id source jobs p q in
          rw (d, e) (ground arith)
      | no differ ↦
          let rest = left_over-deletes url_safe from_db from_es id source jobs p q in ground arith
    ]

module _ {Metadata : Type 0} (hex : String → String) (next_id : List Job → ℕ) (now : ℕ) where
  -- To delete an annotation of the table puts a job on the queue for it that is not forced, a minute from
  -- now; and a round that reads the annotations as the deletion left them, whose jobs have one that is not forced
  -- for the annotation, tells the indexer to delete it, if the round returns and the search has the annotation.
  pub delete-removes :
      (a : AnnotationRow) (s : Site Metadata) (url_safe : String → String)
      (isoparse : String → Option ℕ) (search : List String → List Hit) (jobs queue : List Job)
      (r : Round) (from_es : List (String × Source)) (source : Source)
      → is_there a.id s.annotations ≡ true
      → any (λ job. not (is_forced job) && url_safe job.annotation_id == a.id) jobs ≡ true
      → get_from_es url_safe isoparse search jobs ≡ ok from_es
      → get a.id from_es ≡ some source
      → sync_jobs url_safe isoparse search
          (map db_row (delete_annotation hex next_id now a s).annotations)
          jobs
          queue
        ≡ ok r
      → (any (is_job (hex a.id) now false) (delete_annotation hex next_id now a s).jobs ≡ true)
        × (contains r.to_delete a.id ≡ true)
  unfolding delete_annotation flush queue_sync upsert_annotation_slim
  delete-removes a s url_safe isoparse search jobs queue r from_es source there h p q done =
      let b : AnnotationRow = deleted_row now a in
      let rows : List AnnotationRow = write_row b (write_row b s.annotations) in
      let (found, same, round) =
        sync_jobs-IsRoundOf url_safe isoparse search (map db_row rows) jobs queue done in
      let known : get a.id found ≡ some source =
        ap (get a.id) (ok-injective {E = SyncError} found from_es (sym same ∙ p)) ∙ q in
      (
        queue_sync-queues hex next_id now b "AnnotationDeleteService.delete_annotation" false
            (flush b s) (there-write_row b a.id s.annotations there),
        round.deleted a.id
            ∙ left_over-deletes url_safe (get_from_db url_safe jobs (map db_row rows)) found a.id
                source jobs
                (IsGone-get_from_db url_safe jobs a.id rows
                  (IsGone-write_row b (write_row b s.annotations) refl))
                known h,
      )
