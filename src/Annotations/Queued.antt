-- ===== src/Annotations/Queued.antt =====
-- The jobs that the calls put on the queue, and what a round of the synchronization does with them.
use mathlib.Core.Bool.{false≢true}
use subtask.Base.{
  ℕ, String, Bool, true, ◌&&◌, ◌||◌, ◌≡◌, refl, ap, ◌∙◌, ◌+◌, inl, inr, Option, some, List, [], ◌∷◌,
  ◌++◌, arith, any, map, filter, string_eq, nat_eq, bool_eq, option_eq, ◌==◌, ==-refl, Bool-cases,
}
use subtask.Sync.Queue.{Job, Row, insert_from, add_where, add_by_id, single_item}
use subtask.Annotations.Tables.{
  AnnotationRow, Site, queue_row, write_row, flush, upsert_annotation_slim, set_metadata,
  queue_sync,
}
use subtask.Annotations.Write.{add, store_annotation}

-- A job for the annotation, due a minute after `now`.
abbrev pub is_job : String → ℕ → Bool → Job → Bool
is_job id now force job =
    job.name == "sync_annotation"
    && job.annotation_id == id
    && job.scheduled_at == now + 60
    && job.force == some force

any-append {ℓ} :
    {A : Type ℓ} (test : A → Bool) (xs ys : List A)
    → any test (xs ++ ys) ≡ (any test xs || any test ys)
any-append test [] ys = refl
any-append test (x ∷ xs) ys = ground (arith, any-append test xs ys)

module _ (next_id : List Job → ℕ) (now : ℕ) (id tag : String) (force : Bool) where
  insert_from-has :
      (annotations rows : List Row) (table : List Job)
      → any (is_job id now force) table ≡ true
      → any (is_job id now force) (
          insert_from next_id now annotations "sync_annotation"
            (now + 60)
            single_item
            tag
            force
            rows
            table)
        ≡ true
  insert_from-has annotations [] table h = h
  insert_from-has annotations (row ∷ rows) table h =
      insert_from-has annotations rows _ (any-append (is_job id now force) table _ ∙ ground arith)

  insert_from-queues :
      (annotations rows : List Row) (table : List Job)
      → any (λ row. row.id == id) rows ≡ true
      → any (is_job id now force) (
          insert_from next_id now annotations "sync_annotation"
            (now + 60)
            single_item
            tag
            force
            (filter (λ row. row.id == id) rows)
            table)
        ≡ true
  insert_from-queues annotations [] table h = absurd (false≢true h)
  insert_from-queues annotations (row ∷ rows) table h = elim (Bool-cases (row.id == id)) [
    | inl p ↦ rw p (
        insert_from-has annotations (filter (λ row. row.id == id) rows) _
          (any-append (is_job id now force) table _ ∙ ground arith))
    | inr p ↦ rw p (insert_from-queues annotations rows table (ground arith))
  ]

unfoldable pub is_there : String → List AnnotationRow → Bool
is_there id rows = any (λ b. b.id == id) rows

any-queue_row :
    (hex : String → String) (id : String) (rows : List AnnotationRow)
    → is_there id rows ≡ true
    → any (λ row. row.id == hex id) (map (queue_row hex) rows) ≡ true
unfolding is_there
any-queue_row hex id [] h = absurd (false≢true h)
any-queue_row hex id (b ∷ rows) h = elim (string_eq.dec b.id id) [
  | yes same ↦
      ap (λ i. hex i == hex id || any (λ row. row.id == hex id) (map (queue_row hex) rows)) same
      ∙ ground (arith, ==-refl (hex id))
  | no differ ↦ let rest = any-queue_row hex id rows (ground arith) in ground arith
]

pub there-write_row :
    (a : AnnotationRow) (id : String) (rows : List AnnotationRow)
    → is_there id rows ≡ true
    → is_there id (write_row a rows) ≡ true
unfolding is_there write_row
there-write_row a id [] h = h
there-write_row a id (b ∷ rows) h = ground (arith, there-write_row a id rows)

module _ {Metadata : Type 0} (hex : String → String) (next_id : List Job → ℕ) (now : ℕ) where
  pub queue_sync-queues :
      (a : AnnotationRow) (tag : String) (force : Bool) (s : Site Metadata)
      → is_there a.id s.annotations ≡ true
      → any (is_job (hex a.id) now force) (queue_sync hex next_id now a tag force s).jobs ≡ true
  unfolding queue_sync add_by_id add_where
  queue_sync-queues a tag force s h =
      insert_from-queues next_id now (hex a.id) tag force (map (queue_row hex) s.annotations)
        (map (queue_row hex) s.annotations) s.jobs (any-queue_row hex a.id s.annotations h)

  pub store-queues :
      (a : AnnotationRow) (m : Option Metadata) (tag : String) (force : Bool) (s : Site Metadata)
      → is_there a.id s.annotations ≡ true
      → any (is_job (hex a.id) now force) (store_annotation hex next_id now a m tag force s).jobs
        ≡ true
  unfolding store_annotation set_metadata upsert_annotation_slim flush
  store-queues a m tag force s h =
      queue_sync-queues a tag force (set_metadata a m (upsert_annotation_slim a s))
        (there-write_row a a.id s.annotations h)

  pub there-add :
      (a : AnnotationRow) (s : Site Metadata) → is_there a.id (add a s).annotations ≡ true
  unfolding is_there
  there-add a s =
      any-append (λ b. b.id == a.id) s.annotations (a ∷ []) ∙ ground (arith, ==-refl a.id)
