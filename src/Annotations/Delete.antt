-- ===== src/Annotations/Delete.antt =====
-- services/annotation_delete.py and services/annotation_moderation.py
use subtask.Base.{
  ℕ, String, Bool, true, false, not, ◌&&◌, ◌+◌, List, [], ◌∷◌, ◌++◌, map, filter, contains, ltb,
  string_eq,
}
use subtask.Sync.Queue.{Job}
use subtask.Annotations.Tables.{AnnotationRow, Site, flush, queue_sync, upsert_annotation_slim}

abbrev pub deleted_row : ℕ → AnnotationRow → AnnotationRow
deleted_row now a = record a { updated = now; deleted = true }

abbrev pub ten_minutes : ℕ
ten_minutes = 600

abbrev pub is_expungeable : ℕ → AnnotationRow → Bool
is_expungeable now a = a.deleted && ltb (a.updated + ten_minutes) now

abbrev pub expunged :
    (ℕ → List AnnotationRow → List AnnotationRow) → ℕ → List AnnotationRow → List String
expunged limited now rows = map (λ a. a.id) (limited 1000 (filter (is_expungeable now) rows))

module _ {Metadata : Type 0} where
  module _ (hex : String → String) (next_id : List Job → ℕ) (now : ℕ) where
    -- The query of the queue writes the changed annotation.
    unfoldable pub delete_annotation : AnnotationRow → Site Metadata → Site Metadata
    unfolding flush queue_sync upsert_annotation_slim
    delete_annotation a s =
        let b = deleted_row now a in
        let queued =
          queue_sync hex next_id now b "AnnotationDeleteService.delete_annotation" false
            (flush b s) in
        let done = upsert_annotation_slim b queued in
        record done { deleted_events = done.deleted_events ++ (b.id ∷ []) }

    unfoldable pub delete_annotations : List AnnotationRow → Site Metadata → Site Metadata
    unfolding delete_annotation
    delete_annotations [] s = s
    delete_annotations (a ∷ rows) s = delete_annotations rows (delete_annotation a s)

  -- `limited` is `limit(1000)` of the database: which rows it keeps is open. With an annotation go its
  -- slim row, its moderation and its metadata.
  module _ (limited : ℕ → List AnnotationRow → List AnnotationRow) where
    unfoldable pub bulk_delete : ℕ → Site Metadata → Site Metadata
    bulk_delete now s =
        let ids = expunged limited now s.annotations in
        record s {
          annotations = filter (λ a. not (contains ids a.id)) s.annotations;
          slims = filter (λ row. not (contains ids row.pubid)) s.slims;
          moderations = filter (λ id. not (contains ids id)) s.moderations;
          metadata = filter (λ entry. not (contains ids entry.0)) s.metadata;
        }

  -- The subset of the ids that are hidden; the set is a list of the rows' ids.
  unfoldable pub all_hidden : List String → Site Metadata → List String
  all_hidden [] s = []
  all_hidden (id ∷ ids) s = filter (λ m. contains (id ∷ ids) m) s.moderations
