-- ===== src/Annotations/History.antt =====
-- What the services of annotations do one after the other.
use subtask.Base.{ℕ, String, Bool, Option, List, [], ◌∷◌, string_eq, Result, ok, err}
use subtask.Models.{Group}
use subtask.Security.Predicates.{Error}
use subtask.Sync.Queue.{Job}
use subtask.Annotations.Tables.{AnnotationRow, Site}
use subtask.Annotations.Documents.{Found}
use subtask.Annotations.Write.{
  CreateData, UpdateData, WriteError, create_annotation, update_annotation, hide, unhide,
}
use subtask.Annotations.Delete.{delete_annotations, bulk_delete}

-- One call; `update_one` has the annotation as the session loaded it, with the arguments.
pub data Call (Metadata Document : Type 0) : Type 0 where
  create_one : String → CreateData Metadata Document → Call Metadata Document
  update_one :
      AnnotationRow → UpdateData Metadata Document → Bool → String → Bool → Call Metadata Document
  hide_one unhide_one : AnnotationRow → Call Metadata Document
  delete_all : List AnnotationRow → Call Metadata Document
  expunge : Call Metadata Document

-- A request: its time, what its permission check says, the documents that it finds, and the call.
pub record Step (Metadata Document : Type 0) : Type 0 where
  pub now : ℕ
  pub can_write : Group → Result Error Bool
  pub documents_of : String → Option Document → Option Found
  pub call : Call Metadata Document

module _ {Metadata : Type 0} where
  abbrev pub kept :
      Site Metadata → Result WriteError (AnnotationRow × Site Metadata) → Site Metadata
  kept s (ok (a, t)) = t
  kept s (err e) = s

module _ {Metadata Document : Type 0} (hex : String → String) (next_id : List Job → ℕ)
    (limited : ℕ → List AnnotationRow → List AnnotationRow) where
  -- The state behind the call; where it raises, the transaction is rolled back.
  abbrev pub called :
      ℕ
      → (Group → Result Error Bool)
      → (String → Option Document → Option Found)
      → Call Metadata Document
      → Site Metadata
      → Site Metadata
  called now can_write documents_of (create_one new_id data_) s =
      kept s (create_annotation hex next_id now documents_of can_write new_id data_ s)
  called now can_write documents_of (update_one a data_ stamp tag enforce) s =
      kept s (update_annotation hex next_id now documents_of can_write a data_ stamp tag enforce s)
  called now can_write documents_of (hide_one a) s = hide a s
  called now can_write documents_of (unhide_one a) s = unhide a s
  called now can_write documents_of (delete_all rows) s = delete_annotations hex next_id now rows s
  called now can_write documents_of expunge s = bulk_delete limited now s

  abbrev pub history : List (Step Metadata Document) → Site Metadata → Site Metadata
  history [] s = s
  history (r ∷ requests) s = history requests (called r.now r.can_write r.documents_of r.call s)
