-- ===== src/Annotations/Documents.antt =====
-- models/document/_document.py and `change_document` of services/annotation_write.py: what the merging of
-- documents does to annotations. The rows of the documents are left out.
use subtask.Base.{ℕ, List, map, any, ◌==◌, nat_eq, if◌then◌else◌}
use subtask.Annotations.Tables.{AnnotationRow, AnnotationSlim, SlimFields, Site}

-- The documents that the URIs of the annotation are of: the first, which is made if there is none, and the
-- others, which are merged into it. The ids are what the database finds.
pub record Found : Type 0 where
  pub master : ℕ
  pub duplicates : List ℕ

-- `document_id` where it is one of the old documents'
unfoldable pub moved_id : Found → ℕ → ℕ
moved_id found d = if any (λ i. i == d) found.duplicates then found.master else d

abbrev pub moved : Found → AnnotationRow → AnnotationRow
moved found a = record a { document_id = moved_id found a.document_id }

abbrev pub moved_fields : Found → SlimFields → SlimFields
moved_fields found f = record f { document_id = moved_id found f.document_id }

abbrev pub moved_slim : Found → AnnotationSlim → AnnotationSlim
moved_slim found row = record {
  pubid = row.pubid;
  created = row.created;
  fields = moved_fields found row.fields;
}

-- What merge_documents does to annotations
unfoldable pub change_document : {Metadata : Type 0} → Found → Site Metadata → Site Metadata
change_document found s = record s {
  annotations = map (moved found) s.annotations;
  slims = map (moved_slim found) s.slims;
}
