-- ===== src/Annotations/Created.antt =====
-- What create_annotation and update_annotation leave.
use mathlib.Core.Path.{subst}
use subtask.Base.{
  ℕ, String, Bool, true, false, not, ◌≡◌, refl, map, sym, ap, Option, none, some, List, [], ◌∷◌,
  Result, ok, ok-injective, Bool-cases, inl, inr, arith, any, ◌==◌, string_eq, ==-refl,
  if◌then◌else◌,
}
use mathlib.Core.Bool.{false≢true}
use subtask.Models.{Group}
use subtask.Security.Predicates.{Error}
use subtask.Sync.Queue.{Job}
use subtask.Annotations.Tables.{
  AnnotationRow, Site, find_annotation, write_row, flush, upsert_annotation_slim, set_metadata,
  queue_sync,
}
use subtask.Annotations.Documents.{Found, moved, change_document}
use subtask.Annotations.Write.{
  CreateData, UpdateData, WriteError, create_annotation, update_annotation, root_groupid,
  groupid_of, annotation_of, updated_row, set_or, add, store_annotation, documents_after,
}
use subtask.Annotations.Checked.{
  IsChecked, validate_group-IsChecked, create_annotation-parts, update_annotation-parts,
}
use subtask.Annotations.Queued.{is_there, is_job, store-queues, there-add}

groupid_of-root :
    (id : String) (o : Option AnnotationRow) (found : String)
    → groupid_of id o ≡ ok found
    → (root : AnnotationRow) × (o ≡ some root) × (found ≡ root.groupid)
groupid_of-root id none found h = cc
groupid_of-root id (some root) found h = (root, refl, sym (ok-injective {E = WriteError} _ _ h))

find-write_row :
    (a : AnnotationRow) (rows : List AnnotationRow)
    → is_there a.id rows ≡ true
    → find_annotation a.id (write_row a rows) ≡ some a
unfolding find_annotation write_row is_there
find-write_row a [] h = absurd (false≢true h)
find-write_row a (b ∷ rows) h = elim (Bool-cases (b.id == a.id)) [
  | inl p ↦ rw p (ground (arith, ==-refl a.id))
  | inr p ↦ let rest = find-write_row a rows (ground arith) in rw p (ground arith)
]

there-moved :
    (found : Found) (id : String) (rows : List AnnotationRow)
    → is_there id rows ≡ true
    → is_there id (map (moved found) rows) ≡ true
unfolding is_there
there-moved found id [] h = h
there-moved found id (b ∷ rows) h = ground (arith, there-moved found id rows)

document_stays :
    {Document : Type 0} (documents_of : String → Option Document → Option Found)
    (a b : AnnotationRow) (d : Option Document) (found : Found)
    → documents_after documents_of d a.target_uri b ≡ ok found
    → d ≡ none
    → b.target_uri ≡ a.target_uri
    → found.master ≡ b.document_id
document_stays documents_of a b (some d) found h p q = cc
document_stays documents_of a b none found h p q = elim (string_eq.dec b.target_uri a.target_uri) [
  | yes same ↦ ap Found.master (
      ok-injective {E = WriteError} found (record { master = b.document_id; duplicates = [] })
        (ground arith))
  | no differ ↦ absurd (differ q)
]

module _ {Metadata : Type 0} where
  -- The group of a reply is that of the annotation that the references begin with.
  abbrev pub IsInGroup : List String → String → String → Site Metadata → Type 0
  IsInGroup [] groupid found s = found ≡ groupid
  IsInGroup (id ∷ ids) groupid found s =
      (root : AnnotationRow) × (find_annotation id s.annotations ≡ some root)
      × (found ≡ root.groupid)

  root_groupid-IsInGroup :
      (references : List String) (groupid : String) (s : Site Metadata) (found : String)
      → root_groupid references groupid s ≡ ok found
      → IsInGroup references groupid found s
  unfolding root_groupid
  root_groupid-IsInGroup [] groupid s found h = sym (ok-injective {E = WriteError} _ _ h)
  root_groupid-IsInGroup (id ∷ ids) groupid s found h =
      groupid_of-root id (find_annotation id s.annotations) found h

  -- The checks read no document and no other annotation.
  IsChecked-document :
      (can_write : Group → Result Error Bool) (enforce : Bool) (a : AnnotationRow) (d : ℕ)
      (s : Site Metadata)
      → IsChecked can_write enforce a s
      → IsChecked can_write enforce (record a { document_id = d }) s
  IsChecked-document can_write enforce a d s h = record {
    group = h.group;
    found = h.found;
    allowed = h.allowed;
    in_scope = h.in_scope;
  }

module _ {Metadata Document : Type 0} where
  pub record IsCreated (hex : String → String) (now : ℕ) (can_write : Group → Result Error Bool)
      (data_ : CreateData Metadata Document) (s : Site Metadata) (r : AnnotationRow × Site Metadata)
      : Type 0 where
    pub checked : IsChecked can_write true r.0 s
    pub in_group : IsInGroup data_.references data_.groupid r.0.groupid s
    pub stored : find_annotation r.0.id r.1.annotations ≡ some r.0
    pub queued : any (is_job (hex r.0.id) now false) r.1.jobs ≡ true

  pub record IsUpdated (hex : String → String) (now : ℕ) (can_write : Group → Result Error Bool)
      (a : AnnotationRow) (data_ : UpdateData Metadata Document) (stamp enforce : Bool)
      (s : Site Metadata) (r : AnnotationRow × Site Metadata) : Type 0 where
    pub checked : IsChecked can_write enforce r.0 s
    pub text : r.0.text ≡ set_or data_.text a.text
    pub updated : r.0.updated ≡ (if stamp then now else a.updated)
    pub same_document :
        data_.document ≡ none → data_.target_uri ≡ none → r.0.document_id ≡ a.document_id
    pub queued :
        is_there a.id s.annotations ≡ true → any (is_job (hex a.id) now (not stamp)) r.1.jobs ≡ true

  module _ (hex : String → String) (next_id : List Job → ℕ) (now : ℕ)
      (documents_of : String → Option Document → Option Found)
      (can_write : Group → Result Error Bool) where
    -- If create_annotation returns, the annotation's group is there, the caller may write to it, and the
    -- target is in its scope; the group is that of the annotation that the references begin with, which is
    -- there, and that of the data if there are none; the annotation is stored, and a job for it is on
    -- the queue, a minute from now and not forced.
    pub create_annotation-IsCreated :
        (new_id : String) (data_ : CreateData Metadata Document) (s : Site Metadata)
        (r : AnnotationRow × Site Metadata)
        → create_annotation hex next_id now documents_of can_write new_id data_ s ≡ ok r
        → IsCreated hex now can_write data_ s r
    unfolding store_annotation set_metadata upsert_annotation_slim flush queue_sync change_document
    create_annotation-IsCreated new_id data_ s r h =
        let (groupid, p, valid, (found, found_in, same)) =
          create_annotation-parts hex next_id now documents_of can_write new_id data_ s h in
        let draft : AnnotationRow = annotation_of now 0 new_id groupid data_ in
        let a : AnnotationRow = annotation_of now found.master new_id groupid data_ in
        let t : Site Metadata = change_document found s in
        subst (IsCreated hex now can_write data_ s) same (record {
          checked =
              IsChecked-document can_write true draft found.master s
                (validate_group-IsChecked can_write true draft s valid);
          in_group = root_groupid-IsInGroup data_.references data_.groupid s groupid p;
          stored = find-write_row a (add a t).annotations (there-add hex next_id now a t);
          queued =
              store-queues hex next_id now a data_.metadata "storage.create_annotation" false
                (add a t) (there-add hex next_id now a t);
        })

    -- If update_annotation returns, the changed annotation's group is there, the caller may write to it if that
    -- is asked for, and the target is in its scope; the text is that of the data, if it has one; the
    -- time is now if it was to be set; without a document and a target in the data the document stays;
    -- and if the annotation was there, a job is on the queue, forced exactly if the time was not set.
    pub update_annotation-IsUpdated :
        (a : AnnotationRow) (data_ : UpdateData Metadata Document) (stamp : Bool) (tag : String)
        (enforce : Bool) (s : Site Metadata) (r : AnnotationRow × Site Metadata)
        → update_annotation hex next_id now documents_of can_write a data_ stamp tag enforce s
          ≡ ok r
        → IsUpdated hex now can_write a data_ stamp enforce s r
    unfolding change_document
    update_annotation-IsUpdated a data_ stamp tag enforce s r h =
        let (valid, (found, found_in, same)) =
          update_annotation-parts hex next_id now documents_of can_write a data_ stamp tag enforce s
            h in
        let b : AnnotationRow = updated_row now stamp data_ a in
        let c : AnnotationRow = record b { document_id = found.master } in
        subst (IsUpdated hex now can_write a data_ stamp enforce s) same (record {
          checked =
              IsChecked-document can_write enforce b found.master s
                (validate_group-IsChecked can_write enforce b s valid);
          text = refl;
          updated = refl;
          same_document = λ p q.
              document_stays documents_of a b data_.document found found_in p
                (ap (λ t. set_or t a.target_uri) q);
          queued = λ there.
              store-queues hex next_id now c data_.metadata tag (not stamp)
                (change_document found s) (there-moved found a.id s.annotations there);
        })
