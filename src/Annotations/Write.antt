-- ===== src/Annotations/Write.antt =====
-- services/annotation_write.py: create_annotation, update_annotation, hide and unhide. A ValidationError
-- ends the request, and its transaction is rolled back: the state is returned only without one.
use subtask.Base.{
  ℕ, String, Bool, true, false, not, ◌&&◌, Option, none, some, List, [], ◌∷◌, ◌++◌, filter,
  contains, ◌==◌, string_eq, length, ltb, nat_eq, Result, ok, err, ◌>>=◌, if◌then◌else◌,
}
use subtask.Models.{Group}
use subtask.Security.Predicates.{Error}
use subtask.Sync.Queue.{Job}
use subtask.Annotations.Documents.{Found, change_document, moved_id}
use subtask.Annotations.Tables.{
  AnnotationRow, Site, find_annotation, group_of, url_in_scope, upsert_annotation_slim,
  set_metadata, queue_sync,
}

-- `denied` is an exception of the permission check itself.
pub data WriteError : Type 0 where
  missing_reference : String → WriteError
  invalid_group : String → WriteError
  no_write out_of_scope concurrent_update : WriteError
  denied : Error → WriteError

pub record CreateData (Metadata Document : Type 0) : Type 0 where
  pub userid : String
  pub groupid : String
  pub target_uri : String
  pub text : String
  pub tags : List String
  pub extra : List (String × String)
  pub references : List String
  pub shared : Bool
  pub document : Document
  pub metadata : Option Metadata

-- The keys that the data has; an empty document or metadata counts as none.
pub record UpdateData (Metadata Document : Type 0) : Type 0 where
  pub userid : Option String
  pub groupid : Option String
  pub target_uri : Option String
  pub text : Option String
  pub tags : Option (List String)
  pub shared : Option Bool
  pub extra : List (String × String)
  pub document : Option Document
  pub metadata : Option Metadata

abbrev pub set_or {ℓ} : {A : Type ℓ} → Option A → A → A
set_or none old = old
set_or (some new) old = new

-- `group.scopes and group.enforce_scope and not url_in_scope(…)`
abbrev pub breaks_scope : AnnotationRow → Group → Bool
breaks_scope a g =
    ltb 0 (length g.scopes) && g.enforce_scope && not (url_in_scope a.target_uri g.scopes)

abbrev pub check_group : AnnotationRow → Group → Bool → Result {0, 0} WriteError Unit
check_group a g false = err no_write
check_group a g true = if breaks_scope a g then err out_of_scope else ok tt

-- `request.has_permission` of WRITE in the context of a group
module _ (can_write : Group → Result Error Bool) where
  abbrev pub may_write : Bool → Group → Result WriteError Bool
  may_write enforce g = elim enforce [
    | false ↦ ok true
    | true ↦ elim (can_write g) [ ok b ↦ ok b | err e ↦ err (denied e) ]
  ]

  unfoldable pub validate_in : Bool → AnnotationRow → Group → Result {0, 0} WriteError Unit
  validate_in enforce a g = may_write enforce g >>= check_group a g

  abbrev pub validate_found : Bool → AnnotationRow → Option Group → Result {0, 0} WriteError Unit
  validate_found enforce a none = err (invalid_group a.groupid)
  validate_found enforce a (some g) = validate_in enforce a g

  module _ {Metadata : Type 0} where
    unfoldable pub validate_group :
        Bool → AnnotationRow → Site Metadata → Result {0, 0} WriteError Unit
    unfolding validate_in group_of
    validate_group enforce a s = validate_found enforce a (group_of a s)

abbrev pub groupid_of : String → Option AnnotationRow → Result WriteError String
groupid_of id none = err (missing_reference id)
groupid_of id (some root) = ok root.groupid

-- The group of the root annotation, if the data has references, and else that of the data.
unfoldable pub root_groupid :
    {Metadata : Type 0} → List String → String → Site Metadata → Result WriteError String
unfolding find_annotation
root_groupid [] groupid s = ok groupid
root_groupid (id ∷ ids) groupid s = groupid_of id (find_annotation id s.annotations)

-- Without documents the database has refused, and ConcurrentUpdateError is raised.
abbrev pub found_or : Option Found → Result WriteError Found
found_or none = err concurrent_update
found_or (some found) = ok found

-- The documents are looked up where the data has one or the target has changed; elsewhere the document stays
-- and none is merged.
abbrev pub documents_after {ℓ} :
    {Document : Type ℓ}
    → (String → Option Document → Option Found)
    → Option Document
    → String
    → AnnotationRow
    → Result WriteError Found
documents_after documents_of (some d) initial_target_uri a =
    found_or (documents_of a.target_uri (some d))
documents_after documents_of none initial_target_uri a =
    if a.target_uri == initial_target_uri
    then ok (record { master = a.document_id; duplicates = [] })
    else found_or (documents_of a.target_uri none)

module _ {Metadata Document : Type 0} where
  abbrev pub update_annotation_values : UpdateData Metadata Document → AnnotationRow → AnnotationRow
  update_annotation_values data_ a = record a {
    userid = set_or data_.userid a.userid;
    groupid = set_or data_.groupid a.groupid;
    target_uri = set_or data_.target_uri a.target_uri;
    text = set_or data_.text a.text;
    tags = set_or data_.tags a.tags;
    shared = set_or data_.shared a.shared;
    extra = data_.extra ++ a.extra;
  }

  -- `new_id` is the id that the database gives, and `now` the time of the call. No document is read before
  -- it is set.
  abbrev pub annotation_of : ℕ → ℕ → String → String → CreateData Metadata Document → AnnotationRow
  annotation_of now document_id new_id groupid data_ = record {
    id = new_id;
    userid = data_.userid;
    groupid = groupid;
    target_uri = data_.target_uri;
    text = data_.text;
    tags = data_.tags;
    extra = data_.extra;
    references = data_.references;
    shared = data_.shared;
    deleted = false;
    created = now;
    updated = now;
    document_id = document_id;
  }

  abbrev pub updated_row : ℕ → Bool → UpdateData Metadata Document → AnnotationRow → AnnotationRow
  updated_row now update_timestamp data_ a =
      let b = update_annotation_values data_ a in
      record b { updated = if update_timestamp then now else a.updated }

module _ {Metadata : Type 0} where
  abbrev pub add : AnnotationRow → Site Metadata → Site Metadata
  add a s = record s { annotations = s.annotations ++ (a ∷ []) }

  -- What create_annotation and update_annotation do alike at their ends.
  unfoldable pub store_annotation :
      (String → String)
      → (List Job → ℕ)
      → ℕ
      → AnnotationRow
      → Option Metadata
      → String
      → Bool
      → Site Metadata
      → Site Metadata
  store_annotation hex next_id now a metadata tag force s =
      queue_sync hex next_id now a tag force (set_metadata a metadata (upsert_annotation_slim a s))

-- `documents_of` is what update_document_metadata finds for a target URI and what the data says of the document.
module _ {Metadata Document : Type 0} (hex : String → String) (next_id : List Job → ℕ) (now : ℕ)
    (documents_of : String → Option Document → Option Found)
    (can_write : Group → Result Error Bool) where
  abbrev pub created_in :
      String
      → CreateData Metadata Document
      → Site Metadata
      → String
      → Found
      → AnnotationRow × Site Metadata
  created_in new_id data_ s groupid found =
      let a = annotation_of now found.master new_id groupid data_ in
      (
        a,
        store_annotation hex next_id now a data_.metadata "storage.create_annotation" false
            (add a (change_document found s)),
      )

  unfoldable pub create_annotation :
      String
      → CreateData Metadata Document
      → Site Metadata
      → Result WriteError (AnnotationRow × Site Metadata)
  unfolding root_groupid validate_group store_annotation change_document moved_id
  create_annotation new_id data_ s = root_groupid data_.references data_.groupid s >>= λ groupid.
      validate_group can_write true (annotation_of now 0 new_id groupid data_) s >>= λ _.
      found_or (documents_of data_.target_uri (some data_.document)) >>= λ found.
      ok (created_in new_id data_ s groupid found)

  abbrev pub updated_in :
      AnnotationRow
      → Option Metadata
      → Bool
      → String
      → Site Metadata
      → Found
      → AnnotationRow × Site Metadata
  updated_in b metadata update_timestamp reindex_tag s found =
      let c = record b { document_id = found.master } in
      (
        c,
        store_annotation hex next_id now c metadata reindex_tag (not update_timestamp)
            (change_document found s),
      )

  unfoldable pub update_annotation :
      AnnotationRow
      → UpdateData Metadata Document
      → Bool
      → String
      → Bool
      → Site Metadata
      → Result WriteError (AnnotationRow × Site Metadata)
  unfolding validate_group store_annotation change_document moved_id
  update_annotation a data_ update_timestamp reindex_tag enforce s =
      let b = updated_row now update_timestamp data_ a in
      validate_group can_write enforce b s >>= λ _.
      documents_after documents_of data_.document a.target_uri b >>= λ found.
      ok (updated_in b data_.metadata update_timestamp reindex_tag s found)

module _ {Metadata : Type 0} where
  unfoldable pub hide : AnnotationRow → Site Metadata → Site Metadata
  unfolding upsert_annotation_slim
  hide a s =
      upsert_annotation_slim a
        (if contains s.moderations a.id then s else record s { moderations = a.id ∷ s.moderations })

  unfoldable pub unhide : AnnotationRow → Site Metadata → Site Metadata
  unfolding upsert_annotation_slim
  unhide a s =
      upsert_annotation_slim a
        (record s { moderations = filter (λ id. not (id == a.id)) s.moderations })
