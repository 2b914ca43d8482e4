-- ===== src/Annotations/Checked.antt =====
-- What a call of create_annotation or update_annotation that returns has gone through.
use subtask.Base.{
  ℕ, String, Bool, true, false, ◌≡◌, refl, ap, ◌∙◌, Option, none, some, List, Result, ok, err,
  bind-eq-ok, ok-injective, arith, string_eq,
}
use subtask.Models.{Group}
use subtask.Security.Predicates.{Error}
use subtask.Sync.Queue.{Job}
use subtask.Annotations.Tables.{AnnotationRow, Site, find_group, group_of}
use subtask.Annotations.Documents.{Found}
use subtask.Annotations.Write.{
  CreateData, UpdateData, WriteError, denied, create_annotation, update_annotation, root_groupid,
  validate_group, validate_in, validate_found, check_group, may_write, breaks_scope, annotation_of,
  updated_row, found_or, documents_after, created_in, updated_in,
}

-- What an annotation is checked for: its group is there, the caller may write to it, and the target is in
-- the group's scope.
pub record IsChecked {Metadata : Type 0} (can_write : Group → Result Error Bool) (enforce : Bool)
    (a : AnnotationRow) (s : Site Metadata) : Type 0 where
  pub group : Group
  pub found : find_group a.groupid s.groups ≡ some group
  pub allowed : enforce ≡ true → can_write group ≡ ok true
  pub in_scope : breaks_scope a group ≡ false

abbrev wrapped : Result Error Bool → Result WriteError Bool
wrapped (ok b) = ok b
wrapped (err e) = err (denied e)

module _ (can_write : Group → Result Error Bool) where
  check_group-allowed :
      (a : AnnotationRow) (g : Group) (b : Bool)
      → check_group a g b ≡ ok tt
      → (b ≡ true) × (breaks_scope a g ≡ false)
  check_group-allowed a g false h = cc
  check_group-allowed a g true h = (refl, ground arith)

  may_write-allowed : (r : Result Error Bool) (b : Bool) → wrapped r ≡ ok b → r ≡ ok b
  may_write-allowed (ok b) c h = cc
  may_write-allowed (err e) c h = cc

  enforced :
      (enforce : Bool) (g : Group)
      → may_write can_write enforce g ≡ ok true
      → enforce ≡ true
      → can_write g ≡ ok true
  enforced false g h p = cc
  enforced true g h p = may_write-allowed (can_write g) true h

  checked_in :
      (enforce : Bool) (a : AnnotationRow) (g : Group)
      → validate_in can_write enforce a g ≡ ok tt
      → (enforce ≡ true → can_write g ≡ ok true) × (breaks_scope a g ≡ false)
  unfolding validate_in
  checked_in enforce a g h =
      let (b, p, q) = bind-eq-ok (may_write can_write enforce g) (check_group a g) h in
      let (yes_, scoped) = check_group-allowed a g b q in
      (enforced enforce g (p ∙ ap ok yes_), scoped)

  module _ {Metadata : Type 0} where
    found-IsChecked :
        (enforce : Bool) (a : AnnotationRow) (s : Site Metadata) (o : Option Group)
        → find_group a.groupid s.groups ≡ o
        → validate_found can_write enforce a o ≡ ok tt
        → IsChecked can_write enforce a s
    found-IsChecked enforce a s none p h = cc
    found-IsChecked enforce a s (some g) p h =
        let (allowed, scoped) = checked_in enforce a g h in
        record { group = g; found = p; allowed = allowed; in_scope = scoped }

    pub validate_group-IsChecked :
        (enforce : Bool) (a : AnnotationRow) (s : Site Metadata)
        → validate_group can_write enforce a s ≡ ok tt
        → IsChecked can_write enforce a s
    unfolding validate_group group_of
    validate_group-IsChecked enforce a s h =
        found-IsChecked enforce a s (find_group a.groupid s.groups) refl h

module _ {Metadata Document : Type 0} (hex : String → String) (next_id : List Job → ℕ) (now : ℕ)
    (documents_of : String → Option Document → Option Found)
    (can_write : Group → Result Error Bool) where
  -- What create_annotation and update_annotation have stored when they return.
  pub create_annotation-parts :
      (new_id : String) (data_ : CreateData Metadata Document) (s : Site Metadata)
      {r : AnnotationRow × Site Metadata}
      → create_annotation hex next_id now documents_of can_write new_id data_ s ≡ ok r
      → (groupid : String) × (root_groupid data_.references data_.groupid s ≡ ok groupid)
        × (validate_group can_write true (annotation_of now 0 new_id groupid data_) s ≡ ok tt)
        × ((found : Found) × (found_or (documents_of data_.target_uri (some data_.document))
              ≡ ok found)
            × (created_in hex next_id now documents_of can_write new_id data_ s groupid found ≡ r))
  unfolding create_annotation
  create_annotation-parts new_id data_ s {r} h =
      let (groupid, p, rest) = bind-eq-ok (root_groupid data_.references data_.groupid s) _ h in
      let (u, valid, later) =
        bind-eq-ok (validate_group can_write true (annotation_of now 0 new_id groupid data_) s) _
          rest in
      let (found, q, done) =
        bind-eq-ok (found_or (documents_of data_.target_uri (some data_.document))) _ later in
      (groupid, p, valid, (found, q, ok-injective {E = WriteError} _ r done))

  pub update_annotation-parts :
      (a : AnnotationRow) (data_ : UpdateData Metadata Document) (stamp : Bool) (tag : String)
      (enforce : Bool) (s : Site Metadata) {r : AnnotationRow × Site Metadata}
      → update_annotation hex next_id now documents_of can_write a data_ stamp tag enforce s ≡ ok r
      → (validate_group can_write enforce (updated_row now stamp data_ a) s ≡ ok tt)
        × ((found : Found) × (documents_after documents_of data_.document a.target_uri
                (updated_row now stamp data_ a)
              ≡ ok found)
            × (updated_in hex next_id now documents_of can_write
                  (updated_row now stamp data_ a)
                  data_.metadata
                  stamp
                  tag
                  s
                  found
                ≡ r))
  unfolding update_annotation
  update_annotation-parts a data_ stamp tag enforce s {r} h =
      let (u, valid, later) =
        bind-eq-ok (validate_group can_write enforce (updated_row now stamp data_ a) s) _ h in
      let (found, q, done) =
        bind-eq-ok
          (documents_after documents_of data_.document a.target_uri (updated_row now stamp data_ a))
          _ later in
      (valid, (found, q, ok-injective {E = WriteError} _ r done))
