-- ===== src/Annotations/Merged.antt =====
-- Documents that are merged: the annotations and their slim rows change alike.
use subtask.Base.{
  ℕ, String, Bool, ◌≡◌, refl, sym, ap, ◌∙◌, Option, none, some, List, [], ◌∷◌, map, contains, All,
  ◌==◌, string_eq, nat_eq, arith, if◌then◌else◌,
}
use subtask.Models.{Group}
use subtask.Annotations.Tables.{
  AnnotationRow, SlimFields, AnnotationSlim, UserId, Site, find_slim, find_group, find_user_id,
  slim_of, slim_with, slim_fields,
}
use subtask.Annotations.Documents.{Found, moved, moved_fields, moved_slim, change_document}
use subtask.Annotations.Mirrored.{fields_at, IsMirroredIn, IsMirrored}

module _ (found : Found) where
  moved_option : Option SlimFields → Option SlimFields
  moved_option none = none
  moved_option (some f) = some (moved_fields found f)

  moved_option-some :
      (o : Option SlimFields) (g : SlimFields)
      → moved_option o ≡ some g
      → (f : SlimFields) × (o ≡ some f) × (moved_fields found f ≡ g)
  unfolding moved_option
  moved_option-some none g h = cc
  moved_option-some (some f) g h = (f, refl, cc)

  find_slim-moved :
      (id : String) (slims : List AnnotationSlim)
      → fields_at id (map (moved_slim found) slims) ≡ moved_option (fields_at id slims)
  unfolding find_slim moved_option
  find_slim-moved id [] = refl
  find_slim-moved id (row ∷ slims) = elim (string_eq.dec row.pubid id) [
    | yes same ↦ let rest = find_slim-moved id slims in ground arith
    | no differ ↦ let rest = find_slim-moved id slims in ground arith
  ]

  with_user :
      (m : Bool) (a : AnnotationRow) (g : Group) (o : Option ℕ)
      → elim o as (λ _. Option SlimFields) [
        | none ↦ none
        | some user_id ↦
            if user_id == 0 then none else some (slim_fields (moved found a) g user_id m)
      ]
        ≡ moved_option (elim o as (λ _. Option SlimFields) [
          | none ↦ none
          | some user_id ↦ if user_id == 0 then none else some (slim_fields a g user_id m)
        ])
  unfolding moved_option
  with_user m a g none = refl
  with_user m a g (some user_id) = elim (nat_eq.dec user_id 0) [
    | yes same ↦ ground arith
    | no differ ↦ ground arith
  ]

  with_group :
      (o : Option Group) (lower : String → String) (users : List UserId) (m : Bool)
      (a : AnnotationRow)
      → elim o as (λ _. Option SlimFields) [
        | none ↦ none
        | some g ↦ elim (find_user_id lower a.userid users) as (λ _. Option SlimFields) [
          | none ↦ none
          | some user_id ↦
              if user_id == 0 then none else some (slim_fields (moved found a) g user_id m)
        ]
      ]
        ≡ moved_option (elim o as (λ _. Option SlimFields) [
          | none ↦ none
          | some g ↦ elim (find_user_id lower a.userid users) as (λ _. Option SlimFields) [
            | none ↦ none
            | some user_id ↦ if user_id == 0 then none else some (slim_fields a g user_id m)
          ]
        ])
  unfolding moved_option
  with_group none lower users m a = refl
  with_group (some g) lower users m a = with_user m a g (find_user_id lower a.userid users)

  module _ {Metadata : Type 0} (s : Site Metadata) where
    slim_of-moved :
        (a : AnnotationRow)
        → slim_of (moved found a) (change_document found s) ≡ moved_option (slim_of a s)
    unfolding slim_of slim_with change_document
    slim_of-moved a =
        with_group (find_group a.groupid s.groups) s.lower s.users (contains s.moderations a.id) a

    moved-IsMirroredIn :
        (a : AnnotationRow)
        → IsMirroredIn s a
        → IsMirroredIn (change_document found s) (moved found a)
    unfolding change_document moved_option
    moved-IsMirroredIn a h g p =
        let (f, q, r) = moved_option-some (slim_of a s) g (sym (slim_of-moved a) ∙ p) in
        find_slim-moved a.id s.slims ∙ ap moved_option (h f q) ∙ ap some r

    All-moved :
        (rows : List AnnotationRow)
        → All (IsMirroredIn s) rows
        → All (IsMirroredIn (change_document found s)) (map (moved found) rows)
    All-moved [] h = tt
    All-moved (a ∷ rows) (h, hs) = (moved-IsMirroredIn a h, All-moved rows hs)

    -- To merge documents keeps the slim rows as the annotations are.
    pub change_document-IsMirrored : IsMirrored s → IsMirrored (change_document found s)
    unfolding change_document
    change_document-IsMirrored h = All-moved s.annotations h
