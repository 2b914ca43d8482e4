-- ===== src/Annotations/Mirrored.antt =====
-- The slim rows beside the annotations.
use subtask.Base.{
  String, Bool, true, false, ◌≡◌, ◌≢◌, ◌⊎◌, inl, inr, refl, sym, ap, ◌∙◌, Option, none, some, List,
  [], ◌∷◌, contains, All, ◌==◌, string_eq, nat_eq, arith, if◌then◌else◌,
}
use subtask.Annotations.Tables.{
  AnnotationRow, SlimFields, AnnotationSlim, Site, find_slim, write_row, upsert, upsert_if, slim_of,
  slim_with, flush, upsert_annotation_slim,
}

abbrev fields_of : Option AnnotationSlim → Option SlimFields
fields_of none = none
fields_of (some row) = some row.fields

-- The fields of the slim row of the id.
abbrev pub fields_at : String → List AnnotationSlim → Option SlimFields
fields_at id slims = fields_of (find_slim id slims)

fields_at-upsert :
    (a : AnnotationRow) (f : SlimFields) (slims : List AnnotationSlim)
    → fields_at a.id (upsert a f slims) ≡ some f
unfolding find_slim upsert
fields_at-upsert a f [] = ground arith
fields_at-upsert a f (row ∷ slims) = ground (arith, fields_at-upsert a f slims)

fields_at-upsert_other :
    (id : String) (a : AnnotationRow) (f : SlimFields) (slims : List AnnotationSlim)
    → a.id ≢ id
    → fields_at id (upsert a f slims) ≡ fields_at id slims
unfolding find_slim upsert
fields_at-upsert_other id a f [] h = ground arith
fields_at-upsert_other id a f (row ∷ slims) h =
    ground (arith, fields_at-upsert_other id a f slims h)

fields_at-upsert_if_other :
    (id : String) (a : AnnotationRow) (f : Option SlimFields) (slims : List AnnotationSlim)
    → a.id ≢ id
    → fields_at id (upsert_if a f slims) ≡ fields_at id slims
fields_at-upsert_if_other id a none slims h = refl
fields_at-upsert_if_other id a (some f) slims h = fields_at-upsert_other id a f slims h

fields_at-upsert_if :
    (a : AnnotationRow) (o : Option SlimFields) (f : SlimFields) (slims : List AnnotationSlim)
    → o ≡ some f
    → fields_at a.id (upsert_if a o slims) ≡ some f
fields_at-upsert_if a none f slims h = cc
fields_at-upsert_if a (some g) f slims h = fields_at-upsert a g slims ∙ h

write_one :
    (Q : AnnotationRow → Type 0) (a b : AnnotationRow) (found : Bool)
    → (b.id == a.id) ≡ found
    → Q a
    → (a.id ≢ b.id → Q b)
    → Q (if found then a else b)
write_one Q a b true h p q = p
write_one Q a b false h p q = q (ground arith)

pub All-write_row :
    (P Q : AnnotationRow → Type 0) (a : AnnotationRow)
    → Q a
    → ((b : AnnotationRow) → a.id ≢ b.id → P b → Q b)
    → (rows : List AnnotationRow) → All (λ b. P b ⊎ (b.id ≡ a.id)) rows
    → All Q (write_row a rows)
unfolding write_row
All-write_row P Q a p q [] h = tt
All-write_row P Q a p q (b ∷ rows) (h, hs) = (
  write_one Q a b (b.id == a.id) refl p
      (λ differ. elim h [ inl was ↦ q b differ was | inr same ↦ absurd (differ (sym same)) ]),
  All-write_row P Q a p q rows hs,
)

module _ {Metadata : Type 0} where
  abbrev pub IsMirroredIn : Site Metadata → AnnotationRow → Type 0
  IsMirroredIn s a = (f : SlimFields) → slim_of a s ≡ some f → fields_at a.id s.slims ≡ some f

  -- Every annotation whose group and user are there has a slim row with the annotation's values.
  abbrev pub IsMirrored : Site Metadata → Type 0
  IsMirrored s = All (IsMirroredIn s) s.annotations

  -- Whether two states have the same groups, users and moderation of the annotation.
  pub record IsAlike (id : String) (s t : Site Metadata) : Type 0 where
    pub groups : s.groups ≡ t.groups
    pub users : s.users ≡ t.users
    pub lower : s.lower ≡ t.lower
    pub moderated : contains s.moderations id ≡ contains t.moderations id

  pub slim_of-alike :
      (a : AnnotationRow) (s t : Site Metadata) → IsAlike a.id s t → slim_of a s ≡ slim_of a t
  unfolding slim_of
  slim_of-alike a s t h =
      ap (λ l. slim_with l s.groups s.users (contains s.moderations a.id) a) h.lower
      ∙ ap (λ gs. slim_with t.lower gs s.users (contains s.moderations a.id) a) h.groups
      ∙ ap (λ us. slim_with t.lower t.groups us (contains s.moderations a.id) a) h.users
      ∙ ap (λ m. slim_with t.lower t.groups t.users m a) h.moderated

  -- The upsert keeps the rows mirrored, where all that has changed are the annotation and its moderation.
  IsMirroredIn-upsert :
      (a b : AnnotationRow) (s t : Site Metadata)
      → a.id ≢ b.id
      → IsAlike b.id s t
      → s.slims ≡ t.slims
      → IsMirroredIn s b
      → IsMirroredIn (upsert_annotation_slim a t) b
  unfolding upsert_annotation_slim flush slim_of
  IsMirroredIn-upsert a b s t differ alike same h f p =
      fields_at-upsert_if_other b.id a (slim_of a t) t.slims differ
      ∙ ap (fields_at b.id) (sym same)
      ∙ h f (slim_of-alike b s t alike ∙ p)

  -- The upsert of an annotation keeps all rows mirrored, its own new or changed row included.
  pub upsert_annotation_slim-IsMirrored :
      (a : AnnotationRow) (s t : Site Metadata)
      → ((id : String) → a.id ≢ id → IsAlike id s t)
      → s.slims ≡ t.slims
      → All (λ b. IsMirroredIn s b ⊎ (b.id ≡ a.id)) t.annotations
      → IsMirrored (upsert_annotation_slim a t)
  unfolding upsert_annotation_slim flush slim_of
  upsert_annotation_slim-IsMirrored a s t alike same h =
      All-write_row (IsMirroredIn s) (IsMirroredIn (upsert_annotation_slim a t)) a
        (λ f q. fields_at-upsert_if a (slim_of a t) f t.slims q)
        (λ b differ. IsMirroredIn-upsert a b s t differ (alike b.id differ) same) t.annotations h
