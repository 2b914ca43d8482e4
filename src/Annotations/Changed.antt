-- ===== src/Annotations/Changed.antt =====
-- Each change keeps the slim rows as the annotations are.
use mathlib.Core.Bool.{true≢false}
use subtask.Base.{
  ℕ, String, Bool, true, false, not, ◌≡◌, ◌≢◌, ◌⊎◌, inl, inr, refl, sym, ap, ◌∙◌, Option, List, [],
  ◌∷◌, filter, contains, All, All-append, All-weaken, ◌==◌, string_eq, arith, Bool-cases,
}
use subtask.Sync.Queue.{Job}
use subtask.Annotations.Tables.{
  AnnotationRow, AnnotationSlim, Site, find_slim, flush, upsert_annotation_slim, set_metadata,
  queue_sync, slim_of,
}
use subtask.Annotations.Write.{hide, unhide, add, store_annotation}
use subtask.Annotations.Delete.{
  delete_annotation, deleted_row, delete_annotations, bulk_delete, expunged,
}
use subtask.Annotations.Mirrored.{
  IsAlike, IsMirroredIn, IsMirrored, fields_at, slim_of-alike, All-write_row,
  upsert_annotation_slim-IsMirrored,
}

contains-cons_other :
    (id other : String) (ids : List String)
    → id ≢ other
    → contains ids other ≡ contains (id ∷ ids) other
contains-cons_other id other ids h = ground arith

contains-filter_other :
    (id other : String) (ids : List String)
    → id ≢ other
    → contains ids other ≡ contains (filter (λ i. not (i == id)) ids) other
contains-filter_other id other [] h = refl
contains-filter_other id other (i ∷ ids) h = ground (arith, contains-filter_other id other ids h)

contains-ne :
    (ids : List String) (a b : String) → contains ids a ≡ true → contains ids b ≡ false → a ≢ b
contains-ne ids a b h k p = true≢false (sym h ∙ ap (contains ids) p ∙ k)

filter-All :
    {A : Type 0} (P Q : A → Type 0) (test : A → Bool) (rows : List A)
    → ((b : A) → test b ≡ true → P b → Q b)
    → All P rows
    → All Q (filter test rows)
filter-All P Q test [] f h = tt
filter-All P Q test (b ∷ rows) f (h, hs) = elim (Bool-cases (test b)) [
  | inl p ↦ rw p (f b p h, filter-All P Q test rows f hs)
  | inr p ↦ rw p (filter-All P Q test rows f hs)
]

fields_at-filter :
    (ids : List String) (id : String) (slims : List AnnotationSlim)
    → contains ids id ≡ false
    → fields_at id (filter (λ row. not (contains ids row.pubid)) slims) ≡ fields_at id slims
unfolding find_slim
fields_at-filter ids id [] h = refl
fields_at-filter ids id (row ∷ slims) h = elim (Bool-cases (contains ids row.pubid)) [
  | inl p ↦
      let differ = contains-ne ids row.pubid id p h in
      let rest = fields_at-filter ids id slims h in rw p (rest ∙ ground arith)
  | inr p ↦ let rest = fields_at-filter ids id slims h in rw p (ground arith)
]

contains-filter-not :
    (ids : List String) (id : String) (others : List String)
    → contains ids id ≡ false
    → contains others id ≡ contains (filter (λ i. not (contains ids i)) others) id
contains-filter-not ids id [] h = refl
contains-filter-not ids id (i ∷ others) h = elim (Bool-cases (contains ids i)) [
  | inl p ↦
      let differ = contains-ne ids i id p h in
      let rest = contains-filter-not ids id others h in rw p (ground arith)
  | inr p ↦ let rest = contains-filter-not ids id others h in rw p (ground arith)
]

module _ {Metadata : Type 0} where
  IsAlike-refl : (s : Site Metadata) (id : String) → IsAlike id s s
  IsAlike-refl s id = record { groups = refl; users = refl; lower = refl; moderated = refl }

  were :
      (a : AnnotationRow) (s : Site Metadata) (rows : List AnnotationRow)
      → All (IsMirroredIn s) rows
      → All (λ b. IsMirroredIn s b ⊎ (b.id ≡ a.id)) rows
  were a s rows =
      All-weaken (IsMirroredIn s) (λ b. IsMirroredIn s b ⊎ (b.id ≡ a.id)) rows (λ b h. inl h)

  pub changed-IsMirrored :
      (a : AnnotationRow) (s : Site Metadata)
      → IsMirrored s
      → IsMirrored (upsert_annotation_slim a s)
  changed-IsMirrored a s h =
      upsert_annotation_slim-IsMirrored a s s (λ id differ. IsAlike-refl s id) refl
        (were a s s.annotations h)

  pub hide-IsMirrored :
      (a : AnnotationRow) (s : Site Metadata) → IsMirrored s → IsMirrored (hide a s)
  unfolding hide
  hide-IsMirrored a s h = elim (Bool-cases (contains s.moderations a.id)) [
    | inl p ↦ rw p (changed-IsMirrored a s h)
    | inr p ↦ rw p (
        upsert_annotation_slim-IsMirrored a s (record s { moderations = a.id ∷ s.moderations })
          (λ id differ. record {
            groups = refl;
            users = refl;
            lower = refl;
            moderated = contains-cons_other a.id id s.moderations differ;
          })
          refl (were a s s.annotations h))
  ]

  pub unhide-IsMirrored :
      (a : AnnotationRow) (s : Site Metadata) → IsMirrored s → IsMirrored (unhide a s)
  unfolding unhide
  unhide-IsMirrored a s h =
      upsert_annotation_slim-IsMirrored a s
        (record s { moderations = filter (λ id. not (id == a.id)) s.moderations })
        (λ id differ. record {
          groups = refl;
          users = refl;
          lower = refl;
          moderated = contains-filter_other a.id id s.moderations differ;
        })
        refl (were a s s.annotations h)

  deleted-IsMirrored :
      (hex : String → String) (next_id : List Job → ℕ) (now : ℕ) (a : AnnotationRow)
      (s : Site Metadata)
      → IsMirrored s
      → IsMirrored (delete_annotation hex next_id now a s)
  unfolding delete_annotation flush queue_sync slim_of
  deleted-IsMirrored hex next_id now a s h =
      upsert_annotation_slim-IsMirrored (deleted_row now a) s
        (queue_sync hex next_id now (deleted_row now a) "AnnotationDeleteService.delete_annotation"
          false (flush (deleted_row now a) s))
        (λ id differ. record { groups = refl; users = refl; lower = refl; moderated = refl }) refl
        (All-write_row (IsMirroredIn s) (λ b. IsMirroredIn s b ⊎ (b.id ≡ a.id)) (deleted_row now a)
          (inr refl) (λ b differ p. inl p) s.annotations
          (were (deleted_row now a) s s.annotations h))

  pub delete_annotations-IsMirrored :
      (hex : String → String) (next_id : List Job → ℕ) (now : ℕ) (rows : List AnnotationRow)
      (s : Site Metadata)
      → IsMirrored s
      → IsMirrored (delete_annotations hex next_id now rows s)
  unfolding delete_annotations
  delete_annotations-IsMirrored hex next_id now [] s h = h
  delete_annotations-IsMirrored hex next_id now (a ∷ rows) s h =
      delete_annotations-IsMirrored hex next_id now rows (delete_annotation hex next_id now a s)
        (deleted-IsMirrored hex next_id now a s h)

  pub bulk_delete-IsMirrored :
      (limited : ℕ → List AnnotationRow → List AnnotationRow) (now : ℕ) (s : Site Metadata)
      → IsMirrored s
      → IsMirrored (bulk_delete limited now s)
  unfolding bulk_delete slim_of
  bulk_delete-IsMirrored limited now s h =
      let ids = expunged limited now s.annotations in
      filter-All (IsMirroredIn s) (IsMirroredIn (bulk_delete limited now s))
        (λ a. not (contains ids a.id)) s.annotations
        (λ a kept was f p.
          fields_at-filter ids a.id s.slims (ground arith)
          ∙ was f (
              slim_of-alike a s (bulk_delete limited now s) (record {
                groups = refl;
                users = refl;
                lower = refl;
                moderated = contains-filter-not ids a.id s.moderations (ground arith);
              })
              ∙ p))
        h

  pub store-IsMirrored :
      (hex : String → String) (next_id : List Job → ℕ) (now : ℕ) (a : AnnotationRow)
      (m : Option Metadata) (tag : String) (force : Bool) (s : Site Metadata)
      → IsMirrored (upsert_annotation_slim a s)
      → IsMirrored (store_annotation hex next_id now a m tag force s)
  unfolding store_annotation queue_sync set_metadata slim_of
  store-IsMirrored hex next_id now a m tag force s h = h

  pub added-IsMirrored :
      (a : AnnotationRow) (s : Site Metadata)
      → IsMirrored s
      → IsMirrored (upsert_annotation_slim a (add a s))
  added-IsMirrored a s h =
      upsert_annotation_slim-IsMirrored a s (add a s)
        (λ id differ. record { groups = refl; users = refl; lower = refl; moderated = refl }) refl
        (All-append (λ b. IsMirroredIn s b ⊎ (b.id ≡ a.id)) s.annotations (a ∷ [])
          (were a s s.annotations h) (inr refl, tt))
