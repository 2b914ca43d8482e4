-- ===== src/Annotations/Hidden.antt =====
-- Which annotations are hidden, and which bulk_delete expunges.
use mathlib.Core.Bool.{true≢false}
use subtask.Base.{
  ℕ, String, Bool, true, false, not, ◌&&◌, ◌||◌, ◌≡◌, ◌⊎◌, ◌≤◌, ◌<◌, ◌+◌, length, ◌++◌, sym,
  ==-refl, refl, ap, ◌∙◌, List, [], ◌∷◌, arith, All, map, filter, contains, Bool-cases, inl, inr,
  ◌==◌, string_eq, if◌then◌else◌,
}
use subtask.Annotations.Tables.{AnnotationRow, Site, flush, upsert_annotation_slim}
use subtask.Annotations.Write.{hide, unhide}
use subtask.Annotations.Delete.{is_expungeable, expunged, bulk_delete, all_hidden}
use subtask.Annotations.Queued.{is_there}

contains-filter :
    (test : String → Bool) (ids : List String) (id : String)
    → contains (filter test ids) id ≡ (contains ids id && test id)
contains-filter test [] id = refl
contains-filter test (i ∷ ids) id = elim (string_eq.dec i id) [
  | yes same ↦ let rest = contains-filter test ids id in let t = ap test same in ground arith
  | no differ ↦ let rest = contains-filter test ids id in ground arith
]

contains-add_once :
    (ids : List String) (new id : String)
    → contains (if contains ids new then ids else new ∷ ids) id ≡ (contains ids id || id == new)
contains-add_once ids new id = elim (string_eq.dec id new) [
  | yes same ↦
      let t = ap (contains ids) same in
      elim (Bool-cases (contains ids new)) [
        | inl p ↦ rw p (ground arith)
        | inr p ↦ rw p (ground arith)
      ]
  | no differ ↦ elim (Bool-cases (contains ids new)) [
    | inl p ↦ rw p (ground arith)
    | inr p ↦ rw p (ground arith)
  ]
]

module _ {Metadata : Type 0} where
  contains-all_hidden :
      (ids : List String) (s : Site Metadata) (id : String)
      → contains (all_hidden ids s) id ≡ (contains ids id && contains s.moderations id)
  unfolding all_hidden
  contains-all_hidden [] s id = refl
  contains-all_hidden (i ∷ ids) s id =
      contains-filter (contains (i ∷ ids)) s.moderations id ∙ ground arith

  moderations-hide :
      (a : AnnotationRow) (s : Site Metadata) (id : String)
      → contains (hide a s).moderations id ≡ (contains s.moderations id || id == a.id)
  unfolding hide upsert_annotation_slim flush
  moderations-hide a s id = elim (Bool-cases (contains s.moderations a.id)) [
    | inl p ↦ let once = contains-add_once s.moderations a.id id in rw p (ground arith)
    | inr p ↦ rw p (ground arith)
  ]

  -- After hide, the annotation is one of the hidden of any ids that have it, and after unhide it is
  -- none of them; what is said of other annotations is as before.
  pub all_hidden-hide :
      (a : AnnotationRow) (s : Site Metadata) (ids : List String) (id : String)
      → (contains (all_hidden ids (hide a s)) id
          ≡ (contains ids id && (contains s.moderations id || id == a.id)))
        × (contains (all_hidden ids (unhide a s)) id
            ≡ (contains ids id && (contains s.moderations id && not (id == a.id))))
  unfolding hide unhide upsert_annotation_slim flush
  all_hidden-hide a s ids id = (
    contains-all_hidden ids (hide a s) id
        ∙ ap (λ b. contains ids id && b) (moderations-hide a s id),
    contains-all_hidden ids (unhide a s) id
        ∙ ap (λ b. contains ids id && b) (contains-filter (λ i. not (i == a.id)) s.moderations id),
  )

-- Every row of the id is not deleted, or was changed in the ten minutes before.
abbrev IsLive : ℕ → String → List AnnotationRow → Type 0
IsLive now id rows = All (λ b. b.id ≡ id → (b.deleted ≡ false) ⊎ (now ≤ b.updated + 600)) rows

live-is_expungeable :
    (now : ℕ) (b : AnnotationRow)
    → (b.deleted ≡ false) ⊎ (now ≤ b.updated + 600)
    → is_expungeable now b ≡ false
live-is_expungeable now b (inl h) = ground arith
live-is_expungeable now b (inr h) = ground arith

live-filter :
    (now : ℕ) (id : String) (rows : List AnnotationRow)
    → IsLive now id rows
    → is_there id (filter (is_expungeable now) rows) ≡ false
unfolding is_there
live-filter now id [] h = refl
live-filter now id (b ∷ rows) (h, hs) = elim (Bool-cases (is_expungeable now b)) [
  | inl p ↦
      let rest = live-filter now id rows hs in
      elim (string_eq.dec b.id id) [
        | yes same ↦ absurd (true≢false (sym p ∙ live-is_expungeable now b (h same)))
        | no differ ↦ rw p (ground arith)
      ]
  | inr p ↦ rw p (live-filter now id rows hs)
]

contains-map_id :
    (id : String) (rows : List AnnotationRow)
    → contains (map (λ b. b.id) rows) id ≡ is_there id rows
unfolding is_there
contains-map_id id [] = refl
contains-map_id id (b ∷ rows) = ap (λ r. b.id == id || r) (contains-map_id id rows)

there-kept :
    (ids : List String) (id : String) (rows : List AnnotationRow)
    → contains ids id ≡ false
    → is_there id (filter (λ b. not (contains ids b.id)) rows) ≡ is_there id rows
unfolding is_there
there-kept ids id [] h = refl
there-kept ids id (b ∷ rows) h = elim (string_eq.dec b.id id) [
  | yes same ↦ let rest = there-kept ids id rows h in let t = ap (contains ids) same in ground arith
  | no differ ↦ let rest = there-kept ids id rows h in ground arith
]

-- bulk_delete removes no annotation that is not deleted, or that was changed in the last ten minutes (600
-- seconds), if what the limit leaves of some rows are some of them.
pub bulk_delete-kept :
    {Metadata : Type 0} (limited : ℕ → List AnnotationRow → List AnnotationRow) (now : ℕ)
    (s : Site Metadata) (id : String)
    → ((n : ℕ) (rows : List AnnotationRow)
        → is_there id rows ≡ false
        → is_there id (limited n rows) ≡ false)
    → IsLive now id s.annotations
    → is_there id (bulk_delete limited now s).annotations ≡ is_there id s.annotations
unfolding bulk_delete
bulk_delete-kept limited now s id some_of live =
    there-kept (expunged limited now s.annotations) id s.annotations (
      contains-map_id id (limited 1000 (filter (is_expungeable now) s.annotations))
      ∙ some_of 1000 (filter (is_expungeable now) s.annotations)
          (live-filter now id s.annotations live))

length-expungeable :
    (now : ℕ) (rows : List AnnotationRow)
    → length (filter (is_expungeable now) rows) ≤ length (filter (λ b. b.deleted) rows)
length-expungeable now [] = omega arith
length-expungeable now (b ∷ rows) = ground (arith, length-expungeable now rows)

there-expungeable :
    (now : ℕ) (a : AnnotationRow) (before after : List AnnotationRow)
    → a.deleted ≡ true
    → a.updated + 600 < now
    → is_there a.id (filter (is_expungeable now) (before ++ (a ∷ after))) ≡ true
unfolding is_there
there-expungeable now a [] after h k = ground (arith, ==-refl a.id)
there-expungeable now a (b ∷ before) after h k =
    ground (arith, there-expungeable now a before after h k)

there-gone :
    (ids : List String) (id : String) (rows : List AnnotationRow)
    → contains ids id ≡ true
    → is_there id (filter (λ b. not (contains ids b.id)) rows) ≡ false
unfolding is_there
there-gone ids id [] h = refl
there-gone ids id (b ∷ rows) h = elim (string_eq.dec b.id id) [
  | yes same ↦ let rest = there-gone ids id rows h in let t = ap (contains ids) same in ground arith
  | no differ ↦ let rest = there-gone ids id rows h in ground arith
]

-- bulk_delete removes an annotation that is deleted and was changed more than ten minutes (600 seconds) ago,
-- if the table has at most 1000 deleted annotations and the limit leaves rows that are no more than that.
pub bulk_delete-gone :
    {Metadata : Type 0} (limited : ℕ → List AnnotationRow → List AnnotationRow) (now : ℕ)
    (s : Site Metadata) (a : AnnotationRow) (before after : List AnnotationRow)
    → ((n : ℕ) (rows : List AnnotationRow) → length rows ≤ n → limited n rows ≡ rows)
    → length (filter (λ b. b.deleted) s.annotations) ≤ 1000
    → s.annotations ≡ before ++ (a ∷ after)
    → a.deleted ≡ true
    → a.updated + 600 < now
    → is_there a.id (bulk_delete limited now s).annotations ≡ false
unfolding bulk_delete
bulk_delete-gone limited now s a before after all_of few m h k =
    let short = length-expungeable now s.annotations in
    there-gone (expunged limited now s.annotations) a.id s.annotations (
      contains-map_id a.id (limited 1000 (filter (is_expungeable now) s.annotations))
      ∙ ap (is_there a.id)
          (all_of 1000 (filter (is_expungeable now) s.annotations) (omega (arith, few, short)))
      ∙ ap (λ rows. is_there a.id (filter (is_expungeable now) rows)) m
      ∙ there-expungeable now a before after h k)
