-- ===== src/Streamer/Filter/Rows.antt =====
-- What a filter that was set lets through.
use mathlib.Core.Path.{ap₂}
use subtask.Base.{
  inl, inr, Bool-cases, String, ◌≡◌, refl, ap, ◌∙◌, Bool, true, false, ◌&&◌, ◌||◌, List, [], ◌∷◌,
  ◌++◌, map, any, filter, contains, ◌==◌, string_eq, arith, if◌then◌else◌,
}
use subtask.Models.{Annotation}
use subtask.Streamer.Filter.{
  DocumentUri, FilterClause, Socket, known_fields, distinct, normalize_value, values_of,
  rows_for_clause, rows_for, set_filter, row_matches, socket_matches,
}

any-append {ℓ} :
    {A : Type ℓ} (test : A → Bool) (xs ys : List A)
    → any test (xs ++ ys) ≡ (any test xs || any test ys)
any-append test [] ys = refl
any-append test (x ∷ xs) ys = ground (arith, any-append test xs ys)

any-map {ℓ κ} :
    {A : Type ℓ} {B : Type κ} (test : B → Bool) (f : A → B) (xs : List A)
    → any test (map f xs) ≡ any (λ x. test (f x)) xs
any-map test f [] = refl
any-map test f (x ∷ xs) = rw (any-map test f xs)

any-filter_ne :
    (test : String → Bool) (x : String) (xs : List String)
    → (test x || any test (filter (λ y. if x == y then false else true) xs))
      ≡ (test x || any test xs)
any-filter_ne test x [] = refl
any-filter_ne test x (y ∷ xs) = ground (arith, any-filter_ne test x xs)

any-distinct : (test : String → Bool) (xs : List String) → any test (distinct xs) ≡ any test xs
unfolding distinct
any-distinct test [] = refl
any-distinct test (x ∷ xs) =
    any-filter_ne test x (distinct xs) ∙ ap (λ b. test x || b) (any-distinct test xs)

module _ (normalize : String → String) (document_uris : List DocumentUri) (a : Annotation) where
  -- The clause names a known field, and that field of the annotation has one of its values.
  abbrev pub clause_matches : FilterClause → Bool
  clause_matches clause =
      contains known_fields clause.field
      && any
          (λ value.
            row_matches normalize document_uris a
              (clause.field, normalize_value normalize clause.field value))
          (values_of clause.value)

  rows_for_clause-matches :
      (clause : FilterClause)
      → any (row_matches normalize document_uris a) (rows_for_clause normalize clause)
        ≡ clause_matches clause
  unfolding rows_for_clause
  rows_for_clause-matches clause =
      let test = row_matches normalize document_uris a in
      let row : String → String × String =
        λ value. (clause.field, normalize_value normalize clause.field value) in
      elim (Bool-cases (contains known_fields clause.field)) [
        | inl known ↦ rw known (
            any-map test row (distinct (values_of clause.value))
            ∙ any-distinct (λ value. test (row value)) (values_of clause.value))
        | inr unknown ↦ rw unknown
      ]

  rows_for-matches :
      (clauses : List FilterClause)
      → any (row_matches normalize document_uris a) (rows_for normalize clauses)
        ≡ any clause_matches clauses
  unfolding rows_for
  rows_for-matches [] = refl
  rows_for-matches (clause ∷ clauses) =
      any-append (row_matches normalize document_uris a) (rows_for_clause normalize clause)
        (rows_for normalize clauses)
      ∙ ap₂ (λ b c. b || c) (rows_for_clause-matches clause) (rows_for-matches clauses)

  -- A socket whose filter was set matches an annotation exactly if some clause of the filter does.
  -- Repeated values, the order of the rows and clauses on other fields do not count.
  pub socket_matches-set_filter :
      (socket : Socket) (clauses : List FilterClause)
      → socket_matches normalize document_uris a (set_filter normalize socket clauses)
        ≡ any clause_matches clauses
  unfolding socket_matches set_filter
  socket_matches-set_filter socket clauses = rows_for-matches clauses
