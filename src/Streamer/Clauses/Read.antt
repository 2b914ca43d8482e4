-- ===== src/Streamer/Clauses/Read.antt =====
-- Which clauses of a filter can be read, and what they match.
use mathlib.Core.Bool.{false≢true}
use subtask.Base.{
  String, Bool, true, false, not, ◌&&◌, ◌||◌, ◌≡◌, refl, sym, ap, ◌∙◌, Option, none, some, List, [],
  ◌∷◌, any, contains, ◌==◌, string_eq, Result, ok, err, ◌>>=◌, if◌then◌else◌, arith, Bool-cases,
  inl, inr,
}
use subtask.Models.{Annotation}
use subtask.Streamer.Filter.{
  FilterClause, Value, one, many, known_fields, DocumentUri, row_matches, normalize_value,
}
use subtask.Streamer.Filter.Rows.{clause_matches}
use subtask.Streamer.Clauses.{
  HandlerError, type_error, attribute_error, key_error, RawValue, one_text, one_plain, list_of,
  named_field, plain_field, nested_field, RawClause, no_object, object, is_plain, is_nested,
  texts_of, value_of, known_clause, clause_of, with_clause, read_clauses,
}

-- A list has nothing nested, and the values of `/uri` are texts.
abbrev is_readable_value : String → RawValue → Bool
is_readable_value field (one_text s) = true
is_readable_value field one_plain = not (field == "/uri")
is_readable_value field (list_of items) =
    not (any is_nested items) && not (field == "/uri" && any is_plain items)

abbrev has_readable : String → Option RawValue → Bool
has_readable field none = false
has_readable field (some value) = is_readable_value field value

-- A clause is an object with a field, and if the field is known, with values for it.
unfoldable pub is_readable : RawClause → Bool
is_readable no_object = false
is_readable (object none value) = false
is_readable (object (some nested_field) value) = false
is_readable (object (some plain_field) value) = true
is_readable (object (some (named_field field)) value) =
    not (contains known_fields field) || has_readable field value

abbrev texts : Option RawValue → List String
texts none = []
texts (some (one_text s)) = s ∷ []
texts (some one_plain) = []
texts (some (list_of items)) = texts_of items

value_of-readable :
    (field : String) (value : RawValue)
    → is_readable_value field value ≡ true
    → (v : Value) × (value_of field value ≡ ok v)
value_of-readable field (one_text s) h = (one s, refl)
value_of-readable field one_plain h = (many [], ground arith)
value_of-readable field (list_of items) h = (many (texts_of items), ground arith)

value_of-unreadable :
    (field : String) (value : RawValue)
    → is_readable_value field value ≡ false
    → (e : HandlerError) × (value_of field value ≡ err e)
value_of-unreadable field (one_text s) h = absurd (false≢true (sym h))
value_of-unreadable field one_plain h = (attribute_error, ground arith)
value_of-unreadable field (list_of items) h = elim (Bool-cases (any is_nested items)) [
  | inl p ↦ (type_error, ground arith)
  | inr p ↦ (attribute_error, ground arith)
]

known_clause-unreadable :
    (field : String) (value : Option RawValue)
    → has_readable field value ≡ false
    → (e : HandlerError) × (known_clause field value ≡ err e)
known_clause-unreadable field none h = (key_error, refl)
known_clause-unreadable field (some value) h =
    let (e, p) = value_of-unreadable field value h in
    (e, ap (λ r. r >>= λ v. ok (some (record { field = field; value = v }))) p)

clause_of-unreadable :
    (raw : RawClause) → is_readable raw ≡ false → (e : HandlerError) × (clause_of raw ≡ err e)
unfolding is_readable clause_of
clause_of-unreadable no_object h = (type_error, refl)
clause_of-unreadable (object none value) h = (key_error, refl)
clause_of-unreadable (object (some nested_field) value) h = (type_error, refl)
clause_of-unreadable (object (some plain_field) value) h = absurd (false≢true (sym h))
clause_of-unreadable (object (some (named_field field)) value) h =
    elim (Bool-cases (contains known_fields field)) [
      | inl p ↦
          let (e, q) = known_clause-unreadable field value (ground arith) in
          (e, ap (λ b. if b then known_clause field value else ok none) p ∙ q)
      | inr p ↦ absurd (false≢true (sym h ∙ ground arith))
    ]

abbrev Fails : Result HandlerError (List FilterClause) → Type 0
Fails r = (e : HandlerError) × (r ≡ err e)

bind-Fails :
    (c : Option FilterClause) (r : Result HandlerError (List FilterClause))
    → Fails r
    → Fails (r >>= λ cs. ok (with_clause c cs))
bind-Fails c r (e, p) = (e, ap (λ r. r >>= λ cs. ok (with_clause c cs)) p)

first-Fails :
    (r : Result HandlerError (Option FilterClause)) (rest : Result HandlerError (List FilterClause))
    → Fails rest
    → Fails (r >>= λ c. rest >>= λ cs. ok (with_clause c cs))
first-Fails (ok c) rest h = bind-Fails c rest h
first-Fails (err e) rest h = (e, refl)

pub read_clauses-is_readable :
    (raws : List RawClause)
    → any (λ raw. not (is_readable raw)) raws ≡ true
    → Fails (read_clauses raws)
unfolding read_clauses
read_clauses-is_readable [] h = absurd (false≢true h)
read_clauses-is_readable (raw ∷ raws) h = elim (Bool-cases (is_readable raw)) [
  | inl p ↦
      first-Fails (clause_of raw) (read_clauses raws) (read_clauses-is_readable raws (ground arith))
  | inr p ↦
      let (e, q) = clause_of-unreadable raw p in
      (e, ap (λ r. r >>= λ c. read_clauses raws >>= λ cs. ok (with_clause c cs)) q)
]

module _ (normalize : String → String) (document_uris : List DocumentUri) (a : Annotation) where
  -- The clause names a known field, and that field of the annotation has one of its texts.
  unfoldable pub raw_matches : RawClause → Bool
  raw_matches no_object = false
  raw_matches (object none value) = false
  raw_matches (object (some nested_field) value) = false
  raw_matches (object (some plain_field) value) = false
  raw_matches (object (some (named_field field)) value) =
      contains known_fields field
      && any (λ s. row_matches normalize document_uris a (field, normalize_value normalize field s))
          (texts value)

  option_matches : Option FilterClause → Bool
  option_matches none = false
  option_matches (some c) = clause_matches normalize document_uris a c

  known_clause-readable :
      (field : String) (value : Option RawValue)
      → has_readable field value ≡ true
      → (c : Option FilterClause) × (known_clause field value ≡ ok c)
        × (option_matches c ≡ raw_matches (object (some (named_field field)) value))
  unfolding raw_matches option_matches
  known_clause-readable field none h = absurd (false≢true h)
  known_clause-readable field (some (one_text s)) h =
      (some (record { field = field; value = one s }), refl, refl)
  known_clause-readable field (some one_plain) h =
      let p : value_of field one_plain ≡ ok (many []) = ground arith in
      (
        some (record { field = field; value = many [] }),
        ap (λ r. r >>= λ v. ok (some (record { field = field; value = v }))) p,
        refl,
      )
  known_clause-readable field (some (list_of items)) h =
      let p : value_of field (list_of items) ≡ ok (many (texts_of items)) = ground arith in
      (
        some (record { field = field; value = many (texts_of items) }),
        ap (λ r. r >>= λ v. ok (some (record { field = field; value = v }))) p,
        refl,
      )

  clause_of-readable :
      (raw : RawClause)
      → is_readable raw ≡ true
      → (c : Option FilterClause) × (clause_of raw ≡ ok c) × (option_matches c ≡ raw_matches raw)
  unfolding is_readable clause_of raw_matches option_matches
  clause_of-readable no_object h = absurd (false≢true h)
  clause_of-readable (object none value) h = absurd (false≢true h)
  clause_of-readable (object (some nested_field) value) h = absurd (false≢true h)
  clause_of-readable (object (some plain_field) value) h = (none, refl, refl)
  clause_of-readable (object (some (named_field field)) value) h =
      elim (Bool-cases (contains known_fields field)) [
        | inl p ↦
            let (c, q, r) = known_clause-readable field value (ground arith) in
            (c, ap (λ b. if b then known_clause field value else ok none) p ∙ q, r)
        | inr p ↦ (
          none,
          ap (λ b. if b then known_clause field value else ok none) p,
          ap
              (λ b.
                b
                && any
                    (λ s.
                      row_matches normalize document_uris a
                        (field, normalize_value normalize field s))
                    (texts value))
              (sym p),
        )
      ]

  any-with_clause :
      (c : Option FilterClause) (cs : List FilterClause)
      → any (clause_matches normalize document_uris a) (with_clause c cs)
        ≡ (option_matches c || any (clause_matches normalize document_uris a) cs)
  unfolding option_matches
  any-with_clause none cs = refl
  any-with_clause (some c) cs = refl

  pub read_clauses-raw_matches :
      (raws : List RawClause)
      → any (λ raw. not (is_readable raw)) raws ≡ false
      → (cs : List FilterClause) × (read_clauses raws ≡ ok cs)
        × (any (clause_matches normalize document_uris a) cs ≡ any raw_matches raws)
  unfolding read_clauses
  read_clauses-raw_matches [] h = ([], refl, refl)
  read_clauses-raw_matches (raw ∷ raws) h =
      let (c, p, same) = clause_of-readable raw (ground arith) in
      let (cs, q, rest) = read_clauses-raw_matches raws (ground arith) in
      (
        with_clause c cs,
        ap (λ r. r >>= λ c. read_clauses raws >>= λ cs. ok (with_clause c cs)) p
            ∙ ap (λ r. r >>= λ cs. ok (with_clause c cs)) q,
        any-with_clause c cs
            ∙ ap (λ b. b || any (clause_matches normalize document_uris a) cs) same
            ∙ ap (λ b. raw_matches raw || b) rest,
      )
