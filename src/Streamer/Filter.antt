-- ===== src/Streamer/Filter.antt =====
-- streamer/filter.py, and `expand_uri` of storage.py. `normalize` is that of util/uri.py, which is
-- built on urllib: it is a parameter here, and so is what the table `document_uri` holds.
pub mod Rows
use subtask.Base.{
  ℕ, String, Bool, true, false, ◌&&◌, Option, none, some, List, [], ◌∷◌, ◌++◌, map, any, filter,
  contains, ◌==◌, string_eq, nat_eq, option_eq, if◌then◌else◌,
}
use subtask.Models.{Annotation}
use subtask.Security.Identity.{Identity}

pub record DocumentUri : Type 0 where
  pub document_id : ℕ
  pub type : Option String
  pub uri : String
  pub uri_normalized : String

-- The value of a clause is a text or a list of texts.
pub data Value : Type 0 where
  one : String → Value
  many : List String → Value

pub record FilterClause : Type 0 where
  pub field : String
  pub value : Value

-- What the handlers read of a WebSocket; `filter_rows` is `none` until the attribute is set.
pub record Socket : Type 0 where
  pub client_id : Option String
  pub identity : Option Identity
  pub filter_rows : Option (List (String × String))
  pub terminated : Bool

abbrev pub known_fields : List String
known_fields = "/id" ∷ "/group" ∷ "/uri" ∷ "/references" ∷ []

-- `set(xs)`, each element where it first stands; the order is never observed.
unfoldable pub distinct : List String → List String
distinct [] = []
distinct (x ∷ xs) = x ∷ filter (λ y. if x == y then false else true) (distinct xs)

-- `.limit(1)` of the rows with the normalized URI; a query with no order takes some row, and here
-- it is the first.
unfoldable pub first_document : String → List DocumentUri → Option ℕ
first_document uri [] = none
first_document uri (r ∷ rows) =
    if r.uri_normalized == uri then some r.document_id else first_document uri rows

abbrev is_canonical : String → DocumentUri → Bool
is_canonical uri r = r.type == some "rel-canonical" && r.uri == uri

abbrev pub values_of : Value → List String
values_of (one value) = value ∷ []
values_of (many values) = values

module _ (normalize : String → String) where
  unfoldable pub expand_uri : List DocumentUri → String → Bool → List String
  unfolding first_document
  expand_uri rows uri normalized =
      let alone = (if normalized then normalize uri else uri) ∷ [] in
      elim (first_document (normalize uri) rows) [
        | none ↦ alone
        | some document_id ↦
            let same = filter (λ (r : DocumentUri). r.document_id == document_id) rows in
            if any (is_canonical uri) same
            then alone
            else map (λ (r : DocumentUri). if normalized then r.uri_normalized else r.uri) same
      ]

  abbrev pub normalize_value : String → String → String
  normalize_value field value = if field == "/uri" then normalize value else value

  unfoldable pub rows_for_clause : FilterClause → List (String × String)
  unfolding distinct
  rows_for_clause clause =
      if contains known_fields clause.field
      then map (λ value. (clause.field, normalize_value clause.field value))
          (distinct (values_of clause.value))
      else []

  -- `_rows_for`
  unfoldable pub rows_for : List FilterClause → List (String × String)
  unfolding rows_for_clause
  rows_for [] = []
  rows_for (clause ∷ clauses) = rows_for_clause clause ++ rows_for clauses

  unfoldable pub set_filter : Socket → List FilterClause → Socket
  unfolding rows_for
  set_filter socket clauses = record socket { filter_rows = some (rows_for clauses) }

  module _ (rows : List DocumentUri) (a : Annotation) where
    -- `values[field]`, a KeyError on any other field.
    abbrev pub values : String → Option (List String)
    values field =
        if field == "/id"
        then some (a.id ∷ [])
        else if field == "/group"
        then some (a.groupid ∷ [])
        else if field == "/uri"
        then some (expand_uri rows a.target_uri true)
        else if field == "/references"
        then some a.references
        else none

    unfoldable pub row_matches : String × String → Bool
    row_matches (field, value) = elim (values field) [ none ↦ false | some vs ↦ contains vs value ]

    unfoldable pub socket_matches : Socket → Bool
    unfolding row_matches
    socket_matches socket = elim socket.filter_rows [
      | none ↦ false
      | some filter_rows ↦ any row_matches filter_rows
    ]

    -- `SocketFilter.matching`
    unfoldable pub matching : List Socket → List Socket
    unfolding socket_matches
    matching sockets = filter socket_matches sockets
