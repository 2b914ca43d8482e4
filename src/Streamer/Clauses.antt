-- ===== src/Streamer/Clauses.antt =====
-- streamer/filter.py: how the clauses of a filter are read. Of the items FILTER_SCHEMA says nothing that a
-- validator reads, so a clause is any JSON value. A value of a clause that is itself an object is left out.
pub mod Read
use subtask.Base.{
  String, Bool, true, false, not, ◌&&◌, ◌||◌, Option, none, some, List, [], ◌∷◌, any, contains,
  ◌==◌, string_eq, Result, ok, err, ◌>>=◌, if◌then◌else◌,
}
use subtask.Streamer.Filter.{FilterClause, Value, one, many, known_fields}

pub data HandlerError : Type 0 where
  type_error attribute_error key_error : HandlerError

-- An item of a list: a text, a number, a truth value or null, and a list or an object, which no set takes.
pub data ValueItem : Type 0 where
  text_item : String → ValueItem
  plain_item nested_item : ValueItem

pub data RawValue : Type 0 where
  one_text : String → RawValue
  one_plain : RawValue
  list_of : List ValueItem → RawValue

pub data RawField : Type 0 where
  named_field : String → RawField
  plain_field nested_field : RawField

-- A clause that is an object has the keys that it has.
pub data RawClause : Type 0 where
  no_object : RawClause
  object : Option RawField → Option RawValue → RawClause

abbrev pub is_plain : ValueItem → Bool
is_plain (text_item s) = false
is_plain plain_item = true
is_plain nested_item = false

abbrev pub is_nested : ValueItem → Bool
is_nested (text_item s) = false
is_nested plain_item = false
is_nested nested_item = true

unfoldable pub texts_of : List ValueItem → List String
texts_of [] = []
texts_of (text_item s ∷ items) = s ∷ texts_of items
texts_of (plain_item ∷ items) = texts_of items
texts_of (nested_item ∷ items) = texts_of items

-- `set(values)` raises at what it cannot hold, and `normalize_uri` at what is no text. A row whose value is no
-- text is never matched, and none is kept of it.
abbrev pub value_of : String → RawValue → Result HandlerError Value
value_of field (one_text s) = ok (one s)
value_of field one_plain = if field == "/uri" then err attribute_error else ok (many [])
value_of field (list_of items) =
    if any is_nested items
    then err type_error
    else if field == "/uri" && any is_plain items
    then err attribute_error
    else ok (many (texts_of items))

abbrev pub known_clause : String → Option RawValue → Result HandlerError (Option FilterClause)
known_clause field none = err key_error
known_clause field (some value) =
    value_of field value >>= λ v. ok (some (record { field = field; value = v }))

-- A clause on an unknown field is passed over before its value is read.
unfoldable pub clause_of : RawClause → Result HandlerError (Option FilterClause)
unfolding texts_of
clause_of no_object = err type_error
clause_of (object none value) = err key_error
clause_of (object (some plain_field) value) = ok none
clause_of (object (some nested_field) value) = err type_error
clause_of (object (some (named_field field)) value) =
    if contains known_fields field then known_clause field value else ok none

abbrev pub with_clause : Option FilterClause → List FilterClause → List FilterClause
with_clause none cs = cs
with_clause (some c) cs = c ∷ cs

unfoldable pub read_clauses : List RawClause → Result HandlerError (List FilterClause)
unfolding clause_of
read_clauses [] = ok []
read_clauses (raw ∷ raws) = clause_of raw >>= λ c. read_clauses raws >>= λ cs. ok (with_clause c cs)
