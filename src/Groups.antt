-- ===== src/Groups.antt =====
-- models/group.py and util/group.py: the type of a group, its groupid, and the validators.
pub mod Flags
pub mod Groupid
use Prim.Native.Char.{Char, code}
use subtask.Base.{
  ℕ, String, Bool, true, false, not, ◌&&◌, ◌||◌, Option, none, some, List, [], ◌∷◌, leb, ◌==◌,
  nat_eq, string_eq, Eq, Result, ok, err, ◌>>=◌, text_length, ◌<>◌, if◌then◌else◌,
}
use subtask.Models.{Group, JoinableBy, ReadableBy, WriteableBy}

pub record TypeFlags : Type 0 where
  pub joinable_by : Option JoinableBy
  pub readable_by : Option ReadableBy
  pub writeable_by : Option WriteableBy

pub data ValueError : Type 0 where
  value_error : ValueError

unfoldable pub TypeFlags-discrete : Discrete TypeFlags
TypeFlags-discrete = hlevel

instance unfoldable pub type_flags_eq : Eq TypeFlags
unfolding TypeFlags-discrete
type_flags_eq = record { dec = TypeFlags-discrete }

abbrev pub group_type_flags : List (String × TypeFlags)
group_type_flags =
    (
      "open",
      record {
        joinable_by = none;
        readable_by = some ReadableBy.world;
        writeable_by = some WriteableBy.authority;
      },
    )
    ∷ (
      "private",
      record {
        joinable_by = some JoinableBy.authority;
        readable_by = some ReadableBy.members;
        writeable_by = some WriteableBy.members;
      },
    )
    ∷ (
      "restricted",
      record {
        joinable_by = none;
        readable_by = some ReadableBy.world;
        writeable_by = some WriteableBy.members;
      },
    )
    ∷ []

abbrev pub flags_of : Group → TypeFlags
flags_of g = record {
  joinable_by = g.joinable_by;
  readable_by = g.readable_by;
  writeable_by = g.writeable_by;
}

-- The loop of the `type` property, and `GROUP_TYPE_FLAGS[value]` of its setter.
unfoldable pub type_named : TypeFlags → List (String × TypeFlags) → Result ValueError String
type_named flags [] = err value_error
type_named flags ((name, named) ∷ rest) = if flags == named then ok name else type_named flags rest

unfoldable pub flags_named : String → List (String × TypeFlags) → Result ValueError TypeFlags
flags_named value [] = err value_error
flags_named value ((name, named) ∷ rest) =
    if value == name then ok named else flags_named value rest

unfoldable pub get_type : Group → Result ValueError String
unfolding type_named type_flags_eq
get_type g = type_named (flags_of g) group_type_flags

unfoldable pub set_type : String → Group → Result ValueError Group
unfolding flags_named
set_type value g = do
  flags ← flags_named value group_type_flags
  ok (record g {
    joinable_by = flags.joinable_by;
    readable_by = flags.readable_by;
    writeable_by = flags.writeable_by;
  })

unfoldable pub is_public : Group → Bool
is_public g = elim g.readable_by [ some ReadableBy.world ↦ true | _ ↦ false ]

abbrev pub group_name_min_length : ℕ
group_name_min_length = 3

abbrev pub group_name_max_length : ℕ
group_name_max_length = 25

abbrev pub authority_provided_id_max_length : ℕ
authority_provided_id_max_length = 1024

unfoldable pub validate_name : String → Result ValueError String
validate_name name =
    if leb group_name_min_length (text_length name) && leb (text_length name) group_name_max_length
    then ok name
    else err value_error

-- The class `[a-zA-Z0-9._\-+!~*()']` of both patterns.
unfoldable pub is_id_char : Char → Bool
is_id_char c =
    let k = code c in
    leb b'a' k && leb k b'z'
    || leb b'A' k && leb k b'Z'
    || leb b'0' k && leb k b'9'
    || k == b'.'
    || k == b'_'
    || k == b'-'
    || k == b'+'
    || k == b'!'
    || k == b'~'
    || leb 39 k && leb k 42

unfoldable pub is_newline : Char → Bool
is_newline c = code c == 10

-- What is left where `$` is asked for: nothing, or one newline.
unfoldable pub at_end : String → Bool
at_end String.[] = true
at_end (String.◌∷◌ c String.[]) = is_newline c
at_end (String.◌∷◌ _ _) = false

-- `[…]+` is greedy, and what follows it in either pattern is no character of the class.
unfoldable pub span_id : String → String × String
span_id String.[] = (String.[], String.[])
span_id (String.◌∷◌ c s) =
    let (id, rest) = span_id s in
    if is_id_char c then (String.◌∷◌ c id, rest) else (String.[], String.◌∷◌ c s)

-- `re.match(AUTHORITY_PROVIDED_ID_PATTERN, s)`
unfoldable pub matches_id_pattern : String → Bool
unfolding span_id at_end
matches_id_pattern s = let (id, rest) = span_id s in not (id == "") && at_end rest

unfoldable pub validate_authority_provided_id : Option String → Result ValueError (Option String)
unfolding matches_id_pattern
validate_authority_provided_id none = ok none
validate_authority_provided_id (some id) =
    if id == ""
    then ok none
    else if not (matches_id_pattern id)
    then err value_error
    else if leb (text_length id) authority_provided_id_max_length
    then ok (some id)
    else err value_error

-- The text after a prefix that the pattern spells out.
unfoldable pub strip_prefix : String → String → Option String
strip_prefix String.[] s = some s
strip_prefix (String.◌∷◌ _ _) String.[] = none
strip_prefix (String.◌∷◌ c p) (String.◌∷◌ d s) = if code c == code d then strip_prefix p s else none

-- `(.*)$`: a dot is no newline.
unfoldable pub dot_all : String → Option String
dot_all String.[] = some String.[]
dot_all (String.◌∷◌ c s) = elim (is_newline c) [
  | true ↦ if s == "" then some String.[] else none
  | false ↦ elim (dot_all s) [ none ↦ none | some t ↦ some (String.◌∷◌ c t) ]
]

-- The groups of GROUPID_PATTERN, after the prefix.
unfoldable pub match_parts : String × String → Option (String × String)
unfolding strip_prefix dot_all
match_parts (id, rest) =
    if id == "" || not (leb (text_length id) 1024) then none else elim (strip_prefix "@" rest) [
      | none ↦ none
      | some tail ↦ elim (dot_all tail) [ none ↦ none | some authority ↦ some (id, authority) ]
    ]

unfoldable pub match_groupid : String → Option (String × String)
unfolding match_parts span_id
match_groupid groupid = elim (strip_prefix "group:" groupid) [
  | none ↦ none
  | some s ↦ match_parts (span_id s)
]

unfoldable pub split_groupid : String → Result ValueError (String × String)
unfolding match_groupid
split_groupid groupid = elim (match_groupid groupid) [
  | none ↦ err value_error
  | some parts ↦ ok parts
]

unfoldable pub is_groupid : String → Bool
unfolding match_groupid
is_groupid groupid = elim (match_groupid groupid) [ none ↦ false | some _ ↦ true ]

unfoldable pub get_groupid : Group → Option String
get_groupid g = elim g.authority_provided_id [
  | none ↦ none
  | some id ↦ some ("group:" <> id <> "@" <> g.authority)
]

-- Each assignment to `authority_provided_id` calls its validator.
unfoldable pub set_groupid : Option String → Group → Result ValueError Group
unfolding split_groupid validate_authority_provided_id
set_groupid none g = do
  id ← validate_authority_provided_id none
  ok (record g { authority_provided_id = id })
set_groupid (some value) g = do
  (id, authority) ← split_groupid value
  valid ← validate_authority_provided_id (some id)
  ok (record g { authority_provided_id = valid; authority = authority })
