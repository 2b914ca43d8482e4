-- ===== src/Security/Predicates.antt =====
-- security/predicates.py: the predicates and what each requires.
pub mod Holds
use subtask.Base.{
  String, Bool, true, false, not, ◌&&◌, ◌||◌, Option, none, some, List, [], ◌∷◌, ◌==◌, string_eq,
  nat_eq, starts_with, Result, ok, err, ◌>>=◌, any_ok,
}
use subtask.Models.{JoinableBy, ReadableBy, WriteableBy}
use subtask.Security.Identity.{
  LongLivedGroup, LongLivedUser, LongLivedAuthClient, Identity, Context,
}

-- `recursion_error` is the interpreter's, when the fuel that stands for its limit runs out.
pub data Error : Type 0 where
  attribute_error recursion_error : Error

pub data Predicate : Type 0 where
  authenticated authenticated_user user_is_staff user_is_admin : Predicate
  authenticated_client authenticated_client_is_lms : Predicate
  user_found user_authority_matches_authenticated_client : Predicate
  annotation_found annotation_shared annotation_not_shared annotation_live : Predicate
  annotation_created_by_user group_found group_writable_by_members : Predicate
  group_writable_by_authority group_readable_by_world group_readable_by_members : Predicate
  group_joinable_by_authority group_created_by_user group_has_user_as_member : Predicate
  group_matches_user_authority group_matches_authenticated_client_authority : Predicate

-- The arguments of the `@requires` decorator; no decorator is the empty list.
unfoldable pub requires : Predicate → List Predicate
requires authenticated = []
requires authenticated_user = authenticated ∷ []
requires user_is_staff = authenticated_user ∷ []
requires user_is_admin = authenticated_user ∷ []
requires authenticated_client = authenticated ∷ []
requires authenticated_client_is_lms = authenticated_client ∷ []
requires user_found = []
requires user_authority_matches_authenticated_client = authenticated_client ∷ user_found ∷ []
requires annotation_found = []
requires annotation_shared = annotation_found ∷ []
requires annotation_not_shared = annotation_found ∷ []
requires annotation_live = annotation_found ∷ []
requires annotation_created_by_user = authenticated_user ∷ annotation_found ∷ []
requires group_found = []
requires group_writable_by_members = group_found ∷ []
requires group_writable_by_authority = group_found ∷ []
requires group_readable_by_world = group_found ∷ []
requires group_readable_by_members = group_found ∷ []
requires group_joinable_by_authority = group_found ∷ []
requires group_created_by_user = authenticated_user ∷ group_found ∷ []
requires group_has_user_as_member = authenticated_user ∷ group_found ∷ []
requires group_matches_user_authority = authenticated_user ∷ group_found ∷ []
requires group_matches_authenticated_client_authority = authenticated_client ∷ group_found ∷ []

-- The value whose attribute is read: an AttributeError, if it is None.
abbrev pub deref : {A : Type 0} → Option A → Result Error A
deref none = err attribute_error
deref (some a) = ok a

-- `bool(x)` of an object or None
abbrev pub found : {A : Type 0} → Option A → Bool
found none = false
found (some _) = true

abbrev user_of : Option Identity → Result Error (Option LongLivedUser)
user_of i = do identity ← deref i; ok identity.user

abbrev client_of : Option Identity → Result Error (Option LongLivedAuthClient)
client_of i = do identity ← deref i; ok identity.auth_client

abbrev pub ends_with : String → String → Bool
ends_with String.[] t = String.[] == t
ends_with (String.◌∷◌ c s) t = String.◌∷◌ c s == t || ends_with s t

abbrev pub is_lms : String → Bool
is_lms authority = starts_with authority "lms." && ends_with authority ".hypothes.is"

abbrev pub is_writeable_by : WriteableBy → Option WriteableBy → Bool
is_writeable_by WriteableBy.authority (some WriteableBy.authority) = true
is_writeable_by WriteableBy.members (some WriteableBy.members) = true
is_writeable_by _ _ = false

abbrev pub is_readable_by : ReadableBy → Option ReadableBy → Bool
is_readable_by ReadableBy.world (some ReadableBy.world) = true
is_readable_by ReadableBy.members (some ReadableBy.members) = true
is_readable_by _ _ = false

abbrev pub is_joinable_by : JoinableBy → Option JoinableBy → Bool
is_joinable_by JoinableBy.authority (some JoinableBy.authority) = true
is_joinable_by _ _ = false

-- The call `predicate(identity, context)`: whether its value is true, or the error that it raises.
unfoldable pub run : Predicate → Option Identity → Context → Result Error Bool
run authenticated i c = ok (found i)
run authenticated_user i c = do u ← user_of i; ok (found u)
run user_is_staff i c = do u ← user_of i; user ← deref u; ok user.staff
run user_is_admin i c = do u ← user_of i; user ← deref u; ok user.admin
run authenticated_client i c = do a ← client_of i; ok (found a)
run authenticated_client_is_lms i c = do
  a ← client_of i
  client ← deref a
  ok (is_lms client.authority)
run user_found i c = ok (found c.user)
run user_authority_matches_authenticated_client i c = do
  user ← deref c.user
  a ← client_of i
  client ← deref a
  ok (user.authority == client.authority)
run annotation_found i c = ok (found c.annotation)
run annotation_shared i c = do a ← deref c.annotation; ok a.shared
run annotation_not_shared i c = do a ← deref c.annotation; ok (not a.shared)
run annotation_live i c = do a ← deref c.annotation; ok (not a.deleted)
run annotation_created_by_user i c = do
  u ← user_of i
  user ← deref u
  a ← deref c.annotation
  ok (user.userid == a.userid)
run group_found i c = ok (found c.group)
run group_writable_by_members i c = do
  g ← deref c.group
  ok (is_writeable_by WriteableBy.members g.writeable_by)
run group_writable_by_authority i c = do
  g ← deref c.group
  ok (is_writeable_by WriteableBy.authority g.writeable_by)
run group_readable_by_world i c = do
  g ← deref c.group
  ok (is_readable_by ReadableBy.world g.readable_by)
run group_readable_by_members i c = do
  g ← deref c.group
  ok (is_readable_by ReadableBy.members g.readable_by)
run group_joinable_by_authority i c = do
  g ← deref c.group
  ok (is_joinable_by JoinableBy.authority g.joinable_by)
run group_created_by_user i c = do
  g ← deref c.group
  elim g.creator_id [
    | none ↦ ok false
    | some creator ↦ do u ← user_of i; user ← deref u; ok (creator == user.id)
  ]
run group_has_user_as_member i c = do
  u ← user_of i
  user ← deref u
  any_ok (λ (m : LongLivedGroup). do g ← deref c.group; ok (m.id == g.id)) user.groups
run group_matches_user_authority i c = do
  g ← deref c.group
  u ← user_of i
  user ← deref u
  ok (g.authority == user.authority)
run group_matches_authenticated_client_authority i c = do
  g ← deref c.group
  a ← client_of i
  client ← deref a
  ok (g.authority == client.authority)
