-- ===== src/Services/Nipsa.antt =====
-- services/nipsa.py: the NIPSA flags of users, and the cache of the flagged userids. The job that
-- indexes a user's annotations again is what the service puts on the task queue.
pub mod Cached
use subtask.Base.{
  String, Bool, true, false, not, ◌&&◌, Option, none, some, List, [], ◌∷◌, ◌++◌, map, filter,
  contains, ◌==◌, string_eq, Result, ok, err, ◌>>=◌, if◌then◌else◌,
}
use subtask.Users.Userid.{UserIdError, split_user, format_userid}
use subtask.Users.Service.{normalise_username}

pub record UserRow : Type 0 where
  pub username : String
  pub authority : String
  pub nipsa : Bool

pub record Job : Type 0 where
  pub userid : String
  pub tag : String

-- `lower` is the function of the database.
pub record NipsaService : Type 0 where
  pub lower : String → String
  pub users : List UserRow
  pub flagged_userids : Option (List String)
  pub jobs : List Job

pub data NipsaError : Type 0 where
  multiple_results : NipsaError
  key_error : String → NipsaError

-- The rows that `User.nipsa.is_(True)` keeps.
abbrev pub flagged_in : List UserRow → List String
flagged_in users = map (λ u. format_userid u.username u.authority) (filter (λ u. u.nipsa) users)

unfoldable pub fetch_all_flagged_userids : NipsaService → List String × NipsaService
fetch_all_flagged_userids s = elim s.flagged_userids [
  | some userids ↦ (userids, s)
  | none ↦ (flagged_in s.users, record s { flagged_userids = some (flagged_in s.users) })
]

unfoldable pub one_or_none : List UserRow → Result NipsaError (Option UserRow)
one_or_none [] = ok none
one_or_none (u ∷ []) = ok (some u)
one_or_none (_ ∷ _ ∷ _) = err multiple_results

-- `user and user.nipsa`
unfoldable pub user_and_nipsa : Result NipsaError (Option UserRow) → Result NipsaError (Option Bool)
user_and_nipsa (ok none) = ok none
user_and_nipsa (ok (some u)) = ok (some u.nipsa)
user_and_nipsa (err e) = err e

-- `User.userid == userid`, which compares usernames without dots and in lower case, and is of no row for what
-- is no userid
abbrev pub is_named_by : (String → String) → Result UserIdError (String × String) → UserRow → Bool
is_named_by lower (err e) u = false
is_named_by lower (ok (username, authority)) u =
    normalise_username lower u.username == normalise_username lower username
    && u.authority == authority

unfoldable pub has_userid : (String → String) → String → UserRow → Bool
has_userid lower userid u = is_named_by lower (split_user userid) u

unfoldable pub is_flagged : String → NipsaService → Result NipsaError (Option Bool)
unfolding one_or_none user_and_nipsa has_userid
is_flagged userid s = elim s.flagged_userids [
  | some userids ↦ ok (some (contains userids userid))
  | none ↦ user_and_nipsa (one_or_none (filter (has_userid s.lower userid) s.users))
]

-- `user.nipsa = nipsa`, on the row whose userid this is
unfoldable pub set_nipsa : String → Bool → List UserRow → List UserRow
set_nipsa userid nipsa [] = []
set_nipsa userid nipsa (u ∷ users) =
    let rest = set_nipsa userid nipsa users in
    (if format_userid u.username u.authority == userid then record u { nipsa = nipsa } else u)
    ∷ rest

abbrev pub reindex_users_annotations : String → String → NipsaService → NipsaService
reindex_users_annotations userid tag s = record s {
  jobs = s.jobs ++ (record { userid = userid; tag = tag } ∷ []);
}

abbrev pub add_cached : String → Option (List String) → Option (List String)
add_cached userid none = none
add_cached userid (some userids) = some (userid ∷ userids)

-- A list stands for a set: what is removed is gone from it.
abbrev pub discard : String → List String → List String
discard userid = filter (λ id. not (id == userid))

-- `set.remove` raises for what is not in the set.
unfoldable pub remove_cached :
    String → Option (List String) → Result NipsaError (Option (List String))
remove_cached userid none = ok none
remove_cached userid (some userids) =
    if contains userids userid then ok (some (discard userid userids)) else err (key_error userid)

unfoldable pub flag : String → NipsaService → NipsaService
unfolding set_nipsa
flag userid s = reindex_users_annotations userid "NipsaService.flag" (record s {
  users = set_nipsa userid true s.users;
  flagged_userids = add_cached userid s.flagged_userids;
})

unfoldable pub unflag : String → NipsaService → Result NipsaError NipsaService
unfolding set_nipsa remove_cached
unflag userid s = do
  cache ← remove_cached userid s.flagged_userids
  ok (
      reindex_users_annotations userid "NipsaService.unflag"
        (record s { users = set_nipsa userid false s.users; flagged_userids = cache }))

unfoldable pub clear : NipsaService → NipsaService
clear s = record s { flagged_userids = none }
