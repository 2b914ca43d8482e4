-- ===== src/Users/Service.antt =====
-- services/user.py. The cache is in the order in which its keys were set; `lower` is the function of the
-- database. The index on the normalised username and the authority is unique, and so is the email of an
-- authority: a look-up takes the first row that matches.
use Prim.Native.Char.{code}
use subtask.Base.{
  ℕ, String, Bool, true, false, not, ◌&&◌, Option, none, some, List, [], ◌∷◌, map, filter, any,
  Result, ok, err, ◌>>=◌, ◌==◌, string_eq, nat_eq, option_eq, if◌then◌else◌, all_chars, contains,
}
use subtask.Users.Userid.{UserIdError, split_user, is_no_at}

pub record UserRow : Type 0 where
  pub id : ℕ
  pub username : String
  pub authority : String
  pub email : Option String
  pub deleted : Bool
  pub activation_id : Option ℕ
  pub sidebar_tutorial_dismissed : Bool

abbrev pub Key : Type 0
Key = String × String

abbrev pub same_key : Key → Key → Bool
same_key (a, b) (c, d) = a == c && b == d

pub record UserService : Type 0 where
  pub default_authority : String
  pub users : List UserRow
  pub cache : List (Key × Option UserRow)

-- `replace(username, '.', '')`
unfoldable pub without_dots : String → String
without_dots String.[] = String.[]
without_dots (String.◌∷◌ c s) =
    let rest = without_dots s in if code c == 46 then rest else String.◌∷◌ c rest

unfoldable pub cached : Key → List (Key × Option UserRow) → Option (Option UserRow)
cached key [] = none
cached key ((k, v) ∷ rows) = let rest = cached key rows in if same_key k key then some v else rest

-- `self._cache[key] = value`: a key that is there keeps its place.
unfoldable pub set_cached :
    Key → Option UserRow → List (Key × Option UserRow) → List (Key × Option UserRow)
set_cached key value [] = (key, value) ∷ []
set_cached key value ((k, v) ∷ rows) =
    let rest = set_cached key value rows in
    if same_key k key then (k, value) ∷ rows else (k, v) ∷ rest

unfoldable pub first_row : (UserRow → Bool) → List UserRow → Option UserRow
first_row test [] = none
first_row test (u ∷ users) = let rest = first_row test users in if test u then some u else rest

abbrev pub key_of : UserRow → Key
key_of u = (u.username, u.authority)

abbrev pub cache_all : List UserRow → List (Key × Option UserRow) → List (Key × Option UserRow)
cache_all [] cache = cache
cache_all (u ∷ users) cache = cache_all users (set_cached (key_of u) (some u) cache)

abbrev pub is_none {ℓ} : {A : Type ℓ} → Option A → Bool
is_none none = true
is_none (some v) = false

abbrev pub is_missing : List (Key × Option UserRow) → Key → Bool
is_missing cache key = is_none (cached key cache)

abbrev pub is_asked : List Key → (Key × Option UserRow) → Bool
is_asked keys entry = any (same_key entry.0) keys

module _ (lower : String → String) where
  -- `_normalise_username`, and the comparison of usernames that is made with it
  unfoldable pub normalise_username : String → String
  unfolding without_dots
  normalise_username username = lower (without_dots username)

  abbrev pub is_named : Key → UserRow → Bool
  is_named (username, authority) u =
      normalise_username u.username == normalise_username username && u.authority == authority

  abbrev pub find_user : Key → List UserRow → Option UserRow
  find_user key users = first_row (is_named key) users

  abbrev pub fetch_with : Key → UserService → Option (Option UserRow) → Option UserRow × UserService
  fetch_with key svc (some found) = (found, svc)
  fetch_with key svc none =
      let found = find_user key svc.users in
      (found, record svc { cache = set_cached key found svc.cache })

  -- `fetch` of a username and an authority
  unfoldable pub fetch_by_name : Key → UserService → Option UserRow × UserService
  unfolding normalise_username cached set_cached first_row
  fetch_by_name key svc = fetch_with key svc (cached key svc.cache)

  -- `fetch` of a userid
  unfoldable pub fetch : String → UserService → Result UserIdError (Option UserRow × UserService)
  unfolding fetch_by_name split_user
  fetch userid svc = split_user userid >>= λ key. ok (fetch_by_name key svc)

  unfoldable pub split_all : List String → Result UserIdError (List Key)
  unfolding split_user
  split_all [] = ok []
  split_all (userid ∷ userids) =
      split_user userid >>= λ key. split_all userids >>= λ keys. ok (key ∷ keys)

  -- The values of the cache, after the users of the keys that it did not have.
  abbrev pub fetch_keys : List Key → UserService → List (Option UserRow) × UserService
  fetch_keys keys svc =
      let missing = filter (is_missing svc.cache) keys in
      let found = filter (λ u. any (λ key. is_named key u) missing) svc.users in
      let cache = cache_all found svc.cache in
      (map (λ entry. entry.1) (filter (is_asked keys) cache), record svc { cache = cache })

  unfoldable pub fetch_all :
      List String → UserService → Result UserIdError (List (Option UserRow) × UserService)
  unfolding split_all normalise_username cached set_cached
  fetch_all userids svc = split_all userids >>= λ keys. ok (fetch_keys keys svc)

pub data LoginError : Type 0 where
  user_not_activated : LoginError

abbrev pub lower_email : (String → String) → Option String → Option String
lower_email lower none = none
lower_email lower (some email) = some (lower email)

abbrev pub usable : Option UserRow → Result LoginError (Option UserRow)
usable none = ok none
usable (some u) =
    if u.deleted
    then ok none
    else if is_none u.activation_id
    then ok (some u)
    else err user_not_activated

module _ (lower : String → String) (python_lower : String → String) where
  -- An email is compared with the database's `lower` on the one side and Python's on the other.
  abbrev pub is_login : String → UserService → UserRow → Bool
  is_login name svc u =
      u.authority == svc.default_authority
      && (if all_chars is_no_at name
          then normalise_username lower u.username == normalise_username lower name
          else lower_email lower u.email == some (python_lower name))

  unfoldable pub fetch_for_login : String → UserService → Result LoginError (Option UserRow)
  unfolding first_row normalise_username is_no_at
  fetch_for_login name svc = usable (first_row (is_login name svc) svc.users)

pub data PreferenceError : Type 0 where
  invalid_keys : PreferenceError

abbrev pub update_prefs_allowed_keys : List String
update_prefs_allowed_keys = "show_sidebar_tutorial" ∷ []

abbrev pub set_prefs : List (String × Bool) → UserRow → UserRow
set_prefs [] u = u
set_prefs ((key, value) ∷ prefs) u =
    let v = set_prefs prefs u in
    if key == "show_sidebar_tutorial"
    then record v { sidebar_tutorial_dismissed = not value }
    else v

unfoldable pub update_preferences : List (String × Bool) → UserRow → Result PreferenceError UserRow
update_preferences prefs u =
    if any (λ entry. not (contains update_prefs_allowed_keys entry.0)) prefs
    then err invalid_keys
    else ok (set_prefs prefs u)
