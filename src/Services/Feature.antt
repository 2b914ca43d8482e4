-- ===== src/Services/Feature.antt =====
-- services/feature.py. The rows that the service loads are kept until the transaction ends.
use subtask.Base.{
  ℕ, String, ◌≡◌, ap, refl, Bool, true, false, ◌&&◌, inl, inr, Option, none, some, List, [], ◌∷◌,
  any, contains, get, Result, ok, err, ◌==◌, string_eq, nat_eq, if◌then◌else◌, arith, Bool-cases,
}

-- `cohorts` has the ids of the cohorts of the feature.
pub record Feature : Type 0 where
  pub name : String
  pub everyone : Bool
  pub first_party : Bool
  pub admins : Bool
  pub staff : Bool
  pub cohorts : List ℕ

-- The columns of a user that the service reads.
pub record FeatureUser : Type 0 where
  pub authority : String
  pub admin : Bool
  pub staff : Bool
  pub cohorts : List ℕ

pub record FeatureService : Type 0 where
  pub default_authority : Option String
  pub overrides : Option (List String)
  pub table : List Feature
  pub loaded : Option (List Feature)

pub data FeatureError : Type 0 where
  unknown_feature : String → FeatureError

abbrev pub is_overridden : Option (List String) → String → Bool
is_overridden none name = false
is_overridden (some names) name = contains names name

abbrev pub is_of_authority : Option String → FeatureUser → Bool
is_of_authority none user = false
is_of_authority (some authority) user = user.authority == authority

-- `_state` for a user: the tests after `user is not None`
abbrev pub user_state : FeatureService → Feature → Option FeatureUser → Bool
user_state svc f none = false
user_state svc f (some user) =
    if f.first_party && is_of_authority svc.default_authority user
    then true
    else if f.admins && user.admin
    then true
    else if f.staff && user.staff
    then true
    else any (contains user.cohorts) f.cohorts

unfoldable pub state : FeatureService → Feature → Option FeatureUser → Bool
state svc f user =
    if is_overridden svc.overrides f.name
    then true
    else if f.everyone
    then true
    else user_state svc f user

abbrev pub rows_of : FeatureService → List Feature
rows_of svc = elim svc.loaded [ none ↦ svc.table | some rows ↦ rows ]

-- A comprehension keeps the last row of a name, where a dictionary keeps the first entry.
abbrev pub states :
    FeatureService → Option FeatureUser → List Feature → List (String × Bool) → List (String × Bool)
states svc user [] found = found
states svc user (f ∷ rows) found = states svc user rows ((f.name, state svc f user) ∷ found)

unfoldable pub all : Option FeatureUser → FeatureService → List (String × Bool) × FeatureService
unfolding state
all user svc = (states svc user (rows_of svc) [], record svc { loaded = some (rows_of svc) })

abbrev pub known : String → Option Bool → Result FeatureError Bool
known name none = err (unknown_feature name)
known name (some enabled) = ok enabled

unfoldable pub enabled :
    String → Option FeatureUser → FeatureService → Result FeatureError Bool × FeatureService
unfolding all
enabled name user svc =
    let (features, next) = all user svc in (known name (get name features), next)

-- The last row of the name.
abbrev pub last_named : String → List Feature → Option Feature → Option Feature
last_named name [] found = found
last_named name (f ∷ rows) found = last_named name rows (if name == f.name then some f else found)

abbrev pub state_of : FeatureService → Option FeatureUser → Option Feature → Option Bool
state_of svc user none = none
state_of svc user (some f) = some (state svc f user)

get-states :
    (svc : FeatureService) (user : Option FeatureUser) (name : String) (rows : List Feature)
    (found : List (String × Bool)) (last : Option Feature)
    → get name found ≡ state_of svc user last
    → get name (states svc user rows found) ≡ state_of svc user (last_named name rows last)
get-states svc user name [] found last h = h
get-states svc user name (f ∷ rows) found last h = elim (Bool-cases (name == f.name)) [
  | inl p ↦ get-states svc user name rows _ _ (rw p refl)
  | inr p ↦ get-states svc user name rows _ _ (rw p h)
]

-- enabled answers for the last row of the name among those that were loaded first in the transaction, or else
-- among those of the table: whether it is overridden, or on for everyone or for the user; for a name
-- of no row it raises.
pub enabled-last_named :
    (name : String) (user : Option FeatureUser) (svc : FeatureService)
    → (enabled name user svc).0
      ≡ known name (state_of svc user (last_named name (rows_of svc) none))
unfolding enabled all
enabled-last_named name user svc =
    ap (known name) (get-states svc user name (rows_of svc) [] none refl)

-- A feature that is on for anonymous users is on for every user.
pub state-anonymous :
    (svc : FeatureService) (f : Feature) (user : Option FeatureUser)
    → state svc f none ≡ true
    → state svc f user ≡ true
unfolding state
state-anonymous svc f user h = ground arith
