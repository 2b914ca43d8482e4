-- ===== src/Tests/Users.antt =====
-- Two users of one authority.
use subtask.Base.{
  ℕ, String, ◌+◌, ◌≡◌, ◌⊎◌, any, all_chars, ◌≢◌, refl, ap, ◌∙◌, true, false, Option, none, some,
  List, [], ◌∷◌, ◌++◌, length, ok, err, nat_eq, string_eq, option_eq, ◌==◌, ==-refl, if◌then◌else◌,
  arith,
}
use mathlib.Core.Bool.{false≢true}
use subtask.Models.{Group, authority, world}
use subtask.Sync.Queue.{Job}
use subtask.Annotations.Tables.{AnnotationRow, UserId}
use subtask.Groups.{is_newline}
use subtask.Users.Userid.{
  invalid_user_id, split_user, format_userid, is_no_at, split_user-format_userid,
}
use subtask.Users.Username.{validate_username}
use subtask.Users.Service.{
  UserRow, UserService, first_row, find_user, normalise_username, fetch, fetch_all, cached,
  fetch_for_login, split_all, set_cached, same_key, lower_email, is_none, update_preferences,
  invalid_keys,
}
use subtask.Users.Fetched.{IsCached, fetch-find_user, fetch_for_login-usable}
use subtask.Users.FetchedAll.{fetch_all-unknown, fetch_all-spelling}
use subtask.Users.Rename.{Task, Names, userid_of, rename, run_task, renamed}
use subtask.Users.Reindexed.{rename-run_task}
use subtask.Users.Worker.{selected, updated, deleted}
use subtask.Users.Purge.{Purge, done, limit_reached, purge_user, purge_deleted_users}
use subtask.Users.Progress.{purge_times, purge_times-done}
use subtask.Users.Purged.{IsPurged, purge_user-IsPurged}

abbrev juan : UserRow
juan = record {
  id = 3;
  username = "Juan";
  authority = "x";
  email = some "juan@x";
  deleted = false;
  activation_id = none;
  sidebar_tutorial_dismissed = false;
}

-- For the tests, `lower` knows one name.
abbrev lower : String → String
lower s = elim (string_eq.dec s "Juan") [ yes p ↦ "juan" | no n ↦ s ]

abbrev users : UserService
users = record { default_authority = "x"; users = juan ∷ []; cache = [] }

split_user-format_userid_example : split_user (format_userid "juan" "x") ≡ ok ("juan", "x")
unfolding is_no_at is_newline nat_eq string_eq
split_user-format_userid_example = split_user-format_userid "juan" "x" (refl, refl) refl

juan_key : split_user "acct:juan@x" ≡ ok ("juan", "x")
unfolding split_user string_eq nat_eq is_newline
juan_key = refl

nobody_key : split_user "acct:nobody@x" ≡ ok ("nobody", "x")
unfolding split_user string_eq nat_eq is_newline
nobody_key = refl

no_parts : split_user "juan" ≡ err invalid_user_id
unfolding split_user string_eq nat_eq is_newline
no_parts = refl

users-IsCached : IsCached lower users
unfolding cached
users-IsCached key found h = cc

fetch-find_user_example :
    (next : UserService) × (fetch lower "acct:juan@x" users
      ≡ ok (find_user lower ("juan", "x") users.users, next))
    × IsCached lower next
fetch-find_user_example =
    fetch-find_user lower "acct:juan@x" ("juan", "x") users juan_key users-IsCached

found_juan : find_user lower ("juan", "x") users.users ≡ some juan
unfolding first_row normalise_username string_eq nat_eq
found_juan = refl

found_nobody : find_user lower ("nobody", "x") users.users ≡ none
unfolding first_row normalise_username string_eq nat_eq
found_nobody = refl

fetched_nobody :
    fetch lower "acct:nobody@x" users
    ≡ ok (none, record users { cache = users.cache ++ ((("nobody", "x"), none) ∷ []) })
unfolding fetch first_row set_cached normalise_username string_eq nat_eq is_newline
fetched_nobody = refl

both_split :
    split_all lower ("acct:juan@x" ∷ "acct:nobody@x" ∷ [])
    ≡ ok (("juan", "x") ∷ ("nobody", "x") ∷ [])
unfolding split_all string_eq nat_eq is_newline
both_split = refl

nobody_asked : any (same_key ("nobody", "x")) (("juan", "x") ∷ ("nobody", "x") ∷ []) ≡ true
unfolding string_eq
nobody_asked = refl

fetch_all-unknown_example :
    let next : UserService = record users {
      cache = users.cache ++ ((("nobody", "x"), none) ∷ []);
    } in
    (answer : List (Option UserRow)) × (last : UserService) × (fetch_all lower
        ("acct:juan@x" ∷ "acct:nobody@x" ∷ [])
        next
      ≡ ok (answer, last))
    × (any is_none answer ≡ true)
fetch_all-unknown_example =
    fetch_all-unknown lower "acct:nobody@x" ("nobody", "x") users
      (record users { cache = users.cache ++ ((("nobody", "x"), none) ∷ []) })
      ("acct:juan@x" ∷ "acct:nobody@x" ∷ []) (("juan", "x") ∷ ("nobody", "x") ∷ []) nobody_key
      found_nobody fetched_nobody both_split nobody_asked

fetch_all-spelling_example :
    (next : UserService) × (fetch_all lower ("acct:juan@x" ∷ []) users ≡ ok ([], next))
unfolding string_eq
fetch_all-spelling_example =
    fetch_all-spelling lower "acct:juan@x" ("juan", "x") users juan_key refl refl

logged_in : fetch_for_login lower (λ s. s) "juan@x" users ≡ ok (some juan)
unfolding fetch_for_login string_eq option_eq nat_eq
logged_in = refl

fetch_for_login-usable_example :
    (juan.deleted ≡ false)
    × (juan.activation_id ≡ none)
    × (juan.authority ≡ users.default_authority)
    × ((normalise_username lower juan.username ≡ normalise_username lower "juan@x")
        ⊎ ((all_chars is_no_at "juan@x" ≡ false) × (lower_email lower juan.email ≡ some "juan@x")))
fetch_for_login-usable_example = fetch_for_login-usable lower (λ s. s) "juan@x" users juan logged_in

refused_key : update_preferences (("theme", true) ∷ []) juan ≡ err invalid_keys
unfolding update_preferences string_eq
refused_key = refl

-- The name has three letters and a newline.
line_name : validate_username "abc\n" ≡ ok "abc\n"
unfolding validate_username nat_eq is_newline
line_name = refl

abbrev names : Names
names = record {
  users = juan ∷ [];
  authtickets = record { id = 1; user_id = 3 } ∷ record { id = 2; user_id = 4 } ∷ [];
  annotations = record { id = "n1"; userid = "acct:Juan@x"; groupid = "g"; updated = 1 } ∷ [];
  tasks = [];
}

renamed-juan : rename lower juan "pedro" names ≡ ok (renamed juan "pedro" names)
unfolding rename string_eq nat_eq format_userid normalise_username
renamed-juan = refl

differ : format_userid "pedro" juan.authority ≢ userid_of juan
unfolding format_userid string_eq
differ p = false≢true (ap (λ s. s == userid_of juan) p ∙ ==-refl (userid_of juan))

abbrev next_id : List Job → ℕ
next_id jobs = length jobs + 1

rename-run_task_example :
    (task : Task) × ((renamed juan "pedro" names).tasks ≡ names.tasks ++ (task ∷ []))
    × (run_task next_id 50 (renamed juan "pedro" names).annotations task [] ≡ [])
rename-run_task_example =
    rename-run_task lower juan "pedro" names (renamed juan "pedro" names) next_id 50 [] differ
      renamed-juan

abbrev gone : UserId
gone = record { id = 3; username = "Juan"; authority = "x" }

abbrev own_group : Group
own_group = record {
  id = 7;
  pubid = "g";
  authority = "x";
  name = "Group";
  creator_id = some 3;
  enforce_scope = false;
  authority_provided_id = none;
  joinable_by = none;
  readable_by = some world;
  writeable_by = some authority;
  scopes = [];
}

abbrev note : AnnotationRow
note = record {
  id = "n1";
  userid = "acct:Juan@x";
  groupid = "g";
  target_uri = "https://x/1";
  text = "first";
  tags = [];
  extra = [];
  references = [];
  shared = true;
  deleted = false;
  created = 1;
  updated = 1;
  document_id = 5;
}

abbrev purge : ℕ → Purge String
purge limit = record {
  limit = limit;
  authtickets = record { id = 1; user_id = 3 } ∷ record { id = 2; user_id = 4 } ∷ [];
  tokens = record { id = 1; user_id = 3 } ∷ [];
  flags = [];
  cohorts = [];
  memberships =
      record { id = 1; group_id = 7; user_id = 3 }
      ∷ record { id = 2; group_id = 7; user_id = 4 }
      ∷ [];
  site = record {
    lower = λ s. s;
    annotations = note ∷ [];
    slims = [];
    moderations = [];
    metadata = [];
    groups = own_group ∷ [];
    users = gone ∷ [];
    jobs = [];
    deleted_events = [];
  };
}

-- With a limit of two, the auth ticket and the token are deleted and no more.
stopped :
    purge_user (λ id. id) next_id 50 gone (purge 2)
    ≡ limit_reached (record (purge 2) {
      limit = 0;
      authtickets = record { id = 2; user_id = 4 } ∷ [];
      tokens = [];
    })
unfolding purge_user selected deleted nat_eq string_eq
stopped = refl

purged : (q : Purge String) × (purge_user (λ id. id) next_id 50 gone (purge 9) ≡ done q)
unfolding purge_user selected updated deleted nat_eq string_eq option_eq format_userid
purged = (_, refl)

purge_user-IsPurged_example : IsPurged gone purged.0
unfolding nat_eq
purge_user-IsPurged_example =
    purge_user-IsPurged gone (λ id. id) next_id 50 (purge 9) purged.0 (omega arith) purged.1

-- A job whose userid nobody has is completed, and so is that of the user.
worked_off :
    (purge_deleted_users
      (λ userid. if userid == "acct:Juan@x" then some gone else none)
      (purge_user (λ id. id) next_id 50)
      (record { id = 1; userid = some "acct:a@x" }
        ∷ record { id = 2; userid = some "acct:Juan@x" }
        ∷ [])
      1000
      (purge 0)).1
    ≡ 1 ∷ 2 ∷ []
unfolding purge_deleted_users purge_user selected updated deleted nat_eq string_eq option_eq
    format_userid
worked_off = refl

-- Three rows at most by a purge: seven are left.
purge_times-done_example :
    (r : Purge String) × (purge_times gone (λ id. id) next_id (λ n. 50) 3 9 (purge 0) ≡ done r)
unfolding nat_eq string_eq option_eq format_userid
purge_times-done_example =
    purge_times-done gone (λ id. id) next_id (λ n. 50) 3 9 (purge 0) (omega arith) (omega arith)
