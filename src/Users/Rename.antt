-- ===== src/Users/Rename.antt =====
-- services/user_rename.py. The task that is sent is worked on after the transaction has ended: it is
-- `add_by_user` of the job queue.
use subtask.Base.{
  ℕ, String, Bool, true, false, not, Option, none, some, List, [], ◌∷◌, ◌++◌, filter, Result, ok,
  err, ◌>>=◌, ◌==◌, string_eq, nat_eq, if◌then◌else◌,
}
use subtask.Sync.Queue.{Job, Row, add_by_user}
use subtask.Users.Username.{ValueError, validate_username}
use subtask.Users.Userid.{format_userid}
use subtask.Users.Service.{UserRow, first_row, is_named}
use subtask.Users.Purge.{Owned}

pub data RenameError : Type 0 where
  username_taken invalid_username : RenameError

-- A task that is sent: the name of the jobs, the userid, the tag, and when they are due.
pub record Task : Type 0 where
  pub name : String
  pub userid : String
  pub tag : String
  pub schedule_in : ℕ

-- `annotations` are the rows of the annotations as the queue reads them.
pub record Names : Type 0 where
  pub users : List UserRow
  pub authtickets : List Owned
  pub annotations : List Row
  pub tasks : List Task

abbrev pub userid_of : UserRow → String
userid_of u = format_userid u.username u.authority

abbrev pub write_user : UserRow → List UserRow → List UserRow
write_user u [] = []
write_user u (row ∷ rows) = (if row.id == u.id then u else row) ∷ write_user u rows

abbrev pub change_annotations : String → String → List Row → List Row
change_annotations old_userid new_userid [] = []
change_annotations old_userid new_userid (a ∷ rows) =
    (if a.userid == old_userid then record a { userid = new_userid } else a)
    ∷ change_annotations old_userid new_userid rows

abbrev pub taken_by : UserRow → Option UserRow → Result RenameError Bool
taken_by u none = ok true
taken_by u (some existing) = if existing.id == u.id then ok true else err username_taken

abbrev pub renamed : UserRow → String → Names → Names
renamed u new_username s =
    let new = record u { username = new_username } in
    record {
      users = write_user new s.users;
      authtickets = filter (λ t. not (t.user_id == u.id)) s.authtickets;
      annotations = change_annotations (userid_of u) (userid_of new) s.annotations;
      tasks =
          s.tasks
          ++ (record {
            name = "sync_annotation";
            userid = userid_of u;
            tag = "RenameUserService.rename";
            schedule_in = 30;
          }
              ∷ []);
    }

-- An assignment to the username calls its validator.
abbrev pub assigned : Result ValueError String → Result RenameError String
assigned (ok name) = ok name
assigned (err e) = err invalid_username

module _ (lower : String → String) where
  unfoldable pub check : UserRow → String → Names → Result RenameError Bool
  unfolding first_row
  check u new_username s =
      taken_by u (first_row (is_named lower (new_username, u.authority)) s.users)

  unfoldable pub rename : UserRow → String → Names → Result RenameError Names
  unfolding check validate_username
  rename u new_username s = check u new_username s >>= λ _.
      assigned (validate_username new_username) >>= λ _. ok (renamed u new_username s)

-- What a worker does with a task: `add_by_user` on the annotations that it finds.
unfoldable pub run_task : (List Job → ℕ) → ℕ → List Row → Task → List Job → List Job
run_task next_id now annotations task jobs =
    add_by_user next_id now annotations task.name task.userid task.tag false (some task.schedule_in)
      jobs
