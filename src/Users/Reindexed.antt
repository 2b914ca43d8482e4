-- ===== src/Users/Reindexed.antt =====
-- The annotations of a renamed user, and the task that is to reindex them.
use mathlib.Core.Path.{subst}
use subtask.Base.{
  ℕ, String, ◌≡◌, ◌≢◌, sym, ap, refl, Bool, true, false, not, List, [], ◌∷◌, ◌++◌, filter, any, ok,
  bind-eq-ok, ok-injective, ◌==◌, string_eq, nat_eq, if◌then◌else◌, arith, Bool-cases, inl, inr,
  ◌+◌,
}
use subtask.Sync.Queue.{Job, Row, add_where, add_by_user, insert_from, single_user}
use subtask.Users.Userid.{format_userid}
use subtask.Users.Service.{UserRow}
use subtask.Users.Username.{validate_username}
use subtask.Users.Purge.{Owned}
use subtask.Users.Rename.{
  RenameError, Task, Names, userid_of, change_annotations, check, assigned, renamed, rename,
  run_task,
}

kept_old :
    (old_userid new_userid : String) (a : Row) (found : Bool)
    → (a.userid == old_userid) ≡ found
    → new_userid ≢ old_userid
    → ((if found then record a { userid = new_userid } else a).userid == old_userid) ≡ false
kept_old old_userid new_userid a true p h = ground arith
kept_old old_userid new_userid a false p h = p

filter_none :
    (old_userid new_userid : String) (rows : List Row)
    → new_userid ≢ old_userid
    → filter (λ row. row.userid == old_userid) (change_annotations old_userid new_userid rows) ≡ []
filter_none old_userid new_userid [] h = refl
filter_none old_userid new_userid (a ∷ rows) h =
    rw (kept_old old_userid new_userid a (a.userid == old_userid) refl h)
      (filter_none old_userid new_userid rows h)

no_ticket :
    (id : ℕ) (rows : List Owned)
    → any (λ t. t.user_id == id) (filter (λ t. not (t.user_id == id)) rows) ≡ false
no_ticket id [] = refl
no_ticket id (t ∷ rows) = elim (Bool-cases (t.user_id == id)) [
  | inl p ↦ rw p (no_ticket id rows)
  | inr p ↦ rw p (ground (arith, no_ticket id rows))
]

nothing_queued :
    (next_id : List Job → ℕ) (now : ℕ) (rows : List Row) (task : Task) (jobs : List Job)
    → filter (λ row. row.userid == task.userid) rows ≡ []
    → run_task next_id now rows task jobs ≡ jobs
unfolding run_task add_by_user add_where
nothing_queued next_id now rows task jobs h =
    ap
      (λ found.
        insert_from next_id now rows task.name (now + task.schedule_in) single_user task.tag false
          found jobs)
      h

rename-renamed :
    (lower : String → String) (u : UserRow) (name : String) (s t : Names)
    → rename lower u name s ≡ ok t
    → renamed u name s ≡ t
unfolding rename
rename-renamed lower u name s t h =
    let (free, p, rest) = bind-eq-ok (check lower u name s) _ h in
    let (new, q, done) = bind-eq-ok (assigned (validate_username name)) _ rest in
    ok-injective {E = RenameError} _ t done

-- What a renaming leaves: no annotation has the old userid, and no auth ticket is the user's.
pub record IsRenamed (u : UserRow) (t : Names) : Type 0 where
  pub annotations : filter (λ row. row.userid == userid_of u) t.annotations ≡ []
  pub authtickets : any (λ ticket. ticket.user_id == u.id) t.authtickets ≡ false

module _ (lower : String → String) (u : UserRow) (name : String) (s t : Names) where
  -- If a renaming to another userid returns, no annotation has the old userid and the user has no auth ticket.
  pub rename-IsRenamed :
      format_userid name u.authority ≢ userid_of u → rename lower u name s ≡ ok t → IsRenamed u t
  unfolding format_userid
  rename-IsRenamed differ h = subst (IsRenamed u) (rename-renamed lower u name s t h) (record {
    annotations = filter_none (userid_of u) (format_userid name u.authority) s.annotations differ;
    authtickets = no_ticket u.id s.authtickets;
  })

  -- The task that a renaming to another userid sends is for the old userid: worked on after the renaming, it
  -- puts no job on the queue.
  pub rename-run_task :
      (next_id : List Job → ℕ) (now : ℕ) (jobs : List Job)
      → format_userid name u.authority ≢ userid_of u
      → rename lower u name s ≡ ok t
      → (task : Task) × (t.tasks ≡ s.tasks ++ (task ∷ []))
        × (run_task next_id now t.annotations task jobs ≡ jobs)
  rename-run_task next_id now jobs differ h =
      let same = rename-renamed lower u name s t h in
      let none_left = (rename-IsRenamed differ h).annotations in
      let task : Task = record {
        name = "sync_annotation";
        userid = userid_of u;
        tag = "RenameUserService.rename";
        schedule_in = 30;
      } in
      (
        task,
        ap (λ r. r.tasks) (sym same),
        nothing_queued next_id now t.annotations task jobs none_left,
      )
