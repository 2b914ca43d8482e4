-- ===== src/Users/Purge.antt =====
-- services/user_delete.py: UserPurger, and purge_deleted_users of UserDeleteService. What a statement that
-- raised LimitReached found is what is left: the exception is caught, and nothing is rolled back.
use subtask.Base.{
  ℕ, ◌-◌, String, Bool, true, false, not, ◌&&◌, Option, none, some, List, [], ◌∷◌, ◌++◌, map,
  filter, any, contains, length, ltb, ◌==◌, nat_eq, string_eq, option_eq, if◌then◌else◌,
}
use subtask.Models.{Group}
use subtask.Sync.Queue.{Job, add_by_id}
use subtask.Users.Userid.{format_userid}
use subtask.Annotations.Tables.{AnnotationRow, AnnotationSlim, UserId, Site, queue_row}
use subtask.Users.Worker.{selected, updated, deleted}

-- A row of auth tickets, tokens, flags or feature cohorts.
pub record Owned : Type 0 where
  pub id : ℕ
  pub user_id : ℕ

pub record Membership : Type 0 where
  pub id : ℕ
  pub group_id : ℕ
  pub user_id : ℕ

-- The tables, and the limit of the worker.
pub record Purge (Metadata : Type 0) : Type 0 where
  pub limit : ℕ
  pub authtickets : List Owned
  pub tokens : List Owned
  pub flags : List Owned
  pub cohorts : List Owned
  pub memberships : List Membership
  pub site : Site Metadata

pub data Outcome (S : Type 0) : Type 0 where
  done : S → Outcome S
  limit_reached : S → Outcome S

infixl 5 ◌then◌
abbrev pub ◌then◌ : {S : Type 0} → Outcome S → (S → Outcome S) → Outcome S
done s then f = f s
limit_reached s then f = limit_reached s

abbrev pub is_owned : UserId → Owned → Bool
is_owned user row = row.user_id == user.id

abbrev pub is_live_of : UserId → AnnotationRow → Bool
is_live_of user a = a.userid == format_userid user.username user.authority && not a.deleted

abbrev pub is_created_by : UserId → Group → Bool
is_created_by user g = g.creator_id == some user.id

abbrev pub is_empty_of : UserId → List AnnotationRow → Group → Bool
is_empty_of user rows g =
    is_created_by user g && not (any (λ a. a.groupid == g.pubid && not a.deleted) rows)

abbrev pub is_member : UserId → List Group → Membership → Bool
is_member user groups m = m.user_id == user.id && any (λ g. g.id == m.group_id) groups

abbrev pub is_user : UserId → UserId → Bool
is_user user row = row.id == user.id

abbrev pub without_creator : Group → Group
without_creator g = record g { creator_id = none }

abbrev pub mark_deleted : ℕ → AnnotationRow → AnnotationRow
mark_deleted now a = record a { deleted = true; updated = now }

abbrev pub mark_slims : ℕ → List String → List AnnotationSlim → List AnnotationSlim
mark_slims now ids slims =
    map
      (λ row.
        if contains ids row.pubid
        then record row { fields = record row.fields { deleted = true; updated = now } }
        else row)
      slims

abbrev pub queue_jobs :
    (String → String)
    → (List Job → ℕ)
    → ℕ
    → List AnnotationRow
    → List AnnotationRow
    → List Job
    → List Job
queue_jobs hex next_id now [] rows jobs = jobs
queue_jobs hex next_id now (a ∷ gone) rows jobs = queue_jobs hex next_id now gone rows (
    add_by_id next_id now (map (queue_row hex) rows) "sync_annotation" (hex a.id)
      "UserDeleteService.delete_annotations" false (some 60) jobs)

module _ {Metadata : Type 0} where
  -- LimitedWorker._execute: the statement is run if the limit is not used up; `q` is what it leaves, with
  -- what it changes taken off the limit.
  unfoldable pub execute : Purge Metadata → Purge Metadata → Outcome (Purge Metadata)
  execute p q = if ltb p.limit 1 then limit_reached p else done q

  unfoldable pub purge_authtickets : UserId → Purge Metadata → Outcome (Purge Metadata)
  unfolding execute
  purge_authtickets user p = execute p (record p {
    limit = p.limit - length (selected (is_owned user) p.limit p.authtickets);
    authtickets = deleted (is_owned user) p.limit p.authtickets;
  })

  unfoldable pub purge_tokens : UserId → Purge Metadata → Outcome (Purge Metadata)
  unfolding execute
  purge_tokens user p = execute p (record p {
    limit = p.limit - length (selected (is_owned user) p.limit p.tokens);
    tokens = deleted (is_owned user) p.limit p.tokens;
  })

  unfoldable pub purge_flags : UserId → Purge Metadata → Outcome (Purge Metadata)
  unfolding execute
  purge_flags user p = execute p (record p {
    limit = p.limit - length (selected (is_owned user) p.limit p.flags);
    flags = deleted (is_owned user) p.limit p.flags;
  })

  unfoldable pub purge_cohorts : UserId → Purge Metadata → Outcome (Purge Metadata)
  unfolding execute
  purge_cohorts user p = execute p (record p {
    limit = p.limit - length (selected (is_owned user) p.limit p.cohorts);
    cohorts = deleted (is_owned user) p.limit p.cohorts;
  })

  -- A group takes its memberships and slim rows with it.
  unfoldable pub purge_groups : UserId → Purge Metadata → Outcome (Purge Metadata)
  unfolding execute
  purge_groups user p =
      let gone = selected (is_empty_of user p.site.annotations) p.limit p.site.groups in
      let ids = map (λ g. g.id) gone in
      execute p (record p {
        limit = p.limit - length gone;
        memberships = filter (λ m. not (contains ids m.group_id)) p.memberships;
        site = record p.site {
          groups = deleted (is_empty_of user p.site.annotations) p.limit p.site.groups;
          slims = filter (λ row. not (contains ids row.fields.group_id)) p.site.slims;
        };
      })

  unfoldable pub purge_memberships : UserId → Purge Metadata → Outcome (Purge Metadata)
  unfolding execute
  purge_memberships user p = execute p (record p {
    limit = p.limit - length (selected (is_member user p.site.groups) p.limit p.memberships);
    memberships = deleted (is_member user p.site.groups) p.limit p.memberships;
  })

  unfoldable pub purge_creators : UserId → Purge Metadata → Outcome (Purge Metadata)
  unfolding execute
  purge_creators user p = execute p (record p {
    limit = p.limit - length (selected (is_created_by user) p.limit p.site.groups);
    site = record p.site {
      groups = updated (is_created_by user) without_creator p.limit p.site.groups;
    };
  })

  -- A user takes the slim rows along.
  unfoldable pub purge_row : UserId → Purge Metadata → Outcome (Purge Metadata)
  unfolding execute
  purge_row user p =
      let ids = map (λ u. u.id) (selected (is_user user) p.limit p.site.users) in
      execute p (record p {
        limit = p.limit - length (selected (is_user user) p.limit p.site.users);
        site = record p.site {
          users = deleted (is_user user) p.limit p.site.users;
          slims = filter (λ row. not (contains ids row.fields.user_id)) p.site.slims;
        };
      })

  module _ (hex : String → String) (next_id : List Job → ℕ) (now : ℕ) where
    unfoldable pub purge_annotations : UserId → Purge Metadata → Outcome (Purge Metadata)
    unfolding execute
    purge_annotations user p =
        let gone = selected (is_live_of user) p.limit p.site.annotations in
        let rows = updated (is_live_of user) (mark_deleted now) p.limit p.site.annotations in
        execute p (record p {
          limit = p.limit - length gone;
          site = record p.site {
            annotations = rows;
            slims = mark_slims now (map (λ a. a.id) gone) p.site.slims;
            jobs = queue_jobs hex next_id now gone rows p.site.jobs;
          };
        })

    unfoldable pub purge_user : UserId → Purge Metadata → Outcome (Purge Metadata)
    unfolding purge_authtickets purge_tokens purge_flags purge_cohorts purge_annotations
        purge_groups purge_memberships purge_creators purge_row
    purge_user user p =
        purge_authtickets user p
        then purge_tokens user
        then purge_flags user
        then purge_cohorts user
        then purge_annotations user
        then purge_groups user
        then purge_memberships user
        then purge_creators user
        then purge_row user

-- A job of the queue, with the userid that it has, if it has one.
pub record PurgeJob : Type 0 where
  pub id : ℕ
  pub userid : Option String

module _ {Metadata : Type 0} (fetch : String → Option UserId)
    (purge : UserId → Purge Metadata → Outcome (Purge Metadata)) where
  -- What a job is for: nothing, where it has no userid or there is no such user.
  abbrev pub user_of : PurgeJob → Option UserId
  user_of job = elim job.userid [
    | none ↦ none
    | some userid ↦ if userid == "" then none else fetch userid
  ]

  abbrev pub purged_one : Option UserId → Purge Metadata → Outcome (Purge Metadata)
  purged_one none p = done p
  purged_one (some user) p = purge user p

  -- The loop over the jobs, and the ids of those that are completed; it ends where the limit is reached.
  abbrev pub purge_jobs : List PurgeJob → Purge Metadata → List ℕ → Purge Metadata × List ℕ
  purge_jobs [] p completed = (p, completed)
  purge_jobs (job ∷ jobs) p completed = elim (purged_one (user_of job) p) [
    | done q ↦ purge_jobs jobs q (completed ++ (job.id ∷ []))
    | limit_reached q ↦ (q, completed)
  ]

-- `get` and `delete` of the queue are of the job queue's service.
unfoldable pub purge_deleted_users :
    {Metadata : Type 0}
    → (String → Option UserId)
    → (UserId → Purge Metadata → Outcome (Purge Metadata))
    → List PurgeJob
    → ℕ
    → Purge Metadata
    → Purge Metadata × List ℕ
purge_deleted_users fetch purge jobs limit p =
    purge_jobs fetch purge jobs (record p { limit = limit }) []
