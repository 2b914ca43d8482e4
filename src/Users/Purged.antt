-- ===== src/Users/Purged.antt =====
-- What a purge that did not reach its limit leaves of a user.
use subtask.Base.{
  ℕ, ◌≡◌, ◌≤◌, ◌∙◌, false, List, length, filter, any, arith, nat_eq, option_eq, string_eq, String,
}
use subtask.Sync.Queue.{Job}
use subtask.Annotations.Tables.{UserId}
use subtask.Users.Worker.{any-deleted, any-updated}
use subtask.Users.Purge.{
  Owned, Purge, done, is_owned, is_live_of, is_created_by, is_member, is_user, without_creator,
  mark_deleted, purge_authtickets, purge_tokens, purge_flags, purge_cohorts, purge_groups,
  purge_memberships, purge_creators, purge_row, purge_annotations, purge_user,
}
use subtask.Users.Executed.{
  then-done, no_creator, any-deleted_one, members-without_creator, executed,
}

module _ {Metadata : Type 0} (user : UserId) where
  -- What the statements of a purge, in their order, leave none of.
  abbrev IsUnique : Purge Metadata → Type 0
  IsUnique p = length (filter (is_user user) p.site.users) ≤ 1

  abbrev Owns : (Purge Metadata → List Owned) → Purge Metadata → Type 0
  Owns rows p = any (is_owned user) (rows p) ≡ false

  abbrev IsSignedOut : Purge Metadata → Type 0
  IsSignedOut p = IsUnique p × (Owns (λ p. p.authtickets) p × Owns (λ p. p.tokens) p)

  abbrev IsUnflagged : Purge Metadata → Type 0
  IsUnflagged p = IsSignedOut p × (Owns (λ p. p.flags) p × Owns (λ p. p.cohorts) p)

  abbrev IsSilent : Purge Metadata → Type 0
  IsSilent p = IsUnflagged p × (any (is_live_of user) p.site.annotations ≡ false)

  abbrev IsOutside : Purge Metadata → Type 0
  IsOutside p = IsSilent p × (any (is_member user p.site.groups) p.memberships ≡ false)

  abbrev IsNoCreator : Purge Metadata → Type 0
  IsNoCreator p = IsOutside p × (any (is_created_by user) p.site.groups ≡ false)

  -- Of the user no auth ticket, token, flag, cohort, live annotation and membership is left, no group has
  -- the user as its creator, and the user is gone.
  pub record IsPurged (p : Purge Metadata) : Type 0 where
    pub authtickets : any (is_owned user) p.authtickets ≡ false
    pub tokens : any (is_owned user) p.tokens ≡ false
    pub flags : any (is_owned user) p.flags ≡ false
    pub cohorts : any (is_owned user) p.cohorts ≡ false
    pub annotations : any (is_live_of user) p.site.annotations ≡ false
    pub memberships : any (is_member user p.site.groups) p.memberships ≡ false
    pub groups : any (is_created_by user) p.site.groups ≡ false
    pub users : any (is_user user) p.site.users ≡ false

  -- Once a statement has left some of its limit, no row that matches it is left.
  abbrev WithRoom : (Purge Metadata → Type 0) → Purge Metadata → Type 0
  WithRoom P p = 1 ≤ p.limit → P p

  purged_authtickets :
      (p q : Purge Metadata)
      → IsUnique p
      → purge_authtickets user p ≡ done q
      → WithRoom (λ r. IsUnique r × Owns (λ p. p.authtickets) r) q
  unfolding purge_authtickets
  purged_authtickets p q h run =
      executed IsUnique (WithRoom (λ r. IsUnique r × Owns (λ p. p.authtickets) r)) p _ q run
        (λ room. h)
        (λ was room left. (was, any-deleted (is_owned user) p.limit p.authtickets (omega arith)))

  purged_tokens :
      (p q : Purge Metadata)
      → WithRoom (λ r. IsUnique r × Owns (λ p. p.authtickets) r) p
      → purge_tokens user p ≡ done q
      → WithRoom IsSignedOut q
  unfolding purge_tokens
  purged_tokens p q h run =
      executed (λ r. IsUnique r × Owns (λ p. p.authtickets) r) (WithRoom IsSignedOut) p _ q run h
        (λ was room left.
          (was.0, (was.1, any-deleted (is_owned user) p.limit p.tokens (omega arith))))

  purged_flags :
      (p q : Purge Metadata)
      → WithRoom IsSignedOut p
      → purge_flags user p ≡ done q
      → WithRoom (λ r. IsSignedOut r × Owns (λ p. p.flags) r) q
  unfolding purge_flags
  purged_flags p q h run =
      executed IsSignedOut (WithRoom (λ r. IsSignedOut r × Owns (λ p. p.flags) r)) p _ q run h
        (λ was room left. (was, any-deleted (is_owned user) p.limit p.flags (omega arith)))

  purged_cohorts :
      (p q : Purge Metadata)
      → WithRoom (λ r. IsSignedOut r × Owns (λ p. p.flags) r) p
      → purge_cohorts user p ≡ done q
      → WithRoom IsUnflagged q
  unfolding purge_cohorts
  purged_cohorts p q h run =
      executed (λ r. IsSignedOut r × Owns (λ p. p.flags) r) (WithRoom IsUnflagged) p _ q run h
        (λ was room left.
          (was.0, (was.1, any-deleted (is_owned user) p.limit p.cohorts (omega arith))))

  purged_annotations :
      (hex : String → String) (next_id : List Job → ℕ) (now : ℕ) (p q : Purge Metadata)
      → WithRoom IsUnflagged p
      → purge_annotations hex next_id now user p ≡ done q
      → WithRoom IsSilent q
  unfolding purge_annotations
  purged_annotations hex next_id now p q h run =
      executed IsUnflagged (WithRoom IsSilent) p _ q run h (λ was room left. (
        was,
        any-updated (is_live_of user) (mark_deleted now) p.limit p.site.annotations
            (λ a. ground arith) (omega arith),
      ))

  purged_groups :
      (p q : Purge Metadata)
      → WithRoom IsSilent p
      → purge_groups user p ≡ done q
      → WithRoom IsSilent q
  unfolding purge_groups
  purged_groups p q h run = executed IsSilent (WithRoom IsSilent) p _ q run h (λ was room left. was)

  purged_memberships :
      (p q : Purge Metadata)
      → WithRoom IsSilent p
      → purge_memberships user p ≡ done q
      → WithRoom IsOutside q
  unfolding purge_memberships
  purged_memberships p q h run =
      executed IsSilent (WithRoom IsOutside) p _ q run h (λ was room left.
        (was, any-deleted (is_member user p.site.groups) p.limit p.memberships (omega arith)))

  purged_creators :
      (p q : Purge Metadata)
      → WithRoom IsOutside p
      → purge_creators user p ≡ done q
      → WithRoom IsNoCreator q
  unfolding purge_creators
  purged_creators p q h run =
      executed IsOutside (WithRoom IsNoCreator) p _ q run h (λ was room left. (
        (
          was.0,
          members-without_creator user (is_created_by user) p.limit p.site.groups p.memberships
              ∙ was.1,
        ),
        any-updated (is_created_by user) without_creator p.limit p.site.groups
            (λ g. no_creator user.id) (omega arith),
      ))

  IsPurged-row :
      (p q : Purge Metadata) → WithRoom IsNoCreator p → purge_row user p ≡ done q → IsPurged q
  unfolding purge_row
  IsPurged-row p q h run = executed IsNoCreator IsPurged p _ q run h (λ was room.
      let (((((unique, (tickets, tokens)), (flags, cohorts)), silent), outside), groups) = was in
      record {
        authtickets = tickets;
        tokens = tokens;
        flags = flags;
        cohorts = cohorts;
        annotations = silent;
        memberships = outside;
        groups = groups;
        users = any-deleted_one (is_user user) p.limit p.site.users unique room;
      })

  -- If no two users have the same id, and a purge of the user ends without reaching the limit, then no
  -- auth ticket, token, flag, cohort, live annotation and membership of the user is left, no group has
  -- the user as its creator, and the user's row is gone.
  pub purge_user-IsPurged :
      (hex : String → String) (next_id : List Job → ℕ) (now : ℕ) (p q : Purge Metadata)
      → length (filter (is_user user) p.site.users) ≤ 1
      → purge_user hex next_id now user p ≡ done q
      → IsPurged q
  unfolding purge_user
  purge_user-IsPurged hex next_id now p q unique h =
      let (p8, h8, run9) = then-done _ (purge_row user) h in
      let (p7, h7, run8) = then-done _ (purge_creators user) h8 in
      let (p6, h6, run7) = then-done _ (purge_memberships user) h7 in
      let (p5, h5, run6) = then-done _ (purge_groups user) h6 in
      let (p4, h4, run5) = then-done _ (purge_annotations hex next_id now user) h5 in
      let (p3, h3, run4) = then-done _ (purge_cohorts user) h4 in
      let (p2, h2, run3) = then-done _ (purge_flags user) h3 in
      let (p1, run1, run2) = then-done _ (purge_tokens user) h2 in
      IsPurged-row p8 q
        (purged_creators p7 p8
          (purged_memberships p6 p7
            (purged_groups p5 p6
              (purged_annotations hex next_id now p4 p5
                (purged_cohorts p3 p4
                  (purged_flags p2 p3
                    (purged_tokens p1 p2 (purged_authtickets p p1 unique run1) run2) run3)
                  run4)
                run5)
              run6)
            run7)
          run8)
        run9
