-- ===== src/Users/Progress.antt =====
-- What a purge that reached its limit has done.
use mathlib.Core.Path.{subst}
use subtask.Base.{
  ℕ, zero, suc, ◌-◌, ◌+◌, ◌≡◌, ◌≤◌, ◌<◌, inl, inr, refl, Bool, true, not, List, length, ltb,
  if◌then◌else◌, arith, map, nat_eq, option_eq, string_eq, contains, String, Bool-cases,
}
use subtask.Models.{Group}
use subtask.Sync.Queue.{Job}
use subtask.Annotations.Tables.{AnnotationRow, UserId}
use subtask.Users.Worker.{selected, updated, deleted, selected_bound}
use subtask.Users.Executed.{no_creator}
use subtask.Users.Purge.{
  Membership, Purge, Outcome, done, limit_reached, ◌then◌, is_owned, is_live_of, is_created_by,
  is_empty_of, is_member, is_user, without_creator, mark_deleted, execute, purge_authtickets,
  purge_tokens, purge_flags, purge_cohorts, purge_groups, purge_memberships, purge_creators,
  purge_row, purge_annotations, purge_user,
}
use subtask.Users.Counts.{
  count, count-deleted, count-updated, count-filter, count-weaker, any-deleted_group,
  any-updated_group,
}

module _ (user : UserId) where
  member_before :
      (rows : List AnnotationRow) (n : ℕ) (groups : List Group) (m : Membership)
      → is_member user (deleted (is_empty_of user rows) n groups) m ≡ true
      → is_member user groups m ≡ true
  member_before rows n groups m h =
      ground (arith, any-deleted_group m.group_id n (is_empty_of user rows) groups)

  created_empty :
      (rows : List AnnotationRow) (g : Group)
      → is_empty_of user rows g ≡ true
      → is_created_by user g ≡ true
  created_empty rows g h = ground arith

  member_still :
      (n : ℕ) (groups : List Group) (m : Membership)
      → is_member user (updated (is_created_by user) without_creator n groups) m ≡ true
      → is_member user groups m ≡ true
  member_still n groups m h =
      ground (arith, any-updated_group m.group_id n (is_created_by user) groups)

module _ {Metadata : Type 0} (user : UserId) where
  -- How many rows are left to purge.
  abbrev pub weight : Purge Metadata → ℕ
  weight p =
      count (is_owned user) p.authtickets
      + count (is_owned user) p.tokens
      + count (is_owned user) p.flags
      + count (is_owned user) p.cohorts
      + count (is_live_of user) p.site.annotations
      + count (is_member user p.site.groups) p.memberships
      + count (is_created_by user) p.site.groups
      + count (is_user user) p.site.users

  abbrev IsProgress : Purge Metadata → Outcome (Purge Metadata) → Type 0
  IsProgress p (done q) = weight q + p.limit ≤ weight p + q.limit
  IsProgress p (limit_reached q) = weight q + p.limit ≤ weight p

  both :
      (p r : Purge Metadata) (o : Outcome (Purge Metadata))
      → IsProgress p (done r)
      → IsProgress r o
      → IsProgress p o
  both p r (done q) h k = omega arith
  both p r (limit_reached q) h k = omega arith

  then-IsProgress :
      (p : Purge Metadata) (o : Outcome (Purge Metadata))
      (f : Purge Metadata → Outcome (Purge Metadata))
      → IsProgress p o
      → ((r : Purge Metadata) → IsProgress r (f r))
      → IsProgress p (o then f)
  then-IsProgress p (done r) f h k = both p r (f r) h (k r)
  then-IsProgress p (limit_reached r) f h k = h

  execute-IsProgress :
      (p q : Purge Metadata) (changed : ℕ)
      → q.limit ≡ p.limit - changed
      → changed ≤ p.limit
      → weight q + changed ≤ weight p
      → IsProgress p (execute p q)
  unfolding execute
  execute-IsProgress p q changed h bound less = elim (Bool-cases (ltb p.limit 1)) [
    | inl low ↦ let none_left : p.limit ≡ 0 = ground arith in rw low (omega arith)
    | inr high ↦ rw high (omega arith)
  ]

  step_authtickets : (p : Purge Metadata) → IsProgress p (purge_authtickets user p)
  unfolding purge_authtickets
  step_authtickets p =
      let fewer = count-deleted (is_owned user) (is_owned user) p.limit p.authtickets (λ x h. h) in
      execute-IsProgress p _ (length (selected (is_owned user) p.limit p.authtickets)) refl
        (selected_bound (is_owned user) p.limit p.authtickets) (omega arith)

  step_tokens : (p : Purge Metadata) → IsProgress p (purge_tokens user p)
  unfolding purge_tokens
  step_tokens p =
      let fewer = count-deleted (is_owned user) (is_owned user) p.limit p.tokens (λ x h. h) in
      execute-IsProgress p _ (length (selected (is_owned user) p.limit p.tokens)) refl
        (selected_bound (is_owned user) p.limit p.tokens) (omega arith)

  step_flags : (p : Purge Metadata) → IsProgress p (purge_flags user p)
  unfolding purge_flags
  step_flags p =
      let fewer = count-deleted (is_owned user) (is_owned user) p.limit p.flags (λ x h. h) in
      execute-IsProgress p _ (length (selected (is_owned user) p.limit p.flags)) refl
        (selected_bound (is_owned user) p.limit p.flags) (omega arith)

  step_cohorts : (p : Purge Metadata) → IsProgress p (purge_cohorts user p)
  unfolding purge_cohorts
  step_cohorts p =
      let fewer = count-deleted (is_owned user) (is_owned user) p.limit p.cohorts (λ x h. h) in
      execute-IsProgress p _ (length (selected (is_owned user) p.limit p.cohorts)) refl
        (selected_bound (is_owned user) p.limit p.cohorts) (omega arith)

  step_annotations :
      (hex : String → String) (next_id : List Job → ℕ) (now : ℕ) (p : Purge Metadata)
      → IsProgress p (purge_annotations hex next_id now user p)
  unfolding purge_annotations
  step_annotations hex next_id now p =
      let fewer =
        count-updated (is_live_of user) (mark_deleted now) p.limit p.site.annotations
          (λ a. ground arith) in
      execute-IsProgress p _ (length (selected (is_live_of user) p.limit p.site.annotations)) refl
        (selected_bound (is_live_of user) p.limit p.site.annotations) (omega arith)

  step_groups : (p : Purge Metadata) → IsProgress p (purge_groups user p)
  unfolding purge_groups
  step_groups p =
      let test : Group → Bool = is_empty_of user p.site.annotations in
      let gone : List Group = selected test p.limit p.site.groups in
      let fewer =
        count-deleted test (is_created_by user) p.limit p.site.groups
          (created_empty user p.site.annotations) in
      let members =
        count-filter (is_member user (deleted test p.limit p.site.groups))
          (is_member user p.site.groups) (λ m. not (contains (map (λ g. g.id) gone) m.group_id))
          p.memberships (member_before user p.site.annotations p.limit p.site.groups) in
      execute-IsProgress p _ (length gone) refl (selected_bound test p.limit p.site.groups)
        (omega arith)

  step_memberships : (p : Purge Metadata) → IsProgress p (purge_memberships user p)
  unfolding purge_memberships
  step_memberships p =
      let fewer =
        count-deleted (is_member user p.site.groups) (is_member user p.site.groups) p.limit
          p.memberships (λ x h. h) in
      execute-IsProgress p _
        (length (selected (is_member user p.site.groups) p.limit p.memberships)) refl
        (selected_bound (is_member user p.site.groups) p.limit p.memberships) (omega arith)

  step_creators : (p : Purge Metadata) → IsProgress p (purge_creators user p)
  unfolding purge_creators
  step_creators p =
      let fewer =
        count-updated (is_created_by user) without_creator p.limit p.site.groups
          (λ g. no_creator user.id) in
      let members =
        count-weaker
          (is_member user (updated (is_created_by user) without_creator p.limit p.site.groups))
          (is_member user p.site.groups) p.memberships (member_still user p.limit p.site.groups) in
      execute-IsProgress p _ (length (selected (is_created_by user) p.limit p.site.groups)) refl
        (selected_bound (is_created_by user) p.limit p.site.groups) (omega arith)

  step_row : (p : Purge Metadata) → IsProgress p (purge_row user p)
  unfolding purge_row
  step_row p =
      let fewer = count-deleted (is_user user) (is_user user) p.limit p.site.users (λ x h. h) in
      execute-IsProgress p _ (length (selected (is_user user) p.limit p.site.users)) refl
        (selected_bound (is_user user) p.limit p.site.users) (omega arith)

  purge_user-IsProgress :
      (hex : String → String) (next_id : List Job → ℕ) (now : ℕ) (p : Purge Metadata)
      → IsProgress p (purge_user hex next_id now user p)
  unfolding purge_user
  purge_user-IsProgress hex next_id now p =
      then-IsProgress p _ (purge_row user)
        (then-IsProgress p _ (purge_creators user)
          (then-IsProgress p _ (purge_memberships user)
            (then-IsProgress p _ (purge_groups user)
              (then-IsProgress p _ (purge_annotations hex next_id now user)
                (then-IsProgress p _ (purge_cohorts user)
                  (then-IsProgress p _ (purge_flags user)
                    (then-IsProgress p _ (purge_tokens user) (step_authtickets p) step_tokens)
                    step_flags)
                  step_cohorts)
                (step_annotations hex next_id now))
              step_groups)
            step_memberships)
          step_creators)
        step_row

  -- A purge that reaches its limit leaves fewer rows of the user to purge, by the limit at least.
  pub purge_user-limit_reached :
      (hex : String → String) (next_id : List Job → ℕ) (now : ℕ) (p q : Purge Metadata)
      → purge_user hex next_id now user p ≡ limit_reached q
      → weight q + p.limit ≤ weight p
  purge_user-limit_reached hex next_id now p q h =
      subst (IsProgress p) h (purge_user-IsProgress hex next_id now p)

  -- The task of purging is called from time to time, each time with the limit; a user that was not purged is
  -- so the next time.
  abbrev pub again :
      Outcome (Purge Metadata)
      → (Purge Metadata → Outcome (Purge Metadata))
      → Outcome (Purge Metadata)
  again (done q) f = done q
  again (limit_reached q) f = f q

  module _ (hex : String → String) (next_id : List Job → ℕ) (now : ℕ → ℕ) (limit : ℕ) where
    unfoldable pub purge_times : ℕ → Purge Metadata → Outcome (Purge Metadata)
    purge_times zero p = limit_reached p
    purge_times (suc n) p =
        again (purge_user hex next_id (now n) user (record p { limit = limit })) (purge_times n)

    again-done :
        (n : ℕ) (p : Purge Metadata) (o : Outcome (Purge Metadata))
        → purge_user hex next_id (now n) user (record p { limit = limit }) ≡ o
        → 1 ≤ limit
        → weight p < suc n
        → ((q : Purge Metadata) → weight q < n → (r : Purge Metadata) × (purge_times n q ≡ done r))
        → (r : Purge Metadata) × (again o (purge_times n) ≡ done r)
    again-done n p (done r) h room less rest = (r, refl)
    again-done n p (limit_reached q) h room less rest =
        let fewer = purge_user-limit_reached hex next_id (now n) (record p { limit = limit }) q h in
        rest q (omega arith)

    -- With a limit of at least one, a user is purged without reaching the limit in at most as many purges as
    -- there are rows to purge for the user, and one more.
    pub purge_times-done :
        (n : ℕ) (p : Purge Metadata)
        → 1 ≤ limit
        → weight p < n
        → (r : Purge Metadata) × (purge_times n p ≡ done r)
    unfolding purge_times
    purge_times-done zero p room less = absurd (omega arith)
    purge_times-done (suc n) p room less =
        again-done n p (purge_user hex next_id (now n) user (record p { limit = limit })) refl room
          less (λ q fewer. purge_times-done n q room fewer)
