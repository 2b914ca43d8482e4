-- ===== src/Services/GroupMembers.antt =====
-- services/group_members.py: who is a member of a group, and the events on it. The user service,
-- which finds users by userid, is a parameter, as are the users.
pub mod Distinct
pub mod Updated
use subtask.Base.{
  String, Bool, true, false, not, Option, none, some, List, [], ◌∷◌, ◌++◌, map, filter, contains,
  ◌==◌, Eq, option_eq, string_eq, Result, ok, err, ◌>>=◌, if◌then◌else◌,
}

pub record Event : Type 0 where
  pub type : String
  pub userid : String

pub data MemberError : Type 0 where
  none_has_no_userid : MemberError

-- The members of one group, in which a user that was not found is `None`, and what was published
-- with the group's pubid.
pub record Members (User : Type 0) : Type 0 where
  pub members : List (Option User)
  pub published : List Event

-- `list.remove`: the first that is equal
unfoldable pub remove {ℓ} : {A : Type ℓ} ⦃e : Eq A⦄ → A → List A → List A
remove user [] = []
remove user (member ∷ members) =
    let rest = remove user members in if member == user then members else member ∷ rest

-- `[member.userid for member in group.members]`
unfoldable pub member_ids :
    {User : Type 0} → (User → String) → List (Option User) → Result MemberError (List String)
member_ids userid_of [] = ok []
member_ids userid_of (none ∷ members) = err none_has_no_userid
member_ids userid_of (some user ∷ members) = do
  ids ← member_ids userid_of members
  ok (userid_of user ∷ ids)

module _ {User : Type 0} ⦃user_eq : Eq User⦄ (user_fetcher : String → Option User) where
  unfoldable pub member_join : Members User → String → Members User
  member_join group userid =
      let user = user_fetcher userid in
      if contains group.members user then group else record {
        members = group.members ++ (user ∷ []);
        published = group.published ++ (record { type = "group-join"; userid = userid } ∷ []);
      }

  unfoldable pub member_leave : Members User → String → Members User
  unfolding remove
  member_leave group userid =
      let user = user_fetcher userid in
      if contains group.members user
      then record {
        members = remove user group.members;
        published = group.published ++ (record { type = "group-leave"; userid = userid } ∷ []);
      }
      else group

  unfoldable pub add_members : Members User → List String → Members User
  unfolding member_join
  add_members group [] = group
  add_members group (userid ∷ userids) = add_members (member_join group userid) userids

  unfoldable pub remove_members : Members User → List String → Members User
  unfolding member_leave
  remove_members group [] = group
  remove_members group (userid ∷ userids) = remove_members (member_leave group userid) userids

  unfoldable pub update_members :
      (User → String) → Members User → List String → Result MemberError (Members User)
  unfolding add_members remove_members member_ids
  update_members userid_of group userids = do
    current_mem_ids ← member_ids userid_of group.members
    let userids_for_removal = filter (λ id. not (contains userids id)) current_mem_ids
    ok (remove_members (add_members group userids) userids_for_removal)
