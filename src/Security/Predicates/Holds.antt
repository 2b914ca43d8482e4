-- ===== src/Security/Predicates/Holds.antt =====
-- Each predicate as a condition that cannot raise, and that `run` decides it where the
-- predicates that it requires are true.
use subtask.Base.{
  ◌≡◌, refl, Bool, true, false, not, Option, none, some, List, [], ◌∷◌, All, any, any_ok, ◌==◌,
  nat_eq, string_eq, inl, inr, Option-cases, ok, ◌>>=◌, arith,
}
use subtask.Models.{Annotation, Group, User, JoinableBy, ReadableBy, WriteableBy}
use subtask.Security.Identity.{
  LongLivedGroup, LongLivedUser, LongLivedAuthClient, Identity, Context,
}
use subtask.Security.Predicates.{
  Error, Predicate, authenticated, authenticated_user, user_is_staff, user_is_admin,
  authenticated_client, authenticated_client_is_lms, user_found,
  user_authority_matches_authenticated_client, annotation_found, annotation_shared,
  annotation_not_shared, annotation_live, annotation_created_by_user, group_found,
  group_writable_by_members, group_writable_by_authority, group_readable_by_world,
  group_readable_by_members, group_joinable_by_authority, group_created_by_user,
  group_has_user_as_member, group_matches_user_authority,
  group_matches_authenticated_client_authority, requires, run, found, deref, is_lms, is_readable_by,
  is_writeable_by, is_joinable_by,
}

-- Is there a value, and does it meet the test?
abbrev pub some_and : {A : Type 0} → (A → Bool) → Option A → Bool
some_and test none = false
some_and test (some a) = test a

-- The parties to a question: the user and the client of the caller, who need not be there.
module _ (i : Option Identity) (c : Context) where
  abbrev pub caller : (LongLivedUser → Bool) → Bool
  caller test = some_and (λ identity. some_and test identity.user) i

  abbrev pub client : (LongLivedAuthClient → Bool) → Bool
  client test = some_and (λ identity. some_and test identity.auth_client) i

  -- The caller wrote the annotation, made the group, is in it, or is of its authority.
  abbrev pub is_author : Bool
  is_author = caller (λ u. some_and (λ (a : Annotation). u.userid == a.userid) c.annotation)

  abbrev pub is_creator : Bool
  is_creator =
      caller (λ u. some_and (λ (g : Group). some_and (λ k. k == u.id) g.creator_id) c.group)

  abbrev pub is_member : Bool
  is_member = caller (λ u. some_and (λ (g : Group). any (λ m. m.id == g.id) u.groups) c.group)

  abbrev pub is_compatriot : Bool
  is_compatriot = caller (λ u. some_and (λ (g : Group). g.authority == u.authority) c.group)

  abbrev pub is_group_client : Bool
  is_group_client = client (λ a. some_and (λ (g : Group). g.authority == a.authority) c.group)

  abbrev pub is_user_client : Bool
  is_user_client = client (λ a. some_and (λ (u : User). u.authority == a.authority) c.user)

  abbrev pub is_live : Bool
  is_live = some_and (λ (a : Annotation). not a.deleted) c.annotation

  abbrev pub is_shared : Bool
  is_shared = some_and (λ (a : Annotation). a.shared) c.annotation

  abbrev pub is_private : Bool
  is_private = some_and (λ (a : Annotation). not a.shared) c.annotation

  abbrev pub readable : ReadableBy → Bool
  readable r = some_and (λ (g : Group). is_readable_by r g.readable_by) c.group

  abbrev pub writeable : WriteableBy → Bool
  writeable w = some_and (λ (g : Group). is_writeable_by w g.writeable_by) c.group

  abbrev pub joinable : JoinableBy → Bool
  joinable j = some_and (λ (g : Group). is_joinable_by j g.joinable_by) c.group

  unfoldable pub holds : Predicate → Bool
  holds authenticated = found i
  holds authenticated_user = caller (λ u. true)
  holds user_is_staff = caller (λ u. u.staff)
  holds user_is_admin = caller (λ u. u.admin)
  holds authenticated_client = client (λ a. true)
  holds authenticated_client_is_lms = client (λ a. is_lms a.authority)
  holds user_found = found c.user
  holds user_authority_matches_authenticated_client = is_user_client
  holds annotation_found = found c.annotation
  holds annotation_shared = is_shared
  holds annotation_not_shared = is_private
  holds annotation_live = is_live
  holds annotation_created_by_user = is_author
  holds group_found = found c.group
  holds group_writable_by_members = writeable WriteableBy.members
  holds group_writable_by_authority = writeable WriteableBy.authority
  holds group_readable_by_world = readable ReadableBy.world
  holds group_readable_by_members = readable ReadableBy.members
  holds group_joinable_by_authority = joinable JoinableBy.authority
  holds group_created_by_user = is_creator
  holds group_has_user_as_member = is_member
  holds group_matches_user_authority = is_compatriot
  holds group_matches_authenticated_client_authority = is_group_client

any_ok-eq-any :
    (g : Group) (groups : List LongLivedGroup)
    → any_ok {E = Error} (λ m. ok (m.id == g.id)) groups ≡ ok (any (λ m. m.id == g.id) groups)
any_ok-eq-any g [] = refl
any_ok-eq-any g (m ∷ groups) = ground (arith, any_ok-eq-any g groups)

groups_run :
    (o : Option Group) (groups : List LongLivedGroup)
    → found o ≡ true
    → any_ok (λ m. do g ← deref o; ok (m.id == g.id)) groups
      ≡ ok (some_and (λ g. any (λ m. m.id == g.id) groups) o)
groups_run none groups h = cc
groups_run (some g) groups h = any_ok-eq-any g groups

member_run :
    (i : Option Identity) (c : Context)
    → caller i c (λ u. true) ≡ true
    → found c.group ≡ true
    → run group_has_user_as_member i c ≡ ok (is_member i c)
unfolding run
member_run none c h k = cc
member_run (some i) c h k = elim (Option-cases i.user) [
  | inl absent ↦ ground arith
  | inr (user, e) ↦ rw e (groups_run c.group user.groups k)
]

module _ (i : Option Identity) (c : Context) where
  -- A predicate whose requirements are true does not raise.
  pub run-holds :
      (p : Predicate) → All (λ r. holds i c r ≡ true) (requires p) → run p i c ≡ ok (holds i c p)
  unfolding run holds requires
  run-holds group_has_user_as_member h = member_run i c h.0 h.1.0
  run-holds _ h = ground arith

  -- A predicate that is true has true requirements.
  pub requires-holds :
      (p : Predicate) → holds i c p ≡ true → All (λ r. holds i c r ≡ true) (requires p)
  unfolding holds requires
  requires-holds authenticated h = tt
  requires-holds _ h = ground arith
