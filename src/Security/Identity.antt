-- ===== src/Security/Identity.antt =====
-- security/identity.py, and the contexts of traversal/ that a permission is asked about.
use subtask.Base.{ℕ, String, Bool, Option, none, some, List, map}
use subtask.Models.{Group, User, AuthClient, Annotation}

pub record LongLivedGroup : Type 0 where
  pub id : ℕ
  pub pubid : String

pub record LongLivedUser : Type 0 where
  pub id : ℕ
  pub userid : String
  pub authority : String
  pub groups : List LongLivedGroup
  pub staff : Bool
  pub admin : Bool

pub record LongLivedAuthClient : Type 0 where
  pub id : String
  pub authority : String

pub record Identity : Type 0 where
  pub user : Option LongLivedUser
  pub auth_client : Option LongLivedAuthClient

-- `LongLivedGroup.from_model` and its namesakes
abbrev pub group_from_model : Group → LongLivedGroup
group_from_model g = record { id = g.id; pubid = g.pubid }

abbrev pub user_from_model : User → LongLivedUser
user_from_model u = record {
  id = u.id;
  userid = u.userid;
  authority = u.authority;
  groups = map group_from_model u.groups;
  staff = u.staff;
  admin = u.admin;
}

abbrev pub auth_client_from_model : AuthClient → LongLivedAuthClient
auth_client_from_model a = record { id = a.id; authority = a.authority }

abbrev when_some : {A B : Type 0} → (A → B) → Option A → Option B
when_some f none = none
when_some f (some a) = some (f a)

abbrev pub from_models : Option User → Option AuthClient → Identity
from_models u a = record {
  user = when_some user_from_model u;
  auth_client = when_some auth_client_from_model a;
}

abbrev pub authenticated_userid : Option Identity → Option String
authenticated_userid none = none
authenticated_userid (some i) = when_some (λ u. u.userid) i.user

-- An attribute that a context lacks is `none` as well: `hasattr(c, "user") and c.user` is false
-- of both, and to read on from either raises an AttributeError.
pub record Context : Type 0 where
  pub user : Option User
  pub annotation : Option Annotation
  pub group : Option Group

abbrev pub annotation_context : Annotation → Context
annotation_context a = record { user = none; annotation = some a; group = a.group }

abbrev pub group_context : Option Group → Context
group_context g = record { user = none; annotation = none; group = g }
