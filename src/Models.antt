-- ===== src/Models.antt =====
-- models/: the columns of the rows that the services read, and the enumerations of group.py.
use subtask.Base.{ℕ, String, Bool, Option, List}

pub data JoinableBy : Type 0 where
  authority : JoinableBy

pub data ReadableBy : Type 0 where
  members world : ReadableBy

pub data WriteableBy : Type 0 where
  authority members : WriteableBy

-- `creator` is the row that `creator_id` names, of which the code reads only the id.
pub record Group : Type 0 where
  pub id : ℕ
  pub pubid : String
  pub authority : String
  pub name : String
  pub creator_id : Option ℕ
  pub enforce_scope : Bool
  pub authority_provided_id : Option String
  pub joinable_by : Option JoinableBy
  pub readable_by : Option ReadableBy
  pub writeable_by : Option WriteableBy
  pub scopes : List String

pub record User : Type 0 where
  pub id : ℕ
  pub userid : String
  pub authority : String
  pub groups : List Group
  pub staff : Bool
  pub admin : Bool

pub record AuthClient : Type 0 where
  pub id : String
  pub authority : String

-- `group` is the row whose pubid is `groupid`, if there is one.
pub record Annotation : Type 0 where
  pub id : String
  pub userid : String
  pub groupid : String
  pub group : Option Group
  pub target_uri : String
  pub references : List String
  pub shared : Bool
  pub deleted : Bool
