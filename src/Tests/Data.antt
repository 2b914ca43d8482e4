-- ===== src/Tests/Data.antt =====
-- A small site: an author, a reader and a stranger, a private group and the world's.
use subtask.Base.{ℕ, String, Bool, true, false, Option, none, some, List, [], ◌∷◌}
use subtask.Models.{Group, User, Annotation, JoinableBy, ReadableBy, WriteableBy}
use subtask.Security.Identity.{Identity, from_models}
use subtask.Streamer.Filter.{Socket}

abbrev pub world_group : Group
world_group = record {
  id = 1;
  pubid = "__world__";
  authority = "example.com";
  name = "Public";
  creator_id = none;
  enforce_scope = true;
  authority_provided_id = none;
  joinable_by = none;
  readable_by = some ReadableBy.world;
  writeable_by = some WriteableBy.authority;
  scopes = [];
}

abbrev pub team : Group
team = record {
  id = 2;
  pubid = "team";
  authority = "example.com";
  name = "Team";
  creator_id = some 7;
  enforce_scope = true;
  authority_provided_id = some "t1";
  joinable_by = some JoinableBy.authority;
  readable_by = some ReadableBy.members;
  writeable_by = some WriteableBy.members;
  scopes = [];
}

abbrev person : ℕ → String → List Group → User
person id userid groups = record {
  id = id;
  userid = userid;
  authority = "example.com";
  groups = groups;
  staff = false;
  admin = false;
}

abbrev pub author : User
author = person 7 "acct:ann@example.com" (team ∷ [])

abbrev pub reader : User
reader = person 8 "acct:bob@example.com" (world_group ∷ team ∷ [])

abbrev pub logged_in : User → Option Identity
logged_in user = some (from_models (some user) none)

abbrev pub note : Group → Bool → Bool → Annotation
note group shared deleted = record {
  id = "n1";
  userid = "acct:ann@example.com";
  groupid = group.pubid;
  group = some group;
  target_uri = "http://example.com/";
  references = [];
  shared = shared;
  deleted = deleted;
}

abbrev pub socket : String → Option Identity → Socket
socket client_id identity = record {
  client_id = some client_id;
  identity = identity;
  filter_rows = some (("/id", "n1") ∷ []);
  terminated = false;
}
