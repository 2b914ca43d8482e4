-- ===== src/Annotations/Tables.antt =====
-- The tables that services/annotation_write.py works on, and its look-ups. An id of an annotation is in
-- its URL-safe form, and `extra` has the texts of its values; `hex` is the form of the column, as URLSafeUUID of db/types.py makes it.
use subtask.Base.{
  ℕ, String, Bool, Option, none, some, List, [], ◌∷◌, map, contains, any, put, ◌==◌, string_eq,
  nat_eq, if◌then◌else◌, starts_with, ◌&&◌, Result, ok, err,
}
use subtask.Models.{Group}
use subtask.Users.Userid.{UserIdError, split_user}
use subtask.Users.Service.{normalise_username}
use subtask.Sync.Queue.{Job, Row, add_by_id}

pub record AnnotationRow : Type 0 where
  pub id : String
  pub userid : String
  pub groupid : String
  pub target_uri : String
  pub text : String
  pub tags : List String
  pub extra : List (String × String)
  pub references : List String
  pub shared : Bool
  pub deleted : Bool
  pub created : ℕ
  pub updated : ℕ
  pub document_id : ℕ

-- What an upsert writes when the row is there, and `created` beside it.
pub record SlimFields : Type 0 where
  pub updated : ℕ
  pub deleted : Bool
  pub shared : Bool
  pub document_id : ℕ
  pub group_id : ℕ
  pub user_id : ℕ
  pub moderated : Bool

pub record AnnotationSlim : Type 0 where
  pub pubid : String
  pub created : ℕ
  pub fields : SlimFields

pub record UserId : Type 0 where
  pub id : ℕ
  pub username : String
  pub authority : String

-- `lower` is the function of the database. `moderations` has the annotation ids of the rows; a metadata row is kept by the annotation's id.
pub record Site (Metadata : Type 0) : Type 0 where
  pub lower : String → String
  pub annotations : List AnnotationRow
  pub slims : List AnnotationSlim
  pub moderations : List String
  pub metadata : List (String × Metadata)
  pub groups : List Group
  pub users : List UserId
  pub jobs : List Job
  pub deleted_events : List String

unfoldable pub find_annotation : String → List AnnotationRow → Option AnnotationRow
find_annotation id [] = none
find_annotation id (a ∷ rows) =
    let rest = find_annotation id rows in if a.id == id then some a else rest

unfoldable pub find_group : String → List Group → Option Group
find_group pubid [] = none
find_group pubid (g ∷ groups) =
    let rest = find_group pubid groups in if g.pubid == pubid then some g else rest

-- The comparison of usernames that the database makes.
abbrev pub is_user_named : (String → String) → String → String → UserId → Bool
is_user_named lower username authority u =
    normalise_username lower u.username == normalise_username lower username
    && u.authority == authority

unfoldable pub find_named : (String → String) → String → String → List UserId → Option ℕ
find_named lower username authority [] = none
find_named lower username authority (u ∷ users) =
    let rest = find_named lower username authority users in
    if is_user_named lower username authority u then some u.id else rest

-- `User.userid == userid`, which no row is for what is no userid
abbrev pub find_parts :
    (String → String) → Result UserIdError (String × String) → List UserId → Option ℕ
find_parts lower (err e) users = none
find_parts lower (ok (username, authority)) users = find_named lower username authority users

unfoldable pub find_user_id : (String → String) → String → List UserId → Option ℕ
unfolding find_named
find_user_id lower userid users = find_parts lower (split_user userid) users

unfoldable pub find_slim : String → List AnnotationSlim → Option AnnotationSlim
find_slim pubid [] = none
find_slim pubid (row ∷ rows) =
    let rest = find_slim pubid rows in if row.pubid == pubid then some row else rest

-- The row of the id, as the session writes it.
unfoldable pub write_row : AnnotationRow → List AnnotationRow → List AnnotationRow
write_row a [] = []
write_row a (row ∷ rows) = let rest = write_row a rows in (if row.id == a.id then a else row) ∷ rest

-- `url_in_scope` of util/group_scope.py
abbrev pub url_in_scope : String → List String → Bool
url_in_scope url scopes = any (λ scope. starts_with url scope) scopes

-- The columns of a row that the queue reads.
abbrev pub queue_row : (String → String) → AnnotationRow → Row
queue_row hex a = record {
  id = hex a.id;
  userid = a.userid;
  groupid = a.groupid;
  updated = a.updated;
}

abbrev pub slim_fields : AnnotationRow → Group → ℕ → Bool → SlimFields
slim_fields a g user_id moderated = record {
  updated = a.updated;
  deleted = a.deleted;
  shared = a.shared;
  document_id = a.document_id;
  group_id = g.id;
  user_id = user_id;
  moderated = moderated;
}

-- `on_conflict_do_update`: the row of the id gets the fields, or there is a new row.
unfoldable pub upsert : AnnotationRow → SlimFields → List AnnotationSlim → List AnnotationSlim
upsert a fields [] = record { pubid = a.id; created = a.created; fields = fields } ∷ []
upsert a fields (row ∷ rows) =
    let rest = upsert a fields rows in
    if row.pubid == a.id then record row { fields = fields } ∷ rows else row ∷ rest

-- What the upsert writes: nothing where the group or the user is gone; an id of 0 counts as none.
unfoldable pub slim_with :
    (String → String) → List Group → List UserId → Bool → AnnotationRow → Option SlimFields
unfolding find_group find_user_id
slim_with lower groups users moderated a = elim (find_group a.groupid groups) [
  | none ↦ none
  | some g ↦ elim (find_user_id lower a.userid users) [
    | none ↦ none
    | some user_id ↦ if user_id == 0 then none else some (slim_fields a g user_id moderated)
  ]
]

abbrev pub upsert_if : AnnotationRow → Option SlimFields → List AnnotationSlim → List AnnotationSlim
upsert_if a none slims = slims
upsert_if a (some fields) slims = upsert a fields slims

module _ {Metadata : Type 0} where
  unfoldable pub group_of : AnnotationRow → Site Metadata → Option Group
  unfolding find_group
  group_of a s = find_group a.groupid s.groups

  unfoldable pub slim_of : AnnotationRow → Site Metadata → Option SlimFields
  unfolding slim_with
  slim_of a s = slim_with s.lower s.groups s.users (contains s.moderations a.id) a

  -- What the session writes of an annotation that has been changed.
  unfoldable pub flush : AnnotationRow → Site Metadata → Site Metadata
  unfolding write_row
  flush a s = record s { annotations = write_row a s.annotations }

  unfoldable pub upsert_annotation_slim : AnnotationRow → Site Metadata → Site Metadata
  unfolding flush
  upsert_annotation_slim a s = record (flush a s) { slims = upsert_if a (slim_of a s) s.slims }

  -- AnnotationMetadataService.set: the row is made from the slim row, if there is one.
  abbrev pub put_if :
      String
      → Option Metadata
      → Option AnnotationSlim
      → List (String × Metadata)
      → List (String × Metadata)
  put_if id none row rows = rows
  put_if id (some m) none rows = rows
  put_if id (some m) (some row) rows = put id m rows

  unfoldable pub set_metadata : AnnotationRow → Option Metadata → Site Metadata → Site Metadata
  set_metadata a m s = record s { metadata = put_if a.id m (find_slim a.id s.slims) s.metadata }

  -- `next_id` is the sequence of the ids of jobs, and `now` the time of the call.
  module _ (hex : String → String) (next_id : List Job → ℕ) (now : ℕ) where
    unfoldable pub queue_sync : AnnotationRow → String → Bool → Site Metadata → Site Metadata
    queue_sync a tag force s = record s {
      jobs =
          add_by_id next_id now (map (queue_row hex) s.annotations) "sync_annotation" (hex a.id) tag
            force (some 60) s.jobs;
    }
