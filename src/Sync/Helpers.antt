-- ===== src/Sync/Helpers.antt =====
-- DBHelper and ESHelper of services/annotation_sync.py. The hits of a search in Elasticsearch and
-- `isoparse` of dateutil are parameters; a time is the number of seconds.
use subtask.Base.{
  ℕ, String, Bool, false, not, ◌&&◌, Option, none, some, List, [], ◌∷◌, map, filter, contains, ◌==◌,
  string_eq, Result, ok, err, ◌>>=◌, if◌then◌else◌,
}
use subtask.Sync.Queue.{Job}

pub record DbAnnotation : Type 0 where
  pub id : String
  pub updated : ℕ
  pub userid : String
  pub deleted : Bool

-- The field of a hit that the search index holds as text, and its value after `isoparse`.
pub data Updated : Type 0 where
  text : String → Updated
  time : ℕ → Updated

-- A `_source`, with the keys that it has.
pub record Source : Type 0 where
  pub updated : Option Updated
  pub user : Option String

pub record Hit : Type 0 where
  pub id : String
  pub source : Source

pub data SyncError : Type 0 where
  key_error : String → SyncError
  parse_error : String → SyncError

-- `job.kwargs.get("force", False)`
unfoldable pub is_forced : Job → Bool
is_forced job = elim job.force [ none ↦ false | some force ↦ force ]

unfoldable pub url_safe_annotation_ids : (String → String) → List Job → List String
unfolding is_forced
url_safe_annotation_ids url_safe jobs =
    map (λ job. url_safe job.annotation_id) (filter (λ job. not (is_forced job)) jobs)

unfoldable pub db_rows : List String → List DbAnnotation → List (String × DbAnnotation)
db_rows ids table = map (λ a. (a.id, a)) (filter (λ a. not a.deleted && contains ids a.id) table)

-- `DBHelper.get`
unfoldable pub get_from_db :
    (String → String) → List Job → List DbAnnotation → List (String × DbAnnotation)
unfolding url_safe_annotation_ids db_rows
get_from_db url_safe jobs table = elim (url_safe_annotation_ids url_safe jobs) [
  | [] ↦ []
  | id ∷ ids ↦ db_rows (id ∷ ids) table
]

module _ (isoparse : String → Option ℕ) where
  unfoldable pub parse_updated : Option Updated → Result SyncError (Option Updated)
  parse_updated none = ok none
  parse_updated (some (time t)) = ok (some (time t))
  parse_updated (some (text s)) =
      if s == ""
      then ok (some (text s))
      else elim (isoparse s) [ some t ↦ ok (some (time t)) | none ↦ err (parse_error s) ]

  -- `if hit["_source"]`: a source that has a key
  abbrev pub keep_hit :
      String → Option Updated → Option String → List (String × Source) → List (String × Source)
  keep_hit id none none rest = rest
  keep_hit id none (some user) rest = (id, record { updated = none; user = some user }) ∷ rest
  keep_hit id (some u) user rest = (id, record { updated = some u; user = user }) ∷ rest

  -- The loop over the hits, and the dictionary of those whose source is not empty.
  unfoldable pub parse_hits : List Hit → Result SyncError (List (String × Source))
  unfolding parse_updated
  parse_hits [] = ok []
  parse_hits (hit ∷ hits) = do
    updated ← parse_updated hit.source.updated
    rest ← parse_hits hits
    ok (keep_hit hit.id updated hit.source.user rest)

-- `ESHelper.get`
unfoldable pub get_from_es :
    (String → String)
    → (String → Option ℕ)
    → (List String → List Hit)
    → List Job
    → Result SyncError (List (String × Source))
unfolding url_safe_annotation_ids parse_hits
get_from_es url_safe isoparse search jobs = elim (url_safe_annotation_ids url_safe jobs) [
  | [] ↦ ok []
  | id ∷ ids ↦ parse_hits isoparse (search (id ∷ ids))
]
