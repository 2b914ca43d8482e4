-- ===== src/Tests/Annotations/Worked.antt =====
-- The job of a deletion, worked off.
use subtask.Base.{
  ℕ, String, ◌+◌, ◌≡◌, refl, true, false, Option, none, some, List, [], ◌∷◌, contains, any, ok,
  nat_eq, string_eq, map,
}
use subtask.Sync.Queue.{Job, single_item, month, add_by_id}
use subtask.Sync.Helpers.{Hit, Source, time, is_forced, get_from_db, get_from_es}
use subtask.Sync.Rounds.{Round, sync_jobs, consider_all, consider, compare, equal}
use subtask.Annotations.Delete.{delete_annotation}
use subtask.Annotations.Queued.{is_there, is_job}
use subtask.Annotations.Removed.{db_row, delete-removes}
use subtask.Tests.Annotations.{root, site, hex, next_id}

abbrev source : Source
source = record { updated = some (time 1); user = some "acct:a@x" }

abbrev search : List String → List Hit
search ids = record { id = "a1"; source = source } ∷ []

abbrev parse : String → Option ℕ
parse s = none

abbrev delete_job : Job
delete_job = record {
  id = 1;
  name = "sync_annotation";
  enqueued_at = 10;
  scheduled_at = 70;
  expires_at = 10 + month;
  priority = single_item;
  tag = "AnnotationDeleteService.delete_annotation";
  annotation_id = "a1";
  force = some false;
}

queued : (delete_annotation hex next_id 10 root site).jobs ≡ delete_job ∷ []
unfolding delete_annotation string_eq add_by_id
queued = refl

searched : get_from_es hex parse search (delete_job ∷ []) ≡ ok (("a1", source) ∷ [])
unfolding get_from_es string_eq
searched = refl

worked :
    (r : Round) × (sync_jobs hex parse search
        (map db_row (delete_annotation hex next_id 10 root site).annotations)
        (delete_job ∷ [])
        (delete_job ∷ [])
      ≡ ok r)
unfolding sync_jobs get_from_db get_from_es consider_all consider compare equal is_forced string_eq
    nat_eq delete_annotation
worked = (_, refl)

delete-removes_example :
    (any (is_job "a1" 10 false) (delete_annotation hex next_id 10 root site).jobs ≡ true)
    × (contains worked.0.to_delete "a1" ≡ true)
unfolding is_there get_from_es is_forced string_eq nat_eq
delete-removes_example =
    delete-removes hex next_id 10 root site hex parse search (delete_job ∷ []) (delete_job ∷ [])
      worked.0 (("a1", source) ∷ []) source refl refl searched refl worked.1
