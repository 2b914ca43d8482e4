-- ===== src/Sync/Counter.antt =====
-- The Counter of services/annotation_sync.py: what a round has decided, and its metrics. Sets are
-- lists to which nothing is added that they have.
use subtask.Base.{
  ℕ, String, Bool, true, false, none, some, List, [], ◌∷◌, map, contains, length, get, put, ◌==◌,
  nat_eq, string_eq, ◌<>◌, if◌then◌else◌,
}
use subtask.Sync.Queue.{Job}

pub data Metric : Type 0 where
  synced_missing synced_deleted synced_different synced_forced synced_tag_total synced_total
        completed_up_to_date completed_deleted completed_forced completed_tag_total
        completed_total :
      Metric

-- `metric.format(tag=tag)`
unfoldable pub format : Metric → String → String
format synced_missing tag = "Synced/" <> tag <> "/Missing_from_Elastic"
format synced_deleted tag = "Synced/" <> tag <> "/Deleted_from_db"
format synced_different tag = "Synced/" <> tag <> "/Different_in_Elastic"
format synced_forced tag = "Synced/" <> tag <> "/Forced"
format synced_tag_total tag = "Synced/" <> tag <> "/Total"
format synced_total tag = "Synced/Total"
format completed_up_to_date tag = "Completed/" <> tag <> "/Up_to_date_in_Elastic"
format completed_deleted tag = "Completed/" <> tag <> "/Deleted_from_db"
format completed_forced tag = "Completed/" <> tag <> "/Forced"
format completed_tag_total tag = "Completed/" <> tag <> "/Total"
format completed_total tag = "Completed/Total"

-- What is counted under a metric: an annotation id, or the id of a job.
pub data Item : Type 0 where
  annotation : String → Item
  job : ℕ → Item

abbrev pub same_item : Item → Item → Bool
same_item (annotation a) (annotation b) = a == b
same_item (annotation a) (job n) = false
same_item (job m) (annotation b) = false
same_item (job m) (job n) = m == n

abbrev pub has_item : List Item → Item → Bool
has_item [] i = false
has_item (x ∷ xs) i = let rest = has_item xs i in if same_item x i then true else rest

abbrev pub items_at : String → List (String × List Item) → List Item
items_at key counts = elim (get key counts) [ none ↦ [] | some items ↦ items ]

-- `self._counts[key].add(item)`
unfoldable pub add_count : String → Item → List (String × List Item) → List (String × List Item)
add_count key i counts =
    let items = items_at key counts in
    put key (if has_item items i then items else i ∷ items) counts

abbrev pub add_id : String → List String → List String
add_id id ids = if contains ids id then ids else id ∷ ids

-- A job is a row of the table: the one of its id.
abbrev pub has_job : ℕ → List Job → Bool
has_job id [] = false
has_job id (j ∷ jobs) = let rest = has_job id jobs in if j.id == id then true else rest

pub record Counter : Type 0 where
  pub item_counts : List (String × List Item)
  pub annotation_ids_to_sync : List String
  pub annotation_ids_to_delete : List String
  pub jobs_to_delete : List Job

abbrev pub empty : Counter
empty = record {
  item_counts = [];
  annotation_ids_to_sync = [];
  annotation_ids_to_delete = [];
  jobs_to_delete = [];
}

-- `url_safe` is `URLSafeUUID.hex_to_url_safe` of db/types.py.
module _ (url_safe : String → String) where
  abbrev pub annotation_counts :
      Metric → Job → List (String × List Item) → List (String × List Item)
  annotation_counts metric j counts =
      let i = annotation (url_safe j.annotation_id) in
      add_count (format synced_total j.tag) i
        (add_count (format synced_tag_total j.tag) i (add_count (format metric j.tag) i counts))

  unfoldable pub annotation_synced : Metric → Job → Counter → Counter
  unfolding add_count format
  annotation_synced metric j c = record c {
    annotation_ids_to_sync = add_id (url_safe j.annotation_id) c.annotation_ids_to_sync;
    item_counts = annotation_counts metric j c.item_counts;
  }

  unfoldable pub annotation_deleted : Metric → Job → Counter → Counter
  unfolding add_count format
  annotation_deleted metric j c = record c {
    annotation_ids_to_delete = add_id (url_safe j.annotation_id) c.annotation_ids_to_delete;
    item_counts = annotation_counts metric j c.item_counts;
  }

unfoldable pub job_completed : Metric → Job → Counter → Counter
unfolding add_count format
job_completed metric j c = record c {
  jobs_to_delete = if has_job j.id c.jobs_to_delete then c.jobs_to_delete else j ∷ c.jobs_to_delete;
  item_counts = add_count (format completed_total j.tag) (job j.id) (
      add_count (format completed_tag_total j.tag) (job j.id)
        (add_count (format metric j.tag) (job j.id) c.item_counts));
}

-- `{key: len(value) for key, value in self._counts.items()}`
unfoldable pub counts : Counter → List (String × ℕ)
counts c = map (λ (key, items). (key, length items)) c.item_counts
