-- ===== src/Activity.antt =====
-- activity/bucketing.py: the annotations of the activity pages by timeframe and document. A bucket has the
-- annotations, tags and users of a document; its title and links are left out. `month_start` is
-- midnight of the first day of a time's month, and `label_of` how its month is written.
pub mod Bucketed
use subtask.Base.{
  ℕ, ◌-◌, ◌*◌, String, Bool, true, false, List, [], ◌∷◌, ◌++◌, contains, leb, ◌==◌, nat_eq,
  string_eq, if◌then◌else◌,
}

pub record Activity : Type 0 where
  pub id : String
  pub updated : ℕ
  pub document : ℕ
  pub userid : String
  pub tags : List String

pub record DocumentBucket : Type 0 where
  pub annotations : List Activity
  pub tags : List String
  pub users : List String

pub data Label : Type 0 where
  last_7_days : Label
  month_of : String → Label

pub record Timeframe : Type 0 where
  pub label : Label
  pub cutoff_time : ℕ
  pub document_buckets : List (ℕ × DocumentBucket)

abbrev pub add_to_set : String → List String → List String
add_to_set x set = if contains set x then set else set ++ (x ∷ [])

abbrev pub add_all_to_set : List String → List String → List String
add_all_to_set [] set = set
add_all_to_set (x ∷ xs) set = add_all_to_set xs (add_to_set x set)

abbrev pub empty_bucket : DocumentBucket
empty_bucket = record { annotations = []; tags = []; users = [] }

-- `DocumentBucket.append`
unfoldable pub bucket_append : Activity → DocumentBucket → DocumentBucket
bucket_append a b = record {
  annotations = b.annotations ++ (a ∷ []);
  tags = add_all_to_set a.tags b.tags;
  users = add_to_set a.userid b.users;
}

-- The bucket of the annotation's document, which is made if it is not there.
unfoldable pub append_to : Activity → List (ℕ × DocumentBucket) → List (ℕ × DocumentBucket)
unfolding bucket_append
append_to a [] = (a.document, bucket_append a empty_bucket) ∷ []
append_to a ((document, b) ∷ buckets) =
    let rest = append_to a buckets in
    if document == a.document then (document, bucket_append a b) ∷ buckets else (document, b) ∷ rest

-- `Timeframe.append`
abbrev pub timeframe_append : Activity → Timeframe → Timeframe
timeframe_append a t = record t { document_buckets = append_to a t.document_buckets }

unfoldable pub within_cutoff : Activity → Timeframe → Bool
within_cutoff a t = leb t.cutoff_time a.updated

abbrev pub seven_days : ℕ
seven_days = 7 * 86400

module _ (month_start : ℕ → ℕ) (label_of : ℕ → String) where
  abbrev pub month_timeframe : Activity → Timeframe
  month_timeframe a = record {
    label = month_of (label_of a.updated);
    cutoff_time = month_start a.updated;
    document_buckets = [];
  }

  -- `TimeframeGenerator.next`: the timeframe, and those that are left.
  unfoldable pub next : Activity → List Timeframe → Timeframe × List Timeframe
  unfolding within_cutoff
  next a [] = (month_timeframe a, [])
  next a (t ∷ timeframes) =
      let rest = next a timeframes in if within_cutoff a t then (t, timeframes) else rest

  -- The loop, with the last timeframe apart from those before it.
  unfoldable pub bucket_from :
      List Activity → List Timeframe → Timeframe → List Timeframe → List Timeframe
  unfolding next append_to
  bucket_from [] timeframes last left = timeframes ++ (last ∷ [])
  bucket_from (a ∷ annotations) timeframes last left =
      let same = bucket_from annotations timeframes (timeframe_append a last) left in
      let (fresh, rest) = next a left in
      let other =
        bucket_from annotations (timeframes ++ (last ∷ [])) (timeframe_append a fresh) rest in
      if within_cutoff a last then same else other

  unfoldable pub bucket : ℕ → List Activity → List Timeframe
  unfolding bucket_from
  bucket now [] = []
  bucket now (a ∷ annotations) =
      let week : Timeframe = record {
        label = last_7_days;
        cutoff_time = now - seven_days;
        document_buckets = [];
      } in
      let (first_, left) = next a (week ∷ []) in bucket_from (a ∷ annotations) [] first_ left
