-- ===== src/Services/Flag.antt =====
-- services/flag.py: the flags that users put on annotations, and the two caches of the service.
-- Sets are lists, of which only the members count.
pub mod Cached
pub mod Counts
use subtask.Base.{
  ℕ, suc, String, Bool, true, false, not, ◌&&◌, Option, none, some, List, [], ◌∷◌, ◌++◌, map,
  filter, contains, length, get, put, ◌==◌, nat_eq, string_eq, if◌then◌else◌,
}
use subtask.Models.{User, Annotation}

pub record Flag : Type 0 where
  pub user_id : ℕ
  pub annotation_id : String

-- An entry of `_flagged_cache`: its key is `user.id, annotation.id`.
pub record CacheEntry : Type 0 where
  pub user_id : ℕ
  pub annotation_id : String
  pub is_flagged : Bool

-- The table with what was added to the session, and the caches.
pub record FlagService : Type 0 where
  pub flags : List Flag
  pub flagged_cache : List CacheEntry
  pub flag_count_cache : List (String × ℕ)

abbrev pub is_by : ℕ → String → Flag → Bool
is_by user_id annotation_id f = f.user_id == user_id && f.annotation_id == annotation_id

-- `bool(query.first())`
unfoldable pub has_flag : ℕ → String → List Flag → Bool
has_flag user_id annotation_id flags =
    not (length (filter (is_by user_id annotation_id) flags) == 0)

-- `_flagged_cache.get((user_id, annotation_id))`: what was put in last comes first.
unfoldable pub cached_answer : ℕ → String → List CacheEntry → Option Bool
cached_answer user_id annotation_id [] = none
cached_answer user_id annotation_id (entry ∷ cache) =
    let rest = cached_answer user_id annotation_id cache in
    if entry.user_id == user_id && entry.annotation_id == annotation_id
    then some entry.is_flagged
    else rest

abbrev pub put_answer : ℕ → String → Bool → List CacheEntry → List CacheEntry
put_answer user_id annotation_id is_flagged cache =
    record { user_id = user_id; annotation_id = annotation_id; is_flagged = is_flagged } ∷ cache

unfoldable pub flagged : Option User → Option Annotation → FlagService → Bool × FlagService
unfolding cached_answer has_flag
flagged none annotation s = (false, s)
flagged (some user) none s = (false, s)
flagged (some user) (some annotation) s =
    elim (cached_answer user.id annotation.id s.flagged_cache) [
      | some answer ↦ (answer, s)
      | none ↦
          let is_flagged = has_flag user.id annotation.id s.flags in
          (
            is_flagged,
            record s {
              flagged_cache = put_answer user.id annotation.id is_flagged s.flagged_cache;
            },
          )
    ]

-- `Flag(user=user, annotation=annotation)`
abbrev pub flag_of : User → Annotation → Flag
flag_of user annotation = record { user_id = user.id; annotation_id = annotation.id }

unfoldable pub create : User → Annotation → FlagService → FlagService
create user annotation s =
    let (is_flagged, s') = flagged (some user) (some annotation) s in
    if is_flagged then s' else record s' { flags = s'.flags ++ (flag_of user annotation ∷ []) }

-- The loop that fills the cache.
unfoldable pub prime : ℕ → List String → List String → List CacheEntry → List CacheEntry
prime user_id flagged_ids [] cache = cache
prime user_id flagged_ids (id ∷ ids) cache =
    prime user_id flagged_ids ids (put_answer user_id id (contains flagged_ids id) cache)

-- The annotation ids of the query.
unfoldable pub flagged_ids_of : ℕ → List String → List Flag → List String
flagged_ids_of user_id annotation_ids flags =
    map (λ f. f.annotation_id)
      (filter (λ f. contains annotation_ids f.annotation_id && f.user_id == user_id) flags)

unfoldable pub all_flagged : Option User → List String → FlagService → List String × FlagService
unfolding prime flagged_ids_of
all_flagged user [] s = ([], s)
all_flagged none (id ∷ ids) s = ([], s)
all_flagged (some user) (id ∷ ids) s =
    let flagged_ids = flagged_ids_of user.id (id ∷ ids) s.flags in
    (flagged_ids, record s { flagged_cache = prime user.id flagged_ids (id ∷ ids) s.flagged_cache })

-- `count(Flag.id)` where the annotation is this one
unfoldable pub count_of : String → List Flag → ℕ
count_of annotation_id flags = length (filter (λ f. f.annotation_id == annotation_id) flags)

unfoldable pub flag_count : Option Annotation → FlagService → ℕ × FlagService
unfolding count_of
flag_count none s = (0, s)
flag_count (some annotation) s = elim (get annotation.id s.flag_count_cache) [
  | some n ↦ (n, s)
  | none ↦
      let n = count_of annotation.id s.flags in
      (n, record s { flag_count_cache = put annotation.id n s.flag_count_cache })
]

-- One more for a group of `GROUP BY annotation_id`.
unfoldable pub count_in : String → List (String × ℕ) → List (String × ℕ)
count_in annotation_id groups =
    put annotation_id (elim (get annotation_id groups) [ none ↦ 1 | some n ↦ suc n ]) groups

unfoldable pub group_counts : List String → List Flag → List (String × ℕ)
unfolding count_in
group_counts annotation_ids [] = []
group_counts annotation_ids (f ∷ flags) =
    let groups = group_counts annotation_ids flags in
    if contains annotation_ids f.annotation_id then count_in f.annotation_id groups else groups

-- `flag_counts.update({id_: 0 for id_ in missing_ids})`
unfoldable pub add_missing : List String → List (String × ℕ) → List (String × ℕ)
add_missing [] counts = counts
add_missing (id ∷ ids) counts =
    let rest = add_missing ids counts in
    elim (get id counts) [ none ↦ put id 0 rest | some _ ↦ rest ]

unfoldable pub flag_counts : List String → FlagService → List (String × ℕ) × FlagService
unfolding add_missing group_counts
flag_counts [] s = ([], s)
flag_counts (id ∷ ids) s =
    let counts = add_missing (id ∷ ids) (group_counts (id ∷ ids) s.flags) in
    (counts, record s { flag_count_cache = counts ++ s.flag_count_cache })
