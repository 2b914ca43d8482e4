-- ===== src/Services/Flag/Counts.antt =====
-- How often annotations are flagged: the counts against the table.
use subtask.Base.{
  ℕ, String, false, ◌≡◌, refl, ap, Option, none, some, List, [], ◌∷◌, ◌++◌, contains, get,
  get-append, string_eq, if◌then◌else◌, arith, Bool-cases, inl, inr,
}
use subtask.Models.{Annotation}
use subtask.Services.Flag.{
  Flag, FlagService, count_of, flag_count, count_in, group_counts, add_missing, flag_counts,
}

-- Each count of the cache is the one of the table.
abbrev pub IsCounted : List Flag → List (String × ℕ) → Type 0
IsCounted flags counts = (id : String) (n : ℕ) → get id counts ≡ some n → n ≡ count_of id flags

-- A count that a dictionary may lack.
abbrev or_zero : Option ℕ → ℕ
or_zero none = 0
or_zero (some n) = n

get-group_counts :
    (ids : List String) (flags : List Flag) (id : String)
    → or_zero (get id (group_counts ids flags)) ≡ (if contains ids id then count_of id flags else 0)
unfolding group_counts count_in count_of
get-group_counts ids [] id = ground arith
get-group_counts ids (f ∷ flags) id = elim (string_eq.dec id f.annotation_id) [
  | yes same ↦ ground (
    arith,
    get-group_counts ids flags id,
    ap (contains ids) same,
    ap (λ i. get i (group_counts ids flags)) same,
  )
  | no differ ↦ ground (arith, get-group_counts ids flags id)
]

get-group_counts_other :
    (ids : List String) (flags : List Flag) (id : String)
    → contains ids id ≡ false
    → get id (group_counts ids flags) ≡ none
unfolding group_counts count_in
get-group_counts_other ids [] id h = refl
get-group_counts_other ids (f ∷ flags) id h = elim (string_eq.dec id f.annotation_id) [
  | yes same ↦ ground (arith, get-group_counts_other ids flags id h, ap (contains ids) same)
  | no differ ↦ ground (arith, get-group_counts_other ids flags id h)
]

get-add_missing :
    (ids : List String) (counts : List (String × ℕ)) (id : String)
    → get id (add_missing ids counts)
      ≡ elim (get id counts) [ some n ↦ some n | none ↦ if contains ids id then some 0 else none ]
unfolding add_missing
get-add_missing [] counts id = ground arith
get-add_missing (x ∷ ids) counts id = elim (string_eq.dec id x) [
  | yes same ↦ ground (arith, get-add_missing ids counts id, ap (λ i. get i counts) same)
  | no differ ↦ ground (arith, get-add_missing ids counts id)
]

counted_case :
    (annotation : Annotation) (s : FlagService) (cached : Option ℕ)
    → get annotation.id s.flag_count_cache ≡ cached
    → IsCounted s.flags s.flag_count_cache
    → ((flag_count (some annotation) s).0 ≡ count_of annotation.id s.flags)
      × ((flag_count (some annotation) s).1.flags ≡ s.flags)
unfolding flag_count
counted_case annotation s none p h = rw (p, flag_count) (refl, refl)
counted_case annotation s (some n) p h = rw (p, flag_count) (h annotation.id n p, refl)

-- If the cache is as the table is, flag_count returns how often the annotation is flagged, and
-- keeps the table.
pub flag_count-count_of :
    (annotation : Annotation) (s : FlagService)
    → IsCounted s.flags s.flag_count_cache
    → ((flag_count (some annotation) s).0 ≡ count_of annotation.id s.flags)
      × ((flag_count (some annotation) s).1.flags ≡ s.flags)
flag_count-count_of annotation s h =
    counted_case annotation s (get annotation.id s.flag_count_cache) refl h

grouped_case :
    (ids : List String) (flags : List Flag) (id : String) (grouped : Option ℕ)
    → get id (group_counts ids flags) ≡ grouped
    → get id (add_missing ids (group_counts ids flags))
      ≡ (if contains ids id then some (count_of id flags) else none)
grouped_case ids flags id none p =
    ground (arith, get-add_missing ids (group_counts ids flags) id, get-group_counts ids flags id)
grouped_case ids flags id (some n) p = elim (Bool-cases (contains ids id)) [
  | inl asked ↦
      ground (arith, get-add_missing ids (group_counts ids flags) id, get-group_counts ids flags id)
  | inr other ↦ ground (
    arith,
    get-add_missing ids (group_counts ids flags) id,
    get-group_counts_other ids flags id other,
  )
]

-- For annotation ids, flag_counts returns a dictionary that has of each how often it is flagged,
-- and of no other id.
pub flag_counts-count_of :
    (ids : List String) (s : FlagService) (id : String)
    → get id (flag_counts ids s).0 ≡ (if contains ids id then some (count_of id s.flags) else none)
unfolding flag_counts
flag_counts-count_of [] s id = refl
flag_counts-count_of (i ∷ ids) s id =
    grouped_case (i ∷ ids) s.flags id (get id (group_counts (i ∷ ids) s.flags)) refl

counts_case :
    (ids : List String) (s : FlagService) (id : String) (n : ℕ)
    → IsCounted s.flags s.flag_count_cache
    → get id ((flag_counts ids s).0 ++ s.flag_count_cache) ≡ some n
    → n ≡ count_of id s.flags
counts_case ids s id n h k = ground (
  arith,
  get-append id (flag_counts ids s).0 s.flag_count_cache,
  flag_counts-count_of ids s id,
  h id n,
)

-- flag_counts keeps the table, and a cache of counts that is as the table is.
pub flag_counts-IsCounted :
    (ids : List String) (s : FlagService)
    → IsCounted s.flags s.flag_count_cache
    → IsCounted (flag_counts ids s).1.flags (flag_counts ids s).1.flag_count_cache
unfolding flag_counts
flag_counts-IsCounted [] s h = h
flag_counts-IsCounted (i ∷ ids) s h = λ id n k. counts_case (i ∷ ids) s id n h k
