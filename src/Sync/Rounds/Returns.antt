-- ===== src/Sync/Rounds/Returns.antt =====
-- Rounds that raise nothing.
use mathlib.Core.Path.{subst}
use mathlib.Core.Option.{some-injective}
use subtask.Base.{
  ℕ, String, Bool, false, ◌≡◌, refl, Option, none, some, List, [], ◌∷◌, get, All, ◌==◌, nat_eq,
  string_eq, ok, if◌then◌else◌, Bool-cases, inl, inr, arith,
}
use subtask.Sync.Queue.{Job}
use subtask.Sync.Counter.{
  Counter, job_completed, annotation_synced, completed_up_to_date, synced_different,
  completed_forced, synced_forced,
}
use subtask.Sync.Helpers.{DbAnnotation, Source, Updated, is_forced}
use subtask.Sync.Rounds.{same_updated, same_user, equal, compare, consider, consider_all}

-- A source that has both keys.
abbrev pub IsWhole : Source → Type 0
IsWhole source =
    ((u : Updated) × (source.updated ≡ some u)) × ((user : String) × (source.user ≡ some user))

updated_returns : (u : Updated) (t : ℕ) → (b : Bool) × (same_updated (some u) t ≡ ok b)
unfolding same_updated
updated_returns (Updated.text s) t = (false, refl)
updated_returns (Updated.time s) t = (s == t, refl)

equal_returns :
    (source : Source) (a : DbAnnotation) → IsWhole source → (b : Bool) × (equal source a ≡ ok b)
unfolding equal same_user
equal_returns source a ((u, p), (user, q)) =
    let (same, r) = updated_returns u a.updated in
    elim (Bool-cases same) [
      | inl yes_same ↦ (user == a.userid, ground arith)
      | inr no_same ↦ (false, ground arith)
    ]

get-IsWhole :
    (id : String) (from_es : List (String × Source)) (source : Source)
    → All (λ (_, s). IsWhole s) from_es
    → get id from_es ≡ some source
    → IsWhole source
get-IsWhole id [] source h p = ground arith
get-IsWhole id ((key, s) ∷ from_es) source (h, hs) p = elim (Bool-cases (id == key)) [
  | inl same ↦ subst IsWhole (some-injective s source (ground arith)) h
  | inr other ↦ get-IsWhole id from_es source hs (ground arith)
]

compare_returns :
    (url_safe : String → String) (a : Option DbAnnotation) (source : Option Source) (job : Job)
    (c : Counter)
    → ((s : Source) → source ≡ some s → IsWhole s)
    → (c' : Counter) × (compare url_safe a source job c ≡ ok c')
unfolding compare
compare_returns url_safe none none job c h = (_, refl)
compare_returns url_safe none (some source) job c h = (_, refl)
compare_returns url_safe (some a) none job c h = (_, refl)
compare_returns url_safe (some a) (some source) job c h =
    let (same, p) = equal_returns source a (h source refl) in
    (
      if same
          then job_completed completed_up_to_date job c
          else annotation_synced url_safe synced_different job c,
      rw (p, compare) refl,
    )

consider_returns :
    (url_safe : String → String) (from_db : List (String × DbAnnotation))
    (from_es : List (String × Source)) (job : Job) (c : Counter)
    → All (λ (_, s). IsWhole s) from_es
    → (c' : Counter) × (consider url_safe from_db from_es job c ≡ ok c')
unfolding consider
consider_returns url_safe from_db from_es job c h = elim (Bool-cases (is_forced job)) [
  | inl forced ↦ (
    job_completed completed_forced job (annotation_synced url_safe synced_forced job c),
    rw forced refl,
  )
  | inr other ↦
      let (c', p) =
        compare_returns url_safe (get (url_safe job.annotation_id) from_db)
          (get (url_safe job.annotation_id) from_es) job c
          (λ s q. get-IsWhole (url_safe job.annotation_id) from_es s h q) in
      (c', rw other p)
]

-- If each source of the search has both of its keys, the loop over the jobs returns.
pub consider_all-Returns :
    (url_safe : String → String) (from_db : List (String × DbAnnotation))
    (from_es : List (String × Source)) (jobs : List Job) (c : Counter)
    → All (λ (_, s). IsWhole s) from_es
    → (c' : Counter) × (consider_all url_safe from_db from_es jobs c ≡ ok c')
unfolding consider_all
consider_all-Returns url_safe from_db from_es [] c h = (c, refl)
consider_all-Returns url_safe from_db from_es (job ∷ jobs) c h =
    let (c1, p) = consider_returns url_safe from_db from_es job c h in
    let (c2, q) = consider_all-Returns url_safe from_db from_es jobs c1 h in
    (c2, rw (p, consider_all) q)
