-- ===== src/Services/Flag/Cached.antt =====
-- Which annotations a user has flagged: the cache against the table.
use mathlib.Core.List.{append-nil}
use subtask.Base.{
  ℕ, String, Bool, true, false, ◌&&◌, ◌||◌, ◌≡◌, refl, sym, ap, ◌∙◌, Option, none, some, List, [],
  ◌∷◌, ◌++◌, contains, nat_eq, string_eq, if◌then◌else◌, arith, Bool-cases, inl, inr,
}
use subtask.Models.{User, Annotation}
use subtask.Services.Flag.{
  Flag, CacheEntry, FlagService, is_by, flag_of, has_flag, cached_answer, put_answer, flagged,
  create, prime, flagged_ids_of, all_flagged,
}

-- Each answer of the cache is what the table says.
abbrev pub IsCached : List Flag → List CacheEntry → Type 0
IsCached flags [] = Unit
IsCached flags (entry ∷ cache) =
    (entry.is_flagged ≡ has_flag entry.user_id entry.annotation_id flags) × IsCached flags cache

cached_answer-has_flag :
    (flags : List Flag) (cache : List CacheEntry) (user_id : ℕ) (id : String) (answer : Bool)
    → IsCached flags cache
    → cached_answer user_id id cache ≡ some answer
    → answer ≡ has_flag user_id id flags
unfolding cached_answer
cached_answer-has_flag flags [] user_id id answer h k = ground arith
cached_answer-has_flag flags (entry ∷ cache) user_id id answer (h, hs) k =
    ground (arith, cached_answer-has_flag flags cache user_id id answer hs)

has_flag-cons :
    (user_id : ℕ) (id : String) (f : Flag) (flags : List Flag)
    → has_flag user_id id (f ∷ flags) ≡ (is_by user_id id f || has_flag user_id id flags)
unfolding has_flag
has_flag-cons user_id id f flags = ground arith

has_flag-none : (user_id : ℕ) (id : String) → has_flag user_id id [] ≡ false
unfolding has_flag nat_eq
has_flag-none user_id id = refl

flagged_ids-has_flag :
    (user_id : ℕ) (ids : List String) (flags : List Flag) (id : String)
    → contains (flagged_ids_of user_id ids flags) id
      ≡ (contains ids id && has_flag user_id id flags)
unfolding flagged_ids_of
flagged_ids-has_flag user_id ids [] id = ground (arith, has_flag-none user_id id)
flagged_ids-has_flag user_id ids (f ∷ flags) id = elim (string_eq.dec f.annotation_id id) [
  | yes same ↦ ground (
    arith,
    flagged_ids-has_flag user_id ids flags id,
    has_flag-cons user_id id f flags,
    ap (contains ids) same,
  )
  | no differ ↦
      ground (arith, flagged_ids-has_flag user_id ids flags id, has_flag-cons user_id id f flags)
]

prime-IsCached :
    (flags : List Flag) (user_id : ℕ) (all_ids ids : List String) (cache : List CacheEntry)
    → ((id : String) → contains ids id ≡ true → contains all_ids id ≡ true)
    → IsCached flags cache
    → IsCached flags (prime user_id (flagged_ids_of user_id all_ids flags) ids cache)
unfolding prime
prime-IsCached flags user_id all_ids [] cache sub h = h
prime-IsCached flags user_id all_ids (id ∷ ids) cache sub h =
    prime-IsCached flags user_id all_ids ids _ (λ i k. sub i (ground arith))
      (ground (arith, flagged_ids-has_flag user_id all_ids flags id, sub id (ground arith)), h)

-- The service after a call keeps the table, and a cache that is as the table is.
abbrev pub IsKept : FlagService → FlagService → Type 0
IsKept s s' = (s'.flags ≡ s.flags) × IsCached s'.flags s'.flagged_cache

flagged_cached :
    (user : User) (annotation : Annotation) (s : FlagService) (answer : Option Bool)
    → cached_answer user.id annotation.id s.flagged_cache ≡ answer
    → IsCached s.flags s.flagged_cache
    → ((flagged (some user) (some annotation) s).0 ≡ has_flag user.id annotation.id s.flags)
      × IsKept s (flagged (some user) (some annotation) s).1
unfolding flagged
flagged_cached user annotation s none p h = rw (p, flagged) (refl, (refl, (refl, h)))
flagged_cached user annotation s (some answer) p h =
    rw (p, flagged)
      (cached_answer-has_flag s.flags s.flagged_cache user.id annotation.id answer h p, (refl, h))

-- If the cache is as the table is, flagged says whether the user has flagged the annotation, and
-- keeps the table and the cache so.
pub flagged-has_flag :
    (user : User) (annotation : Annotation) (s : FlagService)
    → IsCached s.flags s.flagged_cache
    → ((flagged (some user) (some annotation) s).0 ≡ has_flag user.id annotation.id s.flags)
      × IsKept s (flagged (some user) (some annotation) s).1
flagged-has_flag user annotation s h =
    flagged_cached user annotation s (cached_answer user.id annotation.id s.flagged_cache) refl h

-- If the cache is as the table is, all_flagged returns those of the annotation ids that the user
-- has flagged and no other, and keeps the table and the cache so.
pub all_flagged-has_flag :
    (user : User) (ids : List String) (s : FlagService)
    → IsCached s.flags s.flagged_cache
    → ((id : String)
        → contains (all_flagged (some user) ids s).0 id
          ≡ (contains ids id && has_flag user.id id s.flags))
      × IsKept s (all_flagged (some user) ids s).1
unfolding all_flagged
all_flagged-has_flag user [] s h = ((λ id. refl), (refl, h))
all_flagged-has_flag user (id ∷ ids) s h = (
  flagged_ids-has_flag user.id (id ∷ ids) s.flags,
  (refl, prime-IsCached s.flags user.id (id ∷ ids) (id ∷ ids) s.flagged_cache (λ i k. k) h),
)

cached_answer-put :
    (user_id : ℕ) (id : String) (b : Bool) (cache : List CacheEntry)
    → cached_answer user_id id (put_answer user_id id b cache) ≡ some b
unfolding cached_answer
cached_answer-put user_id id b cache = ground arith

flagged_again :
    (user : User) (annotation : Annotation) (s : FlagService) (answer : Option Bool)
    → cached_answer user.id annotation.id s.flagged_cache ≡ answer
    → cached_answer user.id annotation.id (flagged (some user) (some annotation) s).1.flagged_cache
      ≡ some (flagged (some user) (some annotation) s).0
unfolding flagged
flagged_again user annotation s none p =
    rw (p, flagged) (cached_answer-put user.id annotation.id _ s.flagged_cache)
flagged_again user annotation s (some answer) p = rw (p, flagged) p

flagged_answer :
    (user : User) (annotation : Annotation) (s : FlagService) (answer : Bool)
    → cached_answer user.id annotation.id s.flagged_cache ≡ some answer
    → (flagged (some user) (some annotation) s).0 ≡ answer
unfolding flagged
flagged_answer user annotation s answer p = rw (p, flagged) refl

has_flag-append :
    (user : User) (annotation : Annotation) (flags : List Flag)
    → has_flag user.id annotation.id (flags ++ (flag_of user annotation ∷ [])) ≡ true
has_flag-append user annotation [] = ground (
  arith,
  has_flag-cons user.id annotation.id (flag_of user annotation) [],
  has_flag-none user.id annotation.id,
)
has_flag-append user annotation (f ∷ flags) = ground (
  arith,
  has_flag-append user annotation flags,
  has_flag-cons user.id annotation.id f (flags ++ (flag_of user annotation ∷ [])),
)

create-flags :
    (user : User) (annotation : Annotation) (s : FlagService) (b : Bool)
    → (flagged (some user) (some annotation) s).0 ≡ b
    → (create user annotation s).flags
      ≡ (flagged (some user) (some annotation) s).1.flags
        ++ (if b then [] else flag_of user annotation ∷ [])
unfolding create
create-flags user annotation s true p = rw p (sym (append-nil _))
create-flags user annotation s false p = rw p refl

-- If the cache is as the table is, create adds a row for the user and the annotation if the table
-- has none, and no row if it has one.
pub create-has_flag :
    (user : User) (annotation : Annotation) (s : FlagService)
    → IsCached s.flags s.flagged_cache
    → (create user annotation s).flags
      ≡ s.flags
        ++ (if has_flag user.id annotation.id s.flags then [] else flag_of user annotation ∷ [])
create-has_flag user annotation s h =
    let (answer, (kept, _)) = flagged-has_flag user annotation s h in
    create-flags user annotation s (has_flag user.id annotation.id s.flags) answer
    ∙ ap
        (λ flags.
          flags
          ++ (if has_flag user.id annotation.id s.flags then [] else flag_of user annotation ∷ []))
        kept

create_cache :
    (user : User) (annotation : Annotation) (s : FlagService)
    → (create user annotation s).flagged_cache
      ≡ (flagged (some user) (some annotation) s).1.flagged_cache
unfolding create
create_cache user annotation s = elim (Bool-cases (flagged (some user) (some annotation) s).0) [
  | inl p ↦ rw p refl
  | inr p ↦ rw p refl
]

-- If the cache is as the table is and the user has not flagged the annotation, then after create
-- the table has the flag and flagged says that it has not.
pub create-flagged :
    (user : User) (annotation : Annotation) (s : FlagService)
    → IsCached s.flags s.flagged_cache
    → has_flag user.id annotation.id s.flags ≡ false
    → (has_flag user.id annotation.id (create user annotation s).flags ≡ true)
      × ((flagged (some user) (some annotation) (create user annotation s)).0 ≡ false)
create-flagged user annotation s h k = (
  ap (has_flag user.id annotation.id) (create-has_flag user annotation s h)
      ∙ ap
          (λ b.
            has_flag user.id annotation.id
              (s.flags ++ (if b then [] else flag_of user annotation ∷ [])))
          k
      ∙ has_flag-append user annotation s.flags,
  flagged_answer user annotation (create user annotation s) false (
      ap (cached_answer user.id annotation.id) (create_cache user annotation s)
      ∙ flagged_again user annotation s _ refl
      ∙ ap some ((flagged-has_flag user annotation s h).0 ∙ k)),
)
