-- ===== src/Services/Nipsa/Cached.antt =====
-- The cache of the flagged userids against the table of users.
use mathlib.Core.Path.{subst}
use subtask.Base.{
  String, Bool, true, false, not, ◌&&◌, ◌||◌, ◌≡◌, refl, sym, ◌∙◌, ◌≤◌, length, Option, none, some,
  List, [], ◌∷◌, map, filter, contains, any, All, ◌==◌, string_eq, ok, err, if◌then◌else◌, arith,
  Bool-cases, inl, inr, ok-injective, bind-eq-ok,
}
use subtask.Users.Userid.{format_userid}
use subtask.Services.Nipsa.{
  UserRow, NipsaService, NipsaError, flagged_in, fetch_all_flagged_userids, is_flagged, set_nipsa,
  flag, discard, unflag, clear, one_or_none, user_and_nipsa, has_userid, key_error, remove_cached,
  add_cached,
}

-- The userids that the table has.
abbrev userids_in : List UserRow → List String
userids_in = map (λ u. format_userid u.username u.authority)

-- The cache, if there is one, has the userids of the flagged rows and no other.
abbrev pub IsCached : List UserRow → Option (List String) → Type 0
IsCached users none = Unit
IsCached users (some userids) =
    (userid : String) → contains userids userid ≡ contains (flagged_in users) userid

flagged_in-set_nipsa :
    (userid : String) (nipsa : Bool) (users : List UserRow) (id : String)
    → contains (flagged_in (set_nipsa userid nipsa users)) id ≡ (
        if userid == id
        then nipsa && contains (userids_in users) id
        else contains (flagged_in users) id)
unfolding set_nipsa
flagged_in-set_nipsa userid nipsa [] id = ground arith
flagged_in-set_nipsa userid nipsa (u ∷ users) id =
    ground (arith, flagged_in-set_nipsa userid nipsa users id)

contains-discard :
    (userid : String) (userids : List String) (id : String)
    → contains (discard userid userids) id ≡ (contains userids id && not (userid == id))
contains-discard userid [] id = refl
contains-discard userid (x ∷ xs) id = ground (arith, contains-discard userid xs id)

-- What a chain of `query` calls finds: the truth value of `user and user.nipsa`.
abbrev pub truth : Option Bool → Bool
truth none = false
truth (some b) = b

-- The query for the userid finds at most one row, and finds the rows that spell it so and no other.
pub record IsSpelled (lower : String → String) (userid : String) (users : List UserRow)
    : Type 0 where
  pub once : length (filter (has_userid lower userid) users) ≤ 1
  pub exact :
      All (λ u. has_userid lower userid u ≡ (format_userid u.username u.authority == userid)) users

flag_cache :
    (userid : String) (users : List UserRow) (cache : Option (List String))
    → contains (userids_in users) userid ≡ true
    → IsCached users cache
    → IsCached (set_nipsa userid true users) (add_cached userid cache)
flag_cache userid users none known h = tt
flag_cache userid users (some userids) known h =
    λ id. ground (arith, flagged_in-set_nipsa userid true users id, h id)

unflag_cache :
    (userid : String) (users : List UserRow) (cache : Option (List String))
    → {cache' : Option (List String)} → IsCached users cache
    → remove_cached userid cache ≡ ok cache'
    → IsCached (set_nipsa userid false users) cache'
unfolding remove_cached
unflag_cache userid users none {cache'} h k =
    subst (IsCached (set_nipsa userid false users)) (ok-injective {E = NipsaError} none cache' k) tt
unflag_cache userid users (some userids) {cache'} h k =
    elim (Bool-cases (contains userids userid)) [
      | inl known ↦
          subst (IsCached (set_nipsa userid false users))
            (ok-injective {E = NipsaError} (some (discard userid userids)) cache' (ground arith))
            (λ id. ground (
              arith,
              flagged_in-set_nipsa userid false users id,
              contains-discard userid userids id,
              h id,
            ))
      | inr unknown ↦ ground arith
    ]

-- To flag a user of the table keeps the cache as the table is.
pub flag-IsCached :
    (userid : String) (s : NipsaService)
    → contains (userids_in s.users) userid ≡ true
    → IsCached s.users s.flagged_userids
    → IsCached (flag userid s).users (flag userid s).flagged_userids
unfolding flag
flag-IsCached userid s known h = flag_cache userid s.users s.flagged_userids known h

-- To unflag a user keeps the cache as the table is, unless it raises.
pub unflag-IsCached :
    (userid : String) (s : NipsaService) {s' : NipsaService}
    → IsCached s.users s.flagged_userids
    → unflag userid s ≡ ok s'
    → IsCached s'.users s'.flagged_userids
unfolding unflag
unflag-IsCached userid s {s'} h k =
    let (cache, removed, rest) = bind-eq-ok (remove_cached userid s.flagged_userids) _ k in
    subst (λ t. IsCached t.users t.flagged_userids) (ok-injective {E = NipsaError} _ s' rest)
      (unflag_cache userid s.users s.flagged_userids h removed)

fetch_cache :
    (s : NipsaService) (cache : Option (List String))
    → s.flagged_userids ≡ cache
    → IsCached s.users cache
    → (userid : String)
    → contains (fetch_all_flagged_userids s).0 userid ≡ contains (flagged_in s.users) userid
unfolding fetch_all_flagged_userids
fetch_cache s none p h = rw p (λ id. refl)
fetch_cache s (some userids) p h = rw p (λ id. h id)

contains-flagged_in :
    (lower : String → String) (userid : String) (users : List UserRow)
    → All (λ u. has_userid lower userid u ≡ (format_userid u.username u.authority == userid)) users
    → contains (flagged_in users) userid
      ≡ any (λ u. u.nipsa) (filter (has_userid lower userid) users)
contains-flagged_in lower userid [] h = refl
contains-flagged_in lower userid (u ∷ users) (h, hs) =
    ground (arith, contains-flagged_in lower userid users hs)

truth-one_or_none :
    (rows : List UserRow)
    → length rows ≤ 1
    → (answer : Option Bool) × (user_and_nipsa (one_or_none rows) ≡ ok answer)
      × (truth answer ≡ any (λ row. row.nipsa) rows)
unfolding one_or_none user_and_nipsa
truth-one_or_none [] h = (none, refl, refl)
truth-one_or_none (row ∷ []) h = (some row.nipsa, refl, ground arith)
truth-one_or_none (row ∷ next ∷ rows) h = ground arith

is_flagged_cache :
    (userid : String) (s : NipsaService) (cache : Option (List String))
    → s.flagged_userids ≡ cache
    → IsSpelled s.lower userid s.users
    → IsCached s.users cache
    → (answer : Option Bool) × (is_flagged userid s ≡ ok answer)
      × (truth answer ≡ contains (flagged_in s.users) userid)
unfolding is_flagged
is_flagged_cache userid s none p one h =
    let (answer, found, same) =
      truth-one_or_none (filter (has_userid s.lower userid) s.users) one.once in
    (answer, rw p found, same ∙ sym (contains-flagged_in s.lower userid s.users one.exact))
is_flagged_cache userid s (some userids) p one h =
    (some (contains userids userid), rw p refl, h userid)

-- If the query for the userid finds at most one row, and finds the rows that spell it so and no other, and the
-- cache is as the table is, then is_flagged returns, and its truth value says whether the userid is one of
-- the flagged rows', cached or not.
pub is_flagged-flagged_in :
    (userid : String) (s : NipsaService)
    → IsSpelled s.lower userid s.users
    → IsCached s.users s.flagged_userids
    → (answer : Option Bool) × (is_flagged userid s ≡ ok answer)
      × (truth answer ≡ contains (flagged_in s.users) userid)
is_flagged-flagged_in userid s one h = is_flagged_cache userid s s.flagged_userids refl one h

-- If the cache is as the table is, fetch_all_flagged_userids returns the userids of the flagged
-- rows.
pub fetch_all_flagged_userids-flagged_in :
    (s : NipsaService)
    → IsCached s.users s.flagged_userids
    → (userid : String)
    → contains (fetch_all_flagged_userids s).0 userid ≡ contains (flagged_in s.users) userid
fetch_all_flagged_userids-flagged_in s h = fetch_cache s s.flagged_userids refl h

-- To unflag a user that the cache does not have raises KeyError, and with no cache it does not.
pub unflag-raises :
    (userid : String) (s : NipsaService) (userids : List String)
    → s.flagged_userids ≡ some userids
    → contains userids userid ≡ false
    → (unflag userid s ≡ err (key_error userid))
      × ((s' : NipsaService) × (unflag userid (clear s) ≡ ok s'))
unfolding unflag clear remove_cached
unflag-raises userid s userids p h = (ground arith, (_, refl))

-- After a user of the table was flagged, the flagged userids are those from before and the user's.
pub flagged_in-flag :
    (userid : String) (s : NipsaService) (id : String)
    → contains (userids_in s.users) userid ≡ true
    → contains (flagged_in (flag userid s).users) id
      ≡ (userid == id || contains (flagged_in s.users) id)
unfolding flag
flagged_in-flag userid s id known = ground (arith, flagged_in-set_nipsa userid true s.users id)
