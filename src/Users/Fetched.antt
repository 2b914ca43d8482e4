-- ===== src/Users/Fetched.antt =====
-- What the user service finds.
use mathlib.Core.Option.{some-injective}
use subtask.Base.{
  ℕ, String, ◌≡◌, ◌⊎◌, all_chars, inl, inr, ◌∙◌, sym, ap, refl, Bool, true, false, Option, none,
  some, List, [], ◌∷◌, ok, err, ◌>>=◌, ok-injective, string_eq, nat_eq, option_eq, if◌then◌else◌,
  arith, Bool-cases,
}
use subtask.Users.Userid.{split_user, is_no_at}
use subtask.Users.Service.{
  UserRow, Key, same_key, UserService, cached, set_cached, first_row, find_user, fetch_with,
  fetch_by_name, fetch, is_none, LoginError, is_login, normalise_username, lower_email, usable,
  user_not_activated, fetch_for_login,
}

cached-set_cached :
    (key other : Key) (value : Option UserRow) (cache : List (Key × Option UserRow))
    → cached other (set_cached key value cache)
      ≡ (if same_key key other then some value else cached other cache)
unfolding cached set_cached
cached-set_cached key other value [] = refl
cached-set_cached (a, b) (c, d) value (((e, f), v) ∷ cache) =
    ground (arith, cached-set_cached (a, b) (c, d) value cache)

same_key-eq : (a b : Key) → same_key a b ≡ true → a ≡ b
same_key-eq (a, b) (c, d) h =
    let p : a ≡ c = ground arith in
    let q : b ≡ d = ground arith in ap (λ x. (x, b)) p ∙ ap (λ y. (c, y)) q

module _ (lower : String → String) where
  -- Whether the cache has of each of its keys what the table has.
  abbrev pub IsCached : UserService → Type 0
  IsCached svc =
      (key : Key) (found : Option UserRow)
      → cached key svc.cache ≡ some found
      → found ≡ find_user lower key svc.users

  stays_cached :
      (key other : Key) (svc : UserService) (found : Option UserRow) (same : Bool)
      → same_key key other ≡ same
      → IsCached svc
      → (if same then some (find_user lower key svc.users) else cached other svc.cache) ≡ some found
      → found ≡ find_user lower other svc.users
  stays_cached key other svc found true p h q =
      sym (some-injective (find_user lower key svc.users) found q)
      ∙ ap (λ k. find_user lower k svc.users) (same_key-eq key other p)
  stays_cached key other svc found false p h q = h other found q

  fetch_with-find_user :
      (key : Key) (svc : UserService) (o : Option (Option UserRow))
      → cached key svc.cache ≡ o
      → IsCached svc
      → ((fetch_with lower key svc o).0 ≡ find_user lower key svc.users)
        × IsCached (fetch_with lower key svc o).1
  fetch_with-find_user key svc (some found) p h = (h key found p, h)
  fetch_with-find_user key svc none p h = (
    refl,
    λ other found q.
        stays_cached key other svc found (same_key key other) refl h
          (sym (cached-set_cached key other (find_user lower key svc.users) svc.cache) ∙ q),
  )

  -- If the cache has of its keys what the table has, then fetch of a userid that has a username and an
  -- authority returns what the table has of them, and the cache stays so.
  pub fetch-find_user :
      (userid : String) (key : Key) (svc : UserService)
      → split_user userid ≡ ok key
      → IsCached svc
      → (next : UserService) × (fetch lower userid svc ≡ ok (find_user lower key svc.users, next))
        × IsCached next
  unfolding fetch fetch_by_name
  fetch-find_user userid key svc p h =
      let (found, kept) = fetch_with-find_user key svc (cached key svc.cache) refl h in
      (
        (fetch_by_name lower key svc).1,
        ap (λ r. r >>= λ k. ok (fetch_by_name lower k svc)) p
            ∙ ap (λ f. ok (f, (fetch_by_name lower key svc).1)) found,
        kept,
      )

first_row-test :
    (test : UserRow → Bool) (users : List UserRow) (u : UserRow)
    → first_row test users ≡ some u
    → test u ≡ true
unfolding first_row
first_row-test test [] u h = cc
first_row-test test (v ∷ users) u h = elim (Bool-cases (test v)) [
  | inl p ↦
      let e =
        some-injective v u (ap (λ b. if b then some v else first_row test users) (sym p) ∙ h) in
      ap test (sym e) ∙ p
  | inr p ↦
      first_row-test test users u (ap (λ b. if b then some v else first_row test users) (sym p) ∙ h)
]

usable_by :
    (v u : UserRow) (gone : Bool) (activation : Option ℕ)
    → (if gone then ok none else if is_none activation then ok (some v) else err user_not_activated)
      ≡ ok (some u)
    → (v ≡ u) × (gone ≡ false) × (activation ≡ none)
usable_by v u true activation h = cc
usable_by v u false (some n) h = cc
usable_by v u false none h = (some-injective v u (ok-injective {E = LoginError} _ _ h), refl, refl)

usable-some :
    (o : Option UserRow) (u : UserRow)
    → usable o ≡ ok (some u)
    → (o ≡ some u) × (u.deleted ≡ false) × (u.activation_id ≡ none)
usable-some none u h = cc
usable-some (some v) u h =
    let (same, live, active) = usable_by v u v.deleted v.activation_id h in
    (
      ap some same,
      ap (λ w. w.deleted) (sym same) ∙ live,
      ap (λ w. w.activation_id) (sym same) ∙ active,
    )

same_login :
    (lower python_lower : String → String) (name : String) (svc : UserService) (u : UserRow)
    → is_login lower python_lower name svc u ≡ true
    → (u.authority ≡ svc.default_authority)
      × ((normalise_username lower u.username ≡ normalise_username lower name)
          ⊎ ((all_chars is_no_at name ≡ false)
              × (lower_email lower u.email ≡ some (python_lower name))))
same_login lower python_lower name svc u h = elim (Bool-cases (all_chars is_no_at name)) [
  | inl p ↦ (ground arith, inl (ground arith))
  | inr p ↦ (ground arith, inr (p, ground arith))
]

-- If fetch_for_login returns a user, then the user is a row of the default authority that is not deleted and
-- needs no activation, and the login is the user's name, but for case and dots, or has an `@` and is the
-- user's email, but for case.
pub fetch_for_login-usable :
    (lower python_lower : String → String) (name : String) (svc : UserService) (u : UserRow)
    → fetch_for_login lower python_lower name svc ≡ ok (some u)
    → (u.deleted ≡ false)
      × (u.activation_id ≡ none)
      × (u.authority ≡ svc.default_authority)
      × ((normalise_username lower u.username ≡ normalise_username lower name)
          ⊎ ((all_chars is_no_at name ≡ false)
              × (lower_email lower u.email ≡ some (python_lower name))))
unfolding fetch_for_login
fetch_for_login-usable lower python_lower name svc u h =
    let (found, live, active) =
      usable-some (first_row (is_login lower python_lower name svc) svc.users) u h in
    let (of_authority, named) =
      same_login lower python_lower name svc u
        (first_row-test (is_login lower python_lower name svc) svc.users u found) in
    (live, active, of_authority, named)
