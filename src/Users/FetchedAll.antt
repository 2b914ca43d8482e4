-- ===== src/Users/FetchedAll.antt =====
-- What fetch_all of the user service leaves out, and what it should.
use mathlib.Core.Bool.{false≢true}
use mathlib.Core.Option.{some-injective}
use subtask.Base.{
  String, ◌≡◌, ◌∙◌, ap, refl, Bool, true, false, Option, none, some, List, [], ◌∷◌, map, filter,
  any, sym, ◌&&◌, ◌||◌, Bool-cases, inl, inr, ok-injective, ok, ◌>>=◌, ==-refl, string_eq, nat_eq,
  option_eq, if◌then◌else◌, arith,
}
use subtask.Users.Userid.{UserIdError, split_user}
use subtask.Users.Service.{
  UserRow, normalise_username, first_row, Key, same_key, UserService, cached, set_cached, key_of,
  find_user, is_named, fetch_with, fetch_by_name, fetch, cache_all, is_missing, is_none, is_asked,
  fetch_keys, split_all, fetch_all,
}

asked-set_cached :
    (key : Key) (u : UserRow) (cache : List (Key × Option UserRow))
    → same_key (key_of u) key ≡ false
    → filter (is_asked (key ∷ [])) cache ≡ []
    → filter (is_asked (key ∷ [])) (set_cached (key_of u) (some u) cache) ≡ []
unfolding set_cached
asked-set_cached key u [] h k = rw h refl
asked-set_cached key u ((other, v) ∷ cache) h k = ground (arith, asked-set_cached key u cache h)

asked-cache_all :
    (key : Key) (users : List UserRow) (cache : List (Key × Option UserRow))
    → any (λ u. same_key (key_of u) key) users ≡ false
    → filter (is_asked (key ∷ [])) cache ≡ []
    → filter (is_asked (key ∷ [])) (cache_all users cache) ≡ []
asked-cache_all key [] cache h k = k
asked-cache_all key (u ∷ users) cache h k =
    asked-cache_all key users (set_cached (key_of u) (some u) cache) (ground arith)
      (asked-set_cached key u cache (ground arith) k)

any-filter-false :
    (test other : UserRow → Bool) (users : List UserRow)
    → any test users ≡ false
    → any test (filter other users) ≡ false
any-filter-false test other [] h = refl
any-filter-false test other (u ∷ users) h = ground (arith, any-filter-false test other users)

-- An entry of the cache that says that there is no user of the key.
abbrev is_unknown : Key → (Key × Option UserRow) → Bool
is_unknown key entry = same_key entry.0 key && is_none entry.1

cached-unknown :
    (key : Key) (cache : List (Key × Option UserRow))
    → cached key cache ≡ some none
    → any (is_unknown key) cache ≡ true
unfolding cached
cached-unknown key [] h = cc
cached-unknown key ((k, v) ∷ cache) h = elim (Bool-cases (same_key k key)) [
  | inl p ↦
      let gone : v ≡ none =
        some-injective v none (ap (λ b. if b then some v else cached key cache) (sym p) ∙ h) in
      ap (λ b. (b && is_none v) || any (is_unknown key) cache) p
      ∙ ap (λ o. is_none o || any (is_unknown key) cache) gone
  | inr p ↦
      ap (λ b. (b && is_none v) || any (is_unknown key) cache) p
      ∙ cached-unknown key cache (ap (λ b. if b then some v else cached key cache) (sym p) ∙ h)
]

cached-set_cached_same :
    (key : Key) (value : Option UserRow) (cache : List (Key × Option UserRow))
    → cached key (set_cached key value cache) ≡ some value
unfolding cached set_cached
cached-set_cached_same (c, d) value [] = ground (arith, ==-refl c, ==-refl d)
cached-set_cached_same (c, d) value (((e, f), v) ∷ cache) =
    ground (arith, cached-set_cached_same (c, d) value cache)

unknown-set_cached :
    (key other : Key) (value : Option UserRow) (cache : List (Key × Option UserRow))
    → same_key other key ≡ false
    → any (is_unknown key) cache ≡ true
    → any (is_unknown key) (set_cached other value cache) ≡ true
unfolding set_cached
unknown-set_cached key other value [] h k = absurd (false≢true k)
unknown-set_cached (c, d) (a, b) value (((e, f), v) ∷ cache) h k =
    ground (arith, unknown-set_cached (c, d) (a, b) value cache h)

unknown-cache_all :
    (key : Key) (users : List UserRow) (cache : List (Key × Option UserRow))
    → any (λ u. same_key (key_of u) key) users ≡ false
    → any (is_unknown key) cache ≡ true
    → any (is_unknown key) (cache_all users cache) ≡ true
unknown-cache_all key [] cache h k = k
unknown-cache_all key (u ∷ users) cache h k =
    unknown-cache_all key users (set_cached (key_of u) (some u) cache) (ground arith)
      (unknown-set_cached key (key_of u) (some u) cache (ground arith) k)

any-same_key :
    (k key : Key) (keys : List Key)
    → same_key k key ≡ true
    → any (same_key k) keys ≡ any (same_key key) keys
any-same_key k key [] h = refl
any-same_key (a, b) (c, d) ((e, f) ∷ keys) h = ground (arith, any-same_key (a, b) (c, d) keys h)

asked-unknown :
    (key : Key) (keys : List Key) (cache : List (Key × Option UserRow))
    → any (same_key key) keys ≡ true
    → any (is_unknown key) cache ≡ true
    → any is_none (map (λ entry. entry.1) (filter (is_asked keys) cache)) ≡ true
asked-unknown key keys [] h k = absurd (false≢true k)
asked-unknown key keys ((other, v) ∷ cache) h k = elim (Bool-cases (same_key other key)) [
  | inl p ↦
      let asked : is_asked keys (other, v) ≡ true = any-same_key other key keys p ∙ h in
      let rest = asked-unknown key keys cache h in ground arith
  | inr p ↦ let rest = asked-unknown key keys cache h (ground arith) in ground arith
]

module _ (lower : String → String) where
  none_named :
      (key : Key) (users : List UserRow)
      → find_user lower key users ≡ none
      → any (λ u. same_key (key_of u) key) users ≡ false
  unfolding first_row
  none_named key [] h = refl
  none_named (username, authority) (u ∷ users) h = elim (string_eq.dec u.username username) [
    | yes same ↦
        let n = ap (normalise_username lower) same in
        let rest = none_named (username, authority) users in ground arith
    | no differ ↦ let rest = none_named (username, authority) users in ground arith
  ]

  fetched-unknown :
      (key : Key) (svc : UserService) (o : Option (Option UserRow)) (next : UserService)
      → cached key svc.cache ≡ o
      → fetch_with lower key svc o ≡ (none, next)
      → find_user lower key svc.users ≡ none
      → (any (is_unknown key) next.cache ≡ true) × (next.users ≡ svc.users)
  fetched-unknown key svc (some found) next p h r = (
    ap (λ (s : UserService). any (is_unknown key) s.cache) (sym (ap (λ f. f.1) h))
        ∙ cached-unknown key svc.cache (p ∙ ap some (ap (λ f. f.0) h)),
    ap (λ (s : UserService). s.users) (sym (ap (λ f. f.1) h)),
  )
  fetched-unknown key svc none next p h r = (
    ap (λ (s : UserService). any (is_unknown key) s.cache) (sym (ap (λ f. f.1) h))
        ∙ cached-unknown key (set_cached key (find_user lower key svc.users) svc.cache)
            (cached-set_cached_same key (find_user lower key svc.users) svc.cache ∙ ap some r),
    ap (λ (s : UserService). s.users) (sym (ap (λ f. f.1) h)),
  )

  -- If a userid is no user's, but for case and dots, and fetch has answered none for it, then fetch_all of any
  -- userids, this one among them, returns a list that has a None.
  pub fetch_all-unknown :
      (userid : String) (key : Key) (svc next : UserService) (userids : List String)
      (keys : List Key)
      → split_user userid ≡ ok key
      → find_user lower key svc.users ≡ none
      → fetch lower userid svc ≡ ok (none, next)
      → split_all lower userids ≡ ok keys
      → any (same_key key) keys ≡ true
      → (answer : List (Option UserRow)) × (last : UserService) × (fetch_all lower userids next
          ≡ ok (answer, last))
        × (any is_none answer ≡ true)
  unfolding fetch fetch_by_name fetch_all
  fetch_all-unknown userid key svc next userids keys p r h q asked =
      let given : fetch_with lower key svc (cached key svc.cache) ≡ (none, next) =
        ok-injective {E = UserIdError} _ _
          (sym (ap (λ o. o >>= λ k. ok (fetch_by_name lower k svc)) p) ∙ h) in
      let (unknown, same) = fetched-unknown key svc (cached key svc.cache) next refl given r in
      let found : List UserRow =
        filter (λ u. any (λ k. is_named lower k u) (filter (is_missing next.cache) keys))
          next.users in
      (
        (fetch_keys lower keys next).0,
        (fetch_keys lower keys next).1,
        ap (λ o. o >>= λ ks. ok (fetch_keys lower ks next)) q,
        asked-unknown key keys (cache_all found next.cache) asked (
            unknown-cache_all key found next.cache
              (any-filter-false (λ u. same_key (key_of u) key) _ next.users
                (none_named key next.users (ap (find_user lower key) same ∙ r)))
              unknown),
      )

  -- If no user of the authority spells the username as the userid does, then fetch_all of the userid, with an
  -- empty cache, returns nothing, whomever fetch finds for it.
  pub fetch_all-spelling :
      (userid : String) (key : Key) (svc : UserService)
      → split_user userid ≡ ok key
      → svc.cache ≡ []
      → any (λ u. same_key (key_of u) key) svc.users ≡ false
      → (next : UserService) × (fetch_all lower (userid ∷ []) svc ≡ ok ([], next))
  unfolding fetch_all split_all
  fetch_all-spelling userid key svc p q r =
      let found : List UserRow =
        filter (λ u. any (λ k. is_named lower k u) (filter (is_missing svc.cache) (key ∷ [])))
          svc.users in
      (
        (fetch_keys lower (key ∷ []) svc).1,
        ap (λ r. (r >>= λ k. ok (k ∷ [])) >>= λ keys. ok (fetch_keys lower keys svc)) p
            ∙ ap
                (λ entries.
                  ok (map (λ entry. entry.1) entries, (fetch_keys lower (key ∷ []) svc).1))
                (asked-cache_all key found svc.cache
                  (any-filter-false (λ u. same_key (key_of u) key) _ svc.users r)
                  (ap (filter (is_asked (key ∷ []))) q)),
      )
