-- ===== src/Oauth/Revoked.antt =====
-- What is left after a token was revoked.
use subtask.Base.{
  String, Bool, true, false, not, ◌||◌, ◌≡◌, refl, sym, ap, ◌∙◌, Option, none, some, List, [],
  filter, filter-filter, ◌==◌, nat_eq, string_eq, option_eq, ok, if◌then◌else◌, ok-injective,
  bind-eq-ok, arith, Bool-cases, inl, inr, starts_with,
}
use subtask.Oauth.Rows.{Token, Store, OauthError, one_or_none}
use subtask.Oauth.Code.{one_row, no_row}
use subtask.Oauth.Validator.{delete_token, token_to_revoke, revoke_token}

abbrev has_value : String → Token → Bool
has_value token t = t.value == token

abbrev has_refresh : String → Token → Bool
has_refresh token t = t.refresh_token == some token

abbrev is_other : Token → Token → Bool
is_other t row = not (row.id == t.id)

revoked_rows :
    (test : Token → Bool) (rows : List Token) (t : Option Token)
    → one_or_none (filter test rows) ≡ ok t
    → (s : Store) → s.tokens ≡ rows
    → filter test (delete_token t s).tokens ≡ []
revoked_rows test rows none h s p = ap (filter test) p ∙ no_row (filter test rows) h
revoked_rows test rows (some t) h s p =
    filter-filter test (is_other t) s.tokens
    ∙ ap (λ l. filter (is_other t) (filter test l)) p
    ∙ ap (filter (is_other t)) (one_row (filter test rows) t h)
    ∙ ground arith

-- Developer tokens have neither prefix.
abbrev pub is_revocable : String → Bool
is_revocable token = starts_with token "5768-" || starts_with token "4657-"

unrevoked :
    (token : String) (s : Store) {s' : Store}
    → revoke_token token s ≡ ok s'
    → (if is_revocable token then [] else s'.tokens) ≡ (if is_revocable token then [] else s.tokens)
unfolding revoke_token token_to_revoke
unrevoked token s {s'} h = elim (Bool-cases (starts_with token "5768-")) [
  | inl access ↦ ground arith
  | inr other ↦ elim (Bool-cases (starts_with token "4657-")) [
    | inl refresh ↦ ground arith
    | inr neither ↦
        let (t, p, q) = bind-eq-ok (token_to_revoke token s) _ h in
        let none_found : t ≡ none = sym (ok-injective {E = OauthError} none t (ground arith)) in
        let same : delete_token t s ≡ s' = ok-injective {E = OauthError} (delete_token t s) s' q in
        rw (other, neither)
          (ap (λ (u : Store). u.tokens) (sym same) ∙ ap (λ o. (delete_token o s).tokens) none_found)
  ]
]

-- The rows that a text names: as an access token or as a refresh token, by its prefix.
abbrev pub rows_of : String → List Token → List Token
rows_of token tokens =
    if starts_with token "5768-"
    then filter (has_value token) tokens
    else if starts_with token "4657-"
    then filter (has_refresh token) tokens
    else []

revoked_access :
    (token : String) (s : Store) (t : Option Token)
    → starts_with token "5768-" ≡ true
    → token_to_revoke token s ≡ ok t
    → rows_of token (delete_token t s).tokens ≡ []
unfolding token_to_revoke
revoked_access token s t access h =
    ground (arith, revoked_rows (has_value token) s.tokens t (ground arith) s refl)

revoked_refresh :
    (token : String) (s : Store) (t : Option Token)
    → starts_with token "5768-" ≡ false
    → token_to_revoke token s ≡ ok t
    → rows_of token (delete_token t s).tokens ≡ []
unfolding token_to_revoke
revoked_refresh token s t other h = elim (Bool-cases (starts_with token "4657-")) [
  | inl refresh ↦ ground (arith, revoked_rows (has_refresh token) s.tokens t (ground arith) s refl)
  | inr neither ↦ ground arith
]

revoked :
    (token : String) (s : Store) {s' : Store}
    → revoke_token token s ≡ ok s'
    → rows_of token s'.tokens ≡ []
unfolding revoke_token
revoked token s {s'} h =
    let (t, p, q) = bind-eq-ok (token_to_revoke token s) _ h in
    ap (λ (u : Store). rows_of token u.tokens)
      (sym (ok-injective {E = OauthError} (delete_token t s) s' q))
    ∙ elim (Bool-cases (starts_with token "5768-")) [
      | inl access ↦ revoked_access token s t access p
      | inr other ↦ revoked_refresh token s t other p
    ]

-- After revoke_token has returned, a text with the prefix of access tokens (5768-) is the access token of no
-- row, and one with the prefix of refresh tokens (4657-) is the refresh token of no row; for any other
-- text, such as a developer token, the rows are what they were.
pub revoke_token-rows_of :
    (token : String) (s : Store) {s' : Store}
    → revoke_token token s ≡ ok s'
    → (rows_of token s'.tokens ≡ [])
      × ((if is_revocable token then [] else s'.tokens)
          ≡ (if is_revocable token then [] else s.tokens))
revoke_token-rows_of token s h = (revoked token s h, unrevoked token s h)
