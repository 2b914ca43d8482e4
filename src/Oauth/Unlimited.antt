-- ===== src/Oauth/Unlimited.antt =====
-- What becomes of a refresh token whose time is NULL.
use subtask.Base.{
  ℕ, ◌+◌, String, Bool, true, false, ◌≡◌, ap, ◌∙◌, Option, none, some, List, [], ◌∷◌, ◌++◌, filter,
  ◌==◌, string_eq, option_eq, Result, ok, err, ◌>>=◌, if◌then◌else◌, arith,
}
use subtask.Oauth.Rows.{
  ClientRow, Token, Store, Request, OauthError, type_error, newest, find_refresh_token,
}
use subtask.Oauth.Validator.{validate_refresh_token, invalidate_refresh_token}
use subtask.Oauth.RefreshToken.{invalidate_refresh_token-raises}
use subtask.Oauth.Bearer.{BearerToken, new_row, client_of_request, save_bearer_token}

filter-append_other :
    (test : Token → Bool) (tokens : List Token) (row : Token)
    → test row ≡ false
    → filter test (tokens ++ (row ∷ [])) ≡ filter test tokens
filter-append_other test [] row h = ground arith
filter-append_other test (t ∷ tokens) row h = ground (arith, filter-append_other test tokens row h)

find-append :
    (value : String) (s : Store) (row : Token)
    → (row.refresh_token == some value) ≡ false
    → find_refresh_token (some value) (record s { tokens = s.tokens ++ (row ∷ []) })
      ≡ find_refresh_token (some value) s
unfolding find_refresh_token
find-append value s row h =
    ap newest (filter-append_other (λ (t : Token). t.refresh_token == some value) s.tokens row h)

saved_by :
    (token : BearerToken) (client : Option ClientRow) (user : Option ℕ)
    (grant_type refresh_token : Option String) (new_id now : ℕ) (s : Store)
    → Result OauthError Store
saved_by token client user grant_type refresh_token new_id now s = client_of_request client >>= λ c.
    new_row token c user new_id now >>= λ row.
    let saved = record s { tokens = s.tokens ++ (row ∷ []) } in
    if grant_type == some "refresh_token"
    then invalidate_refresh_token refresh_token now saved
    else ok saved

-- A refresh token with no time is accepted for its client, and then the saving of the new token, which has another
-- refresh token, raises.
pub save_bearer_token-raises :
    (token : BearerToken) (client : ClientRow) (value client_id : String) (new_id now : ℕ)
    (request : Request) (s : Store) (t : Token)
    → find_refresh_token (some value) s ≡ some t
    → t.refresh_token_expires ≡ none
    → t.authclient_id ≡ some client_id
    → request.client ≡ some client
    → request.grant_type ≡ some "refresh_token"
    → request.refresh_token ≡ some value
    → (token.refresh_token == value) ≡ false
    → (used : Request) × (validate_refresh_token (some value) client_id now request s
        ≡ ok (true, used))
      × (save_bearer_token token used new_id now s ≡ err type_error)
unfolding save_bearer_token new_row client_of_request saved_by option_eq string_eq
save_bearer_token-raises token client value client_id new_id now request s t p q r c g f other =
    let row : Token = record {
      id = new_id;
      value = token.access_token;
      refresh_token = some token.refresh_token;
      expires = some (now + token.expires_in);
      refresh_token_expires = some (now + token.refresh_token_expires_in);
      authclient_id = some client.id;
      user = t.user;
      created = now;
    } in
    let saved : Store = record s { tokens = s.tokens ++ (row ∷ []) } in
    let still : find_refresh_token (some value) saved ≡ some t =
      find-append value s row (ground arith) ∙ p in
    (
      record request { user = some t.user },
      (invalidate_refresh_token-raises value client_id now request s t p q r).0,
      ap (λ o. saved_by token o (some t.user) request.grant_type request.refresh_token new_id now s)
            c
          ∙ ap
              (λ o. saved_by token (some client) (some t.user) o request.refresh_token new_id now s)
              g
          ∙ ap (λ o. invalidate_refresh_token o now saved) f
          ∙ (invalidate_refresh_token-raises value client_id now request saved t still q r).1,
    )
