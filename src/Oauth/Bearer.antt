-- ===== src/Oauth/Bearer.antt =====
-- OAuthValidator.save_bearer_token of services/oauth/_validator.py.
use subtask.Base.{
  ℕ, ◌+◌, String, Option, none, some, [], ◌∷◌, ◌++◌, ◌==◌, string_eq, option_eq, Result, ok, err,
  ◌>>=◌, if◌then◌else◌,
}
use subtask.Oauth.Rows.{
  ClientRow, Token, Store, Request, OauthError, attribute_error, integrity_error,
}
use subtask.Oauth.Validator.{invalidate_refresh_token}

-- The token that oauthlib has made.
pub record BearerToken : Type 0 where
  pub access_token : String
  pub refresh_token : String
  pub expires_in : ℕ
  pub refresh_token_expires_in : ℕ

-- The id of the new row is the database's, which refuses a row with no user when it is flushed;
-- `created` is the time.
unfoldable pub new_row : BearerToken → ClientRow → Option ℕ → ℕ → ℕ → Result OauthError Token
new_row token client none new_id now = err integrity_error
new_row token client (some user) new_id now = ok (record {
  id = new_id;
  value = token.access_token;
  refresh_token = some token.refresh_token;
  expires = some (now + token.expires_in);
  refresh_token_expires = some (now + token.refresh_token_expires_in);
  authclient_id = some client.id;
  user = user;
  created = now;
})

-- `request.client.authclient`
unfoldable pub client_of_request : Option ClientRow → Result OauthError ClientRow
client_of_request none = err attribute_error
client_of_request (some client) = ok client

unfoldable pub save_bearer_token : BearerToken → Request → ℕ → ℕ → Store → Result OauthError Store
unfolding new_row client_of_request
save_bearer_token token request new_id now s = do
  client ← client_of_request request.client
  row ← new_row token client request.user new_id now
  let saved = record s { tokens = s.tokens ++ (row ∷ []) }
  if request.grant_type == some "refresh_token"
      then invalidate_refresh_token request.refresh_token now saved
      else ok saved
