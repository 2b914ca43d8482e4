-- ===== src/Tests/Oauth.antt =====
-- A client with a secret, its code, and its tokens.
use subtask.Base.{
  ℕ, String, ◌≡◌, ◌==◌, refl, true, false, Option, none, some, [], ◌∷◌, ok, err, if◌then◌else◌,
  arith, nat_eq, string_eq, option_eq,
}
use subtask.Oauth.Rows.{
  ClientRow, AuthzCode, Token, Store, Request, jwt_bearer, find_refresh_token, find_authz_code,
  type_error,
}
use subtask.Oauth.Validator.{
  validate_code, accept_code, invalidate_authorization_code, validate_refresh_token,
  invalidate_refresh_token, revoke_token, token_to_revoke,
}
use subtask.Oauth.Bearer.{BearerToken, save_bearer_token}
use subtask.Oauth.Code.{IsAccepted, validate_code-IsAccepted}
use subtask.Oauth.RefreshToken.{validate_refresh_token-invalidate_refresh_token}
use subtask.Oauth.Unlimited.{save_bearer_token-raises}
use subtask.Oauth.Revoked.{is_revocable, rows_of, revoke_token-rows_of}

abbrev client : ClientRow
client = record { id = "c1"; secret = some "hush"; grant_type = some jwt_bearer }

abbrev code : AuthzCode
code = record { id = 1; code = "x"; user = 7; authclient_id = "c1"; expires = 600 }

abbrev token : String → ℕ → Option ℕ → Token
token name id expires = record {
  id = id;
  value = "5768-";
  refresh_token = some name;
  expires = some 50;
  refresh_token_expires = expires;
  authclient_id = some "c1";
  user = 7;
  created = id;
}

abbrev store : Store
store = record { clients = client ∷ []; codes = code ∷ []; tokens = token "r1" 1 (some 5000) ∷ [] }

abbrev endless : Store
endless = record store { tokens = token "r2" 2 none ∷ [] }

abbrev request : Request
request = record {
  client_id = some "c1";
  client_secret = some "guess";
  h_revoke_request = false;
  grant_type = some "refresh_token";
  refresh_token = some "r1";
  client = none;
  user = none;
  scopes = none;
}

validate_code-IsAccepted_example : IsAccepted "c1" "x" 600 request (accept_code code request) store
unfolding validate_code find_authz_code string_eq
validate_code-IsAccepted_example = validate_code-IsAccepted "c1" "x" 600 request store refl

abbrev used : Store
used = record store { codes = [] }

invalidate_x : invalidate_authorization_code (some "x") store ≡ ok used
unfolding invalidate_authorization_code find_authz_code string_eq nat_eq
invalidate_x = refl

abbrev short : Store
short = record store { tokens = token "r1" 1 (some 1180) ∷ [] }

invalidate_r1 : invalidate_refresh_token (some "r1") 1000 store ≡ ok short
unfolding invalidate_refresh_token find_refresh_token string_eq nat_eq option_eq
invalidate_r1 = refl

validate_refresh_token-invalidate_refresh_token_example :
    validate_refresh_token (some "r1") "c1" 1181 request short ≡ ok (false, request)
validate_refresh_token-invalidate_refresh_token_example =
    validate_refresh_token-invalidate_refresh_token "r1" "c1" 1000 1181 request store (omega arith)
      invalidate_r1

abbrev revoked : Store
revoked = record store { tokens = [] }

revoke_access : revoke_token "5768-" store ≡ ok revoked
unfolding revoke_token token_to_revoke string_eq nat_eq
revoke_access = refl

revoke_token-rows_of_example :
    (rows_of "5768-" revoked.tokens ≡ [])
    × ((if is_revocable "5768-" then [] else revoked.tokens)
        ≡ (if is_revocable "5768-" then [] else store.tokens))
revoke_token-rows_of_example = revoke_token-rows_of "5768-" store revoke_access

-- A refresh shortens the time of the old refresh token.
abbrev refreshing : Request
refreshing = record request { client = some client; user = some 7 }

abbrev made : BearerToken
made = record {
  access_token = "5768-n";
  refresh_token = "4657-n";
  expires_in = 3600;
  refresh_token_expires_in = 9000;
}

abbrev new_token : Token
new_token = record {
  id = 9;
  value = "5768-n";
  refresh_token = some "4657-n";
  expires = some 4600;
  refresh_token_expires = some 10000;
  authclient_id = some "c1";
  user = 7;
  created = 1000;
}

refreshed :
    save_bearer_token made refreshing 9 1000 store
    ≡ ok (record short { tokens = token "r1" 1 (some 1180) ∷ new_token ∷ [] })
unfolding save_bearer_token invalidate_refresh_token find_refresh_token string_eq nat_eq option_eq
refreshed = refl

abbrev endless_request : Request
endless_request = record refreshing { refresh_token = some "r2"; user = none }

endless_found : find_refresh_token (some "r2") endless ≡ some (token "r2" 2 none)
unfolding find_refresh_token string_eq option_eq
endless_found = refl

other_token : (made.refresh_token == "r2") ≡ false
unfolding string_eq
other_token = refl

save_bearer_token-raises_example :
    (asked : Request) × (validate_refresh_token (some "r2") "c1" 1000 endless_request endless
      ≡ ok (true, asked))
    × (save_bearer_token made asked 9 1000 endless ≡ err type_error)
save_bearer_token-raises_example =
    save_bearer_token-raises made client "r2" "c1" 9 1000 endless_request endless
      (token "r2" 2 none) endless_found refl refl refl refl refl other_token
