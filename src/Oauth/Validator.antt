-- ===== src/Oauth/Validator.antt =====
-- The operations of services/oauth/_validator.py. The clock is an argument of each call.
use subtask.Base.{
  ℕ, ◌+◌, ◌*◌, String, Bool, true, false, not, ◌&&◌, Option, none, some, List, [], ◌∷◌, ◌++◌, map,
  filter, ltb, ◌==◌, nat_eq, string_eq, option_eq, Result, ok, err, ◌>>=◌, if◌then◌else◌,
  starts_with,
}
use subtask.Oauth.Rows.{
  grant_value, is_jwt_bearer, ClientRow, AuthzCode, Token, Store, Request, OauthError,
  attribute_error, type_error, invalid_client_id, default_scopes, one_or_none, find_client,
  find_authz_code, find_refresh_token,
}

-- `hmac.compare_digest` refuses what is no text.
unfoldable pub compare_digest : Option String → String → Result OauthError Bool
compare_digest none provided = err type_error
compare_digest (some secret) provided = ok (secret == provided)

unfoldable pub check_secret :
    ClientRow → Option String → Request → Result OauthError (Bool × Request)
check_secret client none request = ok (false, request)
check_secret client (some provided) request = do
  same ← compare_digest client.secret provided
  ok (if same then (true, record request { client = some client }) else (false, request))

unfoldable pub authenticate_client : Request → Store → Result OauthError (Bool × Request)
authenticate_client request s = elim (find_client request.client_id s) [
  | none ↦ ok (false, request)
  | some client ↦ check_secret client request.client_secret request
]

unfoldable pub authenticate_client_id : Option String → Request → Store → Bool × Request
authenticate_client_id client_id request s = elim (find_client client_id s) [
  | none ↦ (false, request)
  | some client ↦ (true, record request { client = some client })
]

abbrev pub is_some {ℓ} : {A : Type ℓ} → Option A → Bool
is_some none = false
is_some (some a) = true

unfoldable pub client_authentication_required : Request → Store → Bool
client_authentication_required request s = elim (find_client request.client_id s) [
  | none ↦ false
  | some client ↦
      if request.h_revoke_request
      then false
      else if request.grant_type == some "refresh_token" && is_jwt_bearer client.grant_type
      then false
      else is_some client.secret
]

unfoldable pub validate_client_id : Option String → Store → Bool
validate_client_id client_id s = is_some (find_client client_id s)

unfoldable pub validate_grant_type : String → ClientRow → Bool
unfolding grant_value
validate_grant_type grant_type client = elim client.grant_type [
  | none ↦ false
  | some grant ↦ if grant_type == "refresh_token" then true else grant_type == grant_value grant
]

unfoldable pub validate_scopes : List String → Bool
validate_scopes [] = false
validate_scopes (a ∷ []) = false
validate_scopes (a ∷ b ∷ []) = a == "annotation:read" && b == "annotation:write"
validate_scopes (_ ∷ _ ∷ _ ∷ _) = false

abbrev pub accept_code : AuthzCode → Request → Request
accept_code c request = record request { user = some c.user; scopes = some default_scopes }

unfoldable pub validate_found_code : Option AuthzCode → String → ℕ → Request → Bool × Request
validate_found_code none client_id now request = (false, request)
validate_found_code (some c) client_id now request =
    if ltb c.expires now
    then (false, request)
    else if not (c.authclient_id == client_id)
    then (false, request)
    else (true, accept_code c request)

unfoldable pub validate_code :
    String → Option String → ℕ → Request → Store → Result OauthError (Bool × Request)
unfolding validate_found_code
validate_code client_id code now request s = do
  c ← find_authz_code code s
  ok (validate_found_code c client_id now request)

abbrev pub delete_code : Option AuthzCode → Store → Store
delete_code none s = s
delete_code (some c) s = record s {
  codes = filter (λ (row : AuthzCode). not (row.id == c.id)) s.codes;
}

unfoldable pub invalidate_authorization_code : Option String → Store → Result OauthError Store
invalidate_authorization_code code s = do c ← find_authz_code code s; ok (delete_code c s)

abbrev pub authz_code_ttl : ℕ
authz_code_ttl = 10 * 60

-- The id of the new row is the database's.
unfoldable pub save_authorization_code :
    Option String → String → ℕ → ℕ → ℕ → Store → Result OauthError Store
save_authorization_code client_id code user new_id now s = elim (find_client client_id s) [
  | none ↦ err invalid_client_id
  | some client ↦ ok (record s {
    codes =
        s.codes
        ++ (record {
          id = new_id;
          code = code;
          user = user;
          authclient_id = client.id;
          expires = now + authz_code_ttl;
        }
            ∷ []);
  })
]

-- A time of 0 would be true as well, as every datetime is.
abbrev pub is_expired : ℕ → Option ℕ → Bool
is_expired now none = false
is_expired now (some expires) = ltb expires now

-- `not token or token.refresh_token_expired or token.authclient.id != client.client_id`
unfoldable pub validate_found_token :
    Option Token → String → ℕ → Request → Result OauthError (Bool × Request)
validate_found_token none client_id now request = ok (false, request)
validate_found_token (some t) client_id now request =
    if is_expired now t.refresh_token_expires then ok (false, request) else elim t.authclient_id [
      | none ↦ err attribute_error
      | some id ↦
          if id == client_id
          then ok (true, record request { user = some t.user })
          else ok (false, request)
    ]

unfoldable pub validate_refresh_token :
    Option String → String → ℕ → Request → Store → Result OauthError (Bool × Request)
unfolding validate_found_token
validate_refresh_token refresh_token client_id now request s =
    validate_found_token (find_refresh_token refresh_token s) client_id now request

abbrev pub new_ttl : ℕ
new_ttl = 3 * 60

-- `token.refresh_token_expires = …`, on the row
abbrev pub with_expires : ℕ → ℕ → Token → Token
with_expires id expires t =
    if t.id == id then record t { refresh_token_expires = some expires } else t

unfoldable pub set_refresh_expires : ℕ → ℕ → List Token → List Token
set_refresh_expires id expires tokens = map (with_expires id expires) tokens

-- An attribute of `None`, and a number less than `None`, raise.
unfoldable pub shorten : Option Token → ℕ → Store → Result OauthError Store
unfolding set_refresh_expires
shorten none now s = err attribute_error
shorten (some t) now s = elim t.refresh_token_expires [
  | none ↦ err type_error
  | some expires ↦ ok (
      if ltb (now + new_ttl) expires
      then record s { tokens = set_refresh_expires t.id (now + new_ttl) s.tokens }
      else s)
]

unfoldable pub invalidate_refresh_token : Option String → ℕ → Store → Result OauthError Store
unfolding shorten
invalidate_refresh_token refresh_token now s = shorten (find_refresh_token refresh_token s) now s

abbrev pub delete_token : Option Token → Store → Store
delete_token none s = s
delete_token (some t) s = record s {
  tokens = filter (λ (row : Token). not (row.id == t.id)) s.tokens;
}

-- The row that the prefix of the text asks for.
unfoldable pub token_to_revoke : String → Store → Result OauthError (Option Token)
unfolding one_or_none
token_to_revoke token s =
    if starts_with token "5768-"
    then one_or_none (filter (λ (t : Token). t.value == token) s.tokens)
    else if starts_with token "4657-"
    then one_or_none (filter (λ (t : Token). t.refresh_token == some token) s.tokens)
    else ok none

unfoldable pub revoke_token : String → Store → Result OauthError Store
revoke_token token s = do t ← token_to_revoke token s; ok (delete_token t s)
