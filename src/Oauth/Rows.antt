-- ===== src/Oauth/Rows.antt =====
-- The rows that services/oauth/_validator.py reads, and its look-ups. Rows are looked up anew each
-- time: the cache of a transaction is not modelled. Times are in seconds, and a user is the row's id.
use subtask.Base.{
  ℕ, String, Bool, true, false, ◌||◌, Option, none, some, List, [], ◌∷◌, filter, ltb, ◌==◌, nat_eq,
  string_eq, option_eq, Result, ok, err, if◌then◌else◌,
}

pub data GrantType : Type 0 where
  authorization_code client_credentials jwt_bearer password : GrantType

-- The `value` of the enumeration.
unfoldable pub grant_value : GrantType → String
grant_value authorization_code = "authorization_code"
grant_value client_credentials = "client_credentials"
grant_value jwt_bearer = "urn:ietf:params:oauth:grant-type:jwt-bearer"
grant_value password = "password"

abbrev pub is_jwt_bearer : Option GrantType → Bool
is_jwt_bearer (some jwt_bearer) = true
is_jwt_bearer _ = false

pub record ClientRow : Type 0 where
  pub id : String
  pub secret : Option String
  pub grant_type : Option GrantType

pub record AuthzCode : Type 0 where
  pub id : ℕ
  pub code : String
  pub user : ℕ
  pub authclient_id : String
  pub expires : ℕ

pub record Token : Type 0 where
  pub id : ℕ
  pub value : String
  pub refresh_token : Option String
  pub expires : Option ℕ
  pub refresh_token_expires : Option ℕ
  pub authclient_id : Option String
  pub user : ℕ
  pub created : ℕ

pub record Store : Type 0 where
  pub clients : List ClientRow
  pub codes : List AuthzCode
  pub tokens : List Token

-- What the validator reads of a request, and sets on it.
pub record Request : Type 0 where
  pub client_id : Option String
  pub client_secret : Option String
  pub h_revoke_request : Bool
  pub grant_type : Option String
  pub refresh_token : Option String
  pub client : Option ClientRow
  pub user : Option ℕ
  pub scopes : Option (List String)

pub data OauthError : Type 0 where
  multiple_results attribute_error type_error invalid_client_id integrity_error : OauthError

abbrev pub default_scopes : List String
default_scopes = "annotation:read" ∷ "annotation:write" ∷ []

unfoldable pub one_or_none {ℓ} : {A : Type ℓ} → List A → Result OauthError (Option A)
one_or_none [] = ok none
one_or_none (row ∷ []) = ok (some row)
one_or_none (_ ∷ _ ∷ _) = err multiple_results

-- The row with the primary key; no row has an id that is no UUID.
unfoldable pub client_with : String → List ClientRow → Option ClientRow
client_with id [] = none
client_with id (client ∷ clients) =
    let rest = client_with id clients in if client.id == id then some client else rest

unfoldable pub find_client : Option String → Store → Option ClientRow
unfolding client_with
find_client none s = none
find_client (some id) s = client_with id s.clients

unfoldable pub find_authz_code : Option String → Store → Result OauthError (Option AuthzCode)
unfolding one_or_none
find_authz_code none s = ok none
find_authz_code (some code) s = one_or_none (filter (λ (c : AuthzCode). c.code == code) s.codes)

abbrev pub newer : Token → Option Token → Option Token
newer t none = some t
newer t (some u) = if ltb t.created u.created then some u else some t

-- `order_by(Token.created.desc()).first()`
unfoldable pub newest : List Token → Option Token
newest [] = none
newest (t ∷ tokens) = newer t (newest tokens)

unfoldable pub find_refresh_token : Option String → Store → Option Token
unfolding newest
find_refresh_token none s = none
find_refresh_token (some value) s =
    newest (filter (λ (t : Token). t.refresh_token == some value) s.tokens)

unfoldable pub find_token : Option String → Store → Option Token
unfolding newest
find_token none s = none
find_token (some value) s =
    newest (filter (λ (t : Token). t.refresh_token == some value || t.value == value) s.tokens)
