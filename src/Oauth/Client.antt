-- ===== src/Oauth/Client.antt =====
-- Which clients are authenticated.
use subtask.Base.{
  String, Bool, true, false, ◌≡◌, refl, ap, Option, none, some, ◌==◌, string_eq, option_eq, ok,
  ◌>>=◌, if◌then◌else◌,
}
use subtask.Oauth.Rows.{ClientRow, Store, Request, find_client}
use subtask.Oauth.Validator.{authenticate_client, check_secret, compare_digest}

-- What authenticate_client returns of a request for a client with a secret.
abbrev pub answer : ClientRow → String → Option String → Request → Bool × Request
answer client secret none request = (false, request)
answer client secret (some provided) request =
    if secret == provided then (true, record request { client = some client }) else (false, request)

checked :
    (request : Request) (client : ClientRow) (secret : String) (provided : Option String)
    → client.secret ≡ some secret
    → check_secret client provided request ≡ ok (answer client secret provided request)
unfolding check_secret compare_digest
checked request client secret none q = refl
checked request client secret (some given) q =
    ap
      (λ x. compare_digest x given >>= (λ same.
        ok (if same then (true, record request { client = some client }) else (false, request))))
      q

-- A client with a secret is authenticated exactly if the request has that secret, and only then it is
-- set on the request.
pub authenticate_client-answer :
    (request : Request) (s : Store) (client : ClientRow) (secret : String)
    → find_client request.client_id s ≡ some client
    → client.secret ≡ some secret
    → authenticate_client request s ≡ ok (answer client secret request.client_secret request)
unfolding authenticate_client
authenticate_client-answer request s client secret p q =
    rw (p, authenticate_client) (checked request client secret request.client_secret q)
