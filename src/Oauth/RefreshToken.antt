-- ===== src/Oauth/RefreshToken.antt =====
-- How long refresh tokens are accepted.
use subtask.Base.{
  ℕ, ◌+◌, ◌<◌, String, Bool, true, false, ◌≡◌, refl, ap, ◌∙◌, Option, none, some, List, [], ◌∷◌,
  filter, ltb, ◌==◌, nat_eq, string_eq, option_eq, ok, err, if◌then◌else◌, arith, Bool-cases,
  Option-cases, inl, inr,
}
use subtask.Oauth.Rows.{Token, Store, Request, type_error, newer, newest, find_refresh_token}
use subtask.Oauth.Validator.{
  validate_found_token, validate_refresh_token, new_ttl, with_expires, set_refresh_expires, shorten,
  invalidate_refresh_token,
}

abbrev with_found : ℕ → ℕ → Option Token → Option Token
with_found id expires none = none
with_found id expires (some t) = some (with_expires id expires t)

filter-set_refresh_expires :
    (value : String) (id expires : ℕ) (tokens : List Token)
    → filter (λ (t : Token). t.refresh_token == some value) (set_refresh_expires id expires tokens)
      ≡ set_refresh_expires id expires
          (filter (λ (t : Token). t.refresh_token == some value) tokens)
unfolding set_refresh_expires
filter-set_refresh_expires value id expires [] = refl
filter-set_refresh_expires value id expires (t ∷ tokens) = elim (Bool-cases (t.id == id)) [
  | inl same ↦ ground (arith, filter-set_refresh_expires value id expires tokens)
  | inr other ↦ ground (arith, filter-set_refresh_expires value id expires tokens)
]

newer-with_expires :
    (id expires : ℕ) (t : Token) (u : Option Token)
    → newer (with_expires id expires t) (with_found id expires u)
      ≡ with_found id expires (newer t u)
newer-with_expires id expires t none = refl
newer-with_expires id expires t (some u) = ground arith

newest-set_refresh_expires :
    (id expires : ℕ) (tokens : List Token)
    → newest (set_refresh_expires id expires tokens) ≡ with_found id expires (newest tokens)
unfolding newest set_refresh_expires
newest-set_refresh_expires id expires [] = refl
newest-set_refresh_expires id expires (t ∷ tokens) =
    ap (newer (with_expires id expires t)) (newest-set_refresh_expires id expires tokens)
    ∙ newer-with_expires id expires t (newest tokens)

find-set_refresh_expires :
    (value : String) (id expires : ℕ) (s : Store)
    → find_refresh_token
        (some value)
        (record s { tokens = set_refresh_expires id expires s.tokens })
      ≡ with_found id expires (find_refresh_token (some value) s)
unfolding find_refresh_token
find-set_refresh_expires value id expires s =
    ap newest (filter-set_refresh_expires value id expires s.tokens)
    ∙ newest-set_refresh_expires id expires
        (filter (λ (t : Token). t.refresh_token == some value) s.tokens)

refused :
    (client_id : String) (later : ℕ) (request : Request) (t : Token) (expires : ℕ)
    → t.refresh_token_expires ≡ some expires
    → ltb expires later ≡ true
    → validate_found_token (some t) client_id later request ≡ ok (false, request)
unfolding validate_found_token
refused client_id later request t expires p over = ground arith

-- What the shortening of the time of a row returns.
shorten_cases :
    (t : Token) (now : ℕ) (s s' : Store)
    → shorten (some t) now s ≡ ok s'
    → (expires : ℕ) × (t.refresh_token_expires ≡ some expires)
      × (s' ≡ (
          if ltb (now + new_ttl) expires
          then record s { tokens = set_refresh_expires t.id (now + new_ttl) s.tokens }
          else s))
unfolding shorten
shorten_cases t now s s' h = elim (Option-cases t.refresh_token_expires) [
  | inl p ↦ ground arith
  | inr (expires, p) ↦ (expires, p, ground arith)
]

module _ (value client_id : String) (now later : ℕ) (request : Request) (s : Store)
    (after : now + new_ttl < later) where
  shortened :
      (t : Token) (expires : ℕ) (b : Bool)
      → find_refresh_token (some value) s ≡ some t
      → t.refresh_token_expires ≡ some expires
      → ltb (now + new_ttl) expires ≡ b
      → validate_refresh_token
          (some value)
          client_id
          later
          request
          (if b then record s { tokens = set_refresh_expires t.id (now + new_ttl) s.tokens } else s)
        ≡ ok (false, request)
  unfolding validate_refresh_token
  shortened t expires true p q long =
      ap (λ o. validate_found_token o client_id later request)
        (find-set_refresh_expires value t.id (now + new_ttl) s
          ∙ ap (with_found t.id (now + new_ttl)) p)
      ∙ refused client_id later request (with_expires t.id (now + new_ttl) t) (now + new_ttl)
          (ground arith) (ground arith)
  shortened t expires false p q short =
      ap (λ o. validate_found_token o client_id later request) p
      ∙ refused client_id later request t expires q (ground arith)

  shortened_found :
      (t : Option Token) {s' : Store}
      → find_refresh_token (some value) s ≡ t
      → shorten t now s ≡ ok s'
      → validate_refresh_token (some value) client_id later request s' ≡ ok (false, request)
  unfolding shorten
  shortened_found none p h = ground arith
  shortened_found (some t) {s'} p h =
      let (expires, q, same) = shorten_cases t now s s' h in
      ap (validate_refresh_token (some value) client_id later request) same
      ∙ shortened t expires (ltb (now + new_ttl) expires) p q refl

  -- After invalidate_refresh_token has returned, the refresh token is refused at any time that is more
  -- than three minutes later, and nothing is raised.
  pub validate_refresh_token-invalidate_refresh_token :
      {s' : Store}
      → invalidate_refresh_token (some value) now s ≡ ok s'
      → validate_refresh_token (some value) client_id later request s' ≡ ok (false, request)
  unfolding invalidate_refresh_token
  validate_refresh_token-invalidate_refresh_token h =
      shortened_found (find_refresh_token (some value) s) refl h

-- A refresh token with no time is accepted for its client, and invalidate_refresh_token, which
-- is called when it is used, raises.
pub invalidate_refresh_token-raises :
    (value client_id : String) (now : ℕ) (request : Request) (s : Store) (t : Token)
    → find_refresh_token (some value) s ≡ some t
    → t.refresh_token_expires ≡ none
    → t.authclient_id ≡ some client_id
    → (validate_refresh_token (some value) client_id now request s
        ≡ ok (true, record request { user = some t.user }))
      × (invalidate_refresh_token (some value) now s ≡ err type_error)
unfolding validate_refresh_token invalidate_refresh_token validate_found_token shorten
invalidate_refresh_token-raises value client_id now request s t p q r = (
  ap (λ o. validate_found_token o client_id now request) p ∙ ground arith,
  ap (λ o. shorten o now s) p ∙ ground arith,
)
