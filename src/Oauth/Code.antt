-- ===== src/Oauth/Code.antt =====
-- Which authorization codes are accepted, and for how often.
use subtask.Base.{
  ℕ, String, Bool, true, false, not, ◌≡◌, refl, sym, ap, ◌∙◌, Option, none, some, List, [], ◌∷◌,
  filter, filter-filter, ltb, ◌==◌, nat_eq, string_eq, ok, ◌>>=◌, ok-injective, bind-eq-ok, arith,
  Bool-cases, inl, inr,
}
use subtask.Oauth.Rows.{AuthzCode, Store, Request, OauthError, one_or_none, find_authz_code}
use subtask.Oauth.Validator.{
  accept_code, validate_found_code, validate_code, delete_code, invalidate_authorization_code,
}

pub one_row :
    {A : Type 0} (rows : List A) (row : A) → one_or_none rows ≡ ok (some row) → rows ≡ row ∷ []
unfolding one_or_none
one_row [] row h = ground arith
one_row (r ∷ []) row h = ground arith
one_row (r ∷ q ∷ rows) row h = ground arith

pub no_row : {A : Type 0} (rows : List A) → one_or_none rows ≡ ok none → rows ≡ []
unfolding one_or_none
no_row [] h = refl
no_row (r ∷ []) h = ground arith
no_row (r ∷ q ∷ rows) h = ground arith

-- The code's row is there, its time is not over, and it is the client's.
abbrev pub IsAccepted : String → String → ℕ → Request → Request → Store → Type 0
IsAccepted client_id code now request request' s =
    (c : AuthzCode) × (find_authz_code (some code) s ≡ ok (some c))
    × (ltb c.expires now ≡ false)
    × (c.authclient_id ≡ client_id)
    × (request' ≡ accept_code c request)

accepted :
    (c : Option AuthzCode) (client_id : String) (now : ℕ) (request request' : Request)
    → validate_found_code c client_id now request ≡ (true, request')
    → (row : AuthzCode) × (c ≡ some row)
      × (ltb row.expires now ≡ false)
      × (row.authclient_id ≡ client_id)
      × (request' ≡ accept_code row request)
unfolding validate_found_code
accepted none client_id now request request' h = ground arith
accepted (some c) client_id now request request' h = elim (Bool-cases (ltb c.expires now)) [
  | inl over ↦ ground arith
  | inr still ↦ elim (string_eq.dec c.authclient_id client_id) [
    | yes same ↦ (c, refl, still, same, ground arith)
    | no differ ↦ ground arith
  ]
]

-- If validate_code accepts a code, the code's row is there, its time is not over, it is the
-- client's, and the request has the row's user and the default scopes.
pub validate_code-IsAccepted :
    (client_id code : String) (now : ℕ) (request : Request) (s : Store) {request' : Request}
    → validate_code client_id (some code) now request s ≡ ok (true, request')
    → IsAccepted client_id code now request request' s
unfolding validate_code
validate_code-IsAccepted client_id code now request s {request'} h =
    let (c, p, q) = bind-eq-ok (find_authz_code (some code) s) _ h in
    let (row, same, still, client, user) =
      accepted c client_id now request request'
        (ok-injective {E = OauthError} _ (true, request') q) in
    (row, p ∙ ap ok same, still, client, user)

abbrev has_code : String → AuthzCode → Bool
has_code code c = c.code == code

abbrev is_row : AuthzCode → AuthzCode → Bool
is_row c row = not (row.id == c.id)

-- What is left of the rows with a code after the one that was found is deleted.
left_rows :
    (code : String) (rows : List AuthzCode) (c : Option AuthzCode)
    → one_or_none (filter (has_code code) rows) ≡ ok c
    → (s : Store) → s.codes ≡ rows
    → filter (has_code code) (delete_code c s).codes ≡ []
left_rows code rows none h s p =
    ap (filter (has_code code)) p ∙ no_row (filter (has_code code) rows) h
left_rows code rows (some c) h s p =
    filter-filter (has_code code) (is_row c) s.codes
    ∙ ap (λ l. filter (is_row c) (filter (has_code code) l)) p
    ∙ ap (filter (is_row c)) (one_row (filter (has_code code) rows) c h)
    ∙ ground arith

-- After invalidate_authorization_code has returned, validate_code refuses the code for every client
-- and at every time, and raises nothing.
pub validate_code-invalidate_authorization_code :
    (client_id code : String) (now : ℕ) (request : Request) (s : Store) {s' : Store}
    → invalidate_authorization_code (some code) s ≡ ok s'
    → validate_code client_id (some code) now request s' ≡ ok (false, request)
unfolding validate_code invalidate_authorization_code find_authz_code
validate_code-invalidate_authorization_code client_id code now request s {s'} h =
    let (c, p, q) = bind-eq-ok (find_authz_code (some code) s) _ h in
    let same = ok-injective {E = OauthError} (delete_code c s) s' q in
    ap
      (λ rows. one_or_none rows >>= (λ found. ok (validate_found_code found client_id now request)))
      (ap (λ t. filter (has_code code) t.codes) (sym same) ∙ left_rows code s.codes c p s refl)
