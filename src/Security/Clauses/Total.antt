-- ===== src/Security/Clauses/Total.antt =====
-- Expansion ends: no predicate requires itself, and three nested calls are the most.
use subtask.Base.{
  ℕ, zero, suc, ◌<◌, ◌≤◌, ◌≡◌, refl, List, [], ◌∷◌, ◌++◌, All, Result, ok, ◌>>=◌, arith,
}
use subtask.Security.Predicates
use subtask.Security.Predicates.{Predicate}
use subtask.Security.Clauses.{
  Entry, predicate, permission, Clause, Mapping, Expansion, requires_of, expand_each, yield_entry,
  expand_predicate, expand_clause, map_ok, resolve_entry, resolve_predicates,
}

-- How deep the calls for an entry nest.
height : Entry → ℕ
height (permission _) = 0
height (predicate Predicate.authenticated) = 0
height (predicate Predicate.user_found) = 0
height (predicate Predicate.annotation_found) = 0
height (predicate Predicate.group_found) = 0
height (predicate Predicate.authenticated_user) = 1
height (predicate Predicate.authenticated_client) = 1
height (predicate _) = 2

-- An entry requires only entries of lower height.
height-requires_of : (e : Entry) → All (λ r. height r < height e) (requires_of e)
unfolding height requires_of
height-requires_of (permission _) = tt
height-requires_of (predicate Predicate.authenticated) = tt
height-requires_of (predicate _) = omega arith

height-le : (e : Entry) → height e ≤ 2
unfolding height
height-le (permission _) = omega arith
height-le (predicate Predicate.authenticated) = omega arith
height-le (predicate _) = omega arith

abbrev Returns : {A : Type 0} → Result Predicates.Error A → Type 0
Returns {A} r = (a : A) × (r ≡ ok a)

bind-Returns :
    {A B : Type 0} (m : Result Predicates.Error A) (f : A → Result Predicates.Error B)
    → Returns m
    → ((a : A) → Returns (f a))
    → Returns (m >>= f)
bind-Returns m f (a, p) k = rw p (k a)

expand_each-Returns :
    (expand : Entry → Clause → Expansion) (bound : ℕ)
    → ((e : Entry) (seen : Clause) → height e < bound → Returns (expand e seen))
    → (es seen : Clause) → All (λ e. height e < bound) es
    → Returns (expand_each expand es seen)
unfolding expand_each
expand_each-Returns expand bound h [] seen low = (([], seen), refl)
expand_each-Returns expand bound h (e ∷ es) seen (low, lows) =
    bind-Returns (expand e seen) _ (h e seen low) λ first.
      bind-Returns (expand_each expand es first.1) _
        (expand_each-Returns expand bound h es first.1 lows)
        λ rest. ((first.0 ++ rest.0, rest.1), refl)

All-lower :
    (es : Clause) (m n : ℕ) → m ≤ n → All (λ e. height e < m) es → All (λ e. height e < n) es
All-lower [] m n h low = tt
All-lower (e ∷ es) m n h (low, lows) = (omega arith, All-lower es m n h lows)

expand_predicate-Returns :
    (n : ℕ) (e : Entry) (seen : Clause) → height e < n → Returns (expand_predicate n e seen)
unfolding expand_predicate
expand_predicate-Returns zero e seen low = absurd (omega arith)
expand_predicate-Returns (suc n) e seen low =
    bind-Returns (expand_each (expand_predicate n) (requires_of e) seen) _
      (expand_each-Returns (expand_predicate n) n (expand_predicate-Returns n) (requires_of e) seen
        (All-lower (requires_of e) (height e) n (omega arith) (height-requires_of e)))
      λ parents. (yield_entry e parents, refl)

All-low : (es : Clause) → All (λ e. height e < 3) es
All-low [] = tt
All-low (e ∷ es) = (omega (arith, height-le e), All-low es)

expand_clause-Returns : (n : ℕ) (clause : Clause) → 3 ≤ n → Returns (expand_clause n clause)
unfolding expand_clause
expand_clause-Returns n clause h =
    bind-Returns (expand_each (expand_predicate n) clause []) _
      (expand_each-Returns (expand_predicate n) n (expand_predicate-Returns n) clause []
        (All-lower clause 3 n h (All-low clause)))
      λ r. (r.0, refl)

map_ok-Returns :
    {A B : Type 0} (f : A → Result Predicates.Error B)
    → ((a : A) → Returns (f a))
    → (rows : List A) → Returns (map_ok f rows)
map_ok-Returns f h [] = ([], refl)
map_ok-Returns f h (a ∷ rows) =
    bind-Returns (f a) _ (h a)
      λ b. bind-Returns (map_ok f rows) _ (map_ok-Returns f h rows) λ bs. (b ∷ bs, refl)

-- With room for three nested calls, every permission map is resolved.
pub resolve_predicates-Returns :
    (n : ℕ) (mapping : Mapping)
    → 3 ≤ n
    → (resolved : Mapping) × (resolve_predicates n mapping ≡ ok resolved)
unfolding resolve_predicates
resolve_predicates-Returns n mapping h =
    map_ok-Returns (resolve_entry n)
      (λ entry.
        bind-Returns (map_ok (expand_clause n) entry.1) _
          (map_ok-Returns (expand_clause n) (λ clause. expand_clause-Returns n clause h) entry.1)
          λ resolved. ((entry.0, resolved), refl))
      mapping
