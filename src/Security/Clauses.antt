-- ===== src/Security/Clauses.antt =====
-- security/predicates.py: `resolve_predicates`, which puts the predicates that a clause requires
-- into it, in an order in which they can be run.
pub mod Order
pub mod Total
pub mod Closed
use subtask.Base.{
  ℕ, zero, suc, List, [], ◌∷◌, ◌++◌, map, Eq, contains, Result, ok, err, ◌>>=◌, if◌then◌else◌,
}
use subtask.Security.Permission.{Permission, Permission-discrete}
use subtask.Security.Predicates.{Predicate, requires, Error, recursion_error}

-- What a clause lists: a predicate, or a permission that is looked up in turn.
pub data Entry : Type 0 where
  predicate : Predicate → Entry
  permission : Permission → Entry

unfoldable pub Predicate-discrete : Discrete Predicate
Predicate-discrete = hlevel

unfoldable pub Entry-discrete : Discrete Entry
unfolding Predicate-discrete Permission-discrete
Entry-discrete = hlevel (Predicate-discrete, Permission-discrete)

instance unfoldable pub entry_eq : Eq Entry
unfolding Entry-discrete
entry_eq = record { dec = Entry-discrete }

abbrev pub Clause : Type 0
Clause = List Entry

abbrev pub Mapping : Type 0
Mapping = List (Permission × List Clause)

-- A permission has no attribute `requires`.
unfoldable pub requires_of : Entry → Clause
unfolding requires
requires_of (predicate p) = map predicate (requires p)
requires_of (permission _) = []

-- What the generators yield, with `seen_before` as they leave it.
abbrev pub Expansion : Type 0
Expansion = Result Error (Clause × Clause)

-- `chain.from_iterable(expand(entry) for entry in entries)`
unfoldable pub expand_each : (Entry → Clause → Expansion) → Clause → Clause → Expansion
expand_each expand [] seen = ok ([], seen)
expand_each expand (e ∷ es) seen = do
  (out, seen') ← expand e seen
  (rest, seen'') ← expand_each expand es seen'
  ok (out ++ rest, seen'')

-- The end of `_expand_predicate`, after its parents.
unfoldable pub yield_entry : Entry → Clause × Clause → Clause × Clause
yield_entry e (out, seen) =
    if contains seen e then (out, seen) else (out ++ (e ∷ []), seen ++ (e ∷ []))

-- The fuel is how deep calls may nest.
unfoldable pub expand_predicate : ℕ → Entry → Clause → Expansion
unfolding expand_each yield_entry requires_of
expand_predicate zero e seen = err recursion_error
expand_predicate (suc n) e seen = do
  parents ← expand_each (expand_predicate n) (requires_of e) seen
  ok (yield_entry e parents)

unfoldable pub expand_clause : ℕ → Clause → Result Error Clause
unfolding expand_predicate
expand_clause n clause = do (out, _) ← expand_each (expand_predicate n) clause []; ok out

-- `[f(x) for x in xs]`, for a call that may raise
abbrev pub map_ok : {A B : Type 0} → (A → Result Error B) → List A → Result Error (List B)
map_ok f [] = ok []
map_ok f (x ∷ xs) = do y ← f x; ys ← map_ok f xs; ok (y ∷ ys)

unfoldable pub resolve_entry :
    ℕ → Permission × List Clause → Result Error (Permission × List Clause)
unfolding expand_clause
resolve_entry n (key, clauses) = do resolved ← map_ok (expand_clause n) clauses; ok (key, resolved)

unfoldable pub resolve_predicates : ℕ → Mapping → Result Error Mapping
unfolding resolve_entry
resolve_predicates n mapping = map_ok (resolve_entry n) mapping
