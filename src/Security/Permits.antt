-- ===== src/Security/Permits.antt =====
-- security/permits.py
pub mod Clauses
pub mod Resolved
pub mod Granted
pub mod Policy
use subtask.Base.{
  ℕ, zero, suc, Bool, false, Option, none, some, List, [], ◌∷◌, ◌==◌, Result, ok, err, any_ok,
  all_ok, if◌then◌else◌,
}
use subtask.Security.Permission.{Permission, permission_eq}
use subtask.Security.Identity.{Identity, Context}
use subtask.Security.Predicates.{Error, recursion_error, run}
use subtask.Security.Clauses.{Entry, predicate, permission, Clause, Mapping}

-- `mapping.get(permission)`
unfoldable pub clauses_of : Permission → Mapping → Option (List Clause)
clauses_of p [] = none
clauses_of p ((key, clauses) ∷ mapping) = if p == key then some clauses else clauses_of p mapping

-- Allowed is `true` and Denied is `false`, as the callers test them. A call of an entry that is a
-- permission raises the TypeError that is caught.
unfoldable pub predicate_true :
    Option Identity → Context → (Permission → Result Error Bool) → Entry → Result Error Bool
unfolding run
predicate_true i c permits (predicate p) = run p i c
predicate_true i c permits (permission p) = permits p

-- The fuel is how deep calls may nest.
unfoldable pub identity_permits :
    Mapping → Option Identity → Context → ℕ → Permission → Result Error Bool
unfolding predicate_true clauses_of permission_eq
identity_permits mapping i c zero p = err recursion_error
identity_permits mapping i c (suc n) p = elim (clauses_of p mapping) [
  | none ↦ ok false
  | some clauses ↦ any_ok (all_ok (predicate_true i c (identity_permits mapping i c n))) clauses
]
