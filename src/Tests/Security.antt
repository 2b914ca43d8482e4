-- ===== src/Tests/Security.antt =====
-- Permissions at a small site.
use subtask.Base.{
  ◌≡◌, refl, true, false, some, [], ◌∷◌, All, contains, ok, arith, nat_eq, string_eq,
}
use subtask.Security.Permission
use subtask.Security.Permission.{Permission}
use subtask.Security.Identity.{annotation_context, group_context, authenticated_userid}
use subtask.Security.Predicates.{Predicate}
use subtask.Security.Clauses.{
  Clause, Mapping, predicate, entry_eq, expand_clause, resolve_predicates,
}
use subtask.Security.Clauses.Order.{IsOrdered, expand_clause-IsOrdered}
use subtask.Security.Clauses.Total.{resolve_predicates-Returns}
use subtask.Security.PermissionMap.{declared_map, permission_map}
use subtask.Security.Permits.{clauses_of, identity_permits}
use subtask.Security.Permits.Resolved.{decides, identity_permits-resolve_predicates}
use subtask.Security.Permits.Granted.{granted, identity_permits-granted}
use subtask.Security.Permits.Policy.{identity_permits-private}
use subtask.Tests.Data.{author, reader, logged_in, note, team, world_group}

abbrev clause : Clause
clause =
    predicate Predicate.group_readable_by_members
    ∷ predicate Predicate.group_has_user_as_member
    ∷ []

-- Two predicates that share a parent: it is listed once.
abbrev expanded : Clause
expanded =
    predicate Predicate.group_found
    ∷ predicate Predicate.group_readable_by_members
    ∷ predicate Predicate.authenticated
    ∷ predicate Predicate.authenticated_user
    ∷ predicate Predicate.group_has_user_as_member
    ∷ []

expand_clause-shared_parent : expand_clause 3 clause ≡ ok expanded
unfolding expand_clause entry_eq
expand_clause-shared_parent = refl

expand_clause-IsOrdered_example :
    IsOrdered [] expanded × All (λ e. contains expanded e ≡ true) clause
expand_clause-IsOrdered_example =
    expand_clause-IsOrdered 3 clause expanded expand_clause-shared_parent

resolve_predicates-Returns_example :
    (resolved : Mapping) × (resolve_predicates 3 declared_map ≡ ok resolved)
resolve_predicates-Returns_example = resolve_predicates-Returns 3 declared_map (omega arith)

small_map : Mapping
small_map = (Permission.group_read, clause ∷ []) ∷ []

abbrev small_resolved : Mapping
small_resolved = (Permission.group_read, expanded ∷ []) ∷ []

small_map-resolved : resolve_predicates 3 small_map ≡ ok small_resolved
unfolding resolve_predicates entry_eq small_map
small_map-resolved = refl

identity_permits-resolve_predicates_example :
    identity_permits small_resolved
      (logged_in reader)
      (group_context (some team))
      1
      Permission.group_read
    ≡ ok (
        decides
          (logged_in reader)
          (group_context (some team))
          (λ p. false)
          (clauses_of Permission.group_read small_map))
unfolding clauses_of small_map Permission.permission_eq
identity_permits-resolve_predicates_example =
    identity_permits-resolve_predicates 3 small_map small_resolved small_map-resolved
      (logged_in reader) (group_context (some team)) (λ p. false) 0 Permission.group_read
      ((tt, (tt, tt)), tt)

identity_permits-granted_example :
    identity_permits permission_map
      (logged_in reader)
      (annotation_context (note team true false))
      2
      Permission.annotation_read
    ≡ ok true
unfolding granted nat_eq string_eq
identity_permits-granted_example =
    identity_permits-granted (logged_in reader) (annotation_context (note team true false)) 0
      Permission.annotation_read

author_reads :
    identity_permits permission_map
      (logged_in author)
      (annotation_context (note team false false))
      2
      Permission.annotation_read
    ≡ ok true
unfolding permission_map identity_permits entry_eq nat_eq string_eq
author_reads = refl

identity_permits-private_example :
    authenticated_userid (logged_in author) ≡ some "acct:ann@example.com"
identity_permits-private_example =
    identity_permits-private (logged_in author) (note team false false) 0 Permission.annotation_read
      refl refl author_reads

reader_flags :
    identity_permits permission_map
      (logged_in reader)
      (annotation_context (note world_group true false))
      2
      Permission.annotation_flag
    ≡ ok true
unfolding permission_map identity_permits entry_eq nat_eq string_eq
reader_flags = refl
