-- ===== src/Security/PermissionMap.antt =====
-- security/permission_map.py: the map, and what `resolve_predicates` makes of it.
use subtask.Base.{[], ◌∷◌, Result, ok, err}
use subtask.Security.Predicates
use subtask.Security.Permission.{
  group_read, group_write, group_create, group_edit, group_flag, group_moderate, group_join,
  group_member_add, annotation_read, annotation_read_realtime_updates, annotation_update,
  annotation_create, annotation_delete, annotation_flag, annotation_moderate, user_read,
  user_create, user_update, profile_update, admin_page_high_risk, admin_page_low_risk,
  api_bulk_action,
}
use subtask.Security.Predicates.{
  authenticated, authenticated_user, user_is_staff, user_is_admin, authenticated_client,
  authenticated_client_is_lms, user_authority_matches_authenticated_client, annotation_shared,
  annotation_not_shared, annotation_live, annotation_created_by_user, group_writable_by_members,
  group_writable_by_authority, group_readable_by_world, group_readable_by_members,
  group_joinable_by_authority, group_created_by_user, group_has_user_as_member,
  group_matches_user_authority, group_matches_authenticated_client_authority,
}
use subtask.Security.Clauses.{predicate, permission, Mapping, resolve_predicates}

-- The literal that the module first binds to PERMISSION_MAP.
unfoldable pub declared_map : Mapping
declared_map =
    (admin_page_high_risk, (predicate user_is_admin ∷ []) ∷ [])
    ∷ (admin_page_low_risk, (predicate user_is_admin ∷ []) ∷ (predicate user_is_staff ∷ []) ∷ [])
    ∷ (user_create, (predicate authenticated_client ∷ []) ∷ [])
    ∷ (user_update, (predicate user_authority_matches_authenticated_client ∷ []) ∷ [])
    ∷ (user_read, (predicate user_authority_matches_authenticated_client ∷ []) ∷ [])
    ∷ (api_bulk_action, (predicate authenticated_client_is_lms ∷ []) ∷ [])
    ∷ (profile_update, (predicate authenticated_user ∷ []) ∷ [])
    ∷ (group_create, (predicate authenticated_user ∷ []) ∷ [])
    ∷ (
      group_write,
      (predicate group_writable_by_authority ∷ predicate group_matches_user_authority ∷ [])
          ∷ (predicate group_writable_by_members ∷ predicate group_has_user_as_member ∷ [])
          ∷ [],
    )
    ∷ (
      group_join,
      (predicate group_joinable_by_authority ∷ predicate group_matches_user_authority ∷ []) ∷ [],
    )
    ∷ (
      group_read,
      (predicate group_readable_by_world ∷ [])
          ∷ (predicate group_readable_by_members ∷ predicate group_has_user_as_member ∷ [])
          ∷ (predicate group_matches_authenticated_client_authority ∷ [])
          ∷ [],
    )
    ∷ (
      group_flag,
      (predicate group_readable_by_world ∷ predicate authenticated ∷ [])
          ∷ (predicate group_readable_by_members ∷ predicate group_has_user_as_member ∷ [])
          ∷ [],
    )
    ∷ (
      group_edit,
      (predicate group_matches_authenticated_client_authority ∷ [])
          ∷ (predicate group_created_by_user ∷ [])
          ∷ [],
    )
    ∷ (group_member_add, (predicate group_matches_authenticated_client_authority ∷ []) ∷ [])
    ∷ (group_moderate, (predicate group_created_by_user ∷ []) ∷ [])
    ∷ (annotation_create, (predicate authenticated ∷ []) ∷ [])
    ∷ (
      annotation_read_realtime_updates,
      (predicate annotation_not_shared ∷ predicate annotation_created_by_user ∷ [])
          ∷ (predicate annotation_shared ∷ permission group_read ∷ [])
          ∷ [],
    )
    ∷ (
      annotation_read,
      (predicate annotation_live
            ∷ predicate annotation_not_shared
            ∷ predicate annotation_created_by_user
            ∷ [])
          ∷ (predicate annotation_live ∷ predicate annotation_shared ∷ permission group_read ∷ [])
          ∷ [],
    )
    ∷ (
      annotation_flag,
      (predicate annotation_live
            ∷ predicate annotation_not_shared
            ∷ predicate annotation_created_by_user
            ∷ [])
          ∷ (predicate annotation_live ∷ predicate annotation_shared ∷ permission group_flag ∷ [])
          ∷ [],
    )
    ∷ (
      annotation_moderate,
      (predicate annotation_live ∷ predicate annotation_shared ∷ permission group_moderate ∷ [])
          ∷ [],
    )
    ∷ (
      annotation_update,
      (predicate annotation_live ∷ predicate annotation_created_by_user ∷ []) ∷ [],
    )
    ∷ (
      annotation_delete,
      (predicate annotation_live ∷ predicate annotation_created_by_user ∷ []) ∷ [],
    )
    ∷ []

-- The map that a call which returned has made; an import that raised leaves none.
abbrev value_of : Result Predicates.Error Mapping → Mapping
value_of (ok mapping) = mapping
value_of (err _) = []

-- The value of PERMISSION_MAP after the import.
unfoldable pub permission_map : Mapping
unfolding declared_map resolve_predicates
permission_map = value_of (resolve_predicates 3 declared_map)
