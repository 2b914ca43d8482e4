-- ===== src/Security/Permits/Granted.antt =====
-- The permission map as a table of plain conditions, and that `identity_permits` decides it.
use subtask.Base.{ℕ, suc, ◌≡◌, refl, ◌∙◌, ap, Bool, true, ◌&&◌, ◌||◌, Option, ok, arith}
use subtask.Models.{JoinableBy, ReadableBy, WriteableBy}
use subtask.Security.Permission.{Permission, permission_eq}
use subtask.Security.Identity.{Identity, Context}
use subtask.Security.Predicates.{found, is_lms}
use subtask.Security.Predicates.Holds.{
  caller, client, is_author, is_creator, is_member, is_compatriot, is_group_client, is_user_client,
  is_live, is_shared, is_private, readable, writeable, joinable, holds,
}
use subtask.Security.Clauses.{entry_eq, resolve_predicates}
use subtask.Security.PermissionMap.{declared_map, permission_map}
use subtask.Security.Permits.{clauses_of, identity_permits}
use subtask.Security.Permits.Resolved.{decides, AllAnswered, identity_permits-resolve_predicates}

module _ (i : Option Identity) (c : Context) where
  abbrev pub may_read_group : Bool
  may_read_group =
      readable i c ReadableBy.world
      || readable i c ReadableBy.members && is_member i c
      || is_group_client i c

  abbrev may_flag_group : Bool
  may_flag_group =
      readable i c ReadableBy.world && found i || readable i c ReadableBy.members && is_member i c

  unfoldable pub granted : Permission → Bool
  granted Permission.admin_page_high_risk = caller i c (λ u. u.admin)
  granted Permission.admin_page_low_risk = caller i c (λ u. u.admin || u.staff)
  granted Permission.user_create = client i c (λ a. true)
  granted Permission.user_update = is_user_client i c
  granted Permission.user_read = is_user_client i c
  granted Permission.api_bulk_action = client i c (λ a. is_lms a.authority)
  granted Permission.profile_update = caller i c (λ u. true)
  granted Permission.group_create = caller i c (λ u. true)
  granted Permission.group_write =
      writeable i c WriteableBy.authority && is_compatriot i c
      || writeable i c WriteableBy.members && is_member i c
  granted Permission.group_join = is_compatriot i c && joinable i c JoinableBy.authority
  granted Permission.group_read = may_read_group
  granted Permission.group_flag = may_flag_group
  granted Permission.group_edit = is_group_client i c || is_creator i c
  granted Permission.group_member_add = is_group_client i c
  granted Permission.group_moderate = is_creator i c
  granted Permission.annotation_create = found i
  granted Permission.annotation_read_realtime_updates =
      is_private i c && is_author i c || is_shared i c && may_read_group
  granted Permission.annotation_read =
      is_live i c && (is_private i c && is_author i c || is_shared i c && may_read_group)
  granted Permission.annotation_flag =
      is_live i c && (is_private i c && is_author i c || is_shared i c && may_flag_group)
  granted Permission.annotation_moderate = is_live i c && is_shared i c && is_creator i c
  granted Permission.annotation_update = is_live i c && is_author i c
  granted Permission.annotation_delete = is_live i c && is_author i c

permission_map-resolved : resolve_predicates 3 declared_map ≡ ok permission_map
unfolding permission_map entry_eq
permission_map-resolved = refl

module _ (i : Option Identity) (c : Context) where
  -- The clauses as they are declared say what the table says.
  decides-granted :
      (p : Permission) → decides i c (granted i c) (clauses_of p declared_map) ≡ granted i c p
  unfolding declared_map clauses_of permission_eq holds granted
  decides-granted Permission.group_read = ground arith
  decides-granted _ = ground arith

  -- No permission of a group lists another, so one call is enough.
  group_permits :
      (m : ℕ)
      → (identity_permits permission_map i c (suc m) Permission.group_read
          ≡ ok (granted i c Permission.group_read))
        × (identity_permits permission_map i c (suc m) Permission.group_flag
            ≡ ok (granted i c Permission.group_flag))
        × (identity_permits permission_map i c (suc m) Permission.group_moderate
            ≡ ok (granted i c Permission.group_moderate))
  unfolding declared_map clauses_of permission_eq
  group_permits m =
      let by_clauses =
        identity_permits-resolve_predicates 3 declared_map permission_map permission_map-resolved i
          c (granted i c) m in
      (
        by_clauses Permission.group_read (omega arith)
            ∙ ap ok (decides-granted Permission.group_read),
        by_clauses Permission.group_flag (omega arith)
            ∙ ap ok (decides-granted Permission.group_flag),
        by_clauses Permission.group_moderate (omega arith)
            ∙ ap ok (decides-granted Permission.group_moderate),
      )

  answered :
      (m : ℕ) (p : Permission)
      → AllAnswered permission_map i c (granted i c) (suc m) (clauses_of p declared_map)
  unfolding declared_map clauses_of permission_eq
  answered m Permission.annotation_read = search (tt, (group_permits m).0)
  answered m Permission.annotation_read_realtime_updates = search (tt, (group_permits m).0)
  answered m Permission.annotation_flag = search (tt, (group_permits m).1)
  answered m Permission.annotation_moderate = search (tt, (group_permits m).2)
  answered m _ = omega arith

  -- Whatever is asked, `identity_permits` answers as the table says and raises nothing; two nested
  -- calls are the most.
  pub identity_permits-granted :
      (m : ℕ) (p : Permission)
      → identity_permits permission_map i c (suc (suc m)) p ≡ ok (granted i c p)
  identity_permits-granted m p =
      identity_permits-resolve_predicates 3 declared_map permission_map permission_map-resolved i c
        (granted i c) (suc m) p (answered m p)
      ∙ ap ok (decides-granted p)
