-- ===== src/Security/Permits/Policy.antt =====
-- What the permission map keeps from a caller, whoever it is.
use subtask.Base.{
  ℕ, suc, ◌≡◌, ap, ◌∙◌, sym, Bool, true, false, Option, some, ok, ok-injective, arith,
}
use subtask.Models.{Annotation}
use subtask.Security.Permission.{Permission}
use subtask.Security.Identity.{Identity, Context, annotation_context, authenticated_userid}
use subtask.Security.PermissionMap.{permission_map}
use subtask.Security.Permits.{identity_permits}
use subtask.Security.Permits.Granted.{granted, identity_permits-granted}

-- The permissions that are asked about an annotation that exists, and those of them that end when
-- it is deleted.
abbrev pub is_about_annotation : Permission → Bool
is_about_annotation Permission.annotation_read = true
is_about_annotation Permission.annotation_read_realtime_updates = true
is_about_annotation Permission.annotation_update = true
is_about_annotation Permission.annotation_delete = true
is_about_annotation Permission.annotation_flag = true
is_about_annotation Permission.annotation_moderate = true
is_about_annotation _ = false

abbrev pub is_about_live_annotation : Permission → Bool
is_about_live_annotation Permission.annotation_read_realtime_updates = false
is_about_live_annotation p = is_about_annotation p

module _ (i : Option Identity) (a : Annotation) where
  granted_private :
      (p : Permission)
      → is_about_annotation p ≡ true
      → a.shared ≡ false
      → granted i (annotation_context a) p ≡ true
      → authenticated_userid i ≡ some a.userid
  unfolding granted
  granted_private Permission.annotation_read h k g = ground arith
  granted_private _ h k g = ground arith

  -- A private annotation is open to its author alone, whatever one would do with it.
  pub identity_permits-private :
      (m : ℕ) (p : Permission)
      → is_about_annotation p ≡ true
      → a.shared ≡ false
      → identity_permits permission_map i (annotation_context a) (suc (suc m)) p ≡ ok true
      → authenticated_userid i ≡ some a.userid
  identity_permits-private m p h k g =
      granted_private p h k
        (ok-injective _ _ (sym (identity_permits-granted i (annotation_context a) m p) ∙ g))

  granted_deleted :
      (p : Permission)
      → is_about_live_annotation p ≡ true
      → a.deleted ≡ true
      → granted i (annotation_context a) p ≡ false
  unfolding granted
  granted_deleted Permission.annotation_read h k = ground arith
  granted_deleted _ h k = ground arith

  -- Of a deleted annotation nothing is allowed but to be told of the deletion.
  pub identity_permits-deleted :
      (m : ℕ) (p : Permission)
      → is_about_live_annotation p ≡ true
      → a.deleted ≡ true
      → identity_permits permission_map i (annotation_context a) (suc (suc m)) p ≡ ok false
  identity_permits-deleted m p h k =
      identity_permits-granted i (annotation_context a) m p ∙ ap ok (granted_deleted p h k)

module _ (i : Option Identity) (c : Context) where
  granted_flag :
      granted i c Permission.annotation_flag ≡ true → granted i c Permission.annotation_read ≡ true
  unfolding granted
  granted_flag h = ground arith

  -- Who may flag an annotation may read it.
  pub identity_permits-flag :
      (m : ℕ)
      → identity_permits permission_map i c (suc (suc m)) Permission.annotation_flag ≡ ok true
      → identity_permits permission_map i c (suc (suc m)) Permission.annotation_read ≡ ok true
  identity_permits-flag m h =
      identity_permits-granted i c m Permission.annotation_read
      ∙ ap ok (
          granted_flag (
            ok-injective _ _ (sym (identity_permits-granted i c m Permission.annotation_flag) ∙ h)))
