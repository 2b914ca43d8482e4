-- ===== src/Security/Permission.antt =====
-- security/permissions.py
use subtask.Base.{Eq}

pub data Permission : Type 0 where
  group_read group_write group_create group_edit group_flag group_moderate : Permission
  group_join group_member_add : Permission
  annotation_read annotation_read_realtime_updates annotation_update : Permission
  annotation_create annotation_delete annotation_flag annotation_moderate : Permission
  user_read user_create user_update : Permission
  profile_update admin_page_high_risk admin_page_low_risk api_bulk_action : Permission

unfoldable pub Permission-discrete : Discrete Permission
Permission-discrete = hlevel

instance unfoldable pub permission_eq : Eq Permission
unfolding Permission-discrete
permission_eq = record { dec = Permission-discrete }
