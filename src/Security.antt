-- ===== src/Security.antt =====
-- security/: who may do what.
pub mod Permission
pub mod Identity
pub mod Predicates
pub mod Clauses
pub mod PermissionMap
pub mod Permits
