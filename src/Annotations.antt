-- ===== src/Annotations.antt =====
-- services/annotation_write.py, annotation_delete.py and annotation_moderation.py: how annotations
-- are written.
pub mod Ids
pub mod Tables
pub mod Documents
pub mod Write
pub mod Delete
pub mod Checked
pub mod Mirrored
pub mod History
pub mod Changed
pub mod Merged
pub mod Kept
pub mod Queued
pub mod Created
pub mod Removed
pub mod Hidden
