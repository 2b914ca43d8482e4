-- ===== src/Annotations/Kept.antt =====
-- The calls keep the slim rows as the annotations are.
use subtask.Base.{string_eq}
