-- ===== src/Sync.antt =====
-- services/annotation_sync.py and services/job_queue.py: the job queue, and the rounds that bring
-- the search index to where the database is.
pub mod Queue
pub mod Counter
pub mod Helpers
pub mod Rounds
