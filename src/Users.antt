-- ===== src/Users.antt =====
-- util/user.py and the services on users.
pub mod Userid
pub mod Username
pub mod Service
pub mod Fetched
pub mod FetchedAll
pub mod Rename
pub mod Reindexed
pub mod Worker
pub mod Purge
pub mod Executed
pub mod Purged
pub mod Counts
pub mod Progress
