-- ===== src/Services.antt =====
-- services/: the services that keep a cache beside a table, or publish what they change.
pub mod Nipsa
pub mod Flag
pub mod GroupMembers
pub mod AuthTicket
pub mod Feature
