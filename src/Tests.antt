-- ===== src/Tests.antt =====
-- Runs of the model, and its theorems at concrete data.
mod Data
mod Security
mod Annotations
mod Paginator
mod Groups
mod Streamer
mod Services
mod Ids
mod Users
mod Sync
mod Oauth
