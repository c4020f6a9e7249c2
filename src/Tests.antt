-- ===== src/Tests.antt =====
-- The theorems at concrete inputs.
mod Double
mod Keys
mod Tables
mod Lenses
mod Polls
mod Registry
mod Service
mod Locks
mod Sorting
mod Logs
