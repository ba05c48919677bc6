-- ===== src/Tests.antt =====
-- The theorems at concrete inputs.
mod Setup
mod Logs
mod States
mod Commits
mod Opens
mod Groups
mod Indexes
mod Replicas
mod Compactions
mod Histories
mod Closes
