-- ===== src/Tests.antt =====
-- Runs on concrete inputs: a session of two participants, its log, its markets and their pools.
mod Data
mod Logs
mod Rules
mod Markets
mod Publishing
mod Gating
mod Program
mod Indexing
