-- ===== src/Tests.antt =====
-- Runs of the definitions on concrete inputs, and instances of the theorems.
mod Domain
mod Journal
mod Executor
mod Recovery
mod Locks
mod Graph
mod Topology
mod Retention
mod Wal
mod Stream
