-- ===== src/Domain.antt =====
-- packages/session-domain/src: pure functions on sessions, plans and version graphs.
pub mod Text
pub mod CanonicalJson
pub mod Diff
pub mod Plan
pub mod Topology
pub mod Graph
