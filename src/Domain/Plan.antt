-- ===== src/Domain/Plan.antt =====
-- packages/session-domain/src/planner.ts: plans are made (`Create`), named by the hash of their
-- content (`Payload`), and admitted for execution (`Validate`).
pub mod Payload
pub mod Create
pub mod Validate
pub mod Replay
