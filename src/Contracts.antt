-- ===== src/Contracts.antt =====
-- packages/contracts/src: the types that the packages exchange (model.ts, plans.ts).
pub mod Json
pub mod Plan
pub mod Transaction
pub mod Schemas
pub mod Canonical
pub mod Write
pub mod Retention
pub mod Errors
