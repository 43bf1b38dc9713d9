-- ===== src/Transaction.antt =====
-- packages/transaction-engine/src: a plan is carried out as one recoverable transaction.
pub mod Journal
pub mod Rows
pub mod Store
pub mod Confirmation
pub mod World
pub mod Lock
pub mod Transition
pub mod Executor
pub mod Apply
pub mod Restore
pub mod Recovery
