-- ===== src/Store.antt =====
-- src/state.rs: the durable store of a run. The children are the records, the transaction monad,
-- the repository operations by table, and the mutations that compose them.
pub mod Records
pub mod Event
pub mod Control
pub mod Tx
pub mod Keys
pub mod Events
pub mod Rows
pub mod Claims
pub mod Transitions
pub mod Ownership
pub mod Mutate
pub mod Ready
pub mod Messages
pub mod Sessions
pub mod Credentials
pub mod Operations
pub mod Supervision
pub mod ClaimTask
pub mod TransitionTask
