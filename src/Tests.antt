-- ===== src/Tests.antt =====
-- Concrete stores and runs of the model: the tests, and the theorems at inputs that meet their
-- hypotheses.
pub mod Samples
pub mod Opened
mod Tasks
mod Claims
mod Transitions
mod Redaction
mod Auth
mod Events
mod Ready
mod Policy
mod Messages
pub mod Sessions
mod Supervision
mod Config
mod Idle
mod Json
mod Shutdown
