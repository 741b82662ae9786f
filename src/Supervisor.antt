-- ===== src/Supervisor.antt =====
-- src/supervisor.rs and src/supervisor: the decisions of the supervisor that are modelled.
pub mod Idle
