-- ===== src/Plan.antt =====
-- core/plan: plans of dependent tasks.
pub mod Model
pub mod Dag
pub mod TaskStatus
pub mod Manager
pub mod Raw
