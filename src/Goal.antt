-- ===== src/Goal.antt =====
-- core/goal: durable long-running goals.
pub mod Model
pub mod Runtime
