-- ===== src/Runtime.antt =====
-- core/runtime: the durable task runtime.
pub mod Status
pub mod Budget
pub mod Task
pub mod Cancellation
