-- ===== src/Kernel.antt =====
-- kernel/: task descriptors, the scheduler, and message passing.
pub mod State
pub mod Tasks
pub mod Launch
pub mod Lifecycle
pub mod Events
pub mod Communication
pub mod Runs
pub mod Stats
pub mod Tests
