-- ===== src/Resume.antt =====
-- Resume: the checkpoint of an interrupted scan. The children are the filter that the walk asks
-- (ResumePathFilter) and the manager that keeps the checkpoint file (ResumeManager).
pub mod PathFilter
pub mod Manager
pub mod Checkpoint
pub mod Tracking
pub mod Completing
pub mod Safe
pub mod Surviving
pub mod Restarted
pub mod Order
pub mod Tests
