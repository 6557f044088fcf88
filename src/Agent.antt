-- ===== src/Agent.antt =====
-- internal/agent: the decisions that an agent makes by itself.
pub mod Restore
pub mod Scan
pub mod Upload
pub mod Backup
pub mod Config
pub mod SchedTrigger
pub mod SchedTasks
