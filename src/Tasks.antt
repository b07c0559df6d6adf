-- ===== src/Tasks.antt =====
-- src/modules/tasks
pub mod Recurrence
pub mod Types
pub mod Workflow
pub mod Repositories
pub mod Evidence
pub mod Assignments
pub mod Recurring
pub mod Service
pub mod Editing
