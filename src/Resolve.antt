-- ===== src/Resolve.antt =====
-- pkg/resolve/taskgroup.go: how a TaskGroup becomes one task.
pub mod Merge
pub mod Replace
pub mod Task
