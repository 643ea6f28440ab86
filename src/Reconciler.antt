-- ===== src/Reconciler.antt =====
-- pkg/reconciler/taskgroup/taskgroup.go: what the controller does for a Run.
pub mod Labels
pub mod Env
pub mod Pass
pub mod Create
pub mod Observe
pub mod Kind
pub mod History
pub mod Controller
