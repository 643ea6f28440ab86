-- ===== src/Tests.antt =====
-- Runs on concrete data, and the theorems at inputs that meet their hypotheses.
mod Tracking
mod Cancelling
pub mod Sample
pub mod Resolve
pub mod World
mod Merging
pub mod Resolution
pub mod Running
mod Outcomes
mod Creations
mod Observing
mod Clients
mod Copies
pub mod RunLaws
mod Histories
mod Dynamics
mod Injecting
