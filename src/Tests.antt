-- ===== src/Tests.antt =====
-- Tests of the model on concrete inputs, and the theorems applied to them.
pub mod Sample
pub mod Plans
pub mod Json
pub mod Texts
pub mod Tools
pub mod Runs
pub mod Handlers
pub mod Folders
pub mod Notes
pub mod Scan
pub mod Snapshot
