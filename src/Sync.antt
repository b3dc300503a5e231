-- ===== src/Sync.antt =====
-- src/joplin_md_sync/sync.py: the engine that applies a plan.
pub mod Run
pub mod Bundle
pub mod Act
pub mod Guards
pub mod Folders
pub mod Tags
pub mod Push
pub mod Handlers
pub mod Careful
pub mod Honest
pub mod Guarded
pub mod Pushed
pub mod Recording
pub mod Relocated
pub mod Safety
pub mod Format
pub mod Snapshot
pub mod Written
pub mod Verified
pub mod Recovered
pub mod Quarantine
