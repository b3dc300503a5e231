-- ===== src/Planner.antt =====
-- src/joplin_md_sync/planner.py: three-way classification and the operation plan.
pub mod Notes
pub mod Folders
pub mod Classify
pub mod Draft
pub mod Plan
