-- ===== src/Conflicts.antt =====
-- src/joplin_md_sync/conflicts.py: conflict bundles, which are created, resolved and discarded.
pub mod Create
pub mod Idempotent
pub mod Stale
pub mod Resolve
pub mod Spares
pub mod Closes
pub mod Committed
