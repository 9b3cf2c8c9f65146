-- ===== src/LocalState.antt =====
-- The inspection of kapsaro's own files: crates/kapsaro-core/src/support/fs/relative.rs, the listing of a
-- directory, and support/fs/permission.rs, the judgment of what it holds.
pub mod Scan
pub mod Permission
pub mod Walk
pub mod Ancestry
mod Tests
