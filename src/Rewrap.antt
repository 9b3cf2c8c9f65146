-- ===== src/Rewrap.antt =====
-- crates/kapsaro-core/src/feature/recipient.rs, feature/rewrap.rs and feature/rewrap: a document whose
-- wrapped keys are brought to the members of a workspace.
pub mod Wrap
pub mod Recipient
pub mod Plan
pub mod File
pub mod Tests
