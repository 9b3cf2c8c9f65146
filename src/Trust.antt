-- ===== src/Trust.antt =====
-- crates/kapsaro-core/src/feature/trust: which keys and recipient sets the operator has approved, and
-- what that says about a signer and about the recipients of an artifact.
pub mod Purge
pub mod KnownKeys
pub mod Judgment
pub mod RecipientSets
pub mod Store
pub mod Verification
mod Tests
