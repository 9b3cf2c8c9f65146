-- ===== src/Trust/Judgment.antt =====
-- crates/kapsaro-core/src/feature/trust/judgment: what the members, the approved keys and the
-- operator's own keys say about one identity.
pub mod Identity
pub mod ActiveMember
pub mod KnownKeyMatch
pub mod SelfTrust
pub mod Signer
pub mod Recipient
