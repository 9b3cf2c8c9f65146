-- ===== src/Model.antt =====
-- Documents of crates/kapsaro-core/src/model whose fields the rules of the trust store read.
pub mod PublicKey
pub mod TrustStore
pub mod FileEnc
pub mod KvEnc
