-- ===== src/Kv.antt =====
-- crates/kapsaro-core/src/format/kv.rs and below: dotenv text and the kv-enc line format.
pub mod Dotenv
pub mod Line
pub mod Enc
pub mod Draft
pub mod Document
pub mod Mutate
pub mod Structure
mod Tests
