-- ===== src/Document.antt =====
-- The parts of an encrypted document that all its forms share: what may be parsed
-- (crates/kapsaro-core/src/support/json_limits.rs), who it is wrapped for (format/wrap.rs and
-- feature/envelope/wrap_set.rs) and who it was wrapped for before (feature/disclosure.rs).
pub mod JsonLimits
pub mod WrapSet
pub mod Removed
mod Tests
