-- ===== src/Identity.antt =====
-- Key ids, member handles and the names of accounts and files.
pub mod Kid
pub mod Handle
pub mod Names
pub mod Derive
pub mod Tests
