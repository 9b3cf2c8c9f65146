-- ===== src/Lib.antt =====
-- Kapsaro, an offline tool that keeps a team's secrets encrypted in a Git repository.
--
-- A secret is an encrypted document (`kv-enc` text or a JSON file) whose content key is wrapped for
-- each recipient. A member is a handle with public keys, each named by a key id (`kid`). The operator's
-- local trust store remembers which keys, and which recipients of which artifact, have been approved.
-- Reading a document goes through the parts below in this order: its text is parsed and its structure
-- checked (Kv, Document), its signer is judged against the active members, the trust store and the
-- operator's own keys (Trust.Judgment), and what an operator approves is written back to the store
-- (Trust.KnownKeys, Trust.RecipientSets). The stored trust store itself is taken over only when its signature
-- and contents pass (Trust.Verification). Writing changes a draft of a document and signs it again
-- (Kv.Draft, Kv.Mutate); when the members change, a file is rewrapped for them (Rewrap). A walk over the
-- directories of local state reports what others could read or replace (LocalState).
--
-- Paths are those of the repository; `core` stands for crates/kapsaro-core/src.
--   Base, Text         the parts of the Rust standard library that the code calls: lists, `str`
--                      methods on code points, `BTreeSet<String>`, and maps with `String` keys
--   Errors             core/error.rs: `Result` with the error value; a message is its template
--   Duration           core/support/time.rs, relative durations, with the bounds of `i64`
--   Kv.Dotenv          core/format/kv/dotenv.rs
--   Kv.Line, Kv.Enc    core/model/kv_enc/line.rs, core/format/kv/enc/{parser,canonical,writer}.rs, and the SIG
--                      line of core/feature/envelope/signature.rs
--   Kv.Structure       core/format/kv/document/structure.rs, the checks on the sequence of lines
--   Kv.Document        core/format/kv/document/parse.rs, and the token checks of structure.rs
--   Kv.Draft           core/format/kv/document/{draft,builder}.rs
--   Kv.Mutate          core/feature/kv/mutate.rs for a document that exists, with what it calls of
--                      core/feature/kv/{header,entry_codec,sign,error,types}.rs and rewrite_session
--   Identity.Kid       core/support/kid.rs, and `Kid` of core/model/identity.rs
--   Identity.Derive    `encode_crockford_base32` of core/format/kid.rs
--   Identity.Handle    `validate_member_handle` of core/support/validation.rs, and `MemberHandle`
--   Identity.Names     the other names of core/support/validation.rs
--   Model              core/model/{public_key,trust_store,file_enc}.rs and core/model/kv_enc, the structs
--   Document           core/support/json_limits.rs, core/format/wrap.rs, core/feature/envelope/wrap_set.rs,
--                      core/feature/disclosure.rs
--   Trust.KnownKeys    core/feature/trust/known_keys.rs
--   Trust.Purge        core/feature/trust/purge.rs
--   Trust.Judgment     core/feature/trust/judgment/*.rs, `check_public_key` of core/feature/context/crypto.rs
--   Trust.RecipientSets  core/feature/trust/recipient_sets/{record,mutation}.rs
--   Trust.Store        core/feature/trust/store_mutation.rs
--   Trust.Verification  core/feature/trust/verification.rs, and the snapshot of signer_keys.rs
--   Rewrap.Wrap        core/feature/envelope/wrap.rs
--   Rewrap.Recipient   core/feature/recipient.rs
--   Rewrap.Plan        core/feature/rewrap.rs: the plan, its steps, and the trait of an executor as a
--                      record, which Rewrap.File fills
--   Rewrap.File        core/feature/rewrap/file.rs and core/feature/rewrap/file_op
--   LocalState.Scan    core/support/fs/relative.rs, the listing of a directory
--   LocalState.Permission, LocalState.Walk  core/support/fs/permission.rs, the walk over a tree
--   LocalState.Ancestry  the same file, the scan of the directories above local state
--
-- Functions keep their names. A `&mut` argument becomes an argument and a part of the result, in the
-- order (state left, value returned). A character is its code point; a length in bytes is `len`. A panic
-- is an outer `none` (Trust.Judgment.KnownKeyMatch, Identity.Derive). Every loop is structural recursion
-- over its input, so no fuel is used. The walk over local state goes down the levels that its own limit
-- leaves: six levels of directories and 1024 entries, the limits of the code, end it on any tree. Counters of type `usize` are natural numbers: each grows by at most one for each
-- byte or line of an input that is in memory.
--
-- Parameters: RFC 3339 parsing (`time`), UUID parsing (`uuid`), and what rests on a third-party package or
-- on the machine: base64url decoding (core/format/codec over `base64`), the hash of a recipient set
-- (core/format/jcs and `sha2`), JSON schemas and JSON tokens (`serde_json`), sealing, key derivation,
-- ciphers and signatures, the clock, random keys, the file system, and the answers of the local
-- keystore. Such a parameter is a function of its arguments, so the clock, a random key and a directory
-- answer the same throughout one call. No property assumes more of a parameter than a hypothesis that
-- it names.
--
-- Not modelled: the command line, files and locks beyond the listing of a directory, SSH and GitHub
-- access, cryptography, configuration, messages for display; and of the core logic the rewrap of kv
-- documents, new kv documents, import and query, reading the signer's key, and canonical JSON.
mod Base
pub mod Duration
pub mod Errors
pub mod Text
pub mod Kv
pub mod Identity
pub mod Model
pub mod Document
pub mod Trust
pub mod Rewrap
pub mod LocalState
