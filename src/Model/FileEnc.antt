-- ===== src/Model/FileEnc.antt =====
-- crates/kapsaro-core/src/model/file_enc.rs: an encrypted file.
use kapsaro.Base.{List, Option, Text, map}
use kapsaro.Document.WrapSet.{WrapItem}
use kapsaro.Document.Removed.{RemovedRecipient}

pub record FileEncAlgorithm : Type 0 where
  pub aead : Text

pub record FilePayloadHeader : Type 0 where
  pub format : Text
  pub sid : Text
  pub alg : FileEncAlgorithm

pub record FilePayloadCiphertext : Type 0 where
  pub nonce : Text
  pub ct : Text

pub record FilePayload : Type 0 where
  pub protected : FilePayloadHeader
  pub encrypted : FilePayloadCiphertext

pub record FileEncDocumentProtected : Type 0 where
  pub format : Text
  pub sid : Text
  pub wrap : List WrapItem
  pub removed_recipients : Option (List RemovedRecipient)
  pub payload : FilePayload
  pub created_at : Text
  pub updated_at : Text

-- The signature (`ArtifactSignature`) is a parameter of the type.
pub record FileEncDocument (Signature : Type 0) : Type 0 where
  pub protected : FileEncDocumentProtected
  pub signature : Signature

-- the handles of wrap items, in order
abbrev pub handles : List WrapItem → List Text
handles = map (λ (w : WrapItem). w.recipient_handle)

-- `FileEncDocumentProtected::recipients`
abbrev pub recipients : FileEncDocumentProtected → List Text
recipients protected = handles protected.wrap
