-- ===== src/Model/KvEnc.antt =====
-- crates/kapsaro-core/src/model/kv_enc: the decoded parts of a kv-enc document.
use kapsaro.Base.{Bool, List, Option, Text, find}
use kapsaro.Text.{text_eq}
use kapsaro.Document.WrapSet.{WrapItem}
use kapsaro.Document.Removed.{RemovedRecipient}
use kapsaro.Kv.Line.{KvEncLine}

pub record KvFileAlgorithm : Type 0 where
  pub aead : Text

pub record KvHeader : Type 0 where
  pub sid : Text
  pub alg : KvFileAlgorithm
  pub created_at : Text
  pub updated_at : Text

pub record KvWrap : Type 0 where
  pub wrap : List WrapItem
  pub removed_recipients : Option (List RemovedRecipient)

pub record KvEntryValue : Type 0 where
  pub nonce : Text
  pub ct : Text
  pub disclosed : Bool

pub record KvEncEntry : Type 0 where
  pub key : Text
  pub token : Text
  pub value : KvEntryValue

-- The signature (`ArtifactSignature`) is a parameter of the type.
pub record KvEncDocument (Signature : Type 0) : Type 0 where
  pub lines : List KvEncLine
  pub head : KvHeader
  pub wrap : KvWrap
  pub wrap_token : Text
  pub entries : List KvEncEntry
  pub signature : Signature

-- `KvEncDocument::entry`
unfoldable pub find_entry :
    {Signature : Type 0} → KvEncDocument Signature → Text → Option KvEncEntry
find_entry doc key = find (λ (e : KvEncEntry). text_eq e.key key) doc.entries
