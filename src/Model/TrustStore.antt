-- ===== src/Model/TrustStore.antt =====
-- crates/kapsaro-core/src/model/trust_store.rs: the local store of approvals.
-- A value of the forward-compatible `extra` fields is its JSON text.
use kapsaro.Base.{ℕ, Option, List, Text}
use native.Mathlib.Decide.{ℕ_discrete}

pub data ApprovalVia : Type 0 where
  manual_review : ApprovalVia

pub record KnownKeyGithubAccount : Type 0 where
  pub id : ℕ
  pub login : Option Text

pub record KnownKeyEvidence : Type 0 where
  pub github_account : Option KnownKeyGithubAccount
  pub ssh_attestor_pub : Option Text

pub record KnownKey : Type 0 where
  pub kid : Text
  pub subject_handle : Text
  pub approved_at : Text
  pub approved_via : ApprovalVia
  pub evidence : Option KnownKeyEvidence
  pub extra : List (Text × Text)

pub record RecipientHandleHint : Type 0 where
  pub kid : Text
  pub recipient_handle : Text

pub record RecipientSetRecord : Type 0 where
  pub sid : Text
  pub recipient_kids : List Text
  pub recipient_set_hash : Text
  pub approved_at : Text
  pub approved_via : ApprovalVia
  pub recipient_handle_hints : Option (List RecipientHandleHint)

-- the derived `PartialEq`
pub RecipientSetRecord-discrete : Discrete RecipientSetRecord
RecipientSetRecord-discrete = hlevel ℕ_discrete

pub record TrustStoreProtected : Type 0 where
  pub format : Text
  pub owner_handle : Text
  pub created_at : Text
  pub updated_at : Text
  pub known_keys : List KnownKey
  pub recipient_sets : List RecipientSetRecord

pub record TrustStoreSignature : Type 0 where
  pub alg : Text
  pub kid : Text
  pub sig : Text

pub record TrustStoreDocument : Type 0 where
  pub protected : TrustStoreProtected
  pub signature : TrustStoreSignature
