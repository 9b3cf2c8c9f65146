-- ===== src/Model/PublicKey.antt =====
-- crates/kapsaro-core/src/model/public_key.rs: a member's public key document.
use kapsaro.Base.{ℕ, Option, Text}
use native.Mathlib.Decide.{ℕ_discrete}

pub record JwkOkpPublicKey : Type 0 where
  pub kty : Text
  pub crv : Text
  pub x : Text

pub record IdentityKeys : Type 0 where
  pub kem : JwkOkpPublicKey
  pub sig : JwkOkpPublicKey

pub record Attestation : Type 0 where
  pub method : Text
  pub pub_ : Text
  pub sig : Text

pub record GithubAccount : Type 0 where
  pub id : ℕ
  pub login : Text

pub record BindingClaims : Type 0 where
  pub github_account : Option GithubAccount

pub record PublicKeyProtected : Type 0 where
  pub format : Text
  pub subject_handle : Text
  pub kid : Text
  pub keys : IdentityKeys
  pub binding_claims : Option BindingClaims
  pub attestation : Attestation
  pub expires_at : Text
  pub created_at : Option Text

pub record PublicKey : Type 0 where
  pub protected : PublicKeyProtected
  pub signature : Text

-- the derived `PartialEq`
pub PublicKey-discrete : Discrete PublicKey
PublicKey-discrete = hlevel ℕ_discrete
