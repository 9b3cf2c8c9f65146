-- ===== src/Trust/Tests/Signed.antt =====
-- A run of feature/trust/verification.rs, with signatures that are all genuine.
use kapsaro.Base.{[], ◌∷◌, ◌≡◌, refl, Text, none, some}
use kapsaro.Errors.{ok}
use kapsaro.Text.{codes, text_eq}
use kapsaro.Identity.Kid.{
  from_canonical, normalize_kid, normalize_kid_query, undashed, is_crockford_base32_byte,
}
use kapsaro.Identity.Handle.{member_handle, validate_member_handle}
use kapsaro.Identity.Tests.{kid_a, alice}
use kapsaro.Model.PublicKey.{PublicKey}
use kapsaro.Model.TrustStore.{manual_review, TrustStoreDocument}
use kapsaro.Trust.Store.{local_trust_v1}
use kapsaro.Trust.Verification.{Verifier, signature_ed25519, SignerKeySnapshot, verify_trust_store}
use kapsaro.Trust.Verification.Sound.{IsSigned, verify_trust_store-IsSigned}

abbrev verifier : Verifier
verifier = record {
  VerifyingKey = Text;
  validate_schema = λ doc. ok tt;
  verify_public_key = λ key. ok key.signature;
  build_trust_store_signature_bytes = λ protected. ok protected.owner_handle;
  decode_ed25519_signature = λ sig. ok sig;
  verify_detached_bytes = λ bytes key sig. ok tt;
  parse_sid = λ sid. some sid;
  hash = λ kids. ok [];
  parse_time = λ time. some 0;
}

abbrev signer : PublicKey
signer = record {
  protected = record {
    format = [];
    subject_handle = alice;
    kid = kid_a;
    keys = record {
      kem = record { kty = []; crv = []; x = [] };
      sig = record { kty = []; crv = []; x = [] };
    };
    binding_claims = none;
    attestation = record { method = []; pub_ = []; sig = [] };
    expires_at = [];
    created_at = none;
  };
  signature = [];
}

abbrev signed_store : TrustStoreDocument
signed_store = record {
  protected = record {
    format = local_trust_v1;
    owner_handle = alice;
    created_at = codes "1Z";
    updated_at = codes "2Z";
    known_keys =
        record {
          kid = kid_a;
          subject_handle = alice;
          approved_at = codes "1Z";
          approved_via = manual_review;
          evidence = none;
          extra = [];
        }
        ∷ [];
    recipient_sets = [];
  };
  signature = record { alg = signature_ed25519; kid = kid_a; sig = codes "s" };
}

abbrev snapshot : SignerKeySnapshot
snapshot = record { owner = alice; key = some (kid_a, signer) }

taken_over :
    verify_trust_store verifier signed_store snapshot
    ≡ ok (record { document = signed_store; owner_handle = alice })
unfolding verify_trust_store text_eq from_canonical normalize_kid normalize_kid_query undashed
    is_crockford_base32_byte member_handle validate_member_handle
taken_over = refl

verify_trust_store-IsSigned_example :
    (signed_store ≡ signed_store) × (alice ≡ alice) × IsSigned verifier signed_store snapshot
verify_trust_store-IsSigned_example =
    verify_trust_store-IsSigned verifier signed_store snapshot
      (record { document = signed_store; owner_handle = alice }) taken_over
