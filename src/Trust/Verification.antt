-- ===== src/Trust/Verification.antt =====
-- crates/kapsaro-core/src/feature/trust/verification.rs and signer_keys.rs: whether a stored trust store
-- is taken over. Where the snapshot was read from only stands in messages, and is left out.
pub mod Sound
use kapsaro.Base.{
  ℕ, Bool, true, false, not, List, [], ◌∷◌, Option, none, some, if◌then◌else◌, Text, map,
}
use kapsaro.Errors.{
  Error, Result, ok, err, ◌>>=◌, ◌>>◌, guard, ok_or, Rule, build_verification_error,
  build_crypto_error, build_invalid_operation_error, with_recovery, trust_signer_key_missing,
  bad_timestamp, repeated_kid, repeated_sid, format_mismatch, owner_mismatch, signer_kid_mismatch,
  signer_key_missing, signer_key_unverified, store_signature_unverified, unsupported_algorithm,
}
use kapsaro.Text.{codes, text_eq, contains, ends_with}
use kapsaro.Identity.Kid.{from_canonical}
use kapsaro.Identity.Handle.{member_handle}
use kapsaro.Model.PublicKey.{PublicKey}
use kapsaro.Model.TrustStore.{
  KnownKey, RecipientSetRecord, TrustStoreProtected, TrustStoreSignature, TrustStoreDocument,
}
use kapsaro.Trust.Purge.{ParseTime}
use kapsaro.Trust.RecipientSets.{ParseSid, HashKids, validate_recipient_set_record}
use kapsaro.Trust.Store.{local_trust_v1}

-- What the code takes from elsewhere: the JSON schema, the verification of a public key, the text
-- that is signed, the decoding and the verification of a signature, and the parsers of a record.
pub record Verifier : Type 1 where
  pub VerifyingKey : Type 0
  pub validate_schema : TrustStoreDocument → Result (Unit {0})
  pub verify_public_key : PublicKey → Result VerifyingKey
  pub build_trust_store_signature_bytes : TrustStoreProtected → Result (List ℕ)
  pub decode_ed25519_signature : Text → Result (List ℕ)
  pub verify_detached_bytes : List ℕ → VerifyingKey → List ℕ → Result (Unit {0})
  pub parse_sid : ParseSid
  pub hash : HashKids
  pub parse_time : ParseTime

pub record SignerKeySnapshot : Type 0 where
  pub owner : Text
  pub key : Option (Text × PublicKey)

pub record VerifiedTrustStore : Type 0 where
  pub document : TrustStoreDocument
  pub owner_handle : Text

-- `SIGNATURE_ED25519` of model/wire.rs
abbrev pub signature_ed25519 : Text
signature_ed25519 = codes "eddsa-ed25519"

-- `map_err` into another error
abbrev pub replace_error {ℓ} : {A : Type ℓ} → Error → Result A → Result A
replace_error e (ok value) = ok value
replace_error e (err cause) = err e

-- `SignerKeySnapshot::find`
unfoldable pub find_signer : SignerKeySnapshot → Text → Option PublicKey
find_signer s kid = elim s.key [ none ↦ none | some k ↦ if text_eq k.0 kid then some k.1 else none ]

-- `document_signer_kid`
unfoldable pub document_signer_kid : TrustStoreDocument → Option Text
document_signer_kid doc = elim (from_canonical doc.signature.kid) [
  | ok kid ↦ some kid
  | err e ↦ none
]

unfoldable pub validate_format : TrustStoreDocument → Result (Unit {0})
validate_format doc = guard (text_eq doc.protected.format local_trust_v1) (
    build_verification_error Rule.trust_format_mismatch
      (format_mismatch local_trust_v1 doc.protected.format))

unfoldable pub resolve_signer_public_key : TrustStoreDocument → SignerKeySnapshot → Result PublicKey
unfolding find_signer
resolve_signer_public_key doc signer_keys = do
  owner ← member_handle doc.protected.owner_handle
  guard (text_eq owner signer_keys.owner)
      (build_verification_error Rule.trust_owner_mismatch (owner_mismatch owner signer_keys.owner))
  kid ← from_canonical doc.signature.kid
  ok_or (find_signer signer_keys kid) (
      with_recovery (build_invalid_operation_error (signer_key_missing kid owner))
        trust_signer_key_missing)

unfoldable pub validate_kid_match : TrustStoreDocument → PublicKey → Result (Unit {0})
validate_kid_match doc signer = guard (text_eq doc.signature.kid signer.protected.kid) (
    build_verification_error Rule.trust_kid_mismatch
      (signer_kid_mismatch doc.signature.kid signer.protected.kid))

unfoldable pub validate_owner_match : TrustStoreDocument → PublicKey → Result (Unit {0})
validate_owner_match doc signer =
    guard (text_eq signer.protected.subject_handle doc.protected.owner_handle) (
      build_verification_error Rule.trust_owner_mismatch
        (owner_mismatch signer.protected.subject_handle doc.protected.owner_handle))

-- the loop of `validate_known_keys_uniqueness`
unfoldable pub unique_kids_from : List Text → List KnownKey → Result (Unit {0})
unique_kids_from seen_kids [] = ok tt
unique_kids_from seen_kids (key ∷ known_keys) =
    guard (not (contains seen_kids key.kid))
      (build_verification_error Rule.trust_duplicate_kid (repeated_kid key.kid))
    >> unique_kids_from (key.kid ∷ seen_kids) known_keys

module _ (v : Verifier) where
  open v use {
    VerifyingKey, validate_schema, verify_public_key, build_trust_store_signature_bytes,
    decode_ed25519_signature, verify_detached_bytes, parse_sid, hash, parse_time,
  }

  unfoldable pub verify_trust_store_bytes :
      List ℕ → VerifyingKey → TrustStoreSignature → Result (Unit {0})
  verify_trust_store_bytes canonical_bytes verifying_key signature = do
    guard (text_eq signature.alg signature_ed25519)
        (build_crypto_error (unsupported_algorithm signature.alg))
    signature_bytes ← decode_ed25519_signature signature.sig
    verify_detached_bytes canonical_bytes verifying_key signature_bytes

  unfoldable pub verify_trust_store_signature :
      TrustStoreDocument → VerifyingKey → Result (Unit {0})
  unfolding verify_trust_store_bytes
  verify_trust_store_signature doc verifying_key = do
    canonical ← build_trust_store_signature_bytes doc.protected
    replace_error (build_crypto_error store_signature_unverified)
        (verify_trust_store_bytes canonical verifying_key doc.signature)

  -- the loop of `validate_recipient_sets`
  unfoldable pub recipient_sets_from : List Text → List RecipientSetRecord → Result (Unit {0})
  recipient_sets_from seen_sids [] = ok tt
  recipient_sets_from seen_sids (r ∷ records) =
      guard (not (contains seen_sids r.sid))
        (build_verification_error Rule.recipient_set_duplicate_sid (repeated_sid r.sid))
      >> (validate_recipient_set_record parse_sid hash parse_time r
          >> recipient_sets_from (r.sid ∷ seen_sids) records)

  unfoldable pub validate_utc_timestamp : Text → Result (Unit {0})
  validate_utc_timestamp ts =
      if not (ends_with b'Z' ts)
      then err (build_verification_error Rule.trust_timestamp_not_utc (bad_timestamp ts))
      else elim (parse_time ts) [
        | none ↦ err (build_verification_error Rule.trust_timestamp_invalid (bad_timestamp ts))
        | some _ ↦ ok tt
      ]

  unfoldable pub validate_each : List Text → Result (Unit {0})
  unfolding validate_utc_timestamp
  validate_each [] = ok tt
  validate_each (ts ∷ rest) = validate_utc_timestamp ts >> validate_each rest

  unfoldable pub validate_timestamps : TrustStoreDocument → Result (Unit {0})
  unfolding validate_each
  validate_timestamps doc = do
    validate_utc_timestamp doc.protected.created_at
    validate_utc_timestamp doc.protected.updated_at
    validate_each (map (λ (k : KnownKey). k.approved_at) doc.protected.known_keys)
    validate_each (map (λ (r : RecipientSetRecord). r.approved_at) doc.protected.recipient_sets)

  unfoldable pub validate_signer_independent_content : TrustStoreDocument → Result (Unit {0})
  unfolding unique_kids_from recipient_sets_from validate_timestamps
  validate_signer_independent_content doc = do
    unique_kids_from [] doc.protected.known_keys
    recipient_sets_from [] doc.protected.recipient_sets
    validate_timestamps doc

  unfoldable pub verify_trust_store :
      TrustStoreDocument → SignerKeySnapshot → Result VerifiedTrustStore
  unfolding validate_format resolve_signer_public_key verify_trust_store_signature
      validate_kid_match validate_owner_match validate_signer_independent_content
  verify_trust_store doc signer_keys = do
    validate_schema doc
    validate_format doc
    signer ← resolve_signer_public_key doc signer_keys
    verifying_key ←
        replace_error (build_crypto_error signer_key_unverified) (verify_public_key signer)
    verify_trust_store_signature doc verifying_key
    validate_kid_match doc signer
    validate_owner_match doc signer
    validate_signer_independent_content doc
    ok (record { document = doc; owner_handle = doc.protected.owner_handle })
