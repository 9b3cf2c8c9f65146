-- ===== src/Trust/Judgment/Signer.antt =====
-- feature/trust/judgment/signer.rs: one judgment about the signer of a document.
-- The outer `Option` is the panic of KnownKeyMatch.
pub mod Outcome
pub mod Approval
use kapsaro.Base.{ℕ, Bool, true, false, List, Option, none, some, ◌≡◌, Text, if◌then◌else◌}
use kapsaro.Errors.{
  Error, Result, ok, err, ◌>>=◌, Rule, build_verification_error, non_member, active_member_mismatch,
}
use kapsaro.Identity.Handle.{member_handle}
use kapsaro.Model.TrustStore.{KnownKey}
use kapsaro.Trust.KnownKeys.{build_kid_integrity_anomaly_error}
use kapsaro.Trust.Judgment.Identity.{TrustIdentity, DecodeKey}
use kapsaro.Trust.Judgment.ActiveMember.{Members, CurrentMemberMatch, judge_handle_match}
use kapsaro.Trust.Judgment.KnownKeyMatch.{KnownKeyMatch, judge_known_identity_match}
use kapsaro.Trust.Judgment.SelfTrust.{SelfTrustSet, contains_identity}

pub data TrustJudgment : Type 0 where
  trusted : TrustJudgment
  needs_approval not_a_member : (member_handle kid : Text) → TrustJudgment
  member_mismatch : (member_handle kid active_member_handle : Text) → TrustJudgment
  known_key_integrity_anomaly : (member_handle kid known_member_handle : Text) → TrustJudgment

pub data SignerAcceptance : Type 0 where
  trusted : SignerAcceptance
  needs_approval : (member_handle kid : Text) → SignerAcceptance

unfoldable pub build_known_key_judgment : TrustIdentity → KnownKeyMatch → TrustJudgment
build_known_key_judgment signer KnownKeyMatch.exact = TrustJudgment.trusted
build_known_key_judgment signer KnownKeyMatch.missing =
    TrustJudgment.needs_approval signer.member_handle signer.kid
build_known_key_judgment signer (KnownKeyMatch.member_handle_mismatch known) =
    TrustJudgment.known_key_integrity_anomaly signer.member_handle signer.kid known

unfoldable pub judge_missing_active_member : TrustIdentity → Result Bool → Result TrustJudgment
judge_missing_active_member signer is_self_key = do
  own ← is_self_key
  ok (
      if own
      then TrustJudgment.trusted
      else TrustJudgment.not_a_member signer.member_handle signer.kid)

-- the signer is an active member
unfoldable pub judge_matched_member :
    TrustIdentity → Result Bool → Option KnownKeyMatch → Option (Result TrustJudgment)
judge_matched_member signer (err e) known = some (err e)
judge_matched_member signer (ok true) known = some (ok TrustJudgment.trusted)
judge_matched_member signer (ok false) (some m) = some (ok (build_known_key_judgment signer m))
judge_matched_member signer (ok false) none = none

unfoldable pub judge_signer_trust_with_match :
    DecodeKey
    → TrustIdentity
    → Members
    → SelfTrustSet
    → (TrustIdentity → Option KnownKeyMatch)
    → Option (Result TrustJudgment)
judge_signer_trust_with_match decode signer active_members self_trust match_known =
    elim (judge_handle_match active_members signer.kid signer.member_handle) [
      | CurrentMemberMatch.missing ↦
          some (judge_missing_active_member signer (contains_identity decode self_trust signer))
      | CurrentMemberMatch.member_handle_mismatch active ↦ some (
          member_handle active >>= λ checked.
          ok (TrustJudgment.member_mismatch signer.member_handle signer.kid checked))
      | CurrentMemberMatch.matched ↦
          judge_matched_member signer (contains_identity decode self_trust signer)
            (match_known signer)
    ]

unfoldable pub judge_signer_trust :
    DecodeKey
    → TrustIdentity
    → Members
    → List KnownKey
    → SelfTrustSet
    → Option (Result TrustJudgment)
judge_signer_trust decode signer active_members known_keys self_trust =
    judge_signer_trust_with_match decode signer active_members self_trust
      (λ identity. judge_known_identity_match known_keys identity)

unfoldable pub enforce_signer_judgment : TrustJudgment → Result SignerAcceptance
enforce_signer_judgment TrustJudgment.trusted = ok SignerAcceptance.trusted
enforce_signer_judgment (TrustJudgment.needs_approval handle kid) =
    ok (SignerAcceptance.needs_approval handle kid)
enforce_signer_judgment (TrustJudgment.not_a_member handle kid) =
    err (build_verification_error Rule.trust_non_member (non_member handle kid))
enforce_signer_judgment (TrustJudgment.member_mismatch handle kid active) = err (
    build_verification_error Rule.trust_active_member_mismatch
      (active_member_mismatch handle kid active))
enforce_signer_judgment (TrustJudgment.known_key_integrity_anomaly handle kid known) =
    err (build_kid_integrity_anomaly_error kid known handle)
