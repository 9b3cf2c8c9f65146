-- ===== src/Trust/Judgment/KnownKeyMatch.antt =====
-- feature/trust/judgment/known_key.rs: an identity against the approved keys.
-- `none` stands for the panic of `expect` on a stored handle that is not valid.
use kapsaro.Base.{List, [], ◌∷◌, Option, none, some, Text, if◌then◌else◌, find}
use kapsaro.Errors.{Result, ok, err}
use kapsaro.Text.{text_eq}
use kapsaro.Identity.Handle.{member_handle}
use kapsaro.Model.TrustStore.{KnownKey}
use kapsaro.Trust.KnownKeys.{build_kid_integrity_anomaly_error}
use kapsaro.Trust.Judgment.Identity.{TrustIdentity}

pub data KnownKeyMatch : Type 0 where
  missing exact : KnownKeyMatch
  member_handle_mismatch : Text → KnownKeyMatch

-- `expect`
unfoldable pub expect {ℓ} : {A : Type ℓ} → Result A → Option A
expect (ok a) = some a
expect (err e) = none

-- The outer `Option` is the panic, the inner one the answer.
unfoldable pub find_known_member_handle : List KnownKey → Text → Option (Option Text)
find_known_member_handle known_keys kid = elim (find (λ k. text_eq k.kid kid) known_keys) [
  | none ↦ some none
  | some k ↦ elim (expect (member_handle k.subject_handle)) [ some h ↦ some (some h) | none ↦ none ]
]

unfoldable pub judge_known_identity_match : List KnownKey → TrustIdentity → Option KnownKeyMatch
judge_known_identity_match known_keys identity =
    elim (find_known_member_handle known_keys identity.kid) [
      | none ↦ none
      | some none ↦ some KnownKeyMatch.missing
      | some (some known) ↦ some (
          if text_eq known identity.member_handle
          then KnownKeyMatch.exact
          else KnownKeyMatch.member_handle_mismatch known)
    ]

unfoldable pub enforce_recipient_integrity :
    List KnownKey → List TrustIdentity → Option (Result (Unit {0}))
enforce_recipient_integrity known_keys [] = some (ok tt)
enforce_recipient_integrity known_keys (recipient ∷ recipients) =
    let rest = enforce_recipient_integrity known_keys recipients in
    elim (judge_known_identity_match known_keys recipient) [
      | none ↦ none
      | some (KnownKeyMatch.member_handle_mismatch known) ↦
          some (err (build_kid_integrity_anomaly_error recipient.kid known recipient.member_handle))
      | some KnownKeyMatch.missing ↦ rest
      | some KnownKeyMatch.exact ↦ rest
    ]
