-- ===== src/Trust/Judgment/Recipient.antt =====
-- feature/trust/judgment/recipient.rs: which recipients still need the operator's approval.
pub mod Pending
use kapsaro.Base.{ℕ, Bool, true, false, List, [], ◌∷◌, Option, none, some, ◌≡◌, Text, if◌then◌else◌}
use kapsaro.Errors.{Error, Result, ok, err, ◌>>=◌}
use kapsaro.Model.TrustStore.{KnownKey}
use kapsaro.Trust.KnownKeys.{KnownKeyIdentity}
use kapsaro.Trust.Judgment.Identity.{TrustIdentity, DecodeKey}
use kapsaro.Trust.Judgment.KnownKeyMatch.{KnownKeyMatch, judge_known_identity_match}
use kapsaro.Trust.Judgment.SelfTrust.{SelfTrustSet, contains_identity}

-- what one recipient adds to the answer for those after it; the outer `Option` is the panic
unfoldable pub judge_recipient :
    TrustIdentity
    → Result Bool
    → Option KnownKeyMatch
    → Option (Result (List KnownKeyIdentity))
    → Option (Result (List KnownKeyIdentity))
judge_recipient recipient (err e) known rest = some (err e)
judge_recipient recipient (ok true) known rest = rest
judge_recipient recipient (ok false) none rest = none
judge_recipient recipient (ok false) (some KnownKeyMatch.exact) rest = rest
judge_recipient recipient (ok false) (some _) none = none
judge_recipient recipient (ok false) (some _) (some later) = some (
    later >>= λ l. ok (record { member_handle = recipient.member_handle; kid = recipient.kid } ∷ l))

unfoldable pub judge_recipients_trust :
    DecodeKey
    → List TrustIdentity
    → List KnownKey
    → SelfTrustSet
    → Option (Result (List KnownKeyIdentity))
judge_recipients_trust decode [] known_keys self_trust = some (ok [])
judge_recipients_trust decode (recipient ∷ recipients) known_keys self_trust =
    judge_recipient recipient (contains_identity decode self_trust recipient)
      (judge_known_identity_match known_keys recipient)
      (judge_recipients_trust decode recipients known_keys self_trust)
