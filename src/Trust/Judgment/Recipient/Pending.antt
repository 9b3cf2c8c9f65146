-- ===== src/Trust/Judgment/Recipient/Pending.antt =====
-- The recipients that need approval (feature/trust/judgment/recipient.rs).
use kapsaro.Base.{
  Bool, true, false, List, [], ◌∷◌, Option, none, some, ◌≡◌, ◌≢◌, ◌↔◌, ◌⊎◌, inl, inr, refl, ap,
  arith, Text, Bool-cases, All,
}
use kapsaro.Errors.{Result, ok, err}
use kapsaro.Model.TrustStore.{KnownKey}
use kapsaro.Trust.KnownKeys.{KnownKeyIdentity}
use kapsaro.Trust.KnownKeys.Binding.{bound_handle}
use kapsaro.Trust.Judgment.Identity.{TrustIdentity, DecodeKey}
use kapsaro.Trust.Judgment.KnownKeyMatch.{KnownKeyMatch}
use kapsaro.Trust.Judgment.SelfTrust.{SelfTrustSet, contains_identity}
use kapsaro.Trust.Judgment.Recipient.{judge_recipient, judge_recipients_trust}
use kapsaro.Trust.Judgment.Signer.Outcome.{HasValidHandles, match-bound_handle, match_bound}
use kapsaro.Text.{text_eq, text_eq_iff}

module _ (decode : DecodeKey) (keys : List KnownKey) (self : SelfTrustSet) where
  -- Nothing is left to approve for a recipient.
  abbrev IsSettled : TrustIdentity → Type 0
  IsSettled r =
      (contains_identity decode self r ≡ ok true)
      ⊎ ((contains_identity decode self r ≡ ok false)
          × (bound_handle keys r.kid ≡ some r.member_handle))

  pending-rest :
      (r : TrustIdentity) (known : Text) (rest : Option (Result (List KnownKeyIdentity)))
      → judge_recipient r (ok false) (some (KnownKeyMatch.member_handle_mismatch known)) rest
        ≢ some (ok [])
  unfolding judge_recipient
  pending-rest r known none h = cc
  pending-rest r known (some (ok l)) h = ground arith
  pending-rest r known (some (err e)) h = ground arith

  step-settled :
      (r : TrustIdentity) (own : Result Bool) (bound : Option Text)
      (rest : Option (Result (List KnownKeyIdentity)))
      → (judge_recipient r own (some (match_bound bound r.member_handle)) rest ≡ some (ok [])) ↔ (
          ((own ≡ ok true) ⊎ ((own ≡ ok false) × (bound ≡ some r.member_handle)))
          × (rest ≡ some (ok [])))
  unfolding judge_recipient match_bound
  step-settled r (ok true) bound rest = (λ h. (inl refl, h), λ h. h.1)
  step-settled r (err e) bound rest = (λ h. absurd cc, λ h. absurd (ground arith))
  step-settled r (ok false) none none = (λ h. absurd cc, λ h. absurd (ground arith))
  step-settled r (ok false) none (some (ok l)) =
      (λ h. absurd (ground arith), λ h. absurd (ground arith))
  step-settled r (ok false) none (some (err e)) =
      (λ h. absurd (ground arith), λ h. absurd (ground arith))
  step-settled r (ok false) (some known) rest = elim (Bool-cases (text_eq known r.member_handle)) [
    | inl same ↦
        rw same
          (λ h. (inr (refl, ap some ((text_eq_iff known r.member_handle).0 same)), h), λ h. h.1)
    | inr other ↦ rw other (
      λ h. absurd (pending-rest r known rest h),
      λ h. absurd (ground (arith, text_eq_iff known r.member_handle)),
    )
  ]

  -- With valid stored handles, the judgment answers that no recipient needs approval exactly where, for
  -- each recipient, the own-key check answers that it is one of the operator's own keys, or answers
  -- that it is not and the trust store binds the recipient's kid to its handle. Where that check
  -- fails for a recipient, the judgment does not answer so.
  pub judge_recipients_trust-IsSettled :
      (recipients : List TrustIdentity)
      → HasValidHandles keys
      → (judge_recipients_trust decode recipients keys self ≡ some (ok []))
        ↔ All IsSettled recipients
  unfolding judge_recipients_trust
  judge_recipients_trust-IsSettled [] v = (λ h. tt, λ h. refl)
  judge_recipients_trust-IsSettled (r ∷ rs) v = rw (match-bound_handle keys r v) (
      let step =
        step-settled r (contains_identity decode self r) (bound_handle keys r.kid)
          (judge_recipients_trust decode rs keys self) in
      let later = judge_recipients_trust-IsSettled rs v in
      (λ h. let (now, rest) = step.0 h in (now, later.0 rest), λ h. step.1 (h.0, later.1 h.1)))
