-- ===== src/Trust/Judgment/Signer/Approval.antt =====
-- What approving a signer's key changes: feature/trust/judgment and feature/trust/known_keys.rs.
use kapsaro.Base.{
  Bool, true, false, List, [], ◌∷◌, ◌++◌, Option, none, some, ◌≡◌, inl, inr, ◌∙◌, refl, sym, ap,
  arith, Text,
}
use kapsaro.Errors.{Error, Result, ok, err}
use kapsaro.Text.{text_eq, text_eq_iff}
use kapsaro.Identity.Handle.{IsHandle}
use kapsaro.Model.TrustStore.{KnownKey}
use kapsaro.Trust.KnownKeys.{add_known_key, build_kid_integrity_anomaly_error}
use kapsaro.Trust.KnownKeys.Binding.{
  bound_handle, add_known_key-bound_handle, add_known_key-entries, add_known_key-refused,
}
use kapsaro.Trust.Judgment.Identity.{TrustIdentity, DecodeKey}
use kapsaro.Trust.Judgment.ActiveMember.{Members, CurrentMemberMatch}
use kapsaro.Trust.Judgment.SelfTrust.{SelfTrustSet}
use kapsaro.Trust.Judgment.Signer.{
  TrustJudgment, judge_signer_trust, judge_matched_member, judge_missing_active_member,
  build_known_key_judgment, enforce_signer_judgment,
}
use kapsaro.Trust.Judgment.Signer.Outcome.{
  match-HasMember, HasValidHandles, match_bound, judged, judge-judged, judge_signer_trust-trusted,
}

judged-needs_approval :
    (signer : TrustIdentity) (m : CurrentMemberMatch) (own : Result Bool) (bound : Option Text)
    (handle kid : Text)
    → judged signer m own bound ≡ some (ok (TrustJudgment.needs_approval handle kid))
    → (m ≡ CurrentMemberMatch.matched)
      × (own ≡ ok false)
      × (bound ≡ none)
      × (signer.member_handle ≡ handle)
      × (signer.kid ≡ kid)
unfolding judged judge_matched_member judge_missing_active_member match_bound
    build_known_key_judgment
judged-needs_approval signer m own bound handle kid h = ground arith

judged-anomaly :
    (signer : TrustIdentity) (m : CurrentMemberMatch) (own : Result Bool) (bound : Option Text)
    (handle kid known : Text)
    → judged signer m own bound
      ≡ some (ok (TrustJudgment.known_key_integrity_anomaly handle kid known))
    → (bound ≡ some known)
      × (text_eq known handle ≡ false)
      × (signer.member_handle ≡ handle)
      × (signer.kid ≡ kid)
unfolding judged judge_matched_member judge_missing_active_member match_bound
    build_known_key_judgment
judged-anomaly signer m own bound handle kid known h = ground arith

valid-snoc :
    (keys : List KnownKey) (k : KnownKey)
    → HasValidHandles keys
    → IsHandle k.subject_handle
    → HasValidHandles (keys ++ k ∷ [])
valid-snoc [] k v h = (h, tt)
valid-snoc (j ∷ keys) k v h = (v.0, valid-snoc keys k v.1 h)

valid-add :
    (keys : List KnownKey) (k : KnownKey)
    → HasValidHandles keys
    → IsHandle k.subject_handle
    → HasValidHandles (add_known_key keys k).0
valid-add keys k v h = elim (add_known_key-entries keys k) [
  | inl same ↦ rw same v
  | inr grown ↦ rw grown (valid-snoc keys k v h)
]

-- With valid stored handles, approving the key that a judgment asks about, by adding an entry with its
-- kid and valid handle to the trust store, inserts it and makes the same signer trusted.
pub add_known_key-judge :
    (decode : DecodeKey) (signer : TrustIdentity) (members : Members) (keys : List KnownKey)
    (self : SelfTrustSet) (k : KnownKey)
    → HasValidHandles keys
    → IsHandle k.subject_handle
    → judge_signer_trust decode signer members keys self
      ≡ some (ok (TrustJudgment.needs_approval k.subject_handle k.kid))
    → ((add_known_key keys k).1 ≡ ok true)
      × (judge_signer_trust decode signer members (add_known_key keys k).0 self
          ≡ some (ok TrustJudgment.trusted))
add_known_key-judge decode signer members keys self k v h asked =
    let (m, own_no, unbound, same_handle, same_kid) =
      judged-needs_approval signer _ _ _ k.subject_handle k.kid
        (sym (judge-judged decode signer members keys self v) ∙ asked) in
    let unbound' : bound_handle keys k.kid ≡ none =
      ap (λ x. bound_handle keys x) (sym same_kid) ∙ unbound in
    elim (add_known_key-bound_handle keys k) [
      | inl (other, taken, _, _) ↦ absurd cc
      | inr (flag, added, fresh, bindings) ↦ (
        added ∙ ap ok (fresh.1 unbound'),
        (judge_signer_trust-trusted decode signer members (add_known_key keys k).0 self
              (valid-add keys k v h)).1.1
            (inr (
              (match-HasMember members signer.kid signer.member_handle).0 m,
              own_no,
              (bindings signer.kid ∙ ground (arith, text_eq_iff k.kid signer.kid)),
            )),
      )
    ]

-- With valid stored handles, a judgment that the signer's kid is bound to another handle is the refusal that adding the signer's
-- key to the trust store meets: the same error, and the store stays as it is.
pub add_known_key-anomaly :
    (decode : DecodeKey) (signer : TrustIdentity) (members : Members) (keys : List KnownKey)
    (self : SelfTrustSet) (k : KnownKey) (known : Text)
    → HasValidHandles keys
    → judge_signer_trust decode signer members keys self
      ≡ some (ok (TrustJudgment.known_key_integrity_anomaly k.subject_handle k.kid known))
    → (e : Error) × (enforce_signer_judgment
          (TrustJudgment.known_key_integrity_anomaly k.subject_handle k.kid known)
        ≡ err e)
      × (add_known_key keys k ≡ (keys, err e))
unfolding enforce_signer_judgment
add_known_key-anomaly decode signer members keys self k known v told =
    let (taken, other, same_handle, same_kid) =
      judged-anomaly signer _ _ _ k.subject_handle k.kid known
        (sym (judge-judged decode signer members keys self v) ∙ told) in
    let taken' : bound_handle keys k.kid ≡ some known =
      ap (λ x. bound_handle keys x) (sym same_kid) ∙ taken in
    (
      build_kid_integrity_anomaly_error k.kid known k.subject_handle,
      refl,
      add_known_key-refused keys k known taken' other,
    )
