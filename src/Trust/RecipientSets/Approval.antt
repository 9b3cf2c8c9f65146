-- ===== src/Trust/RecipientSets/Approval.antt =====
-- What approving the recipients of an artifact changes (feature/trust/recipient_sets/mutation.rs).
use kapsaro.Base.{
  true, false, List, [], ◌∷◌, ◌++◌, none, some, ◌≡◌, ◌≢◌, ◌↔◌, ◌⊎◌, inl, inr, ◌∙◌, refl, ap, arith,
  Text, if◌then◌else◌, Option-cases,
}
use kapsaro.Text.{text_eq, text_eq_iff, text_eq_refl}
use kapsaro.Model.TrustStore.{RecipientSetRecord, RecipientSetRecord-discrete}
use kapsaro.Trust.Judgment.ActiveMember.{text_list_eq}
use kapsaro.Trust.Judgment.ActiveMember.Index.{text_list_eq_iff}
use kapsaro.Trust.RecipientSets.{
  ArtifactRecipientSet, RecipientSetJudgment, into_record, find_record, judge_recipient_set,
  replace_first, upsert_recipient_set,
}

find-snoc :
    (rs : List RecipientSetRecord) (r : RecipientSetRecord) (sid : Text)
    → find_record (rs ++ r ∷ []) sid ≡ (elim (find_record rs sid) [
      | some x ↦ some x
      | none ↦ if text_eq r.sid sid then some r else none
    ])
unfolding find_record
find-snoc [] r sid = refl
find-snoc (x ∷ rs) r sid = ground (arith, find-snoc rs r sid)

find-replace :
    (rs : List RecipientSetRecord) (r x : RecipientSetRecord) (sid : Text)
    → find_record rs r.sid ≡ some x
    → find_record (replace_first r rs) sid
      ≡ (if text_eq r.sid sid then some r else find_record rs sid)
unfolding find_record replace_first
find-replace [] r x sid h = absurd cc
find-replace (y ∷ rs) r x sid h = ground (
  arith,
  find-replace rs r x sid,
  text_eq_iff y.sid r.sid,
  text_eq_iff y.sid sid,
  text_eq_iff r.sid sid,
)

into_record-sid :
    (current : ArtifactRecipientSet) (at : Text) → (into_record current at).sid ≡ current.sid
unfolding into_record
into_record-sid current at = refl

-- the three ways the call goes
upsert-cases :
    (rs : List RecipientSetRecord) (current : ArtifactRecipientSet) (at : Text)
    → ((find_record rs current.sid ≡ none)
        × (upsert_recipient_set rs current at ≡ (rs ++ into_record current at ∷ [], true)))
      ⊎ (((find_record rs current.sid ≡ some (into_record current at))
            × (upsert_recipient_set rs current at ≡ (rs, false)))
          ⊎ ((x : RecipientSetRecord) × (find_record rs current.sid ≡ some x)
              × (x ≢ into_record current at)
              × (upsert_recipient_set rs current at
                  ≡ (replace_first (into_record current at) rs, true))))
unfolding upsert_recipient_set
upsert-cases rs current at = elim (Option-cases (find_record rs current.sid)) [
  | inr missing ↦ inl (missing, ground arith)
  | inl (x, found) ↦ elim (RecipientSetRecord-discrete x (into_record current at)) [
    | yes same ↦ inr (inl (found ∙ ap some same, ground arith))
    | no other ↦ inr (inr (x, found, other, ground arith))
  ]
]

-- After an approval, the record of the artifact's sid is the approved one and the record of every
-- other sid is the one that was there; the flag is false exactly where the record was already that.
pub upsert_recipient_set-find_record :
    (rs : List RecipientSetRecord) (current : ArtifactRecipientSet) (at : Text)
    → ((sid : Text)
        → find_record (upsert_recipient_set rs current at).0 sid
          ≡ (if text_eq current.sid sid then some (into_record current at) else find_record rs sid))
      × (((upsert_recipient_set rs current at).1 ≡ false)
          ↔ (find_record rs current.sid ≡ some (into_record current at)))
unfolding into_record
upsert_recipient_set-find_record rs current at = elim (upsert-cases rs current at) [
  | inl (missing, e) ↦ rw e (
    (λ sid. ground (
      arith,
      find-snoc rs (into_record current at) sid,
      into_record-sid current at,
      text_eq_iff current.sid sid,
    )),
    (λ h. absurd cc, λ h. absurd cc),
  )
  | inr (inl (found, e)) ↦
      rw e ((λ sid. ground (arith, text_eq_iff current.sid sid)), (λ h. found, λ h. refl))
  | inr (inr (x, found, other, e)) ↦ rw e (
    (λ sid. find-replace rs (into_record current at) x sid found),
    (λ h. absurd cc, λ h. absurd (other (ground arith))),
  )
]

text_list_eq_refl : (s : List Text) → text_list_eq s s ≡ true
text_list_eq_refl s = (text_list_eq_iff s s).1 refl

judge-own :
    (rs : List RecipientSetRecord) (a : ArtifactRecipientSet) (at : Text)
    → find_record rs a.sid ≡ some (into_record a at)
    → judge_recipient_set rs a ≡ RecipientSetJudgment.accepted
unfolding judge_recipient_set into_record
judge-own rs a at h = ground (arith, text_list_eq_refl a.recipient_kids)

-- An artifact whose recipients have been approved is accepted, and stays accepted when the recipients
-- of an artifact with another sid are approved after it.
pub judge_recipient_set-upsert :
    (rs : List RecipientSetRecord) (a b : ArtifactRecipientSet) (at later : Text)
    → text_eq b.sid a.sid ≡ false
    → (judge_recipient_set (upsert_recipient_set rs a at).0 a ≡ RecipientSetJudgment.accepted)
      × (judge_recipient_set (upsert_recipient_set (upsert_recipient_set rs a at).0 b later).0 a
          ≡ RecipientSetJudgment.accepted)
judge_recipient_set-upsert rs a b at later n =
    let once = (upsert_recipient_set-find_record rs a at).0 a.sid in
    let kept =
      (upsert_recipient_set-find_record (upsert_recipient_set rs a at).0 b later).0 a.sid in
    (
      judge-own _ a at (ground (arith, once, text_eq_refl a.sid)),
      judge-own _ a at (ground (arith, once, kept, text_eq_refl a.sid)),
    )
