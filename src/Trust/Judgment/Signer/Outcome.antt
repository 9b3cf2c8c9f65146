-- ===== src/Trust/Judgment/Signer/Outcome.antt =====
-- Who is trusted (feature/trust/judgment).
use kapsaro.Base.{
  Bool, true, false, List, [], ◌∷◌, Option, none, some, ◌≡◌, ◌≢◌, ◌↔◌, ◌⊎◌, inl, inr, refl, arith,
  Text, if◌then◌else◌, Bool-cases, Option-cases, subst,
}
use kapsaro.Errors.{Result, ok, err, ◌>>=◌}
use kapsaro.Text.{text_eq, text_eq_iff, lookup}
use kapsaro.Model.PublicKey.{PublicKey}
use kapsaro.Identity.Handle.{member_handle, IsHandle, member_handle_iff}
use kapsaro.Model.TrustStore.{KnownKey}
use kapsaro.Trust.KnownKeys.{find_known_key}
use kapsaro.Trust.KnownKeys.Binding.{bound_handle}
use kapsaro.Trust.Judgment.Identity.{TrustIdentity, DecodeKey}
use kapsaro.Trust.Judgment.ActiveMember.{Members, CurrentMemberMatch, judge_handle_match}
use kapsaro.Trust.Judgment.KnownKeyMatch.{
  KnownKeyMatch, judge_known_identity_match, find_known_member_handle, expect,
}
use kapsaro.Trust.Judgment.SelfTrust.{SelfTrustSet, contains_identity}
use kapsaro.Trust.Judgment.Signer.{
  TrustJudgment, judge_signer_trust, judge_signer_trust_with_match, judge_matched_member,
  judge_missing_active_member, build_known_key_judgment,
}

-- The stored handles are ones that `MemberHandle` accepts.
abbrev pub HasValidHandles : List KnownKey → Type 0
HasValidHandles [] = Unit
HasValidHandles (k ∷ keys) = IsHandle k.subject_handle × HasValidHandles keys

-- what `bound_handle` says of an identity
unfoldable pub match_bound : Option Text → Text → KnownKeyMatch
match_bound none handle = KnownKeyMatch.missing
match_bound (some known) handle =
    if text_eq known handle then KnownKeyMatch.exact else KnownKeyMatch.member_handle_mismatch known

found-valid :
    (keys : List KnownKey) (kid : Text) (k : KnownKey)
    → HasValidHandles keys
    → find_known_key keys kid ≡ some k
    → IsHandle k.subject_handle
unfolding find_known_key
found-valid [] kid k v h = absurd cc
found-valid (j ∷ keys) kid k v h = elim (Bool-cases (text_eq j.kid kid)) [
  | inl hit ↦
      let same : j ≡ k = ground arith in
      subst (λ (x : KnownKey). IsHandle x.subject_handle) same v.0
  | inr miss ↦ found-valid keys kid k v.1 (ground arith)
]

-- With valid stored handles the match never panics, and compares the handle with the bound one.
pub match-bound_handle :
    (keys : List KnownKey) (identity : TrustIdentity)
    → HasValidHandles keys
    → judge_known_identity_match keys identity
      ≡ some (match_bound (bound_handle keys identity.kid) identity.member_handle)
unfolding judge_known_identity_match find_known_member_handle bound_handle match_bound expect
    find_known_key
match-bound_handle keys identity v = elim (Option-cases (find_known_key keys identity.kid)) [
  | inr missing ↦ ground arith
  | inl (k, found) ↦ ground (
    arith,
    (member_handle_iff k.subject_handle k.subject_handle).1
        (refl, found-valid keys identity.kid k v found),
  )
]

abbrev AreTrustedBy : TrustIdentity → CurrentMemberMatch → Result Bool → Option Text → Type 0
AreTrustedBy signer m own bound =
    ((¬ ((h : Text) × (m ≡ CurrentMemberMatch.member_handle_mismatch h))) × (own ≡ ok true))
    ⊎ ((m ≡ CurrentMemberMatch.matched) × (own ≡ ok false) × (bound ≡ some signer.member_handle))

-- The judgment from the three answers that it reads.
unfoldable pub judged :
    TrustIdentity → CurrentMemberMatch → Result Bool → Option Text → Option (Result TrustJudgment)
judged signer CurrentMemberMatch.missing own bound = some (judge_missing_active_member signer own)
judged signer (CurrentMemberMatch.member_handle_mismatch active) own bound = some (
    member_handle active >>= λ checked.
    ok (TrustJudgment.member_mismatch signer.member_handle signer.kid checked))
judged signer CurrentMemberMatch.matched own bound =
    judge_matched_member signer own (some (match_bound bound signer.member_handle))

judged-returns :
    (signer : TrustIdentity) (m : CurrentMemberMatch) (own : Result Bool) (bound : Option Text)
    → judged signer m own bound ≢ none
unfolding judged judge_matched_member
judged-returns signer CurrentMemberMatch.missing own bound = λ h. cc
judged-returns signer (CurrentMemberMatch.member_handle_mismatch a) own bound = λ h. cc
judged-returns signer CurrentMemberMatch.matched (ok true) bound = λ h. cc
judged-returns signer CurrentMemberMatch.matched (ok false) bound = λ h. cc
judged-returns signer CurrentMemberMatch.matched (err e) bound = λ h. cc

judged-trusted :
    (signer : TrustIdentity) (m : CurrentMemberMatch) (own : Result Bool) (bound : Option Text)
    → (judged signer m own bound ≡ some (ok TrustJudgment.trusted))
      ↔ AreTrustedBy signer m own bound
unfolding judged judge_matched_member judge_missing_active_member match_bound
    build_known_key_judgment
judged-trusted signer CurrentMemberMatch.missing (ok true) bound =
    (λ h. inl ((λ m. cc), refl), λ h. refl)
judged-trusted signer CurrentMemberMatch.missing (ok false) bound =
    (λ h. absurd cc, λ h. absurd (ground arith))
judged-trusted signer CurrentMemberMatch.missing (err e) bound =
    (λ h. absurd cc, λ h. absurd (ground arith))
judged-trusted signer (CurrentMemberMatch.member_handle_mismatch a) own bound = (
  λ h. absurd (ground arith),
  λ h. elim h [ inl (n, _) ↦ absurd (n (a, refl)) | inr (m, _, _) ↦ absurd cc ],
)
judged-trusted signer CurrentMemberMatch.matched (ok true) bound =
    (λ h. inl ((λ m. cc), refl), λ h. refl)
judged-trusted signer CurrentMemberMatch.matched (err e) bound =
    (λ h. absurd cc, λ h. absurd (ground arith))
judged-trusted signer CurrentMemberMatch.matched (ok false) none =
    (λ h. absurd cc, λ h. absurd (ground arith))
judged-trusted signer CurrentMemberMatch.matched (ok false) (some known) = (
  λ h. inr (refl, refl, ground (arith, text_eq_iff known signer.member_handle)),
  λ h. ground (arith, text_eq_iff known signer.member_handle),
)

-- The member that a kid has, if there is one, has the handle.
abbrev pub HasNoOther : Option PublicKey → Text → Type 0
HasNoOther none handle = Unit
HasNoOther (some m) handle = m.protected.subject_handle ≡ handle

-- There is a member, and it has the handle.
abbrev pub HasMember : Option PublicKey → Text → Type 0
HasMember none handle = ⊥
HasMember (some m) handle = m.protected.subject_handle ≡ handle

match-HasNoOther :
    (members : Members) (kid handle : Text)
    → (¬ (
        (h : Text) × (judge_handle_match members kid handle
          ≡ CurrentMemberMatch.member_handle_mismatch h)))
      ↔ HasNoOther (lookup kid members) handle
unfolding judge_handle_match
match-HasNoOther members kid handle = elim (Option-cases (lookup kid members)) [
  | inr absent ↦ rw (absent, judge_handle_match) ((λ n. tt), λ t m. cc)
  | inl (m, found) ↦ elim (Bool-cases (text_eq m.protected.subject_handle handle)) [
    | inl same ↦
        rw (found, judge_handle_match, same)
          ((λ n. (text_eq_iff m.protected.subject_handle handle).0 same), λ t x. cc)
    | inr other ↦
        rw (found, judge_handle_match, other)
          (
            λ n. absurd (n (m.protected.subject_handle, refl)),
            λ e. absurd (ground (arith, text_eq_iff m.protected.subject_handle handle)),
          )
  ]
]

pub match-HasMember :
    (members : Members) (kid handle : Text)
    → (judge_handle_match members kid handle ≡ CurrentMemberMatch.matched)
      ↔ HasMember (lookup kid members) handle
unfolding judge_handle_match
match-HasMember members kid handle = elim (Option-cases (lookup kid members)) [
  | inr absent ↦ rw (absent, judge_handle_match) ((λ h. cc), λ t. absurd t)
  | inl (m, found) ↦ elim (Bool-cases (text_eq m.protected.subject_handle handle)) [
    | inl same ↦
        rw (found, judge_handle_match, same)
          ((λ n. (text_eq_iff m.protected.subject_handle handle).0 same), λ t. refl)
    | inr other ↦
        rw (found, judge_handle_match, other)
          (
            λ h. absurd cc,
            λ e. absurd (ground (arith, text_eq_iff m.protected.subject_handle handle)),
          )
  ]
]

module _ (decode : DecodeKey) (signer : TrustIdentity) (members : Members) (keys : List KnownKey)
    (self : SelfTrustSet) where
  abbrev own : Result Bool
  own = contains_identity decode self signer

  abbrev member_match : CurrentMemberMatch
  member_match = judge_handle_match members signer.kid signer.member_handle

  abbrev bound : Option Text
  bound = bound_handle keys signer.kid

  pub judge-judged :
      HasValidHandles keys
      → judge_signer_trust decode signer members keys self ≡ judged signer member_match own bound
  unfolding judge_signer_trust judge_signer_trust_with_match judged
  judge-judged v = ground (arith, match-bound_handle keys signer v)

  -- With valid stored handles the judgment never panics. The signer is trusted exactly where the own-key
  -- check answers that it is one of the operator's own keys, and the active member with its kid, if
  -- there is one, has its handle; or where the check answers that it is not, there is an active member
  -- with its kid and its handle, and the trust store binds the kid to the handle. Where the check
  -- fails, the signer is not trusted.
  pub judge_signer_trust-trusted :
      HasValidHandles keys
      → (judge_signer_trust decode signer members keys self ≢ none)
        × ((judge_signer_trust decode signer members keys self ≡ some (ok TrustJudgment.trusted))
            ↔ ((HasNoOther (lookup signer.kid members) signer.member_handle
                  × (contains_identity decode self signer ≡ ok true))
                ⊎ (HasMember (lookup signer.kid members) signer.member_handle
                    × (contains_identity decode self signer ≡ ok false)
                    × (bound_handle keys signer.kid ≡ some signer.member_handle))))
  judge_signer_trust-trusted v =
      let j = judged-trusted signer member_match own bound in
      let n = match-HasNoOther members signer.kid signer.member_handle in
      let m = match-HasMember members signer.kid signer.member_handle in
      rw (judge-judged v) (
        judged-returns signer member_match own bound,
        (
          λ h. elim (j.0 h) [ inl (a, b) ↦ inl (n.0 a, b) | inr (a, b, c) ↦ inr (m.0 a, b, c) ],
          λ t. j.1 (elim t [ inl (a, b) ↦ inl (n.1 a, b) | inr (a, b, c) ↦ inr (m.1 a, b, c) ]),
        ),
      )
