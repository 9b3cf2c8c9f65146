-- ===== src/Trust/KnownKeys.antt =====
-- crates/kapsaro-core/src/feature/trust/known_keys.rs: the approved keys of the local trust store.
pub mod Binding
use kapsaro.Base.{
  ℕ, Bool, true, false, not, List, [], ◌∷◌, ◌++◌, Option, none, some, ◌≡◌, Text, find,
  if◌then◌else◌, map,
}
use kapsaro.Errors.{
  Error, Result, ok, err, ◌>>=◌, ◌>>◌, build_verification_error, build_not_found_error,
  kid_not_known, conflicting_handle, trust_kid_integrity_anomaly, Rule,
}
use kapsaro.Text.{text_eq}
use kapsaro.Model.TrustStore.{KnownKey}
use kapsaro.Identity.Kid.{resolve_unique_kid}
use kapsaro.Trust.Purge.{ParseTime, purge_records}

pub data KnownKeyJudgment : Type 0 where
  new existing : KnownKeyJudgment

-- a member handle and a kid that have been checked
pub record KnownKeyIdentity : Type 0 where
  pub member_handle : Text
  pub kid : Text

unfoldable pub find_known_key : List KnownKey → Text → Option KnownKey
find_known_key keys kid = find (λ k. text_eq k.kid kid) keys

abbrev pub build_kid_integrity_anomaly_error : Text → Text → Text → Error
build_kid_integrity_anomaly_error kid bound candidate =
    build_verification_error Rule.trust_kid_integrity_anomaly
      (conflicting_handle kid bound candidate)

unfoldable pub enforce_kid_integrity : List KnownKey → Text → Text → Result (Unit {0})
enforce_kid_integrity keys candidate_kid candidate_handle =
    elim (find_known_key keys candidate_kid) [
      | none ↦ ok tt
      | some bound ↦
          if text_eq bound.subject_handle candidate_handle
          then ok tt
          else err (
              build_kid_integrity_anomaly_error candidate_kid bound.subject_handle candidate_handle)
    ]

unfoldable pub judge_known_key : List KnownKey → Text → Text → Result KnownKeyJudgment
judge_known_key keys candidate_kid candidate_handle = do
  _ ← enforce_kid_integrity keys candidate_kid candidate_handle
  elim (find_known_key keys candidate_kid) [
    | some _ ↦ ok KnownKeyJudgment.existing
    | none ↦ ok KnownKeyJudgment.new
  ]

-- The keys that the call leaves, and its result.
unfoldable pub add_known_key : List KnownKey → KnownKey → List KnownKey × Result Bool
add_known_key keys new_key = elim (enforce_kid_integrity keys new_key.kid new_key.subject_handle) [
  | err e ↦ (keys, err e)
  | ok _ ↦ elim (find_known_key keys new_key.kid) [
    | some _ ↦ (keys, ok false)
    | none ↦ (keys ++ new_key ∷ [], ok true)
  ]
]

-- `position` and `remove`: the first entry with the kid, and the entries without it
unfoldable pub take_key : Text → List KnownKey → Option (KnownKey × List KnownKey)
take_key kid [] = none
take_key kid (k ∷ keys) =
    let rest = take_key kid keys in
    if text_eq k.kid kid
    then some (k, keys)
    else elim rest [ some r ↦ some (r.0, k ∷ r.1) | none ↦ none ]

unfoldable pub remove_known_key : List KnownKey → Text → List KnownKey × Result KnownKey
remove_known_key keys kid = elim (resolve_unique_kid (map (λ k. k.kid) keys) kid) [
  | err e ↦ (keys, err e)
  | ok resolved ↦ elim (take_key resolved keys) [
    | none ↦ (keys, err (build_not_found_error (kid_not_known kid)))
    | some r ↦ (r.1, ok r.0)
  ]
]

unfoldable pub purge_known_keys :
    ParseTime → List KnownKey → ℕ → List KnownKey × Result (List KnownKey)
purge_known_keys parse keys older_than = purge_records (λ k. k.approved_at) parse keys older_than
