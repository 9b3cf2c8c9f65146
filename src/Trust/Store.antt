-- ===== src/Trust/Store.antt =====
-- crates/kapsaro-core/src/feature/trust/store_mutation.rs: whether a trust store is written again.
use kapsaro.Base.{
  Bool, true, false, not, [], Option, none, some, ◌≡◌, ◌≢◌, ◌↔◌, arith, refl, Bool-cases, inl, inr,
  Text, if◌then◌else◌,
}
use kapsaro.Text.{text_eq, text_eq_iff, codes}
use kapsaro.Errors.{Result, ok, ◌>>=◌}
use kapsaro.Model.TrustStore.{TrustStoreProtected}

pub data TrustStoreWrite : Type 0 where
  skip resign save : TrustStoreWrite

pub record TrustStoreState : Type 0 where
  pub protected : TrustStoreProtected
  pub signer_kid : Option Text

-- `LOCAL_TRUST_V1` of model/wire.rs
abbrev pub local_trust_v1 : Text
local_trust_v1 = codes "kapsaro:format:local-trust@1"

unfoldable pub judge_trust_store_write : Bool → Option Text → Text → TrustStoreWrite
judge_trust_store_write changed stored_signer_kid current_signer_kid =
    if changed then TrustStoreWrite.save else elim stored_signer_kid [
      | some stored ↦
          if not (text_eq stored current_signer_kid)
          then TrustStoreWrite.resign
          else TrustStoreWrite.skip
      | none ↦ TrustStoreWrite.skip
    ]

-- `now` is the answer of `generate_current_timestamp`.
unfoldable pub build_empty_trust_store : Result Text → Text → Result TrustStoreState
build_empty_trust_store now owner = do
  at ← now
  ok (record {
    protected = record {
      format = local_trust_v1;
      owner_handle = owner;
      created_at = at;
      updated_at = at;
      known_keys = [];
      recipient_sets = [];
    };
    signer_kid = none;
  })

-- Nothing is written exactly where the content has not moved and no other key than the current one
-- signed the stored document; it is only signed again exactly where the content has not moved and
-- another key signed it.
pub judge_trust_store_write-cases :
    (changed : Bool) (stored : Option Text) (current : Text)
    → ((judge_trust_store_write changed stored current ≡ TrustStoreWrite.skip)
        ↔ ((changed ≡ false) × ((kid : Text) → stored ≡ some kid → kid ≡ current)))
      × ((judge_trust_store_write changed stored current ≡ TrustStoreWrite.resign)
          ↔ ((changed ≡ false) × ((kid : Text) × (stored ≡ some kid) × (kid ≢ current))))
unfolding judge_trust_store_write
judge_trust_store_write-cases true stored current =
    ((λ h. absurd cc, λ h. absurd cc), (λ h. absurd cc, λ h. absurd cc))
judge_trust_store_write-cases false none current =
    ((λ h. (refl, λ kid e. absurd cc), λ h. refl), (λ h. absurd cc, λ h. absurd cc))
judge_trust_store_write-cases false (some kid) current = elim (Bool-cases (text_eq kid current)) [
  | inl same ↦
      let e : kid ≡ current = (text_eq_iff kid current).0 same in
      rw same (
        (λ h. (refl, λ k s. ground arith), λ h. refl),
        (λ h. absurd cc, λ (unmoved, (k, s, other)). absurd (other (ground arith))),
      )
  | inr other ↦ rw other (
    (λ h. absurd cc, λ h. absurd (cc ((text_eq_iff kid current).1 (h.1 kid refl)))),
    (λ h. (refl, (kid, refl, λ e. cc ((text_eq_iff kid current).1 e))), λ h. refl),
  )
]
