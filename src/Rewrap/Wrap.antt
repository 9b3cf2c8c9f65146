-- ===== src/Rewrap/Wrap.antt =====
-- crates/kapsaro-core/src/feature/envelope/wrap.rs: a content key wrapped for a recipient.
use kapsaro.Base.{ℕ, List, Text, length}
use kapsaro.Errors.{Result, ok, ◌>>=◌, ◌>>◌, collect}
use kapsaro.Model.PublicKey.{PublicKey}
use kapsaro.Document.WrapSet.{WrapItem, hpke_algorithm, validate_wrap_count}

abbrev pub Bytes : Type 0
Bytes = List ℕ

-- What the code takes from elsewhere: `info_builder` serializes the binding of a document and a kid,
-- `decode_kem_key` and `encode` call the `base64` crate, and `seal_base` the `hpke` crate.
pub record Sealing : Type 0 where
  pub info_builder : Text → Text → Result Bytes
  pub decode_kem_key : Text → Result Bytes
  pub seal_base : Bytes → Bytes → Bytes → Bytes → Result (Bytes × Bytes)
  pub encode : Bytes → Text

module _ (s : Sealing) where
  open s use {info_builder, decode_kem_key, seal_base, encode}

  unfoldable pub build_wrap_item : PublicKey → Text → Bytes → Result WrapItem
  build_wrap_item member sid master_key = do
    info ← info_builder sid member.protected.kid
    kem_pk ← decode_kem_key member.protected.keys.kem.x
    sealed ← seal_base kem_pk info info master_key
    ok (record {
      recipient_handle = member.protected.subject_handle;
      kid = member.protected.kid;
      alg = hpke_algorithm;
      enc = encode sealed.0;
      ct = encode sealed.1;
    })

  unfoldable pub build_wraps_for_recipients : List PublicKey → Text → Bytes → Result (List WrapItem)
  unfolding build_wrap_item
  build_wraps_for_recipients members sid master_key = do
    validate_wrap_count (length members)
    collect (λ member. build_wrap_item member sid master_key) members
