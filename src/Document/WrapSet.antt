-- ===== src/Document/WrapSet.antt =====
-- crates/kapsaro-core/src/format/wrap.rs and feature/envelope/wrap_set.rs: the wrapped keys of a
-- document. `decode32` and `decode48` are `decode_base64url_nopad_array` at the two lengths, which
-- calls the `base64` crate.
pub mod Lookup
use kapsaro.Base.{
  ℕ, Bool, true, false, not, ◌&&◌, List, [], ◌∷◌, Option, none, some, ltb, if◌then◌else◌, Text,
  find, length,
}
use kapsaro.Errors.{
  Error, Result, ok, err, ◌>>=◌, ◌>>◌, Rule, build_parse_error, build_verification_error,
  build_crypto_error, wrap_count, repeated_handle, unsupported_algorithm, wrap_handle_mismatch,
  no_wrap_for_kid,
}
use kapsaro.Text.{text_eq, contains, codes}
use kapsaro.Identity.Kid.{from_canonical}
use kapsaro.Identity.Handle.{member_handle}

pub record WrapItem : Type 0 where
  pub recipient_handle : Text
  pub kid : Text
  pub alg : Text
  pub enc : Text
  pub ct : Text

pub record RecipientWrap : Type 0 where
  pub recipient_handle : Text
  pub kid : Text
  pub enc : List ℕ
  pub ct : List ℕ

abbrev pub DecodeArray : Type 0
DecodeArray = Text → Result (List ℕ)

-- `MAX_WRAP_ITEMS` of support/limits.rs
abbrev pub max_wrap_items : ℕ
max_wrap_items = 1000

unfoldable pub validate_wrap_count : ℕ → Result (Unit {0})
validate_wrap_count count =
    if ltb max_wrap_items count then err (build_parse_error (wrap_count count)) else ok tt

-- `HPKE_X25519_HKDF_SHA256_CHACHA20_POLY1305` of model/wire.rs
abbrev pub hpke_algorithm : Text
hpke_algorithm = codes "hpke-32-1-3"

unfoldable pub validate_wrap_algorithm : Text → Result (Unit {0})
validate_wrap_algorithm value =
    if text_eq value hpke_algorithm
    then ok tt
    else err (build_crypto_error (unsupported_algorithm value))

module _ (decode32 decode48 : DecodeArray) where
  unfoldable pub validate_wrap_item : WrapItem → Result (Unit {0})
  validate_wrap_item item = do
    _ ← member_handle item.recipient_handle
    _ ← from_canonical item.kid
    validate_wrap_algorithm item.alg
    _ ← decode32 item.enc
    _ ← decode48 item.ct
    ok tt

  -- the loop; `seen` is the `HashSet` of handles
  unfoldable pub validate_items_from : List Text → List WrapItem → Result (Unit {0})
  validate_items_from seen [] = ok tt
  validate_items_from seen (item ∷ items) =
      let later = validate_items_from (item.recipient_handle ∷ seen) items in
      if contains seen item.recipient_handle
      then err (
          build_verification_error Rule.duplicate_recipient_handle
            (repeated_handle item.recipient_handle))
      else (validate_wrap_item item >> later)

  unfoldable pub validate_wrap_items : List WrapItem → Result (Unit {0})
  validate_wrap_items items = do validate_wrap_count (length items); validate_items_from [] items

  unfoldable pub parse_wrap : WrapItem → Result RecipientWrap
  parse_wrap item = do
    recipient_handle ← member_handle item.recipient_handle
    kid ← from_canonical item.kid
    enc ← decode32 item.enc
    ct ← decode48 item.ct
    ok (record { recipient_handle = recipient_handle; kid = kid; enc = enc; ct = ct })

  -- `map(..).collect()`
  unfoldable pub parse_items : List WrapItem → Result (List RecipientWrap)
  parse_items [] = ok []
  parse_items (item ∷ items) = do
    first ← parse_wrap item
    rest ← parse_items items
    ok (first ∷ rest)

  unfoldable pub parse_wrap_set : List WrapItem → Result (List RecipientWrap)
  parse_wrap_set items = do validate_wrap_items items; parse_items items

unfoldable pub find_by_kid_for_member : List RecipientWrap → Text → Text → Result RecipientWrap
find_by_kid_for_member items kid handle =
    elim (find (λ w. text_eq w.kid kid && text_eq w.recipient_handle handle) items) [
      | some w ↦ ok w
      | none ↦ elim (find (λ w. text_eq w.kid kid) items) [
        | some w ↦ err (build_crypto_error (wrap_handle_mismatch w.recipient_handle handle kid))
        | none ↦ err (build_crypto_error (no_wrap_for_kid kid handle))
      ]
    ]

unfoldable pub self_wrap_kid : List RecipientWrap → Text → Option Text
self_wrap_kid items handle = elim (find (λ w. text_eq w.recipient_handle handle) items) [
  | some w ↦ some w.kid
  | none ↦ none
]
