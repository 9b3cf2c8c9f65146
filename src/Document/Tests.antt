-- ===== src/Document/Tests.antt =====
-- Runs of the shared document parts, and the theorems on concrete inputs.
use kapsaro.Base.{[], ◌∷◌, ◌≡◌, refl, Text, arith, ◌≤◌, some, if◌then◌else◌, length}
use kapsaro.Errors.{ok}
use kapsaro.Text.{codes, text_eq}
use kapsaro.Identity.Tests.{kid_a, kid_b, alice, bob}
use kapsaro.Identity.Kid.{
  from_canonical, normalize_kid, normalize_kid_query, undashed, is_crockford_base32_byte,
}
use kapsaro.Identity.Handle.{member_handle, validate_member_handle}
use kapsaro.Document.JsonLimits.{validate_json_limits}
use kapsaro.Document.JsonLimits.Scan.Within.{validate_json_limits_iff}
use kapsaro.Document.WrapSet.{
  WrapItem, RecipientWrap, DecodeArray, parse_wrap_set, validate_wrap_items, validate_items_from,
  validate_wrap_item, validate_wrap_algorithm, validate_wrap_count, parse_items, parse_wrap,
  find_by_kid_for_member, self_wrap_kid, max_wrap_items,
}
use kapsaro.Document.WrapSet.Lookup.{
  HasUniqueHandles, parse_wrap_set-HasUniqueHandles, find_by_kid_for_member-self_wrap_kid,
}
use kapsaro.Document.Removed.{RemovedRecipient, upsert_removed_recipient}
use kapsaro.Document.Removed.History.{HasUniqueKids, entry, upsert_removed_recipient-entry}

-- a comma in a string literal is no element
validate_json_limits_iff_example : validate_json_limits (codes "{\"a,\": [1, 2]}") ≡ ok tt
validate_json_limits_iff_example =
    (validate_json_limits_iff (codes "{\"a,\": [1, 2]}")).1 (omega arith, omega arith)

-- a decoder that gives the characters
decode : DecodeArray
decode x = ok x

abbrev item : Text → Text → WrapItem
item handle kid = record {
  recipient_handle = handle;
  kid = kid;
  alg = codes "hpke-32-1-3";
  enc = codes "e";
  ct = codes "c";
}

abbrev wrapped : Text → Text → RecipientWrap
wrapped handle kid = record {
  recipient_handle = handle;
  kid = kid;
  enc = codes "e";
  ct = codes "c";
}

parsed :
    parse_wrap_set decode decode (item alice kid_a ∷ item bob kid_b ∷ [])
    ≡ ok (wrapped alice kid_a ∷ wrapped bob kid_b ∷ [])
unfolding parse_wrap_set validate_wrap_items validate_items_from validate_wrap_item
    validate_wrap_algorithm validate_wrap_count parse_items parse_wrap decode member_handle
    validate_member_handle from_canonical normalize_kid normalize_kid_query undashed
    is_crockford_base32_byte text_eq
parsed = refl

parse_wrap_set-HasUniqueHandles_example :
    HasUniqueHandles (wrapped alice kid_a ∷ wrapped bob kid_b ∷ [])
    × (length (item alice kid_a ∷ item bob kid_b ∷ []) ≤ max_wrap_items)
parse_wrap_set-HasUniqueHandles_example =
    parse_wrap_set-HasUniqueHandles decode decode (item alice kid_a ∷ item bob kid_b ∷ [])
      (wrapped alice kid_a ∷ wrapped bob kid_b ∷ []) parsed

named : self_wrap_kid (wrapped alice kid_a ∷ wrapped bob kid_a ∷ []) bob ≡ some kid_a
unfolding self_wrap_kid text_eq
named = refl

-- two entries carry the key id
find_by_kid_for_member-self_wrap_kid_example :
    (w : RecipientWrap) × (find_by_kid_for_member
        (wrapped alice kid_a ∷ wrapped bob kid_a ∷ [])
        kid_a
        bob
      ≡ ok w)
    × (w.kid ≡ kid_a)
    × (w.recipient_handle ≡ bob)
find_by_kid_for_member-self_wrap_kid_example =
    find_by_kid_for_member-self_wrap_kid (wrapped alice kid_a ∷ wrapped bob kid_a ∷ []) bob kid_a
      named

abbrev gone : Text → Text → Text → RemovedRecipient
gone handle kid time = record { recipient_handle = handle; kid = kid; removed_at = time }

upsert_removed_recipient-entry_example :
    HasUniqueKids
      (upsert_removed_recipient (gone alice kid_a (codes "1") ∷ []) (gone alice kid_a (codes "2")))
    × ((kid : Text)
        → entry
            (upsert_removed_recipient
              (gone alice kid_a (codes "1") ∷ [])
              (gone alice kid_a (codes "2")))
            kid
          ≡ (if text_eq kid_a kid
              then some (gone alice kid_a (codes "2"))
              else entry (gone alice kid_a (codes "1") ∷ []) kid))
upsert_removed_recipient-entry_example =
    upsert_removed_recipient-entry (gone alice kid_a (codes "1") ∷ [])
      (gone alice kid_a (codes "2")) (refl, tt)
