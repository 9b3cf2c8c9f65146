-- ===== src/Identity/Tests.antt =====
-- Runs of support/kid.rs and support/validation.rs, and the theorems on concrete inputs.
use kapsaro.Base.{[], ◌∷◌, ◌≡◌, refl, Text, true, arith, some}
use kapsaro.Errors.{
  ok, err, build_not_found_error, kid_not_found, build_invalid_argument_error, kid_not_canonical,
}
use kapsaro.Text.{codes, is_prefix, text_eq}
use kapsaro.Identity.Kid.{
  undashed, normalize_kid, normalize_kid_query, normalize_all, from_canonical, resolve_unique_kid,
  is_crockford_base32_byte,
}
use kapsaro.Identity.Kid.Canonical.{IsCanonical, from_canonical_iff}
use kapsaro.Identity.Kid.Resolve.{
  hits, HasForm, resolve_unique_kid_sound, resolve_unique_kid-errors,
}
use kapsaro.Identity.Handle.{member_handle, IsHandle, member_handle_iff, validate_member_handle}
use kapsaro.Identity.Derive.{encode_crockford_base32, encode_groups, collect_bits, bit_at}
use kapsaro.Identity.Derive.Letters.{encode_crockford_base32-IsCanonical}
use kapsaro.Identity.Names.{
  validate_github_login, IsLogin, validate_github_login_iff, validate_kv_file_basename, IsBasename,
  validate_kv_file_basename-IsBasename,
}

abbrev pub kid_a : Text
kid_a = codes "0123456789ABCDEFGHJKMNPQRSTVWXYZ"

abbrev pub kid_b : Text
kid_b = codes "9123ABCD0123ABCD0123ABCD0123ABCD"

abbrev pub alice : Text
alice = codes "alice@example"

abbrev pub bob : Text
bob = codes "bob"

pub kid_a-IsCanonical : IsCanonical kid_a
unfolding is_crockford_base32_byte
kid_a-IsCanonical = record { letters = refl; size = refl }

pub kid_b-IsCanonical : IsCanonical kid_b
unfolding is_crockford_base32_byte
kid_b-IsCanonical = record { letters = refl; size = refl }

pub alice-IsHandle : IsHandle alice
alice-IsHandle = record { size = omega arith; start = refl; letters = refl }

pub bob-IsHandle : IsHandle bob
bob-IsHandle = record { size = omega arith; start = refl; letters = refl }

-- a kid as an operator types it
dashed_lower : normalize_kid (codes "0123-4567-89ab-cdef-ghjk-mnpq-rstv-wxyz") ≡ ok kid_a
unfolding normalize_kid normalize_kid_query undashed is_crockford_base32_byte
dashed_lower = refl

-- a stored kid is not normalized
stored_lower :
    from_canonical (codes "0123456789abcdefghjkmnpqrstvwxyz")
    ≡ err (build_invalid_argument_error kid_not_canonical)
unfolding from_canonical normalize_kid normalize_kid_query undashed is_crockford_base32_byte text_eq
stored_lower = refl

from_canonical_iff_example : from_canonical kid_a ≡ ok kid_a
from_canonical_iff_example = (from_canonical_iff kid_a kid_a).1 (refl, kid_a-IsCanonical)

resolved : resolve_unique_kid (kid_a ∷ kid_b ∷ []) (codes "01-23") ≡ ok kid_a
unfolding resolve_unique_kid normalize_all normalize_kid normalize_kid_query undashed
    is_crockford_base32_byte
resolved = refl

resolve_unique_kid_sound_example :
    (q : Text) × (normalize_kid_query (codes "01-23") ≡ ok q)
    × HasForm kid_a (kid_a ∷ kid_b ∷ [])
    × (is_prefix q kid_a ≡ true)
    × (hits q (kid_a ∷ kid_b ∷ []) ≡ 1)
resolve_unique_kid_sound_example =
    resolve_unique_kid_sound (kid_a ∷ kid_b ∷ []) (codes "01-23") kid_a resolved

query_z : normalize_kid_query (codes "z") ≡ ok (codes "Z")
unfolding normalize_kid_query undashed is_crockford_base32_byte
query_z = refl

all_normal : normalize_all (kid_a ∷ kid_b ∷ []) ≡ ok (kid_a ∷ kid_b ∷ [])
unfolding normalize_all normalize_kid normalize_kid_query undashed is_crockford_base32_byte
all_normal = refl

no_hit : hits (codes "Z") (kid_a ∷ kid_b ∷ []) ≡ 0
unfolding normalize_kid normalize_kid_query undashed is_crockford_base32_byte
no_hit = refl

resolve_unique_kid-errors_example :
    resolve_unique_kid (kid_a ∷ kid_b ∷ []) (codes "z")
    ≡ err (build_not_found_error (kid_not_found (codes "z")))
resolve_unique_kid-errors_example =
    (resolve_unique_kid-errors (kid_a ∷ kid_b ∷ []) (kid_a ∷ kid_b ∷ []) (codes "z") (codes "Z")
        query_z all_normal).0
      no_hit

member_handle_iff_example : member_handle alice ≡ ok alice
member_handle_iff_example = (member_handle_iff alice alice).1 (refl, alice-IsHandle)

accepted_alice : member_handle alice ≡ ok alice
unfolding member_handle validate_member_handle
accepted_alice = refl

octo_cat-IsLogin : IsLogin (codes "octo-cat")
octo_cat-IsLogin = record {
  size = omega arith;
  first = refl;
  last = refl;
  letters = refl;
  apart = refl;
}

validate_github_login_iff_example : validate_github_login (codes "octo-cat") ≡ ok tt
validate_github_login_iff_example =
    (validate_github_login_iff (codes "octo-cat")).1 octo_cat-IsLogin

accepted_name : validate_kv_file_basename (codes "staging.env") ≡ ok tt
unfolding validate_kv_file_basename
accepted_name = refl

validate_kv_file_basename-IsBasename_example : IsBasename (codes "staging.env")
validate_kv_file_basename-IsBasename_example =
    validate_kv_file_basename-IsBasename (codes "staging.env") accepted_name

abbrev digest : Text
digest =
    0 ∷ 68 ∷ 50 ∷ 20 ∷ 199 ∷ 66 ∷ 84 ∷ 182 ∷ 53 ∷ 207 ∷ 132 ∷ 101 ∷ 58 ∷ 86 ∷ 215 ∷ 198 ∷ 117 ∷ 190
    ∷ 119 ∷ 223 ∷ []

encode_crockford_base32-IsCanonical_example :
    (kid : Text) × (encode_crockford_base32 digest ≡ some kid) × IsCanonical kid
encode_crockford_base32-IsCanonical_example = encode_crockford_base32-IsCanonical digest refl

digest_kid : encode_crockford_base32 digest ≡ some kid_a
unfolding encode_crockford_base32 encode_groups collect_bits bit_at
digest_kid = refl
