-- ===== src/Identity/Kid.antt =====
-- crates/kapsaro-core/src/support/kid.rs, and `Kid::from_canonical` of model/identity.rs.
-- Dropping dashes and raising ASCII letters act on characters as on bytes, so a `kid` is its
-- characters; the length is in bytes, and `String::from_utf8` cannot fail on the filtered bytes.
pub mod Canonical
pub mod Display
pub mod Resolve
use kapsaro.Base.{
  ℕ, zero, suc, ◌+◌, Bool, true, false, not, ◌&&◌, ◌||◌, List, [], ◌∷◌, ◌++◌, Option, none, some,
  ◌==◌, ltb, if◌then◌else◌, length, filter, all, is_empty, Text, map,
}
use kapsaro.Errors.{
  Error, Result, ok, err, ◌>>=◌, ◌>>◌, guard, build_invalid_argument_error, build_not_found_error,
  kid_length, kid_query_length, kid_alphabet, kid_not_found, kid_ambiguous, kid_not_canonical,
}
use kapsaro.Text.{within, to_ascii_uppercase, len, is_prefix, text_eq}

abbrev pub kid_len : ℕ
kid_len = 32

unfoldable pub is_crockford_base32_byte : ℕ → Bool
is_crockford_base32_byte c =
    within b'0' b'9' c
    || within b'A' b'H' c
    || within b'J' b'K' c
    || within b'M' b'N' c
    || within b'P' b'T' c
    || within b'V' b'Z' c

-- the bytes that are not dashes, in upper case
unfoldable pub undashed : Text → Text
undashed [] = []
undashed (c ∷ s) = let rest = undashed s in if c == b'-' then rest else to_ascii_uppercase c ∷ rest

unfoldable pub normalize_kid_query : Text → Result Text
normalize_kid_query input =
    let query = undashed input in
    if is_empty query || ltb kid_len (len query)
    then err (build_invalid_argument_error kid_query_length)
    else if not (all is_crockford_base32_byte query)
    then err (build_invalid_argument_error kid_alphabet)
    else ok query

unfoldable pub normalize_kid : Text → Result Text
normalize_kid input = do
  canonical ← normalize_kid_query input
  if len canonical == kid_len then ok canonical else err (build_invalid_argument_error kid_length)

-- `chunks(4)`
unfoldable pub chunks : Text → List Text
chunks [] = []
chunks (a ∷ b ∷ c ∷ d ∷ s) = (a ∷ b ∷ c ∷ d ∷ []) ∷ chunks s
chunks s = s ∷ []

-- the chunks that follow the first, each behind a dash
unfoldable pub push_chunks : List Text → Text
push_chunks [] = []
push_chunks (chunk ∷ rest) = b'-' ∷ (chunk ++ push_chunks rest)

unfoldable pub join_chunks : List Text → Text
unfolding push_chunks
join_chunks [] = []
join_chunks (chunk ∷ rest) = chunk ++ push_chunks rest

unfoldable pub format_kid_display : Text → Result Text
format_kid_display canonical_kid = do
  canonical ← normalize_kid canonical_kid
  ok (join_chunks (chunks canonical))

-- `[..n]`
unfoldable pub take : ℕ → Text → Text
take zero s = []
take (suc n) [] = []
take (suc n) (c ∷ s) = c ∷ take n s

unfoldable pub format_kid_half_display : Text → Result Text
format_kid_half_display canonical_kid = do
  canonical ← normalize_kid canonical_kid
  ok (join_chunks (chunks (take 16 canonical)))

unfoldable pub normalize_all : List Text → Result (List Text)
normalize_all [] = ok []
normalize_all (c ∷ rest) = do
  first ← normalize_kid c
  later ← normalize_all rest
  ok (first ∷ later)

abbrev pub pick_unique : Text → List Text → Result Text
pick_unique query [] = err (build_not_found_error (kid_not_found query))
pick_unique query (resolved ∷ []) = ok resolved
pick_unique query (_ ∷ _ ∷ _) = err (build_invalid_argument_error (kid_ambiguous query))

unfoldable pub resolve_unique_kid : List Text → Text → Result Text
resolve_unique_kid candidates query = do
  normalized_query ← normalize_kid_query query
  normalized ← normalize_all candidates
  pick_unique query (filter (λ candidate. is_prefix normalized_query candidate) normalized)

abbrev build_non_canonical_kid_error : Error
build_non_canonical_kid_error = build_invalid_argument_error kid_not_canonical

-- `Kid::from_canonical`, which `Kid::new` and `Kid::try_from` call
unfoldable pub from_canonical : Text → Result Text
from_canonical value = elim (normalize_kid value) [
  | err e ↦ err build_non_canonical_kid_error
  | ok canonical ↦
      if text_eq canonical value then ok canonical else err build_non_canonical_kid_error
]
