-- ===== src/Errors/Tests.antt =====
-- The theorems on error values, on concrete ones.
use kapsaro.Base.{◌≡◌, refl}
use kapsaro.Errors.{Error, ErrorKind, kind, build_not_found_error, store_not_found}

abbrev missing_key : Error
missing_key = build_not_found_error store_not_found

missing_key-kind : kind missing_key ≡ ErrorKind.not_found
unfolding kind
missing_key-kind = refl
