-- ===== src/Duration.antt =====
-- crates/kapsaro-core/src/support/time.rs: relative durations. A count that is not positive is refused, so
-- the numbers after that are natural, with the upper bound of `i64`.
pub mod Exact
mod Tests
use kapsaro.Base.{
  ℕ, zero, suc, ◌+◌, ◌*◌, ◌-◌, ◌/◌, Bool, true, false, List, [], ◌∷◌, Option, none, some, ◌==◌, leb,
  if◌then◌else◌, Text,
}
use kapsaro.Errors.{
  Error, Result, ok, err, ◌>>=◌, ok_or, build_parse_error, bad_duration, non_positive_duration,
  duration_out_of_range,
}
use kapsaro.Text.{trim, is_ascii_digit}

pub data ℤ : Type 0 where
  pos negsuc : ℕ → ℤ

abbrev pub max_i64 : ℕ
max_i64 = 9223372036854775807

abbrev pub seconds_per_day : ℕ
seconds_per_day = 86400

abbrev pub days_per_month : ℕ
days_per_month = 30

abbrev pub days_per_year : ℕ
days_per_year = 365

pub record RelativeDuration : Type 0 where
  pub days : ℕ
  pub seconds : ℕ

-- `<i64 as FromStr>`: a sign or none, and at least one ASCII digit
unfoldable pub parse_digits : ℕ → Text → Option ℕ
parse_digits value [] = some value
parse_digits value (c ∷ s) =
    let rest = parse_digits (value * 10 + (c - b'0')) s in if is_ascii_digit c then rest else none

abbrev pub parse_number : Text → Option ℕ
parse_number [] = none
parse_number (c ∷ s) = parse_digits 0 (c ∷ s)

abbrev pub in_i64 : ℕ → Option ℤ
in_i64 n = if leb n max_i64 then some (pos n) else none

abbrev pub negated_i64 : ℕ → Option ℤ
negated_i64 zero = some (pos 0)
negated_i64 (suc n) = if leb n max_i64 then some (negsuc n) else none

unfoldable pub parse_i64 : Text → Option ℤ
unfolding parse_digits
parse_i64 [] = none
parse_i64 (c ∷ s) =
    if c == b'-'
    then elim (parse_number s) [ some n ↦ negated_i64 n | none ↦ none ]
    else elim (parse_number (if c == b'+' then s else c ∷ s)) [ some n ↦ in_i64 n | none ↦ none ]

-- `chars().next_back()`, and what is left
unfoldable pub split_last : Text → Option (Text × ℕ)
split_last [] = none
split_last (c ∷ s) = elim (split_last s) [ none ↦ some ([], c) | some p ↦ some (c ∷ p.0, p.1) ]

abbrev pub checked_mul : ℕ → ℕ → Option ℕ
checked_mul a b = if leb (a * b) max_i64 then some (a * b) else none

-- the days that are named, `none` in the result where they overflow
unfoldable pub days_of : Text → ℕ → ℕ → Result (Option ℕ)
days_of text unit count =
    if unit == b'd'
    then ok (some count)
    else if unit == b'm'
    then ok (checked_mul count days_per_month)
    else if unit == b'y'
    then ok (checked_mul count days_per_year)
    else err (build_parse_error (bad_duration text))

unfoldable pub finish_duration : Text → Option ℕ → Result RelativeDuration
finish_duration text days = elim days [
  | none ↦ err (build_parse_error (duration_out_of_range text))
  | some n ↦ elim (checked_mul n seconds_per_day) [
    | none ↦ err (build_parse_error (duration_out_of_range text))
    | some seconds ↦ ok (record { days = seconds / seconds_per_day; seconds = seconds })
  ]
]

unfoldable pub measure : Text → ℕ → ℤ → Result RelativeDuration
unfolding days_of finish_duration
measure text unit (negsuc n) = err (build_parse_error (non_positive_duration text))
measure text unit (pos zero) = err (build_parse_error (non_positive_duration text))
measure text unit (pos (suc n)) = days_of text unit (suc n) >>= finish_duration text

unfoldable pub parse_trimmed : Text → Result RelativeDuration
unfolding measure parse_i64 split_last
parse_trimmed text = do
  last ← ok_or (split_last text) (build_parse_error (bad_duration text))
  count ← ok_or (parse_i64 last.0) (build_parse_error (bad_duration text))
  measure text last.1 count

unfoldable pub parse_relative_duration : Text → Result RelativeDuration
unfolding parse_trimmed
parse_relative_duration text = parse_trimmed (trim text)

unfoldable pub parse_relative_duration_days : Text → Result ℕ
parse_relative_duration_days text = do duration ← parse_relative_duration text; ok duration.days
