-- ===== src/Duration/Tests.antt =====
-- Runs of support/time.rs.
use kapsaro.Base.{◌≡◌, refl}
use kapsaro.Errors.{ok, err, build_parse_error, duration_out_of_range, non_positive_duration}
use kapsaro.Text.{codes, trim}
use kapsaro.Duration.{RelativeDuration, parse_relative_duration}
use kapsaro.Duration.Exact.{IsDuration, parse_relative_duration_iff}

abbrev two_months : RelativeDuration
two_months = record { days = 60; seconds = 5184000 }

months : parse_relative_duration (codes " +2m ") ≡ ok two_months
unfolding parse_relative_duration trim
months = refl

too_long :
    parse_relative_duration (codes "106751991167301d")
    ≡ err (build_parse_error (duration_out_of_range (codes "106751991167301d")))
unfolding parse_relative_duration trim
too_long = refl

negative :
    parse_relative_duration (codes "-1y")
    ≡ err (build_parse_error (non_positive_duration (codes "-1y")))
unfolding parse_relative_duration trim
negative = refl

parse_relative_duration_iff_example : IsDuration (trim (codes " +2m ")) two_months
parse_relative_duration_iff_example =
    (parse_relative_duration_iff (codes " +2m ") two_months).0 months
