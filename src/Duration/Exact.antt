-- ===== src/Duration/Exact.antt =====
-- Which texts are relative durations (support/time.rs), and how long they are.
use kapsaro.Base.{
  ℕ, zero, suc, ◌*◌, ◌/◌, ◌≤◌, [], ◌∷◌, ◌++◌, Option, none, some, ◌≡◌, ◌∙◌, ◌↔◌, refl, ap, subst,
  inl, inr, arith, ◌==◌, leb, if◌then◌else◌, Text, Bool-cases, Option-cases,
}
use kapsaro.Errors.{ok}
use kapsaro.Text.{trim}
use kapsaro.Duration.{
  ℤ, pos, negsuc, max_i64, seconds_per_day, days_per_month, days_per_year, RelativeDuration,
  parse_i64, split_last, checked_mul, days_of, finish_duration, measure, parse_trimmed,
  parse_relative_duration,
}

-- The days that a unit stands for.
abbrev pub unit_days : ℕ → Option ℕ
unit_days unit =
    if unit == b'd'
    then some 1
    else if unit == b'm'
    then some 30
    else if unit == b'y'
    then some 365
    else none

-- A duration of the given number of days, which fits in seconds.
abbrev pub Lasts : ℕ → RelativeDuration → Type 0
Lasts days d = (d.days ≡ days) × (d.seconds ≡ days * seconds_per_day) × (d.seconds ≤ max_i64)

-- A positive count and a unit letter.
abbrev pub IsDuration : Text → RelativeDuration → Type 0
IsDuration text d =
    (digits : Text) × (unit n k : ℕ) × (text ≡ digits ++ unit ∷ [])
    × (parse_i64 digits ≡ some (pos (suc n)))
    × (unit_days unit ≡ some k)
    × Lasts (suc n * k) d

split_last-append : (s : Text) (c : ℕ) → split_last (s ++ c ∷ []) ≡ some (s, c)
unfolding split_last
split_last-append [] c = refl
split_last-append (d ∷ s) c = ground (arith, split_last-append s c)

split_last-none : (s : Text) → split_last s ≡ none → s ≡ []
unfolding split_last
split_last-none [] h = refl
split_last-none (c ∷ s) h = absurd (ground arith)

split_last_sound : (s p : Text) (u : ℕ) → split_last s ≡ some (p, u) → s ≡ p ++ u ∷ []
unfolding split_last
split_last_sound [] p u h = absurd cc
split_last_sound (c ∷ s) p u h = elim (Option-cases (split_last s)) [
  | inr e ↦ let nil = split_last-none s e in ground arith
  | inl ((q, v), e) ↦ let inner = split_last_sound s q v e in ground arith
]

finish_duration_iff :
    (text : Text) (n : ℕ) (d : RelativeDuration)
    → (finish_duration text (some n) ≡ ok d) ↔ Lasts n d
unfolding finish_duration
finish_duration_iff text n d =
    let whole : n * seconds_per_day / seconds_per_day ≡ n = omega arith in
    elim (Bool-cases (leb (n * seconds_per_day) max_i64)) [
      | inl fits ↦ rw (fits, finish_duration) ((λ h. ground arith), λ l. ground arith)
      | inr over ↦ rw (over, finish_duration) ((λ h. absurd cc), λ l. absurd (ground arith))
    ]

checked_mul_iff :
    (text : Text) (n k : ℕ) (d : RelativeDuration)
    → (finish_duration text (checked_mul n k) ≡ ok d) ↔ Lasts (n * k) d
unfolding finish_duration
checked_mul_iff text n k d = elim (Bool-cases (leb (n * k) max_i64)) [
  | inl fits ↦ rw fits (finish_duration_iff text (n * k) d)
  | inr over ↦ rw over ((λ h. absurd cc), λ l. absurd (ground arith))
]

measure_iff :
    (text : Text) (unit n : ℕ) (d : RelativeDuration)
    → (measure text unit (pos (suc n)) ≡ ok d)
      ↔ ((k : ℕ) × (unit_days unit ≡ some k) × Lasts (suc n * k) d)
unfolding measure days_of
measure_iff text unit n d = elim (Bool-cases (unit == b'd')) [
  | inl day ↦
      let f = finish_duration_iff text (suc n) d in
      rw day (
        (λ h. (1, refl, subst (λ x. Lasts x d) (omega arith) (f.0 h))),
        λ t. let (k, e, l) = t in f.1 (subst (λ x. Lasts x d) (ground arith) l),
      )
  | inr other ↦ elim (Bool-cases (unit == b'm')) [
    | inl month ↦
        let f = checked_mul_iff text (suc n) days_per_month d in
        rw (other, month)
          (
            (λ h. (30, refl, f.0 h)),
            λ t. let (k, e, l) = t in f.1 (subst (λ x. Lasts x d) (ground arith) l),
          )
    | inr third ↦ elim (Bool-cases (unit == b'y')) [
      | inl year ↦
          let f = checked_mul_iff text (suc n) days_per_year d in
          rw (other, third, year)
            (
              (λ h. (365, refl, f.0 h)),
              λ t. let (k, e, l) = t in f.1 (subst (λ x. Lasts x d) (ground arith) l),
            )
      | inr none_ ↦ rw (other, third, none_) ((λ h. absurd cc), λ t. let (k, e, l) = t in absurd cc)
    ]
  ]
]

positive_count :
    (text : Text) (unit : ℕ) (count : ℤ) (d : RelativeDuration)
    → measure text unit count ≡ ok d
    → (n : ℕ) × (count ≡ pos (suc n))
unfolding measure
positive_count text unit (negsuc n) d h = absurd cc
positive_count text unit (pos zero) d h = absurd cc
positive_count text unit (pos (suc n)) d h = (n, refl)

trimmed_iff : (text : Text) (d : RelativeDuration) → (parse_trimmed text ≡ ok d) ↔ IsDuration text d
unfolding parse_trimmed
trimmed_iff text d = (
  λ h. elim (Option-cases (split_last text)) [
    | inr e ↦ absurd (ground arith)
    | inl ((digits, unit), e) ↦ elim (Option-cases (parse_i64 digits)) [
      | inr bad ↦ absurd (ground arith)
      | inl (count, read) ↦
          let m : measure text unit count ≡ ok d = rw (e, parse_trimmed, read) at h in
          let (n, p) = positive_count text unit count d m in
          let (k, u, l) =
            (measure_iff text unit n d).0 (subst (λ c. measure text unit c ≡ ok d) p m) in
          (digits, unit, n, k, split_last_sound text digits unit e, read ∙ ap some p, u, l)
    ]
  ],
  λ t.
      let (digits, unit, n, k, e, read, u, l) = t in
      let last : split_last text ≡ some (digits, unit) =
        ap split_last e ∙ split_last-append digits unit in
      rw (last, read) ((measure_iff text unit n d).1 (k, u, l)),
)

-- A text is a relative duration exactly where, without white space around it, it is a positive count
-- that is an `i64` and a unit letter, and the count times the days of the unit, in seconds, is an
-- `i64`; the duration then has that many days and that many seconds.
pub parse_relative_duration_iff :
    (text : Text) (d : RelativeDuration)
    → (parse_relative_duration text ≡ ok d) ↔ IsDuration (trim text) d
unfolding parse_relative_duration
parse_relative_duration_iff text d = trimmed_iff (trim text) d
