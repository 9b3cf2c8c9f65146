-- ===== src/Errors/Axes.antt =====
-- The category, the rule and the recovery route of an error (error.rs), side by side.
use kapsaro.Base.{◌≡◌, ◌↔◌, refl, none, some, arith}
use kapsaro.Errors.{
  Error, ErrorKind, Message, Recovery, Result, ok, err, kind, rule, with_recovery, with_message,
  absent_as_none, is_not_found,
}

-- Naming a recovery route and restating the message, in either order, give the same error, which
-- keeps the category and the rule of the original and carries the route.
pub with_recovery-with_message :
    (e : Error) (m : Message) (code : Recovery)
    → (with_recovery (with_message e m) code ≡ with_message (with_recovery e code) m)
      × (kind (with_recovery (with_message e m) code) ≡ kind e)
      × (rule (with_recovery (with_message e m) code) ≡ rule e)
      × ((with_recovery (with_message e m) code).recovery ≡ some code)
unfolding with_recovery with_message kind rule
with_recovery-with_message e m code = ground arith

-- Absence is reported exactly for a failure of the not-found category.
pub absent_as_none-eq-none {ℓ} :
    {A : Type ℓ} (opened : Result A)
    → (absent_as_none opened ≡ ok none)
      ↔ ((e : Error) × (opened ≡ err e) × (kind e ≡ ErrorKind.not_found))
unfolding absent_as_none is_not_found kind
absent_as_none-eq-none (ok v) = (λ h. cc, λ h. ground arith)
absent_as_none-eq-none (err e) = (λ h. (e, refl, ground arith), λ h. ground arith)
