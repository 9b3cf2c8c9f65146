-- ===== src/Rewrap/Plan/Steps.antt =====
-- The steps of the run of a plan (feature/rewrap.rs), one after the other.
use kapsaro.Base.{Bool, true, false, List, [], ◌∷◌, ◌≡◌, arith, Text}
use kapsaro.Errors.{Result, ok, >>=-eq-ok}
use kapsaro.Rewrap.Plan.{
  RewrapExecutor, RewrapOperationPlan, apply_recipient_step, apply_flag_step,
  apply_rewrap_operation_plan,
}

module _ {Executor : Type 0} (x : RewrapExecutor Executor) where
  pub plan_steps :
      (e next : Executor) (plan : RewrapOperationPlan)
      → apply_rewrap_operation_plan x e plan ≡ ok next
      → (e1 e2 e3 e4 : Executor) × (apply_recipient_step x.remove_recipients e
            plan.remove_recipients
          ≡ ok e1)
        × (apply_recipient_step x.rewrite_recipient_wraps e1 plan.stale_recipient_handles ≡ ok e2)
        × (apply_recipient_step x.add_recipients e2 plan.add_recipients ≡ ok e3)
        × (apply_flag_step x.rotate_key e3 plan.rotate_key ≡ ok e4)
        × (apply_flag_step x.clear_disclosure_history e4 plan.clear_disclosure_history ≡ ok next)
  unfolding apply_rewrap_operation_plan
  plan_steps e next plan h =
      let (e1, h1, k1) =
        >>=-eq-ok (apply_recipient_step x.remove_recipients e plan.remove_recipients) _ h in
      let (e2, h2, k2) =
        >>=-eq-ok (apply_recipient_step x.rewrite_recipient_wraps e1 plan.stale_recipient_handles) _
          k1 in
      let (e3, h3, k3) =
        >>=-eq-ok (apply_recipient_step x.add_recipients e2 plan.add_recipients) _ k2 in
      let (e4, h4, k4) = >>=-eq-ok (apply_flag_step x.rotate_key e3 plan.rotate_key) _ k3 in
      (e1, e2, e3, e4, h1, h2, h3, h4, k4)

module _ {Executor : Type 0} where
  -- A step that is run, or left out, keeps what the operation keeps.
  pub recipient_step_inv :
      (P : Executor → Type 0) (f : Executor → List Text → Result Executor)
      → ((e next : Executor) (rs : List Text) → f e rs ≡ ok next → P e → P next)
      → (e next : Executor) (rs : List Text) → apply_recipient_step f e rs ≡ ok next
      → P e
      → P next
  unfolding apply_recipient_step
  recipient_step_inv P f keep e next [] h p = let same : e ≡ next = ground arith in rw (← same) p
  recipient_step_inv P f keep e next (r ∷ rs) h p = keep e next (r ∷ rs) h p

  pub flag_step_inv :
      (P : Executor → Type 0) (f : Executor → Result Executor)
      → ((e next : Executor) → f e ≡ ok next → P e → P next)
      → (e next : Executor) (enabled : Bool) → apply_flag_step f e enabled ≡ ok next
      → P e
      → P next
  unfolding apply_flag_step
  flag_step_inv P f keep e next false h p = let same : e ≡ next = ground arith in rw (← same) p
  flag_step_inv P f keep e next true h p = keep e next h p
