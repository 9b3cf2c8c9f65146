-- ===== src/Rewrap/Plan/Target.antt =====
-- What the run of a plan makes of the wrapped keys, for every executor that keeps its promises.
use kapsaro.Base.{Bool, true, false, not, List, [], ◌∷◌, ◌≡◌, ap, arith, Text, map, All, All_imp}
use kapsaro.Errors.{Result, ok}
use kapsaro.Text.{contains, contains-sort}
use kapsaro.Model.PublicKey.{PublicKey}
use kapsaro.Model.FileEnc.{handles}
use kapsaro.Document.WrapSet.{WrapItem}
use kapsaro.Rewrap.Recipient.{subject}
use kapsaro.Rewrap.Plan.{
  RewrapExecutor, RewrapOptions, RewrapOperationPlan, build_rewrap_operation_plan,
  apply_recipient_step, apply_flag_step, apply_rewrap_operation_plan,
  collect_stale_recipient_handles, collect_target_member_handles,
}
use kapsaro.Rewrap.Plan.Steps.{plan_steps}
use kapsaro.Rewrap.Plan.Stale.{HasUniqueHandles, IsCurrent, stale-contains, All-stale}
use kapsaro.Rewrap.Plan.Laws.{Rewrites, Rewrites-refl, ExecutorLaws, contains-filter}

-- The wrapped keys are addressed to the members and to nobody else, each to a key of its member.
pub record IsAddressedTo (members : List PublicKey) (ws : List WrapItem) : Type 0 where
  pub recipients_iff :
      (handle : Text) → contains (handles ws) handle ≡ contains (map subject members) handle
  pub current : All (IsCurrent members) ws

pub contains-targets :
    (members : List PublicKey) (j : Text)
    → contains (collect_target_member_handles members) j ≡ contains (map subject members) j
unfolding collect_target_member_handles
contains-targets members j = contains-sort (map subject members) j

module _ {Executor : Type 0} (x : RewrapExecutor Executor) (members : List PublicKey)
    (laws : ExecutorLaws x members) where
  open laws use {wraps}

  remove_step :
      (e next : Executor) (rs : List Text)
      → apply_recipient_step x.remove_recipients e rs ≡ ok next
      → Rewrites members rs [] (wraps e) (wraps next)
  unfolding apply_recipient_step
  remove_step e next [] h =
      let same : e ≡ next = ground arith in rw (← same) (Rewrites-refl members (wraps e))
  remove_step e next (r ∷ rs) h = laws.remove_recipients_lem e next (r ∷ rs) h

  rewrite_step :
      (e next : Executor) (rs : List Text)
      → apply_recipient_step x.rewrite_recipient_wraps e rs ≡ ok next
      → Rewrites members rs rs (wraps e) (wraps next)
  unfolding apply_recipient_step
  rewrite_step e next [] h =
      let same : e ≡ next = ground arith in rw (← same) (Rewrites-refl members (wraps e))
  rewrite_step e next (r ∷ rs) h = laws.rewrite_recipient_wraps_lem e next (r ∷ rs) h

  add_step :
      (e next : Executor) (rs : List Text)
      → apply_recipient_step x.add_recipients e rs ≡ ok next
      → Rewrites members [] rs (wraps e) (wraps next)
  unfolding apply_recipient_step
  add_step e next [] h =
      let same : e ≡ next = ground arith in rw (← same) (Rewrites-refl members (wraps e))
  add_step e next (r ∷ rs) h = laws.add_recipients_lem e next (r ∷ rs) h

  flag_step :
      (f : Executor → Result Executor) (e next : Executor) (enabled : Bool)
      → ((e next : Executor) → f e ≡ ok next → Rewrites members [] [] (wraps e) (wraps next))
      → apply_flag_step f e enabled ≡ ok next
      → Rewrites members [] [] (wraps e) (wraps next)
  unfolding apply_flag_step
  flag_step f e next false law h =
      let same : e ≡ next = ground arith in rw (← same) (Rewrites-refl members (wraps e))
  flag_step f e next true law h = law e next h

  -- what the five steps of a plan make of the wrapped keys
  run_steps :
      (e next : Executor) (plan : RewrapOperationPlan)
      → apply_rewrap_operation_plan x e plan ≡ ok next
      → (a b c d : List WrapItem) × Rewrites members plan.remove_recipients [] (wraps e) a
        × Rewrites members plan.stale_recipient_handles plan.stale_recipient_handles a b
        × Rewrites members [] plan.add_recipients b c
        × Rewrites members [] [] c d
        × Rewrites members [] [] d (wraps next)
  run_steps e next plan h =
      let (e1, e2, e3, e4, h1, h2, h3, h4, h5) = plan_steps x e next plan h in
      (
        wraps e1,
        wraps e2,
        wraps e3,
        wraps e4,
        remove_step e e1 plan.remove_recipients h1,
        rewrite_step e1 e2 plan.stale_recipient_handles h2,
        add_step e2 e3 plan.add_recipients h3,
        flag_step x.rotate_key e3 e4 plan.rotate_key laws.rotate_key_lem h4,
        flag_step x.clear_disclosure_history e4 next plan.clear_disclosure_history
            laws.clear_disclosure_history_lem h5,
      )

  -- Where no two wrapped keys of a document are addressed to one member, the run of the plan that is
  -- built for it brings its wrapped keys to the members: they are addressed to the members and to
  -- nobody else, each to a key of its member.
  pub apply_plan-IsAddressedTo :
      (e next : Executor) (options : RewrapOptions)
      → HasUniqueHandles (wraps e)
      → apply_rewrap_operation_plan x e (
          build_rewrap_operation_plan
            (x.current_recipients e)
            (collect_target_member_handles members)
            (collect_stale_recipient_handles (wraps e) members)
            options)
        ≡ ok next
      → IsAddressedTo members (wraps next)
  unfolding build_rewrap_operation_plan
  apply_plan-IsAddressedTo e next options unique h =
      let cur = laws.current_recipients_lem e in
      let (a, b, c, d, r1, r2, r3, r4, r5) = run_steps e next _ h in
      record {
        recipients_iff = λ j. ground (
          arith,
          r1.handles_of j,
          r2.handles_of j,
          r3.handles_of j,
          r4.handles_of j,
          r5.handles_of j,
          ap (λ l. contains l j) cur,
          contains-targets members j,
          stale-contains (wraps e) members j,
          contains-filter (λ r. not (contains (collect_target_member_handles members) r))
              (x.current_recipients e) j,
          contains-filter (λ r. not (contains (x.current_recipients e) r))
              (collect_target_member_handles members) j,
        );
        current =
            let stays : All
                (λ w.
                  contains
                      (build_rewrap_operation_plan (x.current_recipients e)
                        (collect_target_member_handles members)
                        (collect_stale_recipient_handles (wraps e) members)
                        options).remove_recipients
                      w.recipient_handle
                    ≡ false
                  → contains (collect_stale_recipient_handles (wraps e) members) w.recipient_handle
                    ≡ false
                  → IsCurrent members w)
                (wraps e) =
              All_imp (wraps e)
                (λ w f n. f.1 (
                  ground (
                    arith,
                    f.0,
                    n,
                    ap (λ l. contains l w.recipient_handle) cur,
                    contains-targets members w.recipient_handle,
                    contains-filter (λ r. not (contains (collect_target_member_handles members) r))
                        (x.current_recipients e) w.recipient_handle,
                  )))
                (All-stale (wraps e) members unique) in
            let after1 = r1.items_of _ stays (λ w f n. f) in
            let after2 = r2.items_of (IsCurrent members) after1 (λ w f. f) in
            let after3 =
              r3.items_of (IsCurrent members) (All_imp b (λ w f _. f) after2) (λ w f. f) in
            let after4 =
              r4.items_of (IsCurrent members) (All_imp c (λ w f _. f) after3) (λ w f. f) in
            r5.items_of (IsCurrent members) (All_imp d (λ w f _. f) after4) (λ w f. f);
      }
