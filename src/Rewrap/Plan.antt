-- ===== src/Rewrap/Plan.antt =====
-- crates/kapsaro-core/src/feature/rewrap.rs: the plan of a rewrap, and the run of it over an executor.
-- An executor is changed in place and dropped on an error; here an operation answers the new one.
pub mod Laws
pub mod Stale
pub mod Steps
pub mod Target
use kapsaro.Base.{
  Bool, true, false, not, List, [], ◌∷◌, Option, none, some, if◌then◌else◌, Text, find, filter,
  is_empty, map,
}
use kapsaro.Errors.{Result, ok, err, ◌>>=◌}
use kapsaro.Text.{text_eq, contains, sort}
use kapsaro.Model.PublicKey.{PublicKey}
use kapsaro.Document.WrapSet.{WrapItem}
use kapsaro.Rewrap.Recipient.{subject}

pub record RewrapOptions : Type 0 where
  pub rotate_key : Bool
  pub clear_disclosure_history : Bool

-- the trait `RewrapExecutor`
pub record RewrapExecutor (Executor : Type 0) : Type 0 where
  pub current_recipients : Executor → List Text
  pub add_recipients : Executor → List Text → Result Executor
  pub rewrite_recipient_wraps : Executor → List Text → Result Executor
  pub remove_recipients : Executor → List Text → Result Executor
  pub rotate_key : Executor → Result Executor
  pub clear_disclosure_history : Executor → Result Executor
  pub finalize : Executor → Result Text

pub record RewrapOperationPlan : Type 0 where
  pub remove_recipients : List Text
  pub stale_recipient_handles : List Text
  pub add_recipients : List Text
  pub rotate_key : Bool
  pub clear_disclosure_history : Bool

unfoldable pub build_rewrap_operation_plan :
    List Text → List Text → List Text → RewrapOptions → RewrapOperationPlan
build_rewrap_operation_plan current_recipients target_recipients stale_recipients options = record {
  remove_recipients = filter (λ r. not (contains target_recipients r)) current_recipients;
  stale_recipient_handles = stale_recipients;
  add_recipients = filter (λ r. not (contains current_recipients r)) target_recipients;
  rotate_key = options.rotate_key;
  clear_disclosure_history = options.clear_disclosure_history;
}

unfoldable pub apply_recipient_step :
    {Executor : Type 0}
    → (Executor → List Text → Result Executor)
    → Executor
    → List Text
    → Result Executor
apply_recipient_step apply executor recipients =
    if is_empty recipients then ok executor else apply executor recipients

unfoldable pub apply_flag_step :
    {Executor : Type 0} → (Executor → Result Executor) → Executor → Bool → Result Executor
apply_flag_step apply executor enabled = if not enabled then ok executor else apply executor

module _ {Executor : Type 0} (x : RewrapExecutor Executor) where
  unfoldable pub apply_rewrap_operation_plan : Executor → RewrapOperationPlan → Result Executor
  unfolding apply_recipient_step apply_flag_step
  apply_rewrap_operation_plan executor plan = do
    removed ← apply_recipient_step x.remove_recipients executor plan.remove_recipients
    rewritten ← apply_recipient_step x.rewrite_recipient_wraps removed plan.stale_recipient_handles
    added ← apply_recipient_step x.add_recipients rewritten plan.add_recipients
    rotated ← apply_flag_step x.rotate_key added plan.rotate_key
    apply_flag_step x.clear_disclosure_history rotated plan.clear_disclosure_history

  unfoldable pub rewrite_with_rewrap_operation_plan : Executor → RewrapOperationPlan → Result Text
  unfolding apply_rewrap_operation_plan
  rewrite_with_rewrap_operation_plan executor plan = do
    applied ← apply_rewrap_operation_plan executor plan
    x.finalize applied

unfoldable pub collect_stale_recipient_handles : List WrapItem → List PublicKey → List Text
collect_stale_recipient_handles current_wrap [] = []
collect_stale_recipient_handles current_wrap (member ∷ target_members) =
    let rest = collect_stale_recipient_handles current_wrap target_members in
    elim (find (λ w. text_eq w.recipient_handle (subject member)) current_wrap) [
      | none ↦ rest
      | some w ↦ if not (text_eq w.kid member.protected.kid) then subject member ∷ rest else rest
    ]

unfoldable pub collect_target_member_handles : List PublicKey → List Text
collect_target_member_handles target_members = sort (map subject target_members)

-- the trait `RewrapDocumentAdapter`, with the `VerifiedRewrapDocument` of its documents
pub record RewrapDocumentAdapter (Content Verified Executor : Type 0) : Type 0 where
  pub verify_content : Content → Result Verified
  pub current_wrap_items : Verified → List WrapItem
  pub build_executor : Verified → Result Executor

module _ {Content Verified Executor : Type 0} (a : RewrapDocumentAdapter Content Verified Executor)
    (x : RewrapExecutor Executor) where
  unfoldable pub rewrap_document_with_common_skeleton :
      RewrapOptions → Content → List PublicKey → Result Text
  unfolding rewrite_with_rewrap_operation_plan build_rewrap_operation_plan
      collect_stale_recipient_handles collect_target_member_handles
  rewrap_document_with_common_skeleton options content target_members = do
    verified ← a.verify_content content
    let stale = collect_stale_recipient_handles (a.current_wrap_items verified) target_members
    executor ← a.build_executor verified
    rewrite_with_rewrap_operation_plan x executor (
        build_rewrap_operation_plan (x.current_recipients executor)
          (collect_target_member_handles target_members) stale options)
