-- ===== src/Document/Removed.antt =====
-- crates/kapsaro-core/src/feature/disclosure.rs: the recipients that a document had before. `now` is the
-- answer of `generate_current_timestamp`.
pub mod History
use kapsaro.Base.{
  ℕ, Bool, true, false, List, [], ◌∷◌, ◌++◌, Option, none, some, if◌then◌else◌, Text, any,
}
use kapsaro.Errors.{Error, Result, ok, err, ◌>>=◌}
use kapsaro.Text.{text_eq}

pub record RemovedRecipient : Type 0 where
  pub recipient_handle : Text
  pub kid : Text
  pub removed_at : Text

abbrev pub has_kid : List RemovedRecipient → Text → Bool
has_kid list kid = any (λ r. text_eq r.kid kid) list

-- the loop that keeps the first entry of each kid; `deduped` grows at its end
unfoldable pub push_missing : List RemovedRecipient → List RemovedRecipient → List RemovedRecipient
push_missing deduped [] = deduped
push_missing deduped (r ∷ source) =
    push_missing (if has_kid deduped r.kid then deduped else deduped ++ r ∷ []) source

unfoldable pub build_unique_removed_recipients : List RemovedRecipient → List RemovedRecipient
build_unique_removed_recipients source = push_missing [] source

-- `list[index] = removed` at the first entry of its kid
unfoldable pub replace_first : RemovedRecipient → List RemovedRecipient → List RemovedRecipient
replace_first removed [] = []
replace_first removed (r ∷ list) =
    let rest = replace_first removed list in
    if text_eq r.kid removed.kid then removed ∷ list else r ∷ rest

unfoldable pub upsert_removed_recipient :
    List RemovedRecipient → RemovedRecipient → List RemovedRecipient
upsert_removed_recipient list removed =
    if has_kid list removed.kid
    then build_unique_removed_recipients (replace_first removed list)
    else list ++ removed ∷ []

unfoldable pub add_to_removed_history :
    Result Text
    → Option (List RemovedRecipient)
    → Text
    → Text
    → Result (Option (List RemovedRecipient))
add_to_removed_history now removed_recipients recipient_handle kid = do
  removed_at ← now
  let removed : RemovedRecipient = record {
    recipient_handle = recipient_handle;
    kid = kid;
    removed_at = removed_at;
  }
  ok (
      some (elim removed_recipients [
        | some list ↦ upsert_removed_recipient list removed
        | none ↦ removed ∷ []
      ]))

unfoldable pub merge_removed_history :
    Option (List RemovedRecipient) → Option (List RemovedRecipient) → Option (List RemovedRecipient)
merge_removed_history target none = target
merge_removed_history (some new_list) (some old_removed) =
    some (push_missing (build_unique_removed_recipients new_list) old_removed)
merge_removed_history none (some old_removed) = some (build_unique_removed_recipients old_removed)
