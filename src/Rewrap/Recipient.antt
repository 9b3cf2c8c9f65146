-- ===== src/Rewrap/Recipient.antt =====
-- crates/kapsaro-core/src/feature/recipient.rs: recipients named by handle, taken from a snapshot of
-- verified members. A `VerifiedRecipientKey` is the public key that its `document` answers; the
-- warnings that the code logs are left out.
pub mod Built
pub mod Changes
use kapsaro.Base.{
  ℕ, ◌+◌, Bool, true, false, not, List, [], ◌∷◌, ◌++◌, Option, none, some, if◌then◌else◌, Text,
  find, filter, is_empty, length,
}
use kapsaro.Errors.{
  Result, ok, err, ◌>>=◌, ◌>>◌, ok_or, collect, build_config_error, build_not_found_error,
  no_recipients, member_not_in_snapshot,
}
use kapsaro.Text.{text_eq, contains}
use kapsaro.Model.PublicKey.{PublicKey}
use kapsaro.Document.WrapSet.{WrapItem, validate_wrap_count}

abbrev pub subject : PublicKey → Text
subject member = member.protected.subject_handle

abbrev pub check_recipient_exists : List Text → Text → Bool
check_recipient_exists = contains

unfoldable pub validate_not_empty_recipients : List Text → Result (Unit {0})
validate_not_empty_recipients recipients =
    if is_empty recipients then err (build_config_error no_recipients) else ok tt

-- the closure of `resolve_snapshot_verified_recipients`
unfoldable pub resolve_member : List PublicKey → Text → Result PublicKey
resolve_member target_members handle =
    ok_or (find (λ member. text_eq (subject member) handle) target_members)
      (build_not_found_error (member_not_in_snapshot handle))

unfoldable pub resolve_snapshot_verified_recipients :
    List PublicKey → List Text → Result (List PublicKey)
unfolding resolve_member
resolve_snapshot_verified_recipients target_members member_handles =
    collect (resolve_member target_members) member_handles

abbrev pub filter_existing_recipients : List PublicKey → List Text → List PublicKey
filter_existing_recipients recipients current_recipients =
    filter (λ member. not (check_recipient_exists current_recipients (subject member))) recipients

unfoldable pub resolve_new_snapshot_recipients :
    List PublicKey → List Text → List Text → Result (List PublicKey)
unfolding resolve_snapshot_verified_recipients
resolve_new_snapshot_recipients target_members recipient_handles current_recipients = do
  recipients ← resolve_snapshot_verified_recipients target_members recipient_handles
  ok (filter_existing_recipients recipients current_recipients)

module _ (build_wrap : PublicKey → Result WrapItem) where
  unfoldable pub build_new_wrap_items :
      List Text → ℕ → List Text → List PublicKey → Result (List WrapItem)
  unfolding resolve_new_snapshot_recipients
  build_new_wrap_items current_recipients current_wrap_count new_recipients target_members = do
    attested ← resolve_new_snapshot_recipients target_members new_recipients current_recipients
    validate_wrap_count (current_wrap_count + length attested)
    collect build_wrap attested

  unfoldable pub replace_recipient_wrap_items :
      List WrapItem → List Text → List PublicKey → Result (List WrapItem)
  unfolding resolve_snapshot_verified_recipients
  replace_recipient_wrap_items wrap_items recipient_handles target_members = do
    refreshed ← resolve_snapshot_verified_recipients target_members recipient_handles
    pushed ← collect build_wrap refreshed
    ok (filter (λ w. not (contains recipient_handles w.recipient_handle)) wrap_items ++ pushed)
