-- ===== src/Rewrap/File.antt =====
-- crates/kapsaro-core/src/feature/rewrap/file.rs and feature/rewrap/file_op: the rewrap of an encrypted
-- file. The executor borrows its context; here the members and the acting member are arguments.
pub mod Removal
pub mod Laws
pub mod Refines
pub mod Rotation
pub mod Rotated
use kapsaro.Base.{
  ℕ, Bool, true, false, not, List, [], ◌∷◌, ◌++◌, Option, none, some, if◌then◌else◌, Text, find,
  filter, length, map,
}
use kapsaro.Errors.{
  Error, Result, ok, err, ◌>>=◌, ◌>>◌, ok_or, build_invalid_operation_error, unreachable_state,
}
use kapsaro.Text.{text_eq}
use kapsaro.Model.PublicKey.{PublicKey}
use kapsaro.Model.FileEnc.{
  FileEncDocument, FileEncDocumentProtected, FilePayload, FilePayloadHeader, FilePayloadCiphertext,
  handles, recipients,
}
use kapsaro.Document.WrapSet.{WrapItem}
use kapsaro.Document.Removed.{RemovedRecipient, add_to_removed_history}
use kapsaro.Rewrap.Wrap.{Bytes, Sealing, build_wrap_item, build_wraps_for_recipients}
use kapsaro.Rewrap.Recipient.{
  check_recipient_exists, validate_not_empty_recipients, build_new_wrap_items,
  replace_recipient_wrap_items, resolve_snapshot_verified_recipients,
}
use kapsaro.Rewrap.Plan.{
  RewrapOptions, RewrapExecutor, RewrapDocumentAdapter, rewrap_document_with_common_skeleton,
}

-- The keys, the ciphers, the signatures, the verification of a document, JSON and the clock, which
-- the code takes from the key store and from libraries, for one member's keys during one call.
pub record FileCrypto : Type 1 where
  pub Signature : Type 0
  pub SigningContext : Type 0
  pub sealing : Sealing
  pub verify_file_content : Text → Result (FileEncDocument Signature)
  pub unwrap_master_key : FileEncDocument Signature → Text → Result Bytes
  pub verify_key_possession : FileEncDocument Signature → Bytes → Result Bytes
  pub derive_content_key : Bytes → Text → Result Bytes
  pub derive_mac_key : Bytes → Text → Result Bytes
  pub decrypt_file_payload : FileEncDocument Signature → Bytes → Result Bytes
  pub encrypt_file_payload : Bytes → Bytes → FilePayloadHeader → Result FilePayloadCiphertext
  pub generate_key : Result Bytes
  pub build_signing_context : Result SigningContext
  pub sign_file_document : FileEncDocumentProtected → Bytes → SigningContext → Result Signature
  pub to_string_pretty : FileEncDocument Signature → Result Text
  pub now : Result Text

pub data FileContentKeyState : Type 0 where
  unloaded : FileContentKeyState
  original rotated : Bytes → FileContentKeyState

-- `unreachable!` stands as an error of its own.
unfoldable pub as_ref : FileContentKeyState → Result Bytes
as_ref (original content_key) = ok content_key
as_ref (rotated content_key) = ok content_key
as_ref unloaded = err (build_invalid_operation_error unreachable_state)

unfoldable pub is_rotated : FileContentKeyState → Bool
is_rotated (rotated content_key) = true
is_rotated _ = false

-- the handles and kids whose wrapped keys are taken out
unfoldable pub find_removals : List WrapItem → List Text → List (Text × Text)
find_removals wrap [] = []
find_removals wrap (handle ∷ recipients_to_remove) =
    let rest = find_removals wrap recipients_to_remove in
    if not (check_recipient_exists (handles wrap) handle)
    then rest
    else elim (find (λ w. text_eq w.recipient_handle handle) wrap) [
      | some w ↦ (handle, w.kid) ∷ rest
      | none ↦ rest
    ]

unfoldable pub retain_others : List WrapItem → List (Text × Text) → List WrapItem
retain_others wrap [] = wrap
retain_others wrap (r ∷ to_remove) =
    retain_others (filter (λ w. not (text_eq w.recipient_handle r.0)) wrap) to_remove

module _ (c : FileCrypto) where
  open c use {
    Signature, sealing, verify_file_content, unwrap_master_key, verify_key_possession,
    derive_content_key, derive_mac_key, decrypt_file_payload, encrypt_file_payload, generate_key,
    build_signing_context, sign_file_document, to_string_pretty, now,
  }

  unfoldable pub record_removals :
      Option (List RemovedRecipient) → List (Text × Text) → Result (Option (List RemovedRecipient))
  record_removals history [] = ok history
  record_removals history (r ∷ to_remove) =
      add_to_removed_history now history r.0 r.1 >>= λ next. record_removals next to_remove

  unfoldable pub remove_file_recipients :
      FileEncDocumentProtected → List Text → Result FileEncDocumentProtected
  unfolding find_removals retain_others record_removals
  remove_file_recipients protected recipients_to_remove = do
    let to_remove = find_removals protected.wrap recipients_to_remove
    history ← record_removals protected.removed_recipients to_remove
    let remaining = retain_others protected.wrap to_remove
    validate_not_empty_recipients (handles remaining)
    ok (record protected { removed_recipients = history; wrap = remaining })

  unfoldable pub add_file_recipients :
      FileEncDocumentProtected
      → Bytes
      → List Text
      → List PublicKey
      → Result FileEncDocumentProtected
  add_file_recipients protected content_key new_recipients target_members = do
    wrap_items ←
        build_new_wrap_items (λ member. build_wrap_item sealing member protected.sid content_key)
          (recipients protected) (length protected.wrap) new_recipients target_members
    ok (record protected { wrap = protected.wrap ++ wrap_items })

  unfoldable pub rewrite_file_recipient_wraps :
      FileEncDocumentProtected
      → Bytes
      → List Text
      → List PublicKey
      → Result FileEncDocumentProtected
  rewrite_file_recipient_wraps protected content_key recipients_to_refresh target_members = do
    wrap ←
        replace_recipient_wrap_items
          (λ member. build_wrap_item sealing member protected.sid content_key) protected.wrap
          recipients_to_refresh target_members
    ok (record protected { wrap = wrap })

  -- the changed document part and the new key
  unfoldable pub rotate_file_key :
      FileEncDocumentProtected
      → FileEncDocument Signature
      → Bytes
      → List PublicKey
      → Result (FileEncDocumentProtected × Bytes)
  rotate_file_key protected verified old_content_key target_members = do
    old_payload_key ← derive_content_key old_content_key protected.sid
    plaintext ← decrypt_file_payload verified old_payload_key
    new_content_key ← generate_key
    new_xchacha_key ← derive_content_key new_content_key protected.sid
    encrypted ← encrypt_file_payload plaintext new_xchacha_key protected.payload.protected
    attested ← resolve_snapshot_verified_recipients target_members (recipients protected)
    wrap ← build_wraps_for_recipients sealing attested protected.sid new_content_key
    ok (
      record protected {
        payload = record { protected = protected.payload.protected; encrypted = encrypted };
        wrap = wrap;
      },
      new_content_key,
    )

  pub record FileRewrapExecutor : Type 0 where
    pub protected : FileEncDocumentProtected
    pub verified : FileEncDocument Signature
    pub content_key : FileContentKeyState

  unfoldable pub new_executor : FileEncDocument Signature → FileRewrapExecutor
  new_executor verified = record {
    protected = verified.protected;
    verified = verified;
    content_key = unloaded;
  }

  unfoldable pub unwrap_verified_file_content_key : FileEncDocument Signature → Text → Result Bytes
  unwrap_verified_file_content_key verified member_handle = do
    master_key ← unwrap_master_key verified member_handle
    verify_key_possession verified master_key

  module _ (member_handle : Text) (target_members : List PublicKey) where
    unfoldable pub ensure_content_key : FileRewrapExecutor → Result FileRewrapExecutor
    unfolding unwrap_verified_file_content_key
    ensure_content_key e = elim e.content_key [
      | unloaded ↦ do
        content_key ← unwrap_verified_file_content_key e.verified member_handle
        ok (record e { content_key = original content_key })
      | original k ↦ ok e
      | rotated k ↦ ok e
    ]

    unfoldable pub add_recipients : FileRewrapExecutor → List Text → Result FileRewrapExecutor
    unfolding ensure_content_key as_ref add_file_recipients
    add_recipients e new_recipients = do
      loaded ← ensure_content_key e
      content_key ← as_ref loaded.content_key
      protected ← add_file_recipients loaded.protected content_key new_recipients target_members
      ok (record loaded { protected = protected })

    unfoldable pub rewrite_recipient_wraps :
        FileRewrapExecutor → List Text → Result FileRewrapExecutor
    unfolding ensure_content_key as_ref rewrite_file_recipient_wraps
    rewrite_recipient_wraps e refreshed = do
      loaded ← ensure_content_key e
      content_key ← as_ref loaded.content_key
      protected ← rewrite_file_recipient_wraps loaded.protected content_key refreshed target_members
      ok (record loaded { protected = protected })

    unfoldable pub rotate_key : FileRewrapExecutor → Result FileRewrapExecutor
    unfolding ensure_content_key as_ref rotate_file_key is_rotated
    rotate_key e = if is_rotated e.content_key then ok e else do
      loaded ← ensure_content_key e
      content_key ← as_ref loaded.content_key
      changed ← rotate_file_key loaded.protected loaded.verified content_key target_members
      ok (record loaded { protected = changed.0; content_key = rotated changed.1 })

    unfoldable pub remove_recipients : FileRewrapExecutor → List Text → Result FileRewrapExecutor
    unfolding remove_file_recipients rotate_key
    remove_recipients e removed = do
      protected ← remove_file_recipients e.protected removed
      rotate_key (record e { protected = protected })

    abbrev pub clear_disclosure_history : FileRewrapExecutor → Result FileRewrapExecutor
    clear_disclosure_history e =
        ok (record e { protected = record e.protected { removed_recipients = none } })

    unfoldable pub finalize : FileRewrapExecutor → Result Text
    unfolding ensure_content_key as_ref
    finalize e = do
      loaded ← ensure_content_key e
      updated_at ← now
      let protected : FileEncDocumentProtected = record loaded.protected { updated_at = updated_at }
      signing ← build_signing_context
      content_key ← as_ref loaded.content_key
      mac_key ← derive_mac_key content_key protected.sid
      signature ← sign_file_document protected mac_key signing
      to_string_pretty (record { protected = protected; signature = signature })

    abbrev pub file_executor : RewrapExecutor FileRewrapExecutor
    file_executor = record {
      current_recipients = λ e. recipients e.protected;
      add_recipients = add_recipients;
      rewrite_recipient_wraps = rewrite_recipient_wraps;
      remove_recipients = remove_recipients;
      rotate_key = rotate_key;
      clear_disclosure_history = clear_disclosure_history;
      finalize = finalize;
    }

    abbrev pub file_adapter :
        RewrapDocumentAdapter Text (FileEncDocument Signature) FileRewrapExecutor
    file_adapter = record {
      verify_content = verify_file_content;
      current_wrap_items = λ verified. verified.protected.wrap;
      build_executor = λ verified. ok (new_executor verified);
    }

    unfoldable pub rewrap_file_document : RewrapOptions → Text → Result Text
    unfolding rewrap_document_with_common_skeleton
    rewrap_file_document options content =
        rewrap_document_with_common_skeleton file_adapter file_executor options content
          target_members
