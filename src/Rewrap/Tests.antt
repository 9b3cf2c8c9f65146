-- ===== src/Rewrap/Tests.antt =====
-- A rewrap of an encrypted file on concrete inputs, with ciphers that hide nothing.
use kapsaro.Base.{[], ◌∷◌, ◌++◌, ◌≡◌, refl, List, Text, none, false, inl, All}
use kapsaro.Errors.{ok, collect}
use kapsaro.Text.{codes, text_eq, sort, sort_insert, text_leb}
use kapsaro.Model.PublicKey.{PublicKey}
use kapsaro.Model.FileEnc.{FileEncDocument}
use kapsaro.Document.WrapSet.{WrapItem, validate_wrap_count}
use kapsaro.Document.Removed.{add_to_removed_history, upsert_removed_recipient}
use kapsaro.Rewrap.Wrap.{Bytes, Sealing, build_wrap_item, build_wraps_for_recipients}
use kapsaro.Rewrap.Recipient.{
  validate_not_empty_recipients, resolve_member, resolve_snapshot_verified_recipients,
  resolve_new_snapshot_recipients, build_new_wrap_items, replace_recipient_wrap_items,
}
use kapsaro.Rewrap.Plan.{
  RewrapOptions, rewrap_document_with_common_skeleton, rewrite_with_rewrap_operation_plan,
  build_rewrap_operation_plan, collect_stale_recipient_handles, collect_target_member_handles,
  apply_rewrap_operation_plan, apply_recipient_step, apply_flag_step,
}
use kapsaro.Rewrap.Plan.Stale.{HasUniqueHandles}
use kapsaro.Rewrap.Plan.Target.{IsAddressedTo}
use kapsaro.Rewrap.File.{
  FileCrypto, as_ref, is_rotated, find_removals, retain_others, record_removals,
  remove_file_recipients, add_file_recipients, rewrite_file_recipient_wraps, rotate_file_key,
  new_executor, unwrap_verified_file_content_key, ensure_content_key, add_recipients,
  rewrite_recipient_wraps, rotate_key, remove_recipients, finalize, rewrap_file_document,
}
use kapsaro.Rewrap.File.Refines.{rewrap_file_document-IsAddressedTo}
use kapsaro.Rewrap.File.Rotation.{IsSealed}
use kapsaro.Rewrap.File.Rotated.{NeedsNewKey, rewrap_file_document-generate_key}

abbrev pub alice : Text
alice = codes "alice"

abbrev bob : Text
bob = codes "bob"

abbrev carol : Text
carol = codes "carol"

abbrev pub member : Text → Text → PublicKey
member handle kid = record {
  protected = record {
    format = codes "k";
    subject_handle = handle;
    kid = kid;
    keys = record {
      kem = record { kty = []; crv = []; x = codes "x" };
      sig = record { kty = []; crv = []; x = codes "y" };
    };
    binding_claims = none;
    attestation = record { method = []; pub_ = []; sig = [] };
    expires_at = [];
    created_at = none;
  };
  signature = [];
}

abbrev item : Text → Text → WrapItem
item handle kid = record {
  recipient_handle = handle;
  kid = kid;
  alg = codes "hpke-32-1-3";
  enc = codes "e";
  ct = codes "c";
}

-- addressed to Alice and Bob
abbrev stored : FileEncDocument Text
stored = record {
  protected = record {
    format = codes "f";
    sid = codes "s";
    wrap = item alice (codes "1") ∷ item bob (codes "2") ∷ [];
    removed_recipients = none;
    payload = record {
      protected = record { format = codes "p"; sid = codes "s"; alg = record { aead = codes "x" } };
      encrypted = record { nonce = []; ct = codes "c" };
    };
    created_at = codes "t";
    updated_at = codes "t";
  };
  signature = codes "g";
}

abbrev shown : List WrapItem → Text
shown [] = []
shown (w ∷ ws) = w.recipient_handle ++ (w.kid ++ (w.ct ++ (codes ";" ++ shown ws)))

-- a wrapped key shows the key that it holds
abbrev pub sealing : Sealing
sealing = record {
  info_builder = λ sid kid. ok kid;
  decode_kem_key = λ x. ok x;
  seal_base = λ pk info aad key. ok (pk, key);
  encode = λ x. x;
}

abbrev crypto : FileCrypto
crypto = record {
  Signature = Text;
  SigningContext = Text;
  sealing = sealing;
  verify_file_content = λ content. ok stored;
  unwrap_master_key = λ doc handle. ok (codes "old");
  verify_key_possession = λ doc key. ok key;
  derive_content_key = λ key sid. ok key;
  derive_mac_key = λ key sid. ok key;
  decrypt_file_payload = λ doc key. ok (codes "plain");
  encrypt_file_payload = λ plain key header. ok (record { nonce = []; ct = plain ++ key });
  generate_key = ok (codes "new");
  build_signing_context = ok (codes "k");
  sign_file_document = λ protected key signing. ok signing;
  to_string_pretty = λ doc. ok (shown doc.protected.wrap);
  now = ok (codes "u");
}

-- Alice has another key, Bob has left and Carol has come
abbrev members : List PublicKey
members = member carol (codes "3") ∷ member alice (codes "4") ∷ []

abbrev options : RewrapOptions
options = record { rotate_key = false; clear_disclosure_history = false }

abbrev written : Text
written = codes "alice4new;carol3new;"

rewrapped : rewrap_file_document crypto alice members options (codes "text") ≡ ok written
unfolding rewrap_file_document rewrap_document_with_common_skeleton
    rewrite_with_rewrap_operation_plan apply_rewrap_operation_plan build_rewrap_operation_plan
    collect_stale_recipient_handles collect_target_member_handles apply_recipient_step
    apply_flag_step remove_recipients add_recipients rewrite_recipient_wraps rotate_key finalize
    ensure_content_key unwrap_verified_file_content_key new_executor as_ref is_rotated
    remove_file_recipients find_removals retain_others record_removals add_file_recipients
    rewrite_file_recipient_wraps rotate_file_key build_new_wrap_items replace_recipient_wrap_items
    resolve_new_snapshot_recipients resolve_snapshot_verified_recipients resolve_member
    validate_not_empty_recipients build_wrap_item build_wraps_for_recipients validate_wrap_count
    collect add_to_removed_history upsert_removed_recipient text_eq sort sort_insert text_leb
rewrapped = refl

distinct : HasUniqueHandles stored.protected.wrap
unfolding text_eq
distinct = (refl, (refl, tt))

rewrap_file_document-IsAddressedTo_example :
    (doc : FileEncDocument Text) × (crypto.to_string_pretty doc ≡ ok written)
    × IsAddressedTo members doc.protected.wrap
rewrap_file_document-IsAddressedTo_example =
    rewrap_file_document-IsAddressedTo crypto alice members options (codes "text") written stored
      refl distinct rewrapped

bob_left : NeedsNewKey crypto alice members options stored
unfolding text_eq
bob_left = inl (bob, refl, refl)

rewrap_file_document-generate_key_example :
    (doc : FileEncDocument Text) × (key : Bytes) × (crypto.to_string_pretty doc ≡ ok written)
    × (crypto.generate_key ≡ ok key)
    × All (IsSealed crypto alice members doc.protected.sid key) doc.protected.wrap
rewrap_file_document-generate_key_example =
    rewrap_file_document-generate_key crypto alice members options (codes "text") written stored
      refl bob_left rewrapped
