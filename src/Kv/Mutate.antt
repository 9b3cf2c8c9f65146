-- ===== src/Kv/Mutate.antt =====
-- crates/kapsaro-core/src/feature/kv/mutate.rs, with header.rs, entry_codec.rs, sign.rs and the session
-- of feature/kv that it calls: setting and unsetting keys of a kv-enc document. A secret value is its
-- text, and a document is the text that `KvEncContent` holds.
pub mod Tokens
pub mod Effect
use kapsaro.Base.{
  Bool, true, false, not, List, [], ◌∷◌, Option, none, some, if◌then◌else◌, Text, any,
}
use kapsaro.Errors.{
  Error, Result, ok, err, ◌>>=◌, ◌>>◌, with_recovery, build_invalid_operation_error, key_not_found,
  kv_key_not_found,
}
use kapsaro.Text.{text_eq, Map, insert}
use kapsaro.Model.PublicKey.{PublicKey}
use kapsaro.Model.KvEnc.{KvHeader, KvWrap, KvEntryValue, KvEncDocument}
use kapsaro.Kv.Line.{KvEncLine}
use kapsaro.Kv.Draft.{
  Codec, TokenCodec, json_jcs, KvDocumentDraft, from_document, set_entries, unset_entry, set_wrap,
  serialize_unsigned,
}
use kapsaro.Document.Removed.{RemovedRecipient}
use kapsaro.Rewrap.Wrap.{Bytes, Sealing, build_wraps_for_recipients}

-- The verification of a document, the keys, the ciphers, the signatures and the clock, for one
-- member's keys during one call.
pub record KvCrypto : Type 1 where
  pub Signature : Type 0
  pub Schedule : Type 0
  pub SigningContext : Type 0
  pub codec : Codec
  pub sealing : Sealing
  pub verify_kv_content : Text → Result (KvEncDocument Signature)
  pub unwrap_master_key : KvEncDocument Signature → Result Bytes
  pub extract_schedule : Bytes → Text → Result Schedule
  pub encrypt_entry : Text → Text → Schedule → Text → Bool → Result KvEntryValue
  pub derive_mac_key : Schedule → Result Bytes
  pub build_signing_context : Result SigningContext
  pub sign_kv_document : Text → Bytes → SigningContext → TokenCodec → Result Text
  pub now : Result Text

pub record KvInputEntry : Type 0 where
  pub key : Text
  pub value : Text

-- feature/kv/error.rs
abbrev pub build_key_not_found_error : Text → Error
build_key_not_found_error key =
    with_recovery (build_invalid_operation_error (key_not_found key)) kv_key_not_found

abbrev has_key : Text → KvEncLine → Bool
has_key key (KvEncLine.kv existing token) = text_eq existing key
has_key key _ = false

abbrev pub contains_key : List KvEncLine → Text → Bool
contains_key lines key = any (has_key key) lines

-- `TokenCodec::detect` knows one codec.
abbrev pub detect_token_codec : Text → Option TokenCodec → TokenCodec
detect_token_codec wrap_token (some codec) = codec
detect_token_codec wrap_token none = json_jcs

module _ (c : KvCrypto) where
  open c use {
    Signature, Schedule, SigningContext, codec, sealing, verify_kv_content, unwrap_master_key,
    extract_schedule, encrypt_entry, derive_mac_key, build_signing_context, sign_kv_document, now,
  }
  open codec use {encode_value}

  unfoldable pub build_updated_header : KvEncDocument Signature → Result KvHeader
  build_updated_header doc = do updated_at ← now; ok (record doc.head { updated_at = updated_at })

  unfoldable pub encode_encrypted_entry : Text → Text → Schedule → Text → TokenCodec → Result Text
  encode_encrypted_entry key value key_schedule sid token_codec = do
    new_entry ← encrypt_entry key value key_schedule sid false
    encode_value token_codec new_entry

  -- the loop of `build_entry_tokens`, which inserts into a map
  unfoldable pub insert_tokens :
      Map Text → List KvInputEntry → Schedule → Text → TokenCodec → Result (Map Text)
  unfolding encode_encrypted_entry
  insert_tokens tokens [] key_schedule sid token_codec = ok tokens
  insert_tokens tokens (entry ∷ entries) key_schedule sid token_codec =
      encode_encrypted_entry entry.key entry.value key_schedule sid token_codec >>= λ token.
      insert_tokens (insert entry.key token tokens) entries key_schedule sid token_codec

  unfoldable pub build_entry_tokens :
      List KvInputEntry → Bytes → Text → TokenCodec → Result (Map Text)
  unfolding insert_tokens
  build_entry_tokens entries master_key sid token_codec = do
    key_schedule ← extract_schedule master_key sid
    insert_tokens [] entries key_schedule sid token_codec

  unfoldable pub build_current_wrap :
      Text → List PublicKey → Bytes → Option (List RemovedRecipient) → Result KvWrap
  build_current_wrap sid verified_members master_key removed_recipients = do
    wrap ← build_wraps_for_recipients sealing verified_members sid master_key
    ok (record { wrap = wrap; removed_recipients = removed_recipients })

  -- feature/kv/sign.rs and `VerifiedKvRewriteSession::sign`
  unfoldable pub sign_unsigned : KvDocumentDraft → Bytes → Result Text
  sign_unsigned unsigned master_key = do
    signing ← build_signing_context
    schedule ← extract_schedule master_key unsigned.head.sid
    mac_key ← derive_mac_key schedule
    content ← serialize_unsigned codec unsigned
    sign_kv_document content mac_key signing unsigned.token_codec

  module _ (override_codec : Option TokenCodec) where
    unfoldable pub rewrite_existing_kv_content :
        Text
        → List PublicKey
        → (KvDocumentDraft → KvEncDocument Signature → Bytes → Result KvDocumentDraft)
        → Result Text
    unfolding build_updated_header build_current_wrap sign_unsigned
    rewrite_existing_kv_content content verified_members mutate_unsigned = do
      doc ← verify_kv_content content
      head ← build_updated_header doc
      master_key ← unwrap_master_key doc
      unsigned ←
          from_document codec head none doc (detect_token_codec doc.wrap_token override_codec)
      mutated ← mutate_unsigned unsigned doc master_key
      wrap ← build_current_wrap doc.head.sid verified_members master_key doc.wrap.removed_recipients
      sign_unsigned (set_wrap wrap mutated) master_key

    -- the closures
    unfoldable pub mutate_set :
        List KvInputEntry
        → KvDocumentDraft
        → KvEncDocument Signature
        → Bytes
        → Result KvDocumentDraft
    unfolding build_entry_tokens
    mutate_set entries unsigned doc master_key = do
      new_entries ←
          build_entry_tokens entries master_key doc.head.sid
            (detect_token_codec doc.wrap_token override_codec)
      ok (set_entries new_entries unsigned)

    unfoldable pub mutate_unset :
        Text → KvDocumentDraft → KvEncDocument Signature → Bytes → Result KvDocumentDraft
    mutate_unset key unsigned doc master_key =
        if not (contains_key doc.lines key)
        then err (build_key_not_found_error key)
        else ok (unset_entry key unsigned)

    unfoldable pub set_kv_existing_file : Text → List KvInputEntry → List PublicKey → Result Text
    unfolding rewrite_existing_kv_content mutate_set
    set_kv_existing_file content entries verified_members =
        rewrite_existing_kv_content content verified_members (mutate_set entries)

    unfoldable pub unset_kv_entry_with_recipients : Text → Text → List PublicKey → Result Text
    unfolding rewrite_existing_kv_content mutate_unset
    unset_kv_entry_with_recipients content key verified_members =
        rewrite_existing_kv_content content verified_members (mutate_unset key)
