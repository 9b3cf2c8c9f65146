-- ===== src/Kv/Document.antt =====
-- crates/kapsaro-core/src/format/kv/document/parse.rs, and `validate_kv_tokens` of structure.rs: a
-- kv-enc document from its text.
pub mod Entries
pub mod RoundTrip
use kapsaro.Base.{List, [], ◌∷◌, ◌++◌, Option, none, some, if◌then◌else◌, Text}
use kapsaro.Errors.{
  Result, ok, err, ◌>>=◌, ◌>>◌, ok_or, build_parse_error, build_crypto_error, invalid_entry_token,
  no_signature,
}
use kapsaro.Text.{codes, text_eq}
use kapsaro.Model.KvEnc.{KvHeader, KvWrap, KvEntryValue, KvEncEntry, KvEncDocument}
use kapsaro.Kv.Line.{KvEncLine, header, head, wrap, kv, sig, empty}
use kapsaro.Kv.Enc.{parse_all, extract_kv_header_tokens}
use kapsaro.Kv.Structure.{validate_kv_file_structure}

-- The token parsers of format/schema/document.rs, which call `serde_json`, each with the name of
-- the source that it puts into an error.
pub record TokenParsers : Type 1 where
  pub Signature : Type 0
  pub parse_kv_head_token : Text → Text → Result KvHeader
  pub parse_kv_wrap_token : Text → Text → Result KvWrap
  pub parse_kv_entry_token : Text → Text → Result KvEntryValue
  pub parse_kv_signature_token : Text → Text → Result Signature

unfoldable pub token_source : Text → Text → Text
token_source source_name token_name =
    if text_eq source_name token_name
    then token_name
    else source_name ++ (codes " (" ++ (token_name ++ codes ")"))

module _ (p : TokenParsers) where
  open p use {
    Signature, parse_kv_head_token, parse_kv_wrap_token, parse_kv_entry_token,
    parse_kv_signature_token,
  }

  pub record KvTokenSet : Type 0 where
    pub entries : List KvEncEntry
    pub signature : Signature

  unfoldable pub validate_entry_token : Text → Text → Text → Result KvEncEntry
  validate_entry_token key token source_name =
      elim (parse_kv_entry_token token (token_source source_name (codes "KV entry token"))) [
        | ok value ↦ ok (record { key = key; token = token; value = value })
        | err e ↦ err (build_parse_error (invalid_entry_token key))
      ]

  -- the loop; `entries` grows at its end
  unfoldable pub validate_tokens_from :
      Text
      → List KvEncEntry
      → Option Signature
      → List KvEncLine
      → Result (List KvEncEntry × Option Signature)
  unfolding validate_entry_token
  validate_tokens_from source_name entries signature [] = ok (entries, signature)
  validate_tokens_from source_name entries signature (wrap token ∷ lines) =
      parse_kv_wrap_token token (token_source source_name (codes "WRAP token")) >>= λ _.
      validate_tokens_from source_name entries signature lines
  validate_tokens_from source_name entries signature (kv key token ∷ lines) =
      validate_entry_token key token source_name >>= λ entry.
      validate_tokens_from source_name (entries ++ entry ∷ []) signature lines
  validate_tokens_from source_name entries signature (sig token ∷ lines) =
      parse_kv_signature_token token (token_source source_name (codes "SIG token")) >>= λ found.
      validate_tokens_from source_name entries (some found) lines
  validate_tokens_from source_name entries signature (header version ∷ lines) =
      validate_tokens_from source_name entries signature lines
  validate_tokens_from source_name entries signature (head token ∷ lines) =
      validate_tokens_from source_name entries signature lines
  validate_tokens_from source_name entries signature (empty ∷ lines) =
      validate_tokens_from source_name entries signature lines

  unfoldable pub validate_kv_tokens : List KvEncLine → Text → Result KvTokenSet
  unfolding validate_tokens_from
  validate_kv_tokens lines source_name = do
    collected ← validate_tokens_from source_name [] none lines
    signature ← ok_or collected.1 (build_crypto_error no_signature)
    ok (record { entries = collected.0; signature = signature })

  unfoldable pub parse_kv_document : Text → Text → Result (KvEncDocument Signature)
  unfolding validate_kv_tokens
  parse_kv_document content source_name = do
    lines ← parse_all content
    validate_kv_file_structure lines
    validated ← validate_kv_tokens lines source_name
    tokens ← extract_kv_header_tokens lines
    head_ ← parse_kv_head_token tokens.0 (token_source source_name (codes "HEAD token"))
    wrap_ ← parse_kv_wrap_token tokens.1 (token_source source_name (codes "WRAP token"))
    ok (record {
      lines = lines;
      head = head_;
      wrap = wrap_;
      wrap_token = tokens.1;
      entries = validated.entries;
      signature = validated.signature;
    })
